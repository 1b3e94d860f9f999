-- ===== src/Plan/Outcome.antt =====
-- The errors of app/report_v22/action_errors.py, and a computation that may end in one.
use search_trust_rd.Prelude.{Bool, true, false, ◌≡◌, refl}

pub data ActionErrorKind : Type 0 where
  input_invalid reference_invalid unsupported_finding insufficient : ActionErrorKind
  id_conflict dependency_invalid limit_exceeded date_invalid : ActionErrorKind

-- `unfinished`: the fuel of a loop ran out.
pub data Outcome {ℓ} (A : Type ℓ) : Type ℓ where
  ok : A → Outcome A
  raised : ActionErrorKind → Outcome A
  unfinished : Outcome A

infixl 5 ◌>>=◌ ◌>>◌
abbrev pub ◌>>=◌ {ℓ κ} : {A : Type ℓ} {B : Type κ} → Outcome A → (A → Outcome B) → Outcome B
◌>>=◌ unfinished next = unfinished
◌>>=◌ (raised kind) next = raised kind
◌>>=◌ (ok value) next = next value

-- `if test: raise PublicActionError(kind)`
abbrev pub refuse_if : Bool → ActionErrorKind → Outcome (Unit {0})
refuse_if true kind = raised kind
refuse_if false kind = ok tt

abbrev pub ◌>>◌ {ℓ} : {B : Type ℓ} → Outcome (Unit {0}) → Outcome B → Outcome B
check >> after = check >>= λ done. after

-- The parts of a chain that ended well.
pub >>=-eq-ok {ℓ κ} :
    {A : Type ℓ} {B : Type κ} (first : Outcome A) (next : A → Outcome B) {result : B}
    → (first >>= next) ≡ ok result
    → (value : A) × (first ≡ ok value) × (next value ≡ ok result)
>>=-eq-ok unfinished next ended = cc
>>=-eq-ok (raised kind) next ended = cc
>>=-eq-ok (ok value) next ended = (value, refl, ended)

pub refuse_if-eq-ok {ℓ} :
    {B : Type ℓ} (test : Bool) (kind : ActionErrorKind) (after : Outcome B) {result : B}
    → (refuse_if test kind >> after) ≡ ok result
    → (test ≡ false) × (after ≡ ok result)
refuse_if-eq-ok true kind after ended = cc
refuse_if-eq-ok false kind after ended = (refl, ended)

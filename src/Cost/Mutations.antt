-- ===== src/Cost/Mutations.antt =====
-- Each mutation of app/jobs_v22/cost_ledger.py lets the ledger only grow.
use search_trust_rd.Prelude.{
  ℕ, ◌≡◌, refl, sym, ap, ◌∙◌, subst, Bool, true, false, Bool-cases, inl, inr, Option, none, some,
  List, [], ◌∷◌, ◌==◌, leb, arith, if◌then◌else◌,
}
use search_trust_rd.Model.{Result, ok, err, cost_claim_conflict}
use search_trust_rd.Cost.Claims.{
  CostOperation, operation_eq, operation_limit, CostAttemptPhase, CostClaim, completed, valid_claim,
}
use search_trust_rd.Cost.Book.{
  CostLedgerState, find_claim, used, new_claim, denied, claimed, claim_known, claim_mutation,
}
use search_trust_rd.Cost.Ledger.{
  Completion, completed_claim, same_completion, put_claim, with_claim, complete_found,
  complete_mutation, hit_mutation, attempt_mutation,
}
use search_trust_rd.Cost.Growth.{
  ClaimKept, ClaimsKept, Grows, kept_refl, claims_refl, Grows-refl, appended,
}
use search_trust_rd.Cost.Limits.{claimed-WithinLimits}

claimed-Grows :
    (id : ℕ) (op : CostOperation) (now : ℕ) (s : CostLedgerState)
    → leb (operation_limit op) (used op s.claims) ≡ false
    → Grows s (claimed id op now s)
unfolding claimed
claimed-Grows id op now s free = record {
  same_job = refl;
  same_pricing = refl;
  same_start = refl;
  revisions = omega arith;
  hits = omega arith;
  attempts = omega arith;
  kept = appended s.claims (new_claim id op now ∷ []);
  bounded = claimed-WithinLimits id op now s free;
}

the_claim : (c d : CostClaim) → some c ≡ some d → c ≡ d
the_claim c d e = ap (λ o. elim o [ none ↦ c | some x ↦ x ]) e

contrary : false ≡ true → ⊥
contrary e = ground arith

completed-ClaimKept :
    (now : ℕ) (a : Completion) (current : CostClaim)
    → completed current ≡ false
    → ClaimKept current (completed_claim a now current)
unfolding completed_claim
completed-ClaimKept now a current pending = record {
  same_id = refl;
  same_operation = refl;
  same_provider = refl;
  same_time = refl;
  final = λ done. absurd (contrary (sym pending ∙ done));
}

-- The claim that completion replaces, where it stands.
replaced :
    (b : Bool) (id now : ℕ) (a : Completion) (current c : CostClaim) (cs : List CostClaim)
    → (if b then some c else find_claim id cs) ≡ some current
    → completed current ≡ false
    → (find_claim id cs ≡ some current
        → ClaimsKept cs (put_claim id (completed_claim a now current) cs))
    → ClaimsKept (c ∷ cs) (
        if b
        then completed_claim a now current ∷ cs
        else c ∷ put_claim id (completed_claim a now current) cs)
replaced true id now a current c cs found pending later = (
  subst (λ x. ClaimKept x (completed_claim a now current)) (sym (the_claim c current found))
      (completed-ClaimKept now a current pending),
  claims_refl cs,
)
replaced false id now a current c cs found pending later = (kept_refl c, later found)

put-ClaimsKept :
    (id now : ℕ) (a : Completion) (current : CostClaim) (cs : List CostClaim)
    → find_claim id cs ≡ some current
    → completed current ≡ false
    → ClaimsKept cs (put_claim id (completed_claim a now current) cs)
unfolding find_claim put_claim
put-ClaimsKept id now a current [] found pending = tt
put-ClaimsKept id now a current (c ∷ cs) found pending =
    replaced (c.claim_id == id) id now a current c cs found pending
      (λ e. put-ClaimsKept id now a current cs e pending)

used_replaced :
    (b : Bool) (op : CostOperation) (id now : ℕ) (a : Completion) (current c : CostClaim)
    (cs : List CostClaim)
    → (if b then some c else find_claim id cs) ≡ some current
    → (find_claim id cs ≡ some current
        → used op (put_claim id (completed_claim a now current) cs) ≡ used op cs)
    → used op (
        if b
        then completed_claim a now current ∷ cs
        else c ∷ put_claim id (completed_claim a now current) cs)
      ≡ used op (c ∷ cs)
unfolding completed_claim used
used_replaced true op id now a current c cs found later = rw (the_claim c current found) refl
used_replaced false op id now a current c cs found later = rw (later found) refl

put-used :
    (op : CostOperation) (id now : ℕ) (a : Completion) (current : CostClaim) (cs : List CostClaim)
    → find_claim id cs ≡ some current
    → used op (put_claim id (completed_claim a now current) cs) ≡ used op cs
unfolding find_claim put_claim
put-used op id now a current [] found = refl
put-used op id now a current (c ∷ cs) found =
    used_replaced (c.claim_id == id) op id now a current c cs found
      (λ e. put-used op id now a current cs e)

with_claim-Grows :
    (id now : ℕ) (a : Completion) (current : CostClaim) (s : CostLedgerState)
    → find_claim id s.claims ≡ some current
    → completed current ≡ false
    → Grows s (with_claim id (completed_claim a now current) now s)
unfolding with_claim
with_claim-Grows id now a current s found pending = record {
  same_job = refl;
  same_pricing = refl;
  same_start = refl;
  revisions = omega arith;
  hits = omega arith;
  attempts = omega arith;
  kept = put-ClaimsKept id now a current s.claims found pending;
  bounded = λ h op. rw (put-used op id now a current s.claims found) (h op);
}

denied-Grows : (op : CostOperation) (now : ℕ) (s : CostLedgerState) → Grows s (denied op now s)
unfolding denied
denied-Grows op now s = record {
  same_job = refl;
  same_pricing = refl;
  same_start = refl;
  revisions = omega arith;
  hits = omega arith;
  attempts = omega arith;
  kept = claims_refl s.claims;
  bounded = λ h. h;
}

-- What a mutation makes of a ledger, when it makes one, has grown from it.
abbrev pub ResultGrows : {A : Type 0} → CostLedgerState → Result (CostLedgerState × A) → Type 0
ResultGrows s (err e) = Unit
ResultGrows s (ok (t, a)) = Grows s t

known-ResultGrows :
    (known : Option CostClaim) (id : ℕ) (op : CostOperation) (s : CostLedgerState) (now : ℕ)
    → ResultGrows s (claim_known known id op s now)
known-ResultGrows (some c) id op s now = elim (Bool-cases (operation_eq c.operation op)) [
  | inl e ↦ rw e (Grows-refl s)
  | inr e ↦ rw e tt
]
known-ResultGrows none id op s now =
    elim (Bool-cases (leb (operation_limit op) (used op s.claims))) [
      | inl e ↦ rw e (denied-Grows op now s)
      | inr e ↦ rw e (claimed-Grows id op now s e)
    ]

pub claim-ResultGrows :
    (id : ℕ) (op : CostOperation) (s : CostLedgerState) (now : ℕ)
    → ResultGrows s (claim_mutation id op s now)
unfolding claim_mutation
claim-ResultGrows id op s now = known-ResultGrows (find_claim id s.claims) id op s now

again-ResultGrows :
    (same : Bool) (s : CostLedgerState) (c : CostClaim)
    → ResultGrows s (if same then ok (s, c) else err cost_claim_conflict)
again-ResultGrows true s c = Grows-refl s
again-ResultGrows false s c = tt

found-ResultGrows :
    (found : Option CostClaim) (id : ℕ) (a : Completion) (s : CostLedgerState) (now : ℕ)
    → find_claim id s.claims ≡ found
    → ResultGrows s (complete_found found id a s now)
found-ResultGrows none id a s now e = tt
found-ResultGrows (some c) id a s now e =
    elim (Bool-cases (valid_claim (completed_claim a now c))) [
      | inr bad ↦ rw bad tt
      | inl good ↦ elim (Bool-cases (completed c)) [
        | inl done ↦ rw (good, done) (again-ResultGrows (same_completion a c) s c)
        | inr pending ↦ rw (good, pending) (with_claim-Grows id now a c s e pending)
      ]
    ]

pub complete-ResultGrows :
    (id : ℕ) (a : Completion) (s : CostLedgerState) (now : ℕ)
    → ResultGrows s (complete_mutation id a s now)
unfolding complete_mutation
complete-ResultGrows id a s now = found-ResultGrows (find_claim id s.claims) id a s now refl

pub hit-ResultGrows :
    (count : ℕ) (s : CostLedgerState) (now : ℕ) → ResultGrows s (hit_mutation count s now)
unfolding hit_mutation
hit-ResultGrows count s now = record {
  same_job = refl;
  same_pricing = refl;
  same_start = refl;
  revisions = omega arith;
  hits = omega arith;
  attempts = omega arith;
  kept = claims_refl s.claims;
  bounded = λ h. h;
}

pub attempt-ResultGrows :
    (ms : ℕ) (phase : CostAttemptPhase) (s : CostLedgerState) (now : ℕ)
    → ResultGrows s (attempt_mutation ms phase s now)
unfolding attempt_mutation
attempt-ResultGrows ms phase s now = record {
  same_job = refl;
  same_pricing = refl;
  same_start = refl;
  revisions = omega arith;
  hits = omega arith;
  attempts = omega arith;
  kept = claims_refl s.claims;
  bounded = λ h. h;
}

-- ===== src/Plan/Schedule/Pending.antt =====
-- The actions that the ordering has still to place.
use mathlib.Core.List.{Perm}
use mathlib.Core.List.Perm
use search_trust_rd.Prelude.{
  ℕ, ◌+◌, ◌<◌, ◌≡◌, refl, sym, ap, subst, true, false, not, ◌&&◌, ◌⊎◌, inl, inr, List, [], ◌∷◌,
  ◌==◌, All, length, arith, if◌then◌else◌, Bool-cases, ==_iff, ==_refl,
}
use search_trust_rd.Plan.Targets.{has}
use search_trust_rd.Plan.Candidates.{ActionCandidate, ids_of, all_distinct}
use search_trust_rd.Plan.Schedule.{available, within}

-- An element of a list.
abbrev pub In : {A : Type 0} → A → List A → Type 0
In a [] = ⊥
In a (x ∷ xs) = (x ≡ a) ⊎ In a xs

pub In-All {κ} : {A : Type 0} (P : A → Type κ) (a : A) (xs : List A) → All P xs → In a xs → P a
In-All P a [] h i = elim i [ ]
In-All P a (x ∷ xs) h (inl e) = subst P e h.0
In-All P a (x ∷ xs) h (inr i) = In-All P a xs h.1 i

pub In-has :
    (c : ActionCandidate) (cs : List ActionCandidate) → In c cs → has c.action_id (ids_of cs) ≡ true
In-has c [] i = elim i [ ]
In-has c (x ∷ cs) (inl e) =
    subst (λ y. has y.action_id (ids_of (x ∷ cs)) ≡ true) e
      (ground (arith, ==_iff x.action_id x.action_id))
In-has c (x ∷ cs) (inr i) = ground (arith, In-has c cs i)

pub has-In :
    (n : ℕ) (cs : List ActionCandidate)
    → has n (ids_of cs) ≡ true
    → (c : ActionCandidate) × In c cs × (c.action_id ≡ n)
has-In n [] h = cc
has-In n (x ∷ cs) h = elim (Bool-cases (x.action_id == n)) [
  | inl e ↦ (x, inl refl, (==_iff x.action_id n).0 e)
  | inr e ↦ let found = has-In n cs (ground arith) in (found.0, inr found.1, found.2)
]

unfoldable pub pending : List ℕ → List ActionCandidate → List ActionCandidate
pending completed [] = []
pending completed (c ∷ cs) =
    let rest = pending completed cs in if has c.action_id completed then rest else c ∷ rest

pub pending-none : (cs : List ActionCandidate) → pending [] cs ≡ cs
unfolding pending
pending-none [] = refl
pending-none (c ∷ cs) = ap (◌∷◌ c) (pending-none cs)

-- An identifier that no action has changes nothing.
pending-has :
    (n : ℕ) (completed : List ℕ) (cs : List ActionCandidate)
    → has n (ids_of cs) ≡ false
    → pending (n ∷ completed) cs ≡ pending completed cs
unfolding pending
pending-has n completed [] h = refl
pending-has n completed (c ∷ cs) h = ground (arith, pending-has n completed cs)

-- What is pending is the action that is placed next with what is pending after it.
pub pending-perm :
    (c : ActionCandidate) (completed : List ℕ) (cs : List ActionCandidate)
    → all_distinct (ids_of cs) ≡ true
    → In c cs
    → has c.action_id completed ≡ false
    → Perm (pending completed cs) (c ∷ pending (c.action_id ∷ completed) cs)
unfolding pending all_distinct
pending-perm c completed [] d i h = elim i [ ]
pending-perm c completed (x ∷ cs) d (inl e) h =
    let at_x = subst (λ y. has y.action_id completed ≡ false) (sym e) h in
    subst (λ y. Perm (pending completed (x ∷ cs)) (y ∷ pending (y.action_id ∷ completed) (x ∷ cs)))
      e
      (rw (at_x, ==_refl x.action_id, pending-has x.action_id completed cs (ground arith)) Perm.rfl)
pending-perm c completed (x ∷ cs) d (inr i) h =
    let other : (c.action_id == x.action_id) ≡ false = ground (arith, In-has c cs i) in
    let rest = pending-perm c completed cs (ground arith) i h in
    elim (Bool-cases (has x.action_id completed)) [
      | inl e ↦ rw (e, other) rest
      | inr e ↦ rw (e, other) (Perm.trans (Perm.cons x rest) (Perm.swap _ _ _))
    ]

pub length-pending :
    (c : ActionCandidate) (completed : List ℕ) (cs : List ActionCandidate)
    → all_distinct (ids_of cs) ≡ true
    → In c cs
    → has c.action_id completed ≡ false
    → length (pending completed cs) ≡ length (pending (c.action_id ∷ completed) cs) + 1
unfolding pending all_distinct
length-pending c completed [] d i h = elim i [ ]
length-pending c completed (x ∷ cs) d (inl e) h =
    let at_x = subst (λ y. has y.action_id completed ≡ false) (sym e) h in
    subst
      (λ y.
        length (pending completed (x ∷ cs))
        ≡ length (pending (y.action_id ∷ completed) (x ∷ cs)) + 1)
      e
      (rw (at_x, ==_refl x.action_id, pending-has x.action_id completed cs (ground arith))
        (omega arith))
length-pending c completed (x ∷ cs) d (inr i) h =
    ground (arith, In-has c cs i, length-pending c completed cs)

-- An action that may be placed next.
abbrev pub IsReady : List ActionCandidate → List ℕ → ActionCandidate → Type 0
IsReady selected completed c =
    In c selected × (has c.action_id completed ≡ false) × (within c.dependencies completed ≡ true)

available_Ready :
    (selected : List ActionCandidate) (completed : List ℕ) (cs : List ActionCandidate)
    → ((c : ActionCandidate) → In c cs → In c selected)
    → All (IsReady selected completed) (available completed cs)
unfolding available
available_Ready selected completed [] f = tt
available_Ready selected completed (c ∷ cs) f =
    let rest = available_Ready selected completed cs (λ x i. f x (inr i)) in
    elim (Bool-cases (not (has c.action_id completed) && within c.dependencies completed)) [
      | inl e ↦ rw e ((f c (inl refl), ground arith, ground arith), rest)
      | inr e ↦ rw e rest
    ]

pub available-IsReady :
    (completed : List ℕ) (cs : List ActionCandidate)
    → All (IsReady cs completed) (available completed cs)
available-IsReady completed cs = available_Ready cs completed cs (λ c i. i)

-- Where nothing is available, an action that is not completed lacks a dependency.
pub available_blocked :
    (c : ActionCandidate) (completed : List ℕ) (cs : List ActionCandidate)
    → available completed cs ≡ []
    → In c cs
    → has c.action_id completed ≡ false
    → within c.dependencies completed ≡ false
unfolding available
available_blocked c completed [] e i h = elim i [ ]
available_blocked c completed (x ∷ cs) e (inl p) h =
    subst (λ y. within y.dependencies completed ≡ false) p
      (let at_x = subst (λ y. has y.action_id completed ≡ false) (sym p) h in ground arith)
available_blocked c completed (x ∷ cs) e (inr i) h =
    available_blocked c completed cs (ground arith) i h

pub within_missing : (l r : List ℕ) → within l r ≡ false → (n : ℕ) × In n l × (has n r ≡ false)
within_missing [] r h = cc
within_missing (n ∷ l) r h = elim (Bool-cases (has n r)) [
  | inl e ↦ let found = within_missing l r (ground arith) in (found.0, inr found.1, found.2)
  | inr e ↦ (n, inl refl, e)
]

-- Where something is left to place, an action is not completed.
pub pending_some :
    (completed : List ℕ) (cs : List ActionCandidate)
    → 0 < length (pending completed cs)
    → (c : ActionCandidate) × In c cs × (has c.action_id completed ≡ false)
unfolding pending
pending_some completed [] h = absurd (omega arith)
pending_some completed (x ∷ cs) h = elim (Bool-cases (has x.action_id completed)) [
  | inl e ↦ let found = pending_some completed cs (ground arith) in (found.0, inr found.1, found.2)
  | inr e ↦ (x, inl refl, e)
]

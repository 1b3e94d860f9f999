-- ===== src/Plan/Schedule/Laws.antt =====
-- The order of actions whose dependencies have no cycle: it exists, it has every action once, and
-- each action stands after those it depends on.
use mathlib.Core.List.{Perm}
use mathlib.Core.List.Perm
use search_trust_rd.Prelude.{
  ℕ, zero, suc, ◌+◌, ◌<◌, ◌≡◌, refl, sym, subst, true, false, not, ◌||◌, inl, inr, ◌≢◌, some, List,
  [], ◌∷◌, ◌==◌, All, length, ltb, arith, Bool-cases, ==_iff,
}
use search_trust_rd.Plan.Sorting.{
  sort_by, sort_by-All, sort_by-All_inv, sort_by-IsSorted, IsFirst, IsSorted, tuple_lt_irrefl,
}
use search_trust_rd.Plan.Outcome.{ok}
use search_trust_rd.Plan.Targets.{has}
use search_trust_rd.Plan.Candidates.{
  ActionCandidate, Texts, candidate_sort_key, ids_of, all_distinct, first_or,
}
use search_trust_rd.Plan.Schedule.{available, within, choose_current, order_rest, topological_order}
use search_trust_rd.Plan.Schedule.Pending.{
  In, In-All, has-In, pending, pending-none, pending-perm, length-pending, pending_some, IsReady,
  available-IsReady, available_blocked, within_missing,
}

-- Each dependency is a selected action of a smaller depth.
abbrev pub IsDeeper : (ℕ → ℕ) → List ActionCandidate → ActionCandidate → Type 0
IsDeeper depth selected c =
    All (λ n. (has n (ids_of selected) ≡ true) × (depth n < depth c.action_id)) c.dependencies

abbrev pub IsAcyclic : (ℕ → ℕ) → List ActionCandidate → Type 0
IsAcyclic depth selected = All (IsDeeper depth selected) selected

-- Each action comes after its dependencies and is not listed twice; no action that was available
-- in its stead has a smaller key.
abbrev pub IsScheduled : Texts → List ActionCandidate → List ℕ → List ActionCandidate → Type 0
IsScheduled texts selected completed [] = Unit
IsScheduled texts selected completed (c ∷ cs) =
    (within c.dependencies completed ≡ true)
    × (has c.action_id completed ≡ false)
    × IsFirst (candidate_sort_key texts) (candidate_sort_key texts c) (available completed selected)
    × IsScheduled texts selected (c.action_id ∷ completed) cs

-- The choice among several: it is one of them, and none has a smaller key.
choose_current_lem :
    (texts : Texts) (c : ActionCandidate) (cs : List ActionCandidate)
    → (current : ActionCandidate) × (choose_current texts (c ∷ cs) ≡ some current)
      × ((P : ActionCandidate → Type 0) → All P (c ∷ cs) → P current)
      × IsFirst (candidate_sort_key texts) (candidate_sort_key texts current) (c ∷ cs)
unfolding choose_current
choose_current_lem texts c cs = (
  first_or c (sort_by (candidate_sort_key texts) (c ∷ cs)),
  refl,
  λ P h.
      first_holds P (sort_by (candidate_sort_key texts) (c ∷ cs)) h.0
        (sort_by-All (candidate_sort_key texts) P (c ∷ cs) h),
  sort_by-All_inv (candidate_sort_key texts) _ (c ∷ cs) (
      first_IsFirst (sort_by (candidate_sort_key texts) (c ∷ cs))
        (sort_by-IsSorted (candidate_sort_key texts) (c ∷ cs))),
)
  where
    first_holds :
        (P : ActionCandidate → Type 0) (l : List ActionCandidate) → P c → All P l → P (first_or c l)
    first_holds P [] p h = p
    first_holds P (x ∷ l) p h = h.0

    first_IsFirst :
        (l : List ActionCandidate)
        → IsSorted (candidate_sort_key texts) l
        → IsFirst (candidate_sort_key texts) (candidate_sort_key texts (first_or c l)) l
    first_IsFirst [] s = tt
    first_IsFirst (x ∷ l) s = (tuple_lt_irrefl (candidate_sort_key texts x), s.0)

-- Where nothing is available, everything is completed: by induction on a bound of the depth.
all_completed :
    (bound : ℕ) (depth : ℕ → ℕ) (selected : List ActionCandidate) (completed : List ℕ)
    → IsAcyclic depth selected
    → available completed selected ≡ []
    → (c : ActionCandidate) → In c selected
    → depth c.action_id < bound
    → has c.action_id completed ≡ true
all_completed zero depth selected completed acyclic e c i h = absurd (omega arith)
all_completed (suc bound) depth selected completed acyclic e c i h =
    elim (Bool-cases (has c.action_id completed)) [
      | inl done ↦ done
      | inr left ↦
          let (n, at, missing) =
            within_missing c.dependencies completed
              (available_blocked c completed selected e i left) in
          let (known, less) = In-All _ n c.dependencies (In-All _ c selected acyclic i) at in
          let (d, j, same) = has-In n selected known in
          let done =
            all_completed bound depth selected completed acyclic e d j
              (subst (λ m. depth m < bound) (sym same) (omega arith)) in
          absurd (cc)
    ]

-- an action does not depend on itself
not_own : (depth : ℕ → ℕ) (n : ℕ) (l : List ℕ) → All (λ m. depth m < depth n) l → has n l ≡ false
not_own depth n [] h = refl
not_own depth n (m ∷ l) h = elim (Bool-cases (m == n)) [
  | inl e ↦ absurd (
      let same = (==_iff m n).0 e in
      let bad = subst (λ k. depth k < depth n) same h.0 in omega arith)
  | inr e ↦ ground (arith, not_own depth n l h.1)
]

All-within : (l r : List ℕ) → All (λ n. has n r ≡ true) l → within l r ≡ true
All-within [] r h = refl
All-within (n ∷ l) r h = ground (arith, All-within l r)

All-map {κ λ₁} :
    {A : Type 0} (P : A → Type κ) (Q : A → Type λ₁) (l : List A)
    → ((a : A) → P a → Q a)
    → All P l
    → All Q l
All-map P Q [] f h = tt
All-map P Q (a ∷ l) f h = (f a h.0, All-map P Q l f h.1)

-- The tests on the chosen action hold.
current_allowed :
    (depth : ℕ → ℕ) (selected : List ActionCandidate) (c : ActionCandidate)
    → IsDeeper depth selected c
    → (has c.action_id c.dependencies || not (within c.dependencies (ids_of selected))) ≡ false
current_allowed depth selected c h = ground (
  arith,
  not_own depth c.action_id c.dependencies (All-map _ _ c.dependencies (λ n k. k.1) h),
  All-within c.dependencies (ids_of selected) (All-map _ _ c.dependencies (λ n k. k.0) h),
)

order_rest-end :
    (fuel : ℕ) (texts : Texts) (selected : List ActionCandidate) (completed : List ℕ)
    → ltb (length completed) (length selected) ≡ false
    → order_rest (suc fuel) texts selected completed ≡ ok []
unfolding order_rest
order_rest-end fuel texts selected completed e = rw e

order_rest-suc :
    (fuel : ℕ) (texts : Texts) (selected : List ActionCandidate) (completed : List ℕ)
    (c : ActionCandidate) (rest : List ActionCandidate)
    → ltb (length completed) (length selected) ≡ true
    → choose_current texts (available completed selected) ≡ some c
    → (has c.action_id c.dependencies || not (within c.dependencies (ids_of selected))) ≡ false
    → order_rest fuel texts selected (c.action_id ∷ completed) ≡ ok rest
    → order_rest (suc fuel) texts selected completed ≡ ok (c ∷ rest)
unfolding order_rest
order_rest-suc fuel texts selected completed c rest e chosen allowed ih =
    rw (e, chosen, allowed, ih)

length-zero : {A : Type 0} (l : List A) → length l ≡ 0 → l ≡ []
length-zero [] h = refl
length-zero (x ∷ l) h = absurd (omega (arith, h))

-- The choice of the next action, while one is left.
next_action :
    (depth : ℕ → ℕ) (texts : Texts) (selected : List ActionCandidate) (completed : List ℕ)
    → IsAcyclic depth selected
    → 0 < length (pending completed selected)
    → (c : ActionCandidate) × (choose_current texts (available completed selected) ≡ some c)
      × IsReady selected completed c
      × IsFirst
          (candidate_sort_key texts)
          (candidate_sort_key texts c)
          (available completed selected)
next_action depth texts selected completed acyclic left =
    go (available completed selected) (available-IsReady completed selected) (λ e.
      let (c, i, open_) = pending_some completed selected left in
      let done =
        all_completed (suc (depth c.action_id)) depth selected completed acyclic e c i
          (omega arith) in
      cc)
  where
    go :
        (l : List ActionCandidate)
        → All (IsReady selected completed) l
        → l ≢ []
        → (c : ActionCandidate) × (choose_current texts l ≡ some c)
          × IsReady selected completed c
          × IsFirst (candidate_sort_key texts) (candidate_sort_key texts c) l
    go [] ready some_ = absurd (some_ refl)
    go (x ∷ l) ready some_ =
        let (c, chosen, keeps, first) = choose_current_lem texts x l in
        (c, chosen, keeps (IsReady selected completed) ready, first)

pub order_rest-IsScheduled :
    (fuel : ℕ) (depth : ℕ → ℕ) (texts : Texts) (selected : List ActionCandidate)
    (completed : List ℕ)
    → all_distinct (ids_of selected) ≡ true
    → IsAcyclic depth selected
    → length (pending completed selected) + length completed ≡ length selected
    → length (pending completed selected) < fuel
    → (rest : List ActionCandidate) × (order_rest fuel texts selected completed ≡ ok rest)
      × Perm rest (pending completed selected)
      × IsScheduled texts selected completed rest
order_rest-IsScheduled zero depth texts selected completed d acyclic sum enough =
    absurd (omega arith)
order_rest-IsScheduled (suc fuel) depth texts selected completed d acyclic sum enough =
    elim (Bool-cases (ltb (length completed) (length selected))) [
      | inr over ↦ (
        [],
        order_rest-end fuel texts selected completed over,
        rw (length-zero (pending completed selected) (ground arith)) Perm.rfl,
        tt,
      )
      | inl more ↦
          let (c, chosen, ready, first) =
            next_action depth texts selected completed acyclic (ground arith) in
          let shorter = length-pending c completed selected d ready.0 ready.1 in
          let (rest, e, perm, scheduled) =
            order_rest-IsScheduled fuel depth texts selected (c.action_id ∷ completed) d acyclic
              (omega arith) (omega arith) in
          (
            c ∷ rest,
            order_rest-suc fuel texts selected completed c rest more chosen
                (current_allowed depth selected c (In-All _ c selected acyclic ready.0)) e,
            Perm.trans (Perm.cons c perm)
                (Perm.symm (pending-perm c completed selected d ready.0 ready.1)),
            (ready.2, ready.1, first, scheduled),
          )
    ]

-- Actions with distinct identifiers whose dependencies are selected actions of a smaller depth are
-- ordered without an error: every action once, each after its dependencies, and with no action of
-- a smaller key that was available in its stead.
pub topological_order-IsScheduled :
    (depth : ℕ → ℕ) (texts : Texts) (selected : List ActionCandidate)
    → all_distinct (ids_of selected) ≡ true
    → IsAcyclic depth selected
    → (ordered : List ActionCandidate) × (topological_order texts selected ≡ ok ordered)
      × Perm ordered selected
      × IsScheduled texts selected [] ordered
unfolding topological_order
topological_order-IsScheduled depth texts selected d acyclic =
    let none_yet = pending-none selected in
    let (ordered, e, perm, scheduled) =
      order_rest-IsScheduled (length selected + 1) depth texts selected [] d acyclic
        (rw none_yet (omega arith)) (rw none_yet (omega arith)) in
    (ordered, rw (d, e), rw none_yet at perm, scheduled)

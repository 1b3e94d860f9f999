-- ===== src/Plan/Schedule/Recovery.antt =====
-- The dependencies on the recovery of access have no cycle, so the selected actions are ordered.
use mathlib.Core.List.{Perm}
use search_trust_rd.Prelude.{
  ℕ, ◌≡◌, refl, sym, ap, subst, true, inl, inr, none, some, List, [], ◌∷◌, map, ◌==◌, All, arith,
  if◌then◌else◌, Bool-cases, ==_refl, Option-cases,
}
use search_trust_rd.Plan.Findings.{is_template, restore_site_access_indexing}
use search_trust_rd.Plan.Outcome.{ok}
use search_trust_rd.Plan.Targets.{has}
use search_trust_rd.Plan.Candidates.{ActionCandidate, Texts, ids_of, all_distinct}
use search_trust_rd.Plan.Candidates.Grouped.{HasNoDependencies}
use search_trust_rd.Plan.Schedule.{
  find_recovery, needs_recovery, depend, add_dependencies, topological_order,
}
use search_trust_rd.Plan.Schedule.Laws.{
  IsDeeper, IsAcyclic, IsScheduled, topological_order-IsScheduled,
}

find_recovery-has :
    (r : ActionCandidate) (cs : List ActionCandidate)
    → find_recovery cs ≡ some r
    → has r.action_id (ids_of cs) ≡ true
unfolding find_recovery
find_recovery-has r [] e = cc
find_recovery-has r (c ∷ cs) e =
    elim (Bool-cases (is_template restore_site_access_indexing c.template)) [
      | inl t ↦
          let found : some c ≡ some r = rw t at e in
          let same : c ≡ r = cc in
          subst (λ x. has x.action_id (ids_of (c ∷ cs)) ≡ true) same
            (ground (arith, ==_refl c.action_id))
      | inr t ↦
          let later : find_recovery cs ≡ some r = rw t at e in
          ground (arith, find_recovery-has r cs later)
    ]

map-depend_ids :
    (texts : Texts) (home : ℕ) (r : ActionCandidate) (cs : List ActionCandidate)
    → ids_of (map (depend texts home r) cs) ≡ ids_of cs
map-depend_ids texts home r [] = refl
map-depend_ids texts home r (c ∷ cs) = ap (◌∷◌ c.action_id) (map-depend_ids texts home r cs)

-- The recovery has depth 0, any other action depth 1.
depth_of : ℕ → ℕ → ℕ
depth_of r n = if n == r then 0 else 1

depend-IsDeeper :
    (texts : Texts) (home : ℕ) (r : ActionCandidate) (all_of : List ActionCandidate)
    (c : ActionCandidate)
    → has r.action_id (ids_of all_of) ≡ true
    → c.dependencies ≡ []
    → IsDeeper (depth_of r.action_id) all_of (depend texts home r c)
unfolding depth_of
depend-IsDeeper texts home r all_of c known e = elim (Bool-cases (needs_recovery texts home r c)) [
  | inl needs ↦ rw (needs, e) ((known, ground (arith, ==_refl r.action_id)), tt)
  | inr free ↦ rw (free, e) tt
]

map-depend-All :
    (texts : Texts) (home : ℕ) (r : ActionCandidate) (all_of cs : List ActionCandidate)
    → has r.action_id (ids_of all_of) ≡ true
    → HasNoDependencies cs
    → All (IsDeeper (depth_of r.action_id) all_of) (map (depend texts home r) cs)
map-depend-All texts home r all_of [] known h = tt
map-depend-All texts home r all_of (c ∷ cs) known h = (
  depend-IsDeeper texts home r all_of c known h.0,
  map-depend-All texts home r all_of cs known h.1,
)

no_dependencies-All :
    (depth : ℕ → ℕ) (all_of cs : List ActionCandidate)
    → HasNoDependencies cs
    → All (IsDeeper depth all_of) cs
no_dependencies-All depth all_of [] h = tt
no_dependencies-All depth all_of (c ∷ cs) h =
    (subst (All _) (sym h.0) tt, no_dependencies-All depth all_of cs h.1)

add_dependencies-none :
    (texts : Texts) (home : ℕ) (selected : List ActionCandidate)
    → find_recovery selected ≡ none
    → add_dependencies texts home selected ≡ selected
unfolding add_dependencies
add_dependencies-none texts home selected e = rw (e, add_dependencies)

add_dependencies-some :
    (texts : Texts) (home : ℕ) (selected : List ActionCandidate) (r : ActionCandidate)
    → find_recovery selected ≡ some r
    → add_dependencies texts home selected ≡ map (depend texts home r) selected
unfolding add_dependencies
add_dependencies-some texts home selected r e = rw (e, add_dependencies)

-- A list of actions with the identifiers of the selected ones and no cycle.
abbrev pub IsOrderable : List ActionCandidate → List ActionCandidate → Type 0
IsOrderable selected l = (depth : ℕ → ℕ) × IsAcyclic depth l × (ids_of l ≡ ids_of selected)

pub add_dependencies-IsOrderable :
    (texts : Texts) (home : ℕ) (selected : List ActionCandidate)
    → HasNoDependencies selected
    → IsOrderable selected (add_dependencies texts home selected)
add_dependencies-IsOrderable texts home selected h = elim (Option-cases (find_recovery selected)) [
  | inl e ↦
      subst (IsOrderable selected) (sym (add_dependencies-none texts home selected e))
        (depth_of 0, no_dependencies-All (depth_of 0) selected selected h, refl)
  | inr (r, e) ↦
      let same = map-depend_ids texts home r selected in
      let known =
        subst (λ l. has r.action_id l ≡ true) (sym same) (find_recovery-has r selected e) in
      subst (IsOrderable selected) (sym (add_dependencies-some texts home selected r e)) (
        depth_of r.action_id,
        map-depend-All texts home r (map (depend texts home r) selected) selected known h,
        same,
      )
]

-- Selected actions with distinct identifiers and no dependencies yet are never refused for their
-- dependencies: with those that `_add_dependencies` gives them they are ordered, every action once,
-- each after its dependencies, and with no action of a smaller key that was available in its stead.
pub add_dependencies-IsScheduled :
    (texts : Texts) (home : ℕ) (selected : List ActionCandidate)
    → all_distinct (ids_of selected) ≡ true
    → HasNoDependencies selected
    → (ordered : List ActionCandidate) × (topological_order texts
          (add_dependencies texts home selected)
        ≡ ok ordered)
      × Perm ordered (add_dependencies texts home selected)
      × IsScheduled texts (add_dependencies texts home selected) [] ordered
add_dependencies-IsScheduled texts home selected d h =
    let (depth, acyclic, same) = add_dependencies-IsOrderable texts home selected h in
    topological_order-IsScheduled depth texts (add_dependencies texts home selected)
      (subst (λ l. all_distinct l ≡ true) (sym same) d) acyclic

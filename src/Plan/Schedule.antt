-- ===== src/Plan/Schedule.antt =====
-- The dependencies of the selected actions and their order: `_url_targets`, `_add_dependencies` and
-- `_topological_order` of app/report_v22/actions.py. `candidate is recovery` compares identifiers,
-- which the caller has found to be distinct.
pub mod Pending
pub mod Laws
pub mod Recovery
use search_trust_rd.Prelude.{
  ℕ, zero, suc, ◌+◌, Bool, true, false, not, ◌&&◌, ◌||◌, Option, none, some, List, [], ◌∷◌, ◌++◌,
  map, ◌==◌, any, all, ltb, if◌then◌else◌, length,
}
use search_trust_rd.Plan.Sorting.{sort_by}
use search_trust_rd.Plan.Findings.{
  TemplateKey, restore_site_access_indexing, differentiate_page_titles, review_market_visibility,
  is_template,
}
use search_trust_rd.Plan.Outcome.{
  Outcome, ok, raised, unfinished, ◌>>=◌, ◌>>◌, refuse_if, id_conflict, dependency_invalid,
}
use search_trust_rd.Plan.Targets.{TargetKind, ActionTarget, target_order, url, has}
use search_trust_rd.Plan.Candidates.{
  ActionCandidate, Texts, candidate_sort_key, ids_of, all_distinct, first_or,
}

-- `_url_targets`
unfoldable pub url_targets : List ActionTarget → List ℕ
url_targets [] = []
url_targets (t ∷ ts) =
    let rest = url_targets ts in
    if target_order t.kind == target_order url then t.value ∷ rest else rest

-- `next(item for item in selected if …)`
unfoldable pub find_recovery : List ActionCandidate → Option ActionCandidate
find_recovery [] = none
find_recovery (c ∷ cs) =
    if is_template restore_site_access_indexing c.template then some c else find_recovery cs

abbrev pub intersects : List ℕ → List ℕ → Bool
intersects l r = any (λ n. has n r) l

abbrev pub needs_recovery : Texts → ℕ → ActionCandidate → ActionCandidate → Bool
needs_recovery texts home recovery c =
    not (c.action_id == recovery.action_id)
    && (is_template differentiate_page_titles c.template
          && intersects (url_targets recovery.targets) (url_targets c.targets)
        || is_template review_market_visibility c.template
          && has (texts.host home) (map texts.host (url_targets recovery.targets)))

abbrev pub depend : Texts → ℕ → ActionCandidate → ActionCandidate → ActionCandidate
depend texts home recovery c = record c {
  dependencies =
      if needs_recovery texts home recovery c
      then c.dependencies ++ recovery.action_id ∷ []
      else c.dependencies;
}

unfoldable pub add_dependencies : Texts → ℕ → List ActionCandidate → List ActionCandidate
unfolding find_recovery url_targets
add_dependencies texts home selected = elim (find_recovery selected) [
  | none ↦ selected
  | some recovery ↦ map (depend texts home recovery) selected
]

-- `set(l) <= set(r)`
abbrev pub within : List ℕ → List ℕ → Bool
within l r = all (λ n. has n r) l

unfoldable pub available : List ℕ → List ActionCandidate → List ActionCandidate
available completed [] = []
available completed (c ∷ cs) =
    let rest = available completed cs in
    if not (has c.action_id completed) && within c.dependencies completed then c ∷ rest else rest

-- The choice of `current`.
unfoldable pub choose_current : Texts → List ActionCandidate → Option ActionCandidate
unfolding sort_by
choose_current texts [] = none
choose_current texts (c ∷ cs) = some (first_or c (sort_by (candidate_sort_key texts) (c ∷ cs)))

-- The `while` loop, with fuel: what is still to be ordered, after `completed`.
unfoldable pub order_rest :
    ℕ → Texts → List ActionCandidate → List ℕ → Outcome (List ActionCandidate)
unfolding available choose_current
order_rest zero texts selected completed = unfinished
order_rest (suc fuel) texts selected completed =
    if not (ltb (length completed) (length selected))
    then ok []
    else (elim (choose_current texts (available completed selected)) [
      | none ↦ raised dependency_invalid
      | some current ↦
          if has current.action_id current.dependencies
            || not (within current.dependencies (ids_of selected))
          then raised dependency_invalid
          else (order_rest fuel texts selected (current.action_id ∷ completed) >>= λ rest.
              ok (current ∷ rest))
    ])

unfoldable pub topological_order : Texts → List ActionCandidate → Outcome (List ActionCandidate)
unfolding order_rest all_distinct
topological_order texts selected = do
  refuse_if (not (all_distinct (ids_of selected))) id_conflict
  order_rest (length selected + 1) texts selected []

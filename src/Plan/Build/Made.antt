-- ===== src/Plan/Build/Made.antt =====
-- What a plan is made of: the candidates in their order, the first three scheduled, and their
-- skeletons numbered and dated.
use mathlib.Core.List.{Perm}
use search_trust_rd.Prelude.{
  ℕ, zero, suc, ◌+◌, ◌*◌, ◌≤◌, ◌≡◌, refl, sym, subst, All, Bool, true, false, not, List, [], ◌∷◌,
  length, ltb, take, ◌&&◌, arith,
}
use search_trust_rd.Plan.Outcome.{
  ok, ◌>>=◌, ◌>>◌, refuse_if, >>=-eq-ok, refuse_if-eq-ok, insufficient, limit_exceeded,
  reference_invalid,
}
use search_trust_rd.Plan.Targets.{has}
use search_trust_rd.Plan.Candidates.{
  ActionCandidate, Texts, PublicActionLimits, ids_of, all_distinct, build_candidates,
}
use search_trust_rd.Plan.Candidates.Grouped.{HasNoDependencies}
use search_trust_rd.Plan.Candidates.Ranked.{IsRanked, build_candidates-IsRanked}
use search_trust_rd.Plan.Schedule.{add_dependencies}
use search_trust_rd.Plan.Schedule.Laws.{IsScheduled}
use search_trust_rd.Plan.Schedule.Recovery.{add_dependencies-IsScheduled}
use search_trust_rd.Plan.Skeleton.{
  ActionSkeleton, skeleton_of, build_action, build_actions, review_date_of,
}
use search_trust_rd.Plan.Build.{
  PublicActionPlan, PlanInput, valid_lengths, validate_plan, plan_of, plan_actions, finish_plan,
  plan_from, build_public_action_plan,
}

-- The skeleton of a candidate for its place in the order, 30 days on for each place.
abbrev pub IsActionOf : ℕ → ℕ → ActionCandidate → ActionSkeleton → Type 0
IsActionOf planning_date sequence c a = a ≡ skeleton_of c sequence (planning_date + 30 * sequence)

abbrev pub AreActionsOf : ℕ → ℕ → List ActionCandidate → List ActionSkeleton → Type 0
AreActionsOf planning_date sequence [] [] = Unit
AreActionsOf planning_date sequence (c ∷ cs) (a ∷ rest) =
    IsActionOf planning_date sequence c a × AreActionsOf planning_date (suc sequence) cs rest
AreActionsOf planning_date sequence _ _ = ⊥

review_date_of-eq-ok :
    (planning_date sequence : ℕ) {day : ℕ}
    → review_date_of planning_date sequence ≡ ok day
    → planning_date + 30 * sequence ≡ day
review_date_of-eq-ok planning_date sequence e = ground arith

build_action-IsActionOf :
    (limits : PublicActionLimits) (candidate_only : Bool) (planning_date sequence : ℕ)
    (c : ActionCandidate) {a : ActionSkeleton}
    → build_action limits candidate_only c sequence (planning_date + 30 * sequence) ≡ ok a
    → IsActionOf planning_date sequence c a
unfolding build_action
build_action-IsActionOf limits candidate_only planning_date sequence c e = ground arith

build_actions-AreActionsOf :
    (limits : PublicActionLimits) (candidate_only : Bool) (planning_date sequence : ℕ)
    (cs : List ActionCandidate) {actions : List ActionSkeleton}
    → build_actions limits candidate_only planning_date sequence cs ≡ ok actions
    → AreActionsOf planning_date sequence cs actions
unfolding build_actions
build_actions-AreActionsOf limits candidate_only planning_date sequence [] e =
    let same : [] ≡ _ = cc in subst (AreActionsOf planning_date sequence []) same tt
build_actions-AreActionsOf limits candidate_only planning_date sequence (c ∷ cs) e =
    let (day, dated, e1) = >>=-eq-ok (review_date_of planning_date sequence) _ e in
    let (a, built, e2) = >>=-eq-ok (build_action limits candidate_only c sequence day) _ e1 in
    let (rest, others, e3) =
      >>=-eq-ok (build_actions limits candidate_only planning_date (suc sequence) cs) _ e2 in
    let same : a ∷ rest ≡ _ = cc in
    subst (AreActionsOf planning_date sequence (c ∷ cs)) same (
      build_action-IsActionOf limits candidate_only planning_date sequence c (
          subst (λ d. build_action limits candidate_only c sequence d ≡ ok a)
            (sym (review_date_of-eq-ok planning_date sequence dated)) built),
      build_actions-AreActionsOf limits candidate_only planning_date (suc sequence) cs others,
    )

-- The first three candidates of the ranking, scheduled.
pub record IsMadeOf (texts : Texts) (request : PlanInput)
    (candidates ordered : List ActionCandidate) (p : PublicActionPlan) : Type 0 where
  pub ranked : IsRanked texts request.findings candidates
  pub enough : 3 ≤ length candidates
  pub rearranged : Perm ordered (add_dependencies texts request.site_url (take 3 candidates))
  pub scheduled :
      IsScheduled texts (add_dependencies texts request.site_url (take 3 candidates)) [] ordered
  pub described : AreActionsOf request.planning_date 1 ordered p.actions
  pub planned : p ≡ plan_of request candidates (take 3 candidates) p.actions

pub take-All {κ} :
    {A : Type 0} (P : A → Type κ) (n : ℕ) (xs : List A) → All P xs → All P (take n xs)
take-All P zero xs h = tt
take-All P (suc n) [] h = tt
take-All P (suc n) (x ∷ xs) h = (h.0, take-All P n xs h.1)

take-has :
    (m n : ℕ) (cs : List ActionCandidate)
    → has m (ids_of cs) ≡ false
    → has m (ids_of (take n cs)) ≡ false
take-has m zero cs h = refl
take-has m (suc n) [] h = refl
take-has m (suc n) (c ∷ cs) h = ground (arith, take-has m n cs)

pub take_distinct :
    (n : ℕ) (cs : List ActionCandidate)
    → all_distinct (ids_of cs) ≡ true
    → all_distinct (ids_of (take n cs)) ≡ true
unfolding all_distinct
take_distinct zero cs h = refl
take_distinct (suc n) [] h = refl
take_distinct (suc n) (c ∷ cs) h = ground (arith, take_distinct n cs, take-has c.action_id n cs)

-- The actions of selected candidates are those of the candidates in their order.
pub plan_actions-AreActionsOf :
    (texts : Texts) (request : PlanInput) (candidate_only : Bool) (selected : List ActionCandidate)
    {actions : List ActionSkeleton}
    → all_distinct (ids_of selected) ≡ true
    → HasNoDependencies selected
    → plan_actions texts request candidate_only selected ≡ ok actions
    → (ordered : List ActionCandidate) × Perm ordered
        (add_dependencies texts request.site_url selected)
      × IsScheduled texts (add_dependencies texts request.site_url selected) [] ordered
      × AreActionsOf request.planning_date 1 ordered actions
unfolding plan_actions
plan_actions-AreActionsOf texts request candidate_only selected {actions} d free e =
    let home = request.site_url in
    let (ordered, found, perm, scheduled) =
      add_dependencies-IsScheduled texts home selected d free in
    let built : build_actions request.limits candidate_only request.planning_date 1 ordered
        ≡ ok actions =
      rw found at e in
    (
      ordered,
      perm,
      scheduled,
      build_actions-AreActionsOf request.limits candidate_only request.planning_date 1 ordered
          built,
    )

finish_plan-eq-ok :
    (size : PublicActionPlan → ℕ) (limits : PublicActionLimits) (plan : PublicActionPlan)
    {p : PublicActionPlan}
    → finish_plan size limits plan ≡ ok p
    → plan ≡ p
unfolding finish_plan
finish_plan-eq-ok size limits plan e =
    let (valid, e1) =
      refuse_if-eq-ok (not (valid_lengths plan && validate_plan plan)) reference_invalid
        (refuse_if (ltb limits.max_bytes (size plan)) limit_exceeded >> ok plan) e in
    let (small, e2) =
      refuse_if-eq-ok (ltb limits.max_bytes (size plan)) limit_exceeded (ok plan) e1 in
    cc

at_least : (n : ℕ) → ltb n 3 ≡ false → 3 ≤ n
at_least n h = ground arith

abbrev pub MadeFrom : Texts → PlanInput → List ActionCandidate → PublicActionPlan → Type 0
MadeFrom texts request candidates p =
    (ordered : List ActionCandidate) × IsMadeOf texts request candidates ordered p

plan_from-IsMadeOf :
    (texts : Texts) (size : PublicActionPlan → ℕ) (request : PlanInput)
    (candidates : List ActionCandidate) {p : PublicActionPlan}
    → IsRanked texts request.findings candidates
    → plan_from texts size request candidates ≡ ok p
    → MadeFrom texts request candidates p
unfolding plan_from
plan_from-IsMadeOf texts size request candidates ranked e =
    let selected = take 3 candidates in
    let rest = λ (actions : List ActionSkeleton).
      finish_plan size request.limits (plan_of request candidates selected actions) in
    let made = plan_actions texts request false selected >>= rest in
    let (enough, e1) =
      refuse_if-eq-ok (ltb (length candidates) 3) insufficient
        (refuse_if (ltb request.limits.max_audit_entries (length candidates)) limit_exceeded
          >> made)
        e in
    let (few, e2) =
      refuse_if-eq-ok (ltb request.limits.max_audit_entries (length candidates)) limit_exceeded made
        e1 in
    let (actions, acted, e3) = >>=-eq-ok (plan_actions texts request false selected) rest e2 in
    let (ordered, perm, scheduled, described) =
      plan_actions-AreActionsOf texts request false selected
        (take_distinct 3 candidates ranked.distinct_ids)
        (take-All _ 3 candidates ranked.no_dependencies) acted in
    subst (MadeFrom texts request candidates) (finish_plan-eq-ok size request.limits _ e3) (
      ordered,
      record {
        ranked = ranked;
        enough = at_least (length candidates) enough;
        rearranged = perm;
        scheduled = scheduled;
        described = described;
        planned = refl;
      },
    )

-- A plan that is built is made of the candidates of its findings: the audit lists every candidate
-- in the order of the keys, the first three are the actions, each placed after the actions that it
-- depends on, numbered from 1 on and due 30 days later for each place, and the findings left over
-- are those of no selected candidate.
pub build_public_action_plan-IsMadeOf :
    (texts : Texts) (size : PublicActionPlan → ℕ) (request : PlanInput) {p : PublicActionPlan}
    → build_public_action_plan texts size request ≡ ok p
    → (candidates : List ActionCandidate) × MadeFrom texts request candidates p
unfolding build_public_action_plan
build_public_action_plan-IsMadeOf texts size request e =
    let (candidates, built, e1) =
      >>=-eq-ok
        (build_candidates texts request.limits request.site_url request.source request.findings)
        (plan_from texts size request) e in
    let ranked =
      build_candidates-IsRanked texts request.limits request.site_url request.source
        request.findings built in
    (candidates, plan_from-IsMadeOf texts size request candidates ranked e1)

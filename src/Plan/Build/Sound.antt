-- ===== src/Plan/Build/Sound.antt =====
-- The errors with which planning can end: never for the dependencies, which it gives itself, and
-- never without an end.
use search_trust_rd.Prelude.{
  ℕ, suc, ◌≡◌, refl, Bool, true, false, List, [], ◌∷◌, take, arith, if◌then◌else◌,
}
use search_trust_rd.Plan.Outcome.{limit_exceeded, insufficient, reference_invalid}
use search_trust_rd.Plan.Candidates.{
  ActionCandidate, Texts, PublicActionLimits, build_candidates, ids_of, all_distinct,
}
use search_trust_rd.Plan.Candidates.Grouped.{HasNoDependencies}
use search_trust_rd.Plan.Candidates.Ranked.{IsRanked, build_candidates-IsRanked}
use search_trust_rd.Plan.Schedule.Recovery.{add_dependencies-IsScheduled}
use search_trust_rd.Plan.Skeleton.{review_date_of, build_action, build_actions}
use search_trust_rd.Plan.Build.{
  PublicActionPlan, PlanInput, plan_of, plan_actions, finish_plan, plan_from,
  build_public_action_plan, skeletons_from, select_public_action_skeletons,
}
use search_trust_rd.Plan.Build.Made.{take_distinct, take-All}
use search_trust_rd.Plan.Candidates.Sound.{
  IsSound, ok-IsSound, >>=-IsSound, refuse_if-IsSound, build_candidates-IsSound,
}

build_action-IsSound :
    (limits : PublicActionLimits) (candidate_only : Bool) (c : ActionCandidate)
    (sequence review_date : ℕ)
    → IsSound (build_action limits candidate_only c sequence review_date)
unfolding build_action
build_action-IsSound limits candidate_only c sequence review_date =
    refuse_if-IsSound _ limit_exceeded _ refl (
      refuse_if-IsSound _ reference_invalid _ refl
        (refuse_if-IsSound _ reference_invalid _ refl (ok-IsSound _)))

build_actions-IsSound :
    (limits : PublicActionLimits) (candidate_only : Bool) (planning_date sequence : ℕ)
    (cs : List ActionCandidate)
    → IsSound (build_actions limits candidate_only planning_date sequence cs)
unfolding build_actions
build_actions-IsSound limits candidate_only planning_date sequence [] = ok-IsSound []
build_actions-IsSound limits candidate_only planning_date sequence (c ∷ cs) =
    >>=-IsSound (review_date_of planning_date sequence) _ (record { sound = ground arith })
      (λ day e.
        >>=-IsSound (build_action limits candidate_only c sequence day) _
          (build_action-IsSound limits candidate_only c sequence day)
          (λ a k.
            >>=-IsSound (build_actions limits candidate_only planning_date (suc sequence) cs) _
              (build_actions-IsSound limits candidate_only planning_date (suc sequence) cs)
              (λ rest l. ok-IsSound _)))

plan_actions-IsSound :
    (texts : Texts) (request : PlanInput) (candidate_only : Bool) (selected : List ActionCandidate)
    → all_distinct (ids_of selected) ≡ true
    → HasNoDependencies selected
    → IsSound (plan_actions texts request candidate_only selected)
unfolding plan_actions
plan_actions-IsSound texts request candidate_only selected d free =
    let (ordered, found, perm, scheduled) =
      add_dependencies-IsScheduled texts request.site_url selected d free in
    rw found (build_actions-IsSound request.limits candidate_only request.planning_date 1 ordered)

finish_plan-IsSound :
    (size : PublicActionPlan → ℕ) (limits : PublicActionLimits) (plan : PublicActionPlan)
    → IsSound (finish_plan size limits plan)
unfolding finish_plan
finish_plan-IsSound size limits plan =
    refuse_if-IsSound _ reference_invalid _ refl
      (refuse_if-IsSound _ limit_exceeded _ refl (ok-IsSound plan))

-- Building a plan ends, and never with DEPENDENCY_INVALID: whatever the findings, the dependencies
-- that the code adds can be ordered.
pub build_public_action_plan-IsSound :
    (texts : Texts) (size : PublicActionPlan → ℕ) (request : PlanInput)
    → IsSound (build_public_action_plan texts size request)
unfolding build_public_action_plan plan_from
build_public_action_plan-IsSound texts size request =
    >>=-IsSound
      (build_candidates texts request.limits request.site_url request.source request.findings)
      (plan_from texts size request)
      (build_candidates-IsSound texts request.limits request.site_url request.source
        request.findings)
      (λ candidates e.
        let ranked =
          build_candidates-IsRanked texts request.limits request.site_url request.source
            request.findings e in
        refuse_if-IsSound _ insufficient _ refl (
          refuse_if-IsSound _ limit_exceeded _ refl (
            >>=-IsSound (plan_actions texts request false (take 3 candidates)) _
              (plan_actions-IsSound texts request false (take 3 candidates)
                (take_distinct 3 candidates ranked.distinct_ids)
                (take-All _ 3 candidates ranked.no_dependencies))
              (λ actions k.
                finish_plan-IsSound size request.limits
                  (plan_of request candidates (take 3 candidates) actions)))))

selected_actions-IsSound :
    (texts : Texts) (request : PlanInput) (all_candidates candidate_only : Bool)
    (cs : List ActionCandidate)
    → IsRanked texts request.findings cs
    → IsSound (plan_actions texts request candidate_only (if all_candidates then cs else take 3 cs))
selected_actions-IsSound texts request true candidate_only cs ranked =
    plan_actions-IsSound texts request candidate_only cs ranked.distinct_ids ranked.no_dependencies
selected_actions-IsSound texts request false candidate_only cs ranked =
    plan_actions-IsSound texts request candidate_only (take 3 cs)
      (take_distinct 3 cs ranked.distinct_ids) (take-All _ 3 cs ranked.no_dependencies)

-- So too the selection of skeletons, of all candidates or of the first three.
pub select_public_action_skeletons-IsSound :
    (texts : Texts) (request : PlanInput) (all_candidates candidate_only : Bool)
    → IsSound (select_public_action_skeletons texts request all_candidates candidate_only)
unfolding select_public_action_skeletons skeletons_from
select_public_action_skeletons-IsSound texts request all_candidates candidate_only =
    >>=-IsSound
      (build_candidates texts request.limits request.site_url request.source request.findings)
      (skeletons_from texts request all_candidates candidate_only)
      (build_candidates-IsSound texts request.limits request.site_url request.source
        request.findings)
      (λ candidates e.
        let ranked =
          build_candidates-IsRanked texts request.limits request.site_url request.source
            request.findings e in
        refuse_if-IsSound _ limit_exceeded _ refl
          (selected_actions-IsSound texts request all_candidates candidate_only candidates ranked))

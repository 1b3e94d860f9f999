-- ===== src/Plan/Candidates/Sound.antt =====
-- The errors with which the candidates can end, and what such an outcome is in general.
use search_trust_rd.Prelude.{
  ℕ, ◌≡◌, refl, Bool, true, false, List, [], ◌∷◌, ltb, length, arith, Bool-cases, inl, inr,
}
use search_trust_rd.Plan.Sorting.{sort_by}
use search_trust_rd.Plan.Findings.{Finding, SourceType, TemplateKey}
use search_trust_rd.Plan.Outcome.{
  Outcome, ok, raised, unfinished, ◌>>=◌, ◌>>◌, refuse_if, ActionErrorKind, dependency_invalid,
  limit_exceeded, insufficient, reference_invalid, id_conflict, date_invalid, input_invalid,
  unsupported_finding,
}
use search_trust_rd.Plan.Targets.{
  TargetKind, url, query, ActionTarget, add_all, add_findings, add_page_type, add_field,
  nonempty_targets, validate_targets, build_targets,
}
use search_trust_rd.Plan.Candidates.{
  ActionCandidate, Texts, PublicActionLimits, Group, group_key, entries, finding_key, group_order,
  group_findings, build_candidate, build_each, rank_candidates, build_candidates, join_group,
}

abbrev pub is_sound {ℓ} : {A : Type ℓ} → Outcome A → Bool
is_sound (ok a) = true
is_sound (raised dependency_invalid) = false
is_sound (raised _) = true
is_sound unfinished = false

-- An outcome other than the loop's two ways to fail.
pub record IsSound {ℓ} {A : Type ℓ} (o : Outcome A) : Type 0 where
  pub sound : is_sound o ≡ true

pub ok-IsSound {ℓ} : {A : Type ℓ} (a : A) → IsSound (ok a)
ok-IsSound a = record { sound = refl }

pub >>=-IsSound {ℓ κ} :
    {A : Type ℓ} {B : Type κ} (m : Outcome A) (f : A → Outcome B)
    → IsSound m
    → ((a : A) → m ≡ ok a → IsSound (f a))
    → IsSound (m >>= f)
>>=-IsSound (ok a) f h k = k a refl
>>=-IsSound {A = A} {B = B} (raised e) f h k = record { sound = go e h.sound }
  where
    go :
        (e : ActionErrorKind)
        → is_sound {A = A} (raised e) ≡ true
        → is_sound {A = B} (raised e) ≡ true
    go input_invalid h = refl
    go reference_invalid h = refl
    go unsupported_finding h = refl
    go insufficient h = refl
    go id_conflict h = refl
    go dependency_invalid h = h
    go limit_exceeded h = refl
    go date_invalid h = refl
>>=-IsSound unfinished f h k = absurd (let bad = h.sound in cc)

pub refuse_if-IsSound {ℓ} :
    {B : Type ℓ} (test : Bool) (e : ActionErrorKind) (k : Outcome B)
    → is_sound {A = B} (raised e) ≡ true
    → IsSound k
    → IsSound (refuse_if test e >> k)
refuse_if-IsSound true e k h i = record { sound = h }
refuse_if-IsSound false e k h i = i

add_page_type-IsSound : (f : Finding) (refs : List ActionTarget) → IsSound (add_page_type f refs)
add_page_type-IsSound f refs = record { sound = ground arith }

add_findings-IsSound :
    (fs : List Finding) (refs : List ActionTarget) → IsSound (add_findings fs refs)
unfolding add_findings
add_findings-IsSound [] refs = ok-IsSound refs
add_findings-IsSound (f ∷ fs) refs =
    let added =
      add_all query f.affected_queries f.finding_id
        (add_all url f.affected_urls f.finding_id refs) in
    >>=-IsSound (add_page_type f added) (λ more. add_findings fs (add_field f more))
      (add_page_type-IsSound f added) (λ more e. add_findings-IsSound fs (add_field f more))

validate_targets-IsSound :
    (accepts : TargetKind → ℕ → Bool) (ts : List ActionTarget)
    → IsSound (validate_targets accepts ts)
unfolding validate_targets
validate_targets-IsSound accepts [] = ok-IsSound []
validate_targets-IsSound accepts (t ∷ ts) = elim (Bool-cases (accepts t.kind t.value)) [
  | inl e ↦ rw e (
      >>=-IsSound (validate_targets accepts ts) _ (validate_targets-IsSound accepts ts)
        (λ us k. ok-IsSound _))
  | inr e ↦ rw e (record { sound = refl })
]

nonempty_targets-IsSound : (ts : List ActionTarget) → IsSound (nonempty_targets ts)
nonempty_targets-IsSound [] = record { sound = refl }
nonempty_targets-IsSound (t ∷ ts) = ok-IsSound _

build_targets-IsSound :
    (accepts : TargetKind → ℕ → Bool) (home : ℕ) (template : TemplateKey) (fs : List Finding)
    → IsSound (build_targets accepts home template fs)
unfolding build_targets
build_targets-IsSound accepts home template fs =
    >>=-IsSound (add_findings fs []) _ (add_findings-IsSound fs []) (λ refs e.
      >>=-IsSound (validate_targets accepts _) nonempty_targets (validate_targets-IsSound accepts _)
        (λ targets k. nonempty_targets-IsSound targets))

group_findings-IsSound : (fs : List Finding) (gs : List Group) → IsSound (group_findings fs gs)
unfolding group_findings
group_findings-IsSound [] gs = ok-IsSound gs
group_findings-IsSound (f ∷ fs) gs =
    >>=-IsSound (group_key f) (λ key. group_findings fs (join_group key.0 key.1 f gs))
      (record { sound = ground arith })
      (λ key e. group_findings-IsSound fs (join_group key.0 key.1 f gs))

build_candidate-IsSound :
    (texts : Texts) (limits : PublicActionLimits) (home : ℕ) (source : ℕ → SourceType) (g : Group)
    → IsSound (build_candidate texts limits home source g)
unfolding build_candidate
build_candidate-IsSound texts limits home source g =
    let fs = sort_by finding_key (entries g) in
    refuse_if-IsSound (ltb limits.max_findings_per_action (length (entries g))) limit_exceeded _
      refl
      (>>=-IsSound (build_targets texts.accepts home g.template fs) _
        (build_targets-IsSound texts.accepts home g.template fs)
        (λ targets e.
          refuse_if-IsSound (ltb limits.max_targets_per_action (length targets)) limit_exceeded _
            refl (refuse_if-IsSound _ reference_invalid _ refl (ok-IsSound _))))

build_each-IsSound :
    (texts : Texts) (limits : PublicActionLimits) (home : ℕ) (source : ℕ → SourceType)
    (gs : List Group)
    → IsSound (build_each texts limits home source gs)
unfolding build_each
build_each-IsSound texts limits home source [] = ok-IsSound []
build_each-IsSound texts limits home source (g ∷ gs) =
    >>=-IsSound (build_candidate texts limits home source g) _
      (build_candidate-IsSound texts limits home source g)
      (λ c e.
        >>=-IsSound (build_each texts limits home source gs) (λ cs. ok (c ∷ cs))
          (build_each-IsSound texts limits home source gs) (λ cs k. ok-IsSound _))

rank_candidates-IsSound :
    (texts : Texts) (cs : List ActionCandidate) → IsSound (rank_candidates texts cs)
unfolding rank_candidates
rank_candidates-IsSound texts cs = refuse_if-IsSound _ id_conflict _ refl (ok-IsSound _)

pub build_candidates-IsSound :
    (texts : Texts) (limits : PublicActionLimits) (home : ℕ) (source : ℕ → SourceType)
    (fs : List Finding)
    → IsSound (build_candidates texts limits home source fs)
unfolding build_candidates
build_candidates-IsSound texts limits home source fs =
    let sorted = sort_by finding_key fs in
    >>=-IsSound (group_findings sorted []) _ (group_findings-IsSound sorted []) (λ groups e.
      let gs = sort_by group_order groups in
      refuse_if-IsSound (ltb limits.max_candidates (length groups)) limit_exceeded _ refl (
        >>=-IsSound (build_each texts limits home source gs) (rank_candidates texts)
          (build_each-IsSound texts limits home source gs)
          (λ cs k. rank_candidates-IsSound texts cs)))

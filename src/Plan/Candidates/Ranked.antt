-- ===== src/Plan/Candidates/Ranked.antt =====
-- The list that `_build_candidates` returns.
use mathlib.Core.List.{Perm, append-nil}
use mathlib.Core.List.Perm
use search_trust_rd.Prelude.{
  ℕ, ◌≡◌, refl, ◌∙◌, subst, true, ◌||◌, List, [], ◌∷◌, ◌==◌, ltb, length, arith,
}
use search_trust_rd.Plan.Sorting.{
  sort_by, insert_by, sort_by-perm, sort_by-All, sort_by-IsSorted, IsSorted,
}
use search_trust_rd.Plan.Findings.{Finding, SourceType}
use search_trust_rd.Plan.Outcome.{ok, ◌>>=◌, >>=-eq-ok, refuse_if-eq-ok, limit_exceeded}
use search_trust_rd.Plan.Targets.{has}
use search_trust_rd.Plan.Candidates.{
  Texts, PublicActionLimits, entries, ActionCandidate, group_findings, finding_key, group_order,
  candidate_sort_key, build_each, build_candidates, rank_candidates, ids_of, all_distinct,
}
use search_trust_rd.Plan.Candidates.Grouped.{
  HasNoDependencies, findings_in, sort_by-gather, group_findings-perm, build_each-perm,
}

module _ (key : ActionCandidate → List ℕ) where
  has-insert_by :
      (n : ℕ) (x : ActionCandidate) (xs : List ActionCandidate)
      → has n (ids_of (insert_by key x xs)) ≡ ((x.action_id == n) || has n (ids_of xs))
  unfolding insert_by
  has-insert_by n x [] = refl
  has-insert_by n x (y ∷ ys) = ground (arith, has-insert_by n x ys)

  distinct-insert_by :
      (x : ActionCandidate) (xs : List ActionCandidate)
      → all_distinct (ids_of (insert_by key x xs)) ≡ all_distinct (ids_of (x ∷ xs))
  unfolding insert_by all_distinct
  distinct-insert_by x [] = refl
  distinct-insert_by x (y ∷ ys) =
      ground (arith, distinct-insert_by x ys, has-insert_by y.action_id x ys)

  has-sort_by :
      (n : ℕ) (xs : List ActionCandidate) → has n (ids_of (sort_by key xs)) ≡ has n (ids_of xs)
  unfolding sort_by
  has-sort_by n [] = refl
  has-sort_by n (x ∷ xs) = ground (arith, has-insert_by n x (sort_by key xs), has-sort_by n xs)

  pub distinct-sort_by :
      (xs : List ActionCandidate)
      → all_distinct (ids_of (sort_by key xs)) ≡ all_distinct (ids_of xs)
  unfolding sort_by all_distinct
  distinct-sort_by [] = refl
  distinct-sort_by (x ∷ xs) = ground (
    arith,
    distinct-insert_by x (sort_by key xs),
    has-sort_by x.action_id xs,
    distinct-sort_by xs,
  )

-- The candidates are ranked and new, and share out the findings.
pub record IsRanked (texts : Texts) (findings : List Finding) (cs : List ActionCandidate)
    : Type 0 where
  pub distinct_ids : all_distinct (ids_of cs) ≡ true
  pub no_dependencies : HasNoDependencies cs
  pub by_rank : IsSorted (candidate_sort_key texts) cs
  pub shared_out : Perm (findings_in cs) findings

rank_candidates-IsRanked :
    (texts : Texts) (findings : List Finding) (built : List ActionCandidate)
    {cs : List ActionCandidate}
    → HasNoDependencies built
    → Perm (findings_in built) findings
    → rank_candidates texts built ≡ ok cs
    → IsRanked texts findings cs
unfolding rank_candidates
rank_candidates-IsRanked texts findings built free perm e =
    let key = candidate_sort_key texts in
    let new : all_distinct (ids_of built) ≡ true = ground arith in
    let same : sort_by key built ≡ _ = ground arith in
    subst (IsRanked texts findings) same record {
      distinct_ids = distinct-sort_by key built ∙ new;
      no_dependencies = sort_by-All key _ built free;
      by_rank = sort_by-IsSorted key built;
      shared_out = Perm.trans (sort_by-gather _ key built) perm;
    }

-- The candidates built from findings have distinct identifiers and no dependencies yet, stand in
-- the order of their keys, and every finding is in exactly one of them.
pub build_candidates-IsRanked :
    (texts : Texts) (limits : PublicActionLimits) (home : ℕ) (source : ℕ → SourceType)
    (findings : List Finding) {cs : List ActionCandidate}
    → build_candidates texts limits home source findings ≡ ok cs
    → IsRanked texts findings cs
unfolding build_candidates
build_candidates-IsRanked texts limits home source findings e =
    let (groups, grouped, e1) = >>=-eq-ok (group_findings (sort_by finding_key findings) []) _ e in
    let (few, e2) =
      refuse_if-eq-ok (ltb limits.max_candidates (length groups)) limit_exceeded
        (build_each texts limits home source (sort_by group_order groups) >>= rank_candidates texts)
        e1 in
    let (built, each, ranked) =
      >>=-eq-ok (build_each texts limits home source (sort_by group_order groups))
        (rank_candidates texts) e2 in
    let (free, perm) = build_each-perm texts limits home source (sort_by group_order groups) each in
    rank_candidates-IsRanked texts findings built free
      (Perm.trans perm (
        Perm.trans (sort_by-gather entries group_order groups) (
          Perm.trans (group_findings-perm (sort_by finding_key findings) [] grouped)
            (rw append-nil (sort_by-perm finding_key findings)))))
      ranked

-- ===== src/Diff/Partition.antt =====
-- The difference accounts for every finding: a finding of the parent report has one entry or is
-- unchanged, a new finding explains an older one or has an entry of its own.
use mathlib.Core.List.{Perm, append-nil}
use mathlib.Core.List.Perm
use search_trust_rd.Prelude.{
  ℕ, ◌≡◌, refl, sym, ◌∙◌, ap, subst, false, not, ◌&&◌, ◌||◌, List, [], ◌∷◌, ◌++◌, ltb, length,
  arith, Bool-cases, inl, inr,
}
use search_trust_rd.Plan.Sorting.{sort_by, insert_by, tuple_lt, sort_by-perm}
use search_trust_rd.Plan.Targets.{sorted_ids, number_key}
use search_trust_rd.Plan.Candidates.Grouped.{gather, sort_by-gather}
use search_trust_rd.Diff.Sources.{
  refused, checked, diff_reference_invalid, diff_limit_exceeded, ◌>>=◌, FindingRef, ref_key,
  same_ref, has_ref, NewFinding, finding_evidence,
}
use search_trust_rd.Diff.Changes.{DiffInput, owned_known}
use search_trust_rd.Diff.Loops.{
  Compared, Added, VersionDifference, compare_parents, add_new, new_record, difference_of,
  limit_entries, build_version_diff, new_finding_key, record_key, distinct_refs,
}
use search_trust_rd.Diff.Refs.{
  >>=-eq-checked, previous_of, added_of, cited_of, has_ref-gather-sort_by, parent_ids, refs_in,
  gather-append, has_ref_eq, has_ref-sort_by, has_ref-distinct_refs,
}
use search_trust_rd.Diff.Compared.{IsCompared, compare_parents-IsCompared}

-- What the second loop makes of the new findings.
pub record IsAdded (consumed : List FindingRef) (ns : List NewFinding) (a : Added) : Type 0 where
  pub about_none : gather previous_of a.added_records ≡ []
  pub about_new : gather added_of a.added_records ≡ a.new_refs
  pub none_cited : gather cited_of a.added_records ≡ []
  pub left_over :
      (r : FindingRef) → has_ref r a.new_refs ≡ (has_ref r (refs_in ns) && not (has_ref r consumed))

add_new-IsAdded :
    (input : DiffInput) (consumed : List FindingRef) (ns : List NewFinding) {a : Added}
    → add_new input consumed ns ≡ checked a
    → IsAdded consumed ns a
unfolding add_new
add_new-IsAdded input consumed [] e =
    let same : record { added_records = []; new_refs = [] } ≡ _ = cc in
    subst (IsAdded consumed []) same
      record { about_none = refl; about_new = refl; none_cited = refl; left_over = λ r. refl }
add_new-IsAdded input consumed (n ∷ ns) e = elim (Bool-cases (has_ref n.ref consumed)) [
  | inl k ↦
      let i = add_new-IsAdded input consumed ns (rw k at e) in
      record {
        about_none = i.about_none;
        about_new = i.about_new;
        none_cited = i.none_cited;
        left_over = λ r. ground (arith, i.left_over r, has_ref_eq n.ref r consumed);
      }
  | inr k ↦
      let now = rw k at e in
      let (evidence, e1, e2) =
        >>=-eq-checked (finding_evidence n.evidence_ids n.comparator_ids input.known_evidence) _
          now in
      let (a, rest, e3) = >>=-eq-checked (add_new input consumed ns) _ e2 in
      let i = add_new-IsAdded input consumed ns rest in
      let same : record {
        added_records = new_record input n evidence ∷ a.added_records;
        new_refs = n.ref ∷ a.new_refs;
      }
          ≡ _ =
        cc in
      subst (IsAdded consumed (n ∷ ns)) same record {
        about_none = i.about_none;
        about_new = ap (◌∷◌ n.ref) i.about_new;
        none_cited = i.none_cited;
        left_over = λ r. ground (arith, i.left_over r, has_ref_eq n.ref r consumed);
      }
]

-- The difference accounts for every finding.
pub record IsAccounted (input : DiffInput) (d : VersionDifference) : Type 0 where
  pub parents_once :
      Perm
        (gather previous_of d.entries ++ d.unchanged_previous_findings)
        (parent_ids input.parents)
  pub entries_new : Perm (gather added_of d.entries) d.new_findings
  -- The used findings are those that the entries about the parent's findings cite.
  pub used_cited :
      (r : FindingRef) → has_ref r d.consumed_new_findings ≡ has_ref r (gather cited_of d.entries)
  pub used_or_new :
      (r : FindingRef)
      → has_ref r (refs_in input.new_by_ref)
        ≡ (has_ref r d.consumed_new_findings || has_ref r d.new_findings)
  pub not_both :
      (r : FindingRef) → (has_ref r d.consumed_new_findings && has_ref r d.new_findings) ≡ false

sorted_ids-perm : (l : List ℕ) → Perm (sorted_ids l) l
unfolding sorted_ids
sorted_ids-perm l = sort_by-perm number_key l

difference_of-IsAccounted :
    (input : DiffInput) (ns : List NewFinding) (c : Compared) (a : Added)
    → ((r : FindingRef) → has_ref r (refs_in ns) ≡ has_ref r (refs_in input.new_by_ref))
    → IsCompared input input.parents c
    → IsAdded c.consumed ns a
    → IsAccounted input (difference_of c a)
difference_of-IsAccounted input ns c a same i k = record {
  parents_once =
      Perm.trans
        (Perm.append
          (subst (Perm (gather previous_of (sort_by record_key (c.records ++ a.added_records))))
            (gather-append previous_of c.records a.added_records
              ∙ ap (gather previous_of c.records ++◌) k.about_none
              ∙ append-nil (gather previous_of c.records))
            (sort_by-gather previous_of record_key (c.records ++ a.added_records)))
          (sorted_ids-perm c.unchanged))
        i.each_once;
  entries_new =
      Perm.trans
        (subst (Perm (gather added_of (sort_by record_key (c.records ++ a.added_records))))
          (gather-append added_of c.records a.added_records
            ∙ ap (◌++ gather added_of a.added_records) i.none_added
            ∙ k.about_new)
          (sort_by-gather added_of record_key (c.records ++ a.added_records)))
        (Perm.symm (sort_by-perm ref_key a.new_refs));
  used_cited = λ r.
      has_ref-sort_by ref_key r (distinct_refs c.consumed)
      ∙ has_ref-distinct_refs r c.consumed
      ∙ sym (i.cited r)
      ∙ ap (has_ref r) (sym (append-nil (gather cited_of c.records)))
      ∙ ap (λ l. has_ref r (gather cited_of c.records ++ l)) (sym k.none_cited)
      ∙ ap (has_ref r) (sym (gather-append cited_of c.records a.added_records))
      ∙ sym (has_ref-gather-sort_by cited_of record_key r (c.records ++ a.added_records));
  used_or_new = λ r. ground (
    arith,
    same r,
    has_ref-sort_by ref_key r (distinct_refs c.consumed),
    has_ref-distinct_refs r c.consumed,
    has_ref-sort_by ref_key r a.new_refs,
    k.left_over r,
    i.known r,
  );
  not_both = λ r. ground (
    arith,
    same r,
    has_ref-sort_by ref_key r (distinct_refs c.consumed),
    has_ref-distinct_refs r c.consumed,
    has_ref-sort_by ref_key r a.new_refs,
    k.left_over r,
  );
}

refs_in-insert_by :
    (r : FindingRef) (n : NewFinding) (ns : List NewFinding)
    → has_ref r (refs_in (insert_by new_finding_key n ns))
      ≡ (same_ref n.ref r || has_ref r (refs_in ns))
unfolding insert_by
refs_in-insert_by r n [] = refl
refs_in-insert_by r n (m ∷ ns) =
    elim (Bool-cases (tuple_lt (new_finding_key m) (new_finding_key n))) [
      | inl e ↦ rw e (ground (arith, refs_in-insert_by r n ns))
      | inr e ↦ rw e refl
    ]

refs_in-sort_by :
    (r : FindingRef) (ns : List NewFinding)
    → has_ref r (refs_in (sort_by new_finding_key ns)) ≡ has_ref r (refs_in ns)
unfolding sort_by
refs_in-sort_by r [] = refl
refs_in-sort_by r (n ∷ ns) =
    refs_in-insert_by r n (sort_by new_finding_key ns)
    ∙ ap (same_ref n.ref r ||◌) (refs_in-sort_by r ns)

limit_entries-eq :
    (input : DiffInput) (d : VersionDifference) {result : VersionDifference}
    → limit_entries input d ≡ checked result
    → d ≡ result
limit_entries-eq input d e =
    elim (Bool-cases (
      ltb input.max_entries (length d.entries) || ltb input.max_audit_entries (length d.entries))) [
        | inl k ↦ absurd (let bad : refused diff_limit_exceeded ≡ checked _ = rw k at e in cc)
        | inr k ↦ let good : checked d ≡ checked _ = rw k at e in cc
      ]

compared-IsAccounted :
    (input : DiffInput) {d : VersionDifference}
    → (compare_parents input input.parents >>= λ c.
        add_new input c.consumed (sort_by new_finding_key input.new_by_ref) >>= λ a.
        limit_entries input (difference_of c a))
      ≡ checked d
    → IsAccounted input d
compared-IsAccounted input e =
    let news = sort_by new_finding_key input.new_by_ref in
    let (c, compared, e1) = >>=-eq-checked (compare_parents input input.parents) _ e in
    let (a, added, e2) = >>=-eq-checked (add_new input c.consumed news) _ e1 in
    let same : difference_of c a ≡ _ = limit_entries-eq input (difference_of c a) e2 in
    subst (IsAccounted input) same (
      difference_of-IsAccounted input news c a (λ r. refs_in-sort_by r input.new_by_ref)
        (compare_parents-IsCompared input input.parents compared)
        (add_new-IsAdded input c.consumed news added))

-- A difference that is built accounts for every finding: each finding of the parent report is
-- the one of exactly one entry or is listed as unchanged, once; the entries about no finding of the
-- parent are about the new findings listed; and the used findings of the verified stages are
-- exactly those that the entries about findings of the parent cite besides that finding itself; and
-- each finding of the verified stages is used or listed as new, never both, and nothing else is
-- listed.
pub build_version_diff-IsAccounted :
    (input : DiffInput) {d : VersionDifference}
    → build_version_diff input ≡ checked d
    → IsAccounted input d
unfolding build_version_diff
build_version_diff-IsAccounted input e = elim (Bool-cases (owned_known input input.relations)) [
  | inl k ↦ compared-IsAccounted input (rw k at e)
  | inr k ↦ absurd (let bad : refused diff_reference_invalid ≡ checked _ = rw k at e in cc)
]

-- ===== src/Diff/Compared.antt =====
-- The first loop of `build_version_diff`: each finding of the parent report has one entry or is
-- unchanged.
use mathlib.Core.List.{Perm, perm_middle}
use mathlib.Core.List.Perm
use search_trust_rd.Prelude.{
  ◌≡◌, refl, sym, subst, ◌∙◌, ap, true, ◌||◌, Option, none, some, List, [], ◌∷◌, ◌++◌, arith,
  Bool-cases, inl, inr,
}
use search_trust_rd.Plan.Candidates.Grouped.{gather}
use search_trust_rd.Diff.Sources.{
  Checked, checked, FindingRef, same_ref, has_ref, ParentFinding, NewFinding, FindingRelation,
}
use search_trust_rd.Diff.Changes.{
  DiffInput, DiffRecord, ChangeDecision, decision_of, known_refs, is_unseen, evidence_of_refs,
}
use search_trust_rd.Diff.Loops.{
  Compared, compare_one, compare_parents, change_of, refs_of, grounds_of, record_of, within_limits,
}
use search_trust_rd.Diff.Refs.{
  >>=-eq-checked, previous_of, added_of, cited_of, parent_ids, refs_in, has_ref_eq, has_ref-append,
  lookup_ref_has,
}

-- What the first loop makes of the findings.
pub record IsCompared (input : DiffInput) (fs : List ParentFinding) (c : Compared) : Type 0 where
  pub each_once : Perm (gather previous_of c.records ++ c.unchanged) (parent_ids fs)
  pub none_added : gather added_of c.records ≡ []
  pub cited : (r : FindingRef) → has_ref r (gather cited_of c.records) ≡ has_ref r c.consumed
  pub known :
      (r : FindingRef) → has_ref r c.consumed ≡ true → has_ref r (refs_in input.new_by_ref) ≡ true

within_limits-eq :
    (input : DiffInput) (r : DiffRecord) {s : DiffRecord}
    → within_limits input r ≡ checked s
    → r ≡ s
within_limits-eq input r e = ground arith

change_of-previous :
    (input : DiffInput) (f : ParentFinding) (d : ChangeDecision) (refs : List FindingRef)
    {r : DiffRecord}
    → change_of input f d refs ≡ checked r
    → r.previous ≡ some f.finding_id
unfolding change_of
change_of-previous input f d refs e =
    let (evidence, e1, e2) = >>=-eq-checked (evidence_of_refs input refs) _ e in
    let (g, e3, e4) = >>=-eq-checked (grounds_of input f d evidence) _ e2 in ground arith

-- The entry cites, after the finding's own reference, exactly the findings that explain it.
change_of-cited :
    (input : DiffInput) (f : ParentFinding) (d : ChangeDecision) (refs : List FindingRef)
    {r : DiffRecord}
    → change_of input f d refs ≡ checked r
    → cited_of r ≡ refs
unfolding change_of
change_of-cited input f d refs e =
    let (evidence, e1, e2) = >>=-eq-checked (evidence_of_refs input refs) _ e in
    let (g, e3, e4) = >>=-eq-checked (grounds_of input f d evidence) _ e2 in
    let made : record_of input f d refs g ≡ _ = within_limits-eq input _ e4 in
    ap cited_of (sym made)

known_refs-lem :
    (news : List NewFinding) (seen : List FindingRef) (rs : List FindingRelation) (r : FindingRef)
    → has_ref r (known_refs news seen rs) ≡ true
    → has_ref r (refs_in news) ≡ true
unfolding known_refs
known_refs-lem news seen [] r h = cc
known_refs-lem news seen (x ∷ rs) r h = elim (Bool-cases (is_unseen news seen x.finding_ref)) [
  | inl e ↦
      let now : (same_ref x.finding_ref r || has_ref r (known_refs news (x.finding_ref ∷ seen) rs))
          ≡ true =
        rw e at h in
      ground (
        arith,
        lookup_ref_has x.finding_ref news,
        has_ref_eq x.finding_ref r (refs_in news),
        known_refs-lem news (x.finding_ref ∷ seen) rs r,
      )
  | inr e ↦
      let now : has_ref r (known_refs news seen rs) ≡ true = rw e at h in
      known_refs-lem news seen rs r now
]

add_unchanged :
    (input : DiffInput) (f : ParentFinding) (fs : List ParentFinding) (c : Compared)
    → IsCompared input fs c
    → IsCompared input (f ∷ fs) (record c { unchanged = f.finding_id ∷ c.unchanged })
add_unchanged input f fs c i = record {
  each_once =
      Perm.trans (perm_middle (gather previous_of c.records) c.unchanged)
        (Perm.cons f.finding_id i.each_once);
  none_added = i.none_added;
  cited = i.cited;
  known = i.known;
}

add_changed :
    (input : DiffInput) (f : ParentFinding) (fs : List ParentFinding) (d : ChangeDecision)
    (r : DiffRecord) (c : Compared)
    → r.previous ≡ some f.finding_id
    → cited_of r ≡ refs_of input d
    → IsCompared input fs c
    → IsCompared input
        (f ∷ fs)
        (record c { records = r ∷ c.records; consumed = refs_of input d ++ c.consumed })
add_changed input f fs d r c e cites i =
    let previous : previous_of r ≡ f.finding_id ∷ [] = rw e refl in
    let added : added_of r ≡ [] = rw e refl in
    record {
      each_once =
          subst (λ l. Perm (l ++ gather previous_of c.records ++ c.unchanged) (parent_ids (f ∷ fs)))
            (sym previous) (Perm.cons f.finding_id i.each_once);
      none_added = subst (λ l. l ++ gather added_of c.records ≡ []) (sym added) i.none_added;
      cited = λ x.
          has_ref-append x (cited_of r) (gather cited_of c.records)
          ∙ rw (cites, i.cited x) (sym (has_ref-append x (refs_of input d) c.consumed));
      known = λ x h. elim (Bool-cases (has_ref x (refs_of input d))) [
        | inl mine ↦ known_refs-lem input.new_by_ref [] d.selected x mine
        | inr other ↦ i.known x (ground (arith, has_ref-append x (refs_of input d) c.consumed))
      ];
    }

compare_one-IsCompared :
    (input : DiffInput) (f : ParentFinding) (fs : List ParentFinding) (rest : Checked Compared)
    (o : Option ChangeDecision) {c : Compared}
    → ((later : Compared) → rest ≡ checked later → IsCompared input fs later)
    → compare_one input f rest o ≡ checked c
    → IsCompared input (f ∷ fs) c
compare_one-IsCompared input f fs rest none ih e =
    let (c, ended, e1) = >>=-eq-checked rest _ e in
    let same : record c { unchanged = f.finding_id ∷ c.unchanged } ≡ _ = cc in
    subst (IsCompared input (f ∷ fs)) same (add_unchanged input f fs c (ih c ended))
compare_one-IsCompared input f fs rest (some d) ih e =
    let (r, changed, e1) = >>=-eq-checked (change_of input f d (refs_of input d)) _ e in
    let (c, ended, e2) = >>=-eq-checked rest _ e1 in
    let same : record c { records = r ∷ c.records; consumed = refs_of input d ++ c.consumed } ≡ _ =
      cc in
    subst (IsCompared input (f ∷ fs)) same (
      add_changed input f fs d r c (change_of-previous input f d (refs_of input d) changed)
        (change_of-cited input f d (refs_of input d) changed) (ih c ended))

pub compare_parents-IsCompared :
    (input : DiffInput) (fs : List ParentFinding) {c : Compared}
    → compare_parents input fs ≡ checked c
    → IsCompared input fs c
unfolding compare_parents
compare_parents-IsCompared input [] e =
    let same : record { records = []; unchanged = []; consumed = [] } ≡ _ = cc in
    subst (IsCompared input []) same record {
      each_once = Perm.rfl;
      none_added = refl;
      cited = λ r. refl;
      known = λ r h. absurd (cc h);
    }
compare_parents-IsCompared input (f ∷ fs) e =
    compare_one-IsCompared input f fs (compare_parents input fs) (decision_of input f)
      (λ later ended. compare_parents-IsCompared input fs ended) e

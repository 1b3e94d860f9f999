-- ===== src/Plan/Targets.antt =====
-- The targets of a candidate action: `_build_targets` of app/report_v22/actions.py.
use search_trust_rd.Prelude.{ℕ, Bool, ◌&&◌, none, some, List, [], ◌∷◌, ◌==◌, any, if◌then◌else◌}
use search_trust_rd.Plan.Sorting.{sort_by}
use search_trust_rd.Plan.Findings.{
  Finding, TemplateKey, review_market_visibility, is_template, rule_field, field_index, is_asset,
}
use search_trust_rd.Plan.Outcome.{Outcome, ok, raised, ◌>>=◌, reference_invalid}

-- Python's `in`, for lists and sets
abbrev pub has : ℕ → List ℕ → Bool
has n l = any (λ m. m == n) l

-- `list(dict.fromkeys(l))`, the elements of `set(l)`
unfoldable pub distinct : List ℕ → List ℕ
distinct [] = []
distinct (x ∷ xs) = let rest = distinct xs in if has x xs then rest else x ∷ rest

abbrev pub number_key : ℕ → List ℕ
number_key n = n ∷ []

-- `sorted` of identifiers
unfoldable pub sorted_ids : List ℕ → List ℕ
unfolding sort_by
sorted_ids l = sort_by number_key l

pub data TargetKind : Type 0 where
  site url query page_type gbp_field : TargetKind

-- _TARGET_ORDER
abbrev pub target_order : TargetKind → ℕ
target_order site = 0
target_order url = 1
target_order query = 2
target_order page_type = 3
target_order gbp_field = 4

pub record ActionTarget : Type 0 where
  pub kind : TargetKind
  pub value : ℕ
  pub finding_ids : List ℕ

-- `_target_sort_key`
abbrev pub target_key : ActionTarget → List ℕ
target_key t = target_order t.kind ∷ t.value ∷ []

-- What `add` does with the dictionary of references.
unfoldable pub add_reference : TargetKind → ℕ → ℕ → List ActionTarget → List ActionTarget
add_reference k v i [] = record { kind = k; value = v; finding_ids = i ∷ [] } ∷ []
add_reference k v i (t ∷ ts) =
    if (target_order t.kind == target_order k) && (t.value == v)
    then record t { finding_ids = if has i t.finding_ids then t.finding_ids else i ∷ t.finding_ids }
      ∷ ts
    else t ∷ add_reference k v i ts

unfoldable pub add_all : TargetKind → List ℕ → ℕ → List ActionTarget → List ActionTarget
unfolding add_reference
add_all k [] i refs = refs
add_all k (v ∷ vs) i refs = add_all k vs i (add_reference k v i refs)

abbrev pub add_page_type : Finding → List ActionTarget → Outcome (List ActionTarget)
add_page_type f refs =
    if is_asset f.rule
    then (elim f.page_type [
      | none ↦ raised reference_invalid
      | some p ↦ ok (add_reference page_type p f.finding_id refs)
    ])
    else ok refs

-- the rules of {*GBP_RULES, HOURS} are those with a field
abbrev pub add_field : Finding → List ActionTarget → List ActionTarget
add_field f refs = elim (rule_field f.rule) [
  | none ↦ refs
  | some g ↦ add_reference gbp_field (field_index g) f.finding_id refs
]

-- The loop over the entries of a candidate.
unfoldable pub add_findings : List Finding → List ActionTarget → Outcome (List ActionTarget)
unfolding add_all
add_findings [] refs = ok refs
add_findings (f ∷ fs) refs = do
  added ← add_page_type f (
      add_all query f.affected_queries f.finding_id (add_all url f.affected_urls f.finding_id refs))
  add_findings fs (add_field f added)

unfoldable pub add_sites : ℕ → List Finding → List ActionTarget → List ActionTarget
unfolding add_reference
add_sites home [] refs = refs
add_sites home (f ∷ fs) refs = add_sites home fs (add_reference site home f.finding_id refs)

-- `ActionTarget.model_validate` sorts the identifiers; whether it accepts a value is an argument.
unfoldable pub validate_targets :
    (TargetKind → ℕ → Bool) → List ActionTarget → Outcome (List ActionTarget)
unfolding sorted_ids
validate_targets accepts [] = ok []
validate_targets accepts (t ∷ ts) =
    let rest = validate_targets accepts ts in
    if accepts t.kind t.value
    then (rest >>= λ us. ok (record t { finding_ids = sorted_ids t.finding_ids } ∷ us))
    else raised reference_invalid

abbrev pub nonempty_targets : List ActionTarget → Outcome (List ActionTarget)
nonempty_targets [] = raised reference_invalid
nonempty_targets (t ∷ ts) = ok (sort_by target_key (t ∷ ts))

unfoldable pub build_targets :
    (TargetKind → ℕ → Bool) → ℕ → TemplateKey → List Finding → Outcome (List ActionTarget)
unfolding add_findings add_sites validate_targets sort_by
build_targets accepts home template entries = do
  refs ← add_findings entries []
  targets ←
      validate_targets accepts (
        if is_template review_market_visibility template then add_sites home entries refs else refs)
  nonempty_targets targets

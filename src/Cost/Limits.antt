-- ===== src/Cost/Limits.antt =====
-- A granted claim stays within the limits of app/jobs_v22/cost_models.py.
use search_trust_rd.Prelude.{
  ℕ, zero, suc, ◌+◌, ◌≤◌, ◌<◌, ◌≡◌, refl, sym, ap, ◌∙◌, subst, Bool, true, false, List, [], ◌∷◌,
  ==_iff, leb, arith, if◌then◌else◌,
}
use search_trust_rd.Cost.Claims.{
  CostOperation, operation_index, operation_eq, operation_limit, CostClaim,
}
use search_trust_rd.Cost.Book.{CostLedgerState, used, new_claim, claimed}
use search_trust_rd.Cost.Growth.{WithinLimits, used-append}

abbrev limit_at : ℕ → List ℕ → ℕ
limit_at n [] = 0
limit_at zero (x ∷ xs) = x
limit_at (suc n) (x ∷ xs) = limit_at n xs

abbrev limits : List ℕ
limits = 1 ∷ 30 ∷ 15 ∷ 3 ∷ 4 ∷ 2 ∷ 0 ∷ 5 ∷ 12 ∷ 20 ∷ 8 ∷ 1 ∷ 1 ∷ 10 ∷ 3 ∷ []

limit_by_index : (op : CostOperation) → operation_limit op ≡ limit_at (operation_index op) limits
unfolding operation_limit operation_index
limit_by_index CostOperation.serpapi_location = refl
limit_by_index CostOperation.serpapi_market_search = refl
limit_by_index CostOperation.serpapi_public_profile = refl
limit_by_index CostOperation.serpapi_customer_public_gbp = refl
limit_by_index CostOperation.firecrawl_map = refl
limit_by_index CostOperation.firecrawl_scrape = refl
limit_by_index CostOperation.jina_fetch = refl
limit_by_index CostOperation.pagespeed_analysis = refl
limit_by_index CostOperation.gsc_search_analytics = refl
limit_by_index CostOperation.ga4_key_events = refl
limit_by_index CostOperation.ga4_run_report = refl
limit_by_index CostOperation.gbp_location = refl
limit_by_index CostOperation.gbp_performance = refl
limit_by_index CostOperation.gbp_keywords = refl
limit_by_index CostOperation.dify_workflow = refl

same_limit :
    (a b : CostOperation)
    → operation_index a ≡ operation_index b
    → operation_limit a ≡ operation_limit b
same_limit a b e = limit_by_index a ∙ ap (λ i. limit_at i limits) e ∙ sym (limit_by_index b)

same_used :
    (a b : CostOperation) (cs : List CostClaim)
    → operation_index a ≡ operation_index b
    → used a cs ≡ used b cs
unfolding used
same_used a b [] e = refl
same_used a b (c ∷ cs) e = rw (e, same_used a b cs e) refl

add_within :
    (b : Bool) (n limit : ℕ) → n ≤ limit → (b ≡ true → n < limit) → n + (if b then 1 else 0) ≤ limit
add_within true n limit h k = let below = k refl in omega arith
add_within false n limit h k = omega arith

below_limit : (limit n : ℕ) → leb limit n ≡ false → n < limit
below_limit limit n h = ground arith

pub claimed-WithinLimits :
    (id : ℕ) (op : CostOperation) (now : ℕ) (s : CostLedgerState)
    → leb (operation_limit op) (used op s.claims) ≡ false
    → WithinLimits s
    → WithinLimits (claimed id op now s)
unfolding claimed new_claim
claimed-WithinLimits id op now s free h other =
    subst (λ n. n ≤ operation_limit other) (sym (used-append other s.claims (new_claim id op now)))
      (add_within (operation_eq op other) (used other s.claims) (operation_limit other) (h other)
        (λ same.
          let e = (==_iff (operation_index op) (operation_index other)).0 same in
          below_limit _ _ (
            subst (λ l. leb l (used other s.claims) ≡ false) (same_limit op other e)
              (subst (λ u. leb (operation_limit op) u ≡ false) (same_used op other s.claims e)
                free))))

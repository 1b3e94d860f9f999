-- ===== src/Cost/Totals.antt =====
-- The totals that `cost_counters_from_state` (app/jobs_v22/cost_models.py) reports agree with the
-- ledger's claims, and prices of tokens with the exact ones.
use search_trust_rd.Prelude.{
  ℕ, zero, suc, ◌+◌, ◌*◌, ◌≤◌, ◌<◌, ◌≡◌, refl, ap, ◌∙◌, Bool-cases, inl, inr, List, [], ◌∷◌, length,
  arith,
}
use search_trust_rd.Cost.Counters.{
  dify, provider_index, metric_index, counter_key_eq, base_index, base, provider_attempts_total,
  estimated_cost_usd_micros,
}
use search_trust_rd.Cost.Claims.{CostOperation, PricingCatalog, CostClaim, provider_eq}
use search_trust_rd.Cost.Book.{CostLedgerState}
use search_trust_rd.Cost.Summary.{
  Tally, add_attempt, add_claim, add_claims, add_denials, claim_cost, first_counters, tally,
  microdollars_for_tokens,
}

claim_totals :
    (p : PricingCatalog) (c : CostClaim) (t : Tally)
    → (add_claim p c t (base provider_attempts_total) ≡ t (base provider_attempts_total) + 1)
      × (add_claim p c t (base estimated_cost_usd_micros)
          ≡ t (base estimated_cost_usd_micros) + claim_cost p c)
unfolding add_claim add_attempt counter_key_eq provider_index metric_index base_index
claim_totals p c t = elim (Bool-cases (provider_eq c.provider dify)) [
  | inr e ↦ (grind arith, grind arith)
  | inl e ↦ (grind arith, grind arith)
]

-- the price of all claims
abbrev pub cost_sum : PricingCatalog → List CostClaim → ℕ
cost_sum p [] = 0
cost_sum p (c ∷ cs) = claim_cost p c + cost_sum p cs

claims_totals :
    (p : PricingCatalog) (cs : List CostClaim) (t : Tally)
    → (add_claims p cs t (base provider_attempts_total)
        ≡ t (base provider_attempts_total) + length cs)
      × (add_claims p cs t (base estimated_cost_usd_micros)
          ≡ t (base estimated_cost_usd_micros) + cost_sum p cs)
unfolding add_claims
claims_totals p [] t = (omega arith, omega arith)
claims_totals p (c ∷ cs) t =
    let (here, price) = claim_totals p c t in
    let (later, prices) = claims_totals p cs (add_claim p c t) in (omega arith, omega arith)

denials_apart :
    (ds : List (CostOperation × ℕ)) (t : Tally)
    → (add_denials ds t (base provider_attempts_total) ≡ t (base provider_attempts_total))
      × (add_denials ds t (base estimated_cost_usd_micros) ≡ t (base estimated_cost_usd_micros))
unfolding add_denials counter_key_eq base_index
denials_apart [] t = (refl, refl)
denials_apart ((op, n) ∷ rest) t = denials_apart rest _

zero_plus : (n : ℕ) → 0 + n ≡ n
zero_plus n = omega arith

-- In the counters of every ledger the attempts in total are the number of its claims, denials not
-- counted, and the estimated cost in total is the sum of the prices of its claims.
pub tally_claims :
    (wall_ms : ℕ) (s : CostLedgerState)
    → (tally wall_ms s (base provider_attempts_total) ≡ length s.claims)
      × (tally wall_ms s (base estimated_cost_usd_micros) ≡ cost_sum s.pricing s.claims)
unfolding tally first_counters
tally_claims wall_ms s =
    let t = first_counters wall_ms s in
    let (attempts_apart, costs_apart) = denials_apart s.local_denials t in
    let (counted, priced) = claims_totals s.pricing s.claims (add_denials s.local_denials t) in
    (
      counted ∙ ap (λ n. n + length s.claims) attempts_apart ∙ zero_plus _,
      priced ∙ ap (λ n. n + cost_sum s.pricing s.claims) costs_apart ∙ zero_plus _,
    )

-- The price of tokens, in millionths of a dollar, is the exact price rounded up.
pub tokens_bounds :
    (tokens rate : ℕ)
    → (tokens * rate ≤ 1_000_000 * microdollars_for_tokens tokens rate)
      × (1_000_000 * microdollars_for_tokens tokens rate < tokens * rate + 1_000_000)
unfolding microdollars_for_tokens
tokens_bounds zero rate = (omega arith, omega arith)
tokens_bounds (suc t) zero = (omega arith, omega arith)
tokens_bounds (suc t) (suc r) = (omega arith, omega arith)

-- ===== src/Cost/Conservation.antt =====
-- The totals that `cost_counters_from_state` (app/jobs_v22/cost_models.py) reports agree with its
-- counters by provider and by outcome.
use search_trust_rd.Prelude.{
  ℕ, ◌+◌, ◌≡◌, refl, ◌∙◌, Bool, true, false, Option, List, [], ◌∷◌, arith, ◌==◌, if◌then◌else◌,
}
use search_trust_rd.Cost.Counters.{
  CostProvider, serpapi, firecrawl, jina, pagespeed, gsc, ga4, gbp, dify, provider_index,
  metric_index, counter_key_eq, base_index, base, provider, Metric, provider_attempts_total,
  provider_successes_total, provider_failures_total, provider_outcome_unknown_total,
  provider_local_denials_total, estimated_cost_usd_micros, pricing_unknown_units_total, attempts,
  successes, failures, outcome_unknown, local_denials, estimated_cost, pricing_unknown_units,
  dify_input_tokens, dify_output_tokens, dify_total_tokens, dify_usage_unknown_calls,
}
use search_trust_rd.Cost.Claims.{
  CostOperation, operation_provider, CostOutcome, PricingCatalog, CostClaim, provider_eq,
}
use search_trust_rd.Cost.Book.{CostLedgerState}
use search_trust_rd.Cost.Summary.{
  Tally, bump, add_attempt, add_tokens, add_claim, add_claims, add_denials, first_counters, tally,
}

-- the sum over the providers
abbrev pub over : Metric → Tally → ℕ
over m t =
    t (provider serpapi m)
    + t (provider firecrawl m)
    + t (provider jina m)
    + t (provider pagespeed m)
    + t (provider gsc m)
    + t (provider ga4 m)
    + t (provider gbp m)
    + t (provider dify m)

-- A total is the sum of its counters by provider, and every attempt has one outcome.
pub record Balanced (t : Tally) : Type 0 where
  pub outcomes :
      t (base provider_attempts_total)
      ≡ t (base provider_successes_total)
        + t (base provider_failures_total)
        + t (base provider_outcome_unknown_total)
  pub by_attempts : t (base provider_attempts_total) ≡ over attempts t
  pub by_successes : t (base provider_successes_total) ≡ over successes t
  pub by_failures : t (base provider_failures_total) ≡ over failures t
  pub by_unknowns : t (base provider_outcome_unknown_total) ≡ over outcome_unknown t
  pub by_denials : t (base provider_local_denials_total) ≡ over local_denials t
  pub by_costs : t (base estimated_cost_usd_micros) ≡ over estimated_cost t
  pub by_unpriced : t (base pricing_unknown_units_total) ≡ over pricing_unknown_units t

attempt_outcomes :
    (p : CostProvider) (o : Option CostOutcome) (d b c u : ℕ) (t : Tally)
    → t (base provider_attempts_total)
      ≡ t (base provider_successes_total)
        + t (base provider_failures_total)
        + t (base provider_outcome_unknown_total)
    → add_attempt p o d b c u t (base provider_attempts_total)
      ≡ add_attempt p o d b c u t (base provider_successes_total)
        + add_attempt p o d b c u t (base provider_failures_total)
        + add_attempt p o d b c u t (base provider_outcome_unknown_total)
unfolding add_attempt counter_key_eq provider_index metric_index base_index
attempt_outcomes p o d b c u t h = grind arith

attempt_attempts :
    (p : CostProvider) (o : Option CostOutcome) (d b c u : ℕ) (t : Tally)
    → t (base provider_attempts_total) ≡ over attempts t
    → add_attempt p o d b c u t (base provider_attempts_total)
      ≡ over attempts (add_attempt p o d b c u t)
unfolding add_attempt counter_key_eq provider_index metric_index base_index
attempt_attempts p o d b c u t h = grind arith

attempt_successes :
    (p : CostProvider) (o : Option CostOutcome) (d b c u : ℕ) (t : Tally)
    → t (base provider_successes_total) ≡ over successes t
    → add_attempt p o d b c u t (base provider_successes_total)
      ≡ over successes (add_attempt p o d b c u t)
unfolding add_attempt counter_key_eq provider_index metric_index base_index
attempt_successes p o d b c u t h = grind arith

attempt_failures :
    (p : CostProvider) (o : Option CostOutcome) (d b c u : ℕ) (t : Tally)
    → t (base provider_failures_total) ≡ over failures t
    → add_attempt p o d b c u t (base provider_failures_total)
      ≡ over failures (add_attempt p o d b c u t)
unfolding add_attempt counter_key_eq provider_index metric_index base_index
attempt_failures p o d b c u t h = grind arith

attempt_unknowns :
    (p : CostProvider) (o : Option CostOutcome) (d b c u : ℕ) (t : Tally)
    → t (base provider_outcome_unknown_total) ≡ over outcome_unknown t
    → add_attempt p o d b c u t (base provider_outcome_unknown_total)
      ≡ over outcome_unknown (add_attempt p o d b c u t)
unfolding add_attempt counter_key_eq provider_index metric_index base_index
attempt_unknowns p o d b c u t h = grind arith

attempt_denials :
    (p : CostProvider) (o : Option CostOutcome) (d b c u : ℕ) (t : Tally)
    → t (base provider_local_denials_total) ≡ over local_denials t
    → add_attempt p o d b c u t (base provider_local_denials_total)
      ≡ over local_denials (add_attempt p o d b c u t)
unfolding add_attempt counter_key_eq provider_index metric_index base_index
attempt_denials p o d b c u t h = grind arith

attempt_costs :
    (p : CostProvider) (o : Option CostOutcome) (d b c u : ℕ) (t : Tally)
    → t (base estimated_cost_usd_micros) ≡ over estimated_cost t
    → add_attempt p o d b c u t (base estimated_cost_usd_micros)
      ≡ over estimated_cost (add_attempt p o d b c u t)
unfolding add_attempt counter_key_eq provider_index metric_index base_index
attempt_costs p o d b c u t h = grind arith

attempt_unpriced :
    (p : CostProvider) (o : Option CostOutcome) (d b c u : ℕ) (t : Tally)
    → t (base pricing_unknown_units_total) ≡ over pricing_unknown_units t
    → add_attempt p o d b c u t (base pricing_unknown_units_total)
      ≡ over pricing_unknown_units (add_attempt p o d b c u t)
unfolding add_attempt counter_key_eq provider_index metric_index base_index
attempt_unpriced p o d b c u t h = grind arith

attempt-Balanced :
    (p : CostProvider) (o : Option CostOutcome) (d b c u : ℕ) (t : Tally)
    → Balanced t
    → Balanced (add_attempt p o d b c u t)
attempt-Balanced p o d b c u t h = record {
  outcomes = attempt_outcomes p o d b c u t h.outcomes;
  by_attempts = attempt_attempts p o d b c u t h.by_attempts;
  by_successes = attempt_successes p o d b c u t h.by_successes;
  by_failures = attempt_failures p o d b c u t h.by_failures;
  by_unknowns = attempt_unknowns p o d b c u t h.by_unknowns;
  by_denials = attempt_denials p o d b c u t h.by_denials;
  by_costs = attempt_costs p o d b c u t h.by_costs;
  by_unpriced = attempt_unpriced p o d b c u t h.by_unpriced;
}

known-Balanced :
    (i o n : ℕ) (t : Tally)
    → Balanced t
    → Balanced (
        bump
          (base dify_total_tokens)
          n
          (bump (base dify_output_tokens) o (bump (base dify_input_tokens) i t)))
unfolding counter_key_eq provider_index metric_index base_index
known-Balanced i o n t h = record {
  outcomes = h.outcomes;
  by_attempts = h.by_attempts;
  by_successes = h.by_successes;
  by_failures = h.by_failures;
  by_unknowns = h.by_unknowns;
  by_denials = h.by_denials;
  by_costs = h.by_costs;
  by_unpriced = h.by_unpriced;
}

unknown-Balanced : (t : Tally) → Balanced t → Balanced (bump (base dify_usage_unknown_calls) 1 t)
unfolding counter_key_eq provider_index metric_index base_index
unknown-Balanced t h = record {
  outcomes = h.outcomes;
  by_attempts = h.by_attempts;
  by_successes = h.by_successes;
  by_failures = h.by_failures;
  by_unknowns = h.by_unknowns;
  by_denials = h.by_denials;
  by_costs = h.by_costs;
  by_unpriced = h.by_unpriced;
}

chosen-Balanced :
    (x y : Bool) (a b t : Tally)
    → Balanced a
    → Balanced b
    → Balanced t
    → Balanced (if x then if y then a else b else t)
chosen-Balanced true true a b t h k l = h
chosen-Balanced true false a b t h k l = k
chosen-Balanced false y a b t h k l = l

tokens-Balanced : (c : CostClaim) (t : Tally) → Balanced t → Balanced (add_tokens c t)
tokens-Balanced c t h =
    chosen-Balanced (provider_eq c.provider dify) c.usage_known _ _ t (known-Balanced _ _ _ t h)
      (unknown-Balanced t h) h

denial_total :
    (p : CostProvider) (n : ℕ) (t : Tally)
    → t (base provider_local_denials_total) ≡ over local_denials t
    → t (base provider_local_denials_total) + n
      ≡ over local_denials (bump (provider p local_denials) n t)
unfolding counter_key_eq provider_index metric_index base_index
denial_total p n t h = grind arith

-- The counters of one metric are apart from those of another.
apart :
    (m k : Metric) (p : CostProvider) (n : ℕ) (t : Tally)
    → (metric_index m == metric_index k) ≡ false
    → over m t ≡ over m (bump (provider p k) n t)
unfolding counter_key_eq provider_index metric_index base_index
apart m k p n t h = grind arith

denial-Balanced :
    (p : CostProvider) (n : ℕ) (t : Tally)
    → Balanced t
    → Balanced (bump (base provider_local_denials_total) n (bump (provider p local_denials) n t))
unfolding counter_key_eq provider_index metric_index base_index
denial-Balanced p n t h = record {
  outcomes = h.outcomes;
  by_attempts = h.by_attempts ∙ apart attempts local_denials p n t refl;
  by_successes = h.by_successes ∙ apart successes local_denials p n t refl;
  by_failures = h.by_failures ∙ apart failures local_denials p n t refl;
  by_unknowns = h.by_unknowns ∙ apart outcome_unknown local_denials p n t refl;
  by_denials = denial_total p n t h.by_denials;
  by_costs = h.by_costs ∙ apart estimated_cost local_denials p n t refl;
  by_unpriced = h.by_unpriced ∙ apart pricing_unknown_units local_denials p n t refl;
}

denials-Balanced :
    (ds : List (CostOperation × ℕ)) (t : Tally) → Balanced t → Balanced (add_denials ds t)
unfolding add_denials
denials-Balanced [] t h = h
denials-Balanced ((op, n) ∷ rest) t h =
    denials-Balanced rest _ (denial-Balanced (operation_provider op) n t h)

claims-Balanced :
    (p : PricingCatalog) (cs : List CostClaim) (t : Tally)
    → Balanced t
    → Balanced (add_claims p cs t)
unfolding add_claims add_claim
claims-Balanced p [] t h = h
claims-Balanced p (c ∷ cs) t h =
    claims-Balanced p cs _ (tokens-Balanced c _ (attempt-Balanced c.provider c.outcome _ _ _ _ t h))

first-Balanced : (wall_ms : ℕ) (s : CostLedgerState) → Balanced (first_counters wall_ms s)
unfolding first_counters
first-Balanced wall_ms s = record {
  outcomes = refl;
  by_attempts = refl;
  by_successes = refl;
  by_failures = refl;
  by_unknowns = refl;
  by_denials = refl;
  by_costs = refl;
  by_unpriced = refl;
}

-- In the counters of every ledger, the attempts in total are the successes, the failures and the
-- unknown outcomes, and the totals of attempts, successes, failures, unknown outcomes, local
-- denials, estimated cost and unpriced units are the sums of those of the eight providers.
pub tally-Balanced : (wall_ms : ℕ) (s : CostLedgerState) → Balanced (tally wall_ms s)
unfolding tally
tally-Balanced wall_ms s =
    claims-Balanced s.pricing s.claims _
      (denials-Balanced s.local_denials _ (first-Balanced wall_ms s))

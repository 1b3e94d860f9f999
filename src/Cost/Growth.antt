-- ===== src/Cost/Growth.antt =====
-- How a ledger may change: what every mutation of app/jobs_v22/cost_ledger.py keeps.
use search_trust_rd.Prelude.{
  ℕ, ◌+◌, ◌≤◌, ◌≡◌, refl, ap, ◌∙◌, true, List, [], ◌∷◌, ◌++◌, arith, if◌then◌else◌,
}
use search_trust_rd.Cost.Claims.{CostOperation, operation_eq, operation_limit, CostClaim, completed}
use search_trust_rd.Cost.Book.{CostLedgerState, used}

-- A claim stays the claim it was, and once completed it is final.
pub record ClaimKept (c d : CostClaim) : Type 0 where
  pub same_id : d.claim_id ≡ c.claim_id
  pub same_operation : d.operation ≡ c.operation
  pub same_provider : d.provider ≡ c.provider
  pub same_time : d.claimed_at ≡ c.claimed_at
  pub final : completed c ≡ true → d ≡ c

-- The old claims are the first of the new ones, in their order.
abbrev pub ClaimsKept : List CostClaim → List CostClaim → Type 0
ClaimsKept [] ds = Unit
ClaimsKept (c ∷ cs) [] = ⊥
ClaimsKept (c ∷ cs) (d ∷ ds) = ClaimKept c d × ClaimsKept cs ds

abbrev pub WithinLimits : CostLedgerState → Type 0
WithinLimits s = (op : CostOperation) → used op s.claims ≤ operation_limit op

pub record Grows (s t : CostLedgerState) : Type 0 where
  pub same_job : t.job_id ≡ s.job_id
  pub same_pricing : t.pricing ≡ s.pricing
  pub same_start : t.created_at ≡ s.created_at
  pub revisions : s.revision ≤ t.revision
  pub hits : s.checkpoint_hits ≤ t.checkpoint_hits
  pub attempts : s.job_attempts ≤ t.job_attempts
  pub kept : ClaimsKept s.claims t.claims
  pub bounded : WithinLimits s → WithinLimits t

pub kept_refl : (c : CostClaim) → ClaimKept c c
kept_refl c = record {
  same_id = refl;
  same_operation = refl;
  same_provider = refl;
  same_time = refl;
  final = λ h. refl;
}

pub claims_refl : (cs : List CostClaim) → ClaimsKept cs cs
claims_refl [] = tt
claims_refl (c ∷ cs) = (kept_refl c, claims_refl cs)

kept_trans : (b c d : CostClaim) → ClaimKept b c → ClaimKept c d → ClaimKept b d
kept_trans b c d h k = record {
  same_id = k.same_id ∙ h.same_id;
  same_operation = k.same_operation ∙ h.same_operation;
  same_provider = k.same_provider ∙ h.same_provider;
  same_time = k.same_time ∙ h.same_time;
  final = λ done. k.final (ap completed (h.final done) ∙ done) ∙ h.final done;
}

claims_trans : (bs cs ds : List CostClaim) → ClaimsKept bs cs → ClaimsKept cs ds → ClaimsKept bs ds
claims_trans [] cs ds h k = tt
claims_trans (b ∷ bs) [] ds h k = absurd h
claims_trans (b ∷ bs) (c ∷ cs) [] h k = absurd k
claims_trans (b ∷ bs) (c ∷ cs) (d ∷ ds) h k =
    (kept_trans b c d h.0 k.0, claims_trans bs cs ds h.1 k.1)

pub Grows-refl : (s : CostLedgerState) → Grows s s
Grows-refl s = record {
  same_job = refl;
  same_pricing = refl;
  same_start = refl;
  revisions = omega arith;
  hits = omega arith;
  attempts = omega arith;
  kept = claims_refl s.claims;
  bounded = λ h. h;
}

trans_le : (a b c : ℕ) → a ≤ b → b ≤ c → a ≤ c
trans_le a b c h k = omega arith

pub Grows-trans : (r s t : CostLedgerState) → Grows r s → Grows s t → Grows r t
Grows-trans r s t h k = record {
  same_job = k.same_job ∙ h.same_job;
  same_pricing = k.same_pricing ∙ h.same_pricing;
  same_start = k.same_start ∙ h.same_start;
  revisions = trans_le r.revision _ _ h.revisions k.revisions;
  hits = trans_le r.checkpoint_hits _ _ h.hits k.hits;
  attempts = trans_le r.job_attempts _ _ h.attempts k.attempts;
  kept = claims_trans r.claims s.claims t.claims h.kept k.kept;
  bounded = λ w. k.bounded (h.bounded w);
}

-- A new claim at the end.
pub appended : (cs ds : List CostClaim) → ClaimsKept cs (cs ++ ds)
appended [] ds = tt
appended (c ∷ cs) ds = (kept_refl c, appended cs ds)

pub used-append :
    (op : CostOperation) (cs : List CostClaim) (d : CostClaim)
    → used op (cs ++ d ∷ []) ≡ used op cs + (if operation_eq d.operation op then 1 else 0)
unfolding used
used-append op [] d = omega arith
used-append op (c ∷ cs) d = let e = used-append op cs d in omega arith

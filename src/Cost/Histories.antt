-- ===== src/Cost/Histories.antt =====
-- Calls of a JobCostLedger (app/jobs_v22/cost_ledger.py), one after another, and what they leave
-- under the ledger's key, which only a lapse would remove.
use search_trust_rd.Prelude.{
  ℕ, ◌≤◌, ◌≡◌, refl, sym, ◌∙◌, subst, Bool, true, false, Bool-cases, inl, inr, Option, none, some,
  List, [], ◌∷◌, ◌==◌, ==_refl, leb, ◌&&◌, arith, if◌then◌else◌,
}
use search_trust_rd.Model.{Result, ok, err, value_error}
use search_trust_rd.Redis.{Redis, cost_ledger, set, run_all, get-run_all}
use search_trust_rd.Transaction.{settle, attempt}
use search_trust_rd.Cost.Claims.{CostOperation, CostAttemptPhase, CostClaim, operation_limit}
use search_trust_rd.Cost.Book.{CostLedgerState, valid_ledger, new_state, used, claim_mutation}
use search_trust_rd.Cost.Ledger.{
  Completion, LedgerConfig, LedgerValue, ledger_json, other, decode, written, mutation_plan,
  mutation_body, mutate, ensure, claim, complete, record_checkpoint_hit, record_job_attempt,
  granted, complete_mutation, hit_mutation, attempt_mutation,
}
use search_trust_rd.Cost.Growth.{Grows, Grows-refl, Grows-trans, WithinLimits}
use search_trust_rd.Cost.Mutations.{
  ResultGrows, claim-ResultGrows, complete-ResultGrows, hit-ResultGrows, attempt-ResultGrows,
}

-- Each with the time that the clock shows.
pub data LedgerCall : Type 0 where
  ensures : ℕ → LedgerCall
  claims : ℕ → CostOperation → ℕ → LedgerCall
  completes : ℕ → Completion → ℕ → LedgerCall
  counts_hits : ℕ → ℕ → LedgerCall
  counts_attempt : ℕ → CostAttemptPhase → ℕ → LedgerCall

-- The predicate of the ledger under a key, or `absent` where there is none.
abbrev Holds : Type 0 → (CostLedgerState → Type 0) → Option LedgerValue → Type 0
Holds absent P none = absent
Holds absent P (some other) = absent
Holds absent P (some (ledger_json s)) = P s

module _ (c : LedgerConfig) (R : Redis LedgerValue) where
  open R use {Db, get}

  unfoldable pub perform : LedgerCall → Db → Db
  perform (ensures now) db = (ensure c R now [] db).1
  perform (claims id op now) db = (claim c R id op now [] db).1
  perform (completes id a now) db = (complete c R id a now [] db).1
  perform (counts_hits count now) db = (record_checkpoint_hit c R count now [] db).1
  perform (counts_attempt ms phase now) db = (record_job_attempt c R ms phase now [] db).1

  unfoldable pub history : List LedgerCall → Db → Db
  unfolding perform
  history [] db = db
  history (call ∷ calls) db = history calls (perform call db)

module _ (c : LedgerConfig) (R : Redis LedgerValue) (absent : Type 0) (P : CostLedgerState → Type 0)
    (up : (s t : CostLedgerState) → Grows s t → P s → P t)
    (fresh : absent → (now : ℕ) → P (new_state c.job_id c.pricing c.job_created_at now)) where
  open R use {Db, get}

  stored :
      (t : CostLedgerState) (db : Db)
      → get
          (run_all R db (set (cost_ledger c.job_id) (ledger_json t) c.ttl_seconds ∷ []))
          (cost_ledger c.job_id)
        ≡ some (ledger_json t)
  stored t db = get-run_all R db _ (cost_ledger c.job_id) ∙ rw (==_refl c.job_id) refl

  written-Holds :
      {A : Type 0} (r : Result (CostLedgerState × A)) (s : CostLedgerState) (db : Db)
      → P s
      → ResultGrows s r
      → Holds absent P (get db (cost_ledger c.job_id))
      → Holds absent P (get (settle R (written c r) db).1 (cost_ledger c.job_id))
  unfolding written settle
  written-Holds (err e) s db p g h = h
  written-Holds (ok (t, a)) s db p g h = elim (Bool-cases (valid_ledger t)) [
    | inl good ↦ rw good (subst (Holds absent P) (sym (stored t db)) (up s t g p))
    | inr bad ↦ rw bad h
  ]

  planned-Holds :
      {A : Type 0} (m : CostLedgerState → ℕ → Result (CostLedgerState × A)) (now : ℕ)
      → ((s : CostLedgerState) → ResultGrows s (m s now))
      → (raw : Option LedgerValue) (db : Db) → get db (cost_ledger c.job_id) ≡ raw
      → Holds absent P raw
      → Holds absent P
          (get (settle R (mutation_plan c m now (decode c raw now)) db).1 (cost_ledger c.job_id))
  unfolding mutation_plan decode settle
  planned-Holds m now grows (some other) db e h = subst (Holds absent P) (sym e) h
  planned-Holds m now grows none db e h =
      let same = subst (Holds absent P) (sym e) h in
      elim (Bool-cases c.require_existing) [
        | inl needed ↦ rw needed same
        | inr free ↦ rw free (
            written-Holds (m (new_state c.job_id c.pricing c.job_created_at now) now) _ db
              (fresh h now) (grows _) same)
      ]
  planned-Holds m now grows (some (ledger_json s)) db e h =
      let same = subst (Holds absent P) (sym e) h in
      elim (Bool-cases (valid_ledger s)) [
        | inr bad ↦ rw bad same
        | inl good ↦ elim (Bool-cases (s.job_id == c.job_id)) [
          | inr foreign ↦ rw (good, foreign) same
          | inl own ↦ rw (good, own) (written-Holds (m s now) s db h (grows s) same)
        ]
      ]

  mutate-Holds :
      {A : Type 0} (m : CostLedgerState → ℕ → Result (CostLedgerState × A)) (now : ℕ) (db : Db)
      → ((s : CostLedgerState) → ResultGrows s (m s now))
      → Holds absent P (get db (cost_ledger c.job_id))
      → Holds absent P (get (mutate c R m now [] db).1 (cost_ledger c.job_id))
  unfolding mutate attempt mutation_body
  mutate-Holds m now db grows h = planned-Holds m now grows _ db refl h

  checked-Holds :
      (b : Bool) (kept changed : Result {0} Unit × Db)
      → Holds absent P (get kept.1 (cost_ledger c.job_id))
      → Holds absent P (get changed.1 (cost_ledger c.job_id))
      → Holds absent P (get (if b then changed else kept).1 (cost_ledger c.job_id))
  checked-Holds true kept changed h k = k
  checked-Holds false kept changed h k = h

  granted_db : (r : Result (Option CostClaim) × Db) → (granted r).1 ≡ r.1
  granted_db (err e, db) = refl
  granted_db (ok none, db) = refl
  granted_db (ok (some claim), db) = refl

  perform-Holds :
      (call : LedgerCall) (db : Db)
      → Holds absent P (get db (cost_ledger c.job_id))
      → Holds absent P (get (perform c R call db) (cost_ledger c.job_id))
  unfolding perform ensure claim complete record_checkpoint_hit record_job_attempt
  perform-Holds (ensures now) db h = mutate-Holds (λ s at. ok (s, s)) now db Grows-refl h
  perform-Holds (claims id op now) db h =
      rw (granted_db (mutate c R (claim_mutation id op) now [] db))
        (mutate-Holds (claim_mutation id op) now db (λ s. claim-ResultGrows id op s now) h)
  perform-Holds (completes id a now) db h =
      mutate-Holds (complete_mutation id a) now db (λ s. complete-ResultGrows id a s now) h
  perform-Holds (counts_hits count now) db h =
      checked-Holds (leb 1 count && leb count 10_000) (err value_error, db) _ h
        (mutate-Holds (hit_mutation count) now db (λ s. hit-ResultGrows count s now) h)
  perform-Holds (counts_attempt ms phase now) db h =
      checked-Holds (leb ms 86_400_000) (err value_error, db) _ h
        (mutate-Holds (attempt_mutation ms phase) now db (λ s. attempt-ResultGrows ms phase s now)
          h)

  history-Holds :
      (calls : List LedgerCall) (db : Db)
      → Holds absent P (get db (cost_ledger c.job_id))
      → Holds absent P (get (history c R calls db) (cost_ledger c.job_id))
  unfolding history
  history-Holds [] db h = h
  history-Holds (call ∷ calls) db h =
      history-Holds calls (perform c R call db) (perform-Holds call db h)

module _ (c : LedgerConfig) (R : Redis LedgerValue) where
  open R use {Db, get}

  abbrev the_ledger :
      (P : CostLedgerState → Type 0) (v : Option LedgerValue)
      → Holds ⊥ P v
      → (t : CostLedgerState) × ((v ≡ some (ledger_json t)) × P t)
  the_ledger P none h = absurd h
  the_ledger P (some other) h = absurd h
  the_ledger P (some (ledger_json t)) h = (t, (refl, h))

  -- From a ledger under the key, every history of calls leaves a ledger that has grown from it: the
  -- same job, prices and start, no smaller revision, hit count or attempt count, all of its claims
  -- at their places with the completed ones untouched, and within the limits if it was.
  pub history-Grows :
      (calls : List LedgerCall) (db : Db) (s : CostLedgerState)
      → get db (cost_ledger c.job_id) ≡ some (ledger_json s)
      → (t : CostLedgerState) × ((get (history c R calls db) (cost_ledger c.job_id)
            ≡ some (ledger_json t))
          × Grows s t)
  history-Grows calls db s e =
      the_ledger (Grows s) (get (history c R calls db) (cost_ledger c.job_id)) (
        history-Holds c R ⊥ (Grows s) (λ t u g p. Grows-trans s t u p g) (λ no now. absurd no) calls
          db (subst (Holds ⊥ (Grows s)) (sym e) (Grows-refl s)))

  -- From an absent ledger, after every history of calls, the ledger under the key, if any, has no
  -- more claims of an operation than the operation's limit.
  pub history-WithinLimits :
      (calls : List LedgerCall) (db : Db) (t : CostLedgerState)
      → get db (cost_ledger c.job_id) ≡ none
      → get (history c R calls db) (cost_ledger c.job_id) ≡ some (ledger_json t)
      → (op : CostOperation) → used op t.claims ≤ operation_limit op
  unfolding new_state used
  history-WithinLimits calls db t e f = subst (Holds Unit WithinLimits) f (
      history-Holds c R Unit WithinLimits (λ s u g w. g.bounded w) (λ fine now op. omega arith)
        calls db (subst (Holds Unit WithinLimits) (sym e) tt))

-- ===== src/Store/Evolved/Fencing.antt =====
-- A worker whose generation has been superseded.
use search_trust_rd.Prelude.{ℕ, ◌<◌, ◌≡◌, true, some, List, [], all, arith}
use search_trust_rd.Model.{JobState, is_valid, err, job_lease_lost}
use search_trust_rd.Redis.{Redis, state}
use search_trust_rd.Transaction.{stop, settle, attempt}
use search_trust_rd.Store.Base.{JobValue, state_json, Hashes, StoreConfig, with_state, announce}
use search_trust_rd.Store.Transition.{Update, transition_plan, transition_body, transition}
use search_trust_rd.Store.History.{Call, history}
use search_trust_rd.Store.Tracked.Histories.{IsConsistent}
use search_trust_rd.Store.Evolved.Histories.{spares_key, history-Evolves}

module _ (R : Redis JobValue) (H : Hashes) (c : StoreConfig) where
  open R use {Db, get, zscore}

  superseded_plan :
      (j g : ℕ) (u : Update) (s : JobState)
      → g < s.run_generation
      → u.expected_generation ≡ some g
      → transition_plan c j u s ≡ stop (err job_lease_lost)
  unfolding transition_plan
  superseded_plan j g u s older expects = rw expects (ground arith)

  superseded_body :
      (j g : ℕ) (u : Update) (db : Db) (s : JobState)
      → is_valid s ≡ true
      → get db (state j) ≡ some (state_json s)
      → g < s.run_generation
      → u.expected_generation ≡ some g
      → transition_body R c j u db ≡ stop (err job_lease_lost)
  unfolding transition_body with_state
  superseded_body j g u db s valid held older expects =
      rw held (rw valid (superseded_plan j g u s older expects))

  -- A worker of an older generation is refused: on a consistent database with the job's snapshot,
  -- and after any calls, as long as the job's state key does not lapse, a transition that expects
  -- that generation fails with JobLeaseLost and writes nothing.
  pub superseded_worker_refused :
      (j g : ℕ) (u : Update) (calls : List Call) (db : Db) (s : JobState)
      → IsConsistent R H c j db
      → get db (state j) ≡ some (state_json s)
      → g < s.run_generation
      → all (spares_key j) calls ≡ true
      → u.expected_generation ≡ some g
      → transition R c j u [] (history R H c calls db)
        ≡ (err job_lease_lost, history R H c calls db)
  unfolding transition attempt settle announce
  superseded_worker_refused j g u calls db s t held older h expects =
      let later = history-Evolves R H c j calls db s t held h in
      rw (
        superseded_body j g u (history R H c calls db) later.last later.valid later.held
          (omega (arith, later.evolved.generation_grows)) expects)

-- ===== src/Store/Discards.antt =====
-- Discarding an entry of an index leaves every document as it was.
use search_trust_rd.Prelude.{
  ℕ, ◌≡◌, refl, Bool-cases, inl, inr, Option, none, some, [], ◌∷◌, Number, whole, zero, suc,
  negative, fractional, infinite, minus_infinite,
}
use search_trust_rd.Redis.{Key, Member, Redis, request, recovery_pending, job, zrem, get-run_all}
use search_trust_rd.Transaction.{attempt, settle}
use search_trust_rd.Store.Base.{JobValue, get_request}
use search_trust_rd.Store.Indexes.{
  discard_index_member, discard_member_body, discard_member_plan, still_scored, read_pending,
  pending_recovery_generation,
}

module _ (R : Redis JobValue) where
  open R use {Db, get, zscore}

  pub discard-get :
      (index : Key) (m : Member) (expected : Number) (db : Db) (k : Key)
      → get (discard_index_member R index m expected [] db).1 k ≡ get db k
  unfolding discard_index_member attempt settle discard_member_body discard_member_plan
  discard-get index m expected db k =
      elim (Bool-cases (still_scored expected (zscore db index m))) [
        | inl e ↦ rw e (get-run_all R db (zrem index m ∷ []) k)
        | inr e ↦ rw e refl
      ]

  read_pending-get :
      (id : ℕ) (score : Option Number) (db : Db) (k : Key)
      → get (read_pending R id [] score db).1 k ≡ get db k
  read_pending-get id none db k = refl
  read_pending-get id (some (whole (suc g))) db k = refl
  read_pending-get id (some (whole zero)) db k = discard-get recovery_pending (job id) _ db k
  read_pending-get id (some (fractional n j)) db k = discard-get recovery_pending (job id) _ db k
  read_pending-get id (some (negative j)) db k = discard-get recovery_pending (job id) _ db k
  read_pending-get id (some infinite) db k = discard-get recovery_pending (job id) _ db k
  read_pending-get id (some minus_infinite) db k = discard-get recovery_pending (job id) _ db k

  pub pending-get :
      (id : ℕ) (db : Db) (k : Key) → get (pending_recovery_generation R id [] db).1 k ≡ get db k
  unfolding pending_recovery_generation
  pending-get id db k = read_pending-get id (zscore db recovery_pending (job id)) db k

  pub get_request-same :
      (id : ℕ) (a b : Db)
      → get a (request id) ≡ get b (request id)
      → get_request R id a ≡ get_request R id b
  unfolding get_request
  get_request-same id a b e = rw (get_request, e) refl

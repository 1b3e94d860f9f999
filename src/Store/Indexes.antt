-- ===== src/Store/Indexes.antt =====
-- The work indexes: their listings, which discard what is malformed, and the removal of entries
-- whose job is gone.
use search_trust_rd.Prelude.{
  ℕ, suc, Bool, true, false, Option, none, some, List, [], ◌∷◌, Number, whole, number_eq, is_some,
  min, if◌then◌else◌, ◌==◌,
}
use search_trust_rd.Model.{Result, ok}
use search_trust_rd.Redis.{
  Key, Member, Redis, job, state, lease, active, sync_pending, recovery_pending, zrem, delete,
}
use search_trust_rd.Transaction.{Round, stop, commit, attempt}
use search_trust_rd.Store.Base.{JobValue, JobCommand, JobPlan}

-- `_canonical_job_id`
abbrev pub canonical_job_id : Member → Option ℕ
canonical_job_id (job id) = some id
canonical_job_id _ = none

-- the score is there and is the one observed
abbrev pub still_scored : Number → Option Number → Bool
still_scored expected none = false
still_scored expected (some current) = number_eq current expected

unfoldable pub discard_member_plan : Key → Member → Number → Option Number → JobPlan Bool
discard_member_plan index member expected current =
    if still_scored expected current then commit (zrem index member ∷ []) true else stop (ok false)

abbrev pub missing_commands : ℕ → List JobCommand
missing_commands id =
    zrem active (job id)
    ∷ zrem sync_pending (job id)
    ∷ zrem recovery_pending (job id)
    ∷ delete (lease id)
    ∷ []

unfoldable pub discard_missing_plan : ℕ → Option JobValue → JobPlan Bool
discard_missing_plan id held =
    if is_some held then stop (ok false) else commit (missing_commands id) true

abbrev pub orphan_commands : ℕ → List JobCommand
orphan_commands id =
    zrem recovery_pending (job id)
    ∷ zrem active (job id)
    ∷ zrem sync_pending (job id)
    ∷ delete (lease id)
    ∷ []

unfoldable pub discard_orphan_plan : ℕ → ℕ → Option JobValue → Option Number → JobPlan Bool
discard_orphan_plan id generation held pending =
    if is_some held
    then stop (ok false)
    else if still_scored (whole generation) pending
    then commit (orphan_commands id) true
    else stop (ok false)

-- a recovery score is a whole generation from 1 on
abbrev pub generation_of : Number → Option ℕ
generation_of (whole (suc g)) = some (suc g)
generation_of _ = none

abbrev pub recovery_of : Member → Number → Option (ℕ × ℕ)
recovery_of (job id) (whole (suc g)) = some (id, suc g)
recovery_of _ _ = none

abbrev pub bounded : ℕ → ℕ
bounded limit = min limit 100

abbrev keep : {A : Type 0} → Option A → List A → List A
keep none rest = rest
keep (some a) rest = a ∷ rest

module _ (R : Redis JobValue) where
  open R use {Db, get, zscore, zcard, zrange, zrange_by_score}

  unfoldable pub discard_member_body : Key → Member → Number → Db → JobPlan Bool
  unfolding discard_member_plan
  discard_member_body index member expected db =
      discard_member_plan index member expected (zscore db index member)

  -- `_discard_index_member`
  unfoldable pub discard_index_member :
      Key → Member → Number → List (Round R) → Db → Result Bool × Db
  unfolding discard_member_body
  discard_index_member index member expected rounds db =
      attempt R (index ∷ []) (discard_member_body index member expected) rounds db

  -- `discard_pending_recovery`
  unfoldable pub discard_pending_recovery :
      (id generation : ℕ) → List (Round R) → Db → Result Bool × Db
  unfolding discard_index_member
  discard_pending_recovery id generation rounds db =
      discard_index_member recovery_pending (job id) (whole generation) rounds db

  unfoldable pub discard_missing_body : ℕ → Db → JobPlan Bool
  unfolding discard_missing_plan
  discard_missing_body id db = discard_missing_plan id (get db (state id))

  unfoldable pub discard_missing_job_indexes : ℕ → List (Round R) → Db → Result Bool × Db
  unfolding discard_missing_body
  discard_missing_job_indexes id rounds db =
      attempt R (state id ∷ active ∷ sync_pending ∷ recovery_pending ∷ []) (discard_missing_body id)
        rounds db

  unfoldable pub discard_orphan_body : (id generation : ℕ) → Db → JobPlan Bool
  unfolding discard_orphan_plan
  discard_orphan_body id generation db =
      discard_orphan_plan id generation (get db (state id)) (zscore db recovery_pending (job id))

  unfoldable pub discard_missing_job_recovery :
      (id generation : ℕ) → List (Round R) → Db → Result Bool × Db
  unfolding discard_orphan_body
  discard_missing_job_recovery id generation rounds db =
      attempt R (state id ∷ recovery_pending ∷ []) (discard_orphan_body id generation) rounds db

  -- The loop over a listing: an entry is read, or discarded while others may write (`rounds`).
  unfoldable pub sweep :
      {A : Type 0}
      → Key
      → (Member → Number → Option A)
      → (Member → List (Round R))
      → List (Member × Number)
      → Db
      → List A × Db
  unfolding discard_index_member
  sweep index read rounds [] db = ([], db)
  sweep index read rounds ((m, s) ∷ rest) db =
      let found = read m s in
      let db' = if is_some found then db else (discard_index_member index m s (rounds m) db).1 in
      let (jobs, last) = sweep index read rounds rest db' in (keep found jobs, last)

  unfoldable pub list_stale_jobs : (cutoff limit : ℕ) → (Member → List (Round R)) → Db → List ℕ × Db
  unfolding sweep
  list_stale_jobs cutoff limit rounds db =
      if bounded limit == 0
      then ([], db)
      else sweep active (λ m s. canonical_job_id m) rounds
          (zrange_by_score db active cutoff (bounded limit)) db

  unfoldable pub list_pending_callbacks : (limit : ℕ) → (Member → List (Round R)) → Db → List ℕ × Db
  unfolding sweep
  list_pending_callbacks limit rounds db =
      if bounded limit == 0
      then ([], db)
      else sweep sync_pending (λ m s. canonical_job_id m) rounds
          (zrange db sync_pending (bounded limit)) db

  unfoldable pub list_pending_recoveries :
      (limit : ℕ) → (Member → List (Round R)) → Db → List (ℕ × ℕ) × Db
  unfolding sweep
  list_pending_recoveries limit rounds db =
      if bounded limit == 0
      then ([], db)
      else sweep recovery_pending recovery_of rounds (zrange db recovery_pending (bounded limit)) db

  abbrev pub read_pending : ℕ → List (Round R) → Option Number → Db → Option ℕ × Db
  read_pending id rounds none db = (none, db)
  read_pending id rounds (some (whole (suc g))) db = (some (suc g), db)
  read_pending id rounds (some score) db =
      (none, (discard_index_member recovery_pending (job id) score rounds db).1)

  unfoldable pub pending_recovery_generation : ℕ → List (Round R) → Db → Option ℕ × Db
  unfolding discard_index_member
  pending_recovery_generation id rounds db =
      read_pending id rounds (zscore db recovery_pending (job id)) db

  unfoldable pub active_count : Db → ℕ
  active_count db = zcard db active

  unfoldable pub pending_callback_count : Db → ℕ
  pending_callback_count db = zcard db sync_pending

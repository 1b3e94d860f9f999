-- ===== src/Store/Lease.antt =====
-- `acquire_lease`, `refresh_lease` and `release_lease`: one physical worker for one job.
use search_trust_rd.Prelude.{
  ℕ, String, Bool, true, false, ◌&&◌, Option, some, List, [], ◌∷◌, ◌==◌, is_none, if◌then◌else◌,
}
use search_trust_rd.Model.{Result, ok}
use search_trust_rd.Redis.{Key, Redis, lease, set, expire, delete}
use search_trust_rd.Transaction.{Round, stop, commit, attempt}
use search_trust_rd.Store.Base.{JobValue, lease_text, Hashes, JobPlan}

-- `actual == expected`, of the text `generation:digest`
abbrev pub holds_lease : ℕ → ℕ → Option JobValue → Bool
holds_lease generation digest (some (lease_text g d)) = g == generation && d == digest
holds_lease generation digest _ = false

unfoldable pub refresh_plan : ℕ → ℕ → ℕ → ℕ → Option JobValue → JobPlan Bool
refresh_plan id generation digest ttl actual =
    if holds_lease generation digest actual
    then commit (expire (lease id) ttl ∷ []) true
    else stop (ok false)

unfoldable pub release_plan : ℕ → ℕ → ℕ → Option JobValue → JobPlan Bool
release_plan id generation digest actual =
    if holds_lease generation digest actual
    then commit (delete (lease id) ∷ []) true
    else stop (ok false)

abbrev pub lease_watched : ℕ → List Key
lease_watched id = lease id ∷ []

module _ (R : Redis JobValue) (H : Hashes) (id generation : ℕ) (token : String) where
  open R use {Db, get, run}

  -- SET … NX, one command
  unfoldable pub acquire_lease : (ttl : ℕ) → Db → Bool × Db
  acquire_lease ttl db =
      if is_none (get db (lease id))
      then (true, run db (set (lease id) (lease_text generation (H.sha256 token)) ttl))
      else (false, db)

  unfoldable pub refresh_body : (ttl : ℕ) → Db → JobPlan Bool
  unfolding refresh_plan
  refresh_body ttl db = refresh_plan id generation (H.sha256 token) ttl (get db (lease id))

  unfoldable pub refresh_lease : (ttl : ℕ) → List (Round R) → Db → Result Bool × Db
  unfolding refresh_body
  refresh_lease ttl rounds db = attempt R (lease_watched id) (refresh_body ttl) rounds db

  unfoldable pub release_body : Db → JobPlan Bool
  unfolding release_plan
  release_body db = release_plan id generation (H.sha256 token) (get db (lease id))

  unfoldable pub release_lease : List (Round R) → Db → Result Bool × Db
  unfolding release_body
  release_lease rounds db = attempt R (lease_watched id) release_body rounds db

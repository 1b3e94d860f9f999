-- ===== src/Store/Base.antt =====
-- What the store keeps under its keys, and the reads that its methods share.
use search_trust_rd.Prelude.{ℕ, String, Bool, Option, none, some, if◌then◌else◌}
use search_trust_rd.Model.{JobState, is_valid, Result, ok, err, job_not_found, validation_error}
use search_trust_rd.Redis.{Command, Redis, state, request, events, publish}
use search_trust_rd.Transaction.{Plan, stop}

-- A request document: the `schema_version` text that other parts read, and all else as one number.
pub record Payload : Type 0 where
  pub schema_version : String
  pub body : ℕ

-- The document under a key, decoded.
pub data JobValue : Type 0 where
  state_json : JobState → JobValue
  request_json : Payload → JobValue
  -- job id, case id, request digest
  identity_json : ℕ → ℕ → ℕ → JobValue
  -- `generation:digest`
  lease_text : ℕ → ℕ → JobValue

-- hashlib's SHA-256 and the JSON encoder, which the source calls
pub record Hashes : Type 0 where
  pub canonical_json : Payload → String
  pub sha256 : String → ℕ

unfoldable pub request_digest : Hashes → Payload → ℕ
request_digest H payload = H.sha256 (H.canonical_json payload)

pub record StoreConfig : Type 0 where
  pub state_ttl_seconds : ℕ
  pub job_timeout_seconds : ℕ

pub record TransitionResult : Type 0 where
  pub state : JobState
  pub applied : Bool

abbrev pub JobCommand : Type 0
JobCommand = Command JobValue

abbrev pub JobPlan : Type 0 → Type 0
JobPlan A = Plan JobValue A

-- `JobState.model_validate_json`
unfoldable pub decode_state : Option JobValue → Result (Option JobState)
decode_state none = ok none
decode_state (some (state_json s)) = if is_valid s then ok (some s) else err validation_error
decode_state (some _) = err validation_error

-- `current = await self.get_state(…)`, and JobNotFound when there is none
unfoldable pub with_state :
    {A : Type 0} → Result (Option JobState) → (JobState → JobPlan A) → JobPlan A
with_state (err e) k = stop (err e)
with_state (ok none) k = stop (err job_not_found)
with_state (ok (some current)) k = k current

-- `JobState.model_validate(next_state.model_dump())`
unfoldable pub revalidated : {A : Type 0} → JobState → JobPlan A → JobPlan A
revalidated next plan = if is_valid next then plan else stop (err validation_error)

module _ (R : Redis JobValue) where
  open R use {Db, get, run}

  unfoldable pub get_state : ℕ → Db → Result (Option JobState)
  unfolding decode_state
  get_state job db = decode_state (get db (state job))

  unfoldable pub require_state : ℕ → Db → Result JobState
  unfolding get_state
  require_state job db = elim (get_state job db) [
    | err e ↦ err e
    | ok none ↦ err job_not_found
    | ok (some current) ↦ ok current
  ]

  -- A document that is no mapping counts as none.
  unfoldable pub get_request : ℕ → Db → Option Payload
  get_request job db = elim (get db (request job)) [ some (request_json p) ↦ some p | _ ↦ none ]

  -- The event that follows an applied change.
  unfoldable pub announce : ℕ → Result TransitionResult × Db → Result TransitionResult × Db
  announce job (err e, db) = (err e, db)
  announce job (ok t, db) =
      (ok t, if t.applied then run db (publish (events job) t.state.revision) else db)

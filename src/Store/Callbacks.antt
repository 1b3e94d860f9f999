-- ===== src/Store/Callbacks.antt =====
-- `mark_callback_synced`: the audit owner has received a revision.
use search_trust_rd.Prelude.{ℕ, List, [], ◌∷◌, leb, min, max, if◌then◌else◌}
use search_trust_rd.Model.{JobState, Result}
use search_trust_rd.Redis.{Key, Redis, state, sync_pending, job, set, zrem}
use search_trust_rd.Transaction.{Round, commit, attempt}
use search_trust_rd.Store.Base.{
  JobValue, state_json, StoreConfig, JobCommand, JobPlan, get_state, with_state,
}

unfoldable pub synced_revision : ℕ → JobState → ℕ
synced_revision revision current =
    min (max revision current.callback_synced_revision) current.revision

unfoldable pub mark_synced_commands : StoreConfig → ℕ → ℕ → JobState → List JobCommand
unfolding synced_revision
mark_synced_commands c id revision current =
    set (state id)
      (state_json (record current { callback_synced_revision = synced_revision revision current }))
      c.state_ttl_seconds
    ∷ (if leb current.revision (synced_revision revision current)
        then zrem sync_pending (job id) ∷ []
        else [])

-- This snapshot is written without another validation.
unfoldable pub mark_synced_plan : StoreConfig → ℕ → ℕ → JobState → JobPlan JobState
unfolding mark_synced_commands
mark_synced_plan c id revision current =
    commit (mark_synced_commands c id revision current)
      (record current { callback_synced_revision = synced_revision revision current })

abbrev pub synced_watched : ℕ → List Key
synced_watched id = state id ∷ []

module _ (R : Redis JobValue) (c : StoreConfig) (id : ℕ) where
  open R use {Db}

  unfoldable pub mark_synced_body : (revision : ℕ) → Db → JobPlan JobState
  unfolding with_state get_state mark_synced_plan
  mark_synced_body revision db = with_state (get_state R id db) (mark_synced_plan c id revision)

  unfoldable pub mark_callback_synced : (revision : ℕ) → List (Round R) → Db → Result JobState × Db
  unfolding mark_synced_body
  mark_callback_synced revision rounds db =
      attempt R (synced_watched id) (mark_synced_body revision) rounds db

-- ===== src/Store/Applied.antt =====
-- A job's snapshot as the store holds it, and what an update or a callback's receipt makes of it.
use search_trust_rd.Prelude.{
  ℕ, ◌+◌, ◌≤◌, ◌≡◌, refl, ◌∙◌, Bool, true, false, ◌&&◌, Option, some, [], ◌∷◌, ◌++◌, ==_refl, whole,
  arith, leb, ltb, if◌then◌else◌,
}
use search_trust_rd.Model.{
  JobState, is_valid, valid_fields, validate_lifecycle, valid_status, JobStatus, terminal, ok,
}
use search_trust_rd.Redis.{
  Redis, state, events, publish, request, job, sync_pending, set, expire, zadd, zrem, get-run_all,
  gets_after, run_all,
}
use search_trust_rd.Transaction.{attempt, settle}
use search_trust_rd.Store.Base.{
  JobValue, state_json, StoreConfig, get_state, decode_state, require_state, with_state, announce,
  revalidated,
}
use search_trust_rd.Store.Transition.{
  Update, superseded, allowed, transition, transition_body, transition_plan, transition_next,
  transition_commands, index_commands,
}
use search_trust_rd.Store.Callbacks.{
  mark_callback_synced, mark_synced_body, mark_synced_plan, mark_synced_commands, synced_revision,
}

module _ (R : Redis JobValue) (c : StoreConfig) (id : ℕ) where
  open R use {Db, get, run, get-run}

  -- The key of the job has its valid snapshot.
  pub record Holds (db : Db) (s : JobState) : Type 0 where
    pub stored : get db (state id) ≡ some (state_json s)
    pub valid : is_valid s ≡ true

  get_state-held : (db : Db) (s : JobState) → Holds db s → get_state R id db ≡ ok (some s)
  unfolding get_state decode_state
  get_state-held db s h = rw (h.stored, h.valid) refl

  pub require_state-held : (db : Db) (s : JobState) → Holds db s → require_state R id db ≡ ok s
  unfolding require_state
  require_state-held db s h = rw (require_state, get_state-held db s h) refl

  set_first :
      (next : JobState) (ended : Bool) (now ttl revision : ℕ) (old : Option JobValue)
      → gets_after
          (set (state id) (state_json next) ttl
            ∷ expire (request id) ttl
            ∷ (index_commands ended id now ++ zadd sync_pending (job id) (whole revision) ∷ []))
          (state id)
          old
        ≡ some (state_json next)
  set_first next true now ttl revision old = rw ==_refl refl
  set_first next false now ttl revision old = rw ==_refl refl

  commands_write :
      (now : ℕ) (next : JobState) (old : Option JobValue)
      → gets_after (transition_commands c id now next) (state id) old ≡ some (state_json next)
  unfolding transition_commands
  commands_write now next old =
      set_first next (terminal next) now c.state_ttl_seconds next.revision old

  -- An update that the job's status and generation allow is applied.
  pub transition_applies :
      (db : Db) (s : JobState) (u : Update)
      → Holds db s
      → superseded u.expected_generation s.run_generation ≡ false
      → terminal s ≡ false
      → allowed s.status u.status ≡ true
      → is_valid (transition_next u s) ≡ true
      → (after : Db) × (transition R c id u [] db
          ≡ (ok (record { state = transition_next u s; applied = true }), after))
        × Holds after (transition_next u s)
  unfolding transition attempt settle transition_body transition_plan with_state revalidated
      announce
  transition_applies db s u h fresh open_ can valid =
      rw (get_state-held db s h, fresh, open_, can, valid)
        (
          run (run_all R db (transition_commands c id u.now (transition_next u s)))
              (publish (events id) (s.revision + 1)),
          refl,
          record {
            stored =
                get-run _ (publish (events id) (s.revision + 1)) (state id)
                ∙ (get-run_all R db (transition_commands c id u.now (transition_next u s))
                      (state id)
                    ∙ commands_write u.now (transition_next u s) _);
            valid = valid;
          },
        )

  -- The snapshot with a receipt of its callback, up to its own revision.
  abbrev pub with_receipt : JobState → ℕ → JobState
  with_receipt s r = record s { callback_synced_revision = r }

  receipt_status :
      (x : JobStatus) (s : JobState) (r : ℕ) → valid_status x (with_receipt s r) ≡ valid_status x s
  unfolding valid_status
  receipt_status JobStatus.queued s r = refl
  receipt_status JobStatus.running s r = refl
  receipt_status JobStatus.succeeded s r = refl
  receipt_status JobStatus.failed s r = refl

  receipt_valid :
      (s : JobState) (r : ℕ)
      → r ≤ s.revision
      → is_valid s ≡ true
      → is_valid (with_receipt s r) ≡ true
  unfolding is_valid valid_fields validate_lifecycle
  receipt_valid s r h k =
      let below = below_true r s.revision h in
      rw (below, receipt_status s.status s r)
        (drop_receipt (valid_fields s) (leb s.created_at s.updated_at)
          (ltb s.created_at s.deadline_at) (leb s.callback_synced_revision s.revision)
          (valid_status s.status s) k)
    where
      below_true : (r n : ℕ) → r ≤ n → leb r n ≡ true
      below_true r n h = ground arith

      drop_receipt :
          (fields before within receipt lifecycle : Bool)
          → (fields && (before && within && receipt && lifecycle)) ≡ true
          → (fields && (before && within && true && lifecycle)) ≡ true
      drop_receipt fields before within receipt lifecycle h = ground arith

  -- A receipt is written over the snapshot.
  pub mark_synced_held :
      (db : Db) (s : JobState) (revision : ℕ)
      → Holds db s
      → (after : Db) × (t : JobState) × (mark_callback_synced R c id revision [] db ≡ (ok t, after))
        × (r : ℕ) × Holds after (with_receipt s r)
  unfolding mark_callback_synced mark_synced_body with_state attempt settle mark_synced_plan
      mark_synced_commands synced_revision
  mark_synced_held db s revision h = rw (get_state-held db s h) (
    run_all R db (mark_synced_commands c id revision s),
    with_receipt s (synced_revision revision s),
    refl,
    synced_revision revision s,
    record {
      stored =
          get-run_all R db (mark_synced_commands c id revision s) (state id)
          ∙ receipt_written (leb s.revision (synced_revision revision s))
              (with_receipt s (synced_revision revision s)) c.state_ttl_seconds _;
      valid = receipt_valid s (synced_revision revision s) (capped revision s) h.valid;
    },
  )
    where
      capped : (revision : ℕ) (s : JobState) → synced_revision revision s ≤ s.revision
      capped revision s = omega arith

      receipt_written :
          (drops : Bool) (t : JobState) (ttl : ℕ) (old : Option JobValue)
          → gets_after
              (set (state id) (state_json t) ttl
                ∷ (if drops then zrem sync_pending (job id) ∷ [] else []))
              (state id)
              old
            ≡ some (state_json t)
      receipt_written true t ttl old = rw ==_refl refl
      receipt_written false t ttl old = rw ==_refl refl

-- ===== src/Reconcile.antt =====
-- app/jobs_v22/reconciler.py, `_finish_pending_recovery`, with `CallbackSynchronizer.sync` of
-- app/jobs_v22/callbacks.py. What the callback's receiver, the queue and the coordinator answer is an
-- argument. The calls of one run come one after another, and what is sent and enqueued is kept,
-- newest first.
pub mod Barrier
pub mod Pass
pub mod Receipts
use search_trust_rd.Prelude.{
  ℕ, String, Bool, true, false, not, Option, none, some, List, [], ◌∷◌, ◌==◌, leb, codes, ◌&&◌,
  ◌||◌, if◌then◌else◌,
}
use search_trust_rd.Cost.Counters.{Counters}
use search_trust_rd.Model.{
  JobStatus, JobStage, JobState, JobError, JobErrorState, DurableReport, terminal, Result, ok, err,
  job_not_found,
}
use search_trust_rd.Redis.{Redis}
use search_trust_rd.Store.Base.{
  JobValue, Payload, StoreConfig, TransitionResult, require_state, get_request,
}
use search_trust_rd.Store.Transition.{Update, transition}
use search_trust_rd.Store.Recovery.{mark_recovery_enqueued}
use search_trust_rd.Store.Callbacks.{mark_callback_synced}
use search_trust_rd.Store.Indexes.{discard_pending_recovery, discard_missing_job_recovery}
use search_trust_rd.Capability.{
  Decision, Handled, fail_update, deadline_error, capability_terminal_transition,
}

-- `sender.send`
pub data Sending : Type 0 where
  accepted rejected send_fails : Sending

-- `queue.enqueue`
pub data Enqueueing : Type 0 where
  enqueued duplicate enqueue_fails : Enqueueing

pub data Action : Type 0 where
  sends : JobState → Action
  enqueues : ℕ → ℕ → Action

-- What the world outside answers in one run; `synchronizer` and `coordinator` may be absent.
pub record Outside : Type 0 where
  pub synchronizer : Option Sending
  pub coordinator : Option Decision
  pub queue : Enqueueing
  pub diagnostic_id : ℕ

-- What `sync` returns, or that it raises.
pub data Synced : Type 0 where
  returns : Bool → Synced
  raises : Synced

abbrev pub received : {A D : Type 0} → List Action → Result A × D → Synced × (D × List Action)
received sent (err e, db) = (raises, (db, sent))
received sent (ok a, db) = (returns true, (db, sent))

module _ (R : Redis JobValue) (c : StoreConfig) where
  open R use {Db}

  abbrev pub World : Type 0
  World = Db × List Action

  unfoldable pub delivered : Sending → JobState → World → Synced × World
  delivered rejected s (db, sent) = (returns false, (db, sends s ∷ sent))
  delivered send_fails s (db, sent) = (raises, (db, sends s ∷ sent))
  delivered accepted s (db, sent) =
      received (sends s ∷ sent) (mark_callback_synced R c s.job_id s.revision [] db)

  unfoldable pub sync_state : Sending → Result JobState → World → Synced × World
  unfolding delivered
  sync_state sending (err e) w = (raises, w)
  sync_state sending (ok s) w =
      if leb s.revision s.callback_synced_revision then (returns true, w) else delivered sending s w

  -- `CallbackSynchronizer.sync`
  unfoldable pub sync : Sending → ℕ → World → Synced × World
  unfolding sync_state
  sync sending id (db, sent) = sync_state sending (require_state R id db) (db, sent)

  -- A callback after an update that was applied; its failure is logged.
  abbrev pub after_update : Option Sending → ℕ → Option TransitionResult → World → World
  after_update none id t w = w
  after_update (some sending) id none w = w
  after_update (some sending) id (some t) w = if t.applied then (sync sending id w).1 else w

  unfoldable pub failed_by :
      Option Sending → ℕ → List Action → Result TransitionResult × Db → Result {0} Unit × World
  failed_by synchronizer id sent (err e, db) = (err e, (db, sent))
  failed_by synchronizer id sent (ok t, db) =
      (ok tt, after_update synchronizer id (some t) (db, sent))

  -- The deadline has passed: the coordinator decides, or the job fails.
  unfoldable pub expired :
      Outside
      → ℕ
      → JobState
      → (now : ℕ) → List Action
      → Result Handled × Db
      → Result {0} Unit × World
  unfolding failed_by
  expired o id s now sent (err e, db) = (err e, (db, sent))
  expired o id s now sent (ok (true, t), db) = (ok tt, after_update o.synchronizer id t (db, sent))
  expired o id s now sent (ok (false, t), db) =
      failed_by o.synchronizer id sent
        (transition R c id (fail_update s (deadline_error o.diagnostic_id) now none) [] db)

  abbrev marked : List Action → Result Bool × Db → Result {0} Unit × World
  marked sent (err e, db) = (err e, (db, sent))
  marked sent (ok b, db) = (ok tt, (db, sent))

  unfoldable pub enqueue : Enqueueing → (id generation now : ℕ) → World → Result {0} Unit × World
  enqueue enqueue_fails id generation now w = (ok tt, w)
  enqueue enqueued id generation now (db, sent) =
      marked (enqueues id generation ∷ sent) (mark_recovery_enqueued R c id generation now [] db)
  enqueue duplicate id generation now (db, sent) =
      marked (enqueues id generation ∷ sent) (mark_recovery_enqueued R c id generation now [] db)

  abbrev enqueue_after :
      Enqueueing → (id generation now : ℕ) → Synced × World → Result {0} Unit × World
  enqueue_after q id generation now (raises, w) = (ok tt, w)
  enqueue_after q id generation now (returns false, w) = (ok tt, w)
  enqueue_after q id generation now (returns true, w) = enqueue q id generation now w

  unfoldable pub hand_on :
      Option Sending
      → Outside
      → JobState
      → (id generation now : ℕ) → World
      → Result {0} Unit × World
  unfolding enqueue
  hand_on none o s id generation now w = (ok tt, w)
  hand_on (some sending) o s id generation now w =
      if leb s.revision s.callback_synced_revision
      then enqueue o.queue id generation now w
      else enqueue_after o.queue id generation now (sync sending id w)

  unfoldable pub finish_state :
      Outside → (id generation now : ℕ) → Result JobState → World → Result {0} Unit × World
  unfolding hand_on expired
  finish_state o id generation now (err job_not_found) (db, sent) =
      (ok tt, ((discard_missing_job_recovery R id generation [] db).1, sent))
  finish_state o id generation now (err e) (db, sent) = (err e, (db, sent))
  finish_state o id generation now (ok s) (db, sent) =
      if not (s.run_generation == generation) || terminal s
      then (ok tt, ((discard_pending_recovery R id generation [] db).1, sent))
      else if leb s.deadline_at now
      then expired o id s now sent (
          capability_terminal_transition R c o.coordinator s (deadline_error o.diagnostic_id) now
            none db)
      else hand_on o.synchronizer o s id generation now (db, sent)

  -- `_finish_pending_recovery`
  unfoldable pub finish_pending_recovery :
      Outside → (id generation now : ℕ) → World → Result {0} Unit × World
  unfolding finish_state
  finish_pending_recovery o id generation now (db, sent) =
      finish_state o id generation now (require_state R id db) (db, sent)

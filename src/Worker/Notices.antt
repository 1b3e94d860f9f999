-- ===== src/Worker/Notices.antt =====
-- What a worker's notice does to the snapshot.
use search_trust_rd.Prelude.{ℕ, ◌≡◌, Option, none, some, List}
use search_trust_rd.Model.{JobState}
use search_trust_rd.Redis.{Redis}
use search_trust_rd.Store.Base.{JobValue, StoreConfig}
use search_trust_rd.Store.Applied.{Holds}
use search_trust_rd.Reconcile.{Sending, Action}
use search_trust_rd.Reconcile.Receipts.{HoldsUpTo, sync-HoldsUpTo}
use search_trust_rd.Worker.{notify_state}

module _ (R : Redis JobValue) (c : StoreConfig) (id : ℕ) where
  open R use {Db}

  pub notify-HoldsUpTo :
      (synchronizer : Option Sending) (s : JobState) (db : Db) (sent : List Action)
      → s.job_id ≡ id
      → Holds R c id db s
      → HoldsUpTo R c id s (notify_state R c synchronizer id (db, sent)).0
  unfolding notify_state
  notify-HoldsUpTo none s db sent own h = (s.callback_synced_revision, h)
  notify-HoldsUpTo (some sending) s db sent own h = sync-HoldsUpTo R c id sending s db sent own h

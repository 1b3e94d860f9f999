-- ===== src/Reconcile/Receipts.antt =====
-- A callback changes a job's snapshot only by its receipt (`CallbackSynchronizer.sync`).
use search_trust_rd.Prelude.{
  Bool, true, false, ℕ, ◌≡◌, sym, subst, Bool-cases, inl, inr, Option, none, some, List, [], ◌∷◌,
  leb, if◌then◌else◌,
}
use search_trust_rd.Model.{JobState}
use search_trust_rd.Redis.{Redis}
use search_trust_rd.Store.Base.{JobValue, StoreConfig, TransitionResult}
use search_trust_rd.Store.Callbacks.{mark_callback_synced}
use search_trust_rd.Store.Applied.{Holds, require_state-held, with_receipt, mark_synced_held}
use search_trust_rd.Reconcile.{
  Sending, accepted, rejected, send_fails, Action, sends, received, after_update, delivered,
  sync_state, sync,
}

module _ (R : Redis JobValue) (c : StoreConfig) (id : ℕ) where
  open R use {Db}

  -- Held, up to the receipt of a callback.
  abbrev pub HoldsUpTo : JobState → Db → Type 0
  HoldsUpTo s db = (r : ℕ) × Holds R c id db (with_receipt R c id s r)

  delivered-HoldsUpTo :
      (sending : Sending) (s : JobState) (db : Db) (sent : List Action)
      → s.job_id ≡ id
      → Holds R c id db s
      → HoldsUpTo s (delivered R c sending s (db, sent)).1.0
  unfolding delivered
  delivered-HoldsUpTo rejected s db sent own h = (s.callback_synced_revision, h)
  delivered-HoldsUpTo send_fails s db sent own h = (s.callback_synced_revision, h)
  delivered-HoldsUpTo accepted s db sent own h =
      let (after, t, e, r, held) = mark_synced_held R c id db s s.revision h in
      subst
        (λ j.
          HoldsUpTo s (received (sends s ∷ sent) (mark_callback_synced R c j s.revision [] db)).1.0)
        (sym own) (rw e (r, held))

  pub sync-HoldsUpTo :
      (sending : Sending) (s : JobState) (db : Db) (sent : List Action)
      → s.job_id ≡ id
      → Holds R c id db s
      → HoldsUpTo s (sync R c sending id (db, sent)).1.0
  unfolding sync sync_state
  sync-HoldsUpTo sending s db sent own h =
      subst (λ x. HoldsUpTo s (sync_state R c sending x (db, sent)).1.0)
        (sym (require_state-held R c id db s h))
        (elim (Bool-cases (leb s.revision s.callback_synced_revision)) [
          | inl e ↦ rw e (s.callback_synced_revision, h)
          | inr e ↦ rw e (delivered-HoldsUpTo sending s db sent own h)
        ])

  pub after_update-HoldsUpTo :
      (synchronizer : Option Sending) (s : JobState) (t : Option TransitionResult) (db : Db)
      (sent : List Action)
      → s.job_id ≡ id
      → Holds R c id db s
      → HoldsUpTo s (after_update R c synchronizer id t (db, sent)).0
  unfolding sync
  after_update-HoldsUpTo none s t db sent own h = (s.callback_synced_revision, h)
  after_update-HoldsUpTo (some sending) s none db sent own h = (s.callback_synced_revision, h)
  after_update-HoldsUpTo (some sending) s (some t) db sent own h =
      if_applied t.applied (sync-HoldsUpTo sending s db sent own h) h
    where
      if_applied :
          (b : Bool)
          → HoldsUpTo s (sync R c sending id (db, sent)).1.0
          → Holds R c id db s
          → HoldsUpTo s (if b then (sync R c sending id (db, sent)).1 else (db, sent)).0
      if_applied true told h = told
      if_applied false told h = (s.callback_synced_revision, h)

-- ===== src/Reconcile/Barrier.antt =====
-- The barrier of `_finish_pending_recovery`: a generation reaches the queue only after the owner of
-- the audit has its snapshot.
use search_trust_rd.Prelude.{
  ℕ, ◌≤◌, ◌<◌, ◌≡◌, refl, ap, ◌∙◌, Bool, true, false, not, ◌||◌, Bool-cases, ◌⊎◌, inl, inr, Option,
  none, some, List, [], ◌∷◌, ◌==◌, ==_iff, leb, arith,
}
use search_trust_rd.Model.{JobState, JobError, terminal, Result, ok, err}
use search_trust_rd.Redis.{Redis}
use search_trust_rd.Store.Base.{JobValue, StoreConfig, TransitionResult, require_state}
use search_trust_rd.Store.Callbacks.{mark_callback_synced}
use search_trust_rd.Reconcile.{
  Sending, accepted, rejected, send_fails, Enqueueing, enqueued, duplicate, enqueue_fails, Action,
  sends, enqueues, Outside, Handled, received, delivered, sync_state, sync, after_update, failed_by,
  expired, marked, enqueue, enqueue_after, hand_on, finish_state, finish_pending_recovery,
}

-- At most one callback, and nothing else.
abbrev pub Quiet : List Action → Type 0
Quiet [] = Unit
Quiet (sends s ∷ []) = Unit
Quiet _ = ⊥

module _ (R : Redis JobValue) (c : StoreConfig) (o : Outside) (id generation now : ℕ) where
  open R use {Db}

  -- What stands when a generation is enqueued, after the actions `before`: the job is in that
  -- generation, not ended and within its deadline, and its last revision has been delivered, before
  -- or by the one callback of this run, which the receiver has accepted.
  abbrev pub Barrier : Db → List Action → Type 0
  Barrier db before =
      (s : JobState) × ((require_state R id db ≡ ok s)
        × (s.run_generation ≡ generation)
        × (terminal s ≡ false)
        × (now < s.deadline_at)
        × (((before ≡ []) × (s.revision ≤ s.callback_synced_revision))
            ⊎ ((before ≡ sends s ∷ []) × (o.synchronizer ≡ some accepted))))

  abbrev pub Ordered : Db → List Action → Type 0
  Ordered db [] = Unit
  Ordered db (sends s ∷ before) = before ≡ []
  Ordered db (enqueues a g ∷ before) = (a ≡ id) × (g ≡ generation) × Barrier db before

  Quiet-Ordered : (db : Db) (sent : List Action) → Quiet sent → Ordered db sent
  Quiet-Ordered db [] h = tt
  Quiet-Ordered db (sends s ∷ []) h = refl
  Quiet-Ordered db (sends s ∷ a ∷ sent) h = absurd h
  Quiet-Ordered db (enqueues a g ∷ sent) h = absurd h

  received-Quiet :
      {A : Type 0} (s : JobState) (r : Result A × Db) → Quiet (received (sends s ∷ []) r).1.1
  received-Quiet s (err e, db) = tt
  received-Quiet s (ok a, db) = tt

  delivered-Quiet :
      (sending : Sending) (s : JobState) (db : Db) → Quiet (delivered R c sending s (db, [])).1.1
  unfolding delivered
  delivered-Quiet rejected s db = tt
  delivered-Quiet send_fails s db = tt
  delivered-Quiet accepted s db =
      received-Quiet s (mark_callback_synced R c s.job_id s.revision [] db)

  sync_state-Quiet :
      (sending : Sending) (r : Result JobState) (db : Db)
      → Quiet (sync_state R c sending r (db, [])).1.1
  unfolding sync_state
  sync_state-Quiet sending (err e) db = tt
  sync_state-Quiet sending (ok s) db =
      elim (Bool-cases (leb s.revision s.callback_synced_revision)) [
        | inl e ↦ rw e tt
        | inr e ↦ rw e (delivered-Quiet sending s db)
      ]

  sync-Quiet : (sending : Sending) (db : Db) → Quiet (sync R c sending id (db, [])).1.1
  unfolding sync
  sync-Quiet sending db = sync_state-Quiet sending (require_state R id db) db

  after_update-Quiet :
      (synchronizer : Option Sending) (t : Option TransitionResult) (db : Db)
      → Quiet (after_update R c synchronizer id t (db, [])).1
  after_update-Quiet none t db = tt
  after_update-Quiet (some sending) none db = tt
  after_update-Quiet (some sending) (some t) db = elim (Bool-cases t.applied) [
    | inl e ↦ rw e (sync-Quiet sending db)
    | inr e ↦ rw e tt
  ]

  failed_by-Quiet :
      (r : Result TransitionResult × Db) → Quiet (failed_by R c o.synchronizer id [] r).1.1
  unfolding failed_by
  failed_by-Quiet (err e, db) = tt
  failed_by-Quiet (ok t, db) = after_update-Quiet o.synchronizer (some t) db

  expired-Quiet : (s : JobState) (r : Result Handled × Db) → Quiet (expired R c o id s now [] r).1.1
  unfolding expired
  expired-Quiet s (err e, db) = tt
  expired-Quiet s (ok (true, t), db) = after_update-Quiet o.synchronizer t db
  expired-Quiet s (ok (false, t), db) = failed_by-Quiet _

  marked-Ordered :
      (db : Db) (before : List Action) (r : Result Bool × Db)
      → Barrier db before
      → Ordered db (marked R c (enqueues id generation ∷ before) r).1.1
  marked-Ordered db before (err e, after) h = (refl, refl, h)
  marked-Ordered db before (ok b, after) h = (refl, refl, h)

  enqueue-Ordered :
      (q : Enqueueing) (db after : Db) (before : List Action)
      → Quiet before
      → Barrier db before
      → Ordered db (enqueue R c q id generation now (after, before)).1.1
  unfolding enqueue
  enqueue-Ordered enqueue_fails db after before quiet h = Quiet-Ordered db before quiet
  enqueue-Ordered enqueued db after before quiet h = marked-Ordered db before _ h
  enqueue-Ordered duplicate db after before quiet h = marked-Ordered db before _ h

  -- The receiver has accepted, and the store notes it or fails.
  received-Ordered :
      {A : Type 0} (q : Enqueueing) (db : Db) (s : JobState) (r : Result A × Db)
      → Barrier db (sends s ∷ [])
      → Ordered db (enqueue_after R c q id generation now (received (sends s ∷ []) r)).1.1
  received-Ordered q db s (err e, after) h = refl
  received-Ordered q db s (ok a, after) h = enqueue-Ordered q db after (sends s ∷ []) tt h

  delivered-Ordered :
      (q : Enqueueing) (sending : Sending) (db : Db) (s : JobState)
      → (sending ≡ accepted → Barrier db (sends s ∷ []))
      → Ordered db (enqueue_after R c q id generation now (delivered R c sending s (db, []))).1.1
  unfolding delivered
  delivered-Ordered q rejected db s h = refl
  delivered-Ordered q send_fails db s h = refl
  delivered-Ordered q accepted db s h = received-Ordered q db s _ (h refl)

  hand_on-Ordered :
      (synchronizer : Option Sending) (db : Db) (s : JobState)
      → o.synchronizer ≡ synchronizer
      → require_state R id db ≡ ok s
      → s.run_generation ≡ generation
      → terminal s ≡ false
      → now < s.deadline_at
      → Ordered db (hand_on R c synchronizer o s id generation now (db, [])).1.1
  unfolding hand_on sync sync_state
  hand_on-Ordered none db s is held own going early = tt
  hand_on-Ordered (some sending) db s is held own going early =
      elim (Bool-cases (leb s.revision s.callback_synced_revision)) [
        | inl e ↦ rw e (
            enqueue-Ordered o.queue db db [] tt
              (s, (held, own, going, early, inl (refl, at_most _ _ e))))
        | inr e ↦ rw e (
            rw (held, e)
              (delivered-Ordered o.queue sending db s
                (λ yes. (s, (held, own, going, early, inr (refl, is ∙ ap some yes))))))
      ]
    where
      at_most : (a b : ℕ) → leb a b ≡ true → a ≤ b
      at_most a b h = ground arith

  missing-Quiet :
      (e : JobError) (db : Db) → Quiet (finish_state R c o id generation now (err e) (db, [])).1.1
  unfolding finish_state
  missing-Quiet JobError.job_not_found db = tt
  missing-Quiet _ db = tt

  neither : (a b : Bool) → (not a || b) ≡ false → (a ≡ true) × (b ≡ false)
  neither a b h = ground arith

  later : (a b : ℕ) → leb a b ≡ false → b < a
  later a b h = ground arith

  finish_state-Ordered :
      (r : Result JobState) (db : Db)
      → require_state R id db ≡ r
      → Ordered db (finish_state R c o id generation now r (db, [])).1.1
  unfolding finish_state
  finish_state-Ordered (err e) db held =
      Quiet-Ordered db (finish_state R c o id generation now (err e) (db, [])).1.1
        (missing-Quiet e db)
  finish_state-Ordered (ok s) db held =
      elim (Bool-cases (not (s.run_generation == generation) || terminal s)) [
        | inl e ↦ rw e tt
        | inr e ↦
            let (own, going) = neither (s.run_generation == generation) (terminal s) e in
            elim (Bool-cases (leb s.deadline_at now)) [
              | inl late ↦ rw (e, late) (Quiet-Ordered db _ (expired-Quiet s _))
              | inr early ↦
                  rw (e, early)
                    (hand_on-Ordered o.synchronizer db s refl held
                      ((==_iff s.run_generation generation).0 own) going (later _ _ early))
            ]
      ]

  -- A run for a pending recovery makes at most one callback and then at most one enqueue. It
  -- enqueues only the job and the generation it was called for, and only when the job was read in
  -- that generation, not ended and before its deadline, with its last revision delivered, either
  -- before the run or by the run's callback, which the receiver has accepted.
  pub finish-Ordered :
      (db : Db) → Ordered db (finish_pending_recovery R c o id generation now (db, [])).1.1
  unfolding finish_pending_recovery
  finish-Ordered db = finish_state-Ordered (require_state R id db) db refl

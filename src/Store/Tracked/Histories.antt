-- ===== src/Store/Tracked/Histories.antt =====
-- The agreement over every history of calls.
use search_trust_rd.Prelude.{
  ℕ, ◌≡◌, refl, subst, Bool, true, false, List, [], ◌∷◌, ◌==◌, inl, inr, Bool-cases, is_none,
  if◌then◌else◌, ==_iff,
}
use search_trust_rd.Model.{JobState, is_valid}
use search_trust_rd.Redis.{Redis, state, lease, active, sync_pending, job, recovery_pending}
use search_trust_rd.Store.Base.{
  JobValue, Hashes, StoreConfig, JobCommand, JobPlan, get_state, decode_state, with_state,
}
use search_trust_rd.Store.Register.{Registration, initial_state, register_body}
use search_trust_rd.Store.Transition.{transition_plan, transition_body}
use search_trust_rd.Store.Recovery.{
  take_over_plan, retry_plan, mark_enqueued_plan, take_over_body, retry_body, mark_enqueued_body,
}
use search_trust_rd.Store.Callbacks.{mark_synced_plan, mark_synced_body}
use search_trust_rd.Store.Lease.{refresh_body, release_body}
use search_trust_rd.Store.Indexes.{
  discard_missing_plan, discard_orphan_plan, discard_member_body, discard_missing_body,
  discard_orphan_body,
}
use search_trust_rd.Store.History.{
  Call, registers, transitions, takes_over, retries, marks_enqueued, marks_synced, acquires,
  refreshes, releases, discards_malformed, discards_recovery, discards_missing, discards_orphan,
  lapses, commands_of, perform, history, effects, perform-Sees,
}
use search_trust_rd.Store.Tracked.{
  Tracked, Consistent, After, Keeps, Spares-After, PlanSpares, PlanSpares-with_state,
  with_state-After, own_or_spared,
}
use search_trust_rd.Store.Tracked.Spared.{
  transition-Spares, take_over-Spares, retry-Spares, mark_enqueued-Spares, mark_synced-Spares,
  discard_malformed-Spares, discard_missing-Spares, discard_orphan-Spares, register-Spares,
}
use search_trust_rd.Store.Tracked.Kept.{
  transition-Keeps, take_over-Keeps, retry-Keeps, mark_enqueued-Keeps, mark_synced-Keeps,
  refresh-After, release-After, discard_recovery-After, discard_missing-After, discard_orphan-After,
  lapse-After, register-After,
}

module _ (R : Redis JobValue) (H : Hashes) (c : StoreConfig) where
  open R use {Db, get, zscore}

  -- The job's snapshot and its entries, as they stand in a database.
  abbrev pub IsConsistent : ℕ → Db → Type 0
  IsConsistent j db =
      Consistent j (get db (state j)) (zscore db active (job j)) (zscore db sync_pending (job j))

  module _ (j : ℕ) (db : Db) (t : IsConsistent j db) where
    -- a plan made from the snapshot of its job
    with_state-call :
        {A : Type 0} (id : ℕ) (plan : ℕ → JobState → JobPlan A)
        → ((s : JobState)
            → Tracked j s (zscore db active (job j)) (zscore db sync_pending (job j))
            → Keeps j s (zscore db active (job j)) (zscore db sync_pending (job j)) (plan j s))
        → ((id == j) ≡ false → (s : JobState) → PlanSpares j (plan id s))
        → After j
            (commands_of (with_state (decode_state (get db (state id))) (plan id)))
            (get db (state j))
            (zscore db active (job j))
            (zscore db sync_pending (job j))
    with_state-call id plan kept spared =
        own_or_spared id j
          (λ i. commands_of (with_state (decode_state (get db (state i))) (plan i))) _ _ _
          (with_state-After j (get db (state j)) _ _ (plan j) kept t)
          (λ e. (PlanSpares-with_state j _ (plan id) (spared e)).sent) t

    registered :
        (r : Registration)
        → is_valid (initial_state H c r) ≡ true
        → After j
            (commands_of (register_body H c r R db))
            (get db (state j))
            (zscore db active (job j))
            (zscore db sync_pending (job j))
    unfolding register_body get_state
    registered r valid = elim (Bool-cases (r.job_id == j)) [
      | inl e ↦
          let same : r.job_id ≡ j = (==_iff r.job_id j).0 e in
          subst
            (λ i.
              IsConsistent i db
              → After i (commands_of (register_body H c r R db)) (get db (state i))
                  (zscore db active (job i)) (zscore db sync_pending (job i)))
            same (register-After H c r _ _ _ _ valid) t
      | inr e ↦ Spares-After j _ _ _ _ ((register-Spares H c r j e _ _).sent) t
    ]

    guarded :
        (b : Bool) (cs : List JobCommand)
        → (b ≡ true
            → After j cs
                (get db (state j))
                (zscore db active (job j))
                (zscore db sync_pending (job j)))
        → After j
            (if b then cs else [])
            (get db (state j))
            (zscore db active (job j))
            (zscore db sync_pending (job j))
    guarded true cs h = h refl
    guarded false cs h = t

    effects-After :
        (call : Call)
        → After j
            (effects R H c call db)
            (get db (state j))
            (zscore db active (job j))
            (zscore db sync_pending (job j))
    unfolding effects get_state transition_body take_over_body retry_body mark_enqueued_body
        mark_synced_body refresh_body release_body discard_member_body discard_missing_body
        discard_orphan_body
    effects-After (registers r) = guarded (is_valid (initial_state H c r)) _ (registered r)
    effects-After (transitions id u) =
        with_state-call id (λ i. transition_plan c i u) (λ s k. transition-Keeps c j s _ _ k u)
          (λ e. transition-Spares c id j e u)
    effects-After (takes_over id expected now) =
        with_state-call id
          (λ i. take_over_plan c i expected now (zscore db recovery_pending (job i)))
          (λ s k. take_over-Keeps c j s _ _ k expected now _)
          (λ e. take_over-Spares c id j e expected now _)
    effects-After (retries id now) =
        with_state-call id (λ i. retry_plan c i now) (λ s k. retry-Keeps c j s _ _ k now)
          (λ e. retry-Spares c id j e now)
    effects-After (marks_enqueued id generation now) =
        with_state-call id
          (λ i. mark_enqueued_plan i generation now (zscore db recovery_pending (job i)))
          (λ s k. mark_enqueued-Keeps c j s _ _ k generation now _)
          (λ e. mark_enqueued-Spares id j e generation now _)
    effects-After (marks_synced id revision) =
        with_state-call id (λ i. mark_synced_plan c i revision)
          (λ s k. mark_synced-Keeps c j s _ _ k revision)
          (λ e. mark_synced-Spares c id j e revision)
    effects-After (acquires id generation token ttl) =
        guarded (is_none (get db (lease id))) _ (λ _. t)
    effects-After (refreshes id generation token ttl) =
        refresh-After j _ _ id generation (H.sha256 token) ttl _ _ t
    effects-After (releases id generation token) =
        release-After j _ _ id generation (H.sha256 token) _ _ t
    effects-After (discards_malformed index k score) =
        Spares-After j _ _ _ _ ((discard_malformed-Spares index k j score _).sent) t
    effects-After (discards_recovery id score) = discard_recovery-After j _ _ id score _ _ t
    effects-After (discards_missing id) =
        own_or_spared id j (λ i. commands_of (discard_missing_plan i (get db (state i)))) _ _ _
          (discard_missing-After j _ _ _ t) (λ e. (discard_missing-Spares id j e _).sent) t
    effects-After (discards_orphan id generation) =
        own_or_spared id j
          (λ i. commands_of (
            discard_orphan_plan i generation (get db (state i))
              (zscore db recovery_pending (job i))))
          _ _ _ (discard_orphan-After j _ _ generation _ _ t)
          (λ e. (discard_orphan-Spares id j e generation _ _).sent) t
    effects-After (lapses k) = lapse-After j _ _ k _ t

    pub perform-IsConsistent : (call : Call) → IsConsistent j (perform R H c call db)
    perform-IsConsistent call =
        let seen = perform-Sees R H c call db in
        rw (seen.gets (state j), seen.scores active (job j), seen.scores sync_pending (job j))
          (effects-After call)

  -- From a consistent entry, no history of operations and lapses, of this job or others, makes a
  -- job's snapshot and its index entries disagree.
  pub history-IsConsistent :
      (j : ℕ) (calls : List Call) (db : Db)
      → IsConsistent j db
      → IsConsistent j (history R H c calls db)
  unfolding history
  history-IsConsistent j [] db t = t
  history-IsConsistent j (call ∷ calls) db t =
      history-IsConsistent j calls (perform R H c call db) (perform-IsConsistent j db t call)

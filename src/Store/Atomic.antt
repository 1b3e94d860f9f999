-- ===== src/Store/Atomic.antt =====
-- The operations under interference: each writes as it does undisturbed, at one moment, or writes
-- nothing.
use search_trust_rd.Prelude.{
  ℕ, String, ◌≡◌, refl, sym, Bool, true, false, if◌then◌else◌, List, [], ◌∷◌, Number,
}
use search_trust_rd.Model.{is_valid, JobError, validation_error, Result, ok, err}
use search_trust_rd.Redis.{
  publish, events, Key, Member, Redis, state, active, sync_pending, recovery_pending,
}
use search_trust_rd.Transaction.{
  Round, attempt, ReadsOnly, IsSeen, SameAt, Follows, Linear, Linear-now, attempt-Linear,
}
use search_trust_rd.Store.Base.{JobValue, Hashes, StoreConfig, TransitionResult, JobPlan, announce}
use search_trust_rd.Store.Register.{
  Registration, initial_state, register_watched, register_body, register_job,
}
use search_trust_rd.Store.Transition.{Update, transition_watched, transition_body, transition}
use search_trust_rd.Store.Recovery.{
  recovery_watched, retry_watched, take_over_body, retry_body, mark_enqueued_body, take_over_stale,
  retry_failed, mark_recovery_enqueued,
}
use search_trust_rd.Store.Callbacks.{synced_watched, mark_synced_body, mark_callback_synced}
use search_trust_rd.Store.Lease.{
  lease_watched, refresh_body, release_body, refresh_lease, release_lease,
}
use search_trust_rd.Store.Indexes.{
  discard_member_body, discard_missing_body, discard_orphan_body, discard_index_member,
  discard_missing_job_indexes, discard_missing_job_recovery,
}
use search_trust_rd.Store.Watched.{transactions_watch}

module _ (R : Redis JobValue) where
  open R use {Db, get-run, zscore-run}

  -- The operation, disturbed by other clients in these rounds, has the result that it has alone at one
  -- moment; or a round has left early, with the answer that it has alone on what its reads returned,
  -- where it writes nothing, and it has written nothing.
  abbrev pub IsAtomic :
      {A : Type 0} → (List (Round R) → Db → Result A × Db) → List (Round R) → Db → Type 0
  IsAtomic op rounds db = Linear R op (op rounds db) rounds db

  attempt-IsAtomic :
      {A : Type 0} (watched : List Key) (body : Db → JobPlan A) (rounds : List (Round R)) (db : Db)
      → IsSeen R rounds db
      → ReadsOnly R watched body
      → IsAtomic (attempt R watched body) rounds db
  attempt-IsAtomic watched body rounds db seen only =
      attempt-Linear R (λ x. x) ((λ x. refl), (λ x k. (refl, λ m. refl))) watched body only rounds
        db seen

  announce-Follows : (id : ℕ) → Follows R (announce R id)
  unfolding announce
  announce-Follows id = (announce-answer, announce-keys)
    where
      announce-answer : (x : Result TransitionResult × Db) → (announce R id x).0 ≡ x.0
      announce-answer (err e, db) = refl
      announce-answer (ok t, db) = refl

      published :
          (b : Bool) (n : ℕ) (db : Db) (k : Key)
          → SameAt R db (if b then R.run db (publish (events id) n) else db) k
      published true n db k = (sym (get-run db _ k), λ m. sym (zscore-run db _ k m))
      published false n db k = (refl, λ m. refl)

      announce-keys :
          (x : Result TransitionResult × Db) (k : Key) → SameAt R x.1 (announce R id x).1 k
      announce-keys (err e, db) k = (refl, λ m. refl)
      announce-keys (ok t, db) k = published t.applied t.state.revision db k

  announced-IsAtomic :
      (id : ℕ) (watched : List Key) (body : Db → JobPlan TransitionResult) (rounds : List (Round R))
      (db : Db)
      → IsSeen R rounds db
      → ReadsOnly R watched body
      → IsAtomic (λ rs d. announce R id (attempt R watched body rs d)) rounds db
  announced-IsAtomic id watched body rounds db seen only =
      attempt-Linear R (announce R id) (announce-Follows id) watched body only rounds db seen

  -- a check before the first round
  guarded-IsAtomic :
      {A : Type 0} (b : Bool) (e : JobError) (op : List (Round R) → Db → Result A × Db)
      (rounds : List (Round R)) (db : Db)
      → IsAtomic op rounds db
      → IsAtomic (λ rs d. if b then op rs d else (err e, d)) rounds db
  guarded-IsAtomic true e op rounds db h = h
  guarded-IsAtomic false e op rounds db h =
      Linear-now R (λ rs d. (err e, d)) (err e, db) rounds db refl

  module _ (H : Hashes) (c : StoreConfig) where
    register-IsAtomic :
        (r : Registration) (rounds : List (Round R)) (db : Db)
        → IsSeen R rounds db
        → ReadsOnly R (register_watched H c r) (register_body H c r R)
        → IsAtomic (register_job H c r R) rounds db
    unfolding register_job
    register-IsAtomic r rounds db seen only =
        guarded-IsAtomic (is_valid (initial_state H c r)) validation_error
          (λ rs d.
            announce R r.job_id (attempt R (register_watched H c r) (register_body H c r R) rs d))
          rounds db
          (announced-IsAtomic r.job_id (register_watched H c r) (register_body H c r R) rounds db
            seen only)

    -- Whatever other clients send from WATCH to EXEC of each round, and at whatever moments of it a
    -- round reads its keys, each of these operations has the result that it has alone at one moment;
    -- or a round has left early: then nothing is written, and the answer is the one the operation has
    -- alone on what the round's reads returned, which can be of several moments. The operations are
    -- registration, transition, takeover, retry, the end of a recovery, the callback receipt, the
    -- renewal and the release of a lease, and the three removals of index entries.
    pub operations-IsAtomic :
        (r : Registration) (u : Update) (id generation now revision ttl : ℕ) (token : String)
        (index : Key) (member : Member) (score : Number) (rounds : List (Round R)) (db : Db)
        → IsSeen R rounds db
        → IsAtomic (register_job H c r R) rounds db
          × IsAtomic (transition R c id u) rounds db
          × IsAtomic (take_over_stale R c id generation now) rounds db
          × IsAtomic (retry_failed R c id now) rounds db
          × IsAtomic (mark_recovery_enqueued R c id generation now) rounds db
          × IsAtomic (mark_callback_synced R c id revision) rounds db
          × IsAtomic (refresh_lease R H id generation token ttl) rounds db
          × IsAtomic (release_lease R H id generation token) rounds db
          × IsAtomic (discard_index_member R index member score) rounds db
          × IsAtomic (discard_missing_job_indexes R id) rounds db
          × IsAtomic (discard_missing_job_recovery R id generation) rounds db
    unfolding transition take_over_stale retry_failed mark_recovery_enqueued mark_callback_synced
        refresh_lease release_lease discard_index_member discard_missing_job_indexes
        discard_missing_job_recovery
    operations-IsAtomic r u id generation now revision ttl token index member score rounds db seen =
        let watch =
          transactions_watch R H c r u id generation now revision ttl token index member score in
        (
          register-IsAtomic r rounds db seen watch.0,
          announced-IsAtomic id (transition_watched id) (transition_body R c id u) rounds db seen
              watch.1,
          announced-IsAtomic id (recovery_watched id) (take_over_body R c id generation now) rounds
              db seen watch.2,
          announced-IsAtomic id (retry_watched id) (retry_body R c id now) rounds db seen watch.3,
          attempt-IsAtomic (recovery_watched id) (mark_enqueued_body R c id generation now) rounds
              db seen watch.4,
          attempt-IsAtomic (synced_watched id) (mark_synced_body R c id revision) rounds db seen
              watch.5,
          attempt-IsAtomic (lease_watched id) (refresh_body R H id generation token ttl) rounds db
              seen watch.6,
          attempt-IsAtomic (lease_watched id) (release_body R H id generation token) rounds db seen
              watch.7,
          attempt-IsAtomic (index ∷ []) (discard_member_body R index member score) rounds db seen
              watch.8,
          attempt-IsAtomic (state id ∷ active ∷ sync_pending ∷ recovery_pending ∷ [])
              (discard_missing_body R id) rounds db seen watch.9,
          attempt-IsAtomic (state id ∷ recovery_pending ∷ []) (discard_orphan_body R id generation)
              rounds db seen watch.10,
        )

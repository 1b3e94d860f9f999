-- ===== src/Store/Isolation.antt =====
-- Calls for other jobs leave a job alone.
use search_trust_rd.Prelude.{
  ℕ, ◌≡◌, refl, ◌∙◌, Bool, true, false, ◌||◌, List, [], ◌∷◌, ◌==◌, any, is_none, if◌then◌else◌,
  arith,
}
use search_trust_rd.Model.{is_valid}
use search_trust_rd.Redis.{
  request, idempotency, Key, Redis, key_eq, state, lease, active, sync_pending, recovery_pending,
  job, delete,
}
use search_trust_rd.Store.Base.{JobValue, Hashes, StoreConfig, JobCommand, get_state}
use search_trust_rd.Store.Register.{initial_state, register_body}
use search_trust_rd.Store.Transition.{transition_body}
use search_trust_rd.Store.Recovery.{take_over_body, retry_body, mark_enqueued_body}
use search_trust_rd.Store.Callbacks.{mark_synced_body}
use search_trust_rd.Store.Lease.{refresh_body, release_body}
use search_trust_rd.Store.Indexes.{discard_member_body, discard_missing_body, discard_orphan_body}
use search_trust_rd.Store.History.{
  has_ttl, Call, registers, transitions, takes_over, retries, marks_enqueued, marks_synced,
  acquires, refreshes, releases, discards_malformed, discards_recovery, discards_missing,
  discards_orphan, lapses, perform, history, effects, perform-Sees,
}
use search_trust_rd.Store.Tracked.{Spares, Spares-nothing, PlanSpares-with_state}
use search_trust_rd.Store.Tracked.Spared.{
  transition-Spares, take_over-Spares, retry-Spares, mark_enqueued-Spares, mark_synced-Spares,
  refresh-Spares, release-Spares, acquire-Spares, discard_missing-Spares, discard_orphan-Spares,
  discard_recovery-Spares, discard_malformed-Spares, register-Spares,
}

-- The call is for the job, or is the lapse of its snapshot or lease.
abbrev pub is_about : ℕ → Call → Bool
is_about j (registers r) = r.job_id == j
is_about j (transitions id u) = id == j
is_about j (takes_over id expected now) = id == j
is_about j (retries id now) = id == j
is_about j (marks_enqueued id generation now) = id == j
is_about j (marks_synced id revision) = id == j
is_about j (acquires id generation token ttl) = id == j
is_about j (refreshes id generation token ttl) = id == j
is_about j (releases id generation token) = id == j
is_about j (discards_malformed index k score) = false
is_about j (discards_recovery id score) = id == j
is_about j (discards_missing id) = id == j
is_about j (discards_orphan id generation) = id == j
is_about j (lapses k) = key_eq k (state j) || key_eq k (lease j)

or_false_left : (a b : Bool) → (a || b) ≡ false → a ≡ false
or_false_left a b h = ground arith

or_false_right : (a b : Bool) → (a || b) ≡ false → b ≡ false
or_false_right a b h = ground arith

delete-Spares :
    (j : ℕ) (k : Key)
    → key_eq k active ≡ false
    → key_eq k sync_pending ≡ false
    → key_eq k recovery_pending ≡ false
    → (key_eq k (state j) || key_eq k (lease j)) ≡ false
    → Spares j (delete k ∷ [])
delete-Spares j k a b d h = record {
  snapshot = λ old. rw (or_false_left (key_eq k (state j)) (key_eq k (lease j)) h);
  leased = λ old. rw (or_false_right (key_eq k (state j)) (key_eq k (lease j)) h);
  in_active = λ old. rw a;
  in_sync = λ old. rw b;
  in_recovery = λ old. rw d;
}

lapse-Spares :
    (j : ℕ) (k : Key)
    → (key_eq k (state j) || key_eq k (lease j)) ≡ false
    → Spares j (if has_ttl k then delete k ∷ [] else [])
lapse-Spares j (request id) h = delete-Spares j (request id) refl refl refl h
lapse-Spares j (state id) h = delete-Spares j (state id) refl refl refl h
lapse-Spares j (lease id) h = delete-Spares j (lease id) refl refl refl h
lapse-Spares j (idempotency case digest) h =
    delete-Spares j (idempotency case digest) refl refl refl h
lapse-Spares j _ h = Spares-nothing j

guarded-Spares :
    (j : ℕ) (b : Bool) (cs : List JobCommand) → Spares j cs → Spares j (if b then cs else [])
guarded-Spares j true cs h = h
guarded-Spares j false cs h = Spares-nothing j

module _ (R : Redis JobValue) (H : Hashes) (c : StoreConfig) (j : ℕ) where
  open R use {Db, get, zscore}

  effects-Spares :
      (call : Call) (db : Db) → is_about j call ≡ false → Spares j (effects R H c call db)
  unfolding effects get_state register_body transition_body take_over_body retry_body
      mark_enqueued_body mark_synced_body refresh_body release_body discard_member_body
      discard_missing_body discard_orphan_body
  effects-Spares (registers r) db e =
      guarded-Spares j (is_valid (initial_state H c r)) _ ((register-Spares H c r j e _ _).sent)
  effects-Spares (transitions id u) db e =
      (PlanSpares-with_state j _ _ (transition-Spares c id j e u)).sent
  effects-Spares (takes_over id expected now) db e =
      (PlanSpares-with_state j _ _ (take_over-Spares c id j e expected now _)).sent
  effects-Spares (retries id now) db e =
      (PlanSpares-with_state j _ _ (retry-Spares c id j e now)).sent
  effects-Spares (marks_enqueued id generation now) db e =
      (PlanSpares-with_state j _ _ (mark_enqueued-Spares id j e generation now _)).sent
  effects-Spares (marks_synced id revision) db e =
      (PlanSpares-with_state j _ _ (mark_synced-Spares c id j e revision)).sent
  effects-Spares (acquires id generation token ttl) db e =
      guarded-Spares j (is_none (get db (lease id))) _
        (acquire-Spares id j e generation (H.sha256 token) ttl)
  effects-Spares (refreshes id generation token ttl) db e =
      (refresh-Spares id j e generation (H.sha256 token) ttl _).sent
  effects-Spares (releases id generation token) db e =
      (release-Spares id j e generation (H.sha256 token) _).sent
  effects-Spares (discards_malformed index k score) db e =
      (discard_malformed-Spares index k j score _).sent
  effects-Spares (discards_recovery id score) db e = (discard_recovery-Spares id j e score _).sent
  effects-Spares (discards_missing id) db e = (discard_missing-Spares id j e _).sent
  effects-Spares (discards_orphan id generation) db e =
      (discard_orphan-Spares id j e generation _ _).sent
  effects-Spares (lapses k) db e = lapse-Spares j k e

  -- Two databases agree on a job: its snapshot, its lease and its entries in the three indexes.
  pub record SameJob (a b : Db) : Type 0 where
    pub snapshot : get b (state j) ≡ get a (state j)
    pub leased : get b (lease j) ≡ get a (lease j)
    pub in_active : zscore b active (job j) ≡ zscore a active (job j)
    pub in_sync : zscore b sync_pending (job j) ≡ zscore a sync_pending (job j)
    pub in_recovery : zscore b recovery_pending (job j) ≡ zscore a recovery_pending (job j)

  perform-SameJob :
      (call : Call) (db : Db) → is_about j call ≡ false → SameJob db (perform R H c call db)
  perform-SameJob call db e =
      let seen = perform-Sees R H c call db in
      let spared = effects-Spares call db e in
      record {
        snapshot = seen.gets (state j) ∙ spared.snapshot _;
        leased = seen.gets (lease j) ∙ spared.leased _;
        in_active = seen.scores active (job j) ∙ spared.in_active _;
        in_sync = seen.scores sync_pending (job j) ∙ spared.in_sync _;
        in_recovery = seen.scores recovery_pending (job j) ∙ spared.in_recovery _;
      }

  -- However many calls are made for other jobs, a job keeps its snapshot, its lease and its entries
  -- in the active, the callback and the recovery index.
  pub history-SameJob :
      (calls : List Call) (db : Db)
      → any (is_about j) calls ≡ false
      → SameJob db (history R H c calls db)
  unfolding history
  history-SameJob [] db h = record {
    snapshot = refl;
    leased = refl;
    in_active = refl;
    in_sync = refl;
    in_recovery = refl;
  }
  history-SameJob (call ∷ calls) db h =
      let first = perform-SameJob call db (or_false_left _ _ h) in
      let rest = history-SameJob calls (perform R H c call db) (or_false_right _ _ h) in
      record {
        snapshot = rest.snapshot ∙ first.snapshot;
        leased = rest.leased ∙ first.leased;
        in_active = rest.in_active ∙ first.in_active;
        in_sync = rest.in_sync ∙ first.in_sync;
        in_recovery = rest.in_recovery ∙ first.in_recovery;
      }

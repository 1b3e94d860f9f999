-- ===== src/Store/History.antt =====
-- Histories: the store's operations by any number of processes, each at the moment at which its
-- transaction takes effect, and the lapse of keys whose TTL has run out. A transaction that leaves
-- early writes nothing (Store/Atomic), so it adds nothing to a history. A heartbeat is a read
-- followed by a `transition` with some arguments.
use search_trust_rd.Prelude.{
  ℕ, String, ◌≡◌, refl, ◌∙◌, Bool, true, false, List, [], ◌∷◌, Number, is_none, if◌then◌else◌,
}
use search_trust_rd.Model.{is_valid, Result, ok, err, validation_error}
use search_trust_rd.Redis.{
  Key, Member, Redis, malformed, job, lease, request, state, idempotency, events, recovery_pending,
  set, delete, publish, gets_after, zscores_after, get-run_all, zscore-run_all,
}
use search_trust_rd.Transaction.{stop, commit, settle, attempt}
use search_trust_rd.Store.Base.{
  JobValue, lease_text, Hashes, StoreConfig, TransitionResult, JobCommand, JobPlan, announce,
}
use search_trust_rd.Store.Register.{Registration, initial_state, register_body, register_job}
use search_trust_rd.Store.Transition.{Update, transition_body, transition}
use search_trust_rd.Store.Recovery.{
  take_over_body, take_over_stale, retry_body, retry_failed, mark_enqueued_body,
  mark_recovery_enqueued,
}
use search_trust_rd.Store.Callbacks.{mark_synced_body, mark_callback_synced}
use search_trust_rd.Store.Lease.{
  acquire_lease, refresh_body, refresh_lease, release_body, release_lease,
}
use search_trust_rd.Store.Indexes.{
  discard_member_body, discard_index_member, discard_missing_body, discard_missing_job_indexes,
  discard_orphan_body, discard_missing_job_recovery,
}

pub data Call : Type 0 where
  registers : Registration → Call
  transitions : ℕ → Update → Call
  -- job, expected generation, time
  takes_over : ℕ → ℕ → ℕ → Call
  retries : ℕ → ℕ → Call
  marks_enqueued : ℕ → ℕ → ℕ → Call
  marks_synced : ℕ → ℕ → Call
  -- job, generation, token, ttl
  acquires : ℕ → ℕ → String → ℕ → Call
  refreshes : ℕ → ℕ → String → ℕ → Call
  releases : ℕ → ℕ → String → Call
  discards_malformed : Key → ℕ → Number → Call
  discards_recovery : ℕ → Number → Call
  discards_missing : ℕ → Call
  discards_orphan : ℕ → ℕ → Call
  lapses : Key → Call

-- The keys that the store writes with EX; the indexes have no TTL.
abbrev pub has_ttl : Key → Bool
has_ttl (request id) = true
has_ttl (state id) = true
has_ttl (idempotency case digest) = true
has_ttl (lease id) = true
has_ttl _ = false

-- What a plan sends.
abbrev pub commands_of : {A : Type 0} → JobPlan A → List JobCommand
commands_of (stop r) = []
commands_of (commit cs a) = cs

module _ (R : Redis JobValue) (H : Hashes) (c : StoreConfig) where
  open R use {Db, get, zscore, run, get-run, zscore-run}

  unfoldable pub perform : Call → Db → Db
  perform (registers r) db = (register_job H c r R [] db).1
  perform (transitions id u) db = (transition R c id u [] db).1
  perform (takes_over id expected now) db = (take_over_stale R c id expected now [] db).1
  perform (retries id now) db = (retry_failed R c id now [] db).1
  perform (marks_enqueued id generation now) db =
      (mark_recovery_enqueued R c id generation now [] db).1
  perform (marks_synced id revision) db = (mark_callback_synced R c id revision [] db).1
  perform (acquires id generation token ttl) db = (acquire_lease R H id generation token ttl db).1
  perform (refreshes id generation token ttl) db =
      (refresh_lease R H id generation token ttl [] db).1
  perform (releases id generation token) db = (release_lease R H id generation token [] db).1
  perform (discards_malformed index k score) db =
      (discard_index_member R index (malformed k) score [] db).1
  perform (discards_recovery id score) db =
      (discard_index_member R recovery_pending (job id) score [] db).1
  perform (discards_missing id) db = (discard_missing_job_indexes R id [] db).1
  perform (discards_orphan id generation) db =
      (discard_missing_job_recovery R id generation [] db).1
  perform (lapses k) db = if has_ttl k then run db (delete k) else db

  unfoldable pub history : List Call → Db → Db
  history [] db = db
  history (call ∷ calls) db = history calls (perform call db)

  -- The commands of a call, publications left out.
  unfoldable pub effects : Call → Db → List JobCommand
  effects (registers r) db =
      if is_valid (initial_state H c r) then commands_of (register_body H c r R db) else []
  effects (transitions id u) db = commands_of (transition_body R c id u db)
  effects (takes_over id expected now) db = commands_of (take_over_body R c id expected now db)
  effects (retries id now) db = commands_of (retry_body R c id now db)
  effects (marks_enqueued id generation now) db =
      commands_of (mark_enqueued_body R c id generation now db)
  effects (marks_synced id revision) db = commands_of (mark_synced_body R c id revision db)
  effects (acquires id generation token ttl) db =
      if is_none (get db (lease id))
      then set (lease id) (lease_text generation (H.sha256 token)) ttl ∷ []
      else []
  effects (refreshes id generation token ttl) db =
      commands_of (refresh_body R H id generation token ttl db)
  effects (releases id generation token) db = commands_of (release_body R H id generation token db)
  effects (discards_malformed index k score) db =
      commands_of (discard_member_body R index (malformed k) score db)
  effects (discards_recovery id score) db =
      commands_of (discard_member_body R recovery_pending (job id) score db)
  effects (discards_missing id) db = commands_of (discard_missing_body R id db)
  effects (discards_orphan id generation) db = commands_of (discard_orphan_body R id generation db)
  effects (lapses k) db = if has_ttl k then delete k ∷ [] else []

  -- What the two reads see after a plan.
  pub record Sees (cs : List JobCommand) (db after : Db) : Type 0 where
    pub gets : (k : Key) → get after k ≡ gets_after cs k (get db k)
    pub scores : (k : Key) (m : Member) → zscore after k m ≡ zscores_after cs k m (zscore db k m)

  Sees-settle :
      {A : Type 0} (plan : JobPlan A) (db : Db) → Sees (commands_of plan) db (settle R plan db).1
  unfolding settle
  Sees-settle (stop r) db = record { gets = λ k. refl; scores = λ k m. refl }
  Sees-settle (commit cs a) db = record {
    gets = get-run_all R db cs;
    scores = zscore-run_all R db cs;
  }

  Sees-publish :
      (id n : ℕ) (cs : List JobCommand) (db after : Db) (applied : Bool)
      → Sees cs db after
      → Sees cs db (if applied then run after (publish (events id) n) else after)
  Sees-publish id n cs db after false s = s
  Sees-publish id n cs db after true s = record {
    gets = λ k. get-run after (publish (events id) n) k ∙ s.gets k;
    scores = λ k m. zscore-run after (publish (events id) n) k m ∙ s.scores k m;
  }

  Sees-announce :
      (id : ℕ) (cs : List JobCommand) (db : Db) (r : Result TransitionResult × Db)
      → Sees cs db r.1
      → Sees cs db (announce R id r).1
  unfolding announce
  Sees-announce id cs db (err e, after) s = s
  Sees-announce id cs db (ok t, after) s = Sees-publish id t.state.revision cs db after t.applied s

  Sees-if :
      {A : Type 0} (b : Bool) (cs ds : List JobCommand) (db : Db) (p q : A × Db)
      → Sees cs db p.1
      → Sees ds db q.1
      → Sees (if b then cs else ds) db (if b then p else q).1
  Sees-if true cs ds db p q s t = s
  Sees-if false cs ds db p q s t = t

  Sees-nothing : (db : Db) → Sees [] db db
  Sees-nothing db = record { gets = λ k. refl; scores = λ k m. refl }

  Sees-register :
      (r : Registration) (db : Db) → Sees (effects (registers r) db) db (perform (registers r) db)
  unfolding perform effects register_job attempt
  Sees-register r db =
      Sees-if (is_valid (initial_state H c r)) (commands_of (register_body H c r R db)) [] db
        (announce R r.job_id (settle R (register_body H c r R db) db)) (err validation_error, db)
        (Sees-announce r.job_id _ db _ (Sees-settle (register_body H c r R db) db))
        (Sees-nothing db)

  Sees-acquire :
      (id generation : ℕ) (token : String) (ttl : ℕ) (db : Db)
      → Sees
          (effects (acquires id generation token ttl) db)
          db
          (perform (acquires id generation token ttl) db)
  unfolding perform effects acquire_lease
  Sees-acquire id generation token ttl db =
      let command = set (lease id) (lease_text generation (H.sha256 token)) ttl in
      Sees-if (is_none (get db (lease id))) (command ∷ []) [] db (true, run db command) (false, db)
        (record { gets = get-run db command; scores = zscore-run db command }) (Sees-nothing db)

  lapsed :
      (b : Bool) (k : Key) (db : Db)
      → Sees (if b then delete k ∷ [] else []) db (if b then run db (delete k) else db)
  lapsed true k db = record { gets = get-run db (delete k); scores = zscore-run db (delete k) }
  lapsed false k db = Sees-nothing db

  Sees-lapse : (k : Key) (db : Db) → Sees (effects (lapses k) db) db (perform (lapses k) db)
  unfolding perform effects
  Sees-lapse k db = lapsed (has_ttl k) k db

  -- After a call the reads see what its commands do.
  pub perform-Sees : (call : Call) (db : Db) → Sees (effects call db) db (perform call db)
  unfolding perform effects attempt transition take_over_stale retry_failed mark_recovery_enqueued
      mark_callback_synced refresh_lease release_lease discard_index_member
      discard_missing_job_indexes discard_missing_job_recovery
  perform-Sees (registers r) db = Sees-register r db
  perform-Sees (transitions id u) db = Sees-announce id _ db _ (Sees-settle _ db)
  perform-Sees (takes_over id expected now) db = Sees-announce id _ db _ (Sees-settle _ db)
  perform-Sees (retries id now) db = Sees-announce id _ db _ (Sees-settle _ db)
  perform-Sees (marks_enqueued id generation now) db = Sees-settle _ db
  perform-Sees (marks_synced id revision) db = Sees-settle _ db
  perform-Sees (acquires id generation token ttl) db = Sees-acquire id generation token ttl db
  perform-Sees (refreshes id generation token ttl) db = Sees-settle _ db
  perform-Sees (releases id generation token) db = Sees-settle _ db
  perform-Sees (discards_malformed index k score) db = Sees-settle _ db
  perform-Sees (discards_recovery id score) db = Sees-settle _ db
  perform-Sees (discards_missing id) db = Sees-settle _ db
  perform-Sees (discards_orphan id generation) db = Sees-settle _ db
  perform-Sees (lapses k) db = Sees-lapse k db

-- ===== src/Store/Evolved/Histories.antt =====
-- The evolution of a snapshot over every history in which its key does not lapse, and what it gives
-- a superseded worker.
use search_trust_rd.Prelude.{
  ℕ, ◌≡◌, refl, ap, subst, sym, ◌∙◌, Bool, true, false, not, ◌&&◌, Option, none, some, List, [],
  ◌∷◌, ◌==◌, Number, inl, inr, Bool-cases, is_none, if◌then◌else◌, ==_iff, all, arith,
}
use search_trust_rd.Model.{JobState, is_valid}
use search_trust_rd.Redis.{
  delete, Redis, key_eq, active, sync_pending, gets_after, state, lease, recovery_pending, job, set,
}
use search_trust_rd.Store.Base.{
  JobValue, state_json, lease_text, Hashes, StoreConfig, JobCommand, JobPlan, get_state,
  decode_state, with_state,
}
use search_trust_rd.Store.Register.{Registration, idem_key, register_plan, register_body}
use search_trust_rd.Store.Transition.{transition_plan, transition_body}
use search_trust_rd.Store.Recovery.{
  take_over_plan, retry_plan, mark_enqueued_plan, take_over_body, retry_body, mark_enqueued_body,
}
use search_trust_rd.Store.Callbacks.{mark_synced_plan, mark_synced_body}
use search_trust_rd.Store.Lease.{
  refresh_plan, release_plan, refresh_body, release_body, holds_lease,
}
use search_trust_rd.Store.Indexes.{
  discard_member_plan, discard_missing_plan, discard_orphan_plan, discard_member_body,
  discard_missing_body, discard_orphan_body, still_scored,
}
use search_trust_rd.Store.History.{
  has_ttl, Call, registers, transitions, takes_over, retries, marks_enqueued, marks_synced,
  acquires, refreshes, releases, discards_malformed, discards_recovery, discards_missing,
  discards_orphan, lapses, commands_of, perform, history, effects, perform-Sees,
}
use search_trust_rd.Store.Tracked.{Consistent, PlanSpares, PlanSpares-with_state}
use search_trust_rd.Store.Tracked.Spared.{
  transition-Spares, take_over-Spares, retry-Spares, mark_enqueued-Spares, mark_synced-Spares,
  discard_malformed-Spares, discard_missing-Spares, discard_orphan-Spares, register-Spares,
}
use search_trust_rd.Store.Tracked.Kept.{known_sends_nothing, existing_sends_nothing}
use search_trust_rd.Store.Tracked.Histories.{IsConsistent, perform-IsConsistent}
use search_trust_rd.Store.Evolved.{
  Evolves, Evolves-refl, Evolves-trans, MovesTo, Moves, MovesTo-spared,
}
use search_trust_rd.Store.Evolved.Plans.{
  transition-Moves, take_over-Moves, retry-Moves, mark_synced-Moves, mark_enqueued-Moves,
}

-- The call is not the lapse of the job's snapshot.
abbrev pub spares_key : ℕ → Call → Bool
spares_key j (lapses k) = not (key_eq k (state j))
spares_key j _ = true

and_left : (a b : Bool) → (a && b) ≡ true → a ≡ true
and_left a b h = ground arith

and_right : (a b : Bool) → (a && b) ≡ true → b ≡ true
and_right a b h = ground arith

-- commands that do not name the state key
MovesTo-still :
    (j : ℕ) (s : JobState) (cs : List JobCommand)
    → ((old : Option JobValue) → gets_after cs (state j) old ≡ old)
    → MovesTo j s cs
MovesTo-still j s cs h = record { next = s; holds = h _; evolves = Evolves-refl s }

refresh_still :
    (j id generation digest ttl : ℕ) (held old : Option JobValue)
    → gets_after (commands_of (refresh_plan id generation digest ttl held)) (state j) old ≡ old
unfolding refresh_plan
refresh_still j id generation digest ttl held old =
    elim (Bool-cases (holds_lease generation digest held)) [ inl e ↦ rw e | inr e ↦ rw e ]

release_still :
    (j id generation digest : ℕ) (held old : Option JobValue)
    → gets_after (commands_of (release_plan id generation digest held)) (state j) old ≡ old
unfolding release_plan
release_still j id generation digest held old =
    elim (Bool-cases (holds_lease generation digest held)) [ inl e ↦ rw e | inr e ↦ rw e ]

discard_still :
    (j id : ℕ) (expected : Number) (current : Option Number) (old : Option JobValue)
    → gets_after
        (commands_of (discard_member_plan recovery_pending (job id) expected current))
        (state j)
        old
      ≡ old
unfolding discard_member_plan
discard_still j id expected current old = elim (Bool-cases (still_scored expected current)) [
  | inl e ↦ rw e
  | inr e ↦ rw e
]

module _ (R : Redis JobValue) (H : Hashes) (c : StoreConfig) where
  open R use {Db, get, zscore}

  module _ (j : ℕ) (db : Db) (s : JobState) (valid : is_valid s ≡ true)
      (held : get db (state j) ≡ some (state_json s)) where
    own_or_still :
        (id : ℕ) (cs : ℕ → List JobCommand)
        → MovesTo j s (cs j)
        → ((id == j) ≡ false → MovesTo j s (cs id))
        → MovesTo j s (cs id)
    own_or_still id cs own other = elim (Bool-cases (id == j)) [
      | inl e ↦ rw ((==_iff id j).0 e) own
      | inr e ↦ other e
    ]

    found :
        {A : Type 0} (plan : JobState → JobPlan A)
        → Moves j s (plan s)
        → MovesTo j s (commands_of (with_state (decode_state (get db (state j))) plan))
    unfolding with_state decode_state
    found plan m = rw held (rw valid (m.sent))

    with_state-MovesTo :
        {A : Type 0} (id : ℕ) (plan : ℕ → JobState → JobPlan A)
        → Moves j s (plan j s)
        → ((id == j) ≡ false → (t : JobState) → PlanSpares j (plan id t))
        → MovesTo j s (commands_of (with_state (decode_state (get db (state id))) (plan id)))
    with_state-MovesTo id plan own spared =
        own_or_still id (λ i. commands_of (with_state (decode_state (get db (state i))) (plan i)))
          (found (plan j) own)
          (λ e. MovesTo-spared j s _ ((PlanSpares-with_state j _ (plan id) (spared e)).sent))

    guarded :
        (b : Bool) (cs : List JobCommand) → MovesTo j s cs → MovesTo j s (if b then cs else [])
    guarded true cs h = h
    guarded false cs h = MovesTo-still j s [] (λ old. refl)

    -- registration of a job that has a snapshot writes nothing
    registered_again :
        (r : Registration) (known : Option JobValue)
        → commands_of (register_plan H c r known (decode_state (get db (state j)))) ≡ []
    unfolding decode_state
    registered_again r (some v) = known_sends_nothing H c r none none v _
    registered_again r none = rw held (rw valid (existing_sends_nothing H c r none none s))

    registered : (r : Registration) → MovesTo j s (commands_of (register_body H c r R db))
    unfolding register_body get_state
    registered r = elim (Bool-cases (r.job_id == j)) [
      | inl e ↦
          rw
            (subst
              (λ i.
                commands_of
                  (register_plan H c r (get db (idem_key H c r)) (decode_state (get db (state i))))
                ≡ [])
              (sym ((==_iff r.job_id j).0 e)) (registered_again r _))
            (MovesTo-still j s [] (λ old. refl))
      | inr e ↦ MovesTo-spared j s _ ((register-Spares H c r j e _ _).sent)
    ]

    effects-MovesTo : (call : Call) → spares_key j call ≡ true → MovesTo j s (effects R H c call db)
    unfolding effects get_state transition_body take_over_body retry_body mark_enqueued_body
        mark_synced_body refresh_body release_body discard_member_body discard_missing_body
        discard_orphan_body
    effects-MovesTo (registers r) h = guarded _ _ (registered r)
    effects-MovesTo (transitions id u) h =
        with_state-MovesTo id (λ i. transition_plan c i u) (transition-Moves c j s u)
          (λ e. transition-Spares c id j e u)
    effects-MovesTo (takes_over id expected now) h =
        with_state-MovesTo id
          (λ i. take_over_plan c i expected now (zscore db recovery_pending (job i)))
          (take_over-Moves c j s expected now _) (λ e. take_over-Spares c id j e expected now _)
    effects-MovesTo (retries id now) h =
        with_state-MovesTo id (λ i. retry_plan c i now) (retry-Moves c j s now)
          (λ e. retry-Spares c id j e now)
    effects-MovesTo (marks_enqueued id generation now) h =
        with_state-MovesTo id
          (λ i. mark_enqueued_plan i generation now (zscore db recovery_pending (job i)))
          (mark_enqueued-Moves c j s generation now _)
          (λ e. mark_enqueued-Spares id j e generation now _)
    effects-MovesTo (marks_synced id revision) h =
        with_state-MovesTo id (λ i. mark_synced_plan c i revision)
          (mark_synced-Moves c j s revision) (λ e. mark_synced-Spares c id j e revision)
    effects-MovesTo (acquires id generation token ttl) h =
        guarded (is_none (get db (lease id)))
          (set (lease id) (lease_text generation (H.sha256 token)) ttl ∷ [])
          (MovesTo-still j s _ (λ old. refl))
    effects-MovesTo (refreshes id generation token ttl) h =
        MovesTo-still j s _ (refresh_still j id generation (H.sha256 token) ttl _)
    effects-MovesTo (releases id generation token) h =
        MovesTo-still j s _ (release_still j id generation (H.sha256 token) _)
    effects-MovesTo (discards_malformed index k score) h =
        MovesTo-spared j s _ ((discard_malformed-Spares index k j score _).sent)
    effects-MovesTo (discards_recovery id score) h =
        MovesTo-still j s _ (discard_still j id score _)
    effects-MovesTo (discards_missing id) h =
        own_or_still id (λ i. commands_of (discard_missing_plan i (get db (state i))))
          (rw held (unfold discard_missing_plan in MovesTo-still j s [] (λ old. refl)))
          (λ e. MovesTo-spared j s _ ((discard_missing-Spares id j e _).sent))
    effects-MovesTo (discards_orphan id generation) h =
        own_or_still id
          (λ i. commands_of (
            discard_orphan_plan i generation (get db (state i))
              (zscore db recovery_pending (job i))))
          (rw held (unfold discard_orphan_plan in MovesTo-still j s [] (λ old. refl)))
          (λ e. MovesTo-spared j s _ ((discard_orphan-Spares id j e generation _ _).sent))
    effects-MovesTo (lapses k) h =
        guarded (has_ttl k) (delete k ∷ []) (MovesTo-still j s _ (λ old. ground arith))

  -- The snapshot that a history leaves under a job's key, and how it came from the first.
  pub record Later (j : ℕ) (s : JobState) (db : Db) : Type 0 where
    pub last : JobState
    pub valid : is_valid last ≡ true
    pub held : get db (state j) ≡ some (state_json last)
    pub evolved : Evolves s last

  valid_of :
      (j : ℕ) (db : Db) (s : JobState)
      → IsConsistent R H c j db
      → get db (state j) ≡ some (state_json s)
      → is_valid s ≡ true
  valid_of j db s t held =
      let u : Consistent j (some (state_json s)) (zscore db active (job j))
          (zscore db sync_pending (job j)) =
        rw held at t in
      u.valid

  -- While a job's key does not lapse, its snapshot evolves: identity, creation time and deadline
  -- stay, revision and generation never fall, equal revisions have equal content, and the content
  -- of a success never changes, whatever calls are made for it and for others.
  pub history-Evolves :
      (j : ℕ) (calls : List Call) (db : Db) (s : JobState)
      → IsConsistent R H c j db
      → get db (state j) ≡ some (state_json s)
      → all (spares_key j) calls ≡ true
      → Later j s (history R H c calls db)
  unfolding history
  history-Evolves j [] db s t held h = record {
    last = s;
    valid = valid_of j db s t held;
    held = held;
    evolved = Evolves-refl s;
  }
  history-Evolves j (call ∷ calls) db s t held h =
      let moved = effects-MovesTo j db s (valid_of j db s t held) held call (and_left _ _ h) in
      let seen : get (perform R H c call db) (state j) ≡ some (state_json moved.next) =
        (perform-Sees R H c call db).gets (state j)
        ∙ ap (gets_after (effects R H c call db) (state j)) held
        ∙ moved.holds in
      let later =
        history-Evolves j calls (perform R H c call db) moved.next
          (perform-IsConsistent R H c j db t call) seen (and_right _ _ h) in
      record {
        last = later.last;
        valid = later.valid;
        held = later.held;
        evolved = Evolves-trans moved.evolves later.evolved;
      }

-- ===== src/Store/Tracked/Kept.antt =====
-- Every plan of a job keeps that job's snapshot and its index entries in agreement.
use search_trust_rd.Prelude.{
  ℕ, ◌≤◌, ◌<◌, ◌≡◌, refl, Bool, true, false, Option, none, some, [], ◌∷◌, ◌++◌, leb, Number, whole,
  if◌then◌else◌, ==_refl, negative, infinite, minus_infinite, arith, inl, inr, Bool-cases,
}
use search_trust_rd.Model.{
  JobState, valid_fields, validate_lifecycle, is_valid, terminal, Result, ok,
}
use search_trust_rd.Redis.{
  lease, idempotency, state, request, active, sync_pending, recovery_pending, job, Key, key_eq, set,
  expire, delete, zadd, zrem,
}
use search_trust_rd.Transaction.{commit}
use search_trust_rd.Store.Base.{
  JobValue, state_json, request_json, identity_json, lease_text, decode_state, Hashes, StoreConfig,
  TransitionResult,
}
use search_trust_rd.Store.Register.{Registration, initial_state, register_commands, register_plan}
use search_trust_rd.Store.Transition.{Update, index_commands, transition_next, transition_plan}
use search_trust_rd.Store.Recovery.{
  take_over_commands, take_over_next, take_over_plan, retry_commands, retry_plan, retry_next,
  mark_enqueued_plan,
}
use search_trust_rd.Store.Lease.{refresh_plan, release_plan, holds_lease}
use search_trust_rd.Store.Indexes.{
  discard_member_plan, discard_missing_plan, discard_orphan_plan, still_scored,
}
use search_trust_rd.Store.History.{has_ttl, commands_of}
use search_trust_rd.Store.Callbacks.{mark_synced_plan, synced_revision}
use search_trust_rd.Store.Tracked.{Tracked, Consistent, After, Keeps, keeps_rules}

module _ (c : StoreConfig) (j : ℕ) (s : JobState) (ac sy : Option Number)
    (t : Tracked j s ac sy) where
  transition_commands-Keeps :
      (now : ℕ) (next : JobState) (ended : Bool) (a : TransitionResult)
      → terminal next ≡ ended
      → next.job_id ≡ j
      → is_valid next ≡ true
      → Keeps j s ac sy (
          commit
            (set (state j) (state_json next) c.state_ttl_seconds
              ∷ expire (request j) c.state_ttl_seconds
              ∷ (index_commands ended j now
                  ++ zadd sync_pending (job j) (whole next.revision) ∷ []))
            a)
  transition_commands-Keeps now next true a e own valid = record {
    sent =
        rw ==_refl (record { own = own; valid = valid; active_iff = rw e; unsynced = λ h. refl });
  }
  transition_commands-Keeps now next false a e own valid = record {
    sent =
        rw ==_refl (record { own = own; valid = valid; active_iff = rw e; unsynced = λ h. refl });
  }

  pub transition-Keeps : (u : Update) → Keeps j s ac sy (transition_plan c j u s)
  unfolding transition_plan
  transition-Keeps u =
      let next = transition_next u s in
      search (keeps_rules, transition_commands-Keeps u.now next (terminal next) _ refl t.own)

  take_over_commands-Keeps :
      (now : ℕ) (a : TransitionResult)
      → is_valid (take_over_next now s) ≡ true
      → Keeps j s ac sy (commit (take_over_commands c j now (take_over_next now s)) a)
  unfolding take_over_commands take_over_next terminal
  take_over_commands-Keeps now a valid = record {
    sent =
        rw ==_refl (record { own = t.own; valid = valid; active_iff = refl; unsynced = λ h. refl });
  }

  pub take_over-Keeps :
      (expected now : ℕ) (pending : Option Number)
      → Keeps j s ac sy (take_over_plan c j expected now pending s)
  unfolding take_over_plan
  take_over-Keeps expected now pending = search (keeps_rules, take_over_commands-Keeps now)

  retry_commands-Keeps :
      (now : ℕ) (a : TransitionResult)
      → is_valid (retry_next now s) ≡ true
      → Keeps j s ac sy (commit (retry_commands c j now (retry_next now s)) a)
  unfolding retry_commands retry_next terminal
  retry_commands-Keeps now a valid = record {
    sent =
        rw ==_refl (record { own = t.own; valid = valid; active_iff = refl; unsynced = λ h. refl });
  }

  pub retry-Keeps : (now : ℕ) → Keeps j s ac sy (retry_plan c j now s)
  unfolding retry_plan
  retry-Keeps now = search (keeps_rules, retry_commands-Keeps now)

  -- A receipt is at most the revision, so the snapshot stays valid without a check.
  synced-valid :
      (n : ℕ) → n ≤ s.revision → is_valid (record s { callback_synced_revision = n }) ≡ true
  unfolding is_valid validate_lifecycle valid_fields
  synced-valid n h = ground (arith, t.valid)

  mark_synced_commands-Keeps :
      (n : ℕ) (all : Bool)
      → n ≤ s.revision
      → (n < s.revision → s.callback_synced_revision < s.revision)
      → leb s.revision n ≡ all
      → Keeps j s ac sy (
          commit
            (set
                (state j)
                (state_json (record s { callback_synced_revision = n }))
                c.state_ttl_seconds
              ∷ (if all then zrem sync_pending (job j) ∷ [] else []))
            (record s { callback_synced_revision = n }))
  unfolding terminal
  mark_synced_commands-Keeps n true h older e = record {
    sent = rw ==_refl (record {
      own = t.own;
      valid = synced-valid n h;
      active_iff = t.active_iff;
      unsynced = λ l. absurd (ground arith);
    });
  }
  mark_synced_commands-Keeps n false h older e = record {
    sent = rw ==_refl (record {
      own = t.own;
      valid = synced-valid n h;
      active_iff = t.active_iff;
      unsynced = λ l. t.unsynced (older l);
    });
  }

  pub mark_synced-Keeps : (revision : ℕ) → Keeps j s ac sy (mark_synced_plan c j revision s)
  unfolding mark_synced_plan
  mark_synced-Keeps revision =
      mark_synced_commands-Keeps (synced_revision revision s) _
        (unfold synced_revision in omega arith) (unfold synced_revision in omega arith) refl

  enqueued_commands-Keeps :
      (now : ℕ) (ended : Bool)
      → terminal s ≡ ended
      → Keeps j s ac sy (
          commit
            (zrem recovery_pending (job j)
              ∷ (if ended then [] else zadd active (job j) (whole now) ∷ []))
            true)
  enqueued_commands-Keeps now true e = record { sent = t }
  enqueued_commands-Keeps now false e = record {
    sent =
        rw ==_refl
          (record { own = t.own; valid = t.valid; active_iff = rw e; unsynced = t.unsynced });
  }

  pub mark_enqueued-Keeps :
      (generation now : ℕ) (pending : Option Number)
      → Keeps j s ac sy (mark_enqueued_plan j generation now pending s)
  unfolding mark_enqueued_plan
  mark_enqueued-Keeps generation now none = search keeps_rules
  mark_enqueued-Keeps generation now (some infinite) = search keeps_rules
  mark_enqueued-Keeps generation now (some minus_infinite) = search keeps_rules
  mark_enqueued-Keeps generation now (some (negative k)) = search keeps_rules
  mark_enqueued-Keeps generation now (some _) =
      search (keeps_rules, enqueued_commands-Keeps now (terminal s) refl)

module _ (j : ℕ) (ac sy : Option Number) where
  pub refresh-After :
      (id generation digest ttl : ℕ) (held st : Option JobValue)
      → Consistent j st ac sy
      → After j (commands_of (refresh_plan id generation digest ttl held)) st ac sy
  unfolding refresh_plan
  refresh-After id generation digest ttl held st t =
      elim (Bool-cases (holds_lease generation digest held)) [ inl e ↦ rw e t | inr e ↦ rw e t ]

  pub release-After :
      (id generation digest : ℕ) (held st : Option JobValue)
      → Consistent j st ac sy
      → After j (commands_of (release_plan id generation digest held)) st ac sy
  unfolding release_plan
  release-After id generation digest held st t =
      elim (Bool-cases (holds_lease generation digest held)) [ inl e ↦ rw e t | inr e ↦ rw e t ]

  pub discard_recovery-After :
      (id : ℕ) (expected : Number) (current : Option Number) (st : Option JobValue)
      → Consistent j st ac sy
      → After j
          (commands_of (discard_member_plan recovery_pending (job id) expected current))
          st
          ac
          sy
  unfolding discard_member_plan
  discard_recovery-After id expected current st t =
      elim (Bool-cases (still_scored expected current)) [ inl e ↦ rw e t | inr e ↦ rw e t ]

  -- Index entries are purged only while there is no snapshot.
  pub discard_missing-After :
      (st : Option JobValue)
      → Consistent j st ac sy
      → After j (commands_of (discard_missing_plan j st)) st ac sy
  unfolding discard_missing_plan
  discard_missing-After none t = tt
  discard_missing-After (some v) t = t

  pub discard_orphan-After :
      (generation : ℕ) (pending : Option Number) (st : Option JobValue)
      → Consistent j st ac sy
      → After j (commands_of (discard_orphan_plan j generation st pending)) st ac sy
  unfolding discard_orphan_plan
  discard_orphan-After generation pending (some v) t = t
  discard_orphan-After generation pending none t =
      elim (Bool-cases (still_scored (whole generation) pending)) [
        | inl e ↦ rw e tt
        | inr e ↦ rw e tt
      ]

  -- No index has a TTL, and a snapshot that has lapsed makes no demand.
  delete-After :
      (k : Key) (st : Option JobValue)
      → key_eq k active ≡ false
      → key_eq k sync_pending ≡ false
      → Consistent j st ac sy
      → After j (delete k ∷ []) st ac sy
  delete-After k st a b t = elim (Bool-cases (key_eq k (state j))) [
    | inl e ↦ rw e tt
    | inr e ↦ rw (e, a, b) t
  ]

  pub lapse-After :
      (k : Key) (st : Option JobValue)
      → Consistent j st ac sy
      → After j (if has_ttl k then delete k ∷ [] else []) st ac sy
  lapse-After (request id) st t = delete-After (request id) st refl refl t
  lapse-After (state id) st t = delete-After (state id) st refl refl t
  lapse-After (lease id) st t = delete-After (lease id) st refl refl t
  lapse-After (idempotency case digest) st t = delete-After (idempotency case digest) st refl refl t
  lapse-After _ st t = t

module _ (H : Hashes) (c : StoreConfig) (r : Registration) (ac sy : Option Number) where
  register_commands-After :
      is_valid (initial_state H c r) ≡ true → After r.job_id (register_commands H c r) none ac sy
  unfolding register_commands terminal
  register_commands-After valid = rw ==_refl (record {
    own = unfold initial_state in refl;
    valid = valid;
    active_iff = unfold initial_state in refl;
    unsynced = λ h. refl;
  })

  -- A known idempotency key and a known job make no write.
  pub known_sends_nothing :
      (known : JobValue) (existing : Result (Option JobState))
      → commands_of (register_plan H c r (some known) existing) ≡ []
  unfolding register_plan
  known_sends_nothing known existing = ground arith

  pub existing_sends_nothing :
      (existing : JobState) → commands_of (register_plan H c r none (ok (some existing))) ≡ []
  unfolding register_plan
  existing_sends_nothing existing = ground arith

  pub register-After :
      (known st : Option JobValue)
      → is_valid (initial_state H c r) ≡ true
      → Consistent r.job_id st ac sy
      → After r.job_id (commands_of (register_plan H c r known (decode_state st))) st ac sy
  unfolding decode_state
  register-After (some v) st valid t = rw known_sends_nothing t
  register-After none none valid t = unfold register_plan in register_commands-After valid
  register-After none (some (state_json s)) valid t = rw t.valid (rw existing_sends_nothing t)
  register-After none (some (request_json p)) valid t = absurd t
  register-After none (some (identity_json id case digest)) valid t = absurd t
  register-After none (some (lease_text g d)) valid t = absurd t

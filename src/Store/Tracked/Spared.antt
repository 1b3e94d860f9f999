-- ===== src/Store/Tracked/Spared.antt =====
-- Every plan of a job spares the other jobs.
use search_trust_rd.Prelude.{
  ℕ, ◌≡◌, refl, Bool, true, false, Option, none, some, [], ◌∷◌, ◌++◌, ◌==◌, leb, Number, whole,
  if◌then◌else◌, negative, infinite, minus_infinite, ◌&&◌, arith,
}
use search_trust_rd.Model.{JobState, terminal, Result, ok, err}
use search_trust_rd.Redis.{
  state, request, lease, active, sync_pending, recovery_pending, job, malformed, Key, key_eq, set,
  expire, delete, zadd, zrem,
}
use search_trust_rd.Store.Base.{
  JobValue, state_json, identity_json, lease_text, Hashes, StoreConfig,
}
use search_trust_rd.Store.Register.{Registration, register_commands, register_plan}
use search_trust_rd.Store.Transition.{Update, index_commands, transition_next, transition_plan}
use search_trust_rd.Store.Recovery.{
  take_over_commands, take_over_next, take_over_plan, retry_commands, retry_plan, retry_next,
  mark_enqueued_plan,
}
use search_trust_rd.Store.Callbacks.{mark_synced_plan, synced_revision}
use search_trust_rd.Store.Lease.{refresh_plan, release_plan}
use search_trust_rd.Store.Indexes.{
  discard_missing_plan, discard_orphan_plan, discard_member_plan, missing_commands, orphan_commands,
}
use search_trust_rd.Store.Tracked.{Spares, PlanSpares, PlanSpares-commit, spares_rules}

module _ (c : StoreConfig) (id j : ℕ) (apart : (id == j) ≡ false) where
  transition_commands-Spares :
      (now : ℕ) (next : JobState) (ended : Bool)
      → Spares j (
          set (state id) (state_json next) c.state_ttl_seconds
          ∷ expire (request id) c.state_ttl_seconds
          ∷ (index_commands ended id now ++ zadd sync_pending (job id) (whole next.revision) ∷ []))
  transition_commands-Spares now next true = record {
    snapshot = λ old. rw apart;
    leased = λ old. refl;
    in_active = λ old. rw apart;
    in_sync = λ old. rw apart;
    in_recovery = λ old. rw apart;
  }
  transition_commands-Spares now next false = record {
    snapshot = λ old. rw apart;
    leased = λ old. refl;
    in_active = λ old. rw apart;
    in_sync = λ old. rw apart;
    in_recovery = λ old. refl;
  }

  pub transition-Spares :
      (u : Update) (current : JobState) → PlanSpares j (transition_plan c id u current)
  unfolding transition_plan
  transition-Spares u current = search (
    spares_rules,
    transition_commands-Spares u.now (transition_next u current)
        (terminal (transition_next u current)),
  )

  take_over_commands-Spares :
      (now : ℕ) (next : JobState) → Spares j (take_over_commands c id now next)
  unfolding take_over_commands
  take_over_commands-Spares now next = record {
    snapshot = λ old. rw apart;
    leased = λ old. rw apart;
    in_active = λ old. rw apart;
    in_sync = λ old. rw apart;
    in_recovery = λ old. rw apart;
  }

  pub take_over-Spares :
      (expected now : ℕ) (pending : Option Number) (current : JobState)
      → PlanSpares j (take_over_plan c id expected now pending current)
  unfolding take_over_plan
  take_over-Spares expected now pending current =
      search (spares_rules, take_over_commands-Spares now (take_over_next now current))

  retry_commands-Spares : (now : ℕ) (next : JobState) → Spares j (retry_commands c id now next)
  unfolding retry_commands
  retry_commands-Spares now next = record {
    snapshot = λ old. rw apart;
    leased = λ old. refl;
    in_active = λ old. rw apart;
    in_sync = λ old. rw apart;
    in_recovery = λ old. refl;
  }

  pub retry-Spares : (now : ℕ) (current : JobState) → PlanSpares j (retry_plan c id now current)
  unfolding retry_plan
  retry-Spares now current =
      search (spares_rules, retry_commands-Spares now (retry_next now current))

  mark_synced_commands-Spares :
      (next : JobState) (all : Bool)
      → Spares j (
          set (state id) (state_json next) c.state_ttl_seconds
          ∷ (if all then zrem sync_pending (job id) ∷ [] else []))
  mark_synced_commands-Spares next true = record {
    snapshot = λ old. rw apart;
    leased = λ old. refl;
    in_active = λ old. refl;
    in_sync = λ old. rw apart;
    in_recovery = λ old. refl;
  }
  mark_synced_commands-Spares next false = record {
    snapshot = λ old. rw apart;
    leased = λ old. refl;
    in_active = λ old. refl;
    in_sync = λ old. refl;
    in_recovery = λ old. refl;
  }

  pub mark_synced-Spares :
      (revision : ℕ) (current : JobState) → PlanSpares j (mark_synced_plan c id revision current)
  unfolding mark_synced_plan
  mark_synced-Spares revision current = PlanSpares-commit j _ _ (
      mark_synced_commands-Spares
        (record current { callback_synced_revision = synced_revision revision current })
        (leb current.revision (synced_revision revision current)))

module _ (id j : ℕ) (apart : (id == j) ≡ false) where
  enqueued_commands-Spares :
      (now : ℕ) (ended : Bool)
      → Spares j (
          zrem recovery_pending (job id)
          ∷ (if ended then [] else zadd active (job id) (whole now) ∷ []))
  enqueued_commands-Spares now true = record {
    snapshot = λ old. refl;
    leased = λ old. refl;
    in_active = λ old. refl;
    in_sync = λ old. refl;
    in_recovery = λ old. rw apart;
  }
  enqueued_commands-Spares now false = record {
    snapshot = λ old. refl;
    leased = λ old. refl;
    in_active = λ old. rw apart;
    in_sync = λ old. refl;
    in_recovery = λ old. rw apart;
  }

  pub mark_enqueued-Spares :
      (generation now : ℕ) (pending : Option Number) (current : JobState)
      → PlanSpares j (mark_enqueued_plan id generation now pending current)
  unfolding mark_enqueued_plan
  mark_enqueued-Spares generation now none current = search spares_rules
  mark_enqueued-Spares generation now (some infinite) current = search spares_rules
  mark_enqueued-Spares generation now (some minus_infinite) current = search spares_rules
  mark_enqueued-Spares generation now (some (negative k)) current = search spares_rules
  mark_enqueued-Spares generation now (some _) current =
      search (spares_rules, enqueued_commands-Spares now (terminal current))

  refresh_commands-Spares : (ttl : ℕ) → Spares j (expire (lease id) ttl ∷ [])
  refresh_commands-Spares ttl = record {
    snapshot = λ old. refl;
    leased = λ old. rw apart;
    in_active = λ old. refl;
    in_sync = λ old. refl;
    in_recovery = λ old. refl;
  }

  delete_lease-Spares : Spares j (delete (lease id) ∷ [])
  delete_lease-Spares = record {
    snapshot = λ old. refl;
    leased = λ old. rw apart;
    in_active = λ old. refl;
    in_sync = λ old. refl;
    in_recovery = λ old. refl;
  }

  pub refresh-Spares :
      (generation digest ttl : ℕ) (held : Option JobValue)
      → PlanSpares j (refresh_plan id generation digest ttl held)
  unfolding refresh_plan
  refresh-Spares generation digest ttl held = search (spares_rules, refresh_commands-Spares)

  pub release-Spares :
      (generation digest : ℕ) (held : Option JobValue)
      → PlanSpares j (release_plan id generation digest held)
  unfolding release_plan
  release-Spares generation digest held = search (spares_rules, delete_lease-Spares)

  pub acquire-Spares :
      (generation digest ttl : ℕ)
      → Spares j (set (lease id) (lease_text generation digest) ttl ∷ [])
  acquire-Spares generation digest ttl = record {
    snapshot = λ old. refl;
    leased = λ old. rw apart;
    in_active = λ old. refl;
    in_sync = λ old. refl;
    in_recovery = λ old. refl;
  }

  missing_commands-Spares : Spares j (missing_commands id)
  missing_commands-Spares = record {
    snapshot = λ old. refl;
    leased = λ old. rw apart;
    in_active = λ old. rw apart;
    in_sync = λ old. rw apart;
    in_recovery = λ old. rw apart;
  }

  orphan_commands-Spares : Spares j (orphan_commands id)
  orphan_commands-Spares = record {
    snapshot = λ old. refl;
    leased = λ old. rw apart;
    in_active = λ old. rw apart;
    in_sync = λ old. rw apart;
    in_recovery = λ old. rw apart;
  }

  pub discard_missing-Spares :
      (held : Option JobValue) → PlanSpares j (discard_missing_plan id held)
  unfolding discard_missing_plan
  discard_missing-Spares held = search (spares_rules, missing_commands-Spares)

  pub discard_orphan-Spares :
      (generation : ℕ) (held : Option JobValue) (pending : Option Number)
      → PlanSpares j (discard_orphan_plan id generation held pending)
  unfolding discard_orphan_plan
  discard_orphan-Spares generation held pending = search (spares_rules, orphan_commands-Spares)

  discard_commands-Spares : Spares j (zrem recovery_pending (job id) ∷ [])
  discard_commands-Spares = record {
    snapshot = λ old. refl;
    leased = λ old. refl;
    in_active = λ old. refl;
    in_sync = λ old. refl;
    in_recovery = λ old. rw apart;
  }

  pub discard_recovery-Spares :
      (expected : Number) (current : Option Number)
      → PlanSpares j (discard_member_plan recovery_pending (job id) expected current)
  unfolding discard_member_plan
  discard_recovery-Spares expected current = search (spares_rules, discard_commands-Spares)

-- A member that is no job's id belongs to no job.
key_and_false : (a : Key) (b : Key) → (key_eq a b && false) ≡ false
key_and_false a b = ground arith

malformed_commands-Spares : (index : Key) (k j : ℕ) → Spares j (zrem index (malformed k) ∷ [])
malformed_commands-Spares index k j = record {
  snapshot = λ old. refl;
  leased = λ old. refl;
  in_active = λ old. rw key_and_false;
  in_sync = λ old. rw key_and_false;
  in_recovery = λ old. rw key_and_false;
}

pub discard_malformed-Spares :
    (index : Key) (k j : ℕ) (expected : Number) (current : Option Number)
    → PlanSpares j (discard_member_plan index (malformed k) expected current)
unfolding discard_member_plan
discard_malformed-Spares index k j expected current =
    search (spares_rules, malformed_commands-Spares)

-- Registration
module _ (H : Hashes) (c : StoreConfig) (r : Registration) (j : ℕ)
    (apart : (r.job_id == j) ≡ false) where
  register_commands-Spares : Spares j (register_commands H c r)
  unfolding register_commands
  register_commands-Spares = record {
    snapshot = λ old. rw apart;
    leased = λ old. refl;
    in_active = λ old. rw apart;
    in_sync = λ old. rw apart;
    in_recovery = λ old. refl;
  }

  pub register-Spares :
      (known : Option JobValue) (existing : Result (Option JobState))
      → PlanSpares j (register_plan H c r known existing)
  unfolding register_plan
  register-Spares none (err e) = search spares_rules
  register-Spares none (ok none) = search (spares_rules, register_commands-Spares)
  register-Spares none (ok (some s)) = search spares_rules
  register-Spares (some (identity_json id case digest)) (err e) = search spares_rules
  register-Spares (some (identity_json id case digest)) (ok none) = search spares_rules
  register-Spares (some (identity_json id case digest)) (ok (some s)) = search spares_rules
  register-Spares (some _) existing = search spares_rules

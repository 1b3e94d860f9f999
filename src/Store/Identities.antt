-- ===== src/Store/Identities.antt =====
-- The identity under an idempotency key: which plans of app/jobs_v22/store.py leave it alone.
pub mod Histories
use mathlib.Core.Path.{ap₂}
use search_trust_rd.Store.Tracked.Kept.{known_sends_nothing, existing_sends_nothing}
use search_trust_rd.Prelude.{
  whole, ℕ, ◌≡◌, ==_iff, refl, ◌∙◌, ap, Bool, true, false, ◌&&◌, not, Option, none, some, ◌++◌,
  List, [], ◌∷◌, all, is_none, if◌then◌else◌, arith, Number, Bool-cases, inl, inr,
}
use search_trust_rd.Model.{JobState, is_valid, terminal, Result, ok, err, job_not_found}
use search_trust_rd.Redis.{
  expire, zrem, Member, zadd, sync_pending, Key, Redis, key_eq, gets_after, idempotency, state,
  lease, recovery_pending, job, malformed, set, delete,
}
use search_trust_rd.Transaction.{stop, commit}
use search_trust_rd.Store.Base.{
  TransitionResult, JobValue, lease_text, Hashes, StoreConfig, JobCommand, JobPlan, get_state,
  with_state, revalidated,
}
use search_trust_rd.Store.Register.{
  Registration, idem_key, initial_state, register_plan, register_commands, register_body,
}
use search_trust_rd.Store.Transition.{
  Update, index_commands, transition_commands, transition_next, transition_plan, transition_body,
}
use search_trust_rd.Store.Recovery.{
  take_over_next, retry_next, close_pending, take_over_commands, take_over_plan, take_over_body,
  retry_commands, retry_plan, retry_body, enqueued_commands, enqueued_generation,
  mark_enqueued_plan, mark_enqueued_body,
}
use search_trust_rd.Store.Callbacks.{mark_synced_commands, mark_synced_plan, mark_synced_body}
use search_trust_rd.Store.Lease.{refresh_plan, refresh_body, release_plan, release_body}
use search_trust_rd.Store.Indexes.{
  missing_commands, orphan_commands, discard_member_plan, discard_member_body, discard_missing_plan,
  discard_missing_body, discard_orphan_plan, discard_orphan_body,
}
use search_trust_rd.Store.History.{
  Call, registers, transitions, takes_over, retries, marks_enqueued, marks_synced, acquires,
  refreshes, releases, discards_malformed, discards_recovery, discards_missing, discards_orphan,
  lapses, has_ttl, commands_of, perform, history, effects, perform-Sees,
}

module _ (case digest : ℕ) where
  abbrev pub identity : Key
  identity = idempotency case digest

  -- The commands leave what GET of the identity returns.
  pub record IsStill (cs : List JobCommand) : Type 0 where
    pub gets : (old : Option JobValue) → gets_after cs identity old ≡ old

  pub record IsQuiet {A : Type 0} (plan : JobPlan A) : Type 0 where
    pub sent : IsStill (commands_of plan)

  module _ {A : Type 0} where
    IsQuiet-stop : (r : Result A) → IsQuiet (stop r)
    IsQuiet-stop r = record { sent = record { gets = λ old. refl } }

    IsQuiet-commit : (cs : List JobCommand) (a : A) → IsStill cs → IsQuiet (commit cs a)
    IsQuiet-commit cs a h = record { sent = h }

    IsQuiet-if : (b : Bool) (p q : JobPlan A) → IsQuiet p → IsQuiet q → IsQuiet (if b then p else q)
    IsQuiet-if true p q hp hq = hp
    IsQuiet-if false p q hp hq = hq

    pub IsQuiet-state :
        (found : Result (Option JobState)) (k : JobState → JobPlan A)
        → ((s : JobState) → IsQuiet (k s))
        → IsQuiet (with_state found k)
    unfolding with_state
    IsQuiet-state (err e) k h = IsQuiet-stop (err e)
    IsQuiet-state (ok none) k h = IsQuiet-stop (err job_not_found)
    IsQuiet-state (ok (some s)) k h = h s

  ruleset quiet_rules = (IsQuiet-stop, IsQuiet-commit, IsQuiet-if)

  pub IsStill-when : (b : Bool) (cs : List JobCommand) → IsStill cs → IsStill (if b then cs else [])
  IsStill-when true cs h = h
  IsStill-when false cs h = record { gets = λ old. refl }

  IsStill-indexes :
      (b : Bool) (id now : ℕ) (cs : List JobCommand)
      → IsStill cs
      → IsStill (index_commands b id now ++ cs)
  IsStill-indexes true id now cs h = record { gets = h.gets }
  IsStill-indexes false id now cs h = record { gets = h.gets }

  IsStill-transition :
      (c : StoreConfig) (id now : ℕ) (s : JobState) → IsStill (transition_commands c id now s)
  unfolding transition_commands
  IsStill-transition c id now s = record {
    gets =
        (IsStill-indexes (terminal s) id now (zadd sync_pending (job id) (whole s.revision) ∷ [])
          record { gets = λ old. refl }).gets;
  }

  pub IsQuiet-transition :
      (c : StoreConfig) (id : ℕ) (u : Update) (s : JobState) → IsQuiet (transition_plan c id u s)
  unfolding transition_plan
  IsQuiet-transition c id u s =
      search (quiet_rules, IsStill-transition c id u.now (transition_next u s))

  IsStill-take_over :
      (c : StoreConfig) (id now : ℕ) (s : JobState) → IsStill (take_over_commands c id now s)
  unfolding take_over_commands
  IsStill-take_over c id now s = record { gets = λ old. refl }

  pub IsQuiet-take_over :
      (c : StoreConfig) (id expected now : ℕ) (pending : Option Number) (s : JobState)
      → IsQuiet (take_over_plan c id expected now pending s)
  unfolding take_over_plan
  IsQuiet-take_over c id expected now pending s =
      search (quiet_rules, IsStill-take_over c id now (take_over_next now s))

  IsStill-retry :
      (c : StoreConfig) (id now : ℕ) (s : JobState) → IsStill (retry_commands c id now s)
  unfolding retry_commands
  IsStill-retry c id now s = record { gets = λ old. refl }

  pub IsQuiet-retry :
      (c : StoreConfig) (id now : ℕ) (s : JobState) → IsQuiet (retry_plan c id now s)
  unfolding retry_plan
  IsQuiet-retry c id now s = search (quiet_rules, IsStill-retry c id now (retry_next now s))

  IsStill-enqueued : (id now : ℕ) (s : JobState) → IsStill (enqueued_commands id now s)
  unfolding enqueued_commands
  IsStill-enqueued id now s = record { gets = λ old. ground arith }

  IsQuiet-close :
      (id generation now : ℕ) (r : Result (Option ℕ)) (s : JobState)
      → IsQuiet (close_pending id generation now r s)
  IsQuiet-close id generation now (err e) s = IsQuiet-stop (err e)
  IsQuiet-close id generation now (ok pending) s = search (quiet_rules, IsStill-enqueued id now s)

  pub IsQuiet-mark_enqueued :
      (id generation now : ℕ) (pending : Option Number) (s : JobState)
      → IsQuiet (mark_enqueued_plan id generation now pending s)
  unfolding mark_enqueued_plan
  IsQuiet-mark_enqueued id generation now none s = IsQuiet-stop (ok false)
  IsQuiet-mark_enqueued id generation now (some score) s =
      IsQuiet-close id generation now (enqueued_generation score) s

  IsStill-synced :
      (c : StoreConfig) (id revision : ℕ) (s : JobState)
      → IsStill (mark_synced_commands c id revision s)
  unfolding mark_synced_commands
  IsStill-synced c id revision s = record { gets = λ old. ground arith }

  pub IsQuiet-mark_synced :
      (c : StoreConfig) (id revision : ℕ) (s : JobState)
      → IsQuiet (mark_synced_plan c id revision s)
  unfolding mark_synced_plan
  IsQuiet-mark_synced c id revision s = search (quiet_rules, IsStill-synced c id revision s)

  IsStill-delete : (id : ℕ) → IsStill (delete (lease id) ∷ [])
  IsStill-delete id = record { gets = λ old. refl }

  IsStill-expire : (id ttl : ℕ) → IsStill (expire (lease id) ttl ∷ [])
  IsStill-expire id ttl = record { gets = λ old. refl }

  pub IsQuiet-refresh :
      (id generation token ttl : ℕ) (held : Option JobValue)
      → IsQuiet (refresh_plan id generation token ttl held)
  unfolding refresh_plan
  IsQuiet-refresh id generation token ttl held = search (quiet_rules, IsStill-expire id ttl)

  pub IsQuiet-release :
      (id generation token : ℕ) (held : Option JobValue)
      → IsQuiet (release_plan id generation token held)
  unfolding release_plan
  IsQuiet-release id generation token held = search (quiet_rules, IsStill-delete id)

  IsStill-zrem : (index : Key) (member : Member) → IsStill (zrem index member ∷ [])
  IsStill-zrem index member = record { gets = λ old. refl }

  pub IsQuiet-discard :
      (index : Key) (member : Member) (expected : Number) (current : Option Number)
      → IsQuiet (discard_member_plan index member expected current)
  unfolding discard_member_plan
  IsQuiet-discard index member expected current = search (quiet_rules, IsStill-zrem index member)

  IsStill-missing : (id : ℕ) → IsStill (missing_commands id)
  IsStill-missing id = record { gets = λ old. refl }

  IsStill-orphan : (id : ℕ) → IsStill (orphan_commands id)
  IsStill-orphan id = record { gets = λ old. refl }

  pub IsQuiet-missing : (id : ℕ) (held : Option JobValue) → IsQuiet (discard_missing_plan id held)
  unfolding discard_missing_plan
  IsQuiet-missing id held = search (quiet_rules, IsStill-missing id)

  pub IsQuiet-orphan :
      (id generation : ℕ) (held : Option JobValue) (pending : Option Number)
      → IsQuiet (discard_orphan_plan id generation held pending)
  unfolding discard_orphan_plan
  IsQuiet-orphan id generation held pending = search (quiet_rules, IsStill-orphan id)

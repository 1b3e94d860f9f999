-- ===== src/Store/Identities/Histories.antt =====
-- Histories of store calls (app/jobs_v22/store.py) leave a held identity alone.
use mathlib.Core.Path.{ap₂}
use search_trust_rd.Store.Tracked.Kept.{known_sends_nothing, existing_sends_nothing}
use search_trust_rd.Prelude.{
  ℕ, ◌≡◌, ==_iff, refl, ◌∙◌, Bool, true, false, ◌&&◌, not, Option, none, some, List, [], ◌∷◌, all,
  is_none, arith, Bool-cases, inl, inr,
}
use search_trust_rd.Model.{JobState, is_valid, Result, ok, err}
use search_trust_rd.Redis.{
  Redis, key_eq, gets_after, idempotency, lease, recovery_pending, job, malformed, set,
}
use search_trust_rd.Store.Base.{JobValue, lease_text, Hashes, StoreConfig, get_state}
use search_trust_rd.Store.Register.{
  Registration, idem_key, initial_state, register_plan, register_commands, register_body,
}
use search_trust_rd.Store.Transition.{transition_body}
use search_trust_rd.Store.Recovery.{take_over_body, retry_body, mark_enqueued_body}
use search_trust_rd.Store.Callbacks.{mark_synced_body}
use search_trust_rd.Store.Lease.{refresh_body, release_body}
use search_trust_rd.Store.Indexes.{discard_member_body, discard_missing_body, discard_orphan_body}
use search_trust_rd.Store.History.{
  Call, registers, transitions, takes_over, retries, marks_enqueued, marks_synced, acquires,
  refreshes, releases, discards_malformed, discards_recovery, discards_missing, discards_orphan,
  lapses, commands_of, perform, history, effects, perform-Sees,
}
use search_trust_rd.Store.Identities.{
  identity, IsStill-when, IsQuiet-state, IsQuiet-transition, IsQuiet-take_over, IsQuiet-retry,
  IsQuiet-mark_enqueued, IsQuiet-mark_synced, IsQuiet-refresh, IsQuiet-release, IsQuiet-discard,
  IsQuiet-missing, IsQuiet-orphan,
}

and_left : (a b : Bool) → (a && b) ≡ true → a ≡ true
and_left a b h = ground arith

and_right : (a b : Bool) → (a && b) ≡ true → b ≡ true
and_right a b h = ground arith

-- The call is not the lapse of this identity.
abbrev pub spares_identity : ℕ → ℕ → Call → Bool
spares_identity case digest (lapses k) = not (key_eq k (idempotency case digest))
spares_identity case digest _ = true

module _ (case digest : ℕ) (R : Redis JobValue) (H : Hashes) (c : StoreConfig) where
  open R use {Db, get, zscore}

  quiet_registration :
      (r : Registration)
      → key_eq (idem_key H c r) (identity case digest) ≡ false
      → (old : Option JobValue)
      → gets_after (register_commands H c r) (identity case digest) old ≡ old
  unfolding register_commands
  quiet_registration r apart old = rw apart refl

  -- A registration under this identity finds it, and sends nothing.
  quiet_register :
      (r : Registration) (known : Option JobValue) (existing : Result (Option JobState))
      (v : JobValue) (old : Option JobValue)
      → (key_eq (idem_key H c r) (identity case digest) ≡ true → known ≡ some v)
      → gets_after (commands_of (register_plan H c r known existing)) (identity case digest) old
        ≡ old
  quiet_register r (some k) existing v old h =
      rw (known_sends_nothing H c r none none k existing) refl
  quiet_register r none existing v old h =
      elim (Bool-cases (key_eq (idem_key H c r) (identity case digest))) [
        | inl same ↦ absurd (let found : none ≡ some v = h same in cc)
        | inr apart ↦ new_identity existing apart
      ]
    where
      new_identity :
          (existing : Result (Option JobState))
          → key_eq (idem_key H c r) (identity case digest) ≡ false
          → gets_after (commands_of (register_plan H c r none existing)) (identity case digest) old
            ≡ old
      new_identity (err e) apart = unfold register_plan in refl
      new_identity (ok none) apart = unfold register_plan in quiet_registration r apart old
      new_identity (ok (some s)) apart = rw (existing_sends_nothing H c r none none s) refl

  same_identity :
      (r : Registration) (db : Db) (v : JobValue)
      → get db (identity case digest) ≡ some v
      → key_eq (idem_key H c r) (identity case digest) ≡ true
      → get db (idem_key H c r) ≡ some v
  same_identity r db v held e =
      let same_case : r.case_id ≡ case = (==_iff r.case_id case).0 (and_left _ _ e) in
      let same_key : H.sha256 r.idempotency_key ≡ digest =
        (==_iff (H.sha256 r.idempotency_key) digest).0 (and_right _ _ e) in
      ap₂ (λ a b. get db (idempotency a b)) same_case same_key ∙ held

  effects-IsQuiet :
      (call : Call) (db : Db) (v : JobValue)
      → get db (identity case digest) ≡ some v
      → spares_identity case digest call ≡ true
      → (old : Option JobValue)
      → gets_after (effects R H c call db) (identity case digest) old ≡ old
  unfolding effects get_state register_body transition_body take_over_body retry_body
      mark_enqueued_body mark_synced_body refresh_body release_body discard_member_body
      discard_missing_body discard_orphan_body
  effects-IsQuiet (registers r) db v held h old =
      (IsStill-when case digest (is_valid (initial_state H c r))
          (commands_of (register_body H c r R db))
          record {
            gets =
                λ o. quiet_register r (get db (idem_key H c r)) _ v o (same_identity r db v held);
          }).gets
        old
  effects-IsQuiet (transitions id u) db v held h old =
      (IsQuiet-state case digest _ _ (IsQuiet-transition case digest c id u)).sent.gets old
  effects-IsQuiet (takes_over id expected now) db v held h old =
      (IsQuiet-state case digest _ _ (IsQuiet-take_over case digest c id expected now _)).sent.gets
        old
  effects-IsQuiet (retries id now) db v held h old =
      (IsQuiet-state case digest _ _ (IsQuiet-retry case digest c id now)).sent.gets old
  effects-IsQuiet (marks_enqueued id generation now) db v held h old =
      (IsQuiet-state case digest _ _
          (IsQuiet-mark_enqueued case digest id generation now _)).sent.gets
        old
  effects-IsQuiet (marks_synced id revision) db v held h old =
      (IsQuiet-state case digest _ _ (IsQuiet-mark_synced case digest c id revision)).sent.gets old
  effects-IsQuiet (acquires id generation token ttl) db v held h old =
      (IsStill-when case digest (is_none (get db (lease id)))
          (set (lease id) (lease_text generation (H.sha256 token)) ttl ∷ [])
          record { gets = λ o. refl }).gets
        old
  effects-IsQuiet (refreshes id generation token ttl) db v held h old =
      (IsQuiet-refresh case digest id generation (H.sha256 token) ttl _).sent.gets old
  effects-IsQuiet (releases id generation token) db v held h old =
      (IsQuiet-release case digest id generation (H.sha256 token) _).sent.gets old
  effects-IsQuiet (discards_malformed index k score) db v held h old =
      (IsQuiet-discard case digest index (malformed k) score _).sent.gets old
  effects-IsQuiet (discards_recovery id score) db v held h old =
      (IsQuiet-discard case digest recovery_pending (job id) score _).sent.gets old
  effects-IsQuiet (discards_missing id) db v held h old =
      (IsQuiet-missing case digest id _).sent.gets old
  effects-IsQuiet (discards_orphan id generation) db v held h old =
      (IsQuiet-orphan case digest id generation _ _).sent.gets old
  effects-IsQuiet (lapses k) db v held h old = ground arith

  -- An identity that is held stays as it is until it lapses, whatever calls are made.
  pub history-identity :
      (calls : List Call) (db : Db) (v : JobValue)
      → get db (identity case digest) ≡ some v
      → all (spares_identity case digest) calls ≡ true
      → get (history R H c calls db) (identity case digest) ≡ some v
  unfolding history
  history-identity [] db v held h = held
  history-identity (call ∷ calls) db v held h =
      history-identity calls (perform R H c call db) v
        ((perform-Sees R H c call db).gets (identity case digest)
          ∙ effects-IsQuiet call db v held (and_left _ _ h) _
          ∙ held)
        (and_right _ _ h)

-- ===== src/Store/Watched.antt =====
-- Each transaction decides by the keys that it watches and by nothing else, which is what
-- Transaction.antt needs to know of it.
use mathlib.Core.Path.{ap₂}
use search_trust_rd.Prelude.{ℕ, String, [], ◌∷◌, ap, Number}
use search_trust_rd.Redis.{Key, Member, Redis, job, state, active, sync_pending, recovery_pending}
use search_trust_rd.Transaction.{ReadsOnly}
use search_trust_rd.Store.Base.{JobValue, Hashes, StoreConfig, get_state, decode_state, with_state}
use search_trust_rd.Store.Register.{Registration, register_watched, register_plan, register_body}
use search_trust_rd.Store.Transition.{Update, transition_watched, transition_plan, transition_body}
use search_trust_rd.Store.Recovery.{
  recovery_watched, retry_watched, take_over_plan, take_over_body, retry_plan, retry_body,
  mark_enqueued_plan, mark_enqueued_body,
}
use search_trust_rd.Store.Callbacks.{synced_watched, mark_synced_plan, mark_synced_body}
use search_trust_rd.Store.Lease.{
  lease_watched, refresh_plan, refresh_body, release_plan, release_body,
}
use search_trust_rd.Store.Indexes.{
  discard_member_plan, discard_member_body, discard_missing_plan, discard_missing_body,
  discard_orphan_plan, discard_orphan_body,
}

module _ (R : Redis JobValue) (H : Hashes) (c : StoreConfig) where
  open R use {Db}

  -- Every transaction of the store reads only keys that it has put under WATCH: registration,
  -- transition, takeover, retry, the end of a recovery, the callback receipt, the renewal and the
  -- release of a lease, and the three removals of index entries.
  pub transactions_watch :
      (r : Registration) (u : Update) (id generation now revision ttl : ℕ) (token : String)
      (index : Key) (member : Member) (score : Number)
      → ReadsOnly R (register_watched H c r) (register_body H c r R)
        × ReadsOnly R (transition_watched id) (transition_body R c id u)
        × ReadsOnly R (recovery_watched id) (take_over_body R c id generation now)
        × ReadsOnly R (retry_watched id) (retry_body R c id now)
        × ReadsOnly R (recovery_watched id) (mark_enqueued_body R c id generation now)
        × ReadsOnly R (synced_watched id) (mark_synced_body R c id revision)
        × ReadsOnly R (lease_watched id) (refresh_body R H id generation token ttl)
        × ReadsOnly R (lease_watched id) (release_body R H id generation token)
        × ReadsOnly R (index ∷ []) (discard_member_body R index member score)
        × ReadsOnly R
            (state id ∷ active ∷ sync_pending ∷ recovery_pending ∷ [])
            (discard_missing_body R id)
        × ReadsOnly R (state id ∷ recovery_pending ∷ []) (discard_orphan_body R id generation)
  unfolding register_body transition_body take_over_body retry_body mark_enqueued_body
      mark_synced_body refresh_body release_body discard_member_body discard_missing_body
      discard_orphan_body get_state
  transactions_watch r u id generation now revision ttl token index member score = (
    (λ a b s. ap₂ (λ known st. register_plan H c r known (decode_state st)) s.0.0 s.1.0.0),
    (λ a b s. ap (λ st. with_state (decode_state st) (transition_plan c id u)) s.0.0),
    (λ a b s.
        ap₂ (λ st z. with_state (decode_state st) (take_over_plan c id generation now z)) s.0.0
          (s.1.0.1 (job id))),
    (λ a b s. ap (λ st. with_state (decode_state st) (retry_plan c id now)) s.0.0),
    (λ a b s.
        ap₂ (λ st z. with_state (decode_state st) (mark_enqueued_plan id generation now z)) s.0.0
          (s.1.0.1 (job id))),
    (λ a b s. ap (λ st. with_state (decode_state st) (mark_synced_plan c id revision)) s.0.0),
    (λ a b s. ap (refresh_plan id generation (H.sha256 token) ttl) s.0.0),
    (λ a b s. ap (release_plan id generation (H.sha256 token)) s.0.0),
    (λ a b s. ap (discard_member_plan index member score) (s.0.1 member)),
    (λ a b s. ap (discard_missing_plan id) s.0.0),
    (λ a b s. ap₂ (discard_orphan_plan id generation) s.0.0 (s.1.0.1 (job id))),
  )

-- ===== src/Store/Replay.antt =====
-- Registration under an idempotency key that is in use.
use mathlib.Core.Path.{ap₂}
use search_trust_rd.Prelude.{
  ℕ, ◌≡◌, refl, ◌∙◌, Bool, true, false, not, Option, some, List, ◌∷◌, all, [], ◌==◌, inl, inr,
  Bool-cases, ==_refl, ==_iff, if◌then◌else◌, arith,
}
use search_trust_rd.Model.{
  JobState, is_valid, Result, ok, err, idempotency_conflict, job_identity_conflict,
  validation_error,
}
use search_trust_rd.Redis.{Redis, state, idempotency}
use search_trust_rd.Transaction.{stop, settle, attempt}
use search_trust_rd.Store.Base.{
  JobValue, state_json, identity_json, Hashes, request_digest, StoreConfig, TransitionResult,
  get_state, decode_state, announce,
}
use search_trust_rd.Store.Register.{
  Registration, initial_state, idem_key, register_commands, register_plan, register_body,
  register_job,
}
use search_trust_rd.Store.Tracked.Histories.{IsConsistent, history-IsConsistent}
use search_trust_rd.Store.Evolved.{Evolves}
use search_trust_rd.Store.Evolved.Histories.{spares_key, history-Evolves}
use search_trust_rd.Store.Identities.Histories.{spares_identity, history-identity}
use search_trust_rd.Store.History.{
  Call, history, registers, commands_of, effects, perform, perform-Sees,
}

module _ (R : Redis JobValue) (H : Hashes) (c : StoreConfig) where
  open R use {Db, get}

  -- A registration that was applied has sent its commands.
  applied_plan :
      (r : Registration) (known : Option JobValue) (existing : Result (Option JobState)) (db : Db)
      (t : TransitionResult)
      → (announce R r.job_id (settle R (register_plan H c r known existing) db)).0 ≡ ok t
      → t.applied ≡ true
      → commands_of (register_plan H c r known existing) ≡ register_commands H c r
  unfolding register_plan settle announce
  applied_plan r known existing db t e a = ground arith

  applied_effects :
      (r : Registration) (db : Db) (t : TransitionResult)
      → (register_job H c r R [] db).0 ≡ ok t
      → t.applied ≡ true
      → (is_valid (initial_state H c r) ≡ true)
        × (effects R H c (registers r) db ≡ register_commands H c r)
  unfolding register_job effects attempt register_body
  applied_effects r db t e a = elim (Bool-cases (is_valid (initial_state H c r))) [
    | inl v ↦ (v, rw v (applied_plan r _ _ db t (rw v at e) a))
    | inr v ↦ absurd (not_applied (rw v at e))
  ]
    where
      not_applied : err validation_error ≡ ok t → ⊥
      not_applied h = cc

  -- What the two keys hold after an applied registration.
  registered :
      (r : Registration) (db : Db) (t : TransitionResult)
      → (register_job H c r R [] db).0 ≡ ok t
      → t.applied ≡ true
      → (get (register_job H c r R [] db).1 (idem_key H c r)
          ≡ some (identity_json r.job_id r.case_id (request_digest H r.request_payload)))
        × (get (register_job H c r R [] db).1 (state r.job_id)
            ≡ some (state_json (initial_state H c r)))
  unfolding perform register_commands
  registered r db t e a =
      let seen = perform-Sees R H c (registers r) db in
      let sent = (applied_effects r db t e a).1 in
      (
        seen.gets (idem_key H c r) ∙ rw sent (simp ==_refl),
        seen.gets (state r.job_id) ∙ rw sent (simp ==_refl),
      )

  known_plan :
      (q : Registration) (id case digest : ℕ) (existing : Result (Option JobState)) (s : JobState)
      → ((id == q.job_id) ≡ true → existing ≡ ok (some s))
      → register_plan H c q (some (identity_json id case digest)) existing
        ≡ stop (
            if not (digest == request_digest H q.request_payload)
            then err idempotency_conflict
            else if not (id == q.job_id)
            then err job_identity_conflict
            else ok (record { state = s; applied = false }))
  unfolding register_plan
  known_plan q id case digest existing s h =
      elim (Bool-cases (digest == request_digest H q.request_payload)) [
        | inl d ↦ elim (Bool-cases (id == q.job_id)) [ inl e ↦ rw (d, e, h e) | inr e ↦ rw (d, e) ]
        | inr d ↦ rw d
      ]

  found :
      (db : Db) (id k : ℕ) (s : JobState)
      → is_valid s ≡ true
      → get db (state id) ≡ some (state_json s)
      → (id == k) ≡ true
      → get_state R k db ≡ ok (some s)
  unfolding get_state decode_state
  found db id k s valid held e = rw (← (==_iff id k).0 e) (rw held (rw valid))

  announce_stop :
      (id : ℕ) (b d : Bool) (s : JobState) (db : Db)
      → announce R id (
        if b
            then err idempotency_conflict
            else if d
            then err job_identity_conflict
            else ok (record { state = s; applied = false }),
        db,
      )
        ≡ (
          if b
              then err idempotency_conflict
              else if d
              then err job_identity_conflict
              else ok (record { state = s; applied = false }),
          db,
        )
  unfolding announce
  announce_stop id true d s db = refl
  announce_stop id false true s db = refl
  announce_stop id false false s db = refl

  register_known :
      (q : Registration) (db : Db) (id digest : ℕ) (s : JobState)
      → is_valid (initial_state H c q) ≡ true
      → (case : ℕ) → get db (idem_key H c q) ≡ some (identity_json id case digest)
      → is_valid s ≡ true
      → get db (state id) ≡ some (state_json s)
      → register_job H c q R [] db ≡ (
        if not (digest == request_digest H q.request_payload)
            then err idempotency_conflict
            else if not (id == q.job_id)
            then err job_identity_conflict
            else ok (record { state = s; applied = false }),
        db,
      )
  unfolding register_job attempt register_body settle
  register_known q db id digest s v case known valid held =
      rw
        (
          v,
          known,
          known_plan q id case digest (get_state R q.job_id db) s
              (found db id q.job_id s valid held),
        )
        (announce_stop q.job_id _ _ s db)

  -- What a registration returns that finds the identity of `r` and its snapshot `s`.
  abbrev pub answer_again : Registration → Registration → JobState → Result TransitionResult
  answer_again r q s =
      if not (request_digest H r.request_payload == request_digest H q.request_payload)
      then err idempotency_conflict
      else if not (r.job_id == q.job_id)
      then err job_identity_conflict
      else ok (record { state = s; applied = false })

  -- The job's snapshot has evolved from the first one, and the registration answers by it and writes
  -- nothing.
  pub record AnswersAgain (r q : Registration) (db : Db) : Type 0 where
    pub current : JobState
    pub held : get db (state r.job_id) ≡ some (state_json current)
    pub evolved : Evolves (initial_state H c r) current
    pub answered : register_job H c q R [] db ≡ (answer_again r q current, db)

  -- After a registration that was applied, on a consistent database, and after any calls in which
  -- neither its identity nor its job's snapshot lapses, another registration with its case and
  -- idempotency key, if its own first snapshot is valid, writes nothing: a request of another digest
  -- is an idempotency conflict, the same request under another job an identity conflict, and the same
  -- request for the same job is a replay, which returns the job's current snapshot.
  pub register_again :
      (r q : Registration) (calls : List Call) (db : Db) (t : TransitionResult)
      → IsConsistent R H c r.job_id db
      → (register_job H c r R [] db).0 ≡ ok t
      → t.applied ≡ true
      → all (spares_key r.job_id) calls ≡ true
      → all (spares_identity r.case_id (H.sha256 r.idempotency_key)) calls ≡ true
      → is_valid (initial_state H c q) ≡ true
      → q.case_id ≡ r.case_id
      → q.idempotency_key ≡ r.idempotency_key
      → AnswersAgain r q (history R H c calls (register_job H c r R [] db).1)
  unfolding history perform
  register_again r q calls db t consistent e a spared kept v same_case same_key =
      let first = (register_job H c r R [] db).1 in
      let (identity, snapshot) = registered r db t e a in
      let later =
        history-Evolves R H c r.job_id calls first (initial_state H c r)
          (history-IsConsistent R H c r.job_id (registers r ∷ []) db consistent) snapshot spared in
      let known =
        history-identity r.case_id (H.sha256 r.idempotency_key) R H c calls first _ identity kept in
      record {
        current = later.last;
        held = later.held;
        evolved = later.evolved;
        answered =
            register_known q (history R H c calls first) r.job_id
              (request_digest H r.request_payload) later.last v r.case_id
              (ap₂ (λ case key. get (history R H c calls first) (idempotency case (H.sha256 key)))
                  same_case same_key
                ∙ known)
              later.valid later.held;
      }

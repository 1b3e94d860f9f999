-- ===== src/Reconcile/Pass/Stale.antt =====
-- What one turn of the loop over the stale jobs makes of a job that may not go on.
use search_trust_rd.Prelude.{
  ℕ, ◌≤◌, ◌≡◌, refl, sym, subst, ◌∙◌, ap, Bool, true, false, not, ◌&&◌, ◌||◌, Bool-cases, ◌⊎◌, inl,
  inr, Option, none, some, List, [], whole, ◌==◌, ==_refl, is_some, leb, arith,
}
use search_trust_rd.Model.{
  JobStatus, JobState, is_valid, valid_fields, valid_error, valid_error_field, valid_status,
  is_terminal, terminal, Result, ok,
}
use search_trust_rd.Redis.{Key, Redis, state, request, recovery_pending, job}
use search_trust_rd.Store.Base.{JobValue, StoreConfig, get_request}
use search_trust_rd.Store.Indexes.{discard_pending_recovery, pending_recovery_generation}
use search_trust_rd.Store.Transition.{allowed, superseded, transition, transition_next}
use search_trust_rd.Store.Applied.{Holds, require_state-held, transition_applies}
use search_trust_rd.Store.Fitting.{next_valid, message_of}
use search_trust_rd.Capability.{
  is_capability, fail_update, deadline_error, capability_terminal_transition,
}
use search_trust_rd.Reconcile.{Action, Outside}
use search_trust_rd.Reconcile.Receipts.{HoldsUpTo, after_update-HoldsUpTo}
use search_trust_rd.Reconcile.Pass.{
  exhausted_error, stale_error, out_of_attempts, stale_failed, stale_ends, dropped, stale_pending,
  stale_state, stale_job,
}
use search_trust_rd.Store.Discards.{discard-get, pending-get, get_request-same}

module _ (R : Redis JobValue) where
  open R use {Db, get}

  dropped-get :
      (c : StoreConfig) (id generation : ℕ) (x : Option ℕ × Db) (k : Key)
      → get (dropped R c id generation x).1 k ≡ get x.1 k
  unfolding discard_pending_recovery
  dropped-get c id generation (none, db) k = refl
  dropped-get c id generation (some g, db) k = elim (Bool-cases (g == generation)) [
    | inl e ↦ rw e refl
    | inr e ↦ rw e (discard-get R recovery_pending (job id) (whole g) db k)
  ]

stale_error_valid : (b : Bool) (id : ℕ) → valid_error (stale_error b id) ≡ true
unfolding stale_error exhausted_error deadline_error valid_error
stale_error_valid true id = refl
stale_error_valid false id = refl

progress_of : (s : JobState) → is_valid s ≡ true → leb s.progress 100 ≡ true
unfolding is_valid valid_fields
progress_of s h = ground arith

may_fail : (s : JobState) → terminal s ≡ false → allowed s.status JobStatus.failed ≡ true
unfolding terminal
may_fail s h = by_status s.status h
  where
    by_status : (x : JobStatus) → is_terminal x ≡ false → allowed x JobStatus.failed ≡ true
    by_status JobStatus.queued h = refl
    by_status JobStatus.running h = refl
    by_status JobStatus.succeeded h = cc
    by_status JobStatus.failed h = cc

fail_update_valid :
    (s : JobState) (b : Bool) (id now : ℕ)
    → is_valid s ≡ true
    → s.created_at ≤ now
    → is_valid (transition_next (fail_update s (stale_error b id) now none) s) ≡ true
unfolding fail_update valid_error_field valid_status transition_next
fail_update_valid s b id now h k =
    next_valid (fail_update s (stale_error b id) now none) s h (record {
      progress_fits = progress_of s h;
      message_fits = message_of (stale_error b id) (stale_error_valid b id);
      error_fits = stale_error_valid b id;
      counters_fit = tt;
      in_time = k;
      status_fits = refl;
    })

module _ (R : Redis JobValue) (c : StoreConfig) (o : Outside) (id now : ℕ) where
  open R use {Db, get, zscore}

  -- The turn has failed the job, with the error that its deadline or its attempts give.
  abbrev pub FailedWith : Bool → Result {0} Unit × (Db × List Action) → Type 0
  FailedWith deadline_exceeded turn =
      (turn.0 ≡ ok tt)
      × (t : JobState) × HoldsUpTo R c id t turn.1.0
      × (t.status ≡ JobStatus.failed)
      × (t.error ≡ some (stale_error deadline_exceeded o.diagnostic_id))

  failed-FailedWith :
      (s : JobState) (b : Bool) (sent : List Action) (db : Db)
      → Holds R c id db s
      → s.job_id ≡ id
      → terminal s ≡ false
      → s.created_at ≤ now
      → FailedWith b (
          stale_failed R c o.synchronizer id sent
            (transition R c id (fail_update s (stale_error b o.diagnostic_id) now none) [] db))
  unfolding stale_failed fail_update transition_next terminal
  failed-FailedWith s b sent db h own open_ in_time =
      let u = fail_update s (stale_error b o.diagnostic_id) now none in
      let next = transition_next u s in
      let (after, e, held) =
        transition_applies R c id db s u h (same s.run_generation) open_ (may_fail s open_)
          (fail_update_valid s b o.diagnostic_id now h.valid in_time) in
      rw e (
        refl,
        next,
        after_update-HoldsUpTo R c id o.synchronizer next
            (some (record { state = next; applied = true })) after sent own held,
        refl,
        refl,
      )
    where
      same : (n : ℕ) → superseded (some n) n ≡ false
      same n = rw ==_refl refl

  ends_with :
      (s : JobState) (max_attempts : ℕ) (recovery : Outside) (sent : List Action)
      (pending : Option ℕ) (db : Db)
      → (is_some pending && not (leb s.deadline_at now)) ≡ false
      → (leb s.deadline_at now || out_of_attempts s max_attempts) ≡ true
      → is_capability (get_request R s.job_id db) ≡ false
      → stale_pending R c o recovery id now max_attempts s sent (pending, db)
        ≡ stale_failed R c o.synchronizer id sent (
            transition R c id
              (fail_update s (stale_error (leb s.deadline_at now) o.diagnostic_id) now none)
              []
              db)
  unfolding stale_pending stale_ends capability_terminal_transition
  ends_with s max_attempts recovery sent pending db goes_on ends plain =
      rw (goes_on, ends, plain) refl

  -- What the first reads of the turn leave: the snapshot and the request as they were.
  read_first : JobState → Db → Option ℕ × Db
  read_first s db = dropped R c id s.run_generation (pending_recovery_generation R id [] db)

  read_first-get : (s : JobState) (db : Db) (k : Key) → get (read_first s db).1 k ≡ get db k
  unfolding read_first
  read_first-get s db k =
      dropped-get R c id s.run_generation (pending_recovery_generation R id [] db) k
      ∙ pending-get R id db k

  read_first-none :
      (s : JobState) (db : Db)
      → zscore db recovery_pending (job id) ≡ none
      → (read_first s db).0 ≡ none
  unfolding read_first pending_recovery_generation
  read_first-none s db h = rw h refl

  expires :
      (a b out : Bool)
      → (b ≡ true) ⊎ ((out ≡ true) × (a ≡ false))
      → ((a && not b) ≡ false) × ((b || out) ≡ true)
  expires a b out h = ground arith

  -- A job whose deadline has passed, or which has no attempts left and no recovery that is pending,
  -- is failed by its turn, if it is open and no capability task.
  pub stale-FailedWith :
      (s : JobState) (max_attempts : ℕ) (recovery : Outside) (sent : List Action) (db : Db)
      → Holds R c id db s
      → s.job_id ≡ id
      → terminal s ≡ false
      → s.created_at ≤ now
      → is_capability (get_request R id db) ≡ false
      → (leb s.deadline_at now ≡ true)
        ⊎ ((out_of_attempts s max_attempts ≡ true) × (zscore db recovery_pending (job id) ≡ none))
      → FailedWith (leb s.deadline_at now) (stale_job R c o recovery id now max_attempts (db, sent))
  unfolding stale_job stale_state read_first
  stale-FailedWith s max_attempts recovery sent db h own open_ in_time plain expired =
      let found = read_first s db in
      let held : Holds R c id found.1 s = record {
        stored = read_first-get s db (state id) ∙ h.stored;
        valid = h.valid;
      } in
      let plain' =
        ap is_capability (get_request-same R id found.1 db (read_first-get s db (request id)))
        ∙ plain in
      let (goes_on, ends) =
        expires (is_some found.0) (leb s.deadline_at now) (out_of_attempts s max_attempts)
          (none_pending found.0 (read_first-none s db) expired) in
      subst
        (λ x.
          FailedWith (leb s.deadline_at now)
            (stale_state R c o recovery id now max_attempts x (db, sent)))
        (sym (require_state-held R c id db s h))
        (rw open_ (
          subst (FailedWith (leb s.deadline_at now))
            (sym (
              ends_with s max_attempts recovery sent found.0 found.1 goes_on ends
                (subst (λ j. is_capability (get_request R j found.1) ≡ false) (sym own) plain')))
            (failed-FailedWith s (leb s.deadline_at now) sent found.1 held own open_ in_time)))
    where
      none_pending :
          {a b u : Type 0} (x : Option ℕ)
          → (b → x ≡ none)
          → a ⊎ (u × b)
          → a ⊎ (u × (is_some x ≡ false))
      none_pending x f (inl h) = inl h
      none_pending x f (inr (u, k)) = inr (u, rw (f k) refl)

-- ===== src/Circuit/Laws.antt =====
-- What the callers of app/jobs_v22/circuit_breaker.py may rely on: an open circuit, its probe, its
-- closing and its cooldowns.
use search_trust_rd.Prelude.{
  ℕ, zero, suc, ◌+◌, ◌≤◌, ◌<◌, ◌≡◌, refl, sym, ap, subst, ◌∙◌, Bool, true, false, Option, none,
  some, List, [], ◌∷◌, arith, ltb, ==_refl, min, max, length, is_some, if◌then◌else◌,
}
use search_trust_rd.Redis.{
  Member, Redis, zscore-run_all, set, circuit, circuit_probe, circuit_failures, get-run_all,
}
use search_trust_rd.Circuit.{
  CircuitValue, CircuitPermit, CircuitConfig, open_json, probe_token, microseconds, cooldown_for,
  open_count_of, before_call, claim_probe, record_success, count_failure, open_circuit, should_open,
  record_eligible, record_failure, nth, cooldown_seconds,
}

less_test : (a b : ℕ) → a < b → ltb a b ≡ true
less_test a b h = ground arith

not_less_test : (a b : ℕ) → b ≤ a → ltb a b ≡ false
not_less_test a b h = ground arith

nth-IsSome : (i : ℕ) (x : ℕ) (xs : List ℕ) → i ≤ length xs → is_some (nth i (x ∷ xs)) ≡ true
nth-IsSome zero x xs h = refl
nth-IsSome (suc i) x [] h = absurd (omega arith)
nth-IsSome (suc i) x (y ∷ ys) h = nth-IsSome i y ys (omega arith)

-- The index that `cooldown_for` computes is in range.
cooldown-IsFound :
    (c : CircuitConfig) (i : ℕ)
    → nth (min i (length c.later_cooldowns)) (cooldown_seconds c) ≡ some (cooldown_for c (suc i))
unfolding cooldown_for
cooldown-IsFound c i =
    found (nth (min i (length c.later_cooldowns)) (cooldown_seconds c)) (
      nth-IsSome (min i (length c.later_cooldowns)) c.first_cooldown c.later_cooldowns
        (omega arith))
  where
    found :
        (o : Option ℕ) → is_some o ≡ true → o ≡ some (elim o [ none ↦ 0 | some seconds ↦ seconds ])
    found none h = cc
    found (some x) h = refl

-- The openings, counted from 1, take the configured cooldowns in their order, and every opening
-- after them takes the last one: the index is in range.
pub cooldown-IsConfigured :
    (c : CircuitConfig) (i extra : ℕ)
    → i ≤ length c.later_cooldowns
    → (nth i (cooldown_seconds c) ≡ some (cooldown_for c (suc i)))
      × (nth (length c.later_cooldowns) (cooldown_seconds c)
          ≡ some (cooldown_for c (suc (length c.later_cooldowns + extra))))
cooldown-IsConfigured c i extra h =
    let least : min i (length c.later_cooldowns) ≡ i = ground arith in
    let capped : min (length c.later_cooldowns + extra) (length c.later_cooldowns)
        ≡ length c.later_cooldowns =
      ground arith in
    (
      ap (λ j. nth j (cooldown_seconds c)) (sym least) ∙ cooldown-IsFound c i,
      ap (λ j. nth j (cooldown_seconds c)) (sym capped)
          ∙ cooldown-IsFound c (length c.later_cooldowns + extra),
    )

module _ (R : Redis CircuitValue) (c : CircuitConfig) where
  open R use {Db, get, zscore, zcard, run, get-run}

  -- Counting a failure leaves the circuit's own key alone.
  count-circuit :
      (id now token : ℕ) (db : Db)
      → get (count_failure R c id now token db) (circuit id) ≡ get db (circuit id)
  unfolding count_failure
  count-circuit id now token db = get-run_all R db _ (circuit id)

  open-circuit_key :
      (id now n : ℕ) (db : Db)
      → get (open_circuit R c id now n db) (circuit id)
        ≡ some (open_json n (now + microseconds (cooldown_for c n)))
  unfolding open_circuit
  open-circuit_key id now n db = get-run_all R db _ (circuit id) ∙ rw (==_refl id) refl

  open-probe_key :
      (id now n : ℕ) (db : Db) → get (open_circuit R c id now n db) (circuit_probe id) ≡ none
  unfolding open_circuit
  open-probe_key id now n db = get-run_all R db _ (circuit_probe id) ∙ rw (==_refl id) refl

  -- the time until which the next opening lasts
  abbrev pub reopens_at : ℕ → ℕ → Db → ℕ
  reopens_at id now db =
      now + microseconds (cooldown_for c (open_count_of (get db (circuit id)) + 1))

  -- What both keys hold after a failure that leaves the circuit open.
  abbrev IsOpen : ℕ → ℕ → ℕ → Db → Type 0
  IsOpen id count until db =
      (get db (circuit id) ≡ some (open_json count until)) × (get db (circuit_probe id) ≡ none)

  chosen :
      (b : Bool) (a z : Db)
      → (if◌then◌else◌ {A = Bool × Db} b (true, a) (false, z)).0 ≡ true
      → (if◌then◌else◌ {A = Bool × Db} b (true, a) (false, z)).1 ≡ a
  chosen true a z h = refl
  chosen false a z h = absurd (ground arith)

  failed-IsOpen :
      (p : CircuitPermit) (now token : ℕ) (eligible immediate : Bool) (threshold : Option ℕ)
      (db : Db)
      → (record_failure R c p now token eligible immediate threshold db).0 ≡ true
      → IsOpen p.circuit_id
          (open_count_of (get db (circuit p.circuit_id)) + 1)
          (reopens_at p.circuit_id now db)
          (record_failure R c p now token eligible immediate threshold db).1
  unfolding record_failure record_eligible
  failed-IsOpen p now token false immediate threshold db h = absurd (ground arith)
  failed-IsOpen p now token true immediate threshold db h =
      let id = p.circuit_id in
      let counted = count_failure R c id now token db in
      let due = should_open R c immediate p threshold (zcard counted (circuit_failures id)) in
      let count = open_count_of (get counted (circuit id)) + 1 in
      let same = chosen due (open_circuit R c id now count counted) counted h in
      subst (IsOpen id _ _) (sym same) (
        rw (sym (count-circuit id now token db))
          (open-circuit_key id now count counted, open-probe_key id now count counted))

  refused_before :
      (id count until later token : ℕ) (db : Db)
      → get db (circuit id) ≡ some (open_json count until)
      → later < until
      → before_call R c id later token db ≡ (none, db)
  unfolding before_call
  refused_before id count until later token db e h = rw e (rw (less_test later until h) refl)

  -- From `until` on the probe's key decides.
  half_open :
      (id count until later token : ℕ) (db : Db)
      → get db (circuit id) ≡ some (open_json count until)
      → until ≤ later
      → before_call R c id later token db ≡ claim_probe R c id token db
  unfolding before_call
  half_open id count until later token db e h = rw e (rw (not_less_test later until h) refl)

  -- The probe's permit, and the token under the probe's key with the circuit as it was.
  one_probe :
      (id count until later token : ℕ) (db : Db)
      → IsOpen id count until db
      → until ≤ later
      → (after : Db) × ((before_call R c id later token db
            ≡ (some (record { circuit_id = id; probe = true }), after))
          × (get after (circuit id) ≡ some (open_json count until))
          × (get after (circuit_probe id) ≡ some (probe_token token)))
  one_probe id count until later token db (opened, free) h = (
    run db (set (circuit_probe id) (probe_token token) (max c.first_cooldown 30)),
    (
      half_open id count until later token db opened h ∙ rw free refl,
      get-run db _ (circuit id) ∙ opened,
      get-run db _ (circuit_probe id) ∙ rw (==_refl id) refl,
    ),
  )

  second_refused :
      (id count until later token held : ℕ) (db : Db)
      → get db (circuit id) ≡ some (open_json count until)
      → get db (circuit_probe id) ≡ some (probe_token held)
      → until ≤ later
      → before_call R c id later token db ≡ (none, db)
  second_refused id count until later token held db opened taken h =
      half_open id count until later token db opened h ∙ rw taken refl

  -- What the callers after a failure see: the circuit opened until a time.
  abbrev pub RefusesUntil : ℕ → ℕ → Db → Type 0
  RefusesUntil id until db =
      (later token : ℕ)
      → ((later < until → before_call R c id later token db ≡ (none, db))
          × (until ≤ later
              → (after : Db) × ((before_call R c id later token db
                    ≡ (some (record { circuit_id = id; probe = true }), after))
                  × ((again other : ℕ)
                      → until ≤ again
                      → before_call R c id again other after ≡ (none, after)))))

  -- A failure that leaves the circuit open refuses every caller until its cooldown has passed, with
  -- no write. After that the first caller, at any time, gets a probe's permit, and every later
  -- caller is refused. All this as long as nothing else changes the circuit's key and its probe's
  -- key, where their lapse at the TTL is a change.
  pub failure-RefusesUntil :
      (p : CircuitPermit) (now token : ℕ) (eligible immediate : Bool) (threshold : Option ℕ)
      (db : Db)
      → (record_failure R c p now token eligible immediate threshold db).0 ≡ true
      → RefusesUntil p.circuit_id
          (reopens_at p.circuit_id now db)
          (record_failure R c p now token eligible immediate threshold db).1
  failure-RefusesUntil p now token eligible immediate threshold db h later other =
      let shut = failed-IsOpen p now token eligible immediate threshold db h in
      let id = p.circuit_id in
      (
        refused_before id _ _ later other _ shut.0,
        λ past.
            let (after, (called, opened, taken)) = one_probe id _ _ later other _ shut past in
            (
              after,
              (
                called,
                λ again third due. second_refused id _ _ again third other after opened taken due,
              ),
            ),
      )

  success_key :
      (p : CircuitPermit) (db : Db) → get (record_success R c p db) (circuit p.circuit_id) ≡ none
  unfolding record_success
  success_key p db = get-run_all R db _ (circuit p.circuit_id) ∙ rw (==_refl p.circuit_id) refl

  -- The probe's key and every failure that was counted are gone.
  abbrev pub IsCleared : ℕ → Db → Type 0
  IsCleared id db =
      (get db (circuit_probe id) ≡ none) × ((m : Member) → zscore db (circuit_failures id) m ≡ none)

  success-IsCleared :
      (p : CircuitPermit) (db : Db) → IsCleared p.circuit_id (record_success R c p db)
  unfolding record_success
  success-IsCleared p db = (
    get-run_all R db _ (circuit_probe p.circuit_id) ∙ rw (==_refl p.circuit_id) refl,
    λ m. zscore-run_all R db _ (circuit_failures p.circuit_id) m ∙ rw (==_refl p.circuit_id) refl,
  )

  -- After a success every caller gets a permit that is no probe, with no write; the probe's key and
  -- the counted failures are gone; and if a failure of the circuit that is reported directly after
  -- the success leaves the circuit open, its document has the open count 1 and the cooldown of a
  -- first opening.
  pub success_closes :
      (p : CircuitPermit) (probe : Bool) (now later token : ℕ) (eligible immediate : Bool)
      (threshold : Option ℕ) (db : Db)
      → (record_failure R c
          (record { circuit_id = p.circuit_id; probe = probe })
          now
          token
          eligible
          immediate
          threshold
          (record_success R c p db)).0
        ≡ true
      → (before_call R c p.circuit_id later token (record_success R c p db)
          ≡ (some (record { circuit_id = p.circuit_id; probe = false }), record_success R c p db))
        × IsCleared p.circuit_id (record_success R c p db)
        × (get
              (record_failure R c
                (record { circuit_id = p.circuit_id; probe = probe })
                now
                token
                eligible
                immediate
                threshold
                (record_success R c p db)).1
              (circuit p.circuit_id)
            ≡ some (open_json 1 (now + microseconds (cooldown_for c 1))))
  unfolding before_call
  success_closes p probe now later token eligible immediate threshold db h =
      let again : CircuitPermit = record { circuit_id = p.circuit_id; probe = probe } in
      let opened =
        failed-IsOpen again now token eligible immediate threshold (record_success R c p db) h in
      (rw (success_key p db) refl, success-IsCleared p db, rw (success_key p db) at opened.0)

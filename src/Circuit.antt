-- ===== src/Circuit.antt =====
-- app/jobs_v22/circuit_breaker.py: a circuit per provider and operation, shared through Redis. It is
-- closed when its key is absent, open until a time, and then half open, when one caller may probe.
-- A key that lapses at its TTL is a `delete` by the server, at any moment: the operations pass the
-- times of the source to SET and EXPIRE, but no clock of the server is modelled, so nothing here
-- says when a key lapses.
pub mod Laws
use search_trust_rd.Prelude.{
  ℕ, zero, suc, ◌+◌, ◌-◌, ◌*◌, String, Bool, true, false, ◌||◌, Option, none, some, List, [], ◌∷◌,
  whole, ltb, leb, min, max, length, is_none, if◌then◌else◌,
}
use search_trust_rd.Redis.{
  Key, Command, Redis, failure, circuit, circuit_probe, circuit_failures, set, expire, delete, zadd,
  zremrangebyscore, run_all,
}

-- The document under a circuit's key, or the token under its probe key.
pub data CircuitValue : Type 0 where
  open_json : (open_count open_until : ℕ) → CircuitValue
  probe_token : ℕ → CircuitValue

pub record CircuitPermit : Type 0 where
  pub circuit_id : ℕ
  pub probe : Bool

-- `cooldown_seconds` is a tuple that is not empty: its first entry and the others.
pub record CircuitConfig : Type 0 where
  pub failure_threshold : ℕ
  pub window_seconds : ℕ
  pub first_cooldown : ℕ
  pub later_cooldowns : List ℕ

-- `hashlib.sha256(f"{provider}:{operation}")`
unfoldable pub circuit_id_of : (String → ℕ) → (String → String → String) → String → String → ℕ
circuit_id_of sha256 join provider operation = sha256 (join provider operation)

abbrev pub microseconds : ℕ → ℕ
microseconds seconds = 1_000_000 * seconds

-- `xs[i]`; `none` is IndexError
abbrev pub nth : ℕ → List ℕ → Option ℕ
nth i [] = none
nth zero (x ∷ xs) = some x
nth (suc i) (x ∷ xs) = nth i xs

abbrev pub cooldown_seconds : CircuitConfig → List ℕ
cooldown_seconds c = c.first_cooldown ∷ c.later_cooldowns

-- `min(open_count - 1, len(cooldown_seconds) - 1)`; the index -1 is the last one
abbrev pub cooldown_index : CircuitConfig → ℕ → ℕ
cooldown_index c zero = length c.later_cooldowns
cooldown_index c (suc i) = min i (length c.later_cooldowns)

-- `cooldown_seconds[…]`. The index is always in range (Circuit/Laws), so the 0 stands for nothing.
unfoldable pub cooldown_for : CircuitConfig → ℕ → ℕ
cooldown_for c open_count = elim (nth (cooldown_index c open_count) (cooldown_seconds c)) [
  | none ↦ 0
  | some seconds ↦ seconds
]

-- `failure_threshold or self.failure_threshold`
abbrev pub threshold_or : Option ℕ → ℕ → ℕ
threshold_or none d = d
threshold_or (some zero) d = d
threshold_or (some (suc n)) d = suc n

abbrev pub open_count_of : Option CircuitValue → ℕ
open_count_of (some (open_json n until)) = n
open_count_of _ = 0

module _ (R : Redis CircuitValue) (c : CircuitConfig) where
  open R use {Db, get, zcard, run}

  abbrev permit : ℕ → Bool → Db → Option CircuitPermit × Db
  permit id probe db = (some (record { circuit_id = id; probe = probe }), db)

  -- SET probe NX EX: one caller gets through, until the probe's key is deleted or lapses.
  abbrev pub claim_probe : ℕ → ℕ → Db → Option CircuitPermit × Db
  claim_probe id token db =
      if is_none (get db (circuit_probe id))
      then permit id true
          (run db (set (circuit_probe id) (probe_token token) (max c.first_cooldown 30)))
      else (none, db)

  -- What the circuit's document decides. A probe's token never stands under the circuit's own key.
  abbrev pub call_when : Option CircuitValue → (id now token : ℕ) → Db → Option CircuitPermit × Db
  call_when none id now token db = permit id false db
  call_when (some (probe_token t)) id now token db = permit id false db
  call_when (some (open_json count until)) id now token db =
      if ltb now until then (none, db) else claim_probe id token db

  -- `none` is ProviderCircuitOpen.
  unfoldable pub before_call : (id now token : ℕ) → Db → Option CircuitPermit × Db
  before_call id now token db = call_when (get db (circuit id)) id now token db

  unfoldable pub record_success : CircuitPermit → Db → Db
  record_success p db = run_all R db (
      delete (circuit p.circuit_id)
      ∷ delete (circuit_probe p.circuit_id)
      ∷ delete (circuit_failures p.circuit_id)
      ∷ [])

  -- the pipeline that counts the failure: at most `window_seconds` of them are kept
  unfoldable pub count_failure : (id now token : ℕ) → Db → Db
  count_failure id now token db = run_all R db (
      zremrangebyscore (circuit_failures id) (now - microseconds c.window_seconds)
      ∷ zadd (circuit_failures id) (failure now token) (whole now)
      ∷ expire (circuit_failures id) (c.window_seconds * 2)
      ∷ [])

  unfoldable pub open_circuit : (id now open_count : ℕ) → Db → Db
  unfolding cooldown_for
  open_circuit id now open_count db =
      let cooldown = cooldown_for c open_count in
      run_all R db (
        set (circuit id) (open_json open_count (now + microseconds cooldown))
          (cooldown + c.window_seconds)
        ∷ delete (circuit_probe id)
        ∷ [])

  unfoldable pub should_open : Bool → CircuitPermit → Option ℕ → ℕ → Bool
  should_open immediate p threshold count =
      immediate || p.probe || leb (threshold_or threshold c.failure_threshold) count

  -- an eligible failure
  unfoldable pub record_eligible :
      CircuitPermit → (now token : ℕ) → Bool → Option ℕ → Db → Bool × Db
  unfolding count_failure open_circuit should_open
  record_eligible p now token immediate threshold db =
      let counted = count_failure p.circuit_id now token db in
      if should_open immediate p threshold (zcard counted (circuit_failures p.circuit_id))
      then (
        true,
        open_circuit p.circuit_id now (open_count_of (get counted (circuit p.circuit_id)) + 1)
            counted,
      )
      else (false, counted)

  -- The result says whether the failure leaves the circuit open.
  unfoldable pub record_failure :
      CircuitPermit → (now token : ℕ) → (eligible immediate : Bool) → Option ℕ → Db → Bool × Db
  unfolding record_eligible
  record_failure p now token eligible immediate threshold db =
      if eligible
      then record_eligible p now token immediate threshold db
      else (false, if p.probe then run db (delete (circuit_probe p.circuit_id)) else db)

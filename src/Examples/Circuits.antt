-- ===== src/Examples/Circuits.antt =====
-- A circuit that opens at its second failure.
use search_trust_rd.Prelude.{◌≡◌, refl, true, false, none, some, [], ◌∷◌, map, arith, ◌+◌, ◌*◌}
use search_trust_rd.Redis.{Redis, circuit, run_all}
use search_trust_rd.Redis.Journal.{journal}
use search_trust_rd.Circuit.{
  CircuitValue, CircuitPermit, CircuitConfig, open_json, cooldown_for, record_success, before_call,
  record_failure, record_eligible, count_failure, open_circuit, should_open,
}
use search_trust_rd.Circuit.Laws.{
  RefusesUntil, IsCleared, reopens_at, failure-RefusesUntil, success_closes, cooldown-IsConfigured,
}

abbrev server : Redis CircuitValue
server = journal CircuitValue

abbrev config : CircuitConfig
config = record {
  failure_threshold = 2;
  window_seconds = 60;
  first_cooldown = 60;
  later_cooldowns = 120 ∷ 300 ∷ [];
}

abbrev permit : CircuitPermit
permit = record { circuit_id = 4; probe = false }

abbrev after_one : server.Db
after_one = (record_failure server config permit 70_000_000 1 true false none []).1

opens : (record_failure server config permit 71_000_000 2 true false none after_one).0 ≡ true
unfolding record_failure record_eligible should_open count_failure run_all open_circuit
opens = refl

failure-RefusesUntil_example :
    RefusesUntil server config 4
      (reopens_at server config 4 71_000_000 after_one)
      (record_failure server config permit 71_000_000 2 true false none after_one).1
failure-RefusesUntil_example =
    failure-RefusesUntil server config permit 71_000_000 2 true false none after_one opens

reopens :
    (record_failure server config permit 90_000_000 5 true true none
      (record_success server config permit after_one)).0
    ≡ true
unfolding record_failure record_eligible should_open
reopens = refl

success_closes_example :
    (before_call server config 4 80_000_000 5 (record_success server config permit after_one) ≡ (
      some (record { circuit_id = 4; probe = false }),
      record_success server config permit after_one,
    ))
    × IsCleared server config 4 (record_success server config permit after_one)
    × (server.get
          (record_failure server config permit 90_000_000 5 true true none
            (record_success server config permit after_one)).1
          (circuit 4)
        ≡ some (open_json 1 (90_000_000 + 1_000_000 * cooldown_for config 1)))
success_closes_example =
    success_closes server config permit false 90_000_000 80_000_000 5 true true none after_one
      reopens

cooldown-IsConfigured_example :
    (some 120 ≡ some (cooldown_for config 2)) × (some 300 ≡ some (cooldown_for config 9))
cooldown-IsConfigured_example = cooldown-IsConfigured config 1 6 (omega arith)

cooldowns_in_order :
    map (cooldown_for config) (0 ∷ 1 ∷ 2 ∷ 3 ∷ 9 ∷ []) ≡ 300 ∷ 60 ∷ 120 ∷ 300 ∷ 300 ∷ []
unfolding cooldown_for
cooldowns_in_order = refl

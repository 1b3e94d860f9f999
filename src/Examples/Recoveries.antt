-- ===== src/Examples/Recoveries.antt =====
-- The recovery of the job that was taken over: a callback, and then the enqueue.
use search_trust_rd.Prelude.{◌≡◌, refl, true, false, inl, arith, some, none, [], length}
use search_trust_rd.Model.{terminal, is_valid, valid_fields, valid_error_field, validate_lifecycle}
use search_trust_rd.Cost.Counters.{validate_cost_counters_snapshot}
use search_trust_rd.Redis.{run_all}
use search_trust_rd.Transaction.{attempt}
use search_trust_rd.Store.Base.{require_state, get_request}
use search_trust_rd.Store.Register.{initial_state, register_job, register_commands}
use search_trust_rd.Store.Transition.{transition}
use search_trust_rd.Store.Recovery.{take_over_stale, mark_recovery_enqueued}
use search_trust_rd.Store.Callbacks.{mark_callback_synced}
use search_trust_rd.Store.History.{perform}
use search_trust_rd.Reconcile.{accepted, rejected, enqueued, Outside, sync, finish_pending_recovery}
use search_trust_rd.Reconcile.Barrier.{Ordered, finish-Ordered}
use search_trust_rd.Capability.{is_capability}
use search_trust_rd.Reconcile.Pass.{stale_job}
use search_trust_rd.Reconcile.Pass.Stale.{FailedWith, stale-FailedWith}
use search_trust_rd.Examples.Jobs.{
  server, config, hashes, seven, taken_over, registered, registered_held, again_valid,
}

abbrev outside : Outside
outside = record {
  synchronizer = some accepted;
  coordinator = none;
  queue = enqueued;
  diagnostic_id = 1;
}

two_actions :
    length (finish_pending_recovery server config outside 7 2 9500 (taken_over, [])).1.1 ≡ 2
unfolding finish_pending_recovery require_state perform take_over_stale attempt transition
    register_job is_valid valid_fields valid_error_field validate_cost_counters_snapshot
    validate_lifecycle run_all register_commands sync mark_callback_synced mark_recovery_enqueued
two_actions = refl

refused_first :
    length
      (finish_pending_recovery server config
        (record outside { synchronizer = some rejected })
        7
        2
        9500
        (taken_over, [])).1.1
    ≡ 1
unfolding finish_pending_recovery require_state perform take_over_stale attempt transition
    register_job is_valid valid_fields valid_error_field validate_cost_counters_snapshot
    validate_lifecycle run_all register_commands sync
refused_first = refl

finish-Ordered_example :
    Ordered server config outside 7 2 9500 taken_over
      (finish_pending_recovery server config outside 7 2 9500 (taken_over, [])).1.1
finish-Ordered_example = finish-Ordered server config outside 7 2 9500 taken_over

plain_request : is_capability (get_request server 7 registered) ≡ false
unfolding perform register_job attempt is_valid valid_fields valid_error_field
    validate_cost_counters_snapshot validate_lifecycle run_all register_commands get_request
    is_capability
plain_request = refl

-- Its deadline is 1200 seconds after its creation.
stale-FailedWith_example :
    FailedWith server config outside 7 1200001000 true
      (stale_job server config outside outside 7 1200001000 3 (registered, []))
unfolding initial_state
stale-FailedWith_example =
    stale-FailedWith server config outside 7 1200001000 (initial_state hashes config seven) 3
      outside [] registered (record { stored = registered_held; valid = again_valid }) refl
      (unfold terminal in refl) (omega arith) plain_request (inl refl)

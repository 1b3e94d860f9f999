-- ===== src/Worker/Valid.antt =====
-- The snapshots that a run writes meet the constraints of their model.
use search_trust_rd.Prelude.{ℕ, ◌≤◌, ◌≡◌, refl, true, leb}
use search_trust_rd.Model.{
  JobState, JobErrorState, is_valid, valid_status, length_between, valid_error, valid_error_field,
}
use search_trust_rd.Store.Transition.{transition_next}
use search_trust_rd.Worker.{Failing, queue_update, failed_update}
use search_trust_rd.Store.Fitting.{IsCounted, next_valid, message_of}

module _ (s s0 : JobState) (generation : ℕ) (f : Failing) where
  module _ (valid : is_valid s ≡ true) (progress : leb s0.progress 100 ≡ true)
      (counted : IsCounted f.counters) (in_time : s.created_at ≤ f.failed_at) where
    pub queue_update_valid : is_valid (transition_next (queue_update s0 generation f) s) ≡ true
    unfolding queue_update length_between valid_error_field valid_status transition_next
    queue_update_valid = next_valid (queue_update s0 generation f) s valid (record {
      progress_fits = progress;
      message_fits = refl;
      error_fits = refl;
      counters_fit = counted;
      in_time = in_time;
      status_fits = refl;
    })

    pub failed_update_valid :
        (e : JobErrorState)
        → valid_error e ≡ true
        → is_valid (transition_next (failed_update s0 generation f e) s) ≡ true
    unfolding failed_update valid_error_field valid_status transition_next
    failed_update_valid e h = next_valid (failed_update s0 generation f e) s valid (record {
      progress_fits = progress;
      message_fits = message_of e h;
      error_fits = h;
      counters_fit = counted;
      in_time = in_time;
      status_fits = refl;
    })

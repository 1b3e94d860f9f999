-- ===== src/Store/Fitting.antt =====
-- When the snapshot that an update writes meets the constraints of its model.
use search_trust_rd.Prelude.{
  ℕ, ◌+◌, ◌≤◌, ◌≡◌, Bool, true, ◌&&◌, Option, none, some, leb, ltb, arith,
}
use search_trust_rd.Cost.Counters.{Counters, validate_cost_counters_snapshot}
use search_trust_rd.Model.{
  JobState, JobErrorState, is_valid, valid_fields, validate_lifecycle, valid_status, length_between,
  valid_error, valid_error_field,
}
use search_trust_rd.Store.Transition.{Update, given, transition_next}

-- The counters of an update, if it has any.
abbrev pub IsCounted : Option Counters → Type 0
IsCounted none = Unit
IsCounted (some counters) = validate_cost_counters_snapshot counters ≡ true

given_valid :
    (new : Option Counters) (old : Counters)
    → IsCounted new
    → validate_cost_counters_snapshot old ≡ true
    → validate_cost_counters_snapshot (given new old) ≡ true
given_valid none old h k = k
given_valid (some counters) old h k = h

-- What an update must bring itself.
pub record IsFit (u : Update) (s : JobState) : Type 0 where
  pub progress_fits : leb u.progress 100 ≡ true
  pub message_fits : length_between 1 500 u.message ≡ true
  pub error_fits : valid_error_field u.error ≡ true
  pub counters_fit : IsCounted u.cost_counters
  pub in_time : s.created_at ≤ u.now
  pub status_fits : valid_status u.status (transition_next u s) ≡ true

counters_of :
    (s : JobState) → is_valid s ≡ true → validate_cost_counters_snapshot s.cost_counters ≡ true
unfolding is_valid valid_fields
counters_of s h = ground arith

numbers_of :
    (s : JobState)
    → is_valid s ≡ true
    → (leb 1 s.run_generation ≡ true)
      × (ltb s.created_at s.deadline_at ≡ true)
      × (s.callback_synced_revision ≤ s.revision)
unfolding is_valid valid_fields validate_lifecycle
numbers_of s h = (ground arith, ground arith, ground arith)

grown :
    (created now revision receipt : ℕ)
    → created ≤ now
    → receipt ≤ revision
    → (leb 1 (revision + 1) && leb created now && leb receipt (revision + 1)) ≡ true
grown created now revision receipt h k = ground arith

pub next_valid :
    (u : Update) (s : JobState)
    → is_valid s ≡ true
    → IsFit u s
    → is_valid (transition_next u s) ≡ true
unfolding is_valid valid_fields validate_lifecycle transition_next
next_valid u s h fit =
    let (generation, deadline, receipt) = numbers_of s h in
    rw
      (
        fit.progress_fits,
        fit.message_fits,
        fit.error_fits,
        fit.status_fits,
        generation,
        deadline,
        given_valid u.cost_counters s.cost_counters fit.counters_fit (counters_of s h),
      )
      (regroup (leb 1 (s.revision + 1)) (leb s.created_at u.now)
        (leb s.callback_synced_revision (s.revision + 1))
        (grown s.created_at u.now s.revision s.callback_synced_revision fit.in_time receipt))
  where
    regroup :
        (a b d : Bool)
        → (a && b && d) ≡ true
        → (a && true && true && (b && true && d && true)) ≡ true
    regroup a b d h = ground arith

pub message_of :
    (e : JobErrorState) → valid_error e ≡ true → length_between 1 500 e.user_message ≡ true
unfolding valid_error
message_of e h = ground arith

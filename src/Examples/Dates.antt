-- ===== src/Examples/Dates.antt =====
-- A change implemented on one date of Greenwich, measured by a source ten hours ahead.
use search_trust_rd.Prelude.{◌+◌, ◌*◌, ◌/◌, ◌≡◌, refl, arith}
use search_trust_rd.Windows.{
  Zones, planned, plan_windows, windows_around, IsAround, IsMonotone, plan_windows-planned,
  plan_windows-IsAround,
}

abbrev ahead : Zones
ahead = record {
  own_midnight = λ d. d * 86400000000;
  own_date = λ t. t / 86400000000;
  source_date = λ t. (t + 36000000000) / 86400000000;
}

ahead-IsMonotone : IsMonotone ahead
ahead-IsMonotone a b h = omega arith

plan_windows-planned_example :
    plan_windows ahead 739000 28 ≡ planned (windows_around 28 739000 739001)
plan_windows-planned_example =
    plan_windows-planned ahead 739000 28 ahead-IsMonotone (omega arith, refl, omega arith) refl
      (omega arith) (omega arith)

four_weeks : plan_windows ahead 739000 28 ≡ planned (windows_around 28 739000 739001)
unfolding plan_windows
four_weeks = refl

plan_windows-IsAround_example : IsAround ahead 739000 28 (windows_around 28 739000 739001)
plan_windows-IsAround_example = plan_windows-IsAround ahead 739000 28 ahead-IsMonotone four_weeks

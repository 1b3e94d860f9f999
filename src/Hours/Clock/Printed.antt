-- ===== src/Hours/Clock/Printed.antt =====
-- Times written on the clocks of twelve and of twenty-four hours, read back by `clock_minutes`.
use search_trust_rd.Prelude.{
  ℕ, ◌+◌, ◌*◌, ◌/◌, ◌%◌, ◌<◌, ◌≡◌, ap, Bool-cases, inl, inr, true, false, ltb, leb, ◌==◌, some,
  none, arith, if◌then◌else◌,
}
use search_trust_rd.Hours.Clock.{parsed, read_hour, am, pm, TimeText, clock_minutes}

-- 18:05
abbrev pub on_24 : ℕ → TimeText
on_24 m = record { hour = m / 60; minute = some (m % 60); meridiem = none }

-- 6:05 pm
abbrev pub on_12 : ℕ → TimeText
on_12 m = record {
  hour = (m / 60 + 11) % 12 + 1;
  minute = some (m % 60);
  meridiem = some (if ltb m 720 then am else pm);
}

within : (m : ℕ) → leb (m % 60) 59 ≡ true
within m = ground arith

on_24-parsed : (m : ℕ) → m < 1440 → clock_minutes (some (on_24 m)) ≡ parsed m
unfolding clock_minutes read_hour
on_24-parsed m h = rw (within m, not_over m h, not_end m h) (ap parsed whole)
  where
    not_over : (m : ℕ) → m < 1440 → ltb 24 (m / 60) ≡ false
    not_over m h = ground arith

    not_end : (m : ℕ) → m < 1440 → (m / 60 == 24) ≡ false
    not_end m h = ground arith

    whole : m / 60 * 60 + m % 60 ≡ m
    whole = omega arith

on_12-parsed : (m : ℕ) → m < 1440 → clock_minutes (some (on_12 m)) ≡ parsed m
unfolding clock_minutes read_hour
on_12-parsed m h = elim (Bool-cases (ltb m 720)) [
  | inl e ↦ rw (within m, at_least m, at_most m, e) (ap parsed (morning m e))
  | inr e ↦ rw (within m, at_least m, at_most m, e) (ap parsed (evening m h e))
]
  where
    at_least : (m : ℕ) → leb 1 ((m / 60 + 11) % 12 + 1) ≡ true
    at_least m = ground arith

    at_most : (m : ℕ) → leb ((m / 60 + 11) % 12 + 1) 12 ≡ true
    at_most m = ground arith

    morning : (m : ℕ) → ltb m 720 ≡ true → (((m / 60 + 11) % 12 + 1) % 12 + 0) * 60 + m % 60 ≡ m
    morning m e = ground arith

    evening :
        (m : ℕ)
        → m < 1440
        → ltb m 720 ≡ false
        → (((m / 60 + 11) % 12 + 1) % 12 + 12) * 60 + m % 60 ≡ m
    evening m h e = ground arith

-- Every minute of the day, written on a clock of 24 or of 12 hours, is read back as that minute.
pub clock_minutes-on :
    (m : ℕ)
    → m < 1440
    → (clock_minutes (some (on_24 m)) ≡ parsed m) × (clock_minutes (some (on_12 m)) ≡ parsed m)
clock_minutes-on m h = (on_24-parsed m h, on_12-parsed m h)

-- ===== src/Hours/Clock.antt =====
-- `clock_minutes`: a time of day in minutes, from the groups of its regular expression.
pub mod Printed
use search_trust_rd.Prelude.{
  ℕ, ◌+◌, ◌*◌, ◌%◌, ◌≤◌, ◌≡◌, refl, arith, Bool, true, false, ◌&&◌, ◌||◌, not, Option, none, some,
  ltb, leb, ◌==◌, if◌then◌else◌,
}

-- The texts of the ValueErrors that `parse_week` turns into reasons.
pub data HoursError : Type 0 where
  unsupported_time invalid_time meridiem_missing conflicting_day_states : HoursError
  time_not_explicit ambiguous_equal_endpoints unparsed_hours_condition : HoursError
  resource_limit conflicting_overnight : HoursError

pub data Parsed {ℓ} (A : Type ℓ) : Type ℓ where
  parsed : A → Parsed A
  refused : HoursError → Parsed A

infixl 5 ◌>>=◌ ◌>>◌
abbrev pub ◌>>=◌ {ℓ κ} : {A : Type ℓ} {B : Type κ} → Parsed A → (A → Parsed B) → Parsed B
parsed a >>= f = f a
refused e >>= f = refused e

abbrev pub ◌>>◌ {ℓ} : {B : Type ℓ} → Parsed (Unit {0}) → Parsed B → Parsed B
m >> k = m >>= λ _. k

abbrev pub require : Bool → HoursError → Parsed (Unit {0})
require true e = parsed tt
require false e = refused e

pub data Meridiem : Type 0 where
  am pm : Meridiem

-- The groups: one or two digits, two more after a colon, and a letter of am or pm.
pub record TimeText : Type 0 where
  pub hour : ℕ
  pub minute : Option ℕ
  pub meridiem : Option Meridiem

abbrev or_zero : Option ℕ → ℕ
or_zero none = 0
or_zero (some n) = n

abbrev is_given : Option ℕ → Bool
is_given none = false
is_given (some n) = true

abbrev afternoon : Meridiem → ℕ
afternoon am = 0
afternoon pm = 12

-- The hour on a clock of twelve or of twenty-four.
unfoldable pub read_hour : Option Meridiem → ℕ → Option ℕ → Parsed ℕ
read_hour (some half) h minute = do
  require (leb 1 h && leb h 12) HoursError.invalid_time
  parsed ((h % 12 + afternoon half) * 60 + or_zero minute)
read_hour none h minute = do
  require (is_given minute) HoursError.meridiem_missing
  require (not (ltb 24 h || (h == 24 && not (or_zero minute == 0)))) HoursError.invalid_time
  parsed (h * 60 + or_zero minute)

-- `none` is a text that the expression does not match.
unfoldable pub clock_minutes : Option TimeText → Parsed ℕ
unfolding read_hour
clock_minutes none = refused HoursError.unsupported_time
clock_minutes (some t) = do
  require (leb (or_zero t.minute) 59) HoursError.invalid_time
  read_hour t.meridiem t.hour t.minute

-- The parts of a step that succeeds.
pub >>=-eq-parsed {ℓ κ} :
    {A : Type ℓ} {B : Type κ} (m : Parsed A) (f : A → Parsed B) {b : B}
    → (m >>= f) ≡ parsed b
    → (a : A) × (m ≡ parsed a) × (f a ≡ parsed b)
>>=-eq-parsed (parsed a) f h = (a, refl, h)
>>=-eq-parsed (refused e) f h = cc

pub require-eq-parsed : (t : Bool) (e : HoursError) → require t e ≡ parsed tt → t ≡ true
require-eq-parsed true e h = refl
require-eq-parsed false e h = cc

pub parsed-inj {ℓ} : {A : Type ℓ} {a b : A} → parsed a ≡ parsed b → a ≡ b
parsed-inj h = cc

read_hour_bound :
    (half : Option Meridiem) (h : ℕ) (minute : Option ℕ) (m : ℕ)
    → or_zero minute ≤ 59
    → read_hour half h minute ≡ parsed m
    → m ≤ 1440
unfolding read_hour
read_hour_bound none h none m k e = ground arith
read_hour_bound none h (some n) m k e = ground arith
read_hour_bound (some am) h minute m k e = ground arith
read_hour_bound (some pm) h minute m k e = ground arith

-- Every time lies within the day, its end included.
pub clock_minutes_bound : (t : Option TimeText) (m : ℕ) → clock_minutes t ≡ parsed m → m ≤ 1440
unfolding clock_minutes
clock_minutes_bound none m h = cc
clock_minutes_bound (some t) m h =
    let (u, within, rest) = >>=-eq-parsed (require (leb (or_zero t.minute) 59) _) _ h in
    let le = leb_le (or_zero t.minute) 59 (require-eq-parsed _ _ within) in
    read_hour_bound t.meridiem t.hour t.minute m le rest
  where
    leb_le : (a b : ℕ) → leb a b ≡ true → a ≤ b
    leb_le a b h = ground arith

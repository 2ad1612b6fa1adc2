-- ===== src/FieldTypes/Dates.antt =====
-- The dates of the calendar (companydata/fieldtypes.go: IsCalendarDate, daysInMonth).
use company_data_go.Prelude.{
  ℕ, ◌+◌, ◌/◌, ◌%◌, ◌≤◌, ◌<◌, ◌≡◌, ◌↔◌, refl, true, false, Bool-cases, inl, inr, not, ◌&&◌, ◌||◌,
  Option, some, List, ◌∷◌, ◌++◌, ◌==◌, ltb, leb, if◌then◌else◌, arith,
}
use company_data_go.Buffer.Decimal.{digits_value, pad, pow10}
use company_data_go.Buffer.ReadBack.{digits_value-pad}
use company_data_go.FieldTypes.Checks.{days_in_month, is_day, is_day_of, is_calendar_date}

-- YYYY-MM-DD.
abbrev pub date_text : ℕ → ℕ → ℕ → List ℕ
date_text year month day = pad 4 year ++ (b'-' ∷ (pad 2 month ++ (b'-' ∷ pad 2 day)))

-- Months alternate between 31 and 30 days, with a turn at August; February has 28 or 29.
abbrev pub month_length : ℕ → ℕ → ℕ
month_length year month =
    if month == 2
    then (if (year % 400 == 0) || ((year % 4 == 0) && not (year % 100 == 0)) then 29 else 28)
    else 30 + (month + month / 8) % 2

pub record IsDay (year month day : ℕ) : Type 0 where
  pub from_january : 1 ≤ month
  pub to_december : month ≤ 12
  pub from_first : 1 ≤ day
  pub to_last : day ≤ month_length year month

is_calendar_date-text :
    (y m d : ℕ)
    → y < pow10 4
    → m < pow10 2
    → d < pow10 2
    → is_calendar_date (date_text y m d) ≡ is_day y m d
unfolding is_calendar_date pad
is_calendar_date-text y m d hy hm hd =
    read_as (digits_value 0 (pad 4 y)) (digits_value 0 (pad 2 m)) (digits_value 0 (pad 2 d))
      (digits_value-pad 4 y hy) (digits_value-pad 2 m hm) (digits_value-pad 2 d hd)
  where
    read_as :
        (a b c : Option ℕ) → a ≡ some y → b ≡ some m → c ≡ some d → is_day_of a b c ≡ is_day y m d
    read_as a b c p q r = rw (p, q, r) refl

days_in_month-length : (y m : ℕ) → 1 ≤ m → m ≤ 12 → days_in_month y m ≡ month_length y m
unfolding days_in_month
days_in_month-length y m h k = ground arith

both_leb : (d l : ℕ) → (leb 1 d && leb d l) ≡ true → (1 ≤ d) × (d ≤ l)
both_leb d l h = ground arith

leb_both : (d l : ℕ) → 1 ≤ d → d ≤ l → (leb 1 d && leb d l) ≡ true
leb_both d l h k = ground arith

is_day-IsDay : (y m d : ℕ) → (is_day y m d ≡ true) ↔ IsDay y m d
unfolding is_day
is_day-IsDay y m d = elim (Bool-cases (ltb m 1 || ltb 12 m)) [
  | inl h ↦ rw h (λ k. cc, λ k. absurd (outside k h))
  | inr h ↦
      let (above, below) = inside m h in
      rw h (rw (days_in_month-length y m above below) (within above below))
]
  where
    outside : IsDay y m d → (ltb m 1 || ltb 12 m) ≡ true → ⊥
    outside k h = let a = k.from_january in let b = k.to_december in ground arith

    inside : (m : ℕ) → (ltb m 1 || ltb 12 m) ≡ false → (1 ≤ m) × (m ≤ 12)
    inside m h = ground arith

    within : 1 ≤ m → m ≤ 12 → ((leb 1 d && leb d (month_length y m)) ≡ true) ↔ IsDay y m d
    within a b = (
      λ k. made (both_leb d (month_length y m) k),
      λ k. leb_both d (month_length y m) k.from_first k.to_last,
    )
      where
        made : (1 ≤ d) × (d ≤ month_length y m) → IsDay y m d
        made (c, e) = record { from_january = a; to_december = b; from_first = c; to_last = e }

-- A text YYYY-MM-DD is accepted exactly when it names a day of the Gregorian calendar.
pub is_calendar_date-IsDay :
    (y m d : ℕ)
    → y < pow10 4
    → m < pow10 2
    → d < pow10 2
    → (is_calendar_date (date_text y m d) ≡ true) ↔ IsDay y m d
is_calendar_date-IsDay y m d hy hm hd =
    rw (is_calendar_date-text y m d hy hm hd) (is_day-IsDay y m d)

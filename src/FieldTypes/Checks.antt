-- ===== src/FieldTypes/Checks.antt =====
-- Calendar dates and card numbers (companydata/fieldtypes.go: daysInMonth, IsCalendarDate, luhnOK).
-- A value is the list of its bytes.
use company_data_go.Prelude.{
  ℕ, ◌+◌, ◌-◌, ◌*◌, ◌%◌, Bool, true, false, not, ◌&&◌, ◌||◌, Option, none, some, List, [], ◌∷◌,
  reverse, ◌==◌, ltb, leb, if◌then◌else◌,
}
use company_data_go.Buffer.Decimal.{is_digit, digits_value}

-- `daysInMonthTable[month - 1]`; the callers have tested the month.
abbrev pub days_in_month_table : ℕ → ℕ
days_in_month_table month =
    if month == 4 || month == 6 || month == 9 || month == 11
    then 30
    else if month == 2
    then 28
    else 31

unfoldable pub days_in_month : ℕ → ℕ → ℕ
days_in_month year month =
    if month == 2
    then (if (year % 4 == 0 && not (year % 100 == 0)) || year % 400 == 0 then 29 else 28)
    else days_in_month_table month

-- The tests on the numbers of a date.
unfoldable pub is_day : ℕ → ℕ → ℕ → Bool
unfolding days_in_month
is_day year month day =
    if ltb month 1 || ltb 12 month then false else leb 1 day && leb day (days_in_month year month)

abbrev pub is_day_of : Option ℕ → Option ℕ → Option ℕ → Bool
is_day_of (some year) (some month) (some day) = is_day year month day
is_day_of (some year) (some month) none = false
is_day_of (some year) none day = false
is_day_of none month day = false

-- `fieldDateRE` takes ten bytes: four digits, a dash, two digits, a dash and two digits.
unfoldable pub is_calendar_date : List ℕ → Bool
is_calendar_date (a ∷ b ∷ c ∷ d ∷ e ∷ f ∷ g ∷ h ∷ i ∷ j ∷ []) =
    if e == b'-' && h == b'-'
    then is_day_of (digits_value 0 (a ∷ b ∷ c ∷ d ∷ [])) (digits_value 0 (f ∷ g ∷ []))
        (digits_value 0 (i ∷ j ∷ []))
    else false
is_calendar_date _ = false

-- The value of a digit that may be doubled.
abbrev pub luhn_digit : Bool → ℕ → ℕ
luhn_digit false d = d
luhn_digit true d = if ltb 9 (d * 2) then d * 2 - 9 else d * 2

-- The loop of `luhnOK` from the last digit on; `none` is its early return.
unfoldable pub luhn_loop : List ℕ → Bool → ℕ → Option ℕ
luhn_loop [] dbl total = some total
luhn_loop (c ∷ cs) dbl total =
    let rest = luhn_loop cs (not dbl) (total + luhn_digit dbl (c - 48)) in
    if is_digit c then rest else none

abbrev pub is_multiple : Option ℕ → Bool
is_multiple none = false
is_multiple (some total) = total % 10 == 0

unfoldable pub luhn_ok : List ℕ → Bool
unfolding luhn_loop
luhn_ok digits = is_multiple (luhn_loop (reverse digits) false 0)

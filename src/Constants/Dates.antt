-- ===== src/Constants/Dates.antt =====
-- Dates and the differences between them (companydata/flowconstants.go: parseFlowDate, diffDays,
-- diffMonths, diffYears).
use company_data_go.Prelude.{
  ℕ, zero, suc, ◌+◌, ◌-◌, ◌*◌, ◌/◌, Bool, ◌&&◌, ◌||◌, Option, none, some, List, [], ◌∷◌, ℤ, pos,
  negsuc, max_int64, sub_nat, ◌+ℤ◌, times_ℤ, quot_ℤ, codes, eqb, ltb, ◌==◌, if◌then◌else◌,
}
use company_data_go.Json.{Value, string}
use company_data_go.Buffer.Decimal.{digits_value, trim_space}
use company_data_go.FieldTypes.Checks.{days_in_month, is_day}
use company_data_go.FieldTypes.Dates.{date_text}

-- A time.Time at midnight in UTC.
pub record Day : Type 0 where
  pub year : ℕ
  pub month : ℕ
  pub day : ℕ

abbrev pub date : ℕ → ℕ → ℕ → Day
date y m d = record { year = y; month = m; day = d }

-- time.Parse tests the numbers; the text is then compared with what the date prints as.
abbrev pub day_from : List ℕ → Option ℕ → Option ℕ → Option ℕ → Option Day
day_from s (some y) (some m) (some d) =
    if is_day y m d && eqb (date_text y m d) s then some (date y m d) else none
day_from s (some y) (some m) none = none
day_from s (some y) none d = none
day_from s none m d = none

-- The layout 2006-01-02 takes ten bytes.
unfoldable pub parse_day : List ℕ → Option Day
parse_day (a ∷ b ∷ c ∷ d ∷ e ∷ f ∷ g ∷ h ∷ i ∷ j ∷ []) =
    if e == b'-' && h == b'-'
    then day_from (a ∷ b ∷ c ∷ d ∷ e ∷ f ∷ g ∷ h ∷ i ∷ j ∷ []) (digits_value 0 (a ∷ b ∷ c ∷ d ∷ []))
        (digits_value 0 (f ∷ g ∷ [])) (digits_value 0 (i ∷ j ∷ []))
    else none
parse_day _ = none

unfoldable pub parse_flow_date : Value → Option Day
unfolding parse_day
parse_flow_date (string s) = parse_day (trim_space (codes s))
parse_flow_date _ = none

-- The days of the months before month `m`.
unfoldable pub days_before : ℕ → ℕ → ℕ
days_before y zero = 0
days_before y (suc m) = days_before y m + (if m == 0 then 0 else days_in_month y m)

-- The days of the years before `y`; year 0 is a leap year.
abbrev pub days_before_year : ℕ → ℕ
days_before_year y = 365 * y + (y + 3) / 4 + (y + 399) / 400 - (y + 99) / 100

unfoldable pub day_number : Day → ℕ
unfolding days_before
day_number d = days_before_year d.year + days_before d.year d.month + d.day

-- 24 * time.Hour.
abbrev pub day_ns : ℕ
day_ns = 86400000000000

-- `t.Sub(u)` stops at the largest and the smallest duration.
abbrev pub saturated : ℤ → ℤ
saturated (pos n) = if ltb max_int64 n then pos max_int64 else pos n
saturated (negsuc n) = if ltb max_int64 n then negsuc max_int64 else negsuc n

abbrev pub time_sub : Day → Day → ℤ
time_sub t u = saturated (sub_nat (day_number t * day_ns) (day_number u * day_ns))

unfoldable pub diff_days : Day → Day → ℤ
diff_days from to = quot_ℤ (time_sub to from) day_ns

abbrev pub less_one : Bool → ℤ → ℤ
less_one b n = if b then n +ℤ negsuc 0 else n

unfoldable pub diff_months : Day → Day → ℤ
diff_months from to =
    less_one (ltb to.day from.day)
      (times_ℤ (sub_nat to.year from.year) 12 +ℤ sub_nat to.month from.month)

unfoldable pub diff_years : Day → Day → ℤ
diff_years from to =
    less_one (ltb to.month from.month || (to.month == from.month && ltb to.day from.day))
      (sub_nat to.year from.year)

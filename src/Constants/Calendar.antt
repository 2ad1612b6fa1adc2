-- ===== src/Constants/Calendar.antt =====
-- The days between two dates (companydata/flowconstants.go: parseFlowDate, diffDays).
use company_data_go.Prelude.{
  ℕ, zero, suc, ◌+◌, ◌-◌, ◌*◌, ◌%◌, ◌≤◌, ◌<◌, ◌≡◌, refl, ap, ◌∙◌, Bool, true, false, Bool-cases,
  inl, inr, not, ◌&&◌, ◌||◌, Option, none, some, List, [], ◌∷◌, pos, negsuc, sub_nat, neg_ℤ, quot_ℤ,
  eqb, ltb, leb, ◌==◌, if◌then◌else◌, arith,
}
use company_data_go.FieldTypes.Checks.{days_in_month, is_day}
use company_data_go.Buffer.Decimal.{digits_value, pad, pow10}
use company_data_go.Buffer.ReadBack.{digits_value-pad}
use company_data_go.FieldTypes.Dates.{date_text}
use company_data_go.Constants.Dates.{
  Day, date, day_from, parse_day, days_before, days_before_year, day_number, day_ns, saturated,
  diff_days,
}

-- The day after a day.
abbrev pub tomorrow : Day → Day
tomorrow d =
    if ltb d.day (days_in_month d.year d.month)
    then date d.year d.month (d.day + 1)
    else if ltb d.month 12
    then date d.year (d.month + 1) 1
    else date (d.year + 1) 1 1

-- `n` days later.
abbrev pub days_later : ℕ → Day → Day
days_later zero d = d
days_later (suc n) d = days_later n (tomorrow d)

-- A day of the calendar.
pub record IsDate (d : Day) : Type 0 where
  pub from_january : 1 ≤ d.month
  pub to_december : d.month ≤ 12
  pub from_first : 1 ≤ d.day
  pub to_last : d.day ≤ days_in_month d.year d.month

days_before-next : (y m : ℕ) → 1 ≤ m → days_before y (m + 1) ≡ days_before y m + days_in_month y m
unfolding days_before
days_before-next y m h = ap (days_before y) {y = suc m} (omega arith) ∙ next m h
  where
    next : (m : ℕ) → 1 ≤ m → days_before y (suc m) ≡ days_before y m + days_in_month y m
    next m h = rw (positive m h) refl
      where
        positive : (m : ℕ) → 1 ≤ m → (m == 0) ≡ false
        positive m h = ground arith

year_days :
    (y : ℕ)
    → days_before y 12 + 31
      ≡ (if (y % 4 == 0 && not (y % 100 == 0)) || y % 400 == 0 then 366 else 365)
unfolding days_before days_in_month
year_days y = ground arith

days_before_year-next :
    (y : ℕ)
    → days_before_year (y + 1)
      ≡ days_before_year y
        + (if (y % 4 == 0 && not (y % 100 == 0)) || y % 400 == 0 then 366 else 365)
days_before_year-next y = ground arith

december_days : (y : ℕ) → days_in_month y 12 ≡ 31
unfolding days_in_month
december_days y = refl

day_number-tomorrow : (d : Day) → IsDate d → day_number (tomorrow d) ≡ suc (day_number d)
unfolding day_number
day_number-tomorrow d h = elim (Bool-cases (ltb d.day (days_in_month d.year d.month))) [
  | inl e ↦ rw e (omega arith)
  | inr e ↦ elim (Bool-cases (ltb d.month 12)) [
    | inl k ↦ rw (e, k) (next_month d.year d.month d.day h.from_january (last_day e))
    | inr k ↦ rw (e, k) (next_year d.year d.month d.day (december k) (last_day e))
  ]
]
  where
    last_day :
        ltb d.day (days_in_month d.year d.month) ≡ false → d.day ≡ days_in_month d.year d.month
    last_day e = at_most d.day (days_in_month d.year d.month) h.to_last e
      where
        at_most : (a b : ℕ) → a ≤ b → ltb a b ≡ false → a ≡ b
        at_most a b h k = ground arith

    december : ltb d.month 12 ≡ false → d.month ≡ 12
    december k = at_end d.month h.to_december k
      where
        at_end : (a : ℕ) → a ≤ 12 → ltb a 12 ≡ false → a ≡ 12
        at_end a h k = ground arith

    next_month :
        (y m a : ℕ)
        → 1 ≤ m
        → a ≡ days_in_month y m
        → days_before_year y + days_before y (m + 1) + 1
          ≡ suc (days_before_year y + days_before y m + a)
    next_month y m a p q = rw (days_before-next y m p, q) (omega arith)

    next_year :
        (y m a : ℕ)
        → m ≡ 12
        → a ≡ days_in_month y m
        → days_before_year (y + 1) + days_before (y + 1) 1 + 1
          ≡ suc (days_before_year y + days_before y m + a)
    next_year y m a p q = december y m a p (rw p at q)
      where
        december :
            (y m a : ℕ)
            → m ≡ 12
            → a ≡ days_in_month y 12
            → days_before_year (y + 1) + 0 + 1 ≡ suc (days_before_year y + days_before y m + a)
        december y m a p q =
            rw p (omega (arith, q, december_days y, days_before_year-next y, year_days y))

diff_days_lem :
    (from to : Day)
    → diff_days from to ≡ (
        if leb (day_number from) (day_number to)
        then (if leb 106751 (day_number to - day_number from)
            then pos 106751
            else pos (day_number to - day_number from))
        else if leb 106751 (day_number from - day_number to)
        then negsuc 106750
        else neg_ℤ (day_number from - day_number to))
unfolding diff_days
diff_days_lem from to = within (day_number from) (day_number to)
  where
    within :
        (a b : ℕ)
        → quot_ℤ (saturated (sub_nat (b * day_ns) (a * day_ns))) day_ns ≡ (
            if leb a b
            then (if leb 106751 (b - a) then pos 106751 else pos (b - a))
            else if leb 106751 (a - b)
            then negsuc 106750
            else neg_ℤ (a - b))
    within a b = ground arith

month_days : (y m : ℕ) → 1 ≤ days_in_month y m
unfolding days_in_month
month_days y m = ground arith

IsDate-tomorrow : (d : Day) → IsDate d → IsDate (tomorrow d)
IsDate-tomorrow d h = elim (Bool-cases (ltb d.day (days_in_month d.year d.month))) [
  | inl e ↦ rw e (record {
    from_january = h.from_january;
    to_december = h.to_december;
    from_first = omega arith;
    to_last = below d.day (days_in_month d.year d.month) e;
  })
  | inr e ↦ elim (Bool-cases (ltb d.month 12)) [
    | inl k ↦
        rw (e, k)
          (record {
            from_january = omega arith;
            to_december = below d.month 12 k;
            from_first = omega arith;
            to_last = month_days d.year (d.month + 1);
          })
    | inr k ↦
        rw (e, k)
          (record {
            from_january = omega arith;
            to_december = omega arith;
            from_first = omega arith;
            to_last = month_days (d.year + 1) 1;
          })
  ]
]
  where
    below : (a b : ℕ) → ltb a b ≡ true → a + 1 ≤ b
    below a b h = ground arith

day_number-days_later :
    (n : ℕ) (d : Day) → IsDate d → day_number (days_later n d) ≡ n + day_number d
day_number-days_later zero d h = omega arith
day_number-days_later (suc n) d h =
    day_number-days_later n (tomorrow d) (IsDate-tomorrow d h)
    ∙ omega (arith, day_number-tomorrow d h)

-- The difference between a day of the calendar and the one that comes `n` days later is `n`, up to 106751; from there on it stays
-- at 106751.
pub diff_days-days_later :
    (n : ℕ) (d : Day)
    → IsDate d
    → diff_days d (days_later n d) ≡ pos (if ltb 106751 n then 106751 else n)
diff_days-days_later n d h =
    diff_days_lem d (days_later n d) ∙ rw (day_number-days_later n d h) (later n (day_number d))
  where
    later :
        (n a : ℕ)
        → (if leb a (n + a)
            then (if leb 106751 (n + a - a) then pos 106751 else pos (n + a - a))
            else if leb 106751 (a - (n + a))
            then negsuc 106750
            else neg_ℤ (a - (n + a)))
          ≡ pos (if ltb 106751 n then 106751 else n)
    later n a = ground arith

-- ── reading a date ──

eqb_refl : (s : List ℕ) → eqb s s ≡ true
eqb_refl [] = refl
eqb_refl (c ∷ cs) = let ih = eqb_refl cs in ground arith

-- A text YYYY-MM-DD is read as the date that it spells if that is a day of the calendar, and else
-- as none.
pub parse_day-date_text :
    (y m d : ℕ)
    → y < pow10 4
    → m < pow10 2
    → d < pow10 2
    → parse_day (date_text y m d) ≡ (if is_day y m d then some (date y m d) else none)
unfolding parse_day pad
parse_day-date_text y m d hy hm hd =
    read_as (digits_value 0 (pad 4 y)) (digits_value 0 (pad 2 m)) (digits_value 0 (pad 2 d))
      (digits_value-pad 4 y hy) (digits_value-pad 2 m hm) (digits_value-pad 2 d hd)
  where
    read_as :
        (a b c : Option ℕ)
        → a ≡ some y
        → b ≡ some m
        → c ≡ some d
        → day_from (date_text y m d) a b c ≡ (if is_day y m d then some (date y m d) else none)
    read_as a b c p q r = rw (p, q, r) (rw (eqb_refl (date_text y m d)) (and_true (is_day y m d)))
      where
        and_true :
            (b : Bool)
            → (if b && true then some (date y m d) else none)
              ≡ (if b then some (date y m d) else none)
        and_true b = ground arith

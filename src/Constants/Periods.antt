-- ===== src/Constants/Periods.antt =====
-- Months and years between two dates (companydata/flowconstants.go: diffMonths, diffYears).
use company_data_go.Prelude.{
  ℕ, suc, ◌+◌, ◌-◌, ◌*◌, ◌/◌, ◌≤◌, ◌<◌, ◌≡◌, refl, sym, ap, ◌∙◌, Bool, true, false, Bool-cases, inl,
  inr, ◌&&◌, ◌||◌, ℤ, pos, negsuc, sub_nat, sub_nat-add, ◌+ℤ◌, times_ℤ, neg_ℤ, ltb, leb, ◌==◌,
  if◌then◌else◌, arith,
}
use company_data_go.Constants.Dates.{Day, less_one, diff_months, diff_years}

-- The whole part of a division, rounded down.
abbrev pub floor_div : ℤ → ℕ → ℤ
floor_div (pos n) k = pos (n / k)
floor_div (negsuc n) k = negsuc (n / k)

neg_suc : (n m : ℕ) → n ≡ suc m → neg_ℤ n ≡ negsuc m
neg_suc n m h = rw h refl

times_ℤ-sub_nat : (a b : ℕ) → times_ℤ (sub_nat a b) 12 ≡ sub_nat (a * 12) (b * 12)
times_ℤ-sub_nat a b = elim (Bool-cases (leb b a)) [
  | inl e ↦ rw e (higher a b e)
  | inr e ↦ rw e (lower a b e)
]
  where
    higher : (a b : ℕ) → leb b a ≡ true → pos ((a - b) * 12) ≡ sub_nat (a * 12) (b * 12)
    higher a b h = ground arith

    lower : (a b : ℕ) → leb b a ≡ false → neg_ℤ (suc (b - a - 1) * 12) ≡ sub_nat (a * 12) (b * 12)
    lower a b h =
        neg_suc (suc (b - a - 1) * 12) (b * 12 - a * 12 - 1) (ground arith)
        ∙ below (a * 12) (b * 12) (ground arith)
      where
        below : (x y : ℕ) → x < y → negsuc (y - x - 1) ≡ sub_nat x y
        below x y h = ground arith

less_one-sub_nat :
    (c : Bool) (a b : ℕ) → less_one c (sub_nat a b) ≡ sub_nat a (b + (if c then 1 else 0))
less_one-sub_nat true a b = ground arith
less_one-sub_nat false a b = ground arith

floor_years :
    (ty tm td fy fm fd : ℕ)
    → 1 ≤ fm
    → fm ≤ 12
    → 1 ≤ tm
    → tm ≤ 12
    → sub_nat ty (fy + (if ltb tm fm || (tm == fm && ltb td fd) then 1 else 0))
      ≡ floor_div (sub_nat (ty * 12 + tm) (fy * 12 + fm + (if ltb td fd then 1 else 0))) 12
floor_years ty tm td fy fm fd a b c d = ground arith

-- The years between two dates are the months between them over twelve, rounded down.
pub diff_years-diff_months :
    (from to : Day)
    → 1 ≤ from.month
    → from.month ≤ 12
    → 1 ≤ to.month
    → to.month ≤ 12
    → diff_years from to ≡ floor_div (diff_months from to) 12
unfolding diff_years diff_months
diff_years-diff_months from to a b c d =
    less_one-sub_nat _ to.year from.year
    ∙ (floor_years to.year to.month to.day from.year from.month from.day a b c d
        ∙ ap (λ z. floor_div z 12)
            (sym (
              ap (less_one (ltb to.day from.day)) (
                ap (λ z. z +ℤ sub_nat to.month from.month) (times_ℤ-sub_nat to.year from.year)
                ∙ sub_nat-add (to.year * 12) (from.year * 12) to.month from.month)
              ∙ less_one-sub_nat (ltb to.day from.day) (to.year * 12 + to.month)
                  (from.year * 12 + from.month))))

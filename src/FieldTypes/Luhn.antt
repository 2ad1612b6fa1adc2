-- ===== src/FieldTypes/Luhn.antt =====
-- The checksum of a card number (companydata/fieldtypes.go: luhnOK).
use mathlib.Core.List.{reverse-cons, reverse-append}
use company_data_go.Prelude.{
  ℕ, ◌+◌, ◌-◌, ◌%◌, ◌≡◌, ◌≢◌, refl, sym, ap, ◌∙◌, Bool, true, false, not, some, List, [], ◌∷◌, ◌++◌,
  reverse, ◌==◌, All, All-append, arith,
}
use company_data_go.Buffer.Decimal.{is_digit}
use company_data_go.FieldTypes.Checks.{luhn_digit, luhn_loop, luhn_ok}

abbrev pub AreDigits : List ℕ → Type 0
AreDigits = All (λ c. is_digit c ≡ true)

abbrev weight : List ℕ → Bool → ℕ
weight [] dbl = 0
weight (c ∷ cs) dbl = luhn_digit dbl (c - 48) + weight cs (not dbl)

-- Whether the digit after these is doubled.
abbrev flips : List ℕ → Bool → Bool
flips [] dbl = dbl
flips (c ∷ cs) dbl = flips cs (not dbl)

luhn_loop-weight :
    (cs : List ℕ) (dbl : Bool) (total : ℕ)
    → AreDigits cs
    → luhn_loop cs dbl total ≡ some (total + weight cs dbl)
unfolding luhn_loop
luhn_loop-weight [] dbl total h = ap some (omega arith)
luhn_loop-weight (c ∷ cs) dbl total h =
    rw (h.0, luhn_loop-weight cs (not dbl) (total + luhn_digit dbl (c - 48)) h.1)
      (ap some (omega arith))

weight-append :
    (a b : List ℕ) (dbl : Bool) → weight (a ++ b) dbl ≡ weight a dbl + weight b (flips a dbl)
weight-append [] b dbl = omega arith
weight-append (c ∷ a) b dbl = omega (arith, weight-append a b (not dbl))

flips-last : (a : List ℕ) (c : ℕ) (dbl : Bool) → flips (a ++ (c ∷ [])) dbl ≡ not (flips a dbl)
flips-last [] c dbl = refl
flips-last (x ∷ a) c dbl = flips-last a c (not dbl)

reverse-AreDigits : (cs : List ℕ) → AreDigits cs → AreDigits (reverse cs)
reverse-AreDigits [] h = tt
reverse-AreDigits (c ∷ cs) h =
    rw (reverse-cons c cs) (
      All-append (λ c. is_digit c ≡ true) (reverse cs) (c ∷ []) (reverse-AreDigits cs h.1)
        (h.0, tt))

-- The total from the last digit on, cut at one digit.
luhn_ok-split :
    (p s : List ℕ) (c : ℕ)
    → AreDigits p
    → AreDigits s
    → is_digit c ≡ true
    → luhn_ok (p ++ c ∷ s) ≡ (
        (weight (reverse s) false
            + luhn_digit (flips (reverse s) false) (c - 48)
            + weight (reverse p) (not (flips (reverse s) false)))
          % 10
        == 0)
unfolding luhn_ok
luhn_ok-split p s c hp hs hc =
    rw (reverse-append p (c ∷ s), reverse-cons c s)
      (rw
        (
          luhn_loop-weight ((reverse s ++ (c ∷ [])) ++ reverse p) false 0 all_digits,
          weight-append (reverse s ++ (c ∷ [])) (reverse p) false,
          weight-append (reverse s) (c ∷ []) false,
          flips-last (reverse s) c false,
        )
        (ap (λ n. n % 10 == 0) (omega arith)))
  where
    all_digits : AreDigits ((reverse s ++ (c ∷ [])) ++ reverse p)
    all_digits =
        All-append (λ x. is_digit x ≡ true) (reverse s ++ (c ∷ [])) (reverse p)
          (All-append (λ x. is_digit x ≡ true) (reverse s) (c ∷ []) (reverse-AreDigits s hs)
            (hc, tt))
          (reverse-AreDigits p hp)

differs :
    (dbl : Bool) (c d k l : ℕ)
    → is_digit c ≡ true
    → is_digit d ≡ true
    → c ≢ d
    → ((k + luhn_digit dbl (c - 48) + l) % 10 == 0) ≡ true
    → ((k + luhn_digit dbl (d - 48) + l) % 10 == 0) ≡ false
differs true c d k l hc hd ne h = ground arith
differs false c d k l hc hd ne h = ground arith

-- A card number with one digit mistaken for another never passes the checksum.
pub luhn_ok_mistaken :
    (p s : List ℕ) (c d : ℕ)
    → AreDigits p
    → AreDigits s
    → is_digit c ≡ true
    → is_digit d ≡ true
    → c ≢ d
    → luhn_ok (p ++ c ∷ s) ≡ true
    → luhn_ok (p ++ d ∷ s) ≡ false
luhn_ok_mistaken p s c d hp hs hc hd ne h =
    luhn_ok-split p s d hp hs hd
    ∙ differs (flips (reverse s) false) c d (weight (reverse s) false)
        (weight (reverse p) (not (flips (reverse s) false))) hc hd ne
        (sym (luhn_ok-split p s c hp hs hc) ∙ h)

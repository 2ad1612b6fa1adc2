-- ===== src/Buffer/ReadBack.antt =====
-- What strconv.Atoi reads from the numbers that the buffer writes.
use company_data_go.Prelude.{
  ℕ, zero, suc, ◌+◌, ◌-◌, ◌*◌, ◌/◌, ◌%◌, ◌≤◌, ◌<◌, ◌≡◌, refl, true, Option, none, some, List, [],
  ◌∷◌, ◌++◌, All, All-append, pos, arith, ltb, max_int64, Bool-cases, ◌≢◌, inl, inr,
}
use company_data_go.Buffer.Decimal.{
  is_digit, digits_of, itoa, pad, pow10, digits_value, atoi, trim_left, trim_right, trim_space,
}

abbrev pub AllDigits : List ℕ → Type 0
AllDigits x = All (λ c. is_digit c ≡ true) x

abbrev then_digit : Option ℕ → ℕ → Option ℕ
then_digit none d = none
then_digit (some v) d = some (v * 10 + d)

digits_value-append :
    (acc : ℕ) (x : List ℕ) (d : ℕ)
    → d < 10
    → digits_value acc (x ++ (48 + d) ∷ []) ≡ then_digit (digits_value acc x) d
digits_value-append acc [] d h = ground arith
digits_value-append acc (c ∷ x) d h =
    ground (arith, digits_value-append (acc * 10 + (c - 48)) x d h)

pub digits_value-pad : (w n : ℕ) → n < pow10 w → digits_value 0 (pad w n) ≡ some n
unfolding pad
digits_value-pad zero n h = ground arith
digits_value-pad (suc w) n h =
    rw
      (
        digits_value-append 0 (pad w (n / 10)) (n % 10) (omega arith),
        digits_value-pad w (n / 10) (omega arith),
      )
      (ground arith)

digits_value-digits_of : (f n : ℕ) → n < f → digits_value 0 (digits_of f n) ≡ some n
unfolding digits_of
digits_value-digits_of zero n h = absurd (omega arith)
digits_value-digits_of (suc f) n h = elim (Bool-cases (ltb n 10)) [
  | inl small ↦ rw small (ground arith)
  | inr large ↦
      rw
        (
          large,
          digits_value-append 0 (digits_of f (n / 10)) (n % 10) (omega arith),
          digits_value-digits_of f (n / 10) (ground arith),
        )
        (ground arith)
]

pad-AllDigits : (w n : ℕ) → AllDigits (pad w n)
unfolding pad
pad-AllDigits zero n = tt
pad-AllDigits (suc w) n =
    All-append (λ c. is_digit c ≡ true) (pad w (n / 10)) _ (pad-AllDigits w (n / 10))
      (ground arith, tt)

digits_of-AllDigits : (f n : ℕ) → AllDigits (digits_of f n)
unfolding digits_of
digits_of-AllDigits zero n = tt
digits_of-AllDigits (suc f) n = elim (Bool-cases (ltb n 10)) [
  | inl small ↦ rw small (ground arith, tt)
  | inr large ↦ rw large (
      All-append (λ c. is_digit c ≡ true) (digits_of f (n / 10)) _ (digits_of-AllDigits f (n / 10))
        (ground arith, tt))
]

-- Digits with a value in range are read as that value.
atoi-digits :
    (x : List ℕ) (n : ℕ)
    → AllDigits x
    → digits_value 0 x ≡ some n
    → n ≤ max_int64
    → x ≢ []
    → atoi x ≡ some (pos n)
unfolding atoi
atoi-digits [] n d v h e = absurd (e refl)
atoi-digits (c ∷ x) n d v h e = ground (arith, d.0)

trim_right-digits : (x : List ℕ) → AllDigits x → trim_right x ≡ x
trim_right-digits [] d = refl
trim_right-digits (c ∷ []) d = ground (arith, d.0)
trim_right-digits (c ∷ b ∷ x) d = rw (trim_right-digits (b ∷ x) d.1)

trim_left-digits : (x : List ℕ) → AllDigits x → trim_left x ≡ x
trim_left-digits [] d = refl
trim_left-digits (c ∷ x) d = ground (arith, d.0)

trim_space-digits : (x : List ℕ) → AllDigits x → trim_space x ≡ x
unfolding trim_space
trim_space-digits x d = rw (trim_left-digits x d) (trim_right-digits x d)

append-ne-nil : (x : List ℕ) (c : ℕ) → x ++ c ∷ [] ≢ []
append-ne-nil [] c e = cc
append-ne-nil (b ∷ x) c e = cc

-- A sequence number in a file name is read back.
pub atoi-pad : (n : ℕ) → n < pow10 16 → atoi (pad 16 n) ≡ some (pos n)
atoi-pad n h =
    atoi-digits (pad 16 n) n (pad-AllDigits 16 n) (digits_value-pad 16 n h) (omega arith)
      (unfold pad in append-ne-nil (pad 15 (n / 10)) (48 + n % 10))

digits_of-ne-nil : (f n : ℕ) → digits_of (suc f) n ≢ []
unfolding digits_of
digits_of-ne-nil f n e = elim (Bool-cases (ltb n 10)) [
  | inl small ↦ ground arith
  | inr large ↦ append-ne-nil (digits_of f (n / 10)) (48 + n % 10) (rw large at e)
]

-- The number in `.seq` is read back.
pub atoi-itoa : (n : ℕ) → n ≤ max_int64 → atoi (trim_space (itoa (pos n))) ≡ some (pos n)
unfolding itoa
atoi-itoa n h = rw (trim_space-digits (digits_of (suc n) n) (digits_of-AllDigits (suc n) n)) (
    atoi-digits (digits_of (suc n) n) n (digits_of-AllDigits (suc n) n)
      (digits_value-digits_of (suc n) n (omega arith)) h (digits_of-ne-nil n n))

-- Without the trimming, as json.Number is read.
pub atoi-itoa_plain : (n : ℕ) → n ≤ max_int64 → atoi (itoa (pos n)) ≡ some (pos n)
unfolding itoa
atoi-itoa_plain n h =
    atoi-digits (digits_of (suc n) n) n (digits_of-AllDigits (suc n) n)
      (digits_value-digits_of (suc n) n (omega arith)) h (digits_of-ne-nil n n)

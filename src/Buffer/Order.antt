-- ===== src/Buffer/Order.antt =====
-- File names in the order of their sequence numbers.
use mathlib.Core.List.{append_assoc}
use company_data_go.Prelude.{
  ℕ, zero, suc, ◌+◌, ◌/◌, ◌%◌, ◌≤◌, ◌<◌, ◌≡◌, refl, ap, true, false, ◌&&◌, not, some, List, [], ◌∷◌,
  ◌++◌, ◌⊎◌, ◌≢◌, codes, All, All-append, inl, inr, arith, ltb, ◌==◌, eqb, Bool-cases, ltb→lt,
  lt→ltb, String, pos,
}
use company_data_go.Buffer.Decimal.{pad, pow10, zero_padded, is_digit}
use company_data_go.Buffer.Names.{
  file_name, sanitize_id, json_suffix, cut, id_part, has_suffix, has_prefix,
}
use company_data_go.Buffer.Disk.{lex_lt}

lex_lt-append : (p x y : List ℕ) → lex_lt (p ++ x) (p ++ y) ≡ lex_lt x y
unfolding lex_lt
lex_lt-append [] x y = refl
lex_lt-append (c ∷ p) x y = ground (arith, lex_lt-append p x y)

pad_step : (w n : ℕ) (x : List ℕ) → pad (suc w) n ++ x ≡ pad w (n / 10) ++ ((48 + n % 10) ∷ x)
unfolding pad
pad_step w n x = append_assoc (pad w (n / 10)) ((48 + n % 10) ∷ []) x

tenth_cases : (a b : ℕ) → a < b → (a / 10 < b / 10) ⊎ ((a / 10 ≡ b / 10) × (a % 10 < b % 10))
tenth_cases a b h = elim (Bool-cases (ltb (a / 10) (b / 10))) [
  | inl lt ↦ inl (ltb→lt _ _ lt)
  | inr ge ↦ let k : b / 10 ≤ a / 10 = ground arith in inr (omega arith, omega arith)
]

last_digits :
    (a b : ℕ) (x y : List ℕ)
    → a < b
    → (lex_lt (a ∷ x) (b ∷ y) ≡ true) × (lex_lt (b ∷ y) (a ∷ x) ≡ false)
unfolding lex_lt
last_digits a b x y h = ground arith

-- Numbers of at most `w` digits, padded, are ordered as numbers, whatever follows them.
pub lex_lt-pad :
    (w a b : ℕ) (x y : List ℕ)
    → a < b
    → b < pow10 w
    → (lex_lt (pad w a ++ x) (pad w b ++ y) ≡ true) × (lex_lt (pad w b ++ y) (pad w a ++ x) ≡ false)
lex_lt-pad zero a b x y h k = absurd (omega arith)
lex_lt-pad (suc w) a b x y h k =
    rw (pad_step w a x, pad_step w b y)
      (elim (tenth_cases a b h) [
        | inl lt ↦ lex_lt-pad w (a / 10) (b / 10) _ _ lt (omega arith)
        | inr (e, lt) ↦
            rw (e, lex_lt-append (pad w (b / 10)), lex_lt-append (pad w (b / 10)))
              (last_digits (48 + a % 10) (48 + b % 10) x y (omega arith))
      ])

pub eqb_refl : (x : List ℕ) → eqb x x ≡ true
eqb_refl [] = refl
eqb_refl (c ∷ x) = ground (arith, eqb_refl x)

pub eqb_comm : (x y : List ℕ) → eqb x y ≡ eqb y x
eqb_comm [] [] = refl
eqb_comm [] (y ∷ ys) = refl
eqb_comm (x ∷ xs) [] = refl
eqb_comm (x ∷ xs) (y ∷ ys) = ground (arith, eqb_comm xs ys)

-- ── names of the buffer ──

zero_padded-pad : (n : ℕ) → n < pow10 16 → zero_padded (pos n) ≡ pad 16 n
unfolding zero_padded
zero_padded-pad n h = rw (lt→ltb n (pow10 16) h)

name_form :
    (n : ℕ) (id : String)
    → n < pow10 16
    → file_name (pos n) id ≡ pad 16 n ++ (95 ∷ (sanitize_id id ++ json_suffix))
unfolding file_name
name_form n id h = rw (zero_padded-pad n h)

-- Names with a larger sequence number sort later, whatever the ids.
pub lex_lt-file_name :
    (a b : ℕ) (i j : String)
    → a < b
    → b < pow10 16
    → (lex_lt (file_name (pos a) i) (file_name (pos b) j) ≡ true)
      × (lex_lt (file_name (pos b) j) (file_name (pos a) i) ≡ false)
lex_lt-file_name a b i j h k =
    rw (name_form a i (omega arith), name_form b j k) (lex_lt-pad 16 a b _ _ h k)

pub eqb-eq : (x y : List ℕ) → eqb x y ≡ true → x ≡ y
eqb-eq [] [] h = refl
eqb-eq [] (y ∷ ys) h = cc
eqb-eq (x ∷ xs) [] h = cc
eqb-eq (x ∷ xs) (y ∷ ys) h = ground (arith, eqb-eq xs ys)

lex_lt_irrefl : (x : List ℕ) → lex_lt x x ≡ false
unfolding lex_lt
lex_lt_irrefl [] = refl
lex_lt_irrefl (c ∷ x) = ground (arith, lex_lt_irrefl x)

eqb-false : (x y : List ℕ) → (lex_lt x y ≡ true) ⊎ (lex_lt y x ≡ true) → eqb x y ≡ false
eqb-false x y h = elim (Bool-cases (eqb x y)) [
  | inl e ↦ absurd (differ (eqb-eq x y e) h)
  | inr e ↦ e
]
  where
    differ : x ≡ y → (lex_lt x y ≡ true) ⊎ (lex_lt y x ≡ true) → ⊥
    differ e (inl p) = cc (lex_lt_irrefl y, p, ap (λ z. lex_lt z y) e)
    differ e (inr p) = cc (lex_lt_irrefl y, p, ap (λ z. lex_lt y z) e)

-- Names with different sequence numbers differ.
pub eqb-file_name :
    (a b : ℕ) (i j : String)
    → a < b
    → b < pow10 16
    → (eqb (file_name (pos a) i) (file_name (pos b) j) ≡ false)
      × (eqb (file_name (pos b) j) (file_name (pos a) i) ≡ false)
eqb-file_name a b i j h k = (eqb-false _ _ (inl before.0), eqb-false _ _ (inr before.0))
  where
    before :
        (lex_lt (file_name (pos a) i) (file_name (pos b) j) ≡ true)
        × (lex_lt (file_name (pos b) j) (file_name (pos a) i) ≡ false)
    before = lex_lt-file_name a b i j h k

-- ── cutting a name ──

IsDigits : List ℕ → Type 0
IsDigits = All (λ c. is_digit c ≡ true)

pad-IsDigits : (w n : ℕ) → All (λ c. is_digit c ≡ true) (pad w n)
unfolding pad
pad-IsDigits zero n = tt
pad-IsDigits (suc w) n =
    All-append (λ c. is_digit c ≡ true) (pad w (n / 10)) _ (pad-IsDigits w (n / 10))
      (ground arith, tt)

cut-digits : (x y : List ℕ) → All (λ c. is_digit c ≡ true) x → cut (x ++ (95 ∷ y)) ≡ some (x, y)
unfolding cut
cut-digits [] y h = refl
cut-digits (c ∷ x) y h =
    let e : (c == 95) ≡ false = ground (arith, h.0) in rw (e, cut-digits x y h.1)

pub cut-file_name :
    (n : ℕ) (id : String)
    → n < pow10 16
    → cut (file_name (pos n) id) ≡ some (pad 16 n, sanitize_id id ++ json_suffix)
cut-file_name n id h = rw (name_form n id h) (cut-digits (pad 16 n) _ (pad-IsDigits 16 n))

pub id_part-file_name :
    (n : ℕ) (id : String)
    → n < pow10 16
    → id_part (file_name (pos n) id) ≡ sanitize_id id ++ json_suffix
unfolding id_part
id_part-file_name n id h = rw (cut-file_name n id h)

has_suffix-append : (x s : List ℕ) → has_suffix (x ++ s) s ≡ true
unfolding has_suffix
has_suffix-append [] [] = refl
has_suffix-append [] (c ∷ s) = ground (arith, eqb_refl s)
has_suffix-append (c ∷ x) s = ground (arith, has_suffix-append x s)

append-has_suffix : (x y s : List ℕ) → has_suffix y s ≡ true → has_suffix (x ++ y) s ≡ true
unfolding has_suffix
append-has_suffix [] y s h = h
append-has_suffix (c ∷ x) y s h = ground (arith, append-has_suffix x y s h)

not-tmp :
    (x y : List ℕ)
    → All (λ c. is_digit c ≡ true) x
    → x ≢ []
    → has_prefix (x ++ y) (codes ".tmp_") ≡ false
not-tmp [] y d h = absurd (h refl)
not-tmp (c ∷ x) y d h = ground (arith, d.0)

pad-ne-nil : (w n : ℕ) → pad (suc w) n ≢ []
unfolding pad
pad-ne-nil w n = snoc (pad w (n / 10))
  where
    snoc : (x : List ℕ) → x ++ (48 + n % 10) ∷ [] ≢ []
    snoc [] e = cc
    snoc (c ∷ x) e = cc

suffix_self : has_suffix json_suffix json_suffix ≡ true
unfolding has_suffix
suffix_self = refl

-- `listJSON` lists every file that the buffer writes.
pub is_listed-file_name :
    (n : ℕ) (id : String)
    → n < pow10 16
    → (has_suffix (file_name (pos n) id) json_suffix
        && not (has_prefix (file_name (pos n) id) (codes ".tmp_")))
      ≡ true
is_listed-file_name n id h = rw (name_form n id h) (
    rw (
      append-has_suffix (pad 16 n) (95 ∷ (sanitize_id id ++ json_suffix)) json_suffix
          (append-has_suffix (95 ∷ sanitize_id id) json_suffix json_suffix suffix_self),
      not-tmp (pad 16 n) (95 ∷ (sanitize_id id ++ json_suffix)) (pad-IsDigits 16 n)
          (pad-ne-nil 15 n),
    ))

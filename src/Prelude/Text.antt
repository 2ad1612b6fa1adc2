-- ===== src/Prelude/Text.antt =====
-- Text: native strings where the program compares whole texts, lists of code points where it walks
-- them.
use Prim.Native.Char.{Char, char, code, IsScalar}
use Prim.Native.Nat.{ℕ}
use Prim.Native.String.{String}
use mathlib.Core.Bool.{Bool, true, false, ◌&&◌}
use mathlib.Core.List.{List, [], ◌∷◌}
use mathlib.Core.Path.{◌≡◌}
use mathlib.Core.Logic.{inl, inr}
use native.Mathlib.Omega.{arith}
use company_data_go.Prelude.Tests.{◌==◌, ltb, Bool-cases}
pub use text.Mathlib.Text.{◌==◌ as str_eq}
pub use text.Mathlib.TextEquality.{eq_iff}
pub use text.Mathlib.TextPositions.{eq_refl}

-- The code points of a text: its bytes, if it is ASCII.
abbrev pub codes : String → List ℕ
codes String.[] = []
codes (String.◌∷◌ c s) = code c ∷ codes s

-- Equality of two walked texts.
abbrev pub eqb : List ℕ → List ℕ → Bool
eqb [] [] = true
eqb [] (y ∷ ys) = false
eqb (x ∷ xs) [] = false
eqb (x ∷ xs) (y ∷ ys) = x == y && eqb xs ys

-- A scalar value below the surrogates is a character.
pub IsScalar-below : (n : ℕ) → ltb n 55296 ≡ true → IsScalar n
IsScalar-below n h = ground arith

pub IsScalar-above : (n : ℕ) → (ltb 57343 n && ltb n 1114112) ≡ true → IsScalar n
IsScalar-above n h = ground arith

-- What Go writes for a code point that is no character.
abbrev replacement : Char
replacement = char 0xfffd tt

abbrev pub to_char : ℕ → Char
to_char n = elim (Bool-cases (ltb n 55296)) [
  | inl h ↦ char n (IsScalar-below n h)
  | inr h ↦ elim (Bool-cases (ltb 57343 n && ltb n 1114112)) [
    | inl k ↦ char n (IsScalar-above n k)
    | inr k ↦ replacement
  ]
]

-- The text with these code points.
abbrev pub of_codes : List ℕ → String
of_codes [] = String.[]
of_codes (c ∷ cs) = String.◌∷◌ (to_char c) (of_codes cs)

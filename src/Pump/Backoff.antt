-- ===== src/Pump/Backoff.antt =====
-- What the defaults of the pump's options amount to.
use native.Mathlib.Nat.{pow-suc}
use company_data_go.Prelude.{
  ℕ, zero, suc, ◌-◌, ◌*◌, ◌%◌, ◌^◌, ◌≤◌, ◌≡◌, refl, Bool, true, ◌&&◌, arith, ℤ, pos, negsuc, eqb_ℤ,
  ltb, if◌then◌else◌, Bool-cases, inl, inr,
}
use company_data_go.Pump.Options.{
  default_pump_backoff_fn, two64, default_pump_backoff, max_pump_backoff,
}

abbrev capped : ℕ → ℕ
capped n = if ltb max_pump_backoff n then max_pump_backoff else n

-- Every attempt number from 1 to `n`.
all_attempts : ℕ → (ℕ → Bool) → Bool
all_attempts zero p = true
all_attempts (suc n) p = p (suc n) && all_attempts n p

all_attempts_sound :
    (n : ℕ) (p : ℕ → Bool) (a : ℕ) → all_attempts n p ≡ true → 1 ≤ a → a ≤ n → p a ≡ true
unfolding all_attempts
all_attempts_sound zero p a h k l = absurd (omega arith)
all_attempts_sound (suc n) p a h k l = ground (arith, all_attempts_sound n p a)

eqb_ℤ-eq : (a b : ℤ) → eqb_ℤ a b ≡ true → a ≡ b
eqb_ℤ-eq (pos a) (pos b) h = ground arith
eqb_ℤ-eq (pos a) (negsuc b) h = cc
eqb_ℤ-eq (negsuc a) (pos b) h = cc
eqb_ℤ-eq (negsuc a) (negsuc b) h = ground arith

-- The delay that the doubling from half a second asks for, capped.
abbrev pub wanted : ℕ → ℕ
wanted a = capped (default_pump_backoff * 2 ^ (a - 1))

abbrev as_wanted : ℕ → Bool
as_wanted a = eqb_ℤ (default_pump_backoff_fn a) (pos (wanted a))

table : all_attempts 35 as_wanted ≡ true
unfolding all_attempts default_pump_backoff_fn
table = refl

-- Up to attempt 35 the default delay is half a second doubled with every attempt, at most 30 s.
pub default_pump_backoff_fn_exact :
    (a : ℕ) → 1 ≤ a → a ≤ 35 → default_pump_backoff_fn a ≡ pos (wanted a)
default_pump_backoff_fn_exact a h k =
    eqb_ℤ-eq (default_pump_backoff_fn a) (pos (wanted a))
      (all_attempts_sound 35 as_wanted a table h k)

low_bits : (k : ℕ) → 56 ≤ k → 2 ^ k % 2 ^ 56 ≡ 0
low_bits zero h = absurd (omega arith)
low_bits (suc k) h = elim (Bool-cases (ltb k 56)) [
  | inl lt ↦ let e : k ≡ 55 = ground arith in rw e refl
  | inr ge ↦ let ih = low_bits k (ground arith) in omega (arith, pow-suc 2 k)
]

-- From attempt 57 on the product has lost all its bits, and there is no delay at all.
pub default_pump_backoff_fn_vanishes : (a : ℕ) → 57 ≤ a → default_pump_backoff_fn a ≡ pos 0
unfolding default_pump_backoff_fn
default_pump_backoff_fn_vanishes a h =
    let low = low_bits (a - 1) (omega arith) in
    let e : default_pump_backoff * (2 ^ (a - 1) % two64) % two64 ≡ 0 = omega arith in rw e

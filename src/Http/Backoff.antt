-- ===== src/Http/Backoff.antt =====
-- The waits between the retries of a 429 (companydata/http.go: backoffDelay).
use company_data_go.Prelude.{
  ℕ, ◌-◌, ◌*◌, ◌%◌, ◌≡◌, refl, false, Bool-cases, Option, none, some, inl, inr, ℤ, pos, negsuc,
  ltb_ℤ, if◌then◌else◌, arith,
}
use company_data_go.Floats.{float_le}
use company_data_go.Pump.Options.{doubled, two64, to_signed, shift_one}
use company_data_go.Http.Wire.{Parsers, backoff_delay, max_backoff, default_backoff}

not_above : (d : ℤ) (top : ℕ) → ltb_ℤ (pos top) (if ltb_ℤ (pos top) d then pos top else d) ≡ false
not_above (pos n) top = ground arith
not_above (negsuc n) top = refl

doubled_capped : (unit top attempt : ℕ) → ltb_ℤ (pos top) (doubled unit top attempt) ≡ false
unfolding doubled
doubled_capped unit top attempt = not_above (to_signed (unit * shift_one (attempt - 1) % two64)) top

-- No wait is longer than 60 s, whatever the header says and however often it was tried.
pub backoff_delay_capped :
    (p : Parsers) (header : Option ℕ) (attempt : ℕ)
    → ltb_ℤ (pos max_backoff) (backoff_delay p header attempt) ≡ false
unfolding backoff_delay
backoff_delay_capped p none attempt = doubled_capped default_backoff max_backoff attempt
backoff_delay_capped p (some s) attempt = elim (Bool-cases (float_le 0 s)) [
  | inl e ↦ rw e (not_above (p.seconds s) max_backoff)
  | inr e ↦ rw e (doubled_capped default_backoff max_backoff attempt)
]

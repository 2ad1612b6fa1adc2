-- ===== src/Pump/Options.antt =====
-- The options of the pump and its backoff (companydata/pump.go: PumpOptions, withDefaults,
-- clampBatch, defaultPumpBackoffFn). A duration is a number of nanoseconds.
use company_data_go.Prelude.{
  ℕ, zero, suc, ◌-◌, ◌*◌, ◌%◌, ◌^◌, String, Bool, Option, none, some, ℤ, pos, negsuc, ltb, ltb_ℤ,
  eqb_ℤ, str_eq, if◌then◌else◌,
}

abbrev pub max_batch : ℕ
max_batch = 500

abbrev pub default_batch : ℕ
default_batch = 100

abbrev pub default_pump_backoff : ℕ
default_pump_backoff = 500_000_000

abbrev pub max_pump_backoff : ℕ
max_pump_backoff = 30_000_000_000

abbrev pub two64 : ℕ
two64 = 18446744073709551616

abbrev pub two63 : ℕ
two63 = 9223372036854775808

-- The signed reading of 64 bits.
abbrev pub to_signed : ℕ → ℤ
to_signed n = if ltb n two63 then pos n else negsuc (two64 - n - 1)

-- `1 << k` on 64 bits.
unfoldable pub shift_one : ℕ → ℕ
shift_one k = 2 ^ k % two64

-- `unit * (1 << (attempt - 1))` on 64 bits, capped; attempts count from 1.
unfoldable pub doubled : ℕ → ℕ → ℕ → ℤ
unfolding shift_one
doubled unit cap attempt =
    let d = to_signed (unit * shift_one (attempt - 1) % two64) in
    if ltb_ℤ (pos cap) d then pos cap else d

unfoldable pub default_pump_backoff_fn : ℕ → ℤ
unfolding doubled
default_pump_backoff_fn attempt = doubled default_pump_backoff max_pump_backoff attempt

pub record PumpOptions : Type 0 where
  pub batch_size : ℤ
  pub max_retries : ℤ
  pub on_error : String
  pub backoff : Option (ℕ → ℤ)

unfoldable pub clamp_batch : ℤ → ℕ
clamp_batch (negsuc n) = 1
clamp_batch (pos zero) = 1
clamp_batch (pos (suc n)) = if ltb max_batch (suc n) then max_batch else suc n

-- The options after `withDefaults`, where no number is negative and a backoff is set.
pub record Resolved : Type 0 where
  pub batch : ℕ
  pub retries : ℕ
  pub on_error : String
  pub backoff : ℕ → ℤ

abbrev pub or_default_batch : ℤ → ℤ
or_default_batch size = if eqb_ℤ size (pos 0) then pos default_batch else size

abbrev pub not_negative : ℤ → ℕ
not_negative (pos n) = n
not_negative (negsuc n) = 0

abbrev pub or_default_backoff : Option (ℕ → ℤ) → ℕ → ℤ
or_default_backoff none = default_pump_backoff_fn
or_default_backoff (some f) = f

unfoldable pub with_defaults : PumpOptions → Resolved
unfolding clamp_batch
with_defaults o = record {
  batch = clamp_batch (or_default_batch o.batch_size);
  retries = not_negative o.max_retries;
  on_error = if str_eq o.on_error "" then "deadletter" else o.on_error;
  backoff = or_default_backoff o.backoff;
}

-- `opts.OnError == OnErrorHalt`.
abbrev pub is_halt : Resolved → Bool
is_halt o = str_eq o.on_error "halt"

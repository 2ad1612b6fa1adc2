-- ===== src/Errors.antt =====
-- The errors of the SDK as values (companydata/errors.go), and results that carry them.
use company_data_go.Prelude.{String, Bool, true, false}
use Prim.Native.String.{◌++◌ as cat}

-- `decrypt` is a *DecryptError, `other` any error that does not match ErrDecrypt.
pub data Error : Type 0 where
  decrypt : String → Error
  other : String → Error

-- `errors.Is(err, ErrDecrypt)`.
abbrev pub is_decrypt : Error → Bool
is_decrypt (decrypt m) = true
is_decrypt (other m) = false

-- `err.Error()`.
abbrev pub message : Error → String
message (decrypt m) = cat "decrypt error: " m
message (other m) = m

pub data Result {ℓ} (A : Type ℓ) : Type ℓ where
  ok : A → Result A
  err : Error → Result A

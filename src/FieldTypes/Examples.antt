-- ===== src/FieldTypes/Examples.antt =====
-- A leap day and a card number; the theorems on the checks at those inputs.
use company_data_go.Prelude.{
  ℕ, ◌≡◌, ◌↔◌, refl, true, false, List, [], ◌∷◌, ◌++◌, codes, arith, String, Option, none, some,
}
use company_data_go.FieldTypes.Checks.{is_calendar_date, luhn_ok, luhn_loop}
use company_data_go.FieldTypes.Dates.{date_text, IsDay, is_calendar_date-IsDay}
use company_data_go.FieldTypes.Registry.{Row}
use company_data_go.FieldTypes.Luhn.{luhn_ok_mistaken}

is_calendar_date-IsDay_example : (is_calendar_date (date_text 2024 2 29) ≡ true) ↔ IsDay 2024 2 29
is_calendar_date-IsDay_example =
    is_calendar_date-IsDay 2024 2 29 (omega arith) (omega arith) (omega arith)

luhn_ok_mistaken_example : luhn_ok (codes "7992739" ++ b'3' ∷ codes "713") ≡ false
unfolding luhn_ok luhn_loop
luhn_ok_mistaken_example =
    luhn_ok_mistaken (codes "7992739") (codes "713") b'8' b'3'
      (refl, (refl, (refl, (refl, (refl, (refl, (refl, tt))))))) (refl, (refl, (refl, tt))) refl
      refl (omega arith) refl

abbrev plain : String → Option String → Option String → Row ℕ
plain name parent input = record {
  type_name = name;
  parent = parent;
  label = none;
  input = input;
  lane = some "inline";
  check = none;
  options = none;
  entries = none;
  validation = none;
  is_system = true;
  system_only = false;
}

-- Two types that name each other as parents.
abbrev cycle : List (Row ℕ)
cycle = plain "a" (some "b") (some "line") ∷ plain "b" (some "a") none ∷ []

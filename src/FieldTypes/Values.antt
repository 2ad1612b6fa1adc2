-- ===== src/FieldTypes/Values.antt =====
-- The checks of a value and the members of an envelope (companydata/fieldtypes.go: finiteNumber, NormaliseForCheck, ApplyCheck,
-- MatchesFieldRegex, isOptionArray, validateEnvelopeMember, validatePages).
use Prim.Native.String.{◌++◌ as ◌+++◌}
use company_data_go.Prelude.{
  ℕ, String, Bool, true, false, not, ◌&&◌, ◌||◌, Option, none, some, List, [], ◌∷◌, ◌++◌, codes,
  str_eq, ◌==◌, if◌then◌else◌,
}
use company_data_go.Json.{
  Value, number, string, array, object, Items, nil, cons, Fields, end, field, get,
}
use company_data_go.Floats.{is_nan, magnitude, infinity}
use company_data_go.Buffer.Decimal.{atoi, trim_space}
use company_data_go.Flow.Scalars.{FloatText}
use company_data_go.FieldTypes.Checks.{luhn_ok}
use company_data_go.FieldTypes.Patterns.{
  strip, every, is_phone_mark, is_card_mark, is_phone, is_card, is_integer, is_decimal, is_float,
  is_mime, has_scheme, is_url,
}
use company_data_go.FieldTypes.Registry.{contains_string}

pub record SubFieldEntry : Type 0 where
  pub key : String
  pub input : Option String
  pub required : Bool
  pub check : Option String
  pub validation : Option String
  pub options : List String

abbrev pub envelope_members : List String
envelope_members =
    "file" ∷ "pages" ∷ "original_name" ∷ "mime_type" ∷ "size" ∷ "name" ∷ "full" ∷ "thumb" ∷ []

abbrev pub page_members : List String
page_members = "label" ∷ "file" ∷ "original_name" ∷ "mime_type" ∷ "size" ∷ []

abbrev pub page_labels : List String
page_labels = "front" ∷ "back" ∷ "additional" ∷ []

-- The first rule that fails; "" is no failure.
abbrev pub first_failure : String → String → String
first_failure a b = if str_eq a "" then b else a

abbrev pub fail_unless : Bool → String → String
fail_unless ok rule = if ok then "" else rule

-- ── checks ──

unfoldable pub normalise_for_check : String → List ℕ → List ℕ
normalise_for_check check value =
    if str_eq check "url"
    then (if has_scheme value then value else codes "https://" ++ value)
    else if str_eq check "card"
    then strip is_card_mark value
    else if str_eq check "number"
        || str_eq check "integer"
        || str_eq check "decimal"
        || str_eq check "float"
    then trim_space value
    else value

-- What the registry calls: strconv.ParseFloat, the two decoders of encoding/json (any value; the
-- first value of a text if it is an object, with numbers kept as texts), regexp.Compile, and
-- the bundled codes.
pub record Rules : Type 0 where
  pub text : FloatText
  pub decode : String → Option Value
  pub decode_object : String → Option Fields
  pub compile : String → Option (List ℕ → Bool)
  pub countries : List String
  pub states : List String

module _ (rules : Rules) where
  abbrev finite_float : Option ℕ → Bool
  finite_float none = false
  finite_float (some n) = not (is_nan n) && not (magnitude n == infinity)

  abbrev pub finite_number : List ℕ → Bool
  finite_number [] = false
  finite_number (c ∷ cs) = finite_float (rules.text.parse (c ∷ cs))

  -- The check of a value in its canonical form.
  abbrev pub passes_check : String → List ℕ → Bool
  passes_check check normalised =
      if str_eq check "url"
      then is_url normalised
      else if str_eq check "card"
      then is_card normalised && luhn_ok normalised
      else if str_eq check "number"
      then finite_number normalised
      else if str_eq check "integer"
      then is_integer normalised
      else if str_eq check "decimal"
      then is_decimal normalised
      else if str_eq check "float"
      then is_float normalised
      else true

  unfoldable pub apply_check : String → List ℕ → String
  unfolding normalise_for_check
  apply_check check value = fail_unless (passes_check check (normalise_for_check check value)) check

  abbrev pub matches : Option (List ℕ → Bool) → List ℕ → Bool
  matches none value = true
  matches (some re) value = re value

  -- The cache of compiled patterns does not change the answer.
  unfoldable pub matches_field_regex : String → List ℕ → Bool
  matches_field_regex regex value = matches (rules.compile ("^(?:" +++ (regex +++ ")$"))) value

  abbrev pub only_options : List String → Items → Bool
  only_options options nil = true
  only_options options (cons (string s) xs) = contains_string options s && only_options options xs
  only_options options (cons _ xs) = false

  abbrev pub is_list_of : List String → Option Value → Bool
  is_list_of options (some (array xs)) = only_options options xs
  is_list_of options (some _) = false
  is_list_of options none = false

  unfoldable pub is_option_array : String → List String → Bool
  is_option_array value options = is_list_of options (rules.decode value)

  abbrev pub is_phone_value : String → Bool
  is_phone_value value = is_phone (strip is_phone_mark (codes value))

  -- ── the file and pages envelopes ──

  abbrev is_exponent_or_point : ℕ → Bool
  is_exponent_or_point c = c == b'.' || c == b'e' || c == b'E'

  abbrev is_some {ℓ} : {A : Type ℓ} → Option A → Bool
  is_some none = false
  is_some (some a) = true

  abbrev pub is_size : Value → Bool
  is_size (number t) = is_some (atoi t) && every (λ c. not (is_exponent_or_point c)) t
  is_size _ = false

  abbrev pub is_member_text : String → Value → String
  is_member_text key (string s) =
      if str_eq key "mime_type" && not (str_eq s "") && not (is_mime (codes s))
      then "mime_type"
      else ""
  is_member_text key _ = key

  -- Every member but "pages".
  abbrev pub validate_plain_member : String → Value → String
  validate_plain_member key raw =
      if str_eq key "size" then fail_unless (is_size raw) "size" else is_member_text key raw

  abbrev pub is_label : Value → Bool
  is_label (string s) = contains_string page_labels s
  is_label _ = false

  abbrev pub is_file : Value → Bool
  is_file (string s) = not (str_eq s "")
  is_file _ = false

  -- A member of a page is never "pages", which is not among the page members.
  abbrev pub is_page_member : String → Value → Bool
  is_page_member key member =
      contains_string page_members key
      && (if str_eq key "label"
          then is_label member
          else if str_eq key "file"
          then is_file member
          else str_eq (validate_plain_member key member) "")

  abbrev pub page_members_hold : Fields → Bool
  page_members_hold end = true
  page_members_hold (field key member m) = is_page_member key member && page_members_hold m

  abbrev pub is_page : Value → Bool
  is_page (object m) = page_members_hold m && is_some (get m "file")
  is_page _ = false

  abbrev pub all_pages : Items → Bool
  all_pages nil = true
  all_pages (cons x xs) = is_page x && all_pages xs

  abbrev pub is_pages : Value → Bool
  is_pages (array xs) = all_pages xs
  is_pages _ = false

  unfoldable pub validate_pages : Value → String
  validate_pages raw = fail_unless (is_pages raw) "pages"

  unfoldable pub validate_envelope_member : String → Value → String
  unfolding validate_pages
  validate_envelope_member key raw =
      if str_eq key "pages" then validate_pages raw else validate_plain_member key raw

-- ===== src/FieldTypes/Validate.antt =====
-- The validation of a value against its type (companydata/fieldtypes.go: validateFieldEntry,
-- validateFieldObject, applyPrimitive, Validate).
use company_data_go.Prelude.{
  ℕ, String, Bool, true, false, not, ◌&&◌, ◌||◌, Option, none, some, List, [], ◌∷◌, codes, str_eq,
  if◌then◌else◌,
}
use company_data_go.Json.{Value, string, Fields, end, field, get}
use company_data_go.FieldTypes.Checks.{is_calendar_date}
use company_data_go.FieldTypes.Registry.{Row, Resolved, contains_string, if_non_empty, resolve}
use company_data_go.FieldTypes.Tree.{options_for}
use company_data_go.FieldTypes.Values.{
  SubFieldEntry, Rules, envelope_members, first_failure, fail_unless, normalise_for_check,
  apply_check, matches_field_regex, is_option_array, is_phone_value, validate_envelope_member,
}

-- The entries by key: a later one replaces an earlier one, and one without a key is left out.
abbrev pub insert_entry : List SubFieldEntry → SubFieldEntry → List SubFieldEntry
insert_entry [] new = new ∷ []
insert_entry (e ∷ es) new =
    let rest = insert_entry es new in if str_eq e.key new.key then new ∷ es else e ∷ rest

abbrev pub entries_onto : List SubFieldEntry → List SubFieldEntry → List SubFieldEntry
entries_onto es [] = es
entries_onto es (e ∷ fields) =
    entries_onto (if str_eq e.key "" then es else insert_entry es e) fields

unfoldable pub entries_by_key : List SubFieldEntry → List SubFieldEntry
entries_by_key fields = entries_onto [] fields

abbrev pub find_entry : List SubFieldEntry → String → Option SubFieldEntry
find_entry [] k = none
find_entry (e ∷ es) k = if str_eq e.key k then some e else find_entry es k

abbrev pub or_line : Option String → String
or_line none = "line"
or_line (some input) = input

abbrev pub listed : Option String → List String
listed none = []
listed (some v) = v ∷ []

-- The entry is there and not the empty text.
abbrev pub is_given : Option Value → Bool
is_given none = false
is_given (some (string s)) = not (str_eq s "")
is_given (some _) = true

module _ (rules : Rules) where
  unfoldable pub match_all : List String → List ℕ → String
  unfolding matches_field_regex
  match_all [] value = ""
  match_all (regex ∷ regexes) value =
      let rest = match_all regexes value in
      if matches_field_regex rules regex value then rest else "validation"

  -- The check and the patterns after it, which see the canonical form of the check.
  unfoldable pub check_then_match : Option String → List String → List ℕ → String
  unfolding match_all apply_check normalise_for_check
  check_then_match none regexes value = match_all regexes value
  check_then_match (some check) regexes value =
      first_failure (apply_check rules check value)
        (match_all regexes (normalise_for_check check value))

  -- The primitive's rule of a sub-field entry.
  abbrev pub entry_primitive : SubFieldEntry → String → String → String
  entry_primitive entry primitive value =
      if str_eq primitive "date"
      then fail_unless (is_calendar_date (codes value)) "date"
      else if str_eq primitive "list"
      then fail_unless (contains_string entry.options value) "list"
      else if str_eq primitive "country" || str_eq primitive "nationality"
      then fail_unless (contains_string rules.countries value) primitive
      else if str_eq primitive "state"
      then fail_unless (contains_string rules.states value) "state"
      else if str_eq primitive "phone"
      then fail_unless (is_phone_value rules value) "phone"
      else ""

  unfoldable pub validate_field_entry : SubFieldEntry → String → String
  unfolding check_then_match
  validate_field_entry entry value =
      first_failure (entry_primitive entry (or_line (if_non_empty entry.input)) value) (
        check_then_match (if_non_empty entry.check) (listed (if_non_empty entry.validation))
          (codes value))

  abbrev pub is_entry_value : SubFieldEntry → Value → Bool
  is_entry_value entry (string s) = str_eq s "" || str_eq (validate_field_entry entry s) ""
  is_entry_value entry _ = false

  -- One member of the object: an entry, or a member of the envelope.
  abbrev pub member_failure : List String → Option SubFieldEntry → String → Value → String
  member_failure envelope (some entry) key raw = fail_unless (is_entry_value entry raw) key
  member_failure envelope none key raw =
      if contains_string envelope key then validate_envelope_member rules key raw else "unknown_key"

  -- The members in the order in which the map is walked.
  unfoldable pub members_failure : List SubFieldEntry → List String → Fields → String
  unfolding validate_field_entry validate_envelope_member
  members_failure entries envelope end = ""
  members_failure entries envelope (field key raw m) =
      first_failure (member_failure envelope (find_entry entries key) key raw)
        (members_failure entries envelope m)

  -- The required entries that are missing or empty.
  unfoldable pub required_failure : List SubFieldEntry → Fields → String
  required_failure [] obj = ""
  required_failure (entry ∷ entries) obj =
      let rest = required_failure entries obj in
      if entry.required && not (is_given (get obj entry.key)) then entry.key else rest

  abbrev pub object_failure : List SubFieldEntry → List String → Option Fields → String
  object_failure entries envelope none = "object"
  object_failure entries envelope (some obj) =
      first_failure (members_failure entries envelope obj) (required_failure entries obj)

  unfoldable pub validate_field_object : String → List SubFieldEntry → List String → String
  unfolding members_failure required_failure entries_by_key
  validate_field_object value fields envelope =
      object_failure (entries_by_key fields) envelope (rules.decode_object value)

  -- The rules of the choices, which want a domain.
  abbrev pub in_domain : (List String → Bool) → Option (List String) → String → String
  in_domain holds none rule = "options_unavailable"
  in_domain holds (some options) rule = fail_unless (holds options) rule

  abbrev pub primitive_of : String → List SubFieldEntry → String → Option (List String) → String
  primitive_of input entries value options =
      if str_eq input "line"
      then ""
      else if str_eq input "date"
      then fail_unless (is_calendar_date (codes value)) "date"
      else if str_eq input "list"
      then in_domain (λ os. contains_string os value) options "list"
      else if str_eq input "multilist"
      then in_domain (λ os. is_option_array rules value os) options "multilist"
      else if str_eq input "country" || str_eq input "nationality"
      then fail_unless (contains_string rules.countries value) input
      else if str_eq input "state"
      then fail_unless (contains_string rules.states value) "state"
      else if str_eq input "phone"
      then fail_unless (is_phone_value rules value) "phone"
      else if str_eq input "composite"
      then validate_field_object value entries []
      else if str_eq input "file" || str_eq input "pages"
      then validate_field_object value entries envelope_members
      else ""

  unfoldable pub apply_primitive :
      Option String → List SubFieldEntry → String → Option (List String) → String
  unfolding validate_field_object
  apply_primitive none entries value options = ""
  apply_primitive (some input) entries value options = primitive_of input entries value options

  abbrev pub validate_as : Resolved SubFieldEntry → String → Option (List String) → String
  validate_as d value options =
      if not d.known
      then ""
      else first_failure (apply_primitive d.input d.entries value options)
          (check_then_match (if_non_empty d.check) d.validations (codes value))

  unfoldable pub validate : List (Row SubFieldEntry) → String → String → List String → String
  unfolding apply_primitive options_for
  validate r t value supplied =
      if str_eq value "" then "" else validate_as (resolve r t) value (options_for r t supplied)

  unfoldable pub is_field_value_valid :
      List (Row SubFieldEntry) → String → String → List String → Bool
  unfolding validate
  is_field_value_valid r t value supplied = str_eq (validate r t value supplied) ""

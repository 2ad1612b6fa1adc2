-- ===== src/Buffer/Names.antt =====
-- The file names of the buffer (companydata/buffer.go: eventID, sanitizeID, seqOf, idPart).
use company_data_go.Prelude.{
  ℕ, String, Bool, true, false, ◌&&◌, ◌||◌, Option, none, some, List, [], ◌∷◌, ◌++◌, map, ℤ, codes,
  eqb, leb, ◌==◌, if◌then◌else◌,
}
use company_data_go.Json.{Value, null, string, Fields, get}
use company_data_go.Buffer.Decimal.{is_digit, zero_padded, atoi}

-- A file name, as its code points.
abbrev pub Name : Type 0
Name = List ℕ

-- What `eventID` answers for the value under "id"; the parameter is fmt's "%v".
unfoldable pub id_text : (Value → String) → Option Value → String
id_text format none = ""
id_text format (some null) = ""
id_text format (some (string s)) = s
id_text format (some v) = format v

unfoldable pub event_id : (Value → String) → Fields → String
event_id format event = id_text format (get event "id")

abbrev pub is_safe : ℕ → Bool
is_safe c =
    (leb b'a' c && leb c b'z')
    || (leb b'A' c && leb c b'Z')
    || is_digit c
    || (c == b'-')
    || (c == b'_')

abbrev pub sanitize_char : ℕ → ℕ
sanitize_char c = if is_safe c then c else b'_'

abbrev pub noid_if_empty : List ℕ → List ℕ
noid_if_empty [] = codes "noid"
noid_if_empty (c ∷ cs) = c ∷ cs

unfoldable pub sanitize_id : String → List ℕ
sanitize_id change_id = noid_if_empty (map sanitize_char (codes change_id))

abbrev pub json_suffix : List ℕ
json_suffix = codes ".json"

-- `fmt.Sprintf("%0*d_%s.json", seqWidth, seq, sanitizeID(id))`.
unfoldable pub file_name : ℤ → String → Name
file_name seq id = zero_padded seq ++ (b'_' ∷ (sanitize_id id ++ json_suffix))

abbrev pub cut_step : ℕ → Name → Bool → Option (List ℕ × List ℕ) → Option (List ℕ × List ℕ)
cut_step c cs true rest = some ([], cs)
cut_step c cs false none = none
cut_step c cs false (some (a, b)) = some (c ∷ a, b)

-- The name cut at its first underscore, which is dropped.
unfoldable pub cut : Name → Option (List ℕ × List ℕ)
cut [] = none
cut (c ∷ cs) = cut_step c cs (c == b'_') (cut cs)

abbrev pub seq_of_cut : Option (List ℕ × List ℕ) → Option ℤ
seq_of_cut none = none
seq_of_cut (some (a, b)) = atoi a

unfoldable pub seq_of : Name → Option ℤ
seq_of name = seq_of_cut (cut name)

abbrev pub id_of_cut : Name → Option (List ℕ × List ℕ) → List ℕ
id_of_cut name none = name
id_of_cut name (some (a, b)) = b

unfoldable pub id_part : Name → List ℕ
id_part name = id_of_cut name (cut name)

abbrev pub has_prefix : Name → List ℕ → Bool
has_prefix name [] = true
has_prefix [] (p ∷ ps) = false
has_prefix (c ∷ cs) (p ∷ ps) = c == p && has_prefix cs ps

unfoldable pub has_suffix : Name → List ℕ → Bool
has_suffix [] suffix = eqb [] suffix
has_suffix (c ∷ cs) suffix = eqb (c ∷ cs) suffix || has_suffix cs suffix

-- The file that `findPendingFile` and `findDeadletterFile` look for.
unfoldable pub is_file_of : String → Name → Bool
is_file_of change_id name = eqb (id_part name) (sanitize_id change_id ++ json_suffix)

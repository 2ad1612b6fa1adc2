-- ===== src/FieldTypes/Patterns.antt =====
-- The fixed patterns of field values (companydata/fieldtypes.go: urlRE, urlSchemeRE, mimeRE,
-- phoneRE, phoneStripRE, cardRE, cardStripRE, integerRE, decimalRE, floatRE). A text is the list of
-- its code points.
use company_data_go.Prelude.{
  ℕ, suc, ◌-◌, Bool, true, false, not, ◌&&◌, ◌||◌, List, [], ◌∷◌, length, leb, ◌==◌, if◌then◌else◌,
}
use company_data_go.Buffer.Decimal.{is_digit}

abbrev pub strip : (ℕ → Bool) → List ℕ → List ℕ
strip drop [] = []
strip drop (c ∷ cs) = let rest = strip drop cs in if drop c then rest else c ∷ rest

abbrev pub every : (ℕ → Bool) → List ℕ → Bool
every ok [] = true
every ok (c ∷ cs) = ok c && every ok cs

-- The text after the longest run of such characters.
abbrev pub after : (ℕ → Bool) → List ℕ → List ℕ
after ok [] = []
after ok (c ∷ cs) = let rest = after ok cs in if ok c then rest else c ∷ cs

abbrev pub starts_with : (ℕ → Bool) → List ℕ → Bool
starts_with ok [] = false
starts_with ok (c ∷ cs) = ok c

-- The text without a first character of this kind.
abbrev pub optional : (ℕ → Bool) → List ℕ → List ℕ
optional ok [] = []
optional ok (c ∷ cs) = if ok c then cs else c ∷ cs

abbrev pub is_minus : ℕ → Bool
is_minus c = c == b'-'

abbrev pub digits_only : ℕ → ℕ → List ℕ → Bool
digits_only least most cs = every is_digit cs && leb least (length cs) && leb (length cs) most

-- `[ \-().]` and `[ -]`.
abbrev pub is_phone_mark : ℕ → Bool
is_phone_mark c = c == b' ' || c == b'-' || c == b'(' || c == b')' || c == b'.'

abbrev pub is_card_mark : ℕ → Bool
is_card_mark c = c == b' ' || c == b'-'

-- `^\+?\d{4,15}$`.
unfoldable pub is_phone : List ℕ → Bool
is_phone cs = digits_only 4 15 (optional (λ c. c == b'+') cs)

-- `^\d{12,19}$`.
abbrev pub is_card : List ℕ → Bool
is_card cs = digits_only 12 19 cs

abbrev pub some_digits : List ℕ → Bool
some_digits cs = every is_digit cs && leb 1 (length cs)

-- `^-?[0-9]+$`.
unfoldable pub is_integer : List ℕ → Bool
is_integer cs = some_digits (optional is_minus cs)

-- The length of the longest run of digits.
abbrev pub run : List ℕ → ℕ
run [] = 0
run (c ∷ cs) = let rest = suc (run cs) in if is_digit c then rest else 0

-- A point with `least` to `most` digits, or nothing.
abbrev pub fraction : ℕ → List ℕ → Bool
fraction most [] = true
fraction most (c ∷ cs) = c == b'.' && digits_only 1 most cs

-- `^-?[0-9]{1,8}(\.[0-9]{1,2})?$`.
unfoldable pub is_decimal : List ℕ → Bool
is_decimal cs =
    let whole = optional is_minus cs in
    leb 1 (run whole) && leb (run whole) 8 && fraction 2 (after is_digit whole)

-- `([eE][+-]?[0-9]+)?$`.
abbrev pub exponent : List ℕ → Bool
exponent [] = true
exponent (c ∷ cs) =
    (c == b'e' || c == b'E') && some_digits (optional (λ d. d == b'+' || d == b'-') cs)

-- `(\.[0-9]+)?` and the exponent.
abbrev pub float_tail : List ℕ → Bool
float_tail [] = true
float_tail (c ∷ cs) =
    if c == b'.' then leb 1 (run cs) && exponent (after is_digit cs) else exponent (c ∷ cs)

-- `^-?[0-9]+(\.[0-9]+)?([eE][+-]?[0-9]+)?$`.
unfoldable pub is_float : List ℕ → Bool
is_float cs =
    let whole = optional is_minus cs in leb 1 (run whole) && float_tail (after is_digit whole)

-- `[\w.+-]`.
abbrev pub is_mime_char : ℕ → Bool
is_mime_char c =
    is_digit c
    || (leb b'a' c && leb c b'z')
    || (leb b'A' c && leb c b'Z')
    || c == b'_'
    || c == b'.'
    || c == b'+'
    || c == b'-'

abbrev subtype : List ℕ → Bool
subtype [] = false
subtype (c ∷ cs) = c == b'/' && every is_mime_char cs && leb 1 (length cs)

-- `^[\w.+-]+/[\w.+-]+$`.
unfoldable pub is_mime : List ℕ → Bool
is_mime cs = starts_with is_mime_char cs && subtype (after is_mime_char cs)

-- `\s`.
abbrev pub is_blank : ℕ → Bool
is_blank c = c == 9 || c == 10 || c == 12 || c == 13 || c == 32

-- A letter in either case; the long s folds to s.
abbrev pub letter : ℕ → ℕ → Bool
letter lower c = c == lower || c == lower - 32 || (lower == b's' && c == 0x17f)

-- `://`.
abbrev pub colon_slashes : List ℕ → Bool
colon_slashes (c ∷ d ∷ e ∷ cs) = c == b':' && d == b'/' && e == b'/'
colon_slashes _ = false

abbrev pub scheme_end : List ℕ → Bool
scheme_end [] = false
scheme_end (c ∷ cs) = if letter b's' c then colon_slashes cs else colon_slashes (c ∷ cs)

-- `(?i)^https?://`.
unfoldable pub has_scheme : List ℕ → Bool
has_scheme (a ∷ b ∷ c ∷ d ∷ cs) =
    letter b'h' a && letter b't' b && letter b't' c && letter b'p' d && scheme_end cs
has_scheme _ = false

-- A point with at least two characters behind it.
abbrev pub has_ending : List ℕ → Bool
has_ending [] = false
has_ending (c ∷ cs) = (c == b'.' && leb 2 (length cs)) || has_ending cs

-- `[^\s/$.?#][^\s]*\.[^\s]{2}$`.
abbrev pub is_host : List ℕ → Bool
is_host [] = false
is_host (c ∷ cs) =
    not (is_blank c || c == b'/' || c == b'$' || c == b'.' || c == b'?' || c == b'#')
    && every (λ d. not (is_blank d)) cs
    && has_ending cs

-- What follows the scheme.
abbrev pub after_slashes : List ℕ → List ℕ
after_slashes (c ∷ d ∷ e ∷ cs) = cs
after_slashes _ = []

abbrev pub after_scheme : List ℕ → List ℕ
after_scheme [] = []
after_scheme (c ∷ cs) = if letter b's' c then after_slashes cs else after_slashes (c ∷ cs)

abbrev pub host_of : List ℕ → List ℕ
host_of (a ∷ b ∷ c ∷ d ∷ cs) = after_scheme cs
host_of _ = []

-- `(?i)^https?://[^\s/$.?#][^\s]*\.[^\s]{2}$`.
unfoldable pub is_url : List ℕ → Bool
unfolding has_scheme
is_url cs = has_scheme cs && is_host (host_of cs)

-- ===== src/Http/Wire.antt =====
-- What goes over the wire (companydata/http.go: sendResendingOnce, extractError, parseRetryAfter,
-- backoffDelay, pathAndQuery). Texts of URLs and bodies are walked.
use company_data_go.Prelude.{
  ℕ, String, Bool, not, ◌&&◌, ◌||◌, Option, none, some, List, [], ◌∷◌, ◌++◌, ◌==◌, ℤ, pos, ltb_ℤ,
  codes, str_eq, if◌then◌else◌,
}
use company_data_go.Json.{Value, string, object, Fields, end, get, without, text_or_empty}
use company_data_go.Floats.{float_le}
use company_data_go.Buffer.Decimal.{trim_space}
use company_data_go.Buffer.Names.{has_prefix}
use company_data_go.Pump.Options.{doubled}

-- `content_type` is there when the request has a body.
pub record Request : Type 0 where
  pub method : String
  pub url : List ℕ
  pub authorization : Option String
  pub accept : String
  pub content_type : Option String
  pub body : List ℕ

-- `body` is `none` when reading it failed; `retry_after` is the header's value or nothing.
pub record Response : Type 0 where
  pub status : ℕ
  pub retry_after : List ℕ
  pub body : Option (List ℕ)

-- A send that failed: what the trace and the context say of it.
pub record Failure : Type 0 where
  pub reused : Bool
  pub responded : Bool
  pub cancelled : Bool
  pub timed_out : Bool

pub data Reply : Type 0 where
  response : Response → Reply
  broken : Failure → Reply

-- Only a reused connection that the server closed unread is worth a second send.
unfoldable pub was_closed : Failure → Bool
was_closed f = f.reused && not f.responded && not f.cancelled && not f.timed_out

-- The parsers: JSON, XML (companydata/xml.go), strconv.ParseFloat with 64 bits, and the duration of
-- a float of seconds, time.Duration(x * float64(time.Second)).
pub record Parsers : Type 0 where
  pub json : List ℕ → Option Value
  pub xml : List ℕ → Option Value
  pub float : List ℕ → Option ℕ
  pub seconds : ℕ → ℤ

-- The error_key, the message and the rest of an error's body.
pub record ErrorBody : Type 0 where
  pub error_key : String
  pub message : List ℕ
  pub details : Fields

abbrev pub only_message : List ℕ → ErrorBody
only_message text = record { error_key = ""; message = text; details = end }

abbrev pub text_at : Option Value → Option (List ℕ)
text_at (some (string s)) = some (codes s)
text_at _ = none

abbrev pub first_text : Option (List ℕ) → Option (List ℕ) → List ℕ
first_text (some t) other = t
first_text none (some t) = t
first_text none none = []

unfoldable pub error_of : Value → ErrorBody
error_of (object m) = record {
  error_key = text_or_empty (get m "error_key");
  message = first_text (text_at (get m "error")) (text_at (get m "message"));
  details = without (without (without m "error_key") "error") "message";
}
error_of _ = only_message []

abbrev pub error_or_text : List ℕ → Option Value → ErrorBody
error_or_text text none = only_message text
error_or_text text (some v) = error_of v

-- XML that came although JSON was asked for is tried last.
abbrev pub json_error : Parsers → List ℕ → Option Value → ErrorBody
json_error p text (some v) = error_of v
json_error p text none =
    if has_prefix text (codes "<") then error_or_text text (p.xml text) else only_message text

abbrev pub error_in : Parsers → String → List ℕ → ErrorBody
error_in p format [] = only_message []
error_in p format (c ∷ cs) =
    if str_eq format "xml" && has_prefix (c ∷ cs) (codes "<")
    then error_or_text (c ∷ cs) (p.xml (c ∷ cs))
    else json_error p (c ∷ cs) (p.json (c ∷ cs))

unfoldable pub extract_error : Parsers → String → List ℕ → ErrorBody
extract_error p format body = error_in p format (trim_space body)

abbrev pub retry_seconds : Parsers → List ℕ → Option ℕ
retry_seconds p [] = none
retry_seconds p (c ∷ cs) = p.float (c ∷ cs)

unfoldable pub parse_retry_after : Parsers → List ℕ → Option ℕ
parse_retry_after p raw = retry_seconds p (trim_space raw)

abbrev pub second : ℕ
second = 1_000_000_000

abbrev pub default_backoff : ℕ
default_backoff = 1_000_000_000

abbrev pub max_backoff : ℕ
max_backoff = 60_000_000_000

abbrev pub capped : ℤ → ℤ
capped d = if ltb_ℤ (pos max_backoff) d then pos max_backoff else d

-- The header's seconds when they are not negative, else a second doubled with every attempt.
unfoldable pub backoff_delay : Parsers → Option ℕ → ℕ → ℤ
backoff_delay p (some s) attempt =
    if float_le 0 s then capped (p.seconds s) else doubled default_backoff max_backoff attempt
backoff_delay p none attempt = doubled default_backoff max_backoff attempt

-- ── URLs ──

-- `net/url`'s parts of an absolute URL.
pub record UrlParts : Type 0 where
  pub path : List ℕ
  pub raw_query : List ℕ
  pub fragment : List ℕ

abbrev pub led_by : List ℕ → List ℕ → List ℕ
led_by mark [] = []
led_by mark (c ∷ cs) = mark ++ c ∷ cs

abbrev pub or_slash : List ℕ → List ℕ
or_slash [] = codes "/"
or_slash (c ∷ cs) = c ∷ cs

unfoldable pub path_and_query : (List ℕ → Option UrlParts) → List ℕ → List ℕ
path_and_query parse u = elim (parse u) [
  | none ↦ u
  | some parts ↦
      or_slash parts.path ++ led_by (codes "?") parts.raw_query ++ led_by (codes "#") parts.fragment
]

abbrev pub is_absolute : List ℕ → Bool
is_absolute path = has_prefix path (codes "http://") || has_prefix path (codes "https://")

abbrev pub joined : List ℕ → List ℕ → List ℕ
joined base path = if has_prefix path (codes "/") then base ++ path else base ++ codes "/" ++ path

-- `url`: a path against the current base.
unfoldable pub url : (List ℕ → Option UrlParts) → List ℕ → List ℕ → List ℕ
unfolding path_and_query
url parse base path = joined base (if is_absolute path then path_and_query parse path else path)

-- `strings.TrimRight(s, "/")`.
abbrev pub keep_unless_slash : ℕ → List ℕ → List ℕ
keep_unless_slash c [] = if c == b'/' then [] else c ∷ []
keep_unless_slash c (d ∷ ds) = c ∷ d ∷ ds

unfoldable pub trim_slashes : List ℕ → List ℕ
trim_slashes [] = []
trim_slashes (c ∷ cs) = keep_unless_slash c (trim_slashes cs)

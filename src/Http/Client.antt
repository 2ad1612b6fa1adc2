-- ===== src/Http/Client.antt =====
-- The client: token, region base and the request loop (companydata/http.go: tokenValid, fetchToken,
-- rebaseTo, bearer, doRequestRaw).
use company_data_go.Prelude.{
  ℕ, ◌+◌, ◌-◌, ◌*◌, ◌%◌, String, Bool, true, false, not, ◌&&◌, ◌||◌, Option, none, some, List, [],
  ◌++◌, ltb, leb, ℤ, pos, negsuc, codes, eqb, str_eq, if◌then◌else◌,
}
use company_data_go.Json.{Fields}
use company_data_go.Floats.{float_le, float_to_int}
use company_data_go.Buffer.Decimal.{trim_space}
use company_data_go.Pump.Options.{two63, two64, to_signed}
use company_data_go.Http.Wire.{
  Request, Failure, Reply, response, broken, was_closed, Parsers, UrlParts, trim_slashes, second,
}

-- The body of a token response as encoding/json reads it.
pub record TokenBody : Type 0 where
  pub access_token : String
  pub expires_in : ℕ
  pub api_url : String

-- What the client is given. `send` is the Doer's: a request that cannot be built is a failure of its
-- first send. `form` is the encoded client_credentials form, `query` the encoded parameters.
pub record Env (World : Type 0) : Type 0 where
  pub parsers : Parsers
  pub token_body : List ℕ → Option TokenBody
  pub parse_url : List ℕ → Option UrlParts
  pub form : List ℕ
  pub format : String
  pub max_retries429 : ℕ
  pub now : World → ℕ
  pub sleep : ℤ → World → World
  pub send : Request → World → Reply × World

pub record Client (World : Type 0) : Type 0 where
  pub api_url : List ℕ
  pub token : String
  pub token_expiry : ℕ
  pub world : World

pub data HttpError : Type 0 where
  auth_error : HttpError
  api_error : ℕ → String → List ℕ → Fields → HttpError
  rate_limited : Option ℕ → String → List ℕ → HttpError

pub data Answer {ℓ} (A : Type ℓ) : Type ℓ where
  answered : A → Answer A
  failed : HttpError → Answer A

-- `time.Duration(n) * time.Second` on 64 bits.
abbrev pub in_seconds : ℤ → ℤ
in_seconds (pos n) = to_signed (n * second % two64)
in_seconds (negsuc n) = to_signed ((two64 - (n + 1) * second % two64) % two64)

-- The time to live less the skew of 30 s, which wraps round at the smallest, and 0 if negative.
abbrev pub without_skew : ℤ → ℕ
without_skew (pos n) = n - 30 * second
without_skew (negsuc n) =
    if ltb two63 (n + 1 + 30 * second) then two64 - (n + 1 + 30 * second) else 0

unfoldable pub time_to_live : ℕ → ℕ
time_to_live expires_in =
    without_skew (in_seconds (if float_le expires_in 0 then pos 3600 else float_to_int expires_in))

abbrev pub no_request_error : HttpError
no_request_error = api_error 0 "" [] Fields.end

module _ {World : Type 0} (env : Env World) where
  unfoldable pub token_valid : Client World → Bool
  token_valid c = not (str_eq c.token "") && ltb (env.now c.world) c.token_expiry

  -- Whether the base moved, and the client after it.
  abbrev pub moved_to : List ℕ → Client World → Bool × Client World
  moved_to base c =
      if eqb base [] || eqb base c.api_url then (false, c) else (true, record c { api_url = base })

  unfoldable pub rebase_to : String → Client World → Bool × Client World
  rebase_to candidate c = moved_to (trim_slashes (trim_space (codes candidate))) c

  abbrev pub resend_if : Bool → Failure → Request → World → Reply × World
  resend_if true f req w = env.send req w
  resend_if false f req w = (broken f, w)

  abbrev pub after_send : Request → Reply × World → Reply × World
  after_send req (response r, w) = (response r, w)
  after_send req (broken f, w) = resend_if (was_closed f) f req w

  unfoldable pub send_resending_once : Request → World → Reply × World
  send_resending_once req w = after_send req (env.send req w)

  abbrev pub token_request : Client World → Request
  token_request c = record {
    method = "POST";
    url = c.api_url ++ codes "/oauth2/token";
    authorization = none;
    accept = "application/json";
    content_type = some "application/x-www-form-urlencoded";
    body = env.form;
  }

  abbrev pub is_success : ℕ → Bool
  is_success status = leb 200 status && ltb status 300

  -- The token is stored, then the base is moved to the home region.
  abbrev pub store_token : Client World → Option TokenBody → Answer String × Client World
  store_token c none = (failed auth_error, c)
  store_token c (some t) = if str_eq t.access_token "" then (failed auth_error, c) else (
    answered t.access_token,
    (rebase_to t.api_url (record c {
      token = t.access_token;
      token_expiry = env.now c.world + time_to_live t.expires_in;
    })).1,
  )

  abbrev pub token_from : Client World → ℕ → Option (List ℕ) → Answer String × Client World
  token_from c status none = (failed auth_error, c)
  token_from c status (some body) =
      if is_success status then store_token c (env.token_body body) else (failed auth_error, c)

  abbrev pub after_token : Client World → Reply × World → Answer String × Client World
  after_token c (broken f, w) = (failed auth_error, record c { world = w })
  after_token c (response r, w) = token_from (record c { world = w }) r.status r.body

  unfoldable pub fetch_token : Client World → Answer String × Client World
  fetch_token c = after_token c (send_resending_once (token_request c) c.world)

  unfoldable pub bearer : Bool → Client World → Answer String × Client World
  bearer force_refresh c =
      if not force_refresh && token_valid c then (answered c.token, c) else fetch_token c

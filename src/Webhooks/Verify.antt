-- ===== src/Webhooks/Verify.antt =====
-- The check of a request's credential (companydata/webhooks.go: VerifyWebhook).
use company_data_go.Prelude.{
  ℕ, String, Bool, true, false, Option, none, some, List, map, codes, eqb, str_eq, if◌then◌else◌,
}
use Prim.Native.String.{◌++◌ as cat}
use company_data_go.Buffer.Decimal.{trim_space}
use company_data_go.Config.Load.{Pair, Config, is_empty}
use company_data_go.Config.Build.{lower_code, webhook_auth_method, webhook_secret}
use company_data_go.Webhooks.Headers.{HeaderMap, Headers, as_header_map, lookup, header}

abbrev pub hdr_webhook_id : String
hdr_webhook_id = "x-allus-webhook-id"

abbrev pub hdr_signature : String
hdr_signature = "x-allus-signature"

-- The standard library's: the lowercase hex of the HMAC-SHA256 of a body under a secret, and the
-- base64 of a text.
pub record Digests : Type 0 where
  pub hmac_hex : String → List ℕ → List ℕ
  pub base64 : String → String

-- Two credentials: subtle.ConstantTimeCompare tells whether they are equal.
abbrev pub constant_time_equal : String → String → Bool
constant_time_equal a b = str_eq a b

abbrev pub equals_found : Option String → String → Bool
equals_found none expected = false
equals_found (some got) expected = constant_time_equal got expected

-- The texts of the configured objects; Go reads a nil one only when its method is not the one.
abbrev pub first_of : Option Pair → String
first_of none = ""
first_of (some p) = p.first

abbrev pub second_of : Option Pair → String
second_of none = ""
second_of (some p) = p.second

module _ (digests : Digests) where
  abbrev pub basic_token : Config → String
  basic_token cfg =
      cat "Basic "
        (digests.base64 (cat (first_of cfg.webhook_basic) (cat ":" (second_of cfg.webhook_basic))))

  -- A signature against the secret that was found.
  abbrev pub signed : List ℕ → String → String → Bool
  signed body signature secret =
      if is_empty secret
      then false
      else eqb (digests.hmac_hex secret body) (map lower_code (trim_space (codes signature)))

  unfoldable pub verify_hmac : Config → HeaderMap → List ℕ → Bool
  verify_hmac cfg h body =
      if is_empty (header h hdr_signature)
      then false
      else signed body (header h hdr_signature) (webhook_secret cfg (header h hdr_webhook_id))

  -- The check by the method's name.
  unfoldable pub verify_by : String → Config → HeaderMap → List ℕ → Bool
  unfolding verify_hmac
  verify_by method cfg h body =
      if str_eq method ""
      then false
      else if str_eq method "none"
      then true
      else if str_eq method "bearer"
      then equals_found (lookup h "authorization") (cat "Bearer " cfg.webhook_bearer_token)
      else if str_eq method "basic"
      then equals_found (lookup h "authorization") (basic_token cfg)
      else if str_eq method "header"
      then equals_found (lookup h (first_of cfg.webhook_header)) (second_of cfg.webhook_header)
      else verify_hmac cfg h body

  unfoldable pub verify_webhook : Config → Headers → List ℕ → Bool
  unfolding verify_by
  verify_webhook cfg headers body =
      verify_by (webhook_auth_method cfg) cfg (as_header_map headers) body

-- ===== src/Config/Build.antt =====
-- How a configuration is built and what a webhook asks of it (companydata/config.go: buildConfig,
-- WebhookSecret, WebhookAuthMethod).
use company_data_go.Prelude.{
  ℕ, ◌+◌, leb, String, Bool, true, false, not, ◌&&◌, ◌||◌, Option, none, some, List, [], ◌∷◌, map,
  codes, eqb, str_eq, if◌then◌else◌,
}
use company_data_go.Config.Load.{
  Pair, Table, lookup_secret, store, Settings, RawConfig, Config, bad_basic, bad_header,
  several_methods, bad_format, missing_fields, Built, built, invalid, Host, is_empty,
  first_non_empty, is_json_null,
}

abbrev pub single_webhook_key : String
single_webhook_key = "__single__"

-- `strings.ToLower` on a walked text.
abbrev pub lower_code : ℕ → ℕ
lower_code c = if leb 65 c && leb c 90 then c + 32 else c

abbrev pub to_lower : String → List ℕ
to_lower s = map lower_code (codes s)

-- Each setting is the environment's when that one is not empty.
unfoldable pub merge : (String → String) → Settings → Settings
merge getenv raw = record {
  api_url = first_non_empty (getenv "ALLUS_API_URL") raw.api_url;
  client_id = first_non_empty (getenv "ALLUS_CLIENT_ID") raw.client_id;
  client_secret = first_non_empty (getenv "ALLUS_CLIENT_SECRET") raw.client_secret;
  service_private_key =
      first_non_empty (getenv "ALLUS_SERVICE_PRIVATE_KEY") raw.service_private_key;
  key_passphrase = first_non_empty (getenv "ALLUS_KEY_PASSPHRASE") raw.key_passphrase;
  customer_client_id = first_non_empty (getenv "ALLUS_CUSTOMER_CLIENT_ID") raw.customer_client_id;
  customer_client_secret =
      first_non_empty (getenv "ALLUS_CUSTOMER_CLIENT_SECRET") raw.customer_client_secret;
  account_private_key =
      first_non_empty (getenv "ALLUS_ACCOUNT_PRIVATE_KEY") raw.account_private_key;
  account_passphrase = first_non_empty (getenv "ALLUS_ACCOUNT_PASSPHRASE") raw.account_passphrase;
  oauth_client_id = first_non_empty (getenv "ALLUS_OAUTH_CLIENT_ID") raw.oauth_client_id;
  oauth_redirect_uri = first_non_empty (getenv "ALLUS_OAUTH_REDIRECT_URI") raw.oauth_redirect_uri;
  oauth_client_secret =
      first_non_empty (getenv "ALLUS_OAUTH_CLIENT_SECRET") raw.oauth_client_secret;
  oauth_private_key = first_non_empty (getenv "ALLUS_OAUTH_PRIVATE_KEY") raw.oauth_private_key;
  oauth_key_passphrase =
      first_non_empty (getenv "ALLUS_OAUTH_KEY_PASSPHRASE") raw.oauth_key_passphrase;
  authorize_url = first_non_empty (getenv "ALLUS_AUTHORIZE_URL") raw.authorize_url;
  cache_dir = first_non_empty (getenv "ALLUS_CACHE_DIR") raw.cache_dir;
  format = first_non_empty (getenv "ALLUS_FORMAT") raw.format;
}

abbrev pub with_flat : String → Table → Table
with_flat flat m = if is_empty flat then m else store m single_webhook_key flat

-- The decoded object of an authentication method, if it is configured: `none` is a bad shape.
abbrev pub checked : Option Pair → Option (Option Pair)
checked none = none
checked (some p) = if is_empty p.first || is_empty p.second then none else some (some p)

abbrev pub decode_pair : Option Pair → String → Option (Option Pair)
decode_pair decoded raw = if is_json_null raw then some none else checked decoded

abbrev pub is_some {ℓ} : {A : Type ℓ} → Option A → Bool
is_some none = false
is_some (some a) = true

abbrev pub is_set : Table → Bool
is_set [] = false
is_set (x ∷ m) = true

abbrev pub listed_if : Bool → String → List String → List String
listed_if b name rest = if b then name ∷ rest else rest

-- The authentication methods that are configured.
unfoldable pub present : Config → List String
present cfg = listed_if (is_set cfg.webhooks) "hmac" (
    listed_if (not (is_empty cfg.webhook_bearer_token)) "bearer" (
      listed_if (is_some cfg.webhook_basic) "basic" (
        listed_if (is_some cfg.webhook_header) "header"
          (listed_if cfg.webhook_auth_none "none" []))))

unfoldable pub webhook_auth_method : Config → String
webhook_auth_method cfg =
    if cfg.webhook_auth_none
    then "none"
    else if not (is_empty cfg.webhook_bearer_token)
    then "bearer"
    else if is_some cfg.webhook_basic
    then "basic"
    else if is_some cfg.webhook_header
    then "header"
    else if is_set cfg.webhooks
    then "hmac"
    else ""

abbrev pub or_empty : Option String → String
or_empty none = ""
or_empty (some s) = s

abbrev pub secret_or : Option String → Table → String
secret_or (some s) m = s
secret_or none m = or_empty (lookup_secret m single_webhook_key)

unfoldable pub webhook_secret : Config → String → String
webhook_secret cfg webhook_id =
    if is_empty webhook_id
    then or_empty (lookup_secret cfg.webhooks single_webhook_key)
    else secret_or (lookup_secret cfg.webhooks webhook_id) cfg.webhooks

-- The format in lower case, if it is one of the two.
unfoldable pub resolve_format : String → Option String
resolve_format s =
    if is_empty s
    then some "json"
    else if eqb (to_lower s) (codes "json")
    then some "json"
    else if eqb (to_lower s) (codes "xml")
    then some "xml"
    else none

-- The fields that a role needs, with their values.
unfoldable pub required : String → Settings → List (String × String)
required role s =
    if str_eq role "customer"
    then ("api_url", s.api_url)
      ∷ ("customer_client_id", s.customer_client_id)
      ∷ ("customer_client_secret", s.customer_client_secret)
      ∷ ("account_private_key", s.account_private_key)
      ∷ []
    else if str_eq role "idw"
    then ("api_url", s.api_url)
      ∷ ("oauth_client_id", s.oauth_client_id)
      ∷ ("oauth_redirect_uri", s.oauth_redirect_uri)
      ∷ []
    else ("api_url", s.api_url)
      ∷ ("client_id", s.client_id)
      ∷ ("client_secret", s.client_secret)
      ∷ ("service_private_key", s.service_private_key)
      ∷ ("key_passphrase", s.key_passphrase)
      ∷ []

unfoldable pub missing : List (String × String) → List String
missing [] = []
missing ((name, v) ∷ fields) = let rest = missing fields in if is_empty v then name ∷ rest else rest

-- The last test of `buildConfig`.
abbrev pub if_complete : Config → List String → Built
if_complete cfg [] = built cfg
if_complete cfg (name ∷ names) = invalid (missing_fields (name ∷ names))

abbrev pub with_format : String → Config → Option String → Built
with_format role cfg none = invalid (bad_format cfg.settings.format)
with_format role cfg (some f) =
    let s = record cfg.settings {
      cache_dir = first_non_empty cfg.settings.cache_dir "./allus-cache";
      format = f;
    } in
    if_complete (record cfg { settings = s }) (missing (required role s))

abbrev pub if_one_method : String → Config → List String → Built
if_one_method role cfg (m ∷ n ∷ ms) = invalid (several_methods (m ∷ n ∷ ms))
if_one_method role cfg _ = with_format role cfg (resolve_format cfg.settings.format)

abbrev pub assemble : Host → RawConfig → Option Pair → Option Pair → Config
assemble host raw b h = record {
  settings = merge host.getenv raw.settings;
  webhooks =
      with_flat (first_non_empty (host.getenv "ALLUS_WEBHOOK_SECRET") raw.webhook_secret)
        raw.webhooks;
  webhook_bearer_token = raw.webhook_bearer_token;
  webhook_basic = b;
  webhook_header = h;
  webhook_auth_none = raw.webhook_auth_none;
}

abbrev pub with_pairs :
    String → Host → RawConfig → Option (Option Pair) → Option (Option Pair) → Built
with_pairs role host raw none h = invalid bad_basic
with_pairs role host raw (some b) none = invalid bad_header
with_pairs role host raw (some b) (some h) =
    if_one_method role (assemble host raw b h) (present (assemble host raw b h))

unfoldable pub build_config : Host → RawConfig → String → Built
build_config host raw role =
    with_pairs role host raw
      (decode_pair (host.unmarshal "username" "password" raw.webhook_basic) raw.webhook_basic)
      (decode_pair (host.unmarshal "name" "value" raw.webhook_header) raw.webhook_header)

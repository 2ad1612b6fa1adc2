-- ===== src/Config/Load.antt =====
-- The configuration as it is read and as it is used (companydata/config.go: Config, rawConfig).
use company_data_go.Prelude.{
  String, Bool, true, Option, none, some, List, [], ◌∷◌, str_eq, if◌then◌else◌,
}

-- `webhook_basic` and `webhook_header`: an object of two texts.
pub record Pair : Type 0 where
  pub first : String
  pub second : String

-- A map from texts to texts, in the order in which its keys were first stored.
abbrev pub Table : Type 0
Table = List (String × String)

-- `m[k]` with its second result.
unfoldable pub lookup_secret : Table → String → Option String
lookup_secret [] k = none
lookup_secret ((j, v) ∷ m) k = if str_eq j k then some v else lookup_secret m k

-- `m[k] = v`.
unfoldable pub store : Table → String → String → Table
store [] k v = (k, v) ∷ []
store ((j, w) ∷ m) k v = if str_eq j k then (k, v) ∷ m else (j, w) ∷ store m k v

-- The texts that a file or an environment variable gives; the environment's are found by name.
pub record Settings : Type 0 where
  pub api_url : String
  pub client_id : String
  pub client_secret : String
  pub service_private_key : String
  pub key_passphrase : String
  pub customer_client_id : String
  pub customer_client_secret : String
  pub account_private_key : String
  pub account_passphrase : String
  pub oauth_client_id : String
  pub oauth_redirect_uri : String
  pub oauth_client_secret : String
  pub oauth_private_key : String
  pub oauth_key_passphrase : String
  pub authorize_url : String
  pub cache_dir : String
  pub format : String

-- The file: `basic` and `header` are the undecoded texts, "" when absent.
pub record RawConfig : Type 0 where
  pub settings : Settings
  pub webhooks : Table
  pub webhook_secret : String
  pub webhook_bearer_token : String
  pub webhook_basic : String
  pub webhook_header : String
  pub webhook_auth_none : Bool

pub record Config : Type 0 where
  pub settings : Settings
  pub webhooks : Table
  pub webhook_bearer_token : String
  pub webhook_basic : Option Pair
  pub webhook_header : Option Pair
  pub webhook_auth_none : Bool

pub data ConfigError : Type 0 where
  bad_basic : ConfigError
  bad_header : ConfigError
  several_methods : List String → ConfigError
  bad_format : String → ConfigError
  missing_fields : List String → ConfigError

pub data Built : Type 0 where
  built : Config → Built
  invalid : ConfigError → Built

-- `os.Getenv`, and encoding/json's decoding of a text into a struct of two texts with the given
-- tags (`none` is its error).
pub record Host : Type 0 where
  pub getenv : String → String
  pub unmarshal : String → String → String → Option Pair

abbrev pub is_empty : String → Bool
is_empty s = str_eq s ""

abbrev pub first_non_empty : String → String → String
first_non_empty a b = if is_empty a then b else a

abbrev pub is_json_null : String → Bool
is_json_null raw = if is_empty raw then true else str_eq raw "null"

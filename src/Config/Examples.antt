-- ===== src/Config/Examples.antt =====
-- A service configuration with a bearer token; the theorems on configurations at that input.
use company_data_go.Prelude.{◌≡◌, refl, false, none, []}
use company_data_go.Config.Load.{Settings, RawConfig, Config, built, Host}
use company_data_go.Config.Build.{present, build_config, missing, required, resolve_format, merge}
use company_data_go.Config.Meaning.{IsValid}
use company_data_go.Config.Valid.{build_config-IsValid}

abbrev file_settings : Settings
file_settings = record {
  api_url = "https://api.example";
  client_id = "svc_1";
  client_secret = "secret";
  service_private_key = "key.pem";
  key_passphrase = "words";
  customer_client_id = "";
  customer_client_secret = "";
  account_private_key = "";
  account_passphrase = "";
  oauth_client_id = "";
  oauth_redirect_uri = "";
  oauth_client_secret = "";
  oauth_private_key = "";
  oauth_key_passphrase = "";
  authorize_url = "";
  cache_dir = "";
  format = "XML";
}

abbrev file_config : RawConfig
file_config = record {
  settings = file_settings;
  webhooks = [];
  webhook_secret = "";
  webhook_bearer_token = "token";
  webhook_basic = "";
  webhook_header = "null";
  webhook_auth_none = false;
}

-- No variable is set, and no object is decoded.
abbrev bare_host : Host
bare_host = record { getenv = λ name. ""; unmarshal = λ a b raw. none }

abbrev service_config : Config
service_config = record {
  settings = record file_settings { cache_dir = "./allus-cache"; format = "xml" };
  webhooks = [];
  webhook_bearer_token = "token";
  webhook_basic = none;
  webhook_header = none;
  webhook_auth_none = false;
}

file_config_built : build_config bare_host file_config "service" ≡ built service_config
unfolding build_config missing required present resolve_format merge
file_config_built = refl

build_config-IsValid_example : IsValid "service" service_config
build_config-IsValid_example =
    build_config-IsValid bare_host file_config "service" service_config file_config_built

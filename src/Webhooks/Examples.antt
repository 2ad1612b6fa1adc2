-- ===== src/Webhooks/Examples.antt =====
-- A bearer token, an HMAC and an envelope; the theorems on webhooks at those inputs.
use company_data_go.Prelude.{
  ℕ, ◌≡◌, ◌↔◌, refl, true, false, none, some, List, [], ◌∷◌, ◌++◌, codes, pos,
}
use company_data_go.Json.{int, string, object, Fields, end, field}
use company_data_go.Buffer.Decimal.{trim_space}
use company_data_go.Config.Load.{Config, Settings}
use company_data_go.Config.Build.{webhook_auth_method}
use company_data_go.Webhooks.Headers.{Headers, http_header, as_header_map, lookup}
use company_data_go.Webhooks.Verify.{Digests, verify_webhook, verify_by}
use company_data_go.Webhooks.Payload.{
  Outcome, done, Library, decrypt_oaep_sha1, decode_webhook_payload, is_envelope, parse_webhook,
  handle_webhook, decode_inner, unwrap_account_envelope,
}
use company_data_go.Webhooks.Credentials.{Authentic, verify_webhook-Authentic}
use company_data_go.Webhooks.Sealed.{Opened, decrypt_oaep_sha1-Opened, handle_webhook-Authentic}

abbrev no_settings : Settings
no_settings = record {
  api_url = "";
  client_id = "";
  client_secret = "";
  service_private_key = "";
  key_passphrase = "";
  customer_client_id = "";
  customer_client_secret = "";
  account_private_key = "";
  account_passphrase = "";
  oauth_client_id = "";
  oauth_redirect_uri = "";
  oauth_client_secret = "";
  oauth_private_key = "";
  oauth_key_passphrase = "";
  authorize_url = "";
  cache_dir = "";
  format = "json";
}

abbrev bearer_config : Config
bearer_config = record {
  settings = no_settings;
  webhooks = [];
  webhook_bearer_token = "token";
  webhook_basic = none;
  webhook_header = none;
  webhook_auth_none = false;
}

abbrev toy_digests : Digests
toy_digests = record { hmac_hex = λ secret body. codes secret ++ body; base64 = λ s. s }

abbrev bearer_headers : Headers
bearer_headers = http_header (("Authorization", "Bearer token" ∷ []) ∷ [])

abbrev sealed : Fields
sealed = field "_enc" (int (pos 1)) (
    field "k" (string "kkkkkkkkkkkkkkkkkkkkkkkkkkkkkkkk")
      (field "iv" (string "abcdefghijkl") (field "d" (string "{}tagtagtagtagtagt") end)))

-- Base64 that changes nothing, and ciphers that return what they are given.
abbrev toy_library : Library ℕ
toy_library = record {
  json_object = λ t. some sealed;
  json_value = λ t. some (object end);
  xml = λ t. none;
  base64_decode = λ s. some (codes s);
  read_file = λ path. none;
  pem_decode = λ t. none;
  parse_pkcs8 = λ t words. none;
  decrypt_oaep = λ key enc_key. some enc_key;
  gcm_open = λ aes_key iv ciphertext. some ciphertext;
}

abbrev brace : List ℕ
brace = codes "{}"

verify_webhook-Authentic_example :
    (verify_webhook toy_digests bearer_config bearer_headers brace ≡ true)
    ↔ Authentic toy_digests bearer_config
        (as_header_map bearer_headers)
        brace
        (webhook_auth_method bearer_config)
verify_webhook-Authentic_example =
    verify_webhook-Authentic toy_digests bearer_config bearer_headers brace

decrypt_oaep_sha1-Opened_example : Opened toy_library sealed 0 (codes "{}tagtagtagtagtagt")
unfolding decrypt_oaep_sha1
decrypt_oaep_sha1-Opened_example =
    decrypt_oaep_sha1-Opened toy_library sealed 0 (codes "{}tagtagtagtagtagt") refl

abbrev open_change : Fields → Outcome Fields
open_change m = done m

handle_webhook-Authentic_example :
    Authentic toy_digests bearer_config
      (as_header_map bearer_headers)
      brace
      (webhook_auth_method bearer_config)
    × (parse_webhook toy_library open_change brace bearer_config (some 0) ≡ done end)
unfolding handle_webhook parse_webhook decode_webhook_payload trim_space is_envelope verify_webhook
    verify_by webhook_auth_method lookup decode_inner unwrap_account_envelope decrypt_oaep_sha1
handle_webhook-Authentic_example =
    handle_webhook-Authentic toy_library toy_digests open_change brace bearer_headers bearer_config
      (some 0) end refl

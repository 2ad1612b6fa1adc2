-- ===== src/Webhooks/Payload.antt =====
-- The body of a webhook (companydata/webhooks.go: decodeWebhookPayload, isEnvelope,
-- unwrapAccountEnvelope, decryptOAEPSHA1, ParseWebhook, HandleWebhook). `xml` and `change_from_api`
-- stand for companydata/xml.go and companydata/models.go.
use company_data_go.Prelude.{
  ℕ, String, Bool, true, false, not, ◌&&◌, Option, none, some, List, ltb, ◌==◌, length, codes, ℤ,
  pos, eqb_ℤ, if◌then◌else◌,
}
use company_data_go.Json.{Value, number, float64, int, string, object, Fields, get}
use company_data_go.Floats.{float_to_int}
use company_data_go.Buffer.Decimal.{atoi, trim_space}
use company_data_go.Buffer.Names.{has_prefix}
use company_data_go.Config.Load.{Config, is_empty}
use company_data_go.Webhooks.Headers.{Headers}
use company_data_go.Webhooks.Verify.{Digests, verify_webhook}

-- The ways in which a webhook is refused.
pub data Refusal : Type 0 where
  bad_signature : Refusal
  not_object : Refusal
  bad_json : Refusal
  bad_xml : Refusal
  neither : Refusal
  bad_inner_json : Refusal
  bad_inner_xml : Refusal
  unreadable_key : Refusal
  no_pem_block : Refusal
  bad_key : Refusal
  not_rsa : Refusal
  no_account_key : Refusal
  not_text : String → Refusal
  not_base64 : String → Refusal
  bad_iv : ℕ → Refusal
  too_short : Refusal
  unwrap_failed : Refusal
  bad_aes_key : ℕ → Refusal
  tag_mismatch : Refusal
  bad_change : Refusal

pub data Outcome {ℓ} (A : Type ℓ) : Type ℓ where
  done : A → Outcome A
  refused : Refusal → Outcome A

abbrev pub and_then {ℓ κ} : {A : Type ℓ} {B : Type κ} → Outcome A → (A → Outcome B) → Outcome B
and_then (done a) f = f a
and_then (refused x) f = refused x

abbrev pub or_refuse {ℓ} : {A : Type ℓ} → Refusal → Option A → Outcome A
or_refuse x none = refused x
or_refuse x (some a) = done a

-- What the receiver calls: the JSON decoder (an object, any value), the XML parser, base64, files,
-- PEM, PKCS#8 (`none` for the inner option is a key of another kind), RSA-OAEP with SHA-1 and
-- AES-GCM (the key, the iv and the ciphertext).
pub record Library (Key : Type 0) : Type 0 where
  pub json_object : List ℕ → Option Fields
  pub json_value : List ℕ → Option Value
  pub xml : List ℕ → Option Value
  pub base64_decode : String → Option (List ℕ)
  pub read_file : String → Option (List ℕ)
  pub pem_decode : List ℕ → Option (List ℕ)
  pub parse_pkcs8 : List ℕ → String → Option (Option Key)
  pub decrypt_oaep : Key → List ℕ → Option (List ℕ)
  pub gcm_open : List ℕ → List ℕ → List ℕ → Option (List ℕ)

abbrev pub gcm_iv_len : ℕ
gcm_iv_len = 12

abbrev pub gcm_tag_len : ℕ
gcm_tag_len = 16

-- `numEquals(v, 1)`.
abbrev pub is_one : Option ℤ → Bool
is_one none = false
is_one (some i) = eqb_ℤ i (pos 1)

abbrev pub num_is_one : Value → Bool
num_is_one (number t) = is_one (atoi t)
num_is_one (float64 f) = eqb_ℤ (float_to_int f) (pos 1)
num_is_one (int n) = eqb_ℤ n (pos 1)
num_is_one _ = false

abbrev pub has_key : Option Value → Bool
has_key none = false
has_key (some v) = true

abbrev pub is_marked : Option Value → Bool
is_marked none = false
is_marked (some v) = num_is_one v

unfoldable pub is_envelope : Fields → Bool
is_envelope m =
    is_marked (get m "_enc") && has_key (get m "k") && has_key (get m "iv") && has_key (get m "d")

module _ {Key : Type 0} (lib : Library Key) where
  abbrev pub env_b64 : Option Value → String → Outcome (List ℕ)
  env_b64 (some (string s)) name = or_refuse (not_base64 name) (lib.base64_decode s)
  env_b64 _ name = refused (not_text name)

  abbrev pub opened_with : List ℕ → List ℕ → List ℕ → Outcome (List ℕ)
  opened_with iv ciphertext aes_key =
      if length aes_key == 32
      then or_refuse tag_mismatch (lib.gcm_open aes_key iv ciphertext)
      else refused (bad_aes_key (length aes_key))

  abbrev pub decrypt_parts : Key → List ℕ → List ℕ → List ℕ → Outcome (List ℕ)
  decrypt_parts key enc_key iv ciphertext =
      if not (length iv == gcm_iv_len)
      then refused (bad_iv (length iv))
      else if ltb (length ciphertext) gcm_tag_len
      then refused too_short
      else and_then (or_refuse unwrap_failed (lib.decrypt_oaep key enc_key))
          (opened_with iv ciphertext)

  unfoldable pub decrypt_oaep_sha1 : Fields → Key → Outcome (List ℕ)
  decrypt_oaep_sha1 envelope key = and_then (env_b64 (get envelope "k") "k") λ enc_key.
      and_then (env_b64 (get envelope "iv") "iv") λ iv.
        and_then (env_b64 (get envelope "d") "d")
          λ ciphertext. decrypt_parts key enc_key iv ciphertext

  abbrev pub rsa_key : Option Key → Outcome (Option Key)
  rsa_key none = refused not_rsa
  rsa_key (some key) = done (some key)

  unfoldable pub load_account_key : Config → Outcome (Option Key)
  load_account_key cfg =
      if is_empty cfg.settings.account_private_key
      then done none
      else and_then (or_refuse unreadable_key (lib.read_file cfg.settings.account_private_key))
          λ pem. and_then (or_refuse no_pem_block (lib.pem_decode pem)) λ block.
            and_then (or_refuse bad_key (lib.parse_pkcs8 block cfg.settings.account_passphrase))
              rsa_key

  -- The cached key, or the one that the configuration names.
  abbrev pub account_key : Config → Option Key → Outcome (Option Key)
  account_key cfg (some key) = done (some key)
  account_key cfg none = load_account_key cfg

  unfoldable pub unwrap_account_envelope : Fields → Config → Option Key → Outcome (List ℕ)
  unwrap_account_envelope envelope cfg cached =
      and_then (account_key cfg cached)
        λ found. and_then (or_refuse no_account_key found) λ key. decrypt_oaep_sha1 envelope key

  unfoldable pub decode_inner : List ℕ → Outcome Value
  decode_inner text =
      if has_prefix (trim_space text) (codes "<")
      then or_refuse bad_inner_xml (lib.xml (trim_space text))
      else or_refuse bad_inner_json (lib.json_value (trim_space text))

  abbrev pub plain_or_envelope : Config → Option Key → Fields → Outcome Value
  plain_or_envelope cfg cached m =
      if is_envelope m
      then and_then (unwrap_account_envelope m cfg cached) decode_inner
      else done (object m)

  unfoldable pub decode_webhook_payload : List ℕ → Config → Option Key → Outcome Value
  decode_webhook_payload body cfg cached =
      if has_prefix (trim_space body) (codes "{")
      then and_then (or_refuse bad_json (lib.json_object (trim_space body)))
          (plain_or_envelope cfg cached)
      else if has_prefix (trim_space body) (codes "<")
      then or_refuse bad_xml (lib.xml (trim_space body))
      else refused neither

  abbrev pub as_object : Value → Outcome Fields
  as_object (object m) = done m
  as_object _ = refused not_object

  unfoldable pub parse_webhook :
      {Change : Type 0} → (Fields → Outcome Change) → List ℕ → Config → Option Key → Outcome Change
  parse_webhook change_from_api body cfg cached =
      and_then (decode_webhook_payload body cfg cached)
        λ payload. and_then (as_object payload) change_from_api

  unfoldable pub handle_webhook :
      {Change : Type 0}
      → Digests
      → (Fields → Outcome Change)
      → List ℕ
      → Headers
      → Config
      → Option Key
      → Outcome Change
  handle_webhook digests change_from_api body headers cfg cached =
      if verify_webhook digests cfg headers body
      then parse_webhook change_from_api body cfg cached
      else refused bad_signature

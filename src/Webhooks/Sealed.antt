-- ===== src/Webhooks/Sealed.antt =====
-- What the receiver has checked when it returns a payload or a change (companydata/webhooks.go).
use company_data_go.Prelude.{
  ℕ, ◌≤◌, ◌≡◌, refl, true, Bool-cases, inl, inr, Option, none, some, List, length, ltb, ◌==◌,
  ==_iff, arith, codes,
}
use company_data_go.Json.{Fields, get}
use company_data_go.Buffer.Decimal.{trim_space}
use company_data_go.Buffer.Names.{has_prefix}
use company_data_go.Config.Load.{Config}
use company_data_go.Config.Build.{webhook_auth_method}
use company_data_go.Webhooks.Headers.{Headers, as_header_map}
use company_data_go.Webhooks.Verify.{Digests, verify_webhook}
use company_data_go.Webhooks.Payload.{
  Refusal, no_account_key, Outcome, done, refused, and_then, or_refuse, Library, gcm_iv_len,
  gcm_tag_len, is_envelope, env_b64, opened_with, decrypt_parts, decrypt_oaep_sha1,
  load_account_key, unwrap_account_envelope, decode_webhook_payload, parse_webhook, handle_webhook,
}
use company_data_go.Webhooks.Credentials.{Authentic, verify_webhook-Authentic}

module _ {ℓ κ} {A : Type ℓ} {B : Type κ} where
  -- A chain that ends well has passed through its first step.
  and_then-done :
      (o : Outcome A) (f : A → Outcome B) (b : B)
      → and_then o f ≡ done b
      → (a : A) × (o ≡ done a) × (f a ≡ done b)
  and_then-done (done a) f b h = (a, refl, h)
  and_then-done (refused x) f b h = cc

or_refuse-done :
    {A : Type 0} (x : Refusal) (o : Option A) (a : A) → or_refuse x o ≡ done a → o ≡ some a
or_refuse-done x none a h = cc
or_refuse-done x (some b) a h = cc

module _ {Key : Type 0} (lib : Library Key) where
  -- The parts of an envelope that was opened, the lengths that the code asks for included.
  pub record Opened (envelope : Fields) (key : Key) (text : List ℕ) : Type 0 where
    pub enc_key : List ℕ
    pub iv : List ℕ
    pub ciphertext : List ℕ
    pub aes_key : List ℕ
    pub has_key : env_b64 lib (get envelope "k") "k" ≡ done enc_key
    pub has_iv : env_b64 lib (get envelope "iv") "iv" ≡ done iv
    pub has_text : env_b64 lib (get envelope "d") "d" ≡ done ciphertext
    pub iv_length : length iv ≡ gcm_iv_len
    pub has_tag : gcm_tag_len ≤ length ciphertext
    pub unwrapped : lib.decrypt_oaep key enc_key ≡ some aes_key
    pub key_length : length aes_key ≡ 32
    pub authentic : lib.gcm_open aes_key iv ciphertext ≡ some text

  opened_with-done :
      (iv ciphertext aes_key text : List ℕ)
      → opened_with lib iv ciphertext aes_key ≡ done text
      → (length aes_key ≡ 32) × (lib.gcm_open aes_key iv ciphertext ≡ some text)
  opened_with-done iv ciphertext aes_key text h = elim (Bool-cases (length aes_key == 32)) [
    | inl e ↦ ((==_iff (length aes_key) 32).0 e, or_refuse-done _ _ text (rw e at h))
    | inr e ↦ cc (rw e at h)
  ]

  decrypt_parts-done :
      (key : Key) (enc_key iv ciphertext text : List ℕ)
      → decrypt_parts lib key enc_key iv ciphertext ≡ done text
      → (length iv ≡ gcm_iv_len)
        × (gcm_tag_len ≤ length ciphertext)
        × (and_then
              (or_refuse Refusal.unwrap_failed (lib.decrypt_oaep key enc_key))
              (opened_with lib iv ciphertext)
            ≡ done text)
  decrypt_parts-done key enc_key iv ciphertext text h =
      elim (Bool-cases (length iv == gcm_iv_len)) [
        | inr e ↦ cc (rw e at h)
        | inl e ↦ elim (Bool-cases (ltb (length ciphertext) gcm_tag_len)) [
          | inl l ↦ cc (rw l at (rw e at h))
          | inr l ↦ ((==_iff (length iv) gcm_iv_len).0 e, ground arith, rw l at (rw e at h))
        ]
      ]

  -- A text that the account key opens has passed every check of the envelope.
  pub decrypt_oaep_sha1-Opened :
      (envelope : Fields) (key : Key) (text : List ℕ)
      → decrypt_oaep_sha1 lib envelope key ≡ done text
      → Opened envelope key text
  unfolding decrypt_oaep_sha1
  decrypt_oaep_sha1-Opened envelope key text h =
      let (enc_key, k, h₁) = and_then-done (env_b64 lib (get envelope "k") "k") _ text h in
      let (iv, i, h₂) = and_then-done (env_b64 lib (get envelope "iv") "iv") _ text h₁ in
      let (ciphertext, c, h₃) = and_then-done (env_b64 lib (get envelope "d") "d") _ text h₂ in
      let (iv_is, tag, h₄) = decrypt_parts-done key enc_key iv ciphertext text h₃ in
      let (aes_key, u, h₅) =
        and_then-done (or_refuse Refusal.unwrap_failed (lib.decrypt_oaep key enc_key)) _ text h₄ in
      let (length_is, opens) = opened_with-done iv ciphertext aes_key text h₅ in
      record {
        enc_key = enc_key;
        iv = iv;
        ciphertext = ciphertext;
        aes_key = aes_key;
        has_key = k;
        has_iv = i;
        has_text = c;
        iv_length = iv_is;
        has_tag = tag;
        unwrapped = or_refuse-done Refusal.unwrap_failed (lib.decrypt_oaep key enc_key) aes_key u;
        key_length = length_is;
        authentic = opens;
      }

  -- An envelope is refused when no account key is cached or configured.
  pub decode_webhook_payload_keyless :
      (body : List ℕ) (cfg : Config) (m : Fields)
      → has_prefix (trim_space body) (codes "{") ≡ true
      → lib.json_object (trim_space body) ≡ some m
      → is_envelope m ≡ true
      → cfg.settings.account_private_key ≡ ""
      → decode_webhook_payload lib body cfg none ≡ refused no_account_key
  unfolding decode_webhook_payload unwrap_account_envelope load_account_key
  decode_webhook_payload_keyless body cfg m p j e k = rw p (rw j (rw e (rw k refl)))

  -- A change that `HandleWebhook` returns came with the credential of the configured method, and is
  -- what `ParseWebhook` makes of the body.
  pub handle_webhook-Authentic :
      {Change : Type 0} (digests : Digests) (change_from_api : Fields → Outcome Change)
      (body : List ℕ) (headers : Headers) (cfg : Config) (cached : Option Key) (c : Change)
      → handle_webhook lib digests change_from_api body headers cfg cached ≡ done c
      → Authentic digests cfg (as_header_map headers) body (webhook_auth_method cfg)
        × (parse_webhook lib change_from_api body cfg cached ≡ done c)
  unfolding handle_webhook
  handle_webhook-Authentic digests change_from_api body headers cfg cached c h =
      elim (Bool-cases (verify_webhook digests cfg headers body)) [
        | inl e ↦ ((verify_webhook-Authentic digests cfg headers body).0 e, rw e at h)
        | inr e ↦ cc (rw e at h)
      ]

-- ===== src/Webhooks/Credentials.antt =====
-- Which requests the receiver accepts (companydata/webhooks.go: VerifyWebhook).
use company_data_go.Prelude.{
  ℕ, ◌≡◌, ◌↔◌, ◌⊎◌, inl, inr, refl, ap, String, Bool, true, false, not, Option, none, some,
  some-eq-some, List, [], ◌∷◌, map, codes, eqb, eq_iff, eq_refl, if◌then◌else◌,
}
use Prim.Native.String.{◌++◌ as cat}
use company_data_go.Buffer.Decimal.{trim_space}
use company_data_go.Buffer.Order.{eqb-eq, eqb_refl}
use company_data_go.Config.Load.{Config, is_empty}
use company_data_go.Config.Build.{
  lower_code, to_lower, webhook_auth_method, webhook_secret, is_some, is_set,
}
use company_data_go.Webhooks.Headers.{
  HeaderMap, Headers, http_header, unknown, as_header_map, lookup, header,
}
use company_data_go.Webhooks.Verify.{
  hdr_webhook_id, hdr_signature, Digests, equals_found, first_of, second_of, basic_token,
  verify_hmac, verify_by, verify_webhook,
}

-- The names of the methods.
abbrev IsMethod : String → Type 0
IsMethod m =
    (m ≡ "") ⊎ (m ≡ "none") ⊎ (m ≡ "bearer") ⊎ (m ≡ "basic") ⊎ (m ≡ "header") ⊎ (m ≡ "hmac")

webhook_auth_method-IsMethod : (cfg : Config) → IsMethod (webhook_auth_method cfg)
unfolding webhook_auth_method
webhook_auth_method-IsMethod cfg =
    named cfg.webhook_auth_none (not (is_empty cfg.webhook_bearer_token))
      (is_some cfg.webhook_basic) (is_some cfg.webhook_header) (is_set cfg.webhooks)
  where
    named :
        (a b c d e : Bool)
        → IsMethod (
            if a
            then "none"
            else if b
            then "bearer"
            else if c
            then "basic"
            else if d
            then "header"
            else if e
            then "hmac"
            else "")
    named true b c d e = inr (inl refl)
    named false true c d e = inr (inr (inl refl))
    named false false true d e = inr (inr (inr (inl refl)))
    named false false false true e = inr (inr (inr (inr (inl refl))))
    named false false false false true = inr (inr (inr (inr (inr refl))))
    named false false false false false = inl refl

equals_found-some :
    (found : Option String) (expected : String)
    → (equals_found found expected ≡ true) ↔ (found ≡ some expected)
equals_found-some none expected = (λ h. cc, λ h. cc)
equals_found-some (some got) expected =
    (λ h. ap some ((eq_iff got expected).0 h), λ h. (eq_iff got expected).1 (some-eq-some h))

module _ (digests : Digests) (cfg : Config) (h : HeaderMap) (body : List ℕ) where
  -- A signature that the secret of the named webhook makes of the body.
  pub record IsSigned : Type 0 where
    pub has_signature : is_empty (header h hdr_signature) ≡ false
    pub has_secret : is_empty (webhook_secret cfg (header h hdr_webhook_id)) ≡ false
    pub matches :
        digests.hmac_hex (webhook_secret cfg (header h hdr_webhook_id)) body
        ≡ map lower_code (trim_space (codes (header h hdr_signature)))

  -- The credential that each method asks for.
  pub data Authentic (m : String) : Type 0 where
    opted_out : m ≡ "none" → Authentic m
    by_bearer :
        m ≡ "bearer"
        → lookup h "authorization" ≡ some (cat "Bearer " cfg.webhook_bearer_token)
        → Authentic m
    by_basic : m ≡ "basic" → lookup h "authorization" ≡ some (basic_token digests cfg) → Authentic m
    by_header :
        m ≡ "header"
        → lookup h (first_of cfg.webhook_header) ≡ some (second_of cfg.webhook_header)
        → Authentic m
    by_hmac : m ≡ "hmac" → IsSigned → Authentic m

  verify_hmac-IsSigned : (verify_hmac digests cfg h body ≡ true) → IsSigned
  unfolding verify_hmac
  verify_hmac-IsSigned k =
      go (is_empty (header h hdr_signature))
        (is_empty (webhook_secret cfg (header h hdr_webhook_id))) refl refl k
    where
      go :
          (a b : Bool)
          → is_empty (header h hdr_signature) ≡ a
          → is_empty (webhook_secret cfg (header h hdr_webhook_id)) ≡ b
          → (if a
              then false
              else if b
              then false
              else eqb
                  (digests.hmac_hex (webhook_secret cfg (header h hdr_webhook_id)) body)
                  (map lower_code (trim_space (codes (header h hdr_signature)))))
            ≡ true
          → IsSigned
      go true b e f k = cc
      go false true e f k = cc
      go false false e f k = record { has_signature = e; has_secret = f; matches = eqb-eq _ _ k }

  IsSigned-verify_hmac : IsSigned → verify_hmac digests cfg h body ≡ true
  unfolding verify_hmac
  IsSigned-verify_hmac s = rw (s.has_signature) (
      rw (s.has_secret)
        (rw (s.matches) (eqb_refl (map lower_code (trim_space (codes (header h hdr_signature)))))))

  verify_by-Authentic :
      (m : String) → IsMethod m → verify_by digests m cfg h body ≡ true → Authentic m
  unfolding verify_by
  verify_by-Authentic m (inl e) k = cc (rw e at k)
  verify_by-Authentic m (inr (inl e)) k = opted_out e
  verify_by-Authentic m (inr (inr (inl e))) k = by_bearer e ((equals_found-some _ _).0 (rw e at k))
  verify_by-Authentic m (inr (inr (inr (inl e)))) k =
      by_basic e ((equals_found-some _ _).0 (rw e at k))
  verify_by-Authentic m (inr (inr (inr (inr (inl e))))) k =
      by_header e ((equals_found-some _ _).0 (rw e at k))
  verify_by-Authentic m (inr (inr (inr (inr (inr e))))) k =
      by_hmac e (verify_hmac-IsSigned (rw e at k))

  Authentic-verify_by : (m : String) → Authentic m → verify_by digests m cfg h body ≡ true
  unfolding verify_by
  Authentic-verify_by m (opted_out e) = rw e refl
  Authentic-verify_by m (by_bearer e k) = rw (e, k) (eq_refl _)
  Authentic-verify_by m (by_basic e k) = rw (e, k) (eq_refl _)
  Authentic-verify_by m (by_header e k) = rw (e, k) (eq_refl _)
  Authentic-verify_by m (by_hmac e k) = rw e (IsSigned-verify_hmac k)

-- `VerifyWebhook` accepts exactly the requests with the credential of the configured method.
pub verify_webhook-Authentic :
    (digests : Digests) (cfg : Config) (headers : Headers) (body : List ℕ)
    → (verify_webhook digests cfg headers body ≡ true)
      ↔ Authentic digests cfg (as_header_map headers) body (webhook_auth_method cfg)
unfolding verify_webhook
verify_webhook-Authentic digests cfg headers body = (
  verify_by-Authentic digests cfg (as_header_map headers) body (webhook_auth_method cfg)
      (webhook_auth_method-IsMethod cfg),
  Authentic-verify_by digests cfg (as_header_map headers) body (webhook_auth_method cfg),
)

-- Without headers a request is accepted exactly when the configuration opts out of the check.
pub verify_webhook_bare :
    (digests : Digests) (cfg : Config) (body : List ℕ)
    → verify_webhook digests cfg unknown body ≡ cfg.webhook_auth_none
unfolding verify_webhook verify_by verify_hmac header lookup webhook_auth_method
verify_webhook_bare digests cfg body =
    go cfg.webhook_auth_none (not (is_empty cfg.webhook_bearer_token)) (is_some cfg.webhook_basic)
      (is_some cfg.webhook_header) (is_set cfg.webhooks)
  where
    go :
        (a b c d e : Bool)
        → verify_by digests
            (if a
              then "none"
              else if b
              then "bearer"
              else if c
              then "basic"
              else if d
              then "header"
              else if e
              then "hmac"
              else "")
            cfg
            []
            body
          ≡ a
    go true b c d e = refl
    go false true c d e = refl
    go false false true d e = refl
    go false false false true e = refl
    go false false false false true = refl
    go false false false false false = refl

-- Headers that differ only in the case of their names.
abbrev pub SameHeaders : HeaderMap → HeaderMap → Type 0
SameHeaders [] [] = Unit
SameHeaders [] ((k, v) ∷ h) = ⊥
SameHeaders ((k, v) ∷ h) [] = ⊥
SameHeaders ((k, v) ∷ h) ((k', v') ∷ h') = (to_lower k ≡ to_lower k') × (v ≡ v') × SameHeaders h h'

lookup-SameHeaders :
    (h h' : HeaderMap) (name : String) → SameHeaders h h' → lookup h name ≡ lookup h' name
unfolding lookup
lookup-SameHeaders [] [] name s = refl
lookup-SameHeaders [] ((k, v) ∷ h) name s = absurd s
lookup-SameHeaders ((k, v) ∷ h) [] name s = absurd s
lookup-SameHeaders ((k, v) ∷ h) ((k', v') ∷ h') name s =
    rw (s.0, s.1, lookup-SameHeaders h h' name s.2)

-- The case of the names of the headers plays no part.
pub verify_webhook_case :
    (digests : Digests) (cfg : Config) (h h' : HeaderMap) (body : List ℕ)
    → SameHeaders h h'
    → verify_webhook digests cfg (http_header h) body
      ≡ verify_webhook digests cfg (http_header h') body
unfolding verify_webhook verify_by verify_hmac header
verify_webhook_case digests cfg h h' body s = rw (
  lookup-SameHeaders h h' "authorization" s,
  lookup-SameHeaders h h' hdr_signature s,
  lookup-SameHeaders h h' hdr_webhook_id s,
  lookup-SameHeaders h h' (first_of cfg.webhook_header) s,
)

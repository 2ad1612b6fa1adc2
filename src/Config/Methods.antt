-- ===== src/Config/Methods.antt =====
-- The one authentication method of a webhook (companydata/config.go: WebhookAuthMethod).
use company_data_go.Prelude.{
  ◌≤◌, ◌≡◌, refl, String, Bool, true, false, not, List, [], ◌∷◌, length, arith, if◌then◌else◌,
}
use company_data_go.Config.Load.{RawConfig, Config, built, Host, is_empty}
use company_data_go.Config.Build.{
  present, webhook_auth_method, is_some, is_set, listed_if, build_config,
}
use company_data_go.Config.Meaning.{NoneBut-present}
use company_data_go.Config.Valid.{build_config-IsValid}

-- The families as a list: "" names none.
abbrev pub sole : String → List String
sole name = if is_empty name then [] else name ∷ []

sole_method :
    (a b c d e : Bool)
    → length (
        listed_if a "hmac" (
          listed_if b "bearer"
            (listed_if c "basic" (listed_if d "header" (listed_if e "none" [])))))
      ≤ 1
    → listed_if a "hmac"
        (listed_if b "bearer" (listed_if c "basic" (listed_if d "header" (listed_if e "none" []))))
      ≡ sole (
          if e
          then "none"
          else if b
          then "bearer"
          else if c
          then "basic"
          else if d
          then "header"
          else if a
          then "hmac"
          else "")
sole_method true true c d e h = absurd (omega arith)
sole_method true false true d e h = absurd (omega arith)
sole_method true false false true e h = absurd (omega arith)
sole_method true false false false true h = absurd (omega arith)
sole_method true false false false false h = refl
sole_method false true true d e h = absurd (omega arith)
sole_method false true false true e h = absurd (omega arith)
sole_method false true false false true h = absurd (omega arith)
sole_method false true false false false h = refl
sole_method false false true true e h = absurd (omega arith)
sole_method false false true false true h = absurd (omega arith)
sole_method false false true false false h = refl
sole_method false false false true true h = absurd (omega arith)
sole_method false false false true false h = refl
sole_method false false false false true h = refl
sole_method false false false false false h = refl

-- Of a configuration that `buildConfig` returns, `WebhookAuthMethod` names the only method that is
-- configured: the order of its tests plays no part.
pub webhook_auth_method-present :
    (host : Host) (raw : RawConfig) (role : String) (cfg : Config)
    → build_config host raw role ≡ built cfg
    → present cfg ≡ sole (webhook_auth_method cfg)
unfolding present webhook_auth_method
webhook_auth_method-present host raw role cfg h =
    sole_method (is_set cfg.webhooks) (not (is_empty cfg.webhook_bearer_token))
      (is_some cfg.webhook_basic) (is_some cfg.webhook_header) cfg.webhook_auth_none
      (let (m, n) = (build_config-IsValid host raw role cfg h).one_method in
        unfold present in (NoneBut-present cfg m n))

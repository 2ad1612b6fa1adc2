-- ===== src/Config/Meaning.antt =====
-- What a usable configuration is, and the guards that ask for it (companydata/config.go: buildConfig).
use company_data_go.Prelude.{
  ◌≤◌, ◌≡◌, ◌≢◌, refl, ◌⊎◌, inl, inr, String, Bool, true, false, not, Option, none, some, List, [],
  ◌∷◌, length, str_eq, eq_iff, if◌then◌else◌, arith,
}
use company_data_go.Config.Load.{Pair, Table, Settings, Config, is_empty}
use company_data_go.Config.Build.{present, listed_if, is_set, is_some, required, missing}

-- An authentication object has both its texts.
abbrev pub IsWhole : Option Pair → Type 0
IsWhole none = Unit
IsWhole (some p) = (p.first ≢ "") × (p.second ≢ "")

-- The ways to authenticate a webhook.
pub data Method : Type 0 where
  hmac bearer basic header opted_out : Method

module _ (cfg : Config) where
  abbrev pub NoHmac : Type 0
  NoHmac = cfg.webhooks ≡ []

  abbrev pub NoBearer : Type 0
  NoBearer = cfg.webhook_bearer_token ≡ ""

  abbrev pub NoBasic : Type 0
  NoBasic = cfg.webhook_basic ≡ none

  abbrev pub NoHeader : Type 0
  NoHeader = cfg.webhook_header ≡ none

  abbrev pub NoOptOut : Type 0
  NoOptOut = cfg.webhook_auth_none ≡ false

  -- No method but this one is configured.
  abbrev pub NoneBut : Method → Type 0
  NoneBut hmac = NoBearer × NoBasic × NoHeader × NoOptOut
  NoneBut bearer = NoHmac × NoBasic × NoHeader × NoOptOut
  NoneBut basic = NoHmac × NoBearer × NoHeader × NoOptOut
  NoneBut header = NoHmac × NoBearer × NoBasic × NoOptOut
  NoneBut opted_out = NoHmac × NoBearer × NoBasic × NoHeader

-- What each role needs: the first Boolean is for "customer", the second for "idw".
abbrev pub Complete : Bool → Bool → Settings → Type 0
Complete true idw s =
    (s.api_url ≢ "")
    × (s.customer_client_id ≢ "")
    × (s.customer_client_secret ≢ "")
    × (s.account_private_key ≢ "")
Complete false true s = (s.api_url ≢ "") × (s.oauth_client_id ≢ "") × (s.oauth_redirect_uri ≢ "")
Complete false false s =
    (s.api_url ≢ "")
    × (s.client_id ≢ "")
    × (s.client_secret ≢ "")
    × (s.service_private_key ≢ "")
    × (s.key_passphrase ≢ "")

-- At most one authentication method, every setting that the role needs, and the defaults filled in.
pub record IsValid (role : String) (cfg : Config) : Type 0 where
  pub one_method : (m : Method) × NoneBut cfg m
  pub complete : Complete (str_eq role "customer") (str_eq role "idw") cfg.settings
  pub known_format : (cfg.settings.format ≡ "json") ⊎ (cfg.settings.format ≡ "xml")
  pub has_cache_dir : cfg.settings.cache_dir ≢ ""
  pub whole_basic : IsWhole cfg.webhook_basic
  pub whole_header : IsWhole cfg.webhook_header

pub is_empty-ne : (a : String) → is_empty a ≡ false → a ≢ ""
is_empty-ne a h e = let k : is_empty a ≡ true = (eq_iff a "").1 e in cc

-- ── the required settings ──

missing_none :
    (name v : String) (fields : List (String × String))
    → missing ((name, v) ∷ fields) ≡ []
    → (v ≢ "") × (missing fields ≡ [])
unfolding missing
missing_none name v fields h = step (is_empty v) refl h
  where
    step :
        (b : Bool)
        → is_empty v ≡ b
        → (if b then name ∷ missing fields else missing fields) ≡ []
        → (v ≢ "") × (missing fields ≡ [])
    step true e k = cc
    step false e k = (is_empty-ne v e, k)

pub missing-Complete :
    (customer idw : Bool) (role : String) (s : Settings)
    → str_eq role "customer" ≡ customer
    → str_eq role "idw" ≡ idw
    → missing (required role s) ≡ []
    → Complete customer idw s
unfolding required
missing-Complete true idw role s p q h =
    let (a, h1) = missing_none _ _ _ (rw p at h) in
    let (b, h2) = missing_none _ _ _ h1 in
    let (c, h3) = missing_none _ _ _ h2 in let (d, h4) = missing_none _ _ _ h3 in (a, b, c, d)
missing-Complete false true role s p q h =
    let (a, h1) = missing_none _ _ _ (rw (p, q) at h) in
    let (b, h2) = missing_none _ _ _ h1 in let (c, h3) = missing_none _ _ _ h2 in (a, b, c)
missing-Complete false false role s p q h =
    let (a, h1) = missing_none _ _ _ (rw (p, q) at h) in
    let (b, h2) = missing_none _ _ _ h1 in
    let (c, h3) = missing_none _ _ _ h2 in
    let (d, h4) = missing_none _ _ _ h3 in let (e, h5) = missing_none _ _ _ h4 in (a, b, c, d, e)

-- ── the methods ──

listed_none :
    (b : Bool) (s : String) (rest : List String)
    → length (listed_if b s rest) ≤ 0
    → (b ≡ false) × (length rest ≤ 0)
listed_none true s rest h = absurd (omega arith)
listed_none false s rest h = (refl, h)

listed_one :
    (b : Bool) (s : String) (rest : List String)
    → length (listed_if b s rest) ≤ 1
    → (length rest ≤ 0) ⊎ ((b ≡ false) × (length rest ≤ 1))
listed_one true s rest h = inl (omega arith)
listed_one false s rest h = inr (refl, h)

is_set-false : (m : Table) → is_set m ≡ false → m ≡ []
is_set-false [] h = refl
is_set-false (x ∷ m) h = cc

is_some-false : (o : Option Pair) → is_some o ≡ false → o ≡ none
is_some-false none h = refl
is_some-false (some p) h = cc

is_empty-true : (s : String) → not (is_empty s) ≡ false → s ≡ ""
is_empty-true s h = (eq_iff s "").0 (double (is_empty s) h)
  where
    double : (b : Bool) → not b ≡ false → b ≡ true
    double true k = refl
    double false k = cc

pub present-NoneBut : (cfg : Config) → length (present cfg) ≤ 1 → (m : Method) × NoneBut cfg m
unfolding present
present-NoneBut cfg h = elim (listed_one (is_set cfg.webhooks) "hmac" _ h) [
  | inl z1 ↦
      let (b, z2) = listed_none _ _ _ z1 in
      let (c, z3) = listed_none _ _ _ z2 in
      let (d, z4) = listed_none _ _ _ z3 in
      let (e, z5) = listed_none _ _ _ z4 in
      (hmac, (is_empty-true _ b, is_some-false _ c, is_some-false _ d, e))
  | inr (a, h1) ↦ elim (listed_one (not (is_empty cfg.webhook_bearer_token)) "bearer" _ h1) [
    | inl z2 ↦
        let (c, z3) = listed_none _ _ _ z2 in
        let (d, z4) = listed_none _ _ _ z3 in
        let (e, z5) = listed_none _ _ _ z4 in
        (bearer, (is_set-false _ a, is_some-false _ c, is_some-false _ d, e))
    | inr (b, h2) ↦ elim (listed_one (is_some cfg.webhook_basic) "basic" _ h2) [
      | inl z3 ↦
          let (d, z4) = listed_none _ _ _ z3 in
          let (e, z5) = listed_none _ _ _ z4 in
          (basic, (is_set-false _ a, is_empty-true _ b, is_some-false _ d, e))
      | inr (c, h3) ↦ elim (listed_one (is_some cfg.webhook_header) "header" _ h3) [
        | inl z4 ↦
            let (e, z5) = listed_none _ _ _ z4 in
            (header, (is_set-false _ a, is_empty-true _ b, is_some-false _ c, e))
        | inr (d, h4) ↦
            (opted_out, (is_set-false _ a, is_empty-true _ b, is_some-false _ c, is_some-false _ d))
      ]
    ]
  ]
]

-- ── back to the list ──

set_none : (m : Table) → m ≡ [] → is_set m ≡ false
set_none m h = rw h refl

some_none : (o : Option Pair) → o ≡ none → is_some o ≡ false
some_none o h = rw h refl

empty_none : (s : String) → s ≡ "" → not (is_empty s) ≡ false
empty_none s h = rw h refl

single : (b : Bool) (s : String) → length (listed_if b s []) ≤ 1
single true s = omega arith
single false s = omega arith

-- Where no method but one is configured, at most one is listed.
pub NoneBut-present : (cfg : Config) (m : Method) → NoneBut cfg m → length (present cfg) ≤ 1
unfolding present
NoneBut-present cfg hmac (b, c, d, e) =
    rw
      (
        empty_none cfg.webhook_bearer_token b,
        some_none cfg.webhook_basic c,
        some_none cfg.webhook_header d,
        e,
      )
      (single _ _)
NoneBut-present cfg bearer (a, c, d, e) =
    rw (set_none cfg.webhooks a, some_none cfg.webhook_basic c, some_none cfg.webhook_header d, e)
      (single _ _)
NoneBut-present cfg basic (a, b, d, e) =
    rw
      (
        set_none cfg.webhooks a,
        empty_none cfg.webhook_bearer_token b,
        some_none cfg.webhook_header d,
        e,
      )
      (single _ _)
NoneBut-present cfg header (a, b, c, e) =
    rw
      (
        set_none cfg.webhooks a,
        empty_none cfg.webhook_bearer_token b,
        some_none cfg.webhook_basic c,
        e,
      )
      (single _ _)
NoneBut-present cfg opted_out (a, b, c, d) =
    rw
      (
        set_none cfg.webhooks a,
        empty_none cfg.webhook_bearer_token b,
        some_none cfg.webhook_basic c,
        some_none cfg.webhook_header d,
      )
      (single _ _)

-- ===== src/Config/Valid.antt =====
-- What a configuration that was built satisfies (companydata/config.go: buildConfig).
use company_data_go.Prelude.{
  ◌≤◌, ◌≡◌, refl, sym, ap, String, Bool, true, false, ◌||◌, Option, none, some, Bool-cases, List,
  [], ◌∷◌, ◌⊎◌, inl, inr, length, arith, str_eq, some-eq-some, if◌then◌else◌,
}
use company_data_go.Config.Load.{
  Pair, RawConfig, Config, Built, built, invalid, Host, is_empty, first_non_empty, is_json_null,
}
use company_data_go.Config.Meaning.{
  IsWhole, IsValid, is_empty-ne, missing-Complete, present-NoneBut,
}
use company_data_go.Config.Build.{
  present, resolve_format, required, missing, if_complete, with_format, if_one_method, with_pairs,
  build_config, assemble, checked, decode_pair,
}

abbrev built_config : Config → Built → Config
built_config c (built cfg) = cfg
built_config c (invalid x) = c

built_inj : (a b : Config) → built a ≡ built b → a ≡ b
built_inj a b e = ap (built_config a) e

resolve_format_known : (s f : String) → resolve_format s ≡ some f → (f ≡ "json") ⊎ (f ≡ "xml")
unfolding resolve_format
resolve_format_known s f h = ground arith

not_empty : (a : String) → is_empty (first_non_empty a "./allus-cache") ≡ false
not_empty a = elim (Bool-cases (is_empty a)) [ inl h ↦ rw h refl | inr h ↦ rw h h ]

IsWhole-if :
    (q : Pair) (a b : Bool) (p : Option Pair)
    → is_empty q.first ≡ a
    → is_empty q.second ≡ b
    → (if a || b then none else some (some q)) ≡ some p
    → IsWhole p
IsWhole-if q true b p j k h = cc
IsWhole-if q false true p j k h = cc
IsWhole-if q false false p j k h =
    rw (sym (some-eq-some h)) (is_empty-ne q.first j, is_empty-ne q.second k)

checked-IsWhole : (o : Option Pair) (p : Option Pair) → checked o ≡ some p → IsWhole p
checked-IsWhole none p h = cc
checked-IsWhole (some q) p h = IsWhole-if q (is_empty q.first) (is_empty q.second) p refl refl h

decode_pair-IsWhole :
    (o : Option Pair) (raw : String) (p : Option Pair) → decode_pair o raw ≡ some p → IsWhole p
decode_pair-IsWhole o raw p h = go (is_json_null raw) h
  where
    go : (b : Bool) → (if b then some none else checked o) ≡ some p → IsWhole p
    go true k = rw (sym (some-eq-some k)) tt
    go false k = checked-IsWhole o p k

if_complete-built :
    (c cfg : Config) (names : List String)
    → if_complete c names ≡ built cfg
    → (names ≡ []) × (c ≡ cfg)
if_complete-built c cfg [] h = (refl, built_inj c cfg h)
if_complete-built c cfg (x ∷ names) h = cc

module _ (role : String) (c : Config) where
  abbrev finished : String → Config
  finished f = record c {
    settings = record c.settings {
      cache_dir = first_non_empty c.settings.cache_dir "./allus-cache";
      format = f;
    };
  }

  finished-IsValid :
      (f : String)
      → resolve_format c.settings.format ≡ some f
      → length (present c) ≤ 1
      → IsWhole c.webhook_basic
      → IsWhole c.webhook_header
      → missing (required role (finished f).settings) ≡ []
      → IsValid role (finished f)
  finished-IsValid f k one b h m = record {
    one_method = present-NoneBut (finished f) (unfold present in one);
    complete =
        missing-Complete (str_eq role "customer") (str_eq role "idw") role (finished f).settings
          refl refl m;
    known_format = resolve_format_known c.settings.format f k;
    has_cache_dir = is_empty-ne _ (not_empty c.settings.cache_dir);
    whole_basic = b;
    whole_header = h;
  }

  with_format-IsValid :
      (cfg : Config) (f : Option String)
      → resolve_format c.settings.format ≡ f
      → length (present c) ≤ 1
      → IsWhole c.webhook_basic
      → IsWhole c.webhook_header
      → with_format role c f ≡ built cfg
      → IsValid role cfg
  with_format-IsValid cfg none k one b h e = cc
  with_format-IsValid cfg (some f) k one b h e =
      let (nothing, same) =
        if_complete-built (finished f) cfg (missing (required role (finished f).settings)) e in
      rw same at (finished-IsValid f k one b h nothing)

  if_one_method-IsValid :
      (cfg : Config) (ms : List String)
      → present c ≡ ms
      → IsWhole c.webhook_basic
      → IsWhole c.webhook_header
      → if_one_method role c ms ≡ built cfg
      → IsValid role cfg
  if_one_method-IsValid cfg (x ∷ y ∷ ms) k b h e = cc
  if_one_method-IsValid cfg [] k b h e =
      with_format-IsValid cfg (resolve_format c.settings.format) refl (rw k (omega arith)) b h e
  if_one_method-IsValid cfg (x ∷ []) k b h e =
      with_format-IsValid cfg (resolve_format c.settings.format) refl (rw k (omega arith)) b h e

module _ (host : Host) (raw : RawConfig) (role : String) where
  with_pairs-IsValid :
      (b h : Option (Option Pair)) (cfg : Config)
      → ((p : Option Pair) → b ≡ some p → IsWhole p)
      → ((p : Option Pair) → h ≡ some p → IsWhole p)
      → with_pairs role host raw b h ≡ built cfg
      → IsValid role cfg
  with_pairs-IsValid none h cfg i j e = cc
  with_pairs-IsValid (some b) none cfg i j e = cc
  with_pairs-IsValid (some b) (some h) cfg i j e =
      if_one_method-IsValid role (assemble host raw b h) cfg (present (assemble host raw b h)) refl
        (i b refl) (j h refl) e

  -- What `buildConfig` returns has no two webhook methods, each setting that its role needs is not
  -- empty, credentials are whole, the format is json or xml and the cache directory is not empty.
  pub build_config-IsValid :
      (cfg : Config) → build_config host raw role ≡ built cfg → IsValid role cfg
  unfolding build_config
  build_config-IsValid cfg e =
      with_pairs-IsValid _ _ cfg
        (λ p.
          decode_pair-IsWhole (host.unmarshal "username" "password" raw.webhook_basic)
            raw.webhook_basic p)
        (λ p.
          decode_pair-IsWhole (host.unmarshal "name" "value" raw.webhook_header) raw.webhook_header
            p)
        e

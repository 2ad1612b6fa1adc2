-- ===== src/Plugins/Explored.antt =====
-- What a search for a private source has seen (companydata/plugin.go: isPrivate, exprReachesPrivate).
use company_data_go.Prelude.{
  ℕ, zero, suc, ◌<◌, ◌≡◌, ◌↔◌, refl, sym, ◌∙◌, ◌⊎◌, inl, inr, String, true, false, Bool-cases, List,
  [], ◌∷◌, str_eq, eq_iff, eq_refl, arith,
}
use company_data_go.Keys.{
  Grows, cons-Grows, either, one_of, unmarked, unmarked-Grows, unmarked-enter,
}
use company_data_go.FieldTypes.Registry.{contains_string}
use company_data_go.Plugins.Privacy.{
  base_of, Node, private_source, reads, Verdict, any_private, on_node, private_from,
}

-- A private source is reached from a key: its base is one, or reads a key that reaches one.
pub data Reaches (node : String → Node) : String → Type 0 where
  source : {ref : String} → node (base_of ref) ≡ private_source → Reaches node ref
  through :
      {ref q : String} {refs : List String}
      → node (base_of ref) ≡ reads refs
      → contains_string refs q ≡ true
      → Reaches node q
      → Reaches node ref

module _ (node : String → Node) where
  any_private-Reaches :
      (step : String → List String → Verdict)
      → ((q : String) (seen : List String) → (step q seen).is_private ≡ true → Reaches node q)
      → (rs seen : List String) → (any_private step rs seen).is_private ≡ true
      → (q : String) × (contains_string rs q ≡ true) × Reaches node q
  unfolding any_private
  any_private-Reaches step sound [] seen h = cc
  any_private-Reaches step sound (r ∷ rs) seen h = elim (Bool-cases (step r seen).is_private) [
    | inl e ↦ (r, one_of _ _ (eq_refl r), sound r seen e)
    | inr e ↦
        let (q, m, p) = any_private-Reaches step sound rs (step r seen).seen (rw e at h) in
        (q, cons-Grows r rs q m, p)
  ]

  private_from-Reaches :
      (fuel : ℕ) (ref : String) (seen : List String)
      → (private_from node fuel ref seen).is_private ≡ true
      → Reaches node ref
  unfolding private_from
  private_from-Reaches zero ref seen h = cc
  private_from-Reaches (suc fuel) ref seen h =
      elim (Bool-cases (contains_string seen (base_of ref))) [
        | inl e ↦ cc (rw e at h)
        | inr e ↦
            on (node (base_of ref)) refl (rw e at h) (λ q s p. private_from-Reaches fuel q s p)
      ]
    where
      on :
          (n : Node)
          → node (base_of ref) ≡ n
          → (on_node (private_from node fuel) n (base_of ref ∷ seen)).is_private ≡ true
          → ((q : String) (s : List String)
              → (private_from node fuel q s).is_private ≡ true
              → Reaches node q)
          → Reaches node ref
      on private_source e h sound = source e
      on (reads refs) e h sound =
          let (q, m, p) =
            any_private-Reaches (private_from node fuel) sound refs (base_of ref ∷ seen) h in
          through e m p

  -- ── the other direction ──

  -- The base is no source, and the bases of all that it reads were seen.
  abbrev Clear : List String → String → Type 0
  Clear seen b =
      (refs : List String) × (node b ≡ reads refs)
      × ((q : String) → contains_string refs q ≡ true → contains_string seen (base_of q) ≡ true)

  -- What a visit that found nothing private has seen.
  record Explored (seen out : List String) : Type 0 where
    kept : Grows seen out
    clear :
        (b : String) → contains_string out b ≡ true → (contains_string seen b ≡ true) ⊎ Clear out b

  Clear-Grows : (from to : List String) (b : String) → Grows from to → Clear from b → Clear to b
  Clear-Grows from to b g (refs, e, all) = (refs, e, λ q m. g (base_of q) (all q m))

  Explored-trans : (a b c : List String) → Explored a b → Explored b c → Explored a c
  Explored-trans a b c f g = record {
    kept = λ x m. g.kept x (f.kept x m);
    clear = λ x m. elim (g.clear x m) [
      | inl p ↦ elim (f.clear x p) [ inl q ↦ inl q | inr q ↦ inr (Clear-Grows b c x g.kept q) ]
      | inr p ↦ inr p
    ];
  }

  module _ (universe : List String)
      (reading : (b r : String) (rs : List String)
        → node b ≡ reads (r ∷ rs)
        → contains_string universe b ≡ true) where
    abbrev Explores : ℕ → (String → List String → Verdict) → Type 0
    Explores n step =
        (q : String) (seen : List String)
        → unmarked universe seen < n
        → (step q seen).is_private ≡ false
        → Explored seen (step q seen).seen × (contains_string (step q seen).seen (base_of q) ≡ true)

    any_private-Explores :
        (n : ℕ) (step : String → List String → Verdict)
        → Explores n step
        → (rs seen : List String) → unmarked universe seen < n
        → (any_private step rs seen).is_private ≡ false
        → Explored seen (any_private step rs seen).seen
          × ((q : String)
              → contains_string rs q ≡ true
              → contains_string (any_private step rs seen).seen (base_of q) ≡ true)
    unfolding any_private
    any_private-Explores n step explore [] seen l h =
        (record { kept = λ x m. m; clear = λ x m. inl m }, λ q m. cc)
    any_private-Explores n step explore (r ∷ rs) seen l h =
        elim (Bool-cases (step r seen).is_private) [
          | inl e ↦ cc (rw e at h)
          | inr e ↦
              let (v, here) = explore r seen l e in
              let (w, later) =
                any_private-Explores n step explore rs (step r seen).seen
                  (omega (arith, unmarked-Grows universe seen (step r seen).seen v.kept))
                  (rw e at h) in
              rw e (
                Explored-trans seen (step r seen).seen _ v w,
                λ q m. elim (either (str_eq r q) (contains_string rs q) m) [
                  | inl p ↦ rw (sym ((eq_iff r q).0 p)) (w.kept (base_of r) here)
                  | inr p ↦ later q p
                ],
              )
        ]

    -- A base whose reads were all explored.
    closed :
        (b : String) (refs seen out : List String)
        → node b ≡ reads refs
        → Explored (b ∷ seen) out
        → ((q : String) → contains_string refs q ≡ true → contains_string out (base_of q) ≡ true)
        → Explored seen out × (contains_string out b ≡ true)
    closed b refs seen out e v all = (
      record {
        kept = λ x m. v.kept x (cons-Grows b seen x m);
        clear = λ x m. elim (v.clear x m) [
          | inl p ↦ elim (either (str_eq b x) (contains_string seen x) p) [
            | inl q ↦ inr (let c : Clear out b = (refs, e, all) in rw ((eq_iff b x).0 q) at c)
            | inr q ↦ inl q
          ]
          | inr p ↦ inr p
        ];
      },
      v.kept b (one_of _ _ (eq_refl b)),
    )

    private_from-Explores : (fuel : ℕ) → Explores fuel (private_from node fuel)
    unfolding private_from
    private_from-Explores zero q seen l h = absurd (omega arith)
    private_from-Explores (suc fuel) ref seen l h =
        elim (Bool-cases (contains_string seen (base_of ref))) [
          | inl e ↦ rw e (record { kept = λ x m. m; clear = λ x m. inl m }, e)
          | inr e ↦ rw e (on (node (base_of ref)) refl (rw e at h) (private_from-Explores fuel) e)
        ]
      where
        on :
            (n : Node)
            → node (base_of ref) ≡ n
            → (on_node (private_from node fuel) n (base_of ref ∷ seen)).is_private ≡ false
            → Explores fuel (private_from node fuel)
            → contains_string seen (base_of ref) ≡ false
            → Explored seen (on_node (private_from node fuel) n (base_of ref ∷ seen)).seen
              × (contains_string
                    (on_node (private_from node fuel) n (base_of ref ∷ seen)).seen
                    (base_of ref)
                  ≡ true)
        on private_source e h explore new = cc
        on (reads []) e h explore new =
            closed (base_of ref) [] seen (base_of ref ∷ seen) e
              (record { kept = λ x m. m; clear = λ x m. inl m }) (λ q m. cc)
        on (reads (r ∷ rs)) e h explore new =
            let (v, all) =
              any_private-Explores fuel (private_from node fuel) explore (r ∷ rs)
                (base_of ref ∷ seen)
                (omega (
                  arith,
                  unmarked-enter universe seen (base_of ref) (reading (base_of ref) r rs e) new,
                ))
                h in
            closed (base_of ref) (r ∷ rs) seen _ e v all

  -- Nothing private is reached from what a search has seen if all of it is clear.
  nothing_private :
      (seen : List String)
      → ((b : String) → contains_string seen b ≡ true → Clear seen b)
      → {ref : String} → Reaches node ref
      → contains_string seen (base_of ref) ≡ true
      → ⊥
  nothing_private seen all {ref} (source e) m =
      let (refs, p, q) = all (base_of ref) m in differ (sym e ∙ p)
    where
      differ : {refs : List String} → private_source ≡ reads refs → ⊥
      differ h = cc
  nothing_private seen all {ref} (through {q = q} {refs = refs} e k r) m =
      let (rs, p, f) = all (base_of ref) m in nothing_private seen all r (f q (same rs (sym e ∙ p)))
    where
      same : (rs : List String) → reads refs ≡ reads rs → contains_string rs q ≡ true
      same rs h = let p : refs ≡ rs = cc in rw p at k

  -- With a unit of fuel for every base that reads anything and one more, the answer is yes exactly
  -- if a private source is reached.
  pub private_from-Reaches_iff :
      (universe : List String)
      → ((b r : String) (rs : List String)
          → node b ≡ reads (r ∷ rs)
          → contains_string universe b ≡ true)
      → (fuel : ℕ) (ref : String) → unmarked universe [] < fuel
      → ((private_from node fuel ref []).is_private ≡ true) ↔ Reaches node ref
  private_from-Reaches_iff universe reading fuel ref l = (
    private_from-Reaches fuel ref [],
    λ r. elim (Bool-cases (private_from node fuel ref []).is_private) [
      | inl e ↦ e
      | inr e ↦
          let (v, m) = private_from-Explores universe reading fuel ref [] l e in
          absurd (
            nothing_private (private_from node fuel ref []).seen
              (λ b k. elim (v.clear b k) [ inl p ↦ cc | inr p ↦ p ]) r m)
    ],
  )

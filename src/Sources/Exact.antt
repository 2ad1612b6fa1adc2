-- ===== src/Sources/Exact.antt =====
-- The held sources are those that the rules of the leaf name (companydata/flowsources.go:
-- heldSources).
use company_data_go.Prelude.{
  ◌≡◌, refl, ◌⊎◌, inl, inr, String, true, Bool-cases, Option, none, some, List, [], ◌∷◌, ◌++◌,
}
use company_data_go.Json.{Value, Items, nil, cons, Fields, get}
use company_data_go.FieldTypes.Registry.{contains_string}
use company_data_go.Keys.{Grows, Distinct}
use company_data_go.Constants.Plugins.{list_in}
use company_data_go.Sources.Held.{
  HeldSource, keys_held, add_held, rules_of, node_by_key, source_of, add_rules, add_outputs,
  held_sources,
}
use company_data_go.Sources.Distinct.{add_held-Distinct, add_held-Grows, add_held-holds}

abbrev pub Among : Fields → List Fields → Type 0
Among rule [] = ⊥
Among rule (x ∷ xs) = (x ≡ rule) ⊎ Among rule xs

-- The rule is one of an output.
abbrev pub RuleIn : Fields → Items → Type 0
RuleIn rule nil = ⊥
RuleIn rule (cons output outputs) = Among rule (rules_of output) ⊎ RuleIn rule outputs

-- The source, if there is one, is among those that are held.
abbrev pub IsHeld : Option HeldSource → List HeldSource → Type 0
IsHeld none out = Unit
IsHeld (some h) out = contains_string (keys_held out) h.source_key ≡ true

module _ (decode : String → Option Value) (answers : List Fields) (own_user : String)
    (source_files : List (String × String)) where
  abbrev source : Fields → Option HeldSource
  source rule = source_of decode answers own_user source_files rule

  abbrev with_rules : List Fields → List HeldSource → List HeldSource
  with_rules rules out = add_rules decode answers own_user source_files rules out

  abbrev with_outputs : Items → List HeldSource → List HeldSource
  with_outputs outputs out = add_outputs decode answers own_user source_files outputs out

  -- Every source is what a rule of the outputs names.
  abbrev pub AllNamed : Items → List HeldSource → Type 0
  AllNamed outputs [] = Unit
  AllNamed outputs (h ∷ hs) =
      ((rule : Fields) × RuleIn rule outputs × (source rule ≡ some h)) × AllNamed outputs hs

  -- Every source that a rule names is held.
  abbrev RulesHeld : List Fields → List HeldSource → Type 0
  RulesHeld [] out = Unit
  RulesHeld (rule ∷ rules) out = IsHeld (source rule) out × RulesHeld rules out

  abbrev pub AllHeld : Items → List HeldSource → Type 0
  AllHeld nil out = Unit
  AllHeld (cons output outputs) out = RulesHeld (rules_of output) out × AllHeld outputs out

  abbrev Good : Items → List HeldSource → Type 0
  Good all out = Distinct (keys_held out) × AllNamed all out

  AllNamed-append :
      (all : Items) (out : List HeldSource) (h : HeldSource)
      → AllNamed all out
      → (rule : Fields) × RuleIn rule all × (source rule ≡ some h)
      → AllNamed all (out ++ (h ∷ []))
  AllNamed-append all [] h n p = (p, tt)
  AllNamed-append all (x ∷ xs) h (q, n) p = (q, AllNamed-append all xs h n p)

  add_held-AllNamed :
      (all : Items) (rule : Fields) (o : Option HeldSource) (out : List HeldSource)
      → RuleIn rule all
      → source rule ≡ o
      → AllNamed all out
      → AllNamed all (add_held o out)
  add_held-AllNamed all rule none out m e n = n
  add_held-AllNamed all rule (some h) out m e n =
      elim (Bool-cases (contains_string (keys_held out) h.source_key)) [
        | inl k ↦ rw k n
        | inr k ↦ rw k (AllNamed-append all out h n (rule, m, e))
      ]

  add_rules-Good :
      (all : Items) (rules : List Fields) (out : List HeldSource)
      → ((r : Fields) → Among r rules → RuleIn r all)
      → Good all out
      → Good all (with_rules rules out)
  unfolding add_rules
  add_rules-Good all [] out i g = g
  add_rules-Good all (rule ∷ rules) out i (d, n) =
      add_rules-Good all rules (add_held (source rule) out) (λ r m. i r (inr m))
        (
          add_held-Distinct (source rule) out d,
          add_held-AllNamed all rule (source rule) out (i rule (inl refl)) refl n,
        )

  add_outputs-Good :
      (all outputs : Items) (out : List HeldSource)
      → ((r : Fields) → RuleIn r outputs → RuleIn r all)
      → Good all out
      → Good all (with_outputs outputs out)
  unfolding add_outputs
  add_outputs-Good all nil out i g = g
  add_outputs-Good all (cons output outputs) out i g =
      add_outputs-Good all outputs (with_rules (rules_of output) out) (λ r m. i r (inr m))
        (add_rules-Good all (rules_of output) out (λ r m. i r (inl m)) g)

  -- ── every source that a rule names ──

  add_rules-Grows :
      (rules : List Fields) (out : List HeldSource)
      → Grows (keys_held out) (keys_held (with_rules rules out))
  unfolding add_rules
  add_rules-Grows [] out r p = p
  add_rules-Grows (rule ∷ rules) out r p =
      add_rules-Grows rules (add_held (source rule) out) r (add_held-Grows (source rule) out r p)

  add_outputs-Grows :
      (outputs : Items) (out : List HeldSource)
      → Grows (keys_held out) (keys_held (with_outputs outputs out))
  unfolding add_outputs
  add_outputs-Grows nil out r p = p
  add_outputs-Grows (cons output outputs) out r p =
      add_outputs-Grows outputs (with_rules (rules_of output) out) r
        (add_rules-Grows (rules_of output) out r p)

  IsHeld-Grows :
      (o : Option HeldSource) (out later : List HeldSource)
      → Grows (keys_held out) (keys_held later)
      → IsHeld o out
      → IsHeld o later
  IsHeld-Grows none out later g p = tt
  IsHeld-Grows (some h) out later g p = g h.source_key p

  RulesHeld-Grows :
      (rules : List Fields) (out later : List HeldSource)
      → Grows (keys_held out) (keys_held later)
      → RulesHeld rules out
      → RulesHeld rules later
  RulesHeld-Grows [] out later g p = tt
  RulesHeld-Grows (rule ∷ rules) out later g (p, q) =
      (IsHeld-Grows (source rule) out later g p, RulesHeld-Grows rules out later g q)

  add_held-IsHeld : (o : Option HeldSource) (out : List HeldSource) → IsHeld o (add_held o out)
  add_held-IsHeld none out = tt
  add_held-IsHeld (some h) out = add_held-holds h out

  add_rules-RulesHeld :
      (rules : List Fields) (out : List HeldSource) → RulesHeld rules (with_rules rules out)
  unfolding add_rules
  add_rules-RulesHeld [] out = tt
  add_rules-RulesHeld (rule ∷ rules) out =
      let next = add_held (source rule) out in
      (
        IsHeld-Grows (source rule) next (with_rules rules next) (add_rules-Grows rules next)
            (add_held-IsHeld (source rule) out),
        add_rules-RulesHeld rules next,
      )

  add_outputs-AllHeld :
      (outputs : Items) (out : List HeldSource) → AllHeld outputs (with_outputs outputs out)
  unfolding add_outputs
  add_outputs-AllHeld nil out = tt
  add_outputs-AllHeld (cons output outputs) out =
      let next = with_rules (rules_of output) out in
      (
        RulesHeld-Grows (rules_of output) next (with_outputs outputs next)
            (add_outputs-Grows outputs next) (add_rules-RulesHeld (rules_of output) out),
        add_outputs-AllHeld outputs next,
      )

  -- The held sources of a leaf have distinct keys, each is what a rule of an output names and finds,
  -- and every source that a rule names and finds is held.
  pub held_sources-Exact :
      (definition leaf : Fields) (node_key : String)
      → node_by_key (list_in (get definition "nodes")) node_key ≡ some leaf
      → Distinct (keys_held (held_sources decode definition node_key answers own_user source_files))
        × AllNamed
            (list_in (get leaf "outputs"))
            (held_sources decode definition node_key answers own_user source_files)
        × AllHeld
            (list_in (get leaf "outputs"))
            (held_sources decode definition node_key answers own_user source_files)
  unfolding held_sources
  held_sources-Exact definition leaf node_key e =
      let outputs = list_in (get leaf "outputs") in
      let (d, n) = add_outputs-Good outputs outputs [] (λ r m. m) (tt, tt) in
      rw e (d, n, add_outputs-AllHeld outputs [])

-- ===== src/Flow/Boolean.antt =====
-- The boolean nodes of a condition against their meaning.
use company_data_go.Prelude.{
  String, ◌≡◌, ◌↔◌, ◌⊎◌, inl, inr, refl, ◌∙◌, Bool, true, false, not, ◌||◌, Option, none, some,
  arith,
}
use company_data_go.Json.{
  Value, string, array, object, Items, nil, cons, Fields, end, field, get, text_or_empty,
}
use company_data_go.Flow.Scalars.{FloatText}
use company_data_go.Flow.Condition.{
  evaluate_condition, kids_under, kids_of, kids_among, Kids, no_kids, value_or_null, evaluate_leaf,
  join,
}

module _ (text : FloatText) (answers : Fields) where
  abbrev pub AllHold : Items → Type 0
  AllHold nil = Unit
  AllHold (cons x xs) = (evaluate_condition text x answers ≡ true) × AllHold xs

  abbrev pub AnyHolds : Items → Type 0
  AnyHolds nil = ⊥
  AnyHolds (cons x xs) = (evaluate_condition text x answers ≡ true) ⊎ AnyHolds xs

  abbrev kids_at : Option Value → Kids
  kids_at none = no_kids
  kids_at (some v) = kids_of text v answers

  kids_under-get : (m : Fields) → kids_under text m answers ≡ kids_at (get m "children")
  unfolding kids_under
  kids_under-get end = refl
  kids_under-get (field k v m) = ground (arith, kids_under-get m)

  all-AllHold : (xs : Items) → ((kids_among text xs answers).all ≡ true) ↔ AllHold xs
  unfolding kids_among
  all-AllHold nil = (λ h. tt, λ h. refl)
  all-AllHold (cons x xs) = ground (arith, all-AllHold xs)

  any-AnyHolds : (xs : Items) → ((kids_among text xs answers).any ≡ true) ↔ AnyHolds xs
  unfolding kids_among
  any-AnyHolds nil = (λ h. cc, λ h. absurd h)
  any-AnyHolds (cons x xs) =
      either (evaluate_condition text x answers) (kids_among text xs answers).any (any-AnyHolds xs)
    where
      either :
          (b c : Bool) → ((c ≡ true) ↔ AnyHolds xs) → ((b || c) ≡ true) ↔ ((b ≡ true) ⊎ AnyHolds xs)
      either true c e = (λ h. inl refl, λ h. refl)
      either false c e = (λ h. inr (e.0 h), go)
        where
          go : (false ≡ true) ⊎ AnyHolds xs → c ≡ true
          go (inl h) = cc
          go (inr h) = e.1 h

  -- A node with an operator over a list of conditions.
  abbrev pub IsNode : Fields → String → Items → Type 0
  IsNode m op xs = (get m "op" ≡ some (string op)) × (get m "children" ≡ some (array xs))

  kids_node :
      (m : Fields) (op : String) (xs : Items)
      → IsNode m op xs
      → kids_under text m answers ≡ kids_among text xs answers
  kids_node m op xs h = kids_under-get m ∙ (rw h.1 (unfold kids_of in refl))

  evaluate_node :
      (m : Fields) (op : String) (xs : Items)
      → IsNode m op xs
      → evaluate_condition text (object m) answers
        ≡ join op (kids_among text xs answers) (
            evaluate_leaf text op
              (get m "value")
              (value_or_null (get answers (text_or_empty (get m "field")))))
  unfolding evaluate_condition
  evaluate_node m op xs h = rw (kids_node m op xs h) (rw h.0)

  -- An `and` node holds exactly when all its children do.
  pub and-AllHold :
      (m : Fields) (xs : Items)
      → IsNode m "and" xs
      → (evaluate_condition text (object m) answers ≡ true) ↔ AllHold xs
  and-AllHold m xs h = rw (evaluate_node m "and" xs h) (all-AllHold xs)

  -- An `or` node holds exactly when one of its children does.
  pub or-AnyHolds :
      (m : Fields) (xs : Items)
      → IsNode m "or" xs
      → (evaluate_condition text (object m) answers ≡ true) ↔ AnyHolds xs
  or-AnyHolds m xs h = rw (evaluate_node m "or" xs h) (any-AnyHolds xs)

  -- A `not` node holds exactly when its first child does not.
  pub not_first :
      (m : Fields) (x : Value) (xs : Items)
      → IsNode m "not" (cons x xs)
      → evaluate_condition text (object m) answers ≡ not (evaluate_condition text x answers)
  not_first m x xs h = rw (evaluate_node m "not" (cons x xs) h) (unfold kids_among in refl)

-- ===== src/Constants/Agree.antt =====
-- The value of an expression depends on no answer but those that it names
-- (companydata/flowconstants.go: evalExpr, collectExprConstRefs, collectCondConstRefs).
use mathlib.Core.Path.{ap₂}
use company_data_go.Prelude.{
  ◌≡◌, refl, ap, String, Bool, true, false, Bool-cases, inl, inr, Option, none, some, List, str_eq,
  if◌then◌else◌, arith,
}
use company_data_go.Json.{
  Value, null, boolean, number, float64, float32, int, int64, string, array, object, Items, nil,
  cons, Fields, end, field, get, text_or_empty,
}
use company_data_go.Flow.Scalars.{FloatText}
use company_data_go.Flow.Condition.{
  value_or_null, Kids, join, add_kid, evaluate_leaf, evaluate_condition, kids_under, kids_of,
  kids_among,
}
use company_data_go.FieldTypes.Registry.{contains_string}
use company_data_go.Constants.Refs.{
  add_field, add_kept, is_node, cond_refs, cond_refs_under, cond_refs_of, cond_refs_all,
}
use company_data_go.Constants.Grows.{add_key-added, cond_refs_all-Grows}

-- Two maps of answers agree on some keys.
abbrev pub AgreeOn : List String → Fields → Fields → Type 0
AgreeOn keys a b = (r : String) → contains_string keys r ≡ true → get a r ≡ get b r

pub if_agree {ℓ} :
    {A : Type ℓ} (b : Bool) (x x' y y' : A)
    → (b ≡ true → x ≡ x')
    → (b ≡ false → y ≡ y')
    → (if b then x else y) ≡ (if b then x' else y')
if_agree true x x' y y' h k = h refl
if_agree false x x' y y' h k = k refl

join-node :
    (keep : String → Bool) (op : String) (k : Kids) (x y : Bool)
    → is_node keep op ≡ true
    → join op k x ≡ join op k y
join-node keep op k x y h = ground arith

join-leaf :
    (keep : String → Bool) (op : String) (k l : Kids) (x : Bool)
    → is_node keep op ≡ false
    → join op k x ≡ join op l x
join-leaf keep op k l x h = ground arith

module _ (text : FloatText) (a b : Fields) (keep : String → Bool)
    (others : (r : String) → keep r ≡ false → get a r ≡ get b r)
    (unnamed : get a "" ≡ get b "") where
  pub kept :
      (k : String) (acc : List String) → AgreeOn (add_kept keep k acc) a b → get a k ≡ get b k
  kept k acc h = elim (Bool-cases (keep k)) [
    | inl e ↦ (rw e at h) k (add_key-added acc k)
    | inr e ↦ others k e
  ]

  field-agree :
      (o : Option Value) (acc : List String)
      → AgreeOn (add_field keep o acc) a b
      → get a (text_or_empty o) ≡ get b (text_or_empty o)
  field-agree (some (string f)) acc h = kept f acc h
  field-agree none acc h = unnamed
  field-agree (some null) acc h = unnamed
  field-agree (some (boolean x)) acc h = unnamed
  field-agree (some (number t)) acc h = unnamed
  field-agree (some (float64 f)) acc h = unnamed
  field-agree (some (float32 f)) acc h = unnamed
  field-agree (some (int n)) acc h = unnamed
  field-agree (some (int64 n)) acc h = unnamed
  field-agree (some (array xs)) acc h = unnamed
  field-agree (some (object m)) acc h = unnamed

  leaf :
      (op : String) (m : Fields) (acc : List String)
      → AgreeOn (add_field keep (get m "field") acc) a b
      → evaluate_leaf text op
          (get m "value")
          (value_or_null (get a (text_or_empty (get m "field"))))
        ≡ evaluate_leaf text op
            (get m "value")
            (value_or_null (get b (text_or_empty (get m "field"))))
  leaf op m acc h =
      ap (λ o. evaluate_leaf text op (get m "value") (value_or_null o))
        (field-agree (get m "field") acc h)

  mutual
    unfolding cond_refs evaluate_condition

    pub evaluate_condition-AgreeOn :
        (c : Value) (acc : List String)
        → AgreeOn (cond_refs keep c acc) a b
        → evaluate_condition text c a ≡ evaluate_condition text c b
    evaluate_condition-AgreeOn (object m) acc h =
        let op = text_or_empty (get m "op") in
        elim (Bool-cases (is_node keep op)) [
          | inl e ↦ rw (kids_under-AgreeOn m acc (rw e at h)) (join-node keep op _ _ _ e)
          | inr e ↦ rw (leaf op m acc (rw e at h)) (join-leaf keep op _ _ _ e)
        ]
    evaluate_condition-AgreeOn null acc h = refl
    evaluate_condition-AgreeOn (boolean x) acc h = refl
    evaluate_condition-AgreeOn (number t) acc h = refl
    evaluate_condition-AgreeOn (float64 f) acc h = refl
    evaluate_condition-AgreeOn (float32 f) acc h = refl
    evaluate_condition-AgreeOn (int n) acc h = refl
    evaluate_condition-AgreeOn (int64 n) acc h = refl
    evaluate_condition-AgreeOn (string s) acc h = refl
    evaluate_condition-AgreeOn (array xs) acc h = refl

    kids_under-AgreeOn :
        (m : Fields) (acc : List String)
        → AgreeOn (cond_refs_under keep m acc) a b
        → kids_under text m a ≡ kids_under text m b
    kids_under-AgreeOn end acc h = refl
    kids_under-AgreeOn (field j v m) acc h =
        if_agree (str_eq j "children") _ _ _ _ (λ e. kids_of-AgreeOn v acc (rw e at h))
          (λ e. kids_under-AgreeOn m acc (rw e at h))

    kids_of-AgreeOn :
        (v : Value) (acc : List String)
        → AgreeOn (cond_refs_of keep v acc) a b
        → kids_of text v a ≡ kids_of text v b
    kids_of-AgreeOn (array xs) acc h = kids_among-AgreeOn xs acc h
    kids_of-AgreeOn null acc h = refl
    kids_of-AgreeOn (boolean x) acc h = refl
    kids_of-AgreeOn (number t) acc h = refl
    kids_of-AgreeOn (float64 f) acc h = refl
    kids_of-AgreeOn (float32 f) acc h = refl
    kids_of-AgreeOn (int n) acc h = refl
    kids_of-AgreeOn (int64 n) acc h = refl
    kids_of-AgreeOn (string s) acc h = refl
    kids_of-AgreeOn (object m) acc h = refl

    kids_among-AgreeOn :
        (xs : Items) (acc : List String)
        → AgreeOn (cond_refs_all keep xs acc) a b
        → kids_among text xs a ≡ kids_among text xs b
    kids_among-AgreeOn nil acc h = refl
    kids_among-AgreeOn (cons x xs) acc h =
        ap₂ add_kid
          (evaluate_condition-AgreeOn x acc
            (λ r k. h r (cond_refs_all-Grows keep xs (cond_refs keep x acc) r k)))
          (kids_among-AgreeOn xs (cond_refs keep x acc) h)

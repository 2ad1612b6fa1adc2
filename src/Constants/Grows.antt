-- ===== src/Constants/Grows.antt =====
-- Collecting more keys keeps those that were collected (companydata/flowconstants.go:
-- collectExprConstRefs, collectCondConstRefs).
use company_data_go.Prelude.{
  ◌≡◌, refl, String, Bool, true, false, Bool-cases, inl, inr, Option, none, some, List, [], ◌∷◌,
  str_eq, eq_refl, if◌then◌else◌,
}
use company_data_go.Json.{
  Value, null, boolean, number, float64, float32, int, int64, string, array, object, Items, nil,
  cons, Fields, end, field, get, text_or_empty,
}
use company_data_go.Flow.Condition.{value_or_null}
use company_data_go.Keys.{Grows, contains_string-append}
use company_data_go.FieldTypes.Registry.{contains_string}
use company_data_go.Constants.Refs.{
  add_key, add_kept, add_field, is_node, cond_refs, cond_refs_under, cond_refs_of, cond_refs_all,
  expr_refs, expr_refs_under, case_refs, case_refs_of, case_refs_all, one_case_refs, expr_refs_list,
  expr_refs_list_of, expr_refs_all,
}

pub add_key-Grows : (acc : List String) (k : String) → Grows acc (add_key acc k)
unfolding add_key
add_key-Grows acc k r h = elim (Bool-cases (contains_string acc k)) [
  | inl e ↦ rw e h
  | inr e ↦ rw e (rw (contains_string-append acc (k ∷ []) r) (rw h refl))
]

-- A key is there once it was added.
pub add_key-added : (acc : List String) (k : String) → contains_string (add_key acc k) k ≡ true
unfolding add_key
add_key-added acc k = elim (Bool-cases (contains_string acc k)) [
  | inl e ↦ rw e e
  | inr e ↦ rw e (rw (contains_string-append acc (k ∷ []) k) (rw (e, eq_refl k) refl))
]

if_grows :
    (b : Bool) (acc x y : List String) → Grows acc x → Grows acc y → Grows acc (if b then x else y)
if_grows true acc x y h k = h
if_grows false acc x y h k = k

module _ (keep : String → Bool) where
  add_kept-Grows : (k : String) (acc : List String) → Grows acc (add_kept keep k acc)
  add_kept-Grows k acc = if_grows (keep k) _ _ _ (add_key-Grows acc k) (λ r h. h)

  add_field-Grows : (o : Option Value) (acc : List String) → Grows acc (add_field keep o acc)
  add_field-Grows (some (string f)) acc = add_kept-Grows f acc
  add_field-Grows none acc = λ r h. h
  add_field-Grows (some null) acc = λ r h. h
  add_field-Grows (some (boolean b)) acc = λ r h. h
  add_field-Grows (some (number t)) acc = λ r h. h
  add_field-Grows (some (float64 f)) acc = λ r h. h
  add_field-Grows (some (float32 f)) acc = λ r h. h
  add_field-Grows (some (int n)) acc = λ r h. h
  add_field-Grows (some (int64 n)) acc = λ r h. h
  add_field-Grows (some (array xs)) acc = λ r h. h
  add_field-Grows (some (object m)) acc = λ r h. h

  mutual
    unfolding cond_refs

    pub cond_refs-Grows : (c : Value) (acc : List String) → Grows acc (cond_refs keep c acc)
    cond_refs-Grows (object m) acc =
        if_grows (is_node keep (text_or_empty (get m "op"))) _ _ _ (cond_refs_under-Grows m acc)
          (add_field-Grows (get m "field") acc)
    cond_refs-Grows _ acc = λ r h. h

    pub cond_refs_under-Grows :
        (m : Fields) (acc : List String) → Grows acc (cond_refs_under keep m acc)
    cond_refs_under-Grows end acc = λ r h. h
    cond_refs_under-Grows (field j v m) acc =
        if_grows (str_eq j "children") _ _ _ (cond_refs_of-Grows v acc)
          (cond_refs_under-Grows m acc)

    pub cond_refs_of-Grows : (v : Value) (acc : List String) → Grows acc (cond_refs_of keep v acc)
    cond_refs_of-Grows (array xs) acc = cond_refs_all-Grows xs acc
    cond_refs_of-Grows _ acc = λ r h. h

    pub cond_refs_all-Grows :
        (xs : Items) (acc : List String) → Grows acc (cond_refs_all keep xs acc)
    cond_refs_all-Grows nil acc = λ r h. h
    cond_refs_all-Grows (cons x xs) acc =
        λ r h. cond_refs_all-Grows xs (cond_refs keep x acc) r (cond_refs-Grows x acc r h)

  mutual
    unfolding expr_refs

    pub expr_refs-Grows : (e : Value) (acc : List String) → Grows acc (expr_refs keep e acc)
    expr_refs-Grows (object m) acc =
        let type = text_or_empty (get m "type") in
        if_grows (str_eq type "ref") _ _ _ (add_kept-Grows (text_or_empty (get m "key")) acc) (
          if_grows (str_eq type "if") _ _ _
            (λ r h.
              expr_refs_under-Grows "else" m (case_refs keep m acc) r (case_refs-Grows m acc r h))
            (if_grows (str_eq type "concat") _ _ _ (expr_refs_list-Grows "parts" m acc) (
              if_grows (str_eq type "datediff") _ _ _
                (λ r h.
                  expr_refs_under-Grows "to" m (expr_refs_under keep "from" m acc) r
                    (expr_refs_under-Grows "from" m acc r h))
                (if_grows (str_eq type "math") _ _ _ (expr_refs_list-Grows "args" m acc)
                  (λ r h. h)))))
    expr_refs-Grows _ acc = λ r h. h

    pub expr_refs_under-Grows :
        (k : String) (m : Fields) (acc : List String) → Grows acc (expr_refs_under keep k m acc)
    expr_refs_under-Grows k end acc = λ r h. h
    expr_refs_under-Grows k (field j v m) acc =
        if_grows (str_eq j k) _ _ _ (expr_refs-Grows v acc) (expr_refs_under-Grows k m acc)

    pub case_refs-Grows : (m : Fields) (acc : List String) → Grows acc (case_refs keep m acc)
    case_refs-Grows end acc = λ r h. h
    case_refs-Grows (field j v m) acc =
        if_grows (str_eq j "cases") _ _ _ (case_refs_of-Grows v acc) (case_refs-Grows m acc)

    pub case_refs_of-Grows : (v : Value) (acc : List String) → Grows acc (case_refs_of keep v acc)
    case_refs_of-Grows (array xs) acc = case_refs_all-Grows xs acc
    case_refs_of-Grows _ acc = λ r h. h

    pub case_refs_all-Grows :
        (xs : Items) (acc : List String) → Grows acc (case_refs_all keep xs acc)
    case_refs_all-Grows nil acc = λ r h. h
    case_refs_all-Grows (cons x xs) acc =
        λ r h. case_refs_all-Grows xs (one_case_refs keep x acc) r (one_case_refs-Grows x acc r h)

    pub one_case_refs-Grows : (v : Value) (acc : List String) → Grows acc (one_case_refs keep v acc)
    one_case_refs-Grows (object m) acc = λ r h.
        expr_refs_under-Grows "then" m (cond_refs keep (value_or_null (get m "when")) acc) r
          (cond_refs-Grows (value_or_null (get m "when")) acc r h)
    one_case_refs-Grows _ acc = λ r h. h

    pub expr_refs_list-Grows :
        (k : String) (m : Fields) (acc : List String) → Grows acc (expr_refs_list keep k m acc)
    expr_refs_list-Grows k end acc = λ r h. h
    expr_refs_list-Grows k (field j v m) acc =
        if_grows (str_eq j k) _ _ _ (expr_refs_list_of-Grows v acc) (expr_refs_list-Grows k m acc)

    pub expr_refs_list_of-Grows :
        (v : Value) (acc : List String) → Grows acc (expr_refs_list_of keep v acc)
    expr_refs_list_of-Grows (array xs) acc = expr_refs_all-Grows xs acc
    expr_refs_list_of-Grows _ acc = λ r h. h

    pub expr_refs_all-Grows :
        (xs : Items) (acc : List String) → Grows acc (expr_refs_all keep xs acc)
    expr_refs_all-Grows nil acc = λ r h. h
    expr_refs_all-Grows (cons x xs) acc =
        λ r h. expr_refs_all-Grows xs (expr_refs keep x acc) r (expr_refs-Grows x acc r h)

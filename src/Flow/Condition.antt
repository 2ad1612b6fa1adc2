-- ===== src/Flow/Condition.antt =====
-- companydata/flowcondition.go: EvaluateCondition.
use company_data_go.Prelude.{
  ℕ, String, Bool, true, false, not, ◌&&◌, ◌||◌, Option, none, some, List, str_eq, if◌then◌else◌,
}
use company_data_go.Json.{
  Value, null, array, object, Items, nil, cons, Fields, end, field, get, text_or_empty,
}
use company_data_go.Flow.Scalars.{
  FloatText, flow_answered, flow_to_num, flow_loose_eq, flow_str, flow_in_list, flow_cmp_num,
  flow_cmp_str, contains,
}

abbrev pub value_or_null : Option Value → Value
value_or_null none = null
value_or_null (some v) = v

-- The ordered comparisons: two numbers, two texts, or a mix, which never holds.
abbrev pub compare_with : String → Option ℕ → Option ℕ → List ℕ → List ℕ → Bool
compare_with op (some a) (some b) s t = flow_cmp_num op a b
compare_with op (some a) none s t = false
compare_with op none (some b) s t = false
compare_with op none none s t = flow_cmp_str op s t

abbrev pub is_ordered : String → Bool
is_ordered op = str_eq op "lt" || str_eq op "gt" || str_eq op "le" || str_eq op "ge"

-- What the children under "children" come to for each operator; not a list is no children.
pub record Kids : Type 0 where
  pub all : Bool
  pub any : Bool
  pub first : Bool

abbrev pub no_kids : Kids
no_kids = record { all = true; any = false; first = true }

abbrev pub add_kid : Bool → Kids → Kids
add_kid b k = record { all = b && k.all; any = b || k.any; first = b }

abbrev pub join : String → Kids → Bool → Bool
join op k leaf =
    if str_eq op "and"
    then k.all
    else if str_eq op "or"
    then k.any
    else if str_eq op "not"
    then not k.first
    else leaf

module _ (text : FloatText) where
  -- The operators that want an answer.
  unfoldable pub compare_answered : String → Option Value → Value → Bool
  compare_answered op target val =
      if str_eq op "eq"
      then flow_loose_eq text (value_or_null target) val
      else if str_eq op "ne"
      then not (flow_loose_eq text (value_or_null target) val)
      else if is_ordered op
      then compare_with op (flow_to_num text val) (flow_to_num text (value_or_null target))
          (flow_str text val) (flow_str text (value_or_null target))
      else false

  abbrev pub holds : Value → Option Value → Bool
  holds val target =
      flow_answered val && contains (flow_str text val) (flow_str text (value_or_null target))

  -- A comparison leaf.
  unfoldable pub evaluate_leaf : String → Option Value → Value → Bool
  unfolding compare_answered
  evaluate_leaf op target val =
      if str_eq op "answered"
      then flow_answered val
      else if str_eq op "empty"
      then not (flow_answered val)
      else if str_eq op "in"
      then flow_in_list text target val
      else if str_eq op "nin"
      then not (flow_in_list text target val)
      else if str_eq op "contains"
      then holds val target
      else if str_eq op "not_contains"
      then not (holds val target)
      else if not (flow_answered val)
      then false
      else compare_answered op target val

  unfoldable mutual
    unfolding evaluate_leaf

    pub evaluate_condition : Value → Fields → Bool
    evaluate_condition (object m) answers =
        join (text_or_empty (get m "op")) (kids_under m answers) (
          evaluate_leaf (text_or_empty (get m "op")) (get m "value")
            (value_or_null (get answers (text_or_empty (get m "field")))))
    evaluate_condition _ answers = true

    -- The conditions under the key "children".
    pub kids_under : Fields → Fields → Kids
    kids_under end answers = no_kids
    kids_under (field k v m) answers =
        if str_eq k "children" then kids_of v answers else kids_under m answers

    pub kids_of : Value → Fields → Kids
    kids_of (array xs) answers = kids_among xs answers
    kids_of _ answers = no_kids

    pub kids_among : Items → Fields → Kids
    kids_among nil answers = no_kids
    kids_among (cons x xs) answers = add_kid (evaluate_condition x answers) (kids_among xs answers)

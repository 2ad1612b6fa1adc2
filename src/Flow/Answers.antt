-- ===== src/Flow/Answers.antt =====
-- Conditions on an answer that is missing, and the laws of the comparisons.
use company_data_go.Prelude.{
  ℕ, String, ◌≡◌, ◌⊎◌, inl, inr, refl, Bool, true, false, ◌||◌, Option, none, some, arith,
  if◌then◌else◌,
}
use company_data_go.Json.{Value, null, boolean, string, array, Items, nil, cons}
use company_data_go.Floats.{float_eq}
use company_data_go.Buffer.Decimal.{trim_space}
use company_data_go.Buffer.Order.{eqb_comm}
use company_data_go.Flow.Scalars.{
  FloatText, flow_answered, flow_to_num, flow_truthy, flow_loose_eq, flow_str, flow_in_list,
  in_items, is_bool, eq_bool, both_nums,
}
use company_data_go.Flow.Condition.{evaluate_leaf, compare_answered}

float_eq_comm : (a b : ℕ) → float_eq a b ≡ float_eq b a
unfolding float_eq
float_eq_comm a b = ground arith

eq_bool_comm : (a b : Bool) → eq_bool a b ≡ eq_bool b a
eq_bool_comm a b = ground arith

both_nums_comm : (a b : Option ℕ) (x y : Bool) → x ≡ y → both_nums a b x ≡ both_nums b a y
both_nums_comm none none x y h = h
both_nums_comm none (some b) x y h = h
both_nums_comm (some a) none x y h = h
both_nums_comm (some a) (some b) x y h = float_eq_comm a b

loose_comm :
    (p q : Bool) {r r' s s' : Bool}
    → r ≡ r'
    → s ≡ s'
    → (if p || q then r else s) ≡ (if q || p then r' else s')
loose_comm p q h k = ground arith

-- The operators that an unanswered value never matches.
abbrev pub IsComparison : String → Type 0
IsComparison op =
    (op ≡ "eq")
    ⊎ (op ≡ "ne")
    ⊎ (op ≡ "lt")
    ⊎ (op ≡ "le")
    ⊎ (op ≡ "gt")
    ⊎ (op ≡ "ge")
    ⊎ (op ≡ "contains")
    ⊎ (op ≡ "answered")

-- A list that holds something which counts as false or empty.
abbrev HasFalse : Items → Type 0
HasFalse nil = ⊥
HasFalse (cons x xs) = (x ≡ boolean false) ⊎ (x ≡ string "") ⊎ HasFalse xs

module _ (text : FloatText) where
  -- `flowLooseEq` does not depend on the order of its arguments.
  pub flow_loose_eq_comm : (a b : Value) → flow_loose_eq text a b ≡ flow_loose_eq text b a
  unfolding flow_loose_eq
  flow_loose_eq_comm a b =
      loose_comm (is_bool a) (is_bool b) (eq_bool_comm (flow_truthy text a) (flow_truthy text b)) (
        both_nums_comm (flow_to_num text a) (flow_to_num text b) _ _
          (eqb_comm (flow_str text a) (flow_str text b)))

  -- An unanswered value matches no comparison.
  pub unanswered_never_matches :
      (op : String) (target : Option Value) (val : Value)
      → flow_answered val ≡ false
      → IsComparison op
      → evaluate_leaf text op target val ≡ false
  unfolding evaluate_leaf
  unanswered_never_matches op target val h (inl e) = rw e (rw h)
  unanswered_never_matches op target val h (inr (inl e)) = rw e (rw h)
  unanswered_never_matches op target val h (inr (inr (inl e))) = rw e (rw h)
  unanswered_never_matches op target val h (inr (inr (inr (inl e)))) = rw e (rw h)
  unanswered_never_matches op target val h (inr (inr (inr (inr (inl e))))) = rw e (rw h)
  unanswered_never_matches op target val h (inr (inr (inr (inr (inr (inl e)))))) = rw e (rw h)
  unanswered_never_matches op target val h (inr (inr (inr (inr (inr (inr (inl e))))))) = rw e (rw h)
  unanswered_never_matches op target val h (inr (inr (inr (inr (inr (inr (inr e))))))) = rw e h

  in_items-HasFalse : (xs : Items) → HasFalse xs → in_items text xs null ≡ true
  unfolding in_items flow_loose_eq trim_space
  in_items-HasFalse nil h = absurd h
  in_items-HasFalse (cons x xs) (inl e) = rw e refl
  in_items-HasFalse (cons x xs) (inr (inl e)) = rw e refl
  in_items-HasFalse (cons x xs) (inr (inr h)) = rw (in_items-HasFalse xs h) (ground arith)

  -- A missing answer is `in` every list that holds false or "", and so not `nin`.
  pub missing_in_false :
      (xs : Items)
      → HasFalse xs
      → (evaluate_leaf text "in" (some (array xs)) null ≡ true)
        × (evaluate_leaf text "nin" (some (array xs)) null ≡ false)
  unfolding evaluate_leaf flow_in_list
  missing_in_false xs h = (in_items-HasFalse xs h, rw (in_items-HasFalse xs h))

  -- An ordered comparison of a number with a text holds in neither direction.
  pub mixed_never_ordered :
      (op : String) (target val : Value) (a : ℕ)
      → (op ≡ "lt") ⊎ (op ≡ "le") ⊎ (op ≡ "gt") ⊎ (op ≡ "ge")
      → flow_to_num text val ≡ some a
      → flow_to_num text target ≡ none
      → (compare_answered text op (some target) val ≡ false)
        × (compare_answered text op (some val) target ≡ false)
  unfolding compare_answered
  mixed_never_ordered op target val a (inl e) h k = (rw (e, h, k) refl, rw (e, h, k) refl)
  mixed_never_ordered op target val a (inr (inl e)) h k = (rw (e, h, k) refl, rw (e, h, k) refl)
  mixed_never_ordered op target val a (inr (inr (inl e))) h k =
      (rw (e, h, k) refl, rw (e, h, k) refl)
  mixed_never_ordered op target val a (inr (inr (inr e))) h k =
      (rw (e, h, k) refl, rw (e, h, k) refl)

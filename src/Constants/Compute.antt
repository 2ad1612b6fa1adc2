-- ===== src/Constants/Compute.antt =====
-- The computation of the constants in the order of their dependencies
-- (companydata/flowconstants.go: ComputeConstants, ResolveConstants, EvaluateFlowCondition).
use company_data_go.Prelude.{
  ℕ, zero, suc, String, Bool, true, false, Option, none, some, List, [], ◌∷◌, ◌++◌, map, length,
  str_eq, if◌then◌else◌,
}
use company_data_go.Json.{Value, null, string, object, Items, nil, cons, Fields, get, put}
use company_data_go.Flow.Scalars.{FloatText}
use company_data_go.Flow.Condition.{value_or_null, evaluate_condition}
use company_data_go.FieldTypes.Registry.{contains_string}
use company_data_go.Constants.Expr.{FloatMath, eval_expr}
use company_data_go.Constants.Refs.{expr_refs}

pub record Constant : Type 0 where
  pub key : String
  pub fields : Fields

abbrev pub with_key : Option Value → Fields → List Constant → List Constant
with_key (some (string k)) m rest = record { key = k; fields = m } ∷ rest
with_key (some _) m rest = rest
with_key none m rest = rest

-- The objects that have a text under "key", in the order of declaration.
unfoldable pub declared : Items → List Constant
declared nil = []
declared (cons (object m) cs) = with_key (get m "key") m (declared cs)
declared (cons _ cs) = declared cs

abbrev pub keys_of : List Constant → List String
keys_of cs = map (λ c. c.key) cs

abbrev pub or_else {ℓ} : {A : Type ℓ} → Option A → Option A → Option A
or_else (some a) o = some a
or_else none o = o

-- `byKey`: the last of the constants with this key.
unfoldable pub by_key : List Constant → String → Option Fields
by_key [] k = none
by_key (c ∷ cs) k = or_else (by_key cs k) (if str_eq c.key k then some c.fields else none)

abbrev pub expr_in : Option Fields → Value
expr_in none = null
expr_in (some m) = value_or_null (get m "expr")

-- `constKeys`.
abbrev pub is_constant : List Constant → String → Bool
is_constant cs k = contains_string (keys_of cs) k

unfoldable pub expr_of : List Constant → String → Value
unfolding by_key
expr_of cs k = expr_in (by_key cs k)

unfoldable pub deps_of : List Constant → String → List String
unfolding expr_of
deps_of cs k = expr_refs (is_constant cs) (expr_of cs k) []

-- The keys that are grey or black, which a visit treats alike, and those that are black in the order in which
-- they became so.
pub record Search : Type 0 where
  pub marked : List String
  pub order : List String

abbrev pub enter : String → Search → Search
enter k s = record s { marked = k ∷ s.marked }

abbrev pub finish : String → Search → Search
finish k s = record s { order = s.order ++ (k ∷ []) }

abbrev pub is_some {ℓ} : {A : Type ℓ} → Option A → Bool
is_some none = false
is_some (some a) = true

-- The visits of the keys in a list that are in `byKey`.
unfoldable pub visit_each :
    List Constant → (String → Search → Search) → List String → Search → Search
unfolding by_key
visit_each cs step [] s = s
visit_each cs step (k ∷ ks) s =
    visit_each cs step ks (if is_some (by_key cs k) then step k s else s)

-- `fuel` is a unit for each constant that is not marked.
unfoldable pub visit : List Constant → ℕ → String → Search → Search
unfolding visit_each deps_of
visit cs zero k s = s
visit cs (suc fuel) k s =
    let deep = finish k (visit_each cs (visit cs fuel) (deps_of cs k) (enter k s)) in
    if contains_string s.marked k then s else deep

abbrev pub untouched : Search
untouched = record { marked = []; order = [] }

unfoldable pub visit_declared : List Constant → ℕ → List String → Search → Search
unfolding visit
visit_declared cs fuel [] s = s
visit_declared cs fuel (k ∷ ks) s = visit_declared cs fuel ks (visit cs fuel k s)

unfoldable pub order_of : List Constant → List String
unfolding visit_declared
order_of cs = (visit_declared cs (length cs) (keys_of cs) untouched).order

-- The loop of ResolveConstants over the declared keys.
unfoldable pub only_keys : Fields → List String → Fields → Fields
only_keys full [] out = out
only_keys full (k ∷ ks) out = only_keys full ks (put out k (value_or_null (get full k)))

module _ (text : FloatText) (math : FloatMath) (reference_date : String) where
  -- The loop that computes the constants in order.
  unfoldable pub evaluate_all : List Constant → List String → Fields → Fields
  unfolding expr_of
  evaluate_all cs [] out = out
  evaluate_all cs (k ∷ ks) out =
      evaluate_all cs ks (put out k (eval_expr text math out reference_date (expr_of cs k)))

  unfoldable pub compute_constants : Items → Fields → Fields
  unfolding evaluate_all order_of declared
  compute_constants constants answers =
      let cs = declared constants in evaluate_all cs (order_of cs) answers

  unfoldable pub evaluate_flow_condition : Value → Fields → Items → Bool
  unfolding compute_constants
  evaluate_flow_condition condition answers constants =
      evaluate_condition text condition (compute_constants constants answers)

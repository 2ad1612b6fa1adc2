-- ===== src/Constants/Refs.antt =====
-- The answers that an expression names (companydata/flowconstants.go: orderedKeySet,
-- collectExprConstRefs, collectCondConstRefs).
use company_data_go.Prelude.{
  String, Bool, ◌||◌, Option, none, some, List, [], ◌∷◌, ◌++◌, str_eq, if◌then◌else◌,
}
use company_data_go.Json.{
  Value, string, array, object, Items, nil, cons, Fields, end, field, get, text_or_empty,
}
use company_data_go.Flow.Condition.{value_or_null}
use company_data_go.FieldTypes.Registry.{contains_string}

-- The keys of an orderedKeySet, in the order in which they came.
unfoldable pub add_key : List String → String → List String
add_key keys k = if contains_string keys k then keys else keys ++ (k ∷ [])

-- `keep` is the set `constKeys`; for a nil set it holds for every key.
module _ (keep : String → Bool) where
  abbrev pub add_kept : String → List String → List String
  add_kept k acc = if keep k then add_key acc k else acc

  -- A leaf of a condition names its field, if that is a text.
  abbrev pub add_field : Option Value → List String → List String
  add_field (some (string f)) acc = add_kept f acc
  add_field (some _) acc = acc
  add_field none acc = acc

  abbrev pub is_node : String → Bool
  is_node op = str_eq op "and" || str_eq op "or" || str_eq op "not"

  unfoldable mutual
    unfolding add_key

    pub cond_refs : Value → List String → List String
    cond_refs (object m) acc =
        if is_node (text_or_empty (get m "op"))
        then cond_refs_under m acc
        else add_field (get m "field") acc
    cond_refs _ acc = acc

    pub cond_refs_under : Fields → List String → List String
    cond_refs_under end acc = acc
    cond_refs_under (field j v m) acc =
        if str_eq j "children" then cond_refs_of v acc else cond_refs_under m acc

    pub cond_refs_of : Value → List String → List String
    cond_refs_of (array xs) acc = cond_refs_all xs acc
    cond_refs_of _ acc = acc

    pub cond_refs_all : Items → List String → List String
    cond_refs_all nil acc = acc
    cond_refs_all (cons x xs) acc = cond_refs_all xs (cond_refs x acc)

  unfoldable mutual
    unfolding cond_refs

    pub expr_refs : Value → List String → List String
    expr_refs (object m) acc =
        let type = text_or_empty (get m "type") in
        if str_eq type "ref"
        then add_kept (text_or_empty (get m "key")) acc
        else if str_eq type "if"
        then expr_refs_under "else" m (case_refs m acc)
        else if str_eq type "concat"
        then expr_refs_list "parts" m acc
        else if str_eq type "datediff"
        then expr_refs_under "to" m (expr_refs_under "from" m acc)
        else if str_eq type "math"
        then expr_refs_list "args" m acc
        else acc
    expr_refs _ acc = acc

    -- The expression under a key.
    pub expr_refs_under : String → Fields → List String → List String
    expr_refs_under k end acc = acc
    expr_refs_under k (field j v m) acc =
        if str_eq j k then expr_refs v acc else expr_refs_under k m acc

    -- The objects in the list "cases".
    pub case_refs : Fields → List String → List String
    case_refs end acc = acc
    case_refs (field j v m) acc = if str_eq j "cases" then case_refs_of v acc else case_refs m acc

    pub case_refs_of : Value → List String → List String
    case_refs_of (array xs) acc = case_refs_all xs acc
    case_refs_of _ acc = acc

    pub case_refs_all : Items → List String → List String
    case_refs_all nil acc = acc
    case_refs_all (cons x xs) acc = case_refs_all xs (one_case_refs x acc)

    pub one_case_refs : Value → List String → List String
    one_case_refs (object m) acc =
        expr_refs_under "then" m (cond_refs (value_or_null (get m "when")) acc)
    one_case_refs _ acc = acc

    -- The expressions in the list under a key.
    pub expr_refs_list : String → Fields → List String → List String
    expr_refs_list k end acc = acc
    expr_refs_list k (field j v m) acc =
        if str_eq j k then expr_refs_list_of v acc else expr_refs_list k m acc

    pub expr_refs_list_of : Value → List String → List String
    expr_refs_list_of (array xs) acc = expr_refs_all xs acc
    expr_refs_list_of _ acc = acc

    pub expr_refs_all : Items → List String → List String
    expr_refs_all nil acc = acc
    expr_refs_all (cons x xs) acc = expr_refs_all xs (expr_refs x acc)

-- ===== src/Constants/Expr.antt =====
-- The expressions of the constants (companydata/flowconstants.go: asExpr, asAnyList, finNum,
-- evalExpr).
use company_data_go.Prelude.{
  ℕ, ◌+◌, ◌-◌, String, Bool, true, ◌&&◌, ◌||◌, Option, none, some, List, [], ◌∷◌, ◌++◌, map, codes,
  of_codes, str_eq, ltb, if◌then◌else◌, quot_ℤ,
}
use company_data_go.Json.{
  Value, null, float64, int, string, array, object, Items, nil, cons, Fields, end, field, get,
  text_or_empty,
}
use company_data_go.Floats.{sign_bit, magnitude, infinity, is_negative, float_eq, float_lt}
use company_data_go.Flow.Scalars.{FloatText, flow_to_num, flow_str}
use company_data_go.Flow.Condition.{value_or_null, evaluate_condition}
use company_data_go.Constants.Dates.{Day, parse_flow_date, diff_days, diff_months, diff_years}

-- The arithmetic of float64 and of package math: each operation takes bit patterns.
pub record FloatMath : Type 0 where
  pub add : ℕ → ℕ → ℕ
  pub sub : ℕ → ℕ → ℕ
  pub mul : ℕ → ℕ → ℕ
  pub div : ℕ → ℕ → ℕ
  pub fmod : ℕ → ℕ → ℕ
  pub round : ℕ → ℕ
  pub floor : ℕ → ℕ
  pub ceil : ℕ → ℕ

-- Neither infinite nor NaN.
abbrev pub is_finite : ℕ → Bool
is_finite f = ltb (magnitude f) infinity

abbrev pub one : ℕ
one = 0x3ff0000000000000

abbrev pub negated : ℕ → ℕ
negated f = if is_negative f then f - sign_bit else f + sign_bit

-- ── datediff ──

abbrev pub diff_in : String → Day → Day → Value
diff_in unit from to =
    if str_eq unit "days"
    then int (diff_days from to)
    else if str_eq unit "weeks"
    then int (quot_ℤ (diff_days from to) 7)
    else if str_eq unit "months"
    then int (diff_months from to)
    else if str_eq unit "years"
    then int (diff_years from to)
    else null

unfoldable pub date_diff : String → Option Day → Option Day → Value
date_diff unit (some from) (some to) = diff_in unit from to
date_diff unit (some from) none = null
date_diff unit none to = null

-- ── math ──

unfoldable pub fin_num : ℕ → Value
fin_num r = if is_finite r then float64 r else null

-- A number that is finite.
abbrev pub finite_only : Option ℕ → Option ℕ
finite_only none = none
finite_only (some n) = if is_finite n then some n else none

abbrev pub prepend : Option ℕ → Option (List ℕ) → Option (List ℕ)
prepend (some n) (some ns) = some (n ∷ ns)
prepend (some n) none = none
prepend none ns = none

-- Every argument as a finite number, or `none`.
unfoldable pub all_nums : List (Option ℕ) → Option (List ℕ)
all_nums [] = some []
all_nums (n ∷ ns) = prepend n (all_nums ns)

abbrev pub improves : String → ℕ → Option ℕ → Bool
improves op n none = true
improves op n (some best) =
    (str_eq op "max" && float_lt best n) || (str_eq op "min" && float_lt n best)

abbrev pub or_best : String → Option ℕ → Option ℕ → Option ℕ
or_best op none best = best
or_best op (some n) best = if improves op n best then some n else best

-- The loop of max and min over the finite arguments.
unfoldable pub best_of : String → List (Option ℕ) → Option ℕ → Option ℕ
best_of op [] best = best
best_of op (n ∷ ns) best = best_of op ns (or_best op n best)

abbrev pub float_or_null : Option ℕ → Value
float_or_null none = null
float_or_null (some f) = float64 f

abbrev pub folded : (ℕ → ℕ → ℕ) → ℕ → List ℕ → ℕ
folded f acc [] = acc
folded f acc (n ∷ ns) = folded f (f acc n) ns

-- The operations on the first two arguments and on the first one.
abbrev pub binary : (ℕ → ℕ → ℕ) → List ℕ → Value
binary f (a ∷ b ∷ ns) = fin_num (f a b)
binary f (a ∷ []) = null
binary f [] = null

abbrev pub quotient : (ℕ → ℕ → ℕ) → List ℕ → Value
quotient f (a ∷ b ∷ ns) = if float_eq b 0 then null else fin_num (f a b)
quotient f (a ∷ []) = null
quotient f [] = null

abbrev pub unary : (ℕ → ℕ) → List ℕ → Value
unary f (a ∷ ns) = fin_num (f a)
unary f [] = null

-- ── concat ──

-- The separator stands before every part but the first.
abbrev pub joined_after : List ℕ → List (List ℕ) → List ℕ
joined_after sep [] = []
joined_after sep (p ∷ ps) = sep ++ (p ++ joined_after sep ps)

unfoldable pub joined : List ℕ → List (List ℕ) → List ℕ
joined sep [] = []
joined sep (p ∷ ps) = p ++ joined_after sep ps

module _ (math : FloatMath) where
  abbrev pub compute : String → List ℕ → Value
  compute op ns =
      if str_eq op "add"
      then fin_num (folded math.add 0 ns)
      else if str_eq op "mul"
      then fin_num (folded math.mul one ns)
      else if str_eq op "sub"
      then binary math.sub ns
      else if str_eq op "div"
      then quotient math.div ns
      else if str_eq op "mod"
      then quotient math.fmod ns
      else if str_eq op "neg"
      then unary negated ns
      else if str_eq op "abs"
      then unary magnitude ns
      else if str_eq op "round"
      then unary math.round ns
      else if str_eq op "floor"
      then unary math.floor ns
      else if str_eq op "ceil"
      then unary math.ceil ns
      else null

  abbrev pub compute_nums : String → Option (List ℕ) → Value
  compute_nums op none = null
  compute_nums op (some ns) = compute op ns

  unfoldable pub do_math : String → List (Option ℕ) → Value
  unfolding all_nums best_of
  do_math op args =
      if str_eq op "max" || str_eq op "min"
      then float_or_null (best_of op args none)
      else compute_nums op (all_nums args)

module _ (text : FloatText) (math : FloatMath) (answers : Fields) (reference_date : String) where
  abbrev pub today : Value
  today = if str_eq reference_date "" then null else string reference_date

  -- Each kind of expression, from the values of what stands under its keys.
  abbrev pub by_type : Fields → (from to chosen : Value) → (parts args : List Value) → Value
  by_type m from to chosen parts args =
      let type = text_or_empty (get m "type") in
      if str_eq type "lit"
      then value_or_null (get m "value")
      else if str_eq type "ref"
      then value_or_null (get answers (text_or_empty (get m "key")))
      else if str_eq type "today"
      then today
      else if str_eq type "if"
      then chosen
      else if str_eq type "concat"
      then string
          (of_codes (joined (codes (text_or_empty (get m "sep"))) (map (flow_str text) parts)))
      else if str_eq type "datediff"
      then date_diff (text_or_empty (get m "unit")) (parse_flow_date from) (parse_flow_date to)
      else if str_eq type "math"
      then do_math math (text_or_empty (get m "op"))
          (map (λ v. finite_only (flow_to_num text v)) args)
      else null

  unfoldable mutual
    pub eval_expr : Value → Value
    eval_expr (object m) =
        by_type m (eval_under "from" m) (eval_under "to" m) (eval_cases m (eval_under "else" m))
          (eval_list "parts" m) (eval_list "args" m)
    eval_expr _ = null

    -- The expression under a key.
    pub eval_under : String → Fields → Value
    eval_under k end = null
    eval_under k (field j v m) = if str_eq j k then eval_expr v else eval_under k m

    -- The first of the "cases" that holds, else `otherwise`.
    pub eval_cases : Fields → Value → Value
    eval_cases end otherwise = otherwise
    eval_cases (field j v m) otherwise =
        if str_eq j "cases" then eval_cases_of v otherwise else eval_cases m otherwise

    pub eval_cases_of : Value → Value → Value
    eval_cases_of (array xs) otherwise = eval_case_among xs otherwise
    eval_cases_of _ otherwise = otherwise

    pub eval_case_among : Items → Value → Value
    eval_case_among nil otherwise = otherwise
    eval_case_among (cons x xs) otherwise = eval_case x (eval_case_among xs otherwise)

    pub eval_case : Value → Value → Value
    eval_case (object m) rest =
        if evaluate_condition text (value_or_null (get m "when")) answers
        then eval_under "then" m
        else rest
    eval_case _ rest = rest

    -- The expressions in the list under a key.
    pub eval_list : String → Fields → List Value
    eval_list k end = []
    eval_list k (field j v m) = if str_eq j k then eval_list_of v else eval_list k m

    pub eval_list_of : Value → List Value
    eval_list_of (array xs) = eval_all xs
    eval_list_of _ = []

    pub eval_all : Items → List Value
    eval_all nil = []
    eval_all (cons x xs) = eval_expr x ∷ eval_all xs

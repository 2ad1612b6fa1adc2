-- ===== src/Constants/Examples.antt =====
-- Constants on a few answers; the theorems on constants at those inputs.
use Prim.Native.String.{compare, ◌++◌ as ◌+++◌}
use Prim.Native.String.append
use Prim.Native.String.compare
use text.Mathlib.Text.{is_eq}
use company_data_go.Prelude.{
  ℕ, ◌+◌, ◌<◌, ◌≡◌, refl, sym, ap, ◌∙◌, String, true, false, Bool-cases, Option, none, some, [],
  ◌∷◌, inl, inr, pos, eq_iff, length, str_eq, if◌then◌else◌, arith,
}
use company_data_go.Json.{
  Value, string, array, object, float64, Items, nil, cons, Fields, end, field, get, put,
  text_or_empty,
}
use company_data_go.Flow.Scalars.{flow_to_num}
use company_data_go.Flow.Examples.{digit_text}
use company_data_go.FieldTypes.Checks.{days_in_month}
use company_data_go.FieldTypes.Registry.{contains_string}
use company_data_go.Constants.Dates.{Day, date, day_number, days_before, diff_days, diff_months}
use company_data_go.Constants.Expr.{FloatMath, one, float_or_null, do_math, fin_num, eval_expr}
use company_data_go.Constants.Refs.{expr_refs}
use company_data_go.Constants.Compute.{
  declared, is_constant, keys_of, deps_of, expr_of, by_key, order_of, visit_declared, untouched,
  compute_constants,
}
use company_data_go.Constants.Visits.{visit_declared_complete}
use company_data_go.Constants.Depends.{eval_expr-AgreeOn}
use company_data_go.Constants.Sorted.{Sorted, IsAcyclic}
use company_data_go.Constants.Ordered.{order_of-Sorted}
use company_data_go.Constants.Solved.{compute_constants-Solves}
use company_data_go.Constants.Typed.{eval_expr-typed, IsWhole, IsNumber}
use company_data_go.Constants.Largest.{do_math-IsExtreme, IsExtreme, is_above, is_below}
use company_data_go.Constants.Calendar.{IsDate, days_later, diff_days-days_later}
use company_data_go.Constants.Plugins.{
  dotted, expand_plugin_answers, parse_plugin_plaintext, add_all, plugin_key_usable,
  plugin_summary_of,
}

-- An arithmetic whose results are the first arguments.
abbrev pub first_math : FloatMath
first_math = record {
  add = λ a b. a;
  sub = λ a b. a;
  mul = λ a b. a;
  div = λ a b. a;
  fmod = λ a b. a;
  round = λ a. a;
  floor = λ a. a;
  ceil = λ a. a;
}

abbrev ref : String → Value
ref k = object (field "type" (string "ref") (field "key" (string k) end))

abbrev neg_of : String → Fields
neg_of k =
    field "type" (string "math")
      (field "op" (string "neg") (field "args" (array (cons (ref k) nil)) end))

abbrev constant : String → Value → Value
constant k e = object (field "key" (string k) (field "expr" e end))

-- `debt` is declared before `limit`, which it depends on; `limit` reads the answer `age`.
abbrev two_constants : Items
two_constants =
    cons (constant "debt" (object (neg_of "limit"))) (cons (constant "limit" (ref "age")) nil)

abbrev an_age : Fields
an_age = field "age" (float64 4607182418800017408) end

abbrev debt_rank : String → ℕ
debt_rank k = if str_eq k "debt" then 1 else 0

two_order : order_of (declared two_constants) ≡ "limit" ∷ "debt" ∷ []
unfolding order_of declared expr_refs
two_order = refl

two_computed :
    get (compute_constants digit_text first_math "" two_constants an_age) "debt"
    ≡ some (float64 13830554455654793216)
unfolding compute_constants eval_expr expr_refs put do_math flow_to_num fin_num
two_computed = refl

no_deps :
    (k : String)
    → str_eq "limit" k ≡ false
    → str_eq "debt" k ≡ false
    → deps_of (declared two_constants) k ≡ []
unfolding declared deps_of by_key expr_refs
no_deps k h n = rw (h, n, by_key) refl

limit_deps : deps_of (declared two_constants) "limit" ≡ []
unfolding declared deps_of by_key expr_refs
limit_deps = refl

debt_deps : deps_of (declared two_constants) "debt" ≡ "limit" ∷ []
unfolding declared deps_of by_key expr_refs
debt_deps = refl

two_constants-IsAcyclic : IsAcyclic (declared two_constants) debt_rank
two_constants-IsAcyclic k d h c = elim (Bool-cases (str_eq "limit" k)) [
  | inl e ↦ cc (rw (sym ((eq_iff "limit" k).0 e), limit_deps) at h)
  | inr e ↦ elim (Bool-cases (str_eq "debt" k)) [
    | inl l ↦
        rw (sym ((eq_iff "debt" k).0 l))
          (lower d (rw (sym ((eq_iff "debt" k).0 l), debt_deps) at h))
    | inr l ↦ cc (rw (no_deps k e l) at h)
  ]
]
  where
    lower : (d : String) → contains_string ("limit" ∷ []) d ≡ true → debt_rank d < 1
    lower d h = elim (Bool-cases (str_eq "limit" d)) [
      | inl e ↦ rw (sym ((eq_iff "limit" d).0 e)) (omega arith)
      | inr e ↦ cc (rw e at h)
    ]

two_named : is_constant (declared two_constants) "" ≡ false
unfolding declared
two_named = refl

abbrev two_result : Fields
two_result = compute_constants digit_text first_math "" two_constants an_age

compute_constants-Solves_example :
    ((k : String)
      → is_constant (declared two_constants) k ≡ true
      → get two_result k
        ≡ some (eval_expr digit_text first_math two_result "" (expr_of (declared two_constants) k)))
    × ((k : String)
        → is_constant (declared two_constants) k ≡ false
        → get two_result k ≡ get an_age k)
compute_constants-Solves_example =
    compute_constants-Solves digit_text first_math "" two_constants an_age debt_rank
      two_constants-IsAcyclic two_named

order_of-Sorted_example :
    Sorted (declared two_constants) [] (order_of (declared two_constants))
    × ((k : String)
        → contains_string (order_of (declared two_constants)) k ≡ true
        → is_constant (declared two_constants) k ≡ true)
    × ((k : String)
        → is_constant (declared two_constants) k ≡ true
        → contains_string (order_of (declared two_constants)) k ≡ true)
order_of-Sorted_example = order_of-Sorted (declared two_constants) debt_rank two_constants-IsAcyclic

visit_declared_complete_example :
    visit_declared
      (declared two_constants)
      (3 + length (declared two_constants))
      (keys_of (declared two_constants))
      untouched
    ≡ visit_declared
        (declared two_constants)
        (length (declared two_constants))
        (keys_of (declared two_constants))
        untouched
visit_declared_complete_example = visit_declared_complete (declared two_constants) 3

-- Two maps that differ in an answer that the expression does not name.
agree_on_age :
    (r : String)
    → contains_string (expr_refs (λ k. true) (object (neg_of "age")) []) r ≡ true
    → get an_age r
      ≡ get (field "age" (float64 4607182418800017408) (field "name" (string "Ada") end)) r
unfolding expr_refs
agree_on_age r h = elim (Bool-cases (str_eq "age" r)) [ inl e ↦ rw e refl | inr e ↦ cc (rw e at h) ]

eval_expr-AgreeOn_example :
    eval_expr digit_text first_math an_age "" (object (neg_of "age"))
    ≡ eval_expr digit_text first_math
        (field "age" (float64 4607182418800017408) (field "name" (string "Ada") end))
        ""
        (object (neg_of "age"))
eval_expr-AgreeOn_example =
    eval_expr-AgreeOn digit_text first_math "" an_age
      (field "age" (float64 4607182418800017408) (field "name" (string "Ada") end)) (λ k. true)
      (λ r h. cc) refl (object (neg_of "age")) [] agree_on_age

eval_expr-typed_example :
    (text_or_empty (get (neg_of "age") "type") ≡ "concat"
      → (s : String) × (eval_expr digit_text first_math an_age "" (object (neg_of "age"))
          ≡ string s))
    × (text_or_empty (get (neg_of "age") "type") ≡ "datediff"
        → IsWhole (eval_expr digit_text first_math an_age "" (object (neg_of "age"))))
    × (text_or_empty (get (neg_of "age") "type") ≡ "math"
        → IsNumber (eval_expr digit_text first_math an_age "" (object (neg_of "age"))))
eval_expr-typed_example = eval_expr-typed digit_text first_math an_age "" (neg_of "age")

do_math-IsExtreme_example :
    ((r : Option ℕ) × (do_math first_math "max" (some one ∷ none ∷ some 0 ∷ []) ≡ float_or_null r)
      × IsExtreme is_above (some one ∷ none ∷ some 0 ∷ []) r)
    × ((r : Option ℕ) × (do_math first_math "min" (some one ∷ none ∷ some 0 ∷ []) ≡ float_or_null r)
        × IsExtreme is_below (some one ∷ none ∷ some 0 ∷ []) r)
do_math-IsExtreme_example =
    do_math-IsExtreme first_math (some one ∷ none ∷ some 0 ∷ []) (refl, (tt, (refl, tt)))

-- ── dates ──

abbrev leap_day : Day
leap_day = date 2024 2 29

abbrev birthday : Day
birthday = date 2026 2 28

leap_months : diff_months leap_day birthday ≡ pos 23
unfolding diff_months
leap_months = refl

leap_day-IsDate : IsDate leap_day
unfolding days_in_month
leap_day-IsDate = record {
  from_january = omega arith;
  to_december = omega arith;
  from_first = omega arith;
  to_last = omega arith;
}

diff_days-days_later_example : diff_days leap_day (days_later 3 leap_day) ≡ pos 3
diff_days-days_later_example = diff_days-days_later 3 leap_day leap_day-IsDate

-- Three hundred years are too many.
long_ago : diff_days (date 1726 1 1) (date 2026 1 1) ≡ pos 106751
unfolding diff_days day_number days_before days_in_month
long_ago = refl

-- ── plugin answers ──

abbrev block : String → String → Value
block key value = object (field "key" (string key) (field "value" (string value) end))

abbrev wage_answer : Value
wage_answer = object (
    field "blocks" (array (cons (block "job" "Baker") (cons (block "id" "x") nil)))
      (field "outputs" (array (cons (block "min_wage" "12") nil)) end))

-- The decoder of one text.
abbrev decode_wage : String → Option Value
decode_wage s = if str_eq s "wage" then some wage_answer else none

abbrev stored : Fields
stored = field "name" (string "Ada") (field "cao" (string "wage") end)

wage_expanded :
    get (expand_plugin_answers digit_text decode_wage stored ("cao" ∷ [])) "cao.min_wage"
    ≡ some (string "12")
unfolding expand_plugin_answers parse_plugin_plaintext put add_all plugin_key_usable
    plugin_summary_of
wage_expanded = refl

other_name : (key : String) → str_eq (dotted "cao" key) "name" ≡ false
other_name key =
    ap (λ s. is_eq (compare s "name")) (append.cons "c" "ao" ("." +++ key))
    ∙ ap is_eq (compare.cons-cons "c" "n" ("ao" +++ ("." +++ key)) "ame")

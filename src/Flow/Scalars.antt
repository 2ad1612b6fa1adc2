-- ===== src/Flow/Scalars.antt =====
-- How a flow condition reads a value (companydata/flowcondition.go: flowAnswered, flowToNum,
-- flowLooseEq, flowTruthy, flowStr, flowCmpNum, flowCmpStr).
use company_data_go.Prelude.{
  ℕ, String, Bool, true, false, not, ◌&&◌, ◌||◌, Option, none, some, List, [], ◌∷◌, ℤ, codes, eqb,
  str_eq, if◌then◌else◌, ◌==◌,
}
use company_data_go.Json.{
  Value, null, boolean, number, float64, float32, int, int64, string, array, Items, nil, cons,
}
use company_data_go.Floats.{float_eq, float_lt, float_le, float_to_int}
use company_data_go.Buffer.Decimal.{itoa, trim_space}
use company_data_go.Buffer.Disk.{lex_lt}

-- What strconv and the conversions between Go's numeric types do: `parse` is ParseFloat with 64
-- bits, `widen` is float64 of a float32, `of_int` float64 of an integer, and `print` FormatFloat
-- with 'g' and -1.
pub record FloatText : Type 0 where
  pub parse : List ℕ → Option ℕ
  pub widen : ℕ → ℕ
  pub of_int : ℤ → ℕ
  pub print : ℕ → List ℕ

unfoldable pub flow_answered : Value → Bool
flow_answered null = false
flow_answered (string s) = not (str_eq s "")
flow_answered _ = true

abbrev pub is_bool : Value → Bool
is_bool (boolean b) = true
is_bool _ = false

-- Two numbers are compared as numbers.
abbrev pub both_nums : Option ℕ → Option ℕ → Bool → Bool
both_nums (some a) (some b) otherwise = float_eq a b
both_nums (some a) none otherwise = otherwise
both_nums none b otherwise = otherwise

abbrev pub eq_bool : Bool → Bool → Bool
eq_bool true b = b
eq_bool false b = not b

module _ (text : FloatText) where
  abbrev parse_nonempty : List ℕ → Option ℕ
  parse_nonempty [] = none
  parse_nonempty (c ∷ cs) = text.parse (c ∷ cs)

  unfoldable pub flow_to_num : Value → Option ℕ
  flow_to_num (boolean b) = none
  flow_to_num (float64 f) = some f
  flow_to_num (float32 f) = some (text.widen f)
  flow_to_num (int n) = some (text.of_int n)
  flow_to_num (int64 n) = some (text.of_int n)
  flow_to_num (number t) = text.parse t
  flow_to_num (string s) = parse_nonempty (trim_space (codes s))
  flow_to_num _ = none

  abbrev nonzero : Option ℕ → Bool
  nonzero none = true
  nonzero (some f) = not (float_eq f 0)

  unfoldable pub flow_truthy : Value → Bool
  unfolding flow_to_num
  flow_truthy (boolean b) = b
  flow_truthy null = false
  flow_truthy (string s) = not (str_eq s "")
  flow_truthy v = nonzero (flow_to_num v)

  unfoldable pub flow_str : Value → List ℕ
  flow_str null = []
  flow_str (boolean b) = if b then codes "true" else codes "false"
  flow_str (string s) = codes s
  flow_str (number t) = t
  flow_str (float64 f) =
      if float_eq f (text.of_int (float_to_int f)) then itoa (float_to_int f) else text.print f
  flow_str (int n) = itoa n
  flow_str (int64 n) = itoa n
  flow_str _ = []

  unfoldable pub flow_loose_eq : Value → Value → Bool
  unfolding flow_truthy flow_str
  flow_loose_eq a b =
      if is_bool a || is_bool b
      then eq_bool (flow_truthy a) (flow_truthy b)
      else both_nums (flow_to_num a) (flow_to_num b) (eqb (flow_str a) (flow_str b))

  unfoldable pub in_items : Items → Value → Bool
  in_items nil v = false
  in_items (cons x xs) v = flow_loose_eq x v || in_items xs v

  unfoldable pub flow_in_list : Option Value → Value → Bool
  unfolding in_items
  flow_in_list (some (array xs)) v = in_items xs v
  flow_in_list _ v = false

unfoldable pub flow_cmp_num : String → ℕ → ℕ → Bool
flow_cmp_num op a b =
    if str_eq op "lt"
    then float_lt a b
    else if str_eq op "gt"
    then float_lt b a
    else if str_eq op "le"
    then float_le a b
    else float_le b a

unfoldable pub flow_cmp_str : String → List ℕ → List ℕ → Bool
flow_cmp_str op a b =
    if str_eq op "lt"
    then lex_lt a b
    else if str_eq op "gt"
    then lex_lt b a
    else if str_eq op "le"
    then not (lex_lt b a)
    else not (lex_lt a b)

abbrev starts : List ℕ → List ℕ → Bool
starts s [] = true
starts [] (p ∷ ps) = false
starts (c ∷ cs) (p ∷ ps) = c == p && starts cs ps

-- strings.Contains.
unfoldable pub contains : List ℕ → List ℕ → Bool
contains [] needle = starts [] needle
contains (c ∷ cs) needle = starts (c ∷ cs) needle || contains cs needle

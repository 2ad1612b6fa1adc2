-- ===== src/Flow/Examples.antt =====
-- Conditions on a few answers; the theorems on conditions at those inputs.
use company_data_go.Prelude.{
  ℕ, ◌≡◌, ◌↔◌, refl, String, true, false, Option, none, some, List, [], ◌∷◌, inl, inr, eqb, codes,
  if◌then◌else◌,
}
use company_data_go.Json.{
  Value, null, boolean, string, array, object, float64, nil, cons, Fields, end, field,
}
use company_data_go.Flow.Scalars.{FloatText}
use company_data_go.Flow.Condition.{evaluate_condition, evaluate_leaf}
use company_data_go.Flow.Boolean.{AllHold, and-AllHold}
use company_data_go.Flow.Answers.{missing_in_false}

-- The conversions of the numbers 0 and 1 only.
abbrev bits_of : List ℕ → Option ℕ
bits_of t =
    if eqb t (codes "0")
    then some 0
    else if eqb t (codes "1")
    then some 4607182418800017408
    else none

abbrev pub digit_text : FloatText
digit_text = record { parse = bits_of; widen = λ b. b; of_int = λ i. 0; print = λ b. 49 ∷ [] }

abbrev answers : Fields
answers = field "name" (string "Ada") (field "age" (float64 4607182418800017408) end)

abbrev has_name : Value
has_name = object (field "op" (string "answered") (field "field" (string "name") end))

abbrev no_email : Value
no_email = object (field "op" (string "empty") (field "field" (string "email") end))

abbrev node : String → Fields
node op = field "op" (string op) (field "children" (array (cons has_name (cons no_email nil))) end)

and-AllHold_example :
    (evaluate_condition digit_text (object (node "and")) answers ≡ true)
    ↔ AllHold digit_text answers (cons has_name (cons no_email nil))
and-AllHold_example =
    and-AllHold digit_text answers (node "and") (cons has_name (cons no_email nil)) (refl, refl)

missing_in_false_example :
    (evaluate_leaf digit_text "in"
        (some (array (cons (string "a") (cons (boolean false) nil))))
        null
      ≡ true)
    × (evaluate_leaf digit_text "nin"
          (some (array (cons (string "a") (cons (boolean false) nil))))
          null
        ≡ false)
missing_in_false_example =
    missing_in_false digit_text (cons (string "a") (cons (boolean false) nil))
      (inr (inr (inl refl)))

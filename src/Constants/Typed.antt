-- ===== src/Constants/Typed.antt =====
-- The types of the values of expressions (companydata/flowconstants.go: evalExpr, finNum).
use company_data_go.Prelude.{
  ℕ, ◌≡◌, refl, ◌⊎◌, inl, inr, String, Bool, true, false, Bool-cases, Option, none, some, List, [],
  ◌∷◌, map, ℤ, All, codes, of_codes, str_eq, if◌then◌else◌,
}
use company_data_go.Json.{Value, null, float64, int, string, object, Fields, get, text_or_empty}
use company_data_go.Flow.Scalars.{FloatText, flow_to_num, flow_str}
use company_data_go.Constants.Dates.{Day}
use company_data_go.Constants.Expr.{
  FloatMath, is_finite, one, negated, diff_in, date_diff, fin_num, finite_only, all_nums, improves,
  or_best, best_of, float_or_null, folded, binary, quotient, unary, compute, compute_nums, do_math,
  joined, eval_list, eval_expr,
}
use company_data_go.Floats.{magnitude}

-- Nothing, or a number that is neither infinite nor NaN.
abbrev pub IsNumber : Value → Type 0
IsNumber v = (v ≡ null) ⊎ ((f : ℕ) × (v ≡ float64 f) × (is_finite f ≡ true))

-- Nothing, or a whole number.
abbrev pub IsWhole : Value → Type 0
IsWhole v = (v ≡ null) ⊎ ((n : ℤ) × (v ≡ int n))

if_holds {κ} :
    {A : Type 0} (P : A → Type κ) (b : Bool) (x y : A) → P x → P y → P (if b then x else y)
if_holds P true x y h k = h
if_holds P false x y h k = k

-- ── datediff ──

diff_in-IsWhole : (unit : String) (from to : Day) → IsWhole (diff_in unit from to)
diff_in-IsWhole unit from to = if_holds IsWhole (str_eq unit "days") _ _ (inr (_, refl)) (
    if_holds IsWhole (str_eq unit "weeks") _ _ (inr (_, refl)) (
      if_holds IsWhole (str_eq unit "months") _ _ (inr (_, refl))
        (if_holds IsWhole (str_eq unit "years") _ _ (inr (_, refl)) (inl refl))))

date_diff-IsWhole : (unit : String) (from to : Option Day) → IsWhole (date_diff unit from to)
unfolding date_diff
date_diff-IsWhole unit (some from) (some to) = diff_in-IsWhole unit from to
date_diff-IsWhole unit (some from) none = inl refl
date_diff-IsWhole unit none to = inl refl

-- ── math ──

abbrev pub Finite : Option ℕ → Type 0
Finite none = Unit
Finite (some f) = is_finite f ≡ true

finite_only-Finite : (o : Option ℕ) → Finite (finite_only o)
finite_only-Finite none = tt
finite_only-Finite (some f) = kept (is_finite f) refl
  where
    kept : (b : Bool) → is_finite f ≡ b → Finite (if b then some f else none)
    kept true h = h
    kept false h = tt

or_best-Finite :
    (op : String) (n best : Option ℕ) → Finite n → Finite best → Finite (or_best op n best)
or_best-Finite op none best h k = k
or_best-Finite op (some n) best h k = if_holds Finite (improves op n best) (some n) best h k

best_of-Finite :
    (op : String) (ns : List (Option ℕ)) (best : Option ℕ)
    → All Finite ns
    → Finite best
    → Finite (best_of op ns best)
unfolding best_of
best_of-Finite op [] best h k = k
best_of-Finite op (n ∷ ns) best h k =
    best_of-Finite op ns (or_best op n best) h.1 (or_best-Finite op n best h.0 k)

float_or_null-IsNumber : (o : Option ℕ) → Finite o → IsNumber (float_or_null o)
float_or_null-IsNumber none h = inl refl
float_or_null-IsNumber (some f) h = inr (f, refl, h)

fin_num-IsNumber : (r : ℕ) → IsNumber (fin_num r)
unfolding fin_num
fin_num-IsNumber r = elim (Bool-cases (is_finite r)) [
  | inl e ↦ inr (r, rw e refl, e)
  | inr e ↦ inl (rw e refl)
]

binary-IsNumber : (f : ℕ → ℕ → ℕ) (ns : List ℕ) → IsNumber (binary f ns)
binary-IsNumber f (a ∷ b ∷ ns) = fin_num-IsNumber (f a b)
binary-IsNumber f (a ∷ []) = inl refl
binary-IsNumber f [] = inl refl

quotient-IsNumber : (f : ℕ → ℕ → ℕ) (ns : List ℕ) → IsNumber (quotient f ns)
quotient-IsNumber f (a ∷ b ∷ ns) = if_holds IsNumber _ _ _ (inl refl) (fin_num-IsNumber (f a b))
quotient-IsNumber f (a ∷ []) = inl refl
quotient-IsNumber f [] = inl refl

unary-IsNumber : (f : ℕ → ℕ) (ns : List ℕ) → IsNumber (unary f ns)
unary-IsNumber f (a ∷ ns) = fin_num-IsNumber (f a)
unary-IsNumber f [] = inl refl

module _ (text : FloatText) (math : FloatMath) where
  compute-IsNumber : (op : String) (ns : List ℕ) → IsNumber (compute math op ns)
  compute-IsNumber op ns =
      if_holds IsNumber (str_eq op "add") _ _ (fin_num-IsNumber (folded math.add 0 ns)) (
        if_holds IsNumber (str_eq op "mul") _ _ (fin_num-IsNumber (folded math.mul one ns)) (
          if_holds IsNumber (str_eq op "sub") _ _ (binary-IsNumber math.sub ns) (
            if_holds IsNumber (str_eq op "div") _ _ (quotient-IsNumber math.div ns) (
              if_holds IsNumber (str_eq op "mod") _ _ (quotient-IsNumber math.fmod ns) (
                if_holds IsNumber (str_eq op "neg") _ _ (unary-IsNumber negated ns) (
                  if_holds IsNumber (str_eq op "abs") _ _ (unary-IsNumber magnitude ns) (
                    if_holds IsNumber (str_eq op "round") _ _ (unary-IsNumber math.round ns) (
                      if_holds IsNumber (str_eq op "floor") _ _ (unary-IsNumber math.floor ns) (
                        if_holds IsNumber (str_eq op "ceil") _ _ (unary-IsNumber math.ceil ns)
                          (inl refl))))))))))

  compute_nums-IsNumber : (op : String) (ns : Option (List ℕ)) → IsNumber (compute_nums math op ns)
  compute_nums-IsNumber op none = inl refl
  compute_nums-IsNumber op (some ns) = compute-IsNumber op ns

  do_math-IsNumber :
      (op : String) (args : List (Option ℕ)) → All Finite args → IsNumber (do_math math op args)
  unfolding do_math
  do_math-IsNumber op args h =
      if_holds IsNumber _ _ _
        (float_or_null-IsNumber (best_of op args none) (best_of-Finite op args none h tt))
        (compute_nums-IsNumber op (all_nums args))

  map-Finite : (vs : List Value) → All Finite (map (λ v. finite_only (flow_to_num text v)) vs)
  map-Finite [] = tt
  map-Finite (v ∷ vs) = (finite_only-Finite (flow_to_num text v), map-Finite vs)

  -- An expression of type concat is always a text, one of type datediff a whole number or null,
  -- and one of type math null or a number that is finite.
  pub eval_expr-typed :
      (answers : Fields) (date : String) (m : Fields)
      → (text_or_empty (get m "type") ≡ "concat"
          → (s : String) × (eval_expr text math answers date (object m) ≡ string s))
        × (text_or_empty (get m "type") ≡ "datediff"
            → IsWhole (eval_expr text math answers date (object m)))
        × (text_or_empty (get m "type") ≡ "math"
            → IsNumber (eval_expr text math answers date (object m)))
  unfolding eval_expr
  eval_expr-typed answers date m = (
    λ e. (
      of_codes (
          joined (codes (text_or_empty (get m "sep")))
            (map (flow_str text) (eval_list text math answers date "parts" m))),
      rw e refl,
    ),
    λ e. rw e (date_diff-IsWhole (text_or_empty (get m "unit")) _ _),
    λ e. rw e (do_math-IsNumber (text_or_empty (get m "op")) _ (map-Finite _)),
  )

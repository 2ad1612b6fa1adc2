-- ===== src/Constants/Solved.antt =====
-- What the computation of the constants comes to (companydata/flowconstants.go: ComputeConstants,
-- EvaluateFlowCondition).
use company_data_go.Prelude.{
  ℕ, ◌≡◌, refl, sym, ap, ◌∙◌, ◌⊎◌, String, Bool, true, false, Bool-cases, inl, inr, ◌||◌, some,
  List, [], ◌∷◌, str_eq, eq_iff, eq_refl, arith,
}
use company_data_go.Json.{Items, Fields, get, put, get-put}
use company_data_go.Flow.Scalars.{FloatText}
use company_data_go.Keys.{cons-Grows, either, one_of, opposite, second}
use company_data_go.FieldTypes.Registry.{contains_string}
use company_data_go.Constants.Expr.{FloatMath, eval_expr}
use company_data_go.Constants.Compute.{
  Constant, declared, is_constant, deps_of, expr_of, order_of, evaluate_all, compute_constants,
}
use company_data_go.Constants.Depends.{eval_expr-AgreeOn}
use company_data_go.Constants.Sorted.{Sorted, sorted_nil, sorted_cons, IsAcyclic}
use company_data_go.Constants.Ordered.{order_of-Sorted}

get-put_other :
    (m : Fields) (k j : String) (v : _) → str_eq k j ≡ false → get (put m k v) j ≡ get m j
get-put_other m k j v h = get-put m k j v ∙ rw h refl

get-put_same : (m : Fields) (k : String) (v : _) → get (put m k v) k ≡ some v
get-put_same m k v = get-put m k k v ∙ rw (eq_refl k) refl

first : (a b : Bool) → (a || b) ≡ false → a ≡ false
first a b h = ground arith

-- A key that is done stands nowhere later.
done_absent :
    (cs : List Constant) (done ks : List String) (j : String)
    → Sorted cs done ks
    → contains_string done j ≡ true
    → contains_string ks j ≡ false
done_absent cs done [] j sorted_nil h = refl
done_absent cs done (k ∷ ks) j (sorted_cons f g rest) h =
    rw (done_absent cs (k ∷ done) ks j rest (rw h (ground arith)))
      (unlike (Bool-cases (str_eq k j)))
  where
    unlike : (str_eq k j ≡ true) ⊎ (str_eq k j ≡ false) → (str_eq k j || false) ≡ false
    unlike (inl e) = absurd (opposite h (rw ((eq_iff k j).0 e) at f))
    unlike (inr e) = rw e refl

module _ (text : FloatText) (math : FloatMath) (date : String) (cs : List Constant) where
  evaluate_all-other :
      (ks : List String) (out : Fields) (j : String)
      → contains_string ks j ≡ false
      → get (evaluate_all text math date cs ks out) j ≡ get out j
  unfolding evaluate_all
  evaluate_all-other [] out j h = refl
  evaluate_all-other (k ∷ ks) out j h =
      evaluate_all-other ks _ j (second (str_eq k j) (contains_string ks j) h)
      ∙ get-put_other out k j _ (first (str_eq k j) (contains_string ks j) h)

  -- The expression of the next key reads nothing that is still to be computed.
  reads_done :
      (done : List String) (x : String) (ks : List String) (out : Fields)
      → Sorted cs done (x ∷ ks)
      → ((k : String) → contains_string (x ∷ ks) k ≡ true → is_constant cs k ≡ true)
      → is_constant cs "" ≡ false
      → eval_expr text math out date (expr_of cs x)
        ≡ eval_expr text math (evaluate_all text math date cs (x ∷ ks) out) date (expr_of cs x)
  unfolding deps_of
  reads_done done x ks out (sorted_cons f g rest) known named =
      eval_expr-AgreeOn text math date out (evaluate_all text math date cs (x ∷ ks) out)
        (is_constant cs) others (others "" named) (expr_of cs x) []
        (λ r m. elim (Bool-cases (is_constant cs r)) [
          | inl c ↦ same r (done_absent cs done (x ∷ ks) r (sorted_cons f g rest) (g r m c))
          | inr c ↦ others r c
        ])
    where
      same :
          (r : String)
          → contains_string (x ∷ ks) r ≡ false
          → get out r ≡ get (evaluate_all text math date cs (x ∷ ks) out) r
      same r h = sym (evaluate_all-other (x ∷ ks) out r h)

      others :
          (r : String)
          → is_constant cs r ≡ false
          → get out r ≡ get (evaluate_all text math date cs (x ∷ ks) out) r
      others r c = elim (Bool-cases (contains_string (x ∷ ks) r)) [
        | inl m ↦ absurd (opposite (known r m) c)
        | inr n ↦ same r n
      ]

  evaluate_all-solves :
      (done ks : List String) (out : Fields)
      → Sorted cs done ks
      → ((k : String) → contains_string ks k ≡ true → is_constant cs k ≡ true)
      → is_constant cs "" ≡ false
      → (k : String) → contains_string ks k ≡ true
      → get (evaluate_all text math date cs ks out) k
        ≡ some (eval_expr text math (evaluate_all text math date cs ks out) date (expr_of cs k))
  unfolding evaluate_all
  evaluate_all-solves done [] out sorted_nil known named k h = cc
  evaluate_all-solves done (x ∷ ks) out (sorted_cons f g rest) known named k h =
      let out' = put out x (eval_expr text math out date (expr_of cs x)) in
      elim (either (str_eq x k) (contains_string ks k) h) [
        | inl e ↦ rw (sym ((eq_iff x k).0 e)) (
            evaluate_all-other ks out' x
              (done_absent cs (x ∷ done) ks x rest (one_of _ _ (eq_refl x)))
            ∙ (get-put_same out x _
                ∙ ap some (reads_done done x ks out (sorted_cons f g rest) known named)))
        | inr m ↦
            evaluate_all-solves (x ∷ done) ks out' rest (λ j l. known j (cons-Grows x ks j l)) named
              k m
      ]

module _ (text : FloatText) (math : FloatMath) (date : String) (constants : Items)
    (answers : Fields) (rank : String → ℕ) where
  abbrev result : Fields
  result = compute_constants text math date constants answers

  -- If the dependencies have no cycle and no constant has the empty key, the computed answers solve the equations that the
  -- constants state: the value of each constant is the value of its expression on those very
  -- answers, and every other answer is as it was given.
  pub compute_constants-Solves :
      IsAcyclic (declared constants) rank
      → is_constant (declared constants) "" ≡ false
      → ((k : String)
          → is_constant (declared constants) k ≡ true
          → get result k ≡ some (eval_expr text math result date (expr_of (declared constants) k)))
        × ((k : String) → is_constant (declared constants) k ≡ false → get result k ≡ get answers k)
  unfolding compute_constants
  compute_constants-Solves acyclic named =
      let cs = declared constants in
      let (sorted, known, all) = order_of-Sorted cs rank acyclic in
      (
        λ k c.
            evaluate_all-solves text math date cs [] (order_of cs) answers sorted known named k
              (all k c),
        λ k c.
            evaluate_all-other text math date cs (order_of cs) answers k
              (elim (Bool-cases (contains_string (order_of cs) k)) [
                | inl m ↦ absurd (opposite (known k m) c)
                | inr n ↦ n
              ]),
      )

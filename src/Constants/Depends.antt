-- ===== src/Constants/Depends.antt =====
-- The value of an expression depends on no answer but those that it names
-- (companydata/flowconstants.go: evalExpr, collectExprConstRefs).
use mathlib.Core.Path.{ap₂}
use company_data_go.Prelude.{
  ◌≡◌, refl, ap, sym, String, Bool, false, List, ◌∷◌, map, codes, of_codes, str_eq, eq_iff,
}
use company_data_go.Json.{
  Value, null, boolean, number, float64, float32, int, int64, string, array, object, Items, nil,
  cons, Fields, end, field, get, text_or_empty,
}
use company_data_go.Flow.Scalars.{FloatText, flow_to_num, flow_str}
use company_data_go.Flow.Condition.{value_or_null}
use company_data_go.Constants.Dates.{parse_flow_date}
use company_data_go.Constants.Expr.{
  FloatMath, date_diff, do_math, finite_only, joined, eval_expr, eval_under, eval_cases,
  eval_cases_of, eval_case_among, eval_case, eval_list, eval_list_of, eval_all,
}
use company_data_go.Constants.Refs.{
  cond_refs, expr_refs, expr_refs_under, case_refs, case_refs_of, case_refs_all, one_case_refs,
  expr_refs_list, expr_refs_list_of, expr_refs_all,
}
use company_data_go.Constants.Grows.{
  expr_refs_under-Grows, case_refs_all-Grows, expr_refs_all-Grows,
}
use company_data_go.Constants.Agree.{AgreeOn, if_agree, kept, evaluate_condition-AgreeOn}

module _ (text : FloatText) (math : FloatMath) (date : String) (a b : Fields) (keep : String → Bool)
    (others : (r : String) → keep r ≡ false → get a r ≡ get b r)
    (unnamed : get a "" ≡ get b "") where
  mutual
    unfolding expr_refs eval_expr

    expr_agrees :
        (e : Value) (acc : List String)
        → AgreeOn (expr_refs keep e acc) a b
        → eval_expr text math a date e ≡ eval_expr text math b date e
    expr_agrees (object m) acc h =
        let t = text_or_empty (get m "type") in
        if_agree (str_eq t "lit") _ _ _ _ (λ e. refl)
          (λ e.
            if_agree (str_eq t "ref") _ _ _ _
              (λ e. ap value_or_null (
                kept text a b keep others unnamed (text_or_empty (get m "key")) acc
                  (rw ((eq_iff t "ref").0 e) at h)))
              (λ e.
                if_agree (str_eq t "today") _ _ _ _ (λ e. refl)
                  (λ e.
                    if_agree (str_eq t "if") _ _ _ _
                      (λ e.
                        let g = rw ((eq_iff t "if").0 e) at h in
                        eval_cases-AgreeOn m acc _ _
                          (λ r k.
                            g r (expr_refs_under-Grows keep "else" m (case_refs keep m acc) r k))
                          (eval_under-AgreeOn "else" m (case_refs keep m acc) g))
                      (λ e.
                        if_agree (str_eq t "concat") _ _ _ _
                          (λ e.
                            ap
                              (λ parts. string (
                                of_codes (
                                  joined (codes (text_or_empty (get m "sep")))
                                    (map (flow_str text) parts))))
                              (eval_list-AgreeOn "parts" m acc (rw ((eq_iff t "concat").0 e) at h)))
                          (λ e.
                            if_agree (str_eq t "datediff") _ _ _ _
                              (λ e.
                                let g = rw ((eq_iff t "datediff").0 e) at h in
                                let start = expr_refs_under keep "from" m acc in
                                ap₂
                                  (λ from to.
                                    date_diff (text_or_empty (get m "unit")) (parse_flow_date from)
                                      (parse_flow_date to))
                                  (eval_under-AgreeOn "from" m acc
                                    (λ r k. g r (expr_refs_under-Grows keep "to" m start r k)))
                                  (eval_under-AgreeOn "to" m start g))
                              (λ e.
                                if_agree (str_eq t "math") _ _ _ _
                                  (λ e.
                                    ap
                                      (λ args.
                                        do_math math (text_or_empty (get m "op"))
                                          (map (λ v. finite_only (flow_to_num text v)) args))
                                      (eval_list-AgreeOn "args" m acc
                                        (rw ((eq_iff t "math").0 e) at h)))
                                  (λ e. refl)))))))
    expr_agrees null acc h = refl
    expr_agrees (boolean x) acc h = refl
    expr_agrees (number t) acc h = refl
    expr_agrees (float64 f) acc h = refl
    expr_agrees (float32 f) acc h = refl
    expr_agrees (int n) acc h = refl
    expr_agrees (int64 n) acc h = refl
    expr_agrees (string s) acc h = refl
    expr_agrees (array xs) acc h = refl

    eval_under-AgreeOn :
        (k : String) (m : Fields) (acc : List String)
        → AgreeOn (expr_refs_under keep k m acc) a b
        → eval_under text math a date k m ≡ eval_under text math b date k m
    eval_under-AgreeOn k end acc h = refl
    eval_under-AgreeOn k (field j v m) acc h =
        if_agree (str_eq j k) _ _ _ _ (λ e. expr_agrees v acc (rw e at h))
          (λ e. eval_under-AgreeOn k m acc (rw e at h))

    eval_cases-AgreeOn :
        (m : Fields) (acc : List String) (x y : Value)
        → AgreeOn (case_refs keep m acc) a b
        → x ≡ y
        → eval_cases text math a date m x ≡ eval_cases text math b date m y
    eval_cases-AgreeOn end acc x y h p = p
    eval_cases-AgreeOn (field j v m) acc x y h p =
        if_agree (str_eq j "cases") _ _ _ _ (λ e. eval_cases_of-AgreeOn v acc x y (rw e at h) p)
          (λ e. eval_cases-AgreeOn m acc x y (rw e at h) p)

    eval_cases_of-AgreeOn :
        (v : Value) (acc : List String) (x y : Value)
        → AgreeOn (case_refs_of keep v acc) a b
        → x ≡ y
        → eval_cases_of text math a date v x ≡ eval_cases_of text math b date v y
    eval_cases_of-AgreeOn (array xs) acc x y h p = eval_case_among-AgreeOn xs acc x y h p
    eval_cases_of-AgreeOn null acc y z h p = p
    eval_cases_of-AgreeOn (boolean x) acc y z h p = p
    eval_cases_of-AgreeOn (number t) acc y z h p = p
    eval_cases_of-AgreeOn (float64 f) acc y z h p = p
    eval_cases_of-AgreeOn (float32 f) acc y z h p = p
    eval_cases_of-AgreeOn (int n) acc y z h p = p
    eval_cases_of-AgreeOn (int64 n) acc y z h p = p
    eval_cases_of-AgreeOn (string s) acc y z h p = p
    eval_cases_of-AgreeOn (object m) acc y z h p = p

    eval_case_among-AgreeOn :
        (xs : Items) (acc : List String) (x y : Value)
        → AgreeOn (case_refs_all keep xs acc) a b
        → x ≡ y
        → eval_case_among text math a date xs x ≡ eval_case_among text math b date xs y
    eval_case_among-AgreeOn nil acc x y h p = p
    eval_case_among-AgreeOn (cons c cs) acc x y h p =
        eval_case-AgreeOn c acc _ _
          (λ r k. h r (case_refs_all-Grows keep cs (one_case_refs keep c acc) r k))
          (eval_case_among-AgreeOn cs (one_case_refs keep c acc) x y h p)

    eval_case-AgreeOn :
        (c : Value) (acc : List String) (x y : Value)
        → AgreeOn (one_case_refs keep c acc) a b
        → x ≡ y
        → eval_case text math a date c x ≡ eval_case text math b date c y
    eval_case-AgreeOn (object m) acc x y h p =
        let when = value_or_null (get m "when") in
        rw
          (sym (
            evaluate_condition-AgreeOn text a b keep others unnamed when acc
              (λ r k. h r (expr_refs_under-Grows keep "then" m (cond_refs keep when acc) r k))))
          (if_agree _ _ _ _ _ (λ e. eval_under-AgreeOn "then" m (cond_refs keep when acc) h)
            (λ e. p))
    eval_case-AgreeOn null acc y z h p = p
    eval_case-AgreeOn (boolean x) acc y z h p = p
    eval_case-AgreeOn (number t) acc y z h p = p
    eval_case-AgreeOn (float64 f) acc y z h p = p
    eval_case-AgreeOn (float32 f) acc y z h p = p
    eval_case-AgreeOn (int n) acc y z h p = p
    eval_case-AgreeOn (int64 n) acc y z h p = p
    eval_case-AgreeOn (string s) acc y z h p = p
    eval_case-AgreeOn (array xs) acc y z h p = p

    eval_list-AgreeOn :
        (k : String) (m : Fields) (acc : List String)
        → AgreeOn (expr_refs_list keep k m acc) a b
        → eval_list text math a date k m ≡ eval_list text math b date k m
    eval_list-AgreeOn k end acc h = refl
    eval_list-AgreeOn k (field j v m) acc h =
        if_agree (str_eq j k) _ _ _ _ (λ e. eval_list_of-AgreeOn v acc (rw e at h))
          (λ e. eval_list-AgreeOn k m acc (rw e at h))

    eval_list_of-AgreeOn :
        (v : Value) (acc : List String)
        → AgreeOn (expr_refs_list_of keep v acc) a b
        → eval_list_of text math a date v ≡ eval_list_of text math b date v
    eval_list_of-AgreeOn (array xs) acc h = eval_all-AgreeOn xs acc h
    eval_list_of-AgreeOn null acc h = refl
    eval_list_of-AgreeOn (boolean x) acc h = refl
    eval_list_of-AgreeOn (number t) acc h = refl
    eval_list_of-AgreeOn (float64 f) acc h = refl
    eval_list_of-AgreeOn (float32 f) acc h = refl
    eval_list_of-AgreeOn (int n) acc h = refl
    eval_list_of-AgreeOn (int64 n) acc h = refl
    eval_list_of-AgreeOn (string s) acc h = refl
    eval_list_of-AgreeOn (object m) acc h = refl

    eval_all-AgreeOn :
        (xs : Items) (acc : List String)
        → AgreeOn (expr_refs_all keep xs acc) a b
        → eval_all text math a date xs ≡ eval_all text math b date xs
    eval_all-AgreeOn nil acc h = refl
    eval_all-AgreeOn (cons x xs) acc h =
        ap₂ (λ v vs. v ∷ vs)
          (expr_agrees x acc (λ r k. h r (expr_refs_all-Grows keep xs (expr_refs keep x acc) r k)))
          (eval_all-AgreeOn xs (expr_refs keep x acc) h)

  -- Two maps of answers give an expression the same value if they agree on the keys that are
  -- collected from it, on every key that is not kept, and on the empty key, which a leaf without a
  -- field reads.
  pub eval_expr-AgreeOn :
      (e : Value) (acc : List String)
      → AgreeOn (expr_refs keep e acc) a b
      → eval_expr text math a date e ≡ eval_expr text math b date e
  eval_expr-AgreeOn e acc h = expr_agrees e acc h

-- ===== src/Constants/Visits.antt =====
-- The search for an order of the constants ends within its fuel, whatever cycles the expressions
-- make (companydata/flowconstants.go: ComputeConstants).
use company_data_go.Prelude.{
  ℕ, zero, suc, ◌+◌, ◌≤◌, ◌≡◌, refl, ap, ◌∙◌, String, Bool, true, Bool-cases, inl, inr, ◌||◌,
  Option, none, some, List, [], ◌∷◌, length, str_eq, eq_refl, if◌then◌else◌, arith,
}
use company_data_go.Keys.{Grows, cons-Grows, unmarked, unmarked-Grows, unmarked-enter}
use company_data_go.FieldTypes.Registry.{contains_string}
use company_data_go.Constants.Compute.{
  Constant, Search, keys_of, by_key, or_else, is_constant, is_some, deps_of, enter, finish,
  visit_each, visit, visit_declared, untouched,
}

unmarked-length : (cs : List Constant) → unmarked (keys_of cs) [] ≡ length cs
unmarked-length [] = refl
unmarked-length (c ∷ cs) = omega (arith, unmarked-length cs)

pub by_key-is_constant :
    (cs : List Constant) (k : String) → is_some (by_key cs k) ≡ is_constant cs k
unfolding by_key
by_key-is_constant [] k = refl
by_key-is_constant (c ∷ cs) k = last (by_key cs k) (str_eq c.key k) _ (by_key-is_constant cs k)
  where
    last :
        (o : Option _) (b x : Bool)
        → is_some o ≡ x
        → is_some (or_else o (if b then some c.fields else none)) ≡ (b || x)
    last none b x h = ground arith
    last (some m) b x h = ground arith

module _ (cs : List Constant) where
  visit_each-Grows :
      (step : String → Search → Search)
      → ((k : String) (s : Search) → Grows s.marked (step k s).marked)
      → (ks : List String) (s : Search) → Grows s.marked (visit_each cs step ks s).marked
  unfolding visit_each
  visit_each-Grows step h [] s = λ r k. k
  visit_each-Grows step h (d ∷ ds) s = elim (Bool-cases (is_some (by_key cs d))) [
    | inl e ↦ rw (e, visit_each) (λ r k. visit_each-Grows step h ds (step d s) r (h d s r k))
    | inr e ↦ rw (e, visit_each) (visit_each-Grows step h ds s)
  ]

  -- No mark is ever taken away.
  pub visit-Grows : (fuel : ℕ) (k : String) (s : Search) → Grows s.marked (visit cs fuel k s).marked
  unfolding visit
  visit-Grows zero k s = λ r h. h
  visit-Grows (suc fuel) k s = elim (Bool-cases (contains_string s.marked k)) [
    | inl e ↦ rw e (λ r h. h)
    | inr e ↦ rw e (λ r h.
        visit_each-Grows (visit cs fuel) (visit-Grows fuel) (deps_of cs k) (enter k s) r
          (cons-Grows k s.marked r h))
  ]

  abbrev left : Search → ℕ
  left s = unmarked (keys_of cs) s.marked

  left-visit : (fuel : ℕ) (k : String) (s : Search) → left (visit cs fuel k s) ≤ left s
  left-visit fuel k s = unmarked-Grows (keys_of cs) _ _ (visit-Grows fuel k s)

  each_same :
      (f g : String → Search → Search) (bound : ℕ)
      → ((k : String) (s : Search) → is_some (by_key cs k) ≡ true → left s ≤ bound → f k s ≡ g k s)
      → ((k : String) (s : Search) → left (g k s) ≤ left s)
      → (ks : List String) (s : Search) → left s ≤ bound
      → visit_each cs f ks s ≡ visit_each cs g ks s
  unfolding visit_each
  each_same f g bound same less [] s h = refl
  each_same f g bound same less (k ∷ ks) s h = elim (Bool-cases (is_some (by_key cs k))) [
    | inl e ↦
        rw e
          (rw (same k s e h) (each_same f g bound same less ks (g k s) (omega (arith, less k s))))
    | inr e ↦ rw e (each_same f g bound same less ks s h)
  ]

  -- One more unit of fuel than there are keys left changes nothing.
  visit_enough :
      (fuel : ℕ) (k : String) (s : Search)
      → is_constant cs k ≡ true
      → left s ≤ fuel
      → visit cs (suc fuel) k s ≡ visit cs fuel k s
  unfolding visit
  visit_enough zero k s c h = elim (Bool-cases (contains_string s.marked k)) [
    | inl e ↦ rw e refl
    | inr e ↦ absurd (omega (arith, unmarked-enter (keys_of cs) s.marked k c e))
  ]
  visit_enough (suc fuel) k s c h = elim (Bool-cases (contains_string s.marked k)) [
    | inl e ↦ rw e refl
    | inr e ↦ rw e (
        ap (finish k) (
          each_same (visit cs (suc fuel)) (visit cs fuel) fuel
            (λ d t known less. visit_enough fuel d t (rw (by_key-is_constant cs d) at known) less)
            (left-visit fuel) (deps_of cs k) (enter k s)
            (omega (arith, unmarked-enter (keys_of cs) s.marked k c e))))
  ]

  visit_more :
      (extra fuel : ℕ) (k : String) (s : Search)
      → is_constant cs k ≡ true
      → left s ≤ fuel
      → visit cs (extra + fuel) k s ≡ visit cs fuel k s
  visit_more zero fuel k s c h = ap (λ n. visit cs n k s) (omega arith)
  visit_more (suc extra) fuel k s c h =
      ap (λ n. visit cs n k s) (omega arith)
      ∙ (visit_enough (extra + fuel) k s c (omega arith) ∙ visit_more extra fuel k s c h)

  declared_more :
      (extra fuel : ℕ) (ks : List String) (s : Search)
      → ((k : String) → contains_string ks k ≡ true → is_constant cs k ≡ true)
      → left s ≤ fuel
      → visit_declared cs (extra + fuel) ks s ≡ visit_declared cs fuel ks s
  unfolding visit_declared
  declared_more extra fuel [] s h n = refl
  declared_more extra fuel (k ∷ ks) s h n =
      rw (visit_more extra fuel k s (h k (rw (eq_refl k) refl)) n) (
        declared_more extra fuel ks (visit cs fuel k s) (λ j m. h j (cons-Grows k ks j m))
          (omega (arith, left-visit fuel k s)))

  -- A unit of fuel for every constant is enough for the search: more fuel gives the same order.
  pub visit_declared_complete :
      (extra : ℕ)
      → visit_declared cs (extra + length cs) (keys_of cs) untouched
        ≡ visit_declared cs (length cs) (keys_of cs) untouched
  visit_declared_complete extra =
      declared_more extra (length cs) (keys_of cs) untouched (λ k h. h)
        (omega (arith, unmarked-length cs))

-- ===== src/Constants/Ordered.antt =====
-- The order of the constants (companydata/flowconstants.go: ComputeConstants).
use company_data_go.Prelude.{
  ℕ, suc, ◌+◌, ◌<◌, ◌≡◌, sym, String, true, inl, inr, List, [], ◌∷◌, length, str_eq, eq_iff,
  eq_refl, arith,
}
use company_data_go.Keys.{Grows, cons-Grows, either, one_of}
use company_data_go.FieldTypes.Registry.{contains_string}
use company_data_go.Constants.Compute.{
  Constant, Search, keys_of, is_constant, visit, visit_declared, untouched, order_of,
}
use company_data_go.Constants.Visits.{visit_declared_complete}
use company_data_go.Constants.Sorted.{Sorted, sorted_nil, IsAcyclic}
use company_data_go.Constants.Reached.{Good, Below, Below-Visited, visit_reaches}

-- Above every rank of a list of keys.
abbrev above : (String → ℕ) → List String → ℕ
above rank [] = 0
above rank (k ∷ ks) = suc (rank k) + above rank ks

rank-above :
    (rank : String → ℕ) (ks : List String) (k : String)
    → contains_string ks k ≡ true
    → rank k < above rank ks
rank-above rank [] k h = cc
rank-above rank (x ∷ ks) k h = elim (either (str_eq x k) (contains_string ks k) h) [
  | inl e ↦ rw ((eq_iff x k).0 e) (omega arith)
  | inr e ↦ omega (arith, rank-above rank ks k e)
]

module _ (cs : List Constant) (rank : String → ℕ) (acyclic : IsAcyclic cs rank) where
  declared_reaches :
      (fuel : ℕ) (ks : List String) (s : Search)
      → ((k : String) → contains_string ks k ≡ true → is_constant cs k ≡ true)
      → ((k : String) → contains_string ks k ≡ true → rank k < fuel)
      → Good cs rank s
      → ((n : ℕ) → Below cs rank n s)
      → Good cs rank (visit_declared cs fuel ks s)
        × Grows s.order (visit_declared cs fuel ks s).order
        × Grows ks (visit_declared cs fuel ks s).order
  unfolding visit_declared
  declared_reaches fuel [] s known low g b = (g, λ j h. h, λ j h. cc)
  declared_reaches fuel (k ∷ ks) s known low g b =
      let here = one_of _ _ (eq_refl k) in
      let (v, o) =
        visit_reaches cs rank acyclic fuel k s (known k here) (low k here) g (b (suc (rank k))) in
      let (good, kept, done) =
        declared_reaches fuel ks (visit cs fuel k s) (λ j h. known j (cons-Grows k ks j h))
          (λ j h. low j (cons-Grows k ks j h)) v.good
          (λ n. Below-Visited cs rank n s (visit cs fuel k s) v (b n)) in
      (
        good,
        λ j h. kept j (v.kept j h),
        λ j h. elim (either (str_eq k j) (contains_string ks j) h) [
          | inl e ↦ rw (sym ((eq_iff k j).0 e)) (kept k o)
          | inr e ↦ done j e
        ],
      )

  untouched-Good : Good cs rank untouched
  untouched-Good = record { sorted = sorted_nil; was_marked = λ j h. h; declared = λ j h. cc }

  -- The order holds every constant once, each after those that its expression names, if the
  -- dependencies have no cycle.
  pub order_of-Sorted :
      Sorted cs [] (order_of cs)
      × ((k : String) → contains_string (order_of cs) k ≡ true → is_constant cs k ≡ true)
      × ((k : String) → is_constant cs k ≡ true → contains_string (order_of cs) k ≡ true)
  unfolding order_of
  order_of-Sorted =
      rw (order_of, sym (visit_declared_complete cs (above rank (keys_of cs))))
        (all (
          declared_reaches (above rank (keys_of cs) + length cs) (keys_of cs) untouched (λ k h. h)
            (λ k h. omega (arith, rank-above rank (keys_of cs) k h)) untouched-Good
            (λ n j h r. cc)))
    where
      all :
          {s : Search}
          → Good cs rank s × Grows [] s.order × Grows (keys_of cs) s.order
          → Sorted cs [] s.order
            × ((k : String) → contains_string s.order k ≡ true → is_constant cs k ≡ true)
            × ((k : String) → is_constant cs k ≡ true → contains_string s.order k ≡ true)
      all (good, kept, done) = (good.sorted, good.declared, done)

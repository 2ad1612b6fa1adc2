-- ===== src/FieldTypes/Display.antt =====
-- The order of display of field types (companydata/fieldtypes.go: Ordered).
use company_data_go.Prelude.{
  ℕ, zero, suc, ◌≡◌, refl, sym, ap, ◌∙◌, ◌⊎◌, inl, inr, String, Bool, true, false, not, ◌&&◌, ◌||◌,
  Option, none, some, List, [], ◌∷◌, ◌++◌, length, str_eq, eq_iff, if◌then◌else◌, arith,
}
use company_data_go.Keys.{contains_string-append, either}
use company_data_go.FieldTypes.Registry.{Row, contains_string}
use company_data_go.FieldTypes.Tree.{
  insert_by, sort_onto, sort_stable, compare_labels, children_of, walk_each, walk, ordered,
}
use company_data_go.FieldTypes.Sets.{contains_string-filter_types}

contains_string-insert_by :
    (less : String → String → Bool) (x : String) (ys : List String) (t : String)
    → contains_string (insert_by less x ys) t ≡ (str_eq x t || contains_string ys t)
contains_string-insert_by less x [] t = refl
contains_string-insert_by less x (y ∷ ys) t =
    step (less x y) (insert_by less x ys) (contains_string-insert_by less x ys t)
  where
    step :
        (b : Bool) (rest : List String)
        → contains_string rest t ≡ (str_eq x t || contains_string ys t)
        → contains_string (if b then x ∷ y ∷ ys else y ∷ rest) t
          ≡ (str_eq x t || (str_eq y t || contains_string ys t))
    step true rest h = refl
    step false rest h = rw h (ground arith)

contains_string-sort_onto :
    (less : String → String → Bool) (sorted xs : List String) (t : String)
    → contains_string (sort_onto less sorted xs) t
      ≡ (contains_string sorted t || contains_string xs t)
contains_string-sort_onto less sorted [] t = ground arith
contains_string-sort_onto less sorted (x ∷ xs) t =
    contains_string-sort_onto less (insert_by less x sorted) xs t
    ∙ rw (contains_string-insert_by less x sorted t) (ground arith)

contains_string-sort_stable :
    (less : String → String → Bool) (xs : List String) (t : String)
    → contains_string (sort_stable less xs) t ≡ contains_string xs t
contains_string-sort_stable less xs t = contains_string-sort_onto less [] xs t

module _ {Entry : Type 0} (r : List (Row Entry)) where
  walk_each-wanted :
      (below : String → List String) (wanted names : List String)
      → ((n t : String) → contains_string (below n) t ≡ true → contains_string wanted t ≡ true)
      → (t : String) → contains_string (walk_each r below wanted names) t ≡ true
      → contains_string wanted t ≡ true
  walk_each-wanted below wanted [] h t m = cc
  walk_each-wanted below wanted (n ∷ names) h t m =
      elim (parted (contains_string wanted n) refl m) [
        | inl e ↦ e
        | inr e ↦
            elim (either (contains_string (below n) t)
              (contains_string (walk_each r below wanted names) t)
              (sym (contains_string-append (below n) (walk_each r below wanted names) t) ∙ e)) [
                | inl a ↦ h n t a
                | inr a ↦ walk_each-wanted below wanted names h t a
              ]
      ]
    where
      rest : List String
      rest = below n ++ walk_each r below wanted names

      parted :
          (b : Bool)
          → contains_string wanted n ≡ b
          → contains_string ((if b then n ∷ [] else []) ++ rest) t ≡ true
          → (contains_string wanted t ≡ true) ⊎ (contains_string rest t ≡ true)
      parted true e m = elim (either (str_eq n t) (contains_string rest t) m) [
        | inl p ↦ inl (rw (sym ((eq_iff n t).0 p)) e)
        | inr p ↦ inr p
      ]
      parted false e m = inr m

  walk-wanted :
      (lower : List ℕ → List ℕ) (fuel : ℕ) (wanted : List String) (parent : Option String)
      (t : String)
      → contains_string (walk r lower fuel wanted parent) t ≡ true
      → contains_string wanted t ≡ true
  unfolding walk
  walk-wanted lower zero wanted parent t m = cc
  walk-wanted lower (suc fuel) wanted parent t m =
      walk_each-wanted (λ name. walk r lower fuel wanted (some name)) wanted
        (children_of r lower parent) (λ n u k. walk-wanted lower fuel wanted (some n) u k) t m

  -- The types in the order of display are the types that were asked for, also those that the
  -- registry does not carry or that stand in no tree.
  pub ordered-same :
      (lower : List ℕ → List ℕ) (wanted : List String) (t : String)
      → contains_string (ordered r lower wanted) t ≡ contains_string wanted t
  unfolding ordered
  ordered-same lower wanted t =
      contains_string-append (walk r lower (length r) wanted none) _ t
      ∙ (ap (λ b. contains_string (walk r lower (length r) wanted none) t || b)
            (contains_string-sort_stable (compare_labels lower) _ t
              ∙ contains_string-filter_types
                  (λ x. not (contains_string (walk r lower (length r) wanted none) x)) wanted t)
          ∙ covered (contains_string (walk r lower (length r) wanted none) t)
              (contains_string wanted t) (walk-wanted lower (length r) wanted none t))
    where
      covered : (o w : Bool) → (o ≡ true → w ≡ true) → (o || (w && not o)) ≡ w
      covered true w h = sym (h refl)
      covered false true h = refl
      covered false false h = refl

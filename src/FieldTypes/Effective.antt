-- ===== src/FieldTypes/Effective.antt =====
-- The type that chooses the comparisons (companydata/fieldtypes.go: EffectiveType).
use company_data_go.Prelude.{
  ℕ, zero, suc, ◌≡◌, refl, sym, ap, ◌∙◌, ◌⊎◌, inl, inr, String, Bool, true, false, Bool-cases, ◌||◌,
  Option, none, some, List, [], ◌∷◌, length, str_eq, eq_iff, if◌then◌else◌,
}
use company_data_go.FieldTypes.Registry.{Row, contains_string, find_row}
use company_data_go.FieldTypes.Tree.{is_base, effective_above, effective_from, effective_type}
use company_data_go.FieldTypes.Below.{Among, Below, itself, child}

module _ {Entry : Type 0} where
  find_row-Among :
      (rows : List (Row Entry)) (t : String) (row : Row Entry)
      → find_row rows t ≡ some row
      → Among row rows × (row.type_name ≡ t)
  unfolding find_row
  find_row-Among [] t row h = cc
  find_row-Among (x ∷ rows) t row h = elim (Bool-cases (str_eq x.type_name t)) [
    | inl e ↦ found (rw e at h) ((eq_iff x.type_name t).0 e)
    | inr e ↦ let (a, b) = find_row-Among rows t row (rw e at h) in (inr a, b)
  ]
    where
      found : some x ≡ some row → x.type_name ≡ t → Among row (x ∷ rows) × (row.type_name ≡ t)
      found p q = let same : x ≡ row = cc in (inl same, ap (λ y. y.type_name) (sym same) ∙ q)

  Below-trans :
      (r : List (Row Entry)) (a b : String) {c : String} → Below r a b → Below r b c → Below r a c
  Below-trans r a b h itself = h
  Below-trans r a b h (child row k m e) = child row (Below-trans r a b h k) m e

  -- The type itself, or a date or number type that it is or descends from.
  abbrev pub IsEffective : List (Row Entry) → String → String → Type 0
  IsEffective r t e = (e ≡ t) ⊎ ((is_base r e ≡ true) × Below r e t)

  effective_from-IsEffective :
      (r : List (Row Entry)) (fuel : ℕ) (seen : List String) (t cursor : String)
      → Below r cursor t
      → IsEffective r t (effective_from r fuel seen t cursor)
  unfolding effective_from
  effective_from-IsEffective r zero seen t cursor b = inl refl
  effective_from-IsEffective r (suc fuel) seen t cursor b =
      stop (str_eq cursor "" || contains_string seen cursor) (
        above (find_row r cursor) refl
          (λ p h. effective_from-IsEffective r fuel (cursor ∷ seen) t p h))
    where
      up : String → String
      up p = effective_from r fuel (cursor ∷ seen) t p

      stop : (c : Bool) {x : String} → IsEffective r t x → IsEffective r t (if c then t else x)
      stop true h = inl refl
      stop false h = h

      above :
          (o : Option (Row Entry))
          → find_row r cursor ≡ o
          → ((p : String) → Below r p t → IsEffective r t (up p))
          → IsEffective r t (effective_above r up t cursor o)
      above none e ih = inl refl
      above (some row) e ih = based (is_base r cursor) refl row.parent refl
        where
          parent_of : (p : String) → row.parent ≡ some p → Below r p cursor
          parent_of p k =
              let (among, same) = find_row-Among r cursor row e in
              rw same at (child row itself among k)

          based :
              (c : Bool)
              → is_base r cursor ≡ c
              → (q : Option String) → row.parent ≡ q
              → IsEffective r t (if c then cursor else elim q [ none ↦ t | some p ↦ up p ])
          based true h q k = inr (h, b)
          based false h none k = inl refl
          based false h (some p) k = ih p (Below-trans r p cursor (parent_of p k) b)

  -- EffectiveType answers the type itself, or a date or number type that it is or descends from.
  pub effective_type-IsEffective :
      (r : List (Row Entry)) (t : String) → IsEffective r t (effective_type r t)
  unfolding effective_type
  effective_type-IsEffective r t = effective_from-IsEffective r (length r) [] t t itself

-- ===== src/FieldTypes/Ancestors.antt =====
-- The walk from a type to its root (companydata/fieldtypes.go: resolveIn).
use mathlib.Core.List.{reverse-cons}
use company_data_go.Prelude.{
  ℕ, zero, suc, ◌+◌, ◌≤◌, ◌<◌, ◌≡◌, refl, sym, ap, ◌∙◌, String, Bool, true, false, Bool-cases, inl,
  inr, ◌||◌, Option, none, some, List, [], ◌∷◌, ◌++◌, reverse, length, str_eq, eq_iff, eq_refl,
  if◌then◌else◌, arith,
}
use company_data_go.FieldTypes.Registry.{
  Row, Resolved, contains_string, on_parent, on_row, find_row, chain, refine, refine_all, blank,
  resolve, label_or, if_non_empty,
}

neither : (a b : Bool) → (a || b) ≡ false → b ≡ false
neither a b h = ground arith

module _ {Entry : Type 0} where
  -- The rows whose types were not seen.
  abbrev unseen : List (Row Entry) → List String → ℕ
  unseen [] seen = 0
  unseen (row ∷ rows) seen =
      (if contains_string seen row.type_name then 0 else 1) + unseen rows seen

  unseen-le :
      (r : List (Row Entry)) (seen : List String) (t : String) → unseen r (t ∷ seen) ≤ unseen r seen
  unseen-le [] seen t = omega arith
  unseen-le (row ∷ rows) seen t = let ih = unseen-le rows seen t in ground arith

  unseen-find_row :
      (r : List (Row Entry)) (seen : List String) (t : String) (row : Row Entry)
      → find_row r t ≡ some row
      → contains_string seen t ≡ false
      → unseen r (t ∷ seen) < unseen r seen
  unfolding find_row
  unseen-find_row [] seen t row h k = cc
  unseen-find_row (x ∷ rows) seen t row h k = elim (Bool-cases (str_eq x.type_name t)) [
    | inl e ↦
        let less = unseen-le rows seen t in
        rw ((eq_iff x.type_name t).0 e, eq_refl t, k) (omega arith)
    | inr e ↦ let ih = unseen-find_row rows seen t row (rw e at h) k in ground arith
  ]

  unseen-length : (r : List (Row Entry)) → unseen r [] ≡ length r
  unseen-length [] = refl
  unseen-length (row ∷ rows) = omega (arith, unseen-length rows)

  on_row_same :
      (f g : String → List (Row Entry)) (o : Option (Row Entry))
      → ((row : Row Entry) → o ≡ some row → (p : String) → f p ≡ g p)
      → on_row f o ≡ on_row g o
  on_row_same f g none h = refl
  on_row_same f g (some row) h = ap (λ rest. row ∷ rest) (above row.parent)
    where
      above : (p : Option String) → on_parent f p ≡ on_parent g p
      above none = refl
      above (some p) = h row refl p

  -- One more unit of fuel than there are unseen rows changes nothing, whatever cycles the parents
  -- make.
  chain_enough :
      (r : List (Row Entry)) (fuel : ℕ) (seen : List String) (t : String)
      → unseen r seen ≤ fuel
      → chain r (suc fuel) seen t ≡ chain r fuel seen t
  unfolding chain
  chain_enough r zero seen t h = elim (Bool-cases (str_eq t "" || contains_string seen t)) [
    | inl e ↦ rw e refl
    | inr e ↦
        rw e (not_found (find_row r t) refl (neither (str_eq t "") (contains_string seen t) e))
  ]
    where
      not_found :
          (o : Option (Row Entry))
          → find_row r t ≡ o
          → contains_string seen t ≡ false
          → on_row (λ p. []) o ≡ []
      not_found none k l = refl
      not_found (some row) k l = absurd (omega (arith, unseen-find_row r seen t row k l))
  chain_enough r (suc fuel) seen t h = elim (Bool-cases (str_eq t "" || contains_string seen t)) [
    | inl e ↦ rw e refl
    | inr e ↦ rw e (
        on_row_same (λ p. chain r (suc fuel) (t ∷ seen) p) (λ p. chain r fuel (t ∷ seen) p)
          (find_row r t)
          (λ row k p. chain_enough r fuel (t ∷ seen) p (
            omega (
              arith,
              unseen-find_row r seen t row k (neither (str_eq t "") (contains_string seen t) e),
            ))))
  ]

  -- A walk with a unit of fuel for every row of the registry is complete: more fuel gives the same
  -- ancestors.
  pub chain_complete :
      (r : List (Row Entry)) (extra : ℕ) (t : String)
      → chain r (extra + length r) [] t ≡ chain r (length r) [] t
  chain_complete r zero t = ap (λ n. chain r n [] t) (omega arith)
  chain_complete r (suc extra) t =
      ap (λ n. chain r n [] t) (omega arith)
      ∙ (chain_enough r (extra + length r) [] t (omega (arith, unseen-length r))
          ∙ chain_complete r extra t)

  -- ── the resolved type ──

  refine_all-last :
      (d : Resolved Entry) (rows : List (Row Entry)) (row : Row Entry)
      → refine_all d (rows ++ (row ∷ [])) ≡ refine (refine_all d rows) row
  unfolding refine_all
  refine_all-last d [] row = refl
  refine_all-last d (x ∷ rows) row = refine_all-last (refine d x) rows row

  chain_from :
      (r : List (Row Entry)) (fuel : ℕ) (t : String) (row : Row Entry)
      → str_eq t "" ≡ false
      → find_row r t ≡ some row
      → chain r (suc fuel) [] t ≡ row ∷ on_parent (λ p. chain r fuel (t ∷ []) p) row.parent
  unfolding chain
  chain_from r fuel t row n h = rw n (rw h refl)

  chain_head :
      (r : List (Row Entry)) (t : String) (row : Row Entry)
      → str_eq t "" ≡ false
      → find_row r t ≡ some row
      → chain r (length r) [] t ≡ row ∷ on_parent (λ p. chain r (length r) (t ∷ []) p) row.parent
  chain_head r t row n h =
      sym (chain_enough r (length r) [] t (omega (arith, unseen-length r)))
      ∙ chain_from r (length r) t row n h

  -- What the row's ancestors set.
  abbrev inherited : List (Row Entry) → String → Row Entry → Resolved Entry
  inherited r t row =
      refine_all
        (blank t row.parent (label_or (if_non_empty row.label) t) row.is_system row.system_only
          true)
        (reverse (on_parent (λ p. chain r (length r) (t ∷ []) p) row.parent))

  resolve-refine :
      (r : List (Row Entry)) (t : String) (row : Row Entry)
      → str_eq t "" ≡ false
      → find_row r t ≡ some row
      → resolve r t ≡ refine (inherited r t row) row
  unfolding resolve
  resolve-refine r t row n h =
      rw (h, resolve)
        (rw (chain_head r t row n h) (
          rw (reverse-cons row (on_parent (λ p. chain r (length r) (t ∷ []) p) row.parent)) (
            refine_all-last
              (blank t row.parent (label_or (if_non_empty row.label) t) row.is_system
                row.system_only true)
              (reverse (on_parent (λ p. chain r (length r) (t ∷ []) p) row.parent)) row)))

  -- A known type keeps every column that its own row sets.
  pub resolve_own :
      (r : List (Row Entry)) (t : String) (row : Row Entry)
      → str_eq t "" ≡ false
      → find_row r t ≡ some row
      → ((i : String) → row.input ≡ some i → (resolve r t).input ≡ some i)
        × ((l : String) → row.lane ≡ some l → (resolve r t).lane ≡ some l)
        × ((c : String) → row.check ≡ some c → (resolve r t).check ≡ some c)
  resolve_own r t row n h =
      rw (resolve-refine r t row n h) (λ i e. rw e refl, λ l e. rw e refl, λ c e. rw e refl)

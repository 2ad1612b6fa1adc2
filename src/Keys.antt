-- ===== src/Keys.antt =====
-- Lists of keys as the sets that the program keeps in maps of Booleans.
use company_data_go.Prelude.{
  ℕ, ◌+◌, ◌≤◌, ◌<◌, ◌≡◌, refl, ◌⊎◌, inl, inr, String, Bool, true, false, Bool-cases, ◌||◌, List, [],
  ◌∷◌, ◌++◌, str_eq, eq_iff, eq_refl, if◌then◌else◌, arith,
}
use company_data_go.FieldTypes.Registry.{contains_string}

-- Every key of the first list is in the second.
abbrev pub Grows : List String → List String → Type 0
Grows from to = (r : String) → contains_string from r ≡ true → contains_string to r ≡ true

pub contains_string-append :
    (xs ys : List String) (r : String)
    → contains_string (xs ++ ys) r ≡ (contains_string xs r || contains_string ys r)
contains_string-append [] ys r = refl
contains_string-append (x ∷ xs) ys r = rw (contains_string-append xs ys r) (ground arith)

pub either : (a b : Bool) → (a || b) ≡ true → (a ≡ true) ⊎ (b ≡ true)
either true b h = inl refl
either false b h = inr h

pub one_of : (a b : Bool) → a ≡ true → (a || b) ≡ true
one_of a b h = ground arith

pub second : (a b : Bool) → (a || b) ≡ false → b ≡ false
second a b h = ground arith

pub opposite : {b : Bool} → b ≡ true → b ≡ false → ⊥
opposite p q = cc

-- The keys that are not marked.
abbrev pub unmarked : List String → List String → ℕ
unmarked [] marked = 0
unmarked (k ∷ ks) marked = (if contains_string marked k then 0 else 1) + unmarked ks marked

grows_step :
    (a b : Bool) (m n : ℕ)
    → (a ≡ true → b ≡ true)
    → m ≤ n
    → (if b then 0 else 1) + m ≤ (if a then 0 else 1) + n
grows_step true b m n h k = rw (h refl) (omega (arith, k))
grows_step false true m n h k = omega (arith, k)
grows_step false false m n h k = omega (arith, k)

pub unmarked-Grows :
    (keys from to : List String) → Grows from to → unmarked keys to ≤ unmarked keys from
unmarked-Grows [] from to h = omega arith
unmarked-Grows (k ∷ ks) from to h =
    grows_step (contains_string from k) (contains_string to k) _ _ (h k)
      (unmarked-Grows ks from to h)

pub cons-Grows : (k : String) (xs : List String) → Grows xs (k ∷ xs)
cons-Grows k xs r h = rw h (ground arith)

pub unmarked-enter :
    (keys marked : List String) (k : String)
    → contains_string keys k ≡ true
    → contains_string marked k ≡ false
    → unmarked keys (k ∷ marked) < unmarked keys marked
unmarked-enter [] marked k h n = cc
unmarked-enter (x ∷ xs) marked k h n = elim (Bool-cases (str_eq x k)) [
  | inl e ↦
      let less = unmarked-Grows xs marked (k ∷ marked) (cons-Grows k marked) in
      rw ((eq_iff x k).0 e, eq_refl k, n) (omega arith)
  | inr e ↦
      let ih = unmarked-enter xs marked k (rw e at h) n in
      let less =
        grows_step (contains_string marked x) (contains_string (k ∷ marked) x) 0 0
          (cons-Grows k marked x) (omega arith) in
      omega arith
]

-- No key occurs twice.
abbrev pub Distinct : List String → Type 0
Distinct [] = Unit
Distinct (k ∷ ks) = (contains_string ks k ≡ false) × Distinct ks

pub Distinct-append :
    (ks : List String) (k : String)
    → Distinct ks
    → contains_string ks k ≡ false
    → Distinct (ks ++ (k ∷ []))
Distinct-append [] k d h = (refl, tt)
Distinct-append (x ∷ xs) k (n, d) h = (apart, Distinct-append xs k d (rest (str_eq x k) _ h))
  where
    rest : (a b : Bool) → (a || b) ≡ false → b ≡ false
    rest a b h = ground arith

    differ : (a b : Bool) → (a || b) ≡ false → a ≡ false
    differ a b h = ground arith

    apart : contains_string (xs ++ (k ∷ [])) x ≡ false
    apart =
        rw (contains_string-append xs (k ∷ []) x, n)
          (ground (arith, eq_iff k x, eq_iff x k, differ (str_eq x k) _ h))

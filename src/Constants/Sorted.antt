-- ===== src/Constants/Sorted.antt =====
-- The order of the constants puts each after those that it depends on, if the dependencies have
-- no cycle (companydata/flowconstants.go: ComputeConstants).
use company_data_go.Prelude.{
  ℕ, ◌<◌, ◌≡◌, String, Bool, true, false, ◌||◌, List, [], ◌∷◌, ◌++◌, str_eq, arith,
}
use company_data_go.Keys.{second}
use company_data_go.FieldTypes.Registry.{contains_string}
use company_data_go.Constants.Compute.{Constant, is_constant, deps_of}

-- Keys in an order: none stands twice, and each stands after the constants that its expression
-- names. `done` are the keys before them.
pub data Sorted (cs : List Constant) : List String → List String → Type 0 where
  sorted_nil : {done : List String} → Sorted cs done []
  sorted_cons :
      {done : List String} {k : String} {ks : List String}
      → contains_string done k ≡ false
      → ((d : String)
          → contains_string (deps_of cs k) d ≡ true
          → is_constant cs d ≡ true
          → contains_string done d ≡ true)
      → Sorted cs (k ∷ done) ks
      → Sorted cs done (k ∷ ks)

-- A rank that falls from a constant to those that it depends on: there is no cycle.
abbrev pub IsAcyclic : List Constant → (String → ℕ) → Type 0
IsAcyclic cs rank =
    (k d : String)
    → contains_string (deps_of cs k) d ≡ true
    → is_constant cs d ≡ true
    → rank d < rank k

moved : (a b c : Bool) → ((a || b) || c) ≡ true → (b || (a || c)) ≡ true
moved a b c h = ground arith

neither : (a b c : Bool) → a ≡ false → (b || c) ≡ false → (b || a) ≡ false
neither a b c h k = ground arith

pub Sorted-last :
    (cs : List Constant) (done ks : List String) (k : String)
    → Sorted cs done ks
    → contains_string done k ≡ false
    → contains_string ks k ≡ false
    → ((d : String)
        → contains_string (deps_of cs k) d ≡ true
        → is_constant cs d ≡ true
        → (contains_string ks d || contains_string done d) ≡ true)
    → Sorted cs done (ks ++ (k ∷ []))
Sorted-last cs done [] k sorted_nil n m h = sorted_cons n h sorted_nil
Sorted-last cs done (x ∷ ks) k (sorted_cons f g rest) n m h = sorted_cons f g (
    Sorted-last cs (x ∷ done) ks k rest
      (neither (contains_string done k) (str_eq x k) (contains_string ks k) n m)
      (second (str_eq x k) (contains_string ks k) m)
      (λ d a c. moved (str_eq x d) (contains_string ks d) (contains_string done d) (h d a c)))

-- ===== src/FieldTypes/Descend.antt =====
-- The descendants of a type are the types below it (companydata/fieldtypes.go: Descendants).
use company_data_go.Prelude.{
  ℕ, zero, suc, ◌+◌, ◌≤◌, ◌≡◌, ◌↔◌, sym, ◌⊎◌, inl, inr, String, Bool, true, false, Bool-cases, some,
  List, [], ◌∷◌, length, str_eq, eq_iff, eq_refl, if◌then◌else◌, arith,
}
use company_data_go.Keys.{either, one_of, unmarked}
use company_data_go.FieldTypes.Registry.{Row, contains_string}
use company_data_go.FieldTypes.Tree.{Found, types, parent_in, pass, passes, descendants}
use company_data_go.FieldTypes.Below.{
  Among, Below, itself, child, AllBelow, Passed, pass-Passed, contains_string-Among,
}

unmarked_none :
    (ks marked : List String) (k : String)
    → unmarked ks marked ≤ 0
    → contains_string ks k ≡ true
    → contains_string marked k ≡ true
unmarked_none [] marked k h m = cc
unmarked_none (x ∷ ks) marked k h m = elim (Bool-cases (contains_string marked x)) [
  | inl e ↦ elim (either (str_eq x k) (contains_string ks k) m) [
    | inl l ↦ rw ((eq_iff x k).0 l) at e
    | inr l ↦ unmarked_none ks marked k (less (contains_string marked x) _ e h) l
  ]
  | inr e ↦ absurd (more (contains_string marked x) _ e h)
]
  where
    less : (b : Bool) (n : ℕ) → b ≡ true → (if b then 0 else 1) + n ≤ 0 → n ≤ 0
    less b n e h = ground arith

    more : (b : Bool) (n : ℕ) → b ≡ false → (if b then 0 else 1) + n ≤ 0 → ⊥
    more b n e h = ground arith

module _ {Entry : Type 0} (r : List (Row Entry)) (t : String) where
  -- A child of one of the types is in the list or hangs below the frontier.
  abbrev Settled : List String → List String → Type 0
  Settled out frontier =
      (row : Row Entry) (p : String)
      → Among row r
      → row.parent ≡ some p
      → contains_string out p ≡ true
      → (contains_string out row.type_name ≡ true) ⊎ (contains_string frontier p ≡ true)

  abbrev Closed : List String → Type 0
  Closed out =
      (row : Row Entry) (p : String)
      → Among row r
      → row.parent ≡ some p
      → contains_string out p ≡ true
      → contains_string out row.type_name ≡ true

  abbrev starting : List String → Found
  starting out = record { out = out; next = [] }

  record Complete (out : List String) : Type 0 where
    below : AllBelow r t out
    closed : Closed out
    root : contains_string out t ≡ true

  parent_in-some :
      (row : Row Entry) (p : String) (frontier : List String)
      → row.parent ≡ some p
      → contains_string frontier p ≡ true
      → parent_in r row.parent frontier ≡ true
  parent_in-some row p frontier e h = rw e h

  Settled-pass :
      (frontier out : List String) (f : Found)
      → Settled out frontier
      → Passed r t frontier r (starting out) f
      → Settled f.out f.next
  Settled-pass frontier out f s v row p a e m = elim (v.noted p m) [
    | inl o ↦ elim (s row p a e o) [
      | inl l ↦ inl (v.kept row.type_name l)
      | inr l ↦ inl (v.taken row a (parent_in-some row p frontier e l))
    ]
    | inr n ↦ inr n
  ]

  passes-Complete :
      (guard : ℕ) (frontier out : List String)
      → AllBelow r t frontier
      → AllBelow r t out
      → Settled out frontier
      → contains_string out t ≡ true
      → (frontier ≡ []) ⊎ (unmarked (types r) out ≤ guard)
      → Complete (passes r guard frontier out)
  unfolding passes
  passes-Complete guard [] out low b s root h = record {
    below = b;
    closed = λ row p a e m. elim (s row p a e m) [ inl l ↦ l | inr l ↦ cc ];
    root = root;
  }
  passes-Complete zero (x ∷ xs) out low b s root (inl e) = cc
  passes-Complete zero (x ∷ xs) out low b s root (inr h) = record {
    below = b;
    closed = λ row p a e m.
        unmarked_none (types r) out row.type_name h (contains_string-Among r t r row a);
    root = root;
  }
  passes-Complete (suc guard) (x ∷ xs) out low b s root (inl e) = cc
  passes-Complete (suc guard) (x ∷ xs) out low b s root (inr h) =
      let f = pass r (x ∷ xs) r (starting out) in
      let v = pass-Passed r t (x ∷ xs) r (starting out) low (λ row a. a) in
      let (below, next) = v.sound b (λ y m. cc) in
      passes-Complete guard f.next f.out next below (Settled-pass (x ∷ xs) out f s v)
        (v.kept t root) (elim v.fewer [ inl e ↦ inl e | inr l ↦ inr (omega arith) ])

  unmarked-length :
      (rows : List (Row Entry)) (marked : List String) → unmarked (types rows) marked ≤ length rows
  unmarked-length [] marked = omega arith
  unmarked-length (row ∷ rows) marked = let ih = unmarked-length rows marked in ground arith

  descendants-Complete : Complete (descendants r t)
  unfolding descendants
  descendants-Complete =
      passes-Complete (length r) (t ∷ []) (t ∷ []) root_below root_below (λ row p a e m. inr m)
        (one_of _ _ (eq_refl t)) (inr (unmarked-length r (t ∷ [])))
    where
      root_below : AllBelow r t (t ∷ [])
      root_below x m = elim (either (str_eq t x) false m) [
        | inl e ↦ rw (sym ((eq_iff t x).0 e)) itself
        | inr e ↦ cc
      ]

  -- Descendants answers the type itself, its children, theirs and so on, and no other, whatever
  -- cycles the parents make.
  pub descendants-Below : (x : String) → (contains_string (descendants r t) x ≡ true) ↔ Below r t x
  descendants-Below x = (descendants-Complete.below x, reached)
    where
      reached : {x : String} → Below r t x → contains_string (descendants r t) x ≡ true
      reached itself = descendants-Complete.root
      reached (child {p} row b a e) = descendants-Complete.closed row p a e (reached b)

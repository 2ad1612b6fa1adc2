-- ===== src/FieldTypes/Below.antt =====
-- The descendants of a type (companydata/fieldtypes.go: Descendants, Accepts).
use company_data_go.Prelude.{
  ◌<◌, ◌≡◌, refl, sym, ◌∙◌, ◌⊎◌, inl, inr, String, Bool, true, false, not, ◌&&◌, Option, none, some,
  List, [], ◌∷◌, ◌++◌, str_eq, eq_iff, eq_refl, if◌then◌else◌, arith,
}
use company_data_go.Keys.{
  Grows, contains_string-append, either, one_of, cons-Grows, unmarked, unmarked-Grows,
  unmarked-enter,
}
use company_data_go.FieldTypes.Registry.{Row, contains_string}
use company_data_go.FieldTypes.Tree.{Found, types, parent_in, consider, pass}

module _ {Entry : Type 0} where
  -- The row is one of the list.
  abbrev pub Among : Row Entry → List (Row Entry) → Type 0
  Among row [] = ⊥
  Among row (x ∷ rows) = (x ≡ row) ⊎ Among row rows

  abbrev IsChildOf : Row Entry → String → Type 0
  IsChildOf row p = row.parent ≡ some p

-- The type itself, its children, theirs, and so on.
pub data Below {Entry : Type 0} (r : List (Row Entry)) (t : String) : String → Type 0 where
  itself : Below r t t
  child :
      {p : String} (row : Row Entry)
      → Below r t p
      → Among row r
      → row.parent ≡ some p
      → Below r t row.type_name

module _ {Entry : Type 0} (r : List (Row Entry)) (t : String) where
  pub contains_string-Among :
      (rows : List (Row Entry)) (row : Row Entry)
      → Among row rows
      → contains_string (types rows) row.type_name ≡ true
  contains_string-Among [] row h = absurd h
  contains_string-Among (x ∷ rows) row (inl e) = rw (sym e) (one_of _ _ (eq_refl x.type_name))
  contains_string-Among (x ∷ rows) row (inr h) =
      cons-Grows x.type_name (types rows) row.type_name (contains_string-Among rows row h)

  abbrev pub AllBelow : List String → Type 0
  AllBelow xs = (x : String) → contains_string xs x ≡ true → Below r t x

  AllBelow-cons : (k : String) (xs : List String) → Below r t k → AllBelow xs → AllBelow (k ∷ xs)
  AllBelow-cons k xs b h x m = elim (either (str_eq k x) (contains_string xs x) m) [
    | inl e ↦ rw (sym ((eq_iff k x).0 e)) b
    | inr e ↦ h x e
  ]

  AllBelow-snoc :
      (xs : List String) (k : String) → Below r t k → AllBelow xs → AllBelow (xs ++ (k ∷ []))
  AllBelow-snoc xs k b h x m =
      elim (either (contains_string xs x) (contains_string (k ∷ []) x)
        (sym (contains_string-append xs (k ∷ []) x) ∙ m)) [
          | inl e ↦ h x e
          | inr e ↦ AllBelow-cons k [] b (λ y n. cc) x e
        ]

  -- What a pass does to what was found.
  pub record Passed (frontier : List String) (rows : List (Row Entry)) (f g : Found) : Type 0 where
    pub sound : AllBelow f.out → AllBelow f.next → AllBelow g.out × AllBelow g.next
    pub kept : Grows f.out g.out
    pub next_kept : Grows f.next g.next
    pub noted :
        (x : String)
        → contains_string g.out x ≡ true
        → (contains_string f.out x ≡ true) ⊎ (contains_string g.next x ≡ true)
    pub taken :
        (row : Row Entry)
        → Among row rows
        → parent_in r row.parent frontier ≡ true
        → contains_string g.out row.type_name ≡ true
    pub fewer : (g.next ≡ f.next) ⊎ (unmarked (types r) g.out < unmarked (types r) f.out)

  Among-Below :
      (frontier : List String) (row : Row Entry) (o : Option String)
      → row.parent ≡ o
      → AllBelow frontier
      → Among row r
      → parent_in r o frontier ≡ true
      → Below r t row.type_name
  Among-Below frontier row none e low among h = cc
  Among-Below frontier row (some p) e low among h = child row (low p h) among e

  fewer_after :
      (out : List String) (row : Row Entry)
      → Among row r
      → contains_string out row.type_name ≡ false
      → unmarked (types r) (out ++ (row.type_name ∷ [])) < unmarked (types r) out
  fewer_after out row among n =
      let less = unmarked-enter (types r) out row.type_name (contains_string-Among r row among) n in
      let same =
        unmarked-Grows (types r) (row.type_name ∷ out) (out ++ (row.type_name ∷ []))
          (swapped out row.type_name) in
      omega arith
    where
      swapped : (xs : List String) (k : String) → Grows (k ∷ xs) (xs ++ (k ∷ []))
      swapped xs k x m = rw (contains_string-append xs (k ∷ []) x) (ground arith)

  appended : (xs : List String) (k : String) → Grows xs (xs ++ (k ∷ []))
  appended xs k x h = rw (contains_string-append xs (k ∷ []) x) (one_of _ _ h)

  takes :
      (frontier : List String) (row : Row Entry) (f : Found)
      → AllBelow frontier
      → Among row r
      → Passed frontier (row ∷ []) f (consider r frontier row f)
  takes frontier row f low among =
      decide (parent_in r row.parent frontier) refl (contains_string f.out row.type_name) refl
    where
      k : String
      k = row.type_name

      only :
          (b : Bool) (g : Found)
          → parent_in r row.parent frontier ≡ b
          → (b ≡ true → contains_string g.out k ≡ true)
          → (x : Row Entry) → Among x (row ∷ [])
          → parent_in r x.parent frontier ≡ true
          → contains_string g.out x.type_name ≡ true
      only b g e h x (inl p) q = rw (sym p) (h (sym e ∙ (rw (sym p) at q)))
      only b g e h x (inr p) q = absurd p

      same :
          (b : Bool)
          → parent_in r row.parent frontier ≡ b
          → (b ≡ true → contains_string f.out k ≡ true)
          → Passed frontier (row ∷ []) f f
      same b e h = record {
        sound = λ a c. (a, c);
        kept = λ x m. m;
        next_kept = λ x m. m;
        noted = λ x m. inl m;
        taken = only b f e h;
        fewer = inl refl;
      }

      decide :
          (b : Bool)
          → parent_in r row.parent frontier ≡ b
          → (c : Bool) → contains_string f.out k ≡ c
          → Passed frontier
              (row ∷ [])
              f
              (if b && not c then record { out = f.out ++ (k ∷ []); next = k ∷ f.next } else f)
      decide false e c n = same false e (λ q. cc)
      decide true e true n = same true e (λ q. n)
      decide true e false n = record {
        sound = λ a c.
            let b = Among-Below frontier row row.parent refl low among e in
            (AllBelow-snoc f.out k b a, AllBelow-cons k f.next b c);
        kept = appended f.out k;
        next_kept = cons-Grows k f.next;
        noted = λ x m.
            elim (either (contains_string f.out x) (contains_string (k ∷ []) x)
              (sym (contains_string-append f.out (k ∷ []) x) ∙ m)) [
                | inl a ↦ inl a
                | inr a ↦
                    inr (elim (either (str_eq k x) false a) [ inl c ↦ one_of _ _ c | inr c ↦ cc ])
              ];
        taken =
            only true (record { out = f.out ++ (k ∷ []); next = k ∷ f.next }) e
              (λ q. rw (contains_string-append f.out (k ∷ []) k) (rw (eq_refl k) (ground arith)));
        fewer = inr (fewer_after f.out row among n);
      }

  pub pass-Passed :
      (frontier : List String) (rows : List (Row Entry)) (f : Found)
      → AllBelow frontier
      → ((row : Row Entry) → Among row rows → Among row r)
      → Passed frontier rows f (pass r frontier rows f)
  unfolding pass
  pass-Passed frontier [] f low all = record {
    sound = λ a c. (a, c);
    kept = λ x m. m;
    next_kept = λ x m. m;
    noted = λ x m. inl m;
    taken = λ row a. absurd a;
    fewer = inl refl;
  }
  pass-Passed frontier (row ∷ rows) f low all =
      joined (takes frontier row f low (all row (inl refl)))
        (pass-Passed frontier rows (consider r frontier row f) low (λ x a. all x (inr a)))
    where
      joined :
          {g h : Found}
          → Passed frontier (row ∷ []) f g
          → Passed frontier rows g h
          → Passed frontier (row ∷ rows) f h
      joined {g} {h} a b = record {
        sound = λ c d. let (e, i) = a.sound c d in b.sound e i;
        kept = λ x m. b.kept x (a.kept x m);
        next_kept = λ x m. b.next_kept x (a.next_kept x m);
        noted = λ x m. elim (b.noted x m) [
          | inl c ↦ elim (a.noted x c) [ inl d ↦ inl d | inr d ↦ inr (b.next_kept x d) ]
          | inr c ↦ inr c
        ];
        taken = λ x m q. elim m [
          | inl e ↦ b.kept x.type_name (a.taken x (inl e) q)
          | inr e ↦ b.taken x e q
        ];
        fewer = elim b.fewer [
          | inl e ↦ elim a.fewer [ inl c ↦ inl (e ∙ c) | inr c ↦ inr (less c) ]
          | inr e ↦ inr (less_again e)
        ];
      }
        where
          less :
              unmarked (types r) g.out < unmarked (types r) f.out
              → unmarked (types r) h.out < unmarked (types r) f.out
          less c = omega (arith, unmarked-Grows (types r) g.out h.out b.kept)

          less_again :
              unmarked (types r) h.out < unmarked (types r) g.out
              → unmarked (types r) h.out < unmarked (types r) f.out
          less_again e = omega (arith, unmarked-Grows (types r) f.out g.out a.kept)

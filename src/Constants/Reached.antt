-- ===== src/Constants/Reached.antt =====
-- What a visit of a constant does to the search, if the dependencies have no cycle
-- (companydata/flowconstants.go: ComputeConstants).
use company_data_go.Prelude.{
  ℕ, zero, suc, ◌<◌, ◌≡◌, refl, sym, ◌∙◌, ◌⊎◌, String, true, false, Bool-cases, inl, inr, List, [],
  ◌∷◌, ◌++◌, str_eq, eq_iff, eq_refl, arith,
}
use company_data_go.Keys.{
  Grows, cons-Grows, contains_string-append, either, one_of, opposite, second,
}
use company_data_go.FieldTypes.Registry.{contains_string}
use company_data_go.Constants.Compute.{
  Constant, Search, by_key, is_constant, is_some, deps_of, enter, finish, visit_each, visit,
}
use company_data_go.Constants.Visits.{by_key-is_constant}
use company_data_go.Constants.Sorted.{Sorted, IsAcyclic, Sorted-last}

module _ (cs : List Constant) (rank : String → ℕ) where
  pub record Good (s : Search) : Type 0 where
    pub sorted : Sorted cs [] s.order
    pub was_marked : Grows s.order s.marked
    pub declared : (k : String) → contains_string s.order k ≡ true → is_constant cs k ≡ true

  -- The marked keys of a rank below `n` are done.
  abbrev pub Below : ℕ → Search → Type 0
  Below n s =
      (j : String)
      → contains_string s.marked j ≡ true
      → rank j < n
      → contains_string s.order j ≡ true

  -- What visits do: keys that they mark are done at the end.
  pub record Visited (s t : Search) : Type 0 where
    pub good : Good t
    pub marks : Grows s.marked t.marked
    pub kept : Grows s.order t.order
    pub ended :
        (j : String)
        → contains_string t.marked j ≡ true
        → (contains_string s.marked j ≡ true) ⊎ (contains_string t.order j ≡ true)
    pub fresh :
        (j : String)
        → contains_string t.order j ≡ true
        → (contains_string s.order j ≡ true) ⊎ (contains_string s.marked j ≡ false)

  pub Visited-refl : (s : Search) → Good s → Visited s s
  Visited-refl s g = record {
    good = g;
    marks = λ j h. h;
    kept = λ j h. h;
    ended = λ j h. inl h;
    fresh = λ j h. inl h;
  }

  unmarked_before :
      (s t : Search) (j : String)
      → Grows s.marked t.marked
      → contains_string t.marked j ≡ false
      → contains_string s.marked j ≡ false
  unmarked_before s t j h n = elim (Bool-cases (contains_string s.marked j)) [
    | inl e ↦ absurd (opposite (h j e) n)
    | inr e ↦ e
  ]

  pub Visited-trans : (s t u : Search) → Visited s t → Visited t u → Visited s u
  Visited-trans s t u a b = record {
    good = b.good;
    marks = λ j h. b.marks j (a.marks j h);
    kept = λ j h. b.kept j (a.kept j h);
    ended = λ j h. elim (b.ended j h) [
      | inl m ↦ elim (a.ended j m) [ inl l ↦ inl l | inr o ↦ inr (b.kept j o) ]
      | inr o ↦ inr o
    ];
    fresh = λ j h. elim (b.fresh j h) [
      | inl o ↦ a.fresh j o
      | inr n ↦ inr (unmarked_before s t j a.marks n)
    ];
  }

  pub Below-Visited : (n : ℕ) (s t : Search) → Visited s t → Below n s → Below n t
  Below-Visited n s t v b = λ j m r. elim (v.ended j m) [ inl l ↦ v.kept j (b j l r) | inr o ↦ o ]

  -- A step that visits a key, and has it done at the end.
  abbrev Reaches : ℕ → (String → Search → Search) → Type 0
  Reaches n step =
      (k : String) (s : Search)
      → is_constant cs k ≡ true
      → rank k < n
      → Good s
      → Below n s
      → Visited s (step k s) × (contains_string (step k s).order k ≡ true)

  visit_each-Reaches :
      (n : ℕ) (step : String → Search → Search)
      → Reaches n step
      → (ks : List String) (s : Search)
      → ((d : String) → contains_string ks d ≡ true → is_constant cs d ≡ true → rank d < n)
      → Good s
      → Below n s
      → Visited s (visit_each cs step ks s)
        × ((d : String)
            → contains_string ks d ≡ true
            → is_constant cs d ≡ true
            → contains_string (visit_each cs step ks s).order d ≡ true)
  unfolding visit_each
  visit_each-Reaches n step reach [] s low g b = (Visited-refl s g, λ d h c. cc)
  visit_each-Reaches n step reach (k ∷ ks) s low g b = elim (Bool-cases (is_some (by_key cs k))) [
    | inl e ↦
        let c = rw (by_key-is_constant cs k) at e in
        let (v, o) = reach k s c (low k (one_of _ _ (eq_refl k)) c) g b in
        let (w, later) =
          visit_each-Reaches n step reach ks (step k s) (λ d h. low d (cons-Grows k ks d h)) v.good
            (Below-Visited n s (step k s) v b) in
        rw (e, visit_each)
          (
            Visited-trans s (step k s) _ v w,
            λ d h c. elim (either (str_eq k d) (contains_string ks d) h) [
              | inl p ↦ rw (sym ((eq_iff k d).0 p)) (w.kept k o)
              | inr p ↦ later d p c
            ],
          )
    | inr e ↦
        let (w, later) =
          visit_each-Reaches n step reach ks s (λ d h. low d (cons-Grows k ks d h)) g b in
        rw (e, visit_each)
          (
            w,
            λ d h c. elim (either (str_eq k d) (contains_string ks d) h) [
              | inl p ↦ absurd (unknown k d e c ((eq_iff k d).0 p))
              | inr p ↦ later d p c
            ],
          )
  ]
    where
      unknown : (k d : String) → is_some (by_key cs k) ≡ false → is_constant cs d ≡ true → k ≡ d → ⊥
      unknown k d e c p = opposite (rw p c) (sym (by_key-is_constant cs k) ∙ e)

  marked_rank : (k : String) (s : Search) → Below (suc (rank k)) s → Below (rank k) (enter k s)
  marked_rank k s b j m r = elim (either (str_eq k j) (contains_string s.marked j) m) [
    | inl p ↦ absurd (falls ((eq_iff k j).0 p) r)
    | inr p ↦ b j p (omega arith)
  ]
    where
      falls : k ≡ j → rank j < rank k → ⊥
      falls p h = irreflexive (rw p at h)
        where
          irreflexive : rank j < rank j → ⊥
          irreflexive h = absurd (omega arith)

  -- The visit of a key that was not marked.
  finish_reaches :
      (k : String) (s t : Search)
      → is_constant cs k ≡ true
      → contains_string s.marked k ≡ false
      → Good s
      → Visited (enter k s) t
      → ((d : String)
          → contains_string (deps_of cs k) d ≡ true
          → is_constant cs d ≡ true
          → contains_string t.order d ≡ true)
      → Visited s (finish k t) × (contains_string (finish k t).order k ≡ true)
  finish_reaches k s t c n g v deps = (
    record {
      good = record {
        sorted =
            Sorted-last cs [] t.order k v.good.sorted refl absent
              (λ d h c. one_of _ _ (deps d h c));
        was_marked = λ j h. elim (in_order j h) [
          | inl o ↦ v.good.was_marked j o
          | inr e ↦ rw (sym e) (v.marks k (one_of _ _ (eq_refl k)))
        ];
        declared =
            λ j h. elim (in_order j h) [ inl o ↦ v.good.declared j o | inr e ↦ rw (sym e) c ];
      };
      marks = λ j h. v.marks j (cons-Grows k s.marked j h);
      kept = λ j h. still j (v.kept j h);
      ended = λ j h. elim (v.ended j h) [
        | inl m ↦ elim (either (str_eq k j) (contains_string s.marked j) m) [
          | inl e ↦ inr (rw (sym ((eq_iff k j).0 e)) last)
          | inr e ↦ inl e
        ]
        | inr o ↦ inr (still j o)
      ];
      fresh = λ j h. elim (in_order j h) [
        | inl o ↦ elim (v.fresh j o) [
          | inl p ↦ inl p
          | inr p ↦ inr (second (str_eq k j) (contains_string s.marked j) p)
        ]
        | inr e ↦ inr (rw (sym e) n)
      ];
    },
    last,
  )
    where
      still :
          (j : String)
          → contains_string t.order j ≡ true
          → contains_string (t.order ++ (k ∷ [])) j ≡ true
      still j h = rw (contains_string-append t.order (k ∷ []) j) (one_of _ _ h)

      last : contains_string (t.order ++ (k ∷ [])) k ≡ true
      last = rw (contains_string-append t.order (k ∷ []) k) (rw (eq_refl k) (ground arith))

      absent : contains_string t.order k ≡ false
      absent = elim (Bool-cases (contains_string t.order k)) [
        | inl o ↦ elim (v.fresh k o) [
          | inl p ↦ absurd (opposite (g.was_marked k p) n)
          | inr p ↦ absurd (opposite (one_of _ _ (eq_refl k)) p)
        ]
        | inr e ↦ e
      ]

      in_order :
          (j : String)
          → contains_string (t.order ++ (k ∷ [])) j ≡ true
          → (contains_string t.order j ≡ true) ⊎ (k ≡ j)
      in_order j h =
          elim (either (contains_string t.order j) (contains_string (k ∷ []) j)
            (sym (contains_string-append t.order (k ∷ []) j) ∙ h)) [
              | inl o ↦ inl o
              | inr o ↦ elim (either (str_eq k j) false o) [
                | inl e ↦ inr ((eq_iff k j).0 e)
                | inr e ↦ cc
              ]
            ]

  pub visit_reaches :
      (acyclic : IsAcyclic cs rank) (fuel : ℕ) (k : String) (s : Search)
      → is_constant cs k ≡ true
      → rank k < fuel
      → Good s
      → Below (suc (rank k)) s
      → Visited s (visit cs fuel k s) × (contains_string (visit cs fuel k s).order k ≡ true)
  unfolding visit
  visit_reaches acyclic zero k s c h g b = absurd (omega arith)
  visit_reaches acyclic (suc fuel) k s c h g b = elim (Bool-cases (contains_string s.marked k)) [
    | inl e ↦ rw (e, visit) (Visited-refl s g, b k e (omega arith))
    | inr e ↦
        let (v, deps) =
          visit_each-Reaches (rank k) (visit cs fuel)
            (λ d t known low good below.
              visit_reaches acyclic fuel d t known (omega arith) good
                (λ j m r. below j m (omega arith)))
            (deps_of cs k) (enter k s) (acyclic k) (entered e) (marked_rank k s b) in
        rw (e, visit) (finish_reaches k s _ c e g v deps)
  ]
    where
      entered : contains_string s.marked k ≡ false → Good (enter k s)
      entered e = record {
        sorted = g.sorted;
        was_marked = λ j o. cons-Grows k s.marked j (g.was_marked j o);
        declared = g.declared;
      }

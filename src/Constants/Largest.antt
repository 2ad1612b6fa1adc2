-- ===== src/Constants/Largest.antt =====
-- What max and min come to (companydata/flowconstants.go: evalExpr).
use company_data_go.Prelude.{
  ℕ, ◌≡◌, refl, sym, ◌∙◌, ◌⊎◌, String, Bool, true, false, Bool-cases, inl, inr, ◌&&◌, ◌||◌, Option,
  none, some, List, [], ◌∷◌, All, str_eq, eq_iff, arith,
}
use company_data_go.Floats.{float_lt}
use company_data_go.Constants.Typed.{Finite}
use company_data_go.Constants.Expr.{is_finite, FloatMath, improves, float_or_null, do_math, best_of}

float_lt_trans : (a b c : ℕ) → float_lt a b ≡ true → float_lt b c ≡ true → float_lt a c ≡ true
unfolding float_lt
float_lt_trans a b c h k = ground arith

-- `a` is not below `b` for max, and not above it for min.
abbrev IsBeaten : String → ℕ → Option ℕ → Type 0
IsBeaten op b none = Unit
IsBeaten op b (some a) = improves op a (some b) ≡ false

exclusive : (op : String) → (str_eq op "max" && str_eq op "min") ≡ false
exclusive op = elim (Bool-cases (str_eq op "max")) [
  | inl e ↦ rw ((eq_iff op "max").0 e) refl
  | inr e ↦ rw e refl
]

chained :
    (p q ba ab bc cb ac ca : Bool)
    → (p && q) ≡ false
    → ((p && ba) || (q && ab)) ≡ true
    → ((p && bc) || (q && cb)) ≡ false
    → (ba ≡ true → ac ≡ true → bc ≡ true)
    → (ca ≡ true → ab ≡ true → cb ≡ true)
    → ((p && ac) || (q && ca)) ≡ false
chained true true ba ab bc cb ac ca x h k f g = cc
chained false false ba ab bc cb ac ca x h k f g = cc
chained true false ba ab bc cb true ca x h k f g = ground (arith, f)
chained true false ba ab bc cb false ca x h k f g = refl
chained false true ba ab bc cb ac true x h k f g = ground (arith, g)
chained false true ba ab bc cb ac false x h k f g = refl

-- What a number that improves on `c` does not improve on, `c` does not improve on either.
beaten_before :
    (op : String) (x c b : ℕ)
    → improves op x (some c) ≡ true
    → improves op x (some b) ≡ false
    → improves op c (some b) ≡ false
beaten_before op x c b h k =
    chained (str_eq op "max") (str_eq op "min") (float_lt c x) (float_lt x c) (float_lt b x)
      (float_lt x b) (float_lt b c) (float_lt c b) (exclusive op) h k
      (λ p q. float_lt_trans b c x q p) (λ p q. float_lt_trans x c b q p)

float_lt_between :
    (a b c : ℕ)
    → is_finite c ≡ true
    → float_lt a b ≡ true
    → float_lt a c ≡ false
    → float_lt c b ≡ true
unfolding float_lt
float_lt_between a b c f h k = ground arith

float_lt_until :
    (a b c : ℕ)
    → is_finite c ≡ true
    → float_lt a b ≡ true
    → float_lt c b ≡ false
    → float_lt a c ≡ true
unfolding float_lt
float_lt_until a b c f h k = ground arith

skipped :
    (p q xc cx cb bc xb bx : Bool)
    → ((p && cx) || (q && xc)) ≡ false
    → ((p && bc) || (q && cb)) ≡ false
    → (bx ≡ true → bc ≡ false → cx ≡ true)
    → (xb ≡ true → cb ≡ false → xc ≡ true)
    → ((p && bx) || (q && xb)) ≡ false
skipped true q xc cx cb true xb bx h k f g = cc
skipped true true xc cx true false xb bx h k f g = cc
skipped true true xc cx false false true bx h k f g = ground (arith, g)
skipped true true xc cx false false false true h k f g = ground (arith, f)
skipped true true xc cx false false false false h k f g = refl
skipped true false xc cx cb false xb true h k f g = ground (arith, f)
skipped true false xc cx cb false xb false h k f g = refl
skipped false true xc cx true bc xb bx h k f g = cc
skipped false true xc cx false bc true bx h k f g = ground (arith, g)
skipped false true xc cx false bc false bx h k f g = refl
skipped false false xc cx cb bc xb bx h k f g = refl

-- What does not improve on `c` does not improve on what `c` does not improve on.
beaten_after :
    (op : String) (x c b : ℕ)
    → is_finite c ≡ true
    → improves op x (some c) ≡ false
    → improves op c (some b) ≡ false
    → improves op x (some b) ≡ false
beaten_after op x c b f h k =
    skipped (str_eq op "max") (str_eq op "min") (float_lt x c) (float_lt c x) (float_lt c b)
      (float_lt b c) (float_lt x b) (float_lt b x) h k (λ p q. float_lt_between b x c f p q)
      (λ p q. float_lt_until x b c f p q)

float_lt-irreflexive : (a : ℕ) → float_lt a a ≡ false
unfolding float_lt
float_lt-irreflexive a = ground arith

itself : (op : String) (a : ℕ) → improves op a (some a) ≡ false
itself op a = rw (float_lt-irreflexive a) (ground arith)

-- No argument of the list, nor the best so far, beats what the loop returns.
abbrev IsBest : String → List (Option ℕ) → Option ℕ → Option ℕ → Type 0
IsBest op ns best none = All (λ n. n ≡ none) ns × (best ≡ none)
IsBest op ns best (some b) = All (IsBeaten op b) ns × IsBeaten op b best

best_of-IsBest :
    (op : String) (ns : List (Option ℕ)) (best : Option ℕ)
    → All Finite ns
    → Finite best
    → IsBest op ns best (best_of op ns best)
unfolding best_of
best_of-IsBest op [] none h f = (tt, refl)
best_of-IsBest op [] (some b) h f = (tt, itself op b)
best_of-IsBest op (none ∷ ns) best h f = skip (best_of op ns best) (best_of-IsBest op ns best h.1 f)
  where
    skip : (r : Option ℕ) → IsBest op ns best r → IsBest op (none ∷ ns) best r
    skip none (a, b) = ((refl, a), b)
    skip (some r) (a, b) = ((tt, a), b)
best_of-IsBest op (some x ∷ ns) none h f =
    let ih = best_of-IsBest op ns (some x) h.1 h.0 in first (best_of op ns (some x)) ih
  where
    first : (r : Option ℕ) → IsBest op ns (some x) r → IsBest op (some x ∷ ns) none r
    first none (a, b) = cc
    first (some r) (a, b) = ((b, a), tt)
best_of-IsBest op (some x ∷ ns) (some c) h f = elim (Bool-cases (improves op x (some c))) [
  | inl e ↦ rw e (better e (best_of op ns (some x)) (best_of-IsBest op ns (some x) h.1 h.0))
  | inr e ↦ rw e (worse e (best_of op ns (some c)) (best_of-IsBest op ns (some c) h.1 f))
]
  where
    better :
        improves op x (some c) ≡ true
        → (r : Option ℕ) → IsBest op ns (some x) r
        → IsBest op (some x ∷ ns) (some c) r
    better e none (a, b) = cc
    better e (some r) (a, b) = ((b, a), beaten_before op x c r e b)

    worse :
        improves op x (some c) ≡ false
        → (r : Option ℕ) → IsBest op ns (some c) r
        → IsBest op (some x ∷ ns) (some c) r
    worse e none (a, b) = cc
    worse e (some r) (a, b) = ((beaten_after op x c r f e b, a), b)

-- ── the least and the greatest ──

abbrev pub Among : ℕ → List (Option ℕ) → Type 0
Among b [] = ⊥
Among b (n ∷ ns) = (n ≡ some b) ⊎ Among b ns

-- No argument that is a number is beyond the bound; `beyond b n` says that `n` is.
abbrev pub NoneBeyond : (ℕ → ℕ → Bool) → ℕ → List (Option ℕ) → Type 0
NoneBeyond beyond b [] = Unit
NoneBeyond beyond b (none ∷ ns) = NoneBeyond beyond b ns
NoneBeyond beyond b (some n ∷ ns) = (beyond b n ≡ false) × NoneBeyond beyond b ns

-- An argument that no other is beyond, or nothing where no argument is a number.
abbrev pub IsExtreme : (ℕ → ℕ → Bool) → List (Option ℕ) → Option ℕ → Type 0
IsExtreme beyond ns none = All (λ n. n ≡ none) ns
IsExtreme beyond ns (some b) = Among b ns × NoneBeyond beyond b ns

abbrev pub is_above : ℕ → ℕ → Bool
is_above b n = float_lt b n

abbrev pub is_below : ℕ → ℕ → Bool
is_below b n = float_lt n b

-- What the loop returns is an argument or the best so far.
best_of-Among :
    (op : String) (ns : List (Option ℕ)) (best : Option ℕ) (b : ℕ)
    → best_of op ns best ≡ some b
    → Among b ns ⊎ (best ≡ some b)
unfolding best_of
best_of-Among op [] best b h = inr h
best_of-Among op (none ∷ ns) best b h = elim (best_of-Among op ns best b h) [
  | inl m ↦ inl (inr m)
  | inr e ↦ inr e
]
best_of-Among op (some n ∷ ns) best b h = elim (Bool-cases (improves op n best)) [
  | inl e ↦ elim (best_of-Among op ns (some n) b (rw e at h)) [
    | inl m ↦ inl (inr m)
    | inr k ↦ inl (inl k)
  ]
  | inr e ↦ elim (best_of-Among op ns best b (rw e at h)) [ inl m ↦ inl (inr m) | inr k ↦ inr k ]
]

module _ (op : String) (beyond : ℕ → ℕ → Bool)
    (is_beyond : (b n : ℕ) → improves op n (some b) ≡ beyond b n) where
  unbeaten-NoneBeyond :
      (b : ℕ) (ns : List (Option ℕ)) → All (IsBeaten op b) ns → NoneBeyond beyond b ns
  unbeaten-NoneBeyond b [] a = tt
  unbeaten-NoneBeyond b (none ∷ ns) a = unbeaten-NoneBeyond b ns a.1
  unbeaten-NoneBeyond b (some n ∷ ns) a = (sym (is_beyond b n) ∙ a.0, unbeaten-NoneBeyond b ns a.1)

  best_of-IsExtreme :
      (ns : List (Option ℕ)) → All Finite ns → IsExtreme beyond ns (best_of op ns none)
  best_of-IsExtreme ns f = go (best_of op ns none) refl (best_of-IsBest op ns none f tt)
    where
      go : (r : Option ℕ) → best_of op ns none ≡ r → IsBest op ns none r → IsExtreme beyond ns r
      go none e (a, b) = a
      go (some b) e (a, t) = elim (best_of-Among op ns none b e) [
        | inl m ↦ (m, unbeaten-NoneBeyond b ns a)
        | inr k ↦ cc
      ]

-- Over arguments that are finite or no numbers, the result of max is an argument that none is above,
-- and the result of min is one that none is below; it is null exactly where no argument is a number.
pub do_math-IsExtreme :
    (math : FloatMath) (args : List (Option ℕ))
    → All Finite args
    → ((r : Option ℕ) × (do_math math "max" args ≡ float_or_null r) × IsExtreme is_above args r)
      × ((r : Option ℕ) × (do_math math "min" args ≡ float_or_null r) × IsExtreme is_below args r)
unfolding do_math
do_math-IsExtreme math args f = (
  (best_of "max" args none, refl, best_of-IsExtreme "max" is_above (λ b n. ground arith) args f),
  (best_of "min" args none, refl, best_of-IsExtreme "min" is_below (λ b n. ground arith) args f),
)

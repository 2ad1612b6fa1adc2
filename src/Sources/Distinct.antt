-- ===== src/Sources/Distinct.antt =====
-- The keys of the held sources, as heldSources adds them (companydata/flowsources.go).
use company_data_go.Prelude.{
  ◌≡◌, refl, true, Bool-cases, inl, inr, Option, none, some, List, [], ◌∷◌, ◌++◌, eq_refl,
}
use company_data_go.FieldTypes.Registry.{contains_string}
use company_data_go.Keys.{Distinct, Distinct-append, Grows, contains_string-append}
use company_data_go.Sources.Held.{HeldSource, keys_held, add_held}

keys_held-append :
    (out : List HeldSource) (h : HeldSource)
    → keys_held (out ++ (h ∷ [])) ≡ keys_held out ++ (h.source_key ∷ [])
keys_held-append [] h = refl
keys_held-append (x ∷ xs) h = rw (keys_held-append xs h) refl

pub add_held-Distinct :
    (o : Option HeldSource) (out : List HeldSource)
    → Distinct (keys_held out)
    → Distinct (keys_held (add_held o out))
add_held-Distinct none out d = d
add_held-Distinct (some h) out d =
    elim (Bool-cases (contains_string (keys_held out) h.source_key)) [
      | inl e ↦ rw e d
      | inr e ↦ rw (e, keys_held-append out h) (Distinct-append (keys_held out) h.source_key d e)
    ]

pub add_held-Grows :
    (o : Option HeldSource) (out : List HeldSource)
    → Grows (keys_held out) (keys_held (add_held o out))
add_held-Grows none out r p = p
add_held-Grows (some h) out r p = elim (Bool-cases (contains_string (keys_held out) h.source_key)) [
  | inl e ↦ rw e p
  | inr e ↦
      rw
        (e, keys_held-append out h, contains_string-append (keys_held out) (h.source_key ∷ []) r, p)
        refl
]

-- A source that was to be added is held.
pub add_held-holds :
    (h : HeldSource) (out : List HeldSource)
    → contains_string (keys_held (add_held (some h) out)) h.source_key ≡ true
add_held-holds h out = elim (Bool-cases (contains_string (keys_held out) h.source_key)) [
  | inl e ↦ rw e e
  | inr e ↦
      rw
        (
          e,
          keys_held-append out h,
          contains_string-append (keys_held out) (h.source_key ∷ []) h.source_key,
          e,
          eq_refl h.source_key,
        )
        refl
]

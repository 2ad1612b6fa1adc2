-- ===== src/FieldTypes/Sets.antt =====
-- The sets derived from the field types and the order of display (companydata/fieldtypes.go:
-- RequestableTypes, FlowTypes, ClaimableTypes, IsBinary, Ordered).
use mathlib.Core.Path.{ap₂}
use company_data_go.Prelude.{
  ◌≡◌, refl, ◌∙◌, inl, inr, String, Bool, true, false, Bool-cases, not, ◌&&◌, ◌||◌, Option, none,
  some, List, [], ◌∷◌, str_eq, eq_iff, eq_refl, if◌then◌else◌, arith,
}
use company_data_go.Keys.{contains_string-append}
use company_data_go.FieldTypes.Registry.{Row, contains_string, resolve}
use company_data_go.FieldTypes.Tree.{
  types, knows, is_text, filter_types, other_lane, is_binary, is_option_less_choice, is_requestable,
  requestable_types, flow_types, claimable_types,
}

filter_step :
    (keep : String → Bool) (x t : String) (ts kept : List String)
    → contains_string kept t ≡ (contains_string ts t && keep t)
    → contains_string (if keep x then x ∷ kept else kept) t
      ≡ ((str_eq x t || contains_string ts t) && keep t)
filter_step keep x t ts kept h = elim (Bool-cases (str_eq x t)) [
  | inl e ↦ rw ((eq_iff x t).0 e) (here (keep t) h)
  | inr e ↦ there (keep x) e
]
  where
    here :
        (b : Bool)
        → contains_string kept t ≡ (contains_string ts t && b)
        → contains_string (if b then t ∷ kept else kept) t
          ≡ ((str_eq t t || contains_string ts t) && b)
    here true k = rw (eq_refl t) refl
    here false k = rw k (ground arith)

    there :
        (b : Bool)
        → str_eq x t ≡ false
        → contains_string (if b then x ∷ kept else kept) t
          ≡ ((str_eq x t || contains_string ts t) && keep t)
    there true e = rw e h
    there false e = rw e h

pub contains_string-filter_types :
    (keep : String → Bool) (ts : List String) (t : String)
    → contains_string (filter_types keep ts) t ≡ (contains_string ts t && keep t)
unfolding filter_types
contains_string-filter_types keep [] t = refl
contains_string-filter_types keep (x ∷ ts) t =
    filter_step keep x t ts (filter_types keep ts) (contains_string-filter_types keep ts t)

module _ {Entry : Type 0} (r : List (Row Entry)) where
  contains_string-requestable :
      (t : String) → contains_string (requestable_types r) t ≡ (knows r t && is_requestable r t)
  unfolding requestable_types
  contains_string-requestable t = contains_string-filter_types (is_requestable r) (types r) t

  -- A flow may use every type of the registry but those that are written by the platform alone.
  pub flow_types_lem :
      (t : String) → contains_string (flow_types r) t ≡ (knows r t && not (resolve r t).system_only)
  unfolding flow_types
  flow_types_lem t =
      contains_string-append (requestable_types r) _ t
      ∙ (ap₂ (λ a b. a || b) (contains_string-requestable t)
            (contains_string-filter_types
              (λ x. is_option_less_choice r x && not (resolve r x).system_only) (types r) t)
          ∙ merged (knows r t) (is_option_less_choice r t) (resolve r t).system_only)
    where
      merged : (k o s : Bool) → ((k && (not o && not s)) || (k && (o && not s))) ≡ (k && not s)
      merged k o s = ground arith

  -- A type may be claimed exactly if it may be requested and is stored on the inline lane; so no type whose value
  -- is a file may be claimed.
  pub claimable_types_lem :
      (t : String)
      → (contains_string (claimable_types r) t
          ≡ (contains_string (requestable_types r) t && is_text (resolve r t).lane "inline"))
        × (contains_string (claimable_types r) t && is_binary r t ≡ false)
  unfolding claimable_types is_binary
  claimable_types_lem t = (
    contains_string-filter_types _ (requestable_types r) t,
    rw
        (contains_string-filter_types (λ x. is_text (resolve r x).lane "inline")
          (requestable_types r) t)
        (inline_only (resolve r t).lane (contains_string (requestable_types r) t)),
  )
    where
      inline_only :
          (o : Option String) (b : Bool) → ((b && is_text o "inline") && other_lane r o) ≡ false
      inline_only none b = ground arith
      inline_only (some l) b = ground arith

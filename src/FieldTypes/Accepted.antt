-- ===== src/FieldTypes/Accepted.antt =====
-- Which values a type accepts (companydata/fieldtypes.go: Validate, applyPrimitive, ApplyCheck,
-- MatchesFieldRegex, OptionsFor).
use company_data_go.Prelude.{
  ℕ, ◌≡◌, ◌≢◌, ◌↔◌, refl, ◌⊎◌, inl, inr, String, Bool, true, false, Bool-cases, not, Option, none,
  some, List, [], ◌∷◌, All, codes, str_eq, eq_iff, eq_refl, if◌then◌else◌,
}
use company_data_go.Keys.{opposite}
use company_data_go.FieldTypes.Registry.{Row, contains_string, if_non_empty, resolve}
use company_data_go.FieldTypes.Tree.{options_for}
use company_data_go.FieldTypes.Values.{
  SubFieldEntry, Rules, first_failure, fail_unless, passes_check, normalise_for_check, apply_check,
  matches_field_regex,
}
use company_data_go.FieldTypes.Validate.{
  match_all, check_then_match, in_domain, apply_primitive, is_field_value_valid,
}

pub str_eq-false : (a b : String) → str_eq a b ≡ false → a ≢ b
str_eq-false a b h e = opposite (rw e (eq_refl b)) h

pub first_failure-none : (a b : String) → (first_failure a b ≡ "") ↔ ((a ≡ "") × (b ≡ ""))
first_failure-none a b = elim (Bool-cases (str_eq a "")) [
  | inl e ↦ let p = (eq_iff a "").0 e in rw e (λ h. (p, h), λ h. h.1)
  | inr e ↦ rw e (λ h. absurd (str_eq-false a "" e h), λ h. absurd (str_eq-false a "" e h.0))
]

pub fail_unless-none :
    (ok : Bool) (rule : String) → str_eq rule "" ≡ false → (fail_unless ok rule ≡ "") ↔ (ok ≡ true)
fail_unless-none true rule n = (λ h. refl, λ h. refl)
fail_unless-none false rule n = (λ h. absurd (str_eq-false rule "" n h), λ h. cc)

module _ (rules : Rules) where
  -- Every pattern matches.
  abbrev pub MatchesAll : List String → List ℕ → Type 0
  MatchesAll regexes value = All (λ regex. matches_field_regex rules regex value ≡ true) regexes

  match_all-MatchesAll :
      (regexes : List String) (value : List ℕ)
      → (match_all rules regexes value ≡ "") ↔ MatchesAll regexes value
  unfolding match_all
  match_all-MatchesAll [] value = (λ h. tt, λ h. refl)
  match_all-MatchesAll (regex ∷ regexes) value =
      let (from, to) = match_all-MatchesAll regexes value in
      elim (Bool-cases (matches_field_regex rules regex value)) [
        | inl e ↦ rw e (λ h. (refl, from h), λ h. to h.1)
        | inr e ↦ rw e (λ h. cc, λ h. cc)
      ]

  -- The check holds of the canonical form, which the patterns see.
  abbrev pub Checked : Option String → List String → List ℕ → Type 0
  Checked none regexes value = MatchesAll regexes value
  Checked (some check) regexes value =
      (passes_check rules check (normalise_for_check check value) ≡ true)
      × MatchesAll regexes (normalise_for_check check value)

  non_empty-check :
      (o : Option String) (check : String) → if_non_empty o ≡ some check → str_eq check "" ≡ false
  non_empty-check none check h = cc
  non_empty-check (some s) check h = elim (Bool-cases (str_eq s "")) [
    | inl e ↦ cc (rw e at h)
    | inr e ↦ same s check (rw e at h) e
  ]
    where
      same : (s c : String) → some s ≡ some c → str_eq s "" ≡ false → str_eq c "" ≡ false
      same s c p q = let r : s ≡ c = cc in rw r at q

  check_then_match-Checked :
      (o : Option String) (regexes : List String) (value : List ℕ)
      → ((check : String) → o ≡ some check → str_eq check "" ≡ false)
      → (check_then_match rules o regexes value ≡ "") ↔ Checked o regexes value
  unfolding check_then_match apply_check
  check_then_match-Checked none regexes value n = match_all-MatchesAll regexes value
  check_then_match-Checked (some check) regexes value n =
      let (both, of_both) =
        first_failure-none (apply_check rules check value)
          (match_all rules regexes (normalise_for_check check value)) in
      let (from, to) = match_all-MatchesAll regexes (normalise_for_check check value) in
      let (passed, of_passed) =
        fail_unless-none (passes_check rules check (normalise_for_check check value)) check
          (n check refl) in
      (λ h. let (a, b) = both h in (passed a, from b), λ h. of_both (of_passed h.0, to h.1))

  module _ (r : List (Row SubFieldEntry)) (t value : String) (supplied : List String) where
    -- What Validate promises of a value: it is empty, or of an unknown type, or it satisfies the primitive, the check and every
    -- pattern.
    abbrev pub Accepted : Type 0
    Accepted =
        (value ≡ "")
        ⊎ ((resolve r t).known ≡ false)
        ⊎ ((apply_primitive rules (resolve r t).input (resolve r t).entries value
                (options_for r t supplied)
              ≡ "")
            × Checked (if_non_empty (resolve r t).check) (resolve r t).validations (codes value))

    -- A value is valid exactly if it is empty, or its type is not known, or the primitive takes
    -- it, the check holds of its canonical form and every pattern of the type and its ancestors
    -- matches that form.
    pub is_field_value_valid-Accepted :
        (is_field_value_valid rules r t value supplied ≡ true) ↔ Accepted
    unfolding is_field_value_valid
    is_field_value_valid-Accepted = elim (Bool-cases (str_eq value "")) [
      | inl e ↦ (λ h. inl ((eq_iff value "").0 e), λ h. rw e refl)
      | inr e ↦ rw e (of_type (resolve r t).known refl (str_eq-false value "" e))
    ]
      where
        checked :
            (check_then_match rules
                (if_non_empty (resolve r t).check)
                (resolve r t).validations
                (codes value)
              ≡ "")
            ↔ Checked (if_non_empty (resolve r t).check) (resolve r t).validations (codes value)
        checked =
            check_then_match-Checked (if_non_empty (resolve r t).check) (resolve r t).validations
              (codes value) (non_empty-check (resolve r t).check)

        primitive : String
        primitive =
            apply_primitive rules (resolve r t).input (resolve r t).entries value
              (options_for r t supplied)

        rest : String
        rest =
            check_then_match rules (if_non_empty (resolve r t).check) (resolve r t).validations
              (codes value)

        of_type :
            (b : Bool)
            → (resolve r t).known ≡ b
            → value ≢ ""
            → (str_eq (if not b then "" else first_failure primitive rest) "" ≡ true) ↔ Accepted
        of_type false e n = (λ h. inr (inl e), λ h. refl)
        of_type true e n = (
          λ h.
              let (a, b) = (first_failure-none primitive rest).0 ((eq_iff _ "").0 h) in
              inr (inr (a, checked.0 b)),
          λ h. back h,
        )
          where
            back : Accepted → str_eq (first_failure primitive rest) "" ≡ true
            back (inl h) = absurd (n h)
            back (inr (inl h)) = absurd (opposite e h)
            back (inr (inr h)) =
                rw ((first_failure-none primitive rest).1 (h.0, checked.1 h.1)) refl

    -- A value of a choice type that is valid is one of the options, the row's own or else those
    -- that the caller supplies.
    pub valid-InDomain :
        value ≢ ""
        → (resolve r t).known ≡ true
        → (resolve r t).input ≡ some "list"
        → is_field_value_valid rules r t value supplied ≡ true
        → (os : List String) × (options_for r t supplied ≡ some os)
          × (contains_string os value ≡ true)
    unfolding apply_primitive
    valid-InDomain n k i h = elim (is_field_value_valid-Accepted.0 h) [
      | inl e ↦ absurd (n e)
      | inr e ↦ elim e [
        | inl l ↦ absurd (opposite k l)
        | inr l ↦ in_options (options_for r t supplied) refl (rw i at l.0)
      ]
    ]
      where
        in_options :
            (o : Option (List String))
            → options_for r t supplied ≡ o
            → in_domain rules (λ os. contains_string os value) o "list" ≡ ""
            → (os : List String) × (options_for r t supplied ≡ some os)
              × (contains_string os value ≡ true)
        in_options none e h = cc
        in_options (some os) e h =
            (os, e, (fail_unless-none (contains_string os value) "list" refl).0 h)

-- ===== src/FieldTypes/Objects.antt =====
-- Which objects a composite, file or pages type accepts (companydata/fieldtypes.go:
-- validateFieldObject).
use company_data_go.Prelude.{
  ◌≡◌, ◌↔◌, refl, ◌⊎◌, inl, inr, String, Bool, true, false, Bool-cases, not, ◌&&◌, Option, none,
  some, List, [], ◌∷◌, All, str_eq, eq_iff, if◌then◌else◌,
}
use company_data_go.Json.{Value, Fields, end, field, get}
use company_data_go.Keys.{opposite}
use company_data_go.FieldTypes.Registry.{contains_string}
use company_data_go.FieldTypes.Values.{
  SubFieldEntry, Rules, first_failure, validate_envelope_member,
}
use company_data_go.FieldTypes.Validate.{
  insert_entry, entries_onto, entries_by_key, find_entry, is_given, is_entry_value, member_failure,
  members_failure, required_failure, object_failure, validate_field_object,
}
use company_data_go.FieldTypes.Accepted.{first_failure-none, fail_unless-none, str_eq-false}

abbrev IsKeyed : SubFieldEntry → Type 0
IsKeyed e = str_eq e.key "" ≡ false

insert_entry-IsKeyed :
    (es : List SubFieldEntry) (e : SubFieldEntry)
    → All IsKeyed es
    → IsKeyed e
    → All IsKeyed (insert_entry es e)
insert_entry-IsKeyed [] e h k = (k, tt)
insert_entry-IsKeyed (x ∷ es) e h k =
    step (str_eq x.key e.key) (insert_entry es e) (insert_entry-IsKeyed es e h.1 k)
  where
    step :
        (b : Bool) (rest : List SubFieldEntry)
        → All IsKeyed rest
        → All IsKeyed (if b then e ∷ es else x ∷ rest)
    step true rest r = (k, h.1)
    step false rest r = (h.0, r)

entries_onto-IsKeyed :
    (fields es : List SubFieldEntry) → All IsKeyed es → All IsKeyed (entries_onto es fields)
entries_onto-IsKeyed [] es h = h
entries_onto-IsKeyed (e ∷ fields) es h =
    entries_onto-IsKeyed fields _ (added (str_eq e.key "") refl)
  where
    added : (b : Bool) → str_eq e.key "" ≡ b → All IsKeyed (if b then es else insert_entry es e)
    added true k = h
    added false k = insert_entry-IsKeyed es e h k

find_entry-IsKeyed :
    (es : List SubFieldEntry) (key : String) (e : SubFieldEntry)
    → All IsKeyed es
    → find_entry es key ≡ some e
    → str_eq key "" ≡ false
find_entry-IsKeyed [] key e h k = cc
find_entry-IsKeyed (x ∷ es) key e h k = elim (Bool-cases (str_eq x.key key)) [
  | inl p ↦ rw ((eq_iff x.key key).0 p) at (h.0)
  | inr p ↦ find_entry-IsKeyed es key e h.1 (rw p at k)
]

module _ (rules : Rules) (entries : List SubFieldEntry) (envelope : List String) where
  -- A member of the object: an entry with a value that the entry takes, or a member of the
  -- envelope with its own shape.
  abbrev pub IsMember : String → Value → Type 0
  IsMember key raw =
      ((e : SubFieldEntry) × (find_entry entries key ≡ some e)
        × (is_entry_value rules e raw ≡ true))
      ⊎ ((find_entry entries key ≡ none)
          × (contains_string envelope key ≡ true)
          × (validate_envelope_member rules key raw ≡ ""))

  abbrev pub AllMembers : Fields → Type 0
  AllMembers end = Unit
  AllMembers (field key raw m) = IsMember key raw × AllMembers m

  -- Each required entry has a value.
  abbrev pub Given : Fields → SubFieldEntry → Type 0
  Given obj e = e.required ≡ true → is_given (get obj e.key) ≡ true

  member_failure-IsMember :
      (key : String) (raw : Value)
      → All IsKeyed entries
      → (member_failure rules envelope (find_entry entries key) key raw ≡ "") ↔ IsMember key raw
  member_failure-IsMember key raw keyed = cases (find_entry entries key) refl
    where
      cases :
          (o : Option SubFieldEntry)
          → find_entry entries key ≡ o
          → (member_failure rules envelope o key raw ≡ "") ↔ IsMember key raw
      cases (some e) k =
          let (from, to) =
            fail_unless-none (is_entry_value rules e raw) key
              (find_entry-IsKeyed entries key e keyed k) in
          (λ h. inl (e, k, from h), λ h. to (entry h))
        where
          entry : IsMember key raw → is_entry_value rules e raw ≡ true
          entry (inl (x, p, q)) = let same : x ≡ e = cc in rw same at q
          entry (inr (p, q, s)) = cc
      cases none k = named (contains_string envelope key) refl
        where
          of_envelope : IsMember key raw → validate_envelope_member rules key raw ≡ ""
          of_envelope (inl (x, p, q)) = cc
          of_envelope (inr h) = h.2

          outside : IsMember key raw → contains_string envelope key ≡ false → ⊥
          outside (inl (x, p, q)) c = cc
          outside (inr h) c = opposite (h.1) c

          named :
              (b : Bool)
              → contains_string envelope key ≡ b
              → ((if b then validate_envelope_member rules key raw else "unknown_key") ≡ "")
                ↔ IsMember key raw
          named true c = (λ h. inr (k, c, h), λ h. of_envelope h)
          named false c = (λ h. cc, λ h. absurd (outside h c))

  members_failure-AllMembers :
      (obj : Fields)
      → All IsKeyed entries
      → (members_failure rules entries envelope obj ≡ "") ↔ AllMembers obj
  unfolding members_failure
  members_failure-AllMembers end keyed = (λ h. tt, λ h. refl)
  members_failure-AllMembers (field key raw m) keyed =
      let (both, of_both) =
        first_failure-none (member_failure rules envelope (find_entry entries key) key raw)
          (members_failure rules entries envelope m) in
      let (one, of_one) = member_failure-IsMember key raw keyed in
      let (rest, of_rest) = members_failure-AllMembers m keyed in
      (λ h. let (a, b) = both h in (one a, rest b), λ h. of_both (of_one h.0, of_rest h.1))

required_failure-Given :
    (rules : Rules) (envelope : List String) (all es : List SubFieldEntry) (obj : Fields)
    → All IsKeyed es
    → (required_failure rules es obj ≡ "") ↔ All (Given rules all envelope obj) es
unfolding required_failure
required_failure-Given rules envelope all [] obj keyed = (λ h. tt, λ h. refl)
required_failure-Given rules envelope all (e ∷ es) obj keyed =
    step e.required (is_given (get obj e.key)) refl refl
      (required_failure-Given rules envelope all es obj keyed.1)
  where
    step :
        (q g : Bool)
        → e.required ≡ q
        → is_given (get obj e.key) ≡ g
        → (required_failure rules es obj ≡ "") ↔ All (Given rules all envelope obj) es
        → ((if q && not g then e.key else required_failure rules es obj) ≡ "")
          ↔ (Given rules all envelope obj e × All (Given rules all envelope obj) es)
    step false g p k (from, to) = (λ h. (λ r. cc, from h), λ h. to h.1)
    step true true p k (from, to) = (λ h. (λ r. k, from h), λ h. to h.1)
    step true false p k (from, to) =
        (λ h. absurd (str_eq-false e.key "" keyed.0 h), λ h. absurd (opposite (h.0 p) k))

-- The object test passes exactly if the decoder reads from the text an object in which every member
-- is a sub-field with a value that it takes or a member of the envelope with its own shape, and
-- every required sub-field is given.
pub validate_field_object-Members :
    (rules : Rules) (value : String) (fields : List SubFieldEntry) (envelope : List String)
    → (validate_field_object rules value fields envelope ≡ "") ↔ (
        (obj : Fields) × (rules.decode_object value ≡ some obj)
        × AllMembers rules (entries_by_key fields) envelope obj
        × All (Given rules (entries_by_key fields) envelope obj) (entries_by_key fields))
unfolding validate_field_object
validate_field_object-Members rules value fields envelope = decoded (rules.decode_object value) refl
  where
    entries : List SubFieldEntry
    entries = entries_by_key fields

    keyed : All IsKeyed entries
    keyed = entries_onto-IsKeyed fields [] tt

    decoded :
        (o : Option Fields)
        → rules.decode_object value ≡ o
        → (object_failure rules entries envelope o ≡ "") ↔ (
            (obj : Fields) × (rules.decode_object value ≡ some obj)
            × AllMembers rules entries envelope obj
            × All (Given rules entries envelope obj) entries)
    decoded none e = (λ h. cc, λ h. cc)
    decoded (some obj) e =
        let (both, _) =
          first_failure-none (members_failure rules entries envelope obj)
            (required_failure rules entries obj) in
        let (members, _) = members_failure-AllMembers rules entries envelope obj keyed in
        let (given, _) = required_failure-Given rules envelope entries entries obj keyed in
        (λ h. let (a, b) = both h in (obj, e, members a, given b), λ h. back h)
      where
        back :
            ((x : Fields) × (rules.decode_object value ≡ some x)
              × AllMembers rules entries envelope x
              × All (Given rules entries envelope x) entries)
            → first_failure
                (members_failure rules entries envelope obj)
                (required_failure rules entries obj)
              ≡ ""
        back (x, p, m, g) =
            let same : x ≡ obj = cc in
            (first_failure-none (members_failure rules entries envelope obj)
                (required_failure rules entries obj)).1
              (
                (members_failure-AllMembers rules entries envelope obj keyed).1 (rw same at m),
                (required_failure-Given rules envelope entries entries obj keyed).1 (rw same at g),
              )

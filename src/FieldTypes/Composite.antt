-- ===== src/FieldTypes/Composite.antt =====
-- Which values the composite, file and pages types accept (companydata/fieldtypes.go: Validate,
-- applyPrimitive, validateFieldObject).
use company_data_go.Prelude.{
  ◌≡◌, ◌≢◌, ◌↔◌, refl, ◌⊎◌, inl, inr, String, true, Option, some, List, [], All, codes,
}
use company_data_go.Json.{Fields}
use company_data_go.Keys.{opposite}
use company_data_go.FieldTypes.Registry.{Row, if_non_empty, resolve}
use company_data_go.FieldTypes.Tree.{options_for}
use company_data_go.FieldTypes.Values.{SubFieldEntry, Rules, envelope_members}
use company_data_go.FieldTypes.Validate.{
  entries_by_key, primitive_of, apply_primitive, validate_field_object, is_field_value_valid,
}
use company_data_go.FieldTypes.Accepted.{Checked, is_field_value_valid-Accepted}
use company_data_go.FieldTypes.Objects.{AllMembers, Given, validate_field_object-Members}

-- The primitives whose values are objects, with the members that every such object may have.
abbrev pub IsObjectInput : String → List String → Type 0
IsObjectInput input envelope =
    ((input ≡ "composite") × (envelope ≡ []))
    ⊎ (((input ≡ "file") ⊎ (input ≡ "pages")) × (envelope ≡ envelope_members))

module _ (rules : Rules) where
  -- The decoder reads an object from the text, its members are sub-fields with values that they take
  -- or members of the envelope with their own shapes, and every required sub-field is given.
  abbrev pub IsObject : String → List SubFieldEntry → List String → Type 0
  IsObject value fields envelope =
      (obj : Fields) × (rules.decode_object value ≡ some obj)
      × AllMembers rules (entries_by_key fields) envelope obj
      × All (Given rules (entries_by_key fields) envelope obj) (entries_by_key fields)

  object_primitive :
      (input : String) (envelope : List String) (fields : List SubFieldEntry) (value : String)
      (options : Option (List String))
      → IsObjectInput input envelope
      → primitive_of rules input fields value options
        ≡ validate_field_object rules value fields envelope
  object_primitive input envelope fields value options (inl (p, q)) = rw (p, q) refl
  object_primitive input envelope fields value options (inr (inl p, q)) = rw (p, q) refl
  object_primitive input envelope fields value options (inr (inr p, q)) = rw (p, q) refl

  module _ (r : List (Row SubFieldEntry)) (t value : String) (supplied : List String)
      (input : String) (envelope : List String) where
    applied :
        IsObjectInput input envelope
        → (resolve r t).input ≡ some input
        → apply_primitive rules
            (resolve r t).input
            (resolve r t).entries
            value
            (options_for r t supplied)
          ≡ validate_field_object rules value (resolve r t).entries envelope
    unfolding apply_primitive
    applied o i = rw i (object_primitive input envelope (resolve r t).entries value _ o)

    -- A text that is not empty is a valid value of a known composite, file or pages type exactly if
    -- the decoder reads from it an object in which every member is a sub-field with a value that it
    -- takes or a member of the envelope with its own shape and every required sub-field is given,
    -- and the text passes the check and the patterns of the type.
    pub is_field_value_valid-IsObject :
        IsObjectInput input envelope
        → value ≢ ""
        → (resolve r t).known ≡ true
        → (resolve r t).input ≡ some input
        → (is_field_value_valid rules r t value supplied ≡ true) ↔ (
            IsObject value (resolve r t).entries envelope
            × Checked rules
                (if_non_empty (resolve r t).check)
                (resolve r t).validations
                (codes value))
    is_field_value_valid-IsObject o n k i = (
      λ h. elim ((is_field_value_valid-Accepted rules r t value supplied).0 h) [
        | inl e ↦ absurd (n e)
        | inr e ↦ elim e [
          | inl l ↦ absurd (opposite k l)
          | inr l ↦ (members.0 (rw (applied o i) at l.0), l.1)
        ]
      ],
      λ h.
          (is_field_value_valid-Accepted rules r t value supplied).1
            (inr (inr (rw (applied o i) (members.1 h.0), h.1))),
    )
      where
        members :
            (validate_field_object rules value (resolve r t).entries envelope ≡ "")
            ↔ IsObject value (resolve r t).entries envelope
        members = validate_field_object-Members rules value (resolve r t).entries envelope

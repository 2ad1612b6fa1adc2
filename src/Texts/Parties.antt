-- ===== src/Texts/Parties.antt =====
-- The tags whose values a starter compiles (companydata/flowtext.go: NonOwnerPartyTags).
use company_data_go.Prelude.{
  ℕ, String, Bool, false, not, ◌&&◌, ◌||◌, Option, none, some, List, [], ◌∷◌, ◌++◌, codes, of_codes,
  str_eq, ◌==◌, if◌then◌else◌,
}
use company_data_go.Json.{Value, string, object, Items, nil, cons, Fields, get, text_or_empty}
use company_data_go.FieldTypes.Registry.{contains_string}
use company_data_go.Constants.Plugins.{list_in}
use company_data_go.Plugins.Elements.{Placed, each_element}
use company_data_go.Plugins.Privacy.{base_of}
use company_data_go.Texts.Tags.{flow_text_tags}

pub record PartyTag : Type 0 where
  pub tag : String
  pub party : String
  pub field_key : String

abbrev pub tags_of : List PartyTag → List String
tags_of [] = []
tags_of (t ∷ ts) = t.tag ∷ tags_of ts

-- The text behind the first dot, if there is one.
abbrev after_dot : List ℕ → Option (List ℕ)
after_dot [] = none
after_dot (c ∷ cs) = let rest = after_dot cs in if c == b'.' then some cs else rest

abbrev text_or : String → String → String
text_or a b = if str_eq a "" then b else a

-- The first of the three that is a text and not empty.
abbrev pub body_of : Fields → String
body_of el =
    text_or (text_or_empty (get el "body"))
      (text_or (text_or_empty (get el "text")) (text_or_empty (get el "label")))

-- `to_lower` is strings.ToLower.
module _ (to_lower : String → String) where
  abbrev has_key : Option Value → String → Bool
  has_key (some (string k)) party = str_eq (to_lower k) party
  has_key (some _) party = false
  has_key none party = false

  -- `known[party]`.
  abbrev pub is_known : Items → String → Bool
  is_known nil party = false
  is_known (cons (object m) ps) party = has_key (get m "key") party || is_known ps party
  is_known (cons _ ps) party = is_known ps party

  abbrev type_in : Option Value → Option String
  type_in (some (string t)) = some t
  type_in (some _) = none
  type_in none = none

  abbrev later_or : Option String → Option String → Option String
  later_or (some t) o = some t
  later_or none o = o

  -- `types[party]`, which the last party with the key and a type sets.
  abbrev pub type_of : Items → String → Option String
  type_of nil party = none
  type_of (cons (object m) ps) party =
      later_or (type_of ps party)
        (if has_key (get m "key") party then type_in (get m "type") else none)
  type_of (cons _ ps) party = type_of ps party

  abbrev pub is_owner : Option String → Bool
  is_owner none = false
  is_owner (some t) = str_eq t "owner"

  abbrev pub is_non_owner : Items → String → Bool
  is_non_owner parties party = is_known parties party && not (is_owner (type_of parties party))

  module _ (parties : Items) where
    abbrev pub add_if : Bool → PartyTag → List PartyTag → List PartyTag
    add_if b t out = if b then out ++ (t ∷ []) else out

    abbrev pub add_behind : String → Option (List ℕ) → List PartyTag → List PartyTag
    add_behind tag none out = out
    add_behind tag (some rest) out =
        add_if (is_non_owner parties (base_of tag) && not (contains_string (tags_of out) tag))
          (record { tag = tag; party = base_of tag; field_key = of_codes rest }) out

    unfoldable pub add_tags : List String → List PartyTag → List PartyTag
    add_tags [] out = out
    add_tags (tag ∷ tags) out = add_tags tags (add_behind tag (after_dot (codes tag)) out)

    unfoldable pub add_texts : List Placed → List PartyTag → List PartyTag
    unfolding add_tags
    add_texts [] out = out
    add_texts (p ∷ ps) out = add_texts ps (
        if str_eq (text_or_empty (get p.element "kind")) "text"
        then add_tags (flow_text_tags (body_of p.element)) out
        else out)

  unfoldable pub non_owner_party_tags : Fields → List PartyTag
  unfolding add_texts
  non_owner_party_tags definition =
      add_texts (list_in (get definition "parties")) (each_element definition) []

-- ===== src/Texts/Examples.antt =====
-- A flow with a text that names tags of both parties; the theorem on tags at it.
use company_data_go.Prelude.{◌≡◌, refl, String, [], ◌∷◌}
use company_data_go.Json.{Value, string, array, object, nil, cons, Fields, end, field, get}
use company_data_go.Constants.Plugins.{list_in}
use company_data_go.Plugins.Elements.{each_element}
use company_data_go.Plugins.Privacy.{base_of}
use company_data_go.Keys.{Distinct}
use company_data_go.Texts.Tags.{flow_text_tags}
use company_data_go.Texts.Parties.{tags_of, non_owner_party_tags}
use company_data_go.Texts.Named.{AllNamed, non_owner_party_tags-Named}

escaped : flow_text_tags "\\{{a}} {{B}} {{b}}" ≡ "b" ∷ []
unfolding flow_text_tags
escaped = refl

in_html : flow_text_tags "<b>{{ Buyer.Name }}</b> {<i>{a}}" ≡ "buyer.name" ∷ "a" ∷ []
unfolding flow_text_tags
in_html = refl

in_address : flow_text_tags "[a href={{x.y}}]" ≡ "x.y" ∷ []
unfolding flow_text_tags
in_address = refl

abbrev party : String → String → Value
party key type = object (field "key" (string key) (field "type" (string type) end))

abbrev a_text : Value
a_text =
    object
      (field "kind" (string "text") (field "body" (string "{{us.name}} and {{buyer.name}}") end))

abbrev a_flow : Fields
a_flow = field "parties" (array (cons (party "us" "owner") (cons (party "buyer" "person") nil))) (
    field "nodes"
      (array (
        cons (object (field "key" (string "n") (field "elements" (array (cons a_text nil)) end)))
          nil))
      end)

abbrev same : String → String
same s = s

buyer_tag :
    non_owner_party_tags same a_flow
    ≡ record { tag = "buyer.name"; party = "buyer"; field_key = "name" } ∷ []
unfolding non_owner_party_tags each_element flow_text_tags base_of
buyer_tag = refl

non_owner_party_tags-Named_example :
    Distinct (tags_of (non_owner_party_tags same a_flow))
    × AllNamed same
        (list_in (get a_flow "parties"))
        (each_element a_flow)
        (non_owner_party_tags same a_flow)
non_owner_party_tags-Named_example = non_owner_party_tags-Named same a_flow

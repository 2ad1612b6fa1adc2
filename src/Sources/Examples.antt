-- ===== src/Sources/Examples.antt =====
-- A leaf with two held sources; the theorems on sources at it.
use company_data_go.Prelude.{ℕ, suc, ◌≡◌, refl, String, Option, none, List, [], ◌∷◌}
use company_data_go.Json.{
  Value, string, array, object, Items, nil, cons, Fields, end, field, get, put,
}
use company_data_go.Constants.Plugins.{list_in}
use company_data_go.Plugins.Pass.{ok}
use company_data_go.Sources.Held.{HeldSource, keys_held, held_sources}
use company_data_go.Keys.{Distinct}
use company_data_go.Sources.Exact.{AllNamed, AllHeld, held_sources-Exact}
use company_data_go.Sources.Generate.{Steps, generate_with_inputs}
use company_data_go.Sources.Uploaded.{Uploads, generate_with_inputs-Posted}

abbrev no_decode : String → Option Value
no_decode s = none

abbrev field_rule : Fields
field_rule = field "source_field" (string "passport") end

abbrev conn_rule : Fields
conn_rule =
    field "source_connection"
      (object (field "party" (string "buyer") (field "request_slug" (string "id") end))) end

-- The field is named twice.
abbrev leaf : Fields
leaf = field "key" (string "leaf") (
    field "outputs"
      (array (
        cons
          (object (
            field "rules"
              (array
                (cons (object field_rule) (cons (object conn_rule) (cons (object field_rule) nil))))
              end))
          nil))
      end)

abbrev a_flow : Fields
a_flow = field "nodes" (array (cons (object leaf) nil)) end

abbrev own_row : Fields
own_row = field "for_user_id" (string "me") (
    field "slug" (string "passport")
      (field "value" (object (field "_enc_file" (string "f1") end)) end))

abbrev files : List (String × String)
files = ("conn:buyer:id", "f2") ∷ []

abbrev two_sources : List HeldSource
two_sources =
    record { source_key = "field:passport"; kind = "field"; slug = "passport"; file = "f1" }
    ∷ record { source_key = "conn:buyer:id"; kind = "conn"; slug = ""; file = "f2" }
    ∷ []

two_held : held_sources no_decode a_flow "leaf" (own_row ∷ []) "me" files ≡ two_sources
unfolding held_sources
two_held = refl

held_sources-Exact_example :
    Distinct (keys_held (held_sources no_decode a_flow "leaf" (own_row ∷ []) "me" files))
    × AllNamed no_decode
        (own_row ∷ [])
        "me"
        files
        (list_in (get leaf "outputs"))
        (held_sources no_decode a_flow "leaf" (own_row ∷ []) "me" files)
    × AllHeld no_decode
        (own_row ∷ [])
        "me"
        files
        (list_in (get leaf "outputs"))
        (held_sources no_decode a_flow "leaf" (own_row ∷ []) "me" files)
held_sources-Exact_example =
    held_sources-Exact no_decode (own_row ∷ []) "me" files a_flow leaf "leaf" refl

-- The world counts the requests; every answer names an input.
abbrev some_steps : Steps ℕ ℕ
some_steps = record {
  new_one_time_key = λ w. (ok 0, w);
  envelope_of = λ src w. (ok "{}", w);
  one_time_key_seal = λ otk s w. (ok (string s), w);
  one_time_key_bundle_with = λ answers otk w. (ok answers, w);
  post = λ path body w. (ok (object (field "input" (string "i") end)), suc w);
}

three_posts :
    generate_with_inputs some_steps "/generate" end two_sources 0
    ≡ (ok (object (field "input" (string "i") end)), 3)
unfolding generate_with_inputs
three_posts = refl

generate_with_inputs-Posted_example :
    (otk : ℕ) × (body : Fields) × (inputs : Items) × (w1 w2 w3 : ℕ) × (some_steps.new_one_time_key 0
      ≡ (ok otk, w1))
    × Uploads some_steps "/generate" otk two_sources w1 inputs w2
    × (some_steps.one_time_key_bundle_with end otk w2 ≡ (ok body, w3))
    × (some_steps.post "/generate" (put body "inputs" (array inputs)) w3
        ≡ (ok (object (field "input" (string "i") end)), 3))
generate_with_inputs-Posted_example =
    generate_with_inputs-Posted some_steps "/generate" end two_sources 0 3 _ three_posts

-- ===== src/Sources/Held.antt =====
-- The sources that are held for a leaf of a flow (companydata/flowsources.go: fileRef, heldSources;
-- companydata/client.go: nodeByKey).
use Prim.Native.String.{◌++◌ as ◌+++◌}
use company_data_go.Prelude.{
  String, Option, none, some, List, [], ◌∷◌, ◌++◌, not, ◌&&◌, str_eq, if◌then◌else◌,
}
use company_data_go.Json.{Value, string, object, Items, nil, cons, Fields, get, text_or_empty}
use company_data_go.FieldTypes.Registry.{contains_string}
use company_data_go.Constants.Plugins.{list_in}
use company_data_go.Plugins.Elements.{as_string, text_under}
use company_data_go.Plugins.Inputs.{object_under}

abbrev pub node_by_key : Items → String → Option Fields
node_by_key nil key = none
node_by_key (cons (object n) ns) key =
    if str_eq (as_string (get n "key")) key then some n else node_by_key ns key
node_by_key (cons _ ns) key = node_by_key ns key

-- The objects of a list.
abbrev pub objects_of : Items → List Fields
objects_of nil = []
objects_of (cons (object m) xs) = m ∷ objects_of xs
objects_of (cons _ xs) = objects_of xs

-- The rules of an output.
abbrev pub rules_of : Value → List Fields
rules_of output = objects_of (list_in (get (object_under (some output)) "rules"))

-- A source that is held; `slug` is "" for a source of a connection.
pub record HeldSource : Type 0 where
  pub source_key : String
  pub kind : String
  pub slug : String
  pub file : String

abbrev pub keys_held : List HeldSource → List String
keys_held [] = []
keys_held (h ∷ hs) = h.source_key ∷ keys_held hs

-- A source that is not held already is put behind the others.
abbrev pub add_held : Option HeldSource → List HeldSource → List HeldSource
add_held none out = out
add_held (some h) out =
    if contains_string (keys_held out) h.source_key then out else out ++ (h ∷ [])

-- `decode` is json.Unmarshal of a text into a value.
module _ (decode : String → Option Value) where
  abbrev file_in : Option Value → String
  file_in (some (object m)) = text_or_empty (get m "_enc_file")
  file_in (some _) = ""
  file_in none = ""

  unfoldable pub file_ref : Option Value → String
  file_ref (some (string s)) = file_in (decode s)
  file_ref v = file_in v

  module _ (answers : List Fields) (own_user : String) (source_files : List (String × String)) where
    -- The file of a row of the answers, if the row is the own copy for the slug.
    abbrev row_file : Fields → String → String
    row_file row slug =
        if str_eq (as_string (get row "for_user_id")) own_user
          && str_eq (as_string (get row "slug")) slug
          && not (str_eq slug "")
        then file_ref (get row "value")
        else ""

    abbrev or_text : String → String → String
    or_text later earlier = if str_eq later "" then earlier else later

    abbrev file_among : List Fields → String → String
    file_among [] slug = ""
    file_among (row ∷ rows) slug = or_text (file_among rows slug) (row_file row slug)

    -- `ownFiles[slug]`: the last of the own copies that is a file, or "".
    unfoldable pub own_file : String → String
    unfolding file_ref
    own_file slug = if str_eq own_user "" then "" else file_among answers slug

    abbrev pub field_source : String → String → Option HeldSource
    field_source field file =
        if str_eq file ""
        then none
        else some
            (record { source_key = "field:" +++ field; kind = "field"; slug = field; file = file })

    abbrev pub conn_key : String → String → String
    conn_key party slug = "conn:" +++ (party +++ (":" +++ slug))

    abbrev pub conn_source : String → String → Option HeldSource
    conn_source key file =
        if str_eq file ""
        then none
        else some (record { source_key = key; kind = "conn"; slug = ""; file = file })

    abbrev pub conn_of : Option Value → Option Value → Option HeldSource
    conn_of (some (string party)) (some (string slug)) =
        conn_source (conn_key party slug) (text_under source_files (conn_key party slug))
    conn_of _ _ = none

    abbrev pub conn_in : Option Value → Option HeldSource
    conn_in (some (object conn)) = conn_of (get conn "party") (get conn "request_slug")
    conn_in (some _) = none
    conn_in none = none

    -- What a rule names, if it is held: a field before a connection.
    unfoldable pub source_of : Fields → Option HeldSource
    unfolding own_file
    source_of rule =
        if str_eq (text_or_empty (get rule "source_field")) ""
        then conn_in (get rule "source_connection")
        else field_source (text_or_empty (get rule "source_field"))
            (own_file (text_or_empty (get rule "source_field")))

    unfoldable pub add_rules : List Fields → List HeldSource → List HeldSource
    unfolding source_of
    add_rules [] out = out
    add_rules (rule ∷ rules) out = add_rules rules (add_held (source_of rule) out)

    unfoldable pub add_outputs : Items → List HeldSource → List HeldSource
    unfolding add_rules
    add_outputs nil out = out
    add_outputs (cons output outputs) out = add_outputs outputs (add_rules (rules_of output) out)

    abbrev pub of_node : Option Fields → List HeldSource
    of_node none = []
    of_node (some n) = add_outputs (list_in (get n "outputs")) []

  unfoldable pub held_sources :
      Fields → String → List Fields → String → List (String × String) → List HeldSource
  unfolding add_outputs
  held_sources definition node_key answers own_user source_files =
      of_node answers own_user source_files
        (node_by_key (list_in (get definition "nodes")) node_key)

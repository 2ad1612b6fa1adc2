-- ===== src/Plugins/Elements.antt =====
-- The elements of a flow and its live answers (companydata/plugin.go: forEachElement,
-- answerElements, pluginSlugsOf, liveFlowAnswers; companydata/client.go: nodeByKey, partyOf,
-- fieldElementForSlug; companydata/models.go: FlowRun, asString, coerceBool).
use company_data_go.Prelude.{
  ℕ, ◌+◌, String, Bool, false, not, ◌&&◌, ◌||◌, Option, none, some, List, [], ◌∷◌, ◌++◌, codes,
  of_codes, eqb, str_eq, leb, if◌then◌else◌,
}
use company_data_go.Json.{
  Value, boolean, number, float64, string, object, Items, nil, cons, Fields, end, field, get, put,
}
use company_data_go.Floats.{float_eq}
use company_data_go.Buffer.Decimal.{trim_space}
use company_data_go.Flow.Scalars.{FloatText}
use company_data_go.Constants.Expr.{FloatMath}
use company_data_go.Constants.Compute.{compute_constants}
use company_data_go.Constants.Plugins.{list_in, expand_plugin_answers}

abbrev pub as_string : Option Value → String
as_string (some (string s)) = s
as_string (some (number t)) = of_codes t
as_string (some (boolean b)) = if b then "true" else "false"
as_string (some _) = ""
as_string none = ""

-- strings.ToLower on the letters of ASCII, the only ones that the texts compared with have.
abbrev ascii_lower : List ℕ → List ℕ
ascii_lower [] = []
ascii_lower (c ∷ cs) = (if is_upper c then c + 32 else c) ∷ ascii_lower cs
  where
    is_upper : ℕ → Bool
    is_upper c = leb b'A' c && leb c b'Z'

abbrev pub coerce_bool : Option Value → Bool
coerce_bool (some (boolean b)) = b
coerce_bool (some (string s)) =
    eqb (ascii_lower (trim_space (codes s))) (codes "true")
    || eqb (ascii_lower (trim_space (codes s))) (codes "1")
coerce_bool (some (number t)) = not (eqb t (codes "0")) && not (eqb t [])
coerce_bool (some (float64 f)) = not (float_eq f 0)
coerce_bool (some _) = false
coerce_bool none = false

-- The fields of a FlowRun that are read here; `private_slugs` is `none` where it is nil.
pub record FlowRun : Type 0 where
  pub definition : Fields
  pub current_node : String
  pub reference_date : String
  pub bindings : List (String × String)
  pub private_slugs : Option (List String)

-- A map of texts; a missing key reads as "".
abbrev pub text_under : List (String × String) → String → String
text_under [] k = ""
text_under ((j, v) ∷ m) k = if str_eq j k then v else text_under m k

-- An element with the key of its node.
pub record Placed : Type 0 where
  pub node : String
  pub element : Fields

abbrev elements_of : String → Items → List Placed
elements_of node nil = []
elements_of node (cons (object m) xs) = record { node = node; element = m } ∷ elements_of node xs
elements_of node (cons _ xs) = elements_of node xs

abbrev elements_in : Items → List Placed
elements_in nil = []
elements_in (cons (object n) ns) =
    elements_of (as_string (get n "key")) (list_in (get n "elements")) ++ elements_in ns
elements_in (cons _ ns) = elements_in ns

unfoldable pub each_element : Fields → List Placed
each_element definition = elements_in (list_in (get definition "nodes"))

abbrev is_answerable : Placed → Bool
is_answerable p =
    not (str_eq (as_string (get p.element "slug")) "")
    && (str_eq (as_string (get p.element "kind")) "field"
        || str_eq (as_string (get p.element "kind")) "plugin")

abbrev or_first {ℓ} : {A : Type ℓ} → Option A → Option A → Option A
or_first (some a) o = some a
or_first none o = o

-- The element of a slug: the last one in the maps that answerElements builds.
abbrev pub element_among : List Placed → String → Option Placed
element_among [] slug = none
element_among (p ∷ ps) slug =
    or_first (element_among ps slug)
      (if is_answerable p && str_eq (as_string (get p.element "slug")) slug then some p else none)

unfoldable pub answer_element : Fields → String → Option Placed
unfolding each_element
answer_element definition slug = element_among (each_element definition) slug

-- `nodeOf[slug]`.
abbrev pub node_of : Option Placed → String
node_of none = ""
node_of (some p) = p.node

abbrev slugs_among : List Placed → List String
slugs_among [] = []
slugs_among (p ∷ ps) =
    let rest = slugs_among ps in
    if str_eq (as_string (get p.element "kind")) "plugin"
      && not (str_eq (as_string (get p.element "slug")) "")
    then as_string (get p.element "slug") ∷ rest
    else rest

unfoldable pub plugin_slugs_of : Fields → List String
unfolding each_element
plugin_slugs_of definition = slugs_among (each_element definition)

abbrev party_among : Items → String → String
party_among nil key = ""
party_among (cons (object n) ns) key =
    if str_eq (as_string (get n "key")) key then as_string (get n "party") else party_among ns key
party_among (cons _ ns) key = party_among ns key

-- The party of the first node with a key.
unfoldable pub party_of : Fields → String → String
party_of definition key = party_among (list_in (get definition "nodes")) key

abbrev field_among : List Placed → String → Option Fields
field_among [] slug = none
field_among (p ∷ ps) slug =
    if str_eq (as_string (get p.element "kind")) "field"
      && str_eq (as_string (get p.element "slug")) slug
    then some p.element
    else field_among ps slug

unfoldable pub field_element_for_slug : Fields → String → Option Fields
unfolding each_element
field_element_for_slug definition slug = field_among (each_element definition) slug

-- The draft's answers of the current step over the stored ones.
unfoldable pub overlay : FlowRun → Fields → Fields → Fields
unfolding answer_element
overlay run end merged = merged
overlay run (field k v draft) merged = overlay run draft (
    if str_eq (node_of (answer_element run.definition k)) run.current_node
      && not (str_eq run.current_node "")
    then put merged k v
    else merged)

unfoldable pub live_flow_answers :
    FloatText → FloatMath → (String → Option Value) → FlowRun → (stored draft : Fields) → Fields
unfolding overlay plugin_slugs_of
live_flow_answers text math decode run stored draft =
    compute_constants text math run.reference_date (list_in (get run.definition "constants")) (
      expand_plugin_answers text decode (overlay run draft stored) (plugin_slugs_of run.definition))

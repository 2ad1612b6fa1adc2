-- ===== src/Constants/Expanded.antt =====
-- What the expansion of plugin answers changes, and that the summary of an answer and its view
-- show the same (companydata/flowconstants.go: ExpandPluginAnswers, PluginAnswerSummary,
-- PluginAnswerView).
use Prim.Native.String.{◌++◌ as ◌+++◌}
use company_data_go.Prelude.{
  ℕ, ◌≡◌, refl, ap, ◌∙◌, String, Bool, true, false, Option, none, some, List, [], ◌∷◌, map, All,
  str_eq, if◌then◌else◌,
}
use company_data_go.Json.{
  Value, null, boolean, number, float64, float32, int, int64, string, array, object, Items, nil,
  cons, Fields, get, get-put, get-without, text_or_empty,
}
use company_data_go.Flow.Scalars.{FloatText, flow_str}
use company_data_go.Constants.Expr.{joined}
use company_data_go.Constants.Plugins.{
  plugin_key_usable, list_in, dotted, add_usable, add_all, put_present, add_output, add_block,
  id_text, put_plugin, expand_answer, parse_plugin_plaintext, expand_slugs, expand_plugin_answers,
  separator, PluginView, view_block, values_in, block_text, summary_in, plugin_answer_summary,
  view_in, plugin_answer_view,
}

-- A key that is neither a slug nor a slug with something behind a dot.
abbrev pub IsApart : String → String → Type 0
IsApart j slug = (str_eq slug j ≡ false) × ((key : String) → str_eq (dotted slug key) j ≡ false)

put_present-other :
    (k j : String) (v : Option Value) (out : Fields)
    → str_eq k j ≡ false
    → get (put_present k v out) j ≡ get out j
put_present-other k j none out h = refl
put_present-other k j (some null) out h = refl
put_present-other k j (some (boolean b)) out h = get-put out k j _ ∙ rw h refl
put_present-other k j (some (number b)) out h = get-put out k j _ ∙ rw h refl
put_present-other k j (some (float64 b)) out h = get-put out k j _ ∙ rw h refl
put_present-other k j (some (float32 b)) out h = get-put out k j _ ∙ rw h refl
put_present-other k j (some (int b)) out h = get-put out k j _ ∙ rw h refl
put_present-other k j (some (int64 b)) out h = get-put out k j _ ∙ rw h refl
put_present-other k j (some (string b)) out h = get-put out k j _ ∙ rw h refl
put_present-other k j (some (array b)) out h = get-put out k j _ ∙ rw h refl
put_present-other k j (some (object b)) out h = get-put out k j _ ∙ rw h refl

-- `add` leaves the key `j` alone.
abbrev Spares : String → (String → Fields → Fields → Fields) → Type 0
Spares j add = (key : String) (m out : Fields) → get (add key m out) j ≡ get out j

add_usable-Spares :
    (j : String) (add : String → Fields → Fields → Fields)
    → Spares j add
    → (x : Value) (out : Fields) → get (add_usable add x out) j ≡ get out j
add_usable-Spares j add h (object m) out = usable (plugin_key_usable (text_or_empty (get m "key")))
  where
    usable :
        (b : Bool) → get (if b then add (text_or_empty (get m "key")) m out else out) j ≡ get out j
    usable true = h (text_or_empty (get m "key")) m out
    usable false = refl
add_usable-Spares j add h null out = refl
add_usable-Spares j add h (boolean b) out = refl
add_usable-Spares j add h (number b) out = refl
add_usable-Spares j add h (float64 b) out = refl
add_usable-Spares j add h (float32 b) out = refl
add_usable-Spares j add h (int b) out = refl
add_usable-Spares j add h (int64 b) out = refl
add_usable-Spares j add h (string b) out = refl
add_usable-Spares j add h (array b) out = refl

add_all-Spares :
    (j : String) (add : String → Fields → Fields → Fields)
    → Spares j add
    → (xs : Items) (out : Fields) → get (add_all add xs out) j ≡ get out j
unfolding add_all
add_all-Spares j add h nil out = refl
add_all-Spares j add h (cons x xs) out =
    add_all-Spares j add h xs (add_usable add x out) ∙ add_usable-Spares j add h x out

module _ (text : FloatText) (decode : String → Option Value) where
  add_block-Spares : (j slug : String) → IsApart j slug → Spares j (add_block text decode slug)
  add_block-Spares j slug h key m out =
      picked (str_eq (text_or_empty (get m "kind")) "search_select")
    where
      out' : Fields
      out' = put_present (dotted slug key) (get m "value") out

      kept : get out' j ≡ get out j
      kept = put_present-other (dotted slug key) j (get m "value") out (h.1 key)

      picked :
          (b : Bool)
          → get
              (if b
                then put_present
                    (dotted slug (key +++ ".id"))
                    (id_text text decode (get m "id"))
                    out'
                else out')
              j
            ≡ get out j
      picked true =
          put_present-other (dotted slug (key +++ ".id")) j (id_text text decode (get m "id")) out'
            (h.1 (key +++ ".id"))
          ∙ kept
      picked false = kept

  put_plugin-Spares :
      (j slug : String) (o : Option (Fields × Bool)) (out : Fields)
      → IsApart j slug
      → get (put_plugin text decode slug o out) j ≡ get out j
  put_plugin-Spares j slug none out h = refl
  put_plugin-Spares j slug (some (obj, false)) out h = get-without out slug j ∙ rw (h.0) refl
  put_plugin-Spares j slug (some (obj, true)) out h =
      add_all-Spares j (add_output slug)
        (λ key m o. put_present-other (dotted slug key) j (get m "value") o (h.1 key))
        (list_in (get obj "outputs")) _
      ∙ (add_all-Spares j (add_block text decode slug) (add_block-Spares j slug h)
            (list_in (get obj "blocks")) _
          ∙ (get-put out slug j _ ∙ rw (h.0) refl))

  expand_answer-Spares :
      (j slug : String) (o : Option Value) (out : Fields)
      → IsApart j slug
      → get (expand_answer text decode slug o out) j ≡ get out j
  expand_answer-Spares j slug (some (string s)) out h =
      put_plugin-Spares j slug (parse_plugin_plaintext text decode s) out h
  expand_answer-Spares j slug none out h = refl
  expand_answer-Spares j slug (some null) out h = refl
  expand_answer-Spares j slug (some (boolean b)) out h = refl
  expand_answer-Spares j slug (some (number b)) out h = refl
  expand_answer-Spares j slug (some (float64 b)) out h = refl
  expand_answer-Spares j slug (some (float32 b)) out h = refl
  expand_answer-Spares j slug (some (int b)) out h = refl
  expand_answer-Spares j slug (some (int64 b)) out h = refl
  expand_answer-Spares j slug (some (array b)) out h = refl
  expand_answer-Spares j slug (some (object b)) out h = refl

  expand_slugs-Spares :
      (j : String) (answers : Fields) (slugs : List String) (out : Fields)
      → All (IsApart j) slugs
      → get (expand_slugs text decode answers slugs out) j ≡ get out j
  unfolding expand_slugs
  expand_slugs-Spares j answers [] out h = refl
  expand_slugs-Spares j answers (slug ∷ slugs) out h =
      expand_slugs-Spares j answers slugs _ h.1
      ∙ expand_answer-Spares j slug (get answers slug) out h.0

  -- An answer whose key is neither a plugin's slug nor such a slug with a dot and more behind it
  -- is not touched.
  pub expand_plugin_answers-Spares :
      (j : String) (answers : Fields) (slugs : List String)
      → All (IsApart j) slugs
      → get (expand_plugin_answers text decode answers slugs) j ≡ get answers j
  unfolding expand_plugin_answers
  expand_plugin_answers-Spares j answers slugs h = expand_slugs-Spares j answers slugs answers h

  -- The block values of a view, joined by the separator.
  abbrev pub joined_values : Option PluginView → Option (List ℕ)
  joined_values none = none
  joined_values (some view) = some (joined separator (map (λ b. flow_str text b.value) view.blocks))

  map_blocks :
      (bs : List Value)
      → map (block_text text decode) bs
        ≡ map (λ b. flow_str text b.value) (map (view_block text decode) bs)
  map_blocks [] = refl
  map_blocks (b ∷ bs) = ap (λ rest. block_text text decode b ∷ rest) (map_blocks bs)

  -- A stored answer has a summary exactly when it has a view, and then the summary joins the
  -- values of the view's blocks.
  pub plugin_answer_summary-view :
      (plaintext : String)
      → plugin_answer_summary text decode plaintext
        ≡ joined_values (plugin_answer_view text decode plaintext)
  unfolding plugin_answer_summary plugin_answer_view
  plugin_answer_summary-view plaintext = same (parse_plugin_plaintext text decode plaintext)
    where
      same :
          (o : Option (Fields × Bool))
          → summary_in text decode o ≡ joined_values (view_in text decode o)
      same none = refl
      same (some (obj, false)) = refl
      same (some (obj, true)) =
          ap (λ ps. some (joined separator ps))
            (map_blocks (values_in (list_in (get obj "blocks"))))

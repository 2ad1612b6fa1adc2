-- ===== src/Sources/Generate.antt =====
-- The generation of a document with the inputs that are held (companydata/flowsources.go:
-- generateWithInputs, sealedString, sealAnswerValues, responseFile).
use Prim.Native.String.{◌++◌ as ◌+++◌}
use company_data_go.Prelude.{
  String, Bool, true, false, Option, none, some, List, [], ◌∷◌, str_eq, if◌then◌else◌,
}
use company_data_go.Json.{
  Value, null, string, array, object, Items, nil, cons, Fields, end, field, get, put,
}
use company_data_go.Plugins.Elements.{as_string}
use company_data_go.Plugins.Inputs.{object_under}
use company_data_go.Plugins.Pass.{Outcome, ok, failed, CallError, api_error}
use company_data_go.Sources.Held.{HeldSource}

-- The steps of a generation in a world: a one-time key, the envelope of a source, sealing under
-- the key, the bundle of the answers, and a request to the API.
pub record Steps (World Key : Type 0) : Type 0 where
  pub new_one_time_key : World → Outcome Key × World
  pub envelope_of : HeldSource → World → Outcome String × World
  pub one_time_key_seal : Key → String → World → Outcome Value × World
  pub one_time_key_bundle_with : Fields → Key → World → Outcome Fields × World
  pub post : String → Fields → World → Outcome Value × World

-- What an uploaded input is named by in the request.
abbrev pub input_entry : HeldSource → String → Value
input_entry src ident =
    object (field "source_key" (string src.source_key) (field "input" (string ident) end))

abbrev no_input : HeldSource → CallError
no_input src = api_error 0 "" ("generate/inputs answered no input for " +++ src.source_key)

module _ {World Key : Type 0} (steps : Steps World Key) where
  abbrev pub bind :
      {A B : Type 0} → Outcome A × World → (A → World → Outcome B × World) → Outcome B × World
  bind (failed e, w) f = (failed e, w)
  bind (ok a, w) f = f a w

  -- The input that the answer names; then the inputs of the other sources.
  abbrev pub after_upload :
      HeldSource → String → (World → Outcome Items × World) → World → Outcome Items × World
  after_upload src ident rest w =
      if str_eq ident ""
      then (failed (no_input src), w)
      else bind (rest w) (λ inputs w. (ok (cons (input_entry src ident) inputs), w))

  unfoldable pub upload_all : String → Key → List HeldSource → World → Outcome Items × World
  upload_all path otk [] w = (ok nil, w)
  upload_all path otk (src ∷ held) w =
      let rest = upload_all path otk held in
      bind (steps.envelope_of src w) (λ envelope w.
        bind (steps.one_time_key_seal otk envelope w) (λ sealed w.
          bind
            (steps.post (path +++ "/inputs")
              (field "source_key" (string src.source_key) (field "value" sealed end)) w)
            (λ res w. after_upload src (as_string (get (object_under (some res)) "input")) rest w)))

  unfoldable pub generate_with_inputs :
      String → Fields → List HeldSource → World → Outcome Value × World
  unfolding upload_all
  generate_with_inputs path answers held w = bind (steps.new_one_time_key w) (λ otk w.
      bind (upload_all path otk held w) (λ inputs w.
        bind (steps.one_time_key_bundle_with answers otk w)
          (λ body w. steps.post path (put body "inputs" (array inputs)) w)))

-- `encode` is json.Marshal of a value.
module _ (encode : Value → Option String) where
  -- `none` is the error of a value that has no JSON.
  unfoldable pub sealed_string : Value → Option String
  sealed_string (string s) = some s
  sealed_string v = encode v

  -- A value that was changed in place, and whether there was no error.
  abbrev stored : Fields → Option String → Fields × Bool
  stored v none = (v, false)
  stored v (some s) = (put v "value" (string s), true)

  abbrev seal : Fields → Option Value → Fields × Bool
  seal v none = (v, true)
  seal v (some null) = (v, true)
  seal v (some value) = stored v (sealed_string value)

  -- An error leaves what follows as it is.
  abbrev then_items : Fields × Bool → Items → Items × Bool → Items × Bool
  then_items (v, false) items rest = (cons (object v) items, false)
  then_items (v, true) items (items', b) = (cons (object v) items', b)

  abbrev seal_items : Items → Items × Bool
  seal_items nil = (nil, true)
  seal_items (cons (object v) items) = then_items (seal v (get v "value")) items (seal_items items)
  seal_items (cons x items) = let (items', b) = seal_items items in (cons x items', b)

  abbrev with_values : Fields → Items × Bool → Fields × Bool
  with_values a (items, b) = (put a "values" (array items), b)

  abbrev seal_answer : Fields → Option Value → Fields × Bool
  seal_answer a (some (array items)) = with_values a (seal_items items)
  seal_answer a (some _) = (a, true)
  seal_answer a none = (a, true)

  abbrev then_answers : Fields × Bool → List Fields → List Fields × Bool → List Fields × Bool
  then_answers (a, false) answers rest = (a ∷ answers, false)
  then_answers (a, true) answers (answers', b) = (a ∷ answers', b)

  unfoldable pub seal_answer_values : List Fields → List Fields × Bool
  unfolding sealed_string
  seal_answer_values [] = ([], true)
  seal_answer_values (a ∷ answers) =
      then_answers (seal_answer a (get a "values")) answers (seal_answer_values answers)

abbrev file_or_error : String → Outcome String
file_or_error f =
    if str_eq f "" then failed (api_error 0 "" "the upload response carried no file") else ok f

unfoldable pub response_file : Value → Outcome String
response_file body = file_or_error (as_string (get (object_under (some body)) "file"))

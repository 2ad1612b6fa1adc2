-- ===== src/Sources/Uploaded.antt =====
-- What a generation uploads and what it posts (companydata/flowsources.go: generateWithInputs).
use Prim.Native.String.{◌++◌ as ◌+++◌}
use company_data_go.Prelude.{
  ◌≡◌, refl, sym, String, false, Bool-cases, inl, inr, List, [], ◌∷◌, some, str_eq,
}
use company_data_go.Json.{
  Value, string, array, object, Items, nil, cons, Fields, end, field, get, put,
}
use company_data_go.Plugins.Elements.{as_string}
use company_data_go.Plugins.Inputs.{object_under}
use company_data_go.Plugins.Pass.{Outcome, ok, failed}
use company_data_go.Sources.Held.{HeldSource}
use company_data_go.Sources.Generate.{
  Steps, input_entry, bind, after_upload, upload_all, generate_with_inputs,
}

-- The name that the API's answer to an upload gives the input.
abbrev pub name_in : Value → String
name_in answer = as_string (get (object_under (some answer)) "input")

module _ {World Key : Type 0} (steps : Steps World Key) where
  -- From one world to another, the envelope of each source is sealed under the key and uploaded, and
  -- the inputs are the sources, in order, by the names that the answers to these uploads give them.
  abbrev pub Uploads : String → Key → List HeldSource → World → Items → World → Type 0
  Uploads path otk [] w nil v = w ≡ v
  Uploads path otk [] w (cons x inputs) v = ⊥
  Uploads path otk (src ∷ held) w nil v = ⊥
  Uploads path otk (src ∷ held) w (cons x inputs) v =
      (envelope : String) × (sealed answer : Value) × (w1 w2 w3 : World) × (steps.envelope_of src w
        ≡ (ok envelope, w1))
      × (steps.one_time_key_seal otk envelope w1 ≡ (ok sealed, w2))
      × (steps.post (path +++ "/inputs")
            (field "source_key" (string src.source_key) (field "value" sealed end)) w2
          ≡ (ok answer, w3))
      × (str_eq (name_in answer) "" ≡ false)
      × (x
          ≡ object (
              field "source_key" (string src.source_key)
                (field "input" (string (name_in answer)) end)))
      × Uploads path otk held w3 inputs v

  -- A result of a chain is one of its last step.
  bind_ok :
      {A B : Type 0} (r : Outcome A × World) (f : A → World → Outcome B × World) (b : B) (v : World)
      → bind steps r f ≡ (ok b, v)
      → (a : A) × (w : World) × (r ≡ (ok a, w)) × (f a w ≡ (ok b, v))
  bind_ok (failed e, w) f b v h = cc
  bind_ok (ok a, w) f b v h = (a, w, refl, h)

  -- An upload with a name is followed by the rest.
  after_upload_ok :
      (src : HeldSource) (ident : String) (rest : World → Outcome Items × World) (w v : World)
      (inputs : Items)
      → after_upload steps src ident rest w ≡ (ok inputs, v)
      → (i : Items) × (rest w ≡ (ok i, v))
        × (str_eq ident "" ≡ false)
        × (cons (input_entry src ident) i ≡ inputs)
  after_upload_ok src ident rest w v inputs h = elim (Bool-cases (str_eq ident "")) [
    | inl e ↦ let k = rw e at h in cc
    | inr e ↦
        let (i, u, r, k) = bind_ok (rest w) _ inputs v (rw e at h) in
        let there : u ≡ v = cc in (i, rw there at r, e, cc)
  ]

  upload_all-Uploads :
      (path : String) (otk : Key) (held : List HeldSource) (w v : World) (inputs : Items)
      → upload_all steps path otk held w ≡ (ok inputs, v)
      → Uploads path otk held w inputs v
  unfolding upload_all
  upload_all-Uploads path otk [] w v inputs h =
      let same : nil ≡ inputs = cc in let there : w ≡ v = cc in rw (sym same) there
  upload_all-Uploads path otk (src ∷ held) w v inputs h =
      let (envelope, w1, r1, h1) = bind_ok (steps.envelope_of src w) _ inputs v h in
      let (sealed, w2, r2, h2) = bind_ok (steps.one_time_key_seal otk envelope w1) _ inputs v h1 in
      let (answer, w3, r3, h3) = bind_ok (steps.post _ _ w2) _ inputs v h2 in
      let (i, r, named, same) =
        after_upload_ok src (name_in answer) (λ u. upload_all steps path otk held u) w3 v inputs
          h3 in
      rw (sym same) (
        envelope,
        sealed,
        answer,
        w1,
        w2,
        w3,
        r1,
        r2,
        r3,
        named,
        refl,
        upload_all-Uploads path otk held w3 v i r,
      )

  -- A generation that succeeds has taken a one-time key, sealed each held source under it and
  -- uploaded it, in order, and posted the bundle of the answers with the inputs that the API named
  -- in its answers to these uploads.
  pub generate_with_inputs-Posted :
      (path : String) (answers : Fields) (held : List HeldSource) (w v : World) (result : Value)
      → generate_with_inputs steps path answers held w ≡ (ok result, v)
      → (otk : Key) × (body : Fields) × (inputs : Items) × (w1 w2 w3 : World)
        × (steps.new_one_time_key w ≡ (ok otk, w1))
        × Uploads path otk held w1 inputs w2
        × (steps.one_time_key_bundle_with answers otk w2 ≡ (ok body, w3))
        × (steps.post path (put body "inputs" (array inputs)) w3 ≡ (ok result, v))
  unfolding generate_with_inputs
  generate_with_inputs-Posted path answers held w v result h =
      let (otk, w1, r1, h1) = bind_ok (steps.new_one_time_key w) _ result v h in
      let (inputs, w2, r2, h2) = bind_ok (upload_all steps path otk held w1) _ result v h1 in
      let (body, w3, r3, h3) =
        bind_ok (steps.one_time_key_bundle_with answers otk w2) _ result v h2 in
      (otk, body, inputs, w1, w2, w3, r1, upload_all-Uploads path otk held w1 w2 inputs r2, r3, h3)

-- ===== src/Plugins/Sent.antt =====
-- No private value is sent to a plugin (companydata/plugin.go: pluginInputs).
use company_data_go.Prelude.{
  ◌≡◌, refl, sym, ◌∙◌, ◌⊎◌, not, inl, inr, String, Bool, true, false, Option, none, some, str_eq,
  eq_iff, if◌then◌else◌,
}
use company_data_go.Json.{
  Value, null, boolean, number, float64, float32, int, int64, string, array, object, Items, nil,
  cons, Fields, end, get, put, get-put,
}
use company_data_go.Keys.{opposite}
use company_data_go.Flow.Scalars.{FloatText, flow_answered}
use company_data_go.Constants.Plugins.{list_in}
use company_data_go.Plugins.Elements.{FlowRun, as_string, coerce_bool}
use company_data_go.Plugins.Privacy.{node_in, is_private}
use company_data_go.Plugins.Explored.{Reaches}
use company_data_go.Plugins.Reach.{is_private-Reaches}
use company_data_go.Plugins.Inputs.{
  resolved, unavailable, Input, value, missing, unwired, unanswered, other_party_private,
  convert_plugin_input, converted, live_input, resolve_input, wired, after_input, inputs_loop,
  object_under, plugin_inputs,
}

-- The object is one of the list.
abbrev pub Declared : Fields → Items → Type 0
Declared im nil = ⊥
Declared im (cons x xs) = (x ≡ object im) ⊎ Declared im xs

module _ (text : FloatText) (live wiring : Fields) (private : String → Bool)
    (declared : Items) where
  -- The value is the conversion, to the type of a declared input with this key, of an answered
  -- live value that is not private.
  abbrev pub Sent : String → Value → Type 0
  Sent key v =
      (im : Fields) × (w : Value) × Declared im declared
      × (as_string (get im "key") ≡ key)
      × (get live (as_string (get wiring key)) ≡ some w)
      × (flow_answered w ≡ true)
      × (private (as_string (get wiring key)) ≡ false)
      × (convert_plugin_input text (as_string (get im "type")) w ≡ some v)

  abbrev AllSent : Fields → Type 0
  AllSent out = (key : String) (v : Value) → get out key ≡ some v → Sent key v

  resolve_input-Sent :
      (im : Fields) (v : Value)
      → Declared im declared
      → resolve_input text live wiring private
          (as_string (get im "type"))
          (wired text live wiring private (as_string (get im "key")))
        ≡ value v
      → Sent (as_string (get im "key")) v
  unfolding resolve_input
  resolve_input-Sent im v d h =
      wire (str_eq (as_string (get wiring (as_string (get im "key")))) "") h
    where
      type : String
      type = as_string (get im "type")

      ref : String
      ref = as_string (get wiring (as_string (get im "key")))

      conv : (o : Option Value) → converted text o ≡ value v → o ≡ some v
      conv none h = cc
      conv (some w) h = cc

      answered :
          (w : Value) (a p : Bool)
          → flow_answered w ≡ a
          → private ref ≡ p
          → get live ref ≡ some w
          → (if not a
              then missing unanswered
              else if p
              then missing other_party_private
              else converted text (convert_plugin_input text type w))
            ≡ value v
          → Sent (as_string (get im "key")) v
      answered w false p e f g h = cc
      answered w true true e f g h = cc
      answered w true false e f g h =
          (im, w, d, refl, g, e, f, conv (convert_plugin_input text type w) h)

      at_live :
          (o : Option Value)
          → get live ref ≡ o
          → live_input text live wiring private type ref o ≡ value v
          → Sent (as_string (get im "key")) v
      at_live none g h = cc
      at_live (some w) g h = answered w (flow_answered w) (private ref) refl refl g h

      wire :
          (b : Bool)
          → (if b
              then missing unwired
              else live_input text live wiring private type ref (get live ref))
            ≡ value v
          → Sent (as_string (get im "key")) v
      wire true h = cc
      wire false h = at_live (get live ref) refl h

  AllSent-put :
      (out : Fields) (key : String) (v : Value) → AllSent out → Sent key v → AllSent (put out key v)
  AllSent-put out key v all sent j w h = other (str_eq key j) refl (sym (get-put out key j v) ∙ h)
    where
      other : (b : Bool) → str_eq key j ≡ b → (if b then some v else get out j) ≡ some w → Sent j w
      other true e h =
          let same : v ≡ w = cc in let moved = (rw ((eq_iff key j).0 e) at sent) in rw same at moved
      other false e h = all j w h

  inputs_loop-AllSent :
      (ims : Items) (out sent : Fields)
      → ((im : Fields) → Declared im ims → Declared im declared)
      → AllSent out
      → inputs_loop text live wiring private ims out ≡ resolved sent
      → AllSent sent
  unfolding inputs_loop
  inputs_loop-AllSent nil out sent d all h = let same : out ≡ sent = cc in rw same at all
  inputs_loop-AllSent (cons (object im) ims) out sent d all h =
      after
        (resolve_input text live wiring private (as_string (get im "type"))
          (wired text live wiring private (as_string (get im "key"))))
        refl h (λ o a k. inputs_loop-AllSent ims o sent (λ x m. d x (inr m)) a k)
    where
      after :
          (i : Input)
          → resolve_input text live wiring private
              (as_string (get im "type"))
              (wired text live wiring private (as_string (get im "key")))
            ≡ i
          → after_input text live wiring private im i
              (λ o. inputs_loop text live wiring private ims o)
              out
            ≡ resolved sent
          → ((o : Fields)
              → AllSent o
              → inputs_loop text live wiring private ims o ≡ resolved sent
              → AllSent sent)
          → AllSent sent
      after (value v) e h ih =
          ih (put out (as_string (get im "key")) v)
            (AllSent-put out (as_string (get im "key")) v all
              (resolve_input-Sent im v (d im (inl refl)) e))
            h
      after (missing reason) e h ih = optional (coerce_bool (get im "required")) h
        where
          optional :
              (b : Bool)
              → (if b
                  then unavailable (record {
                    input = as_string (get im "key");
                    source = wired text live wiring private (as_string (get im "key"));
                    reason = reason;
                  })
                  else inputs_loop text live wiring private ims out)
                ≡ resolved sent
              → AllSent sent
          optional true h = cc
          optional false h = ih out all h
  inputs_loop-AllSent (cons null ims) out sent d all h =
      inputs_loop-AllSent ims out sent (λ x m. d x (inr m)) all h
  inputs_loop-AllSent (cons (boolean x) ims) out sent d all h =
      inputs_loop-AllSent ims out sent (λ x m. d x (inr m)) all h
  inputs_loop-AllSent (cons (number t) ims) out sent d all h =
      inputs_loop-AllSent ims out sent (λ x m. d x (inr m)) all h
  inputs_loop-AllSent (cons (float64 f) ims) out sent d all h =
      inputs_loop-AllSent ims out sent (λ x m. d x (inr m)) all h
  inputs_loop-AllSent (cons (float32 f) ims) out sent d all h =
      inputs_loop-AllSent ims out sent (λ x m. d x (inr m)) all h
  inputs_loop-AllSent (cons (int n) ims) out sent d all h =
      inputs_loop-AllSent ims out sent (λ x m. d x (inr m)) all h
  inputs_loop-AllSent (cons (int64 n) ims) out sent d all h =
      inputs_loop-AllSent ims out sent (λ x m. d x (inr m)) all h
  inputs_loop-AllSent (cons (string t) ims) out sent d all h =
      inputs_loop-AllSent ims out sent (λ x m. d x (inr m)) all h
  inputs_loop-AllSent (cons (array xs) ims) out sent d all h =
      inputs_loop-AllSent ims out sent (λ x m. d x (inr m)) all h

module _ (run : FlowRun) (draft : Fields) (own_user : String) where
  -- Every value that a plugin is called with is the conversion, to the type of a declared input with
  -- its key, of an answered live value whose key reaches no private source.
  pub plugin_inputs-Sent :
      (text : FloatText) (spec live sent : Fields)
      → plugin_inputs text spec live (is_private run draft own_user) ≡ resolved sent
      → (key : String) (v : Value) → get sent key ≡ some v
      → Sent text live
          (object_under (get spec "inputs"))
          (is_private run draft own_user)
          (list_in (get (object_under (get spec "snapshot")) "inputs"))
          key
          v
        × ¬ (
            Reaches
              (node_in run draft own_user)
              (as_string (get (object_under (get spec "inputs")) key)))
  unfolding plugin_inputs
  plugin_inputs-Sent text spec live sent h key v g =
      let s = all key v g in
      (s, λ r. opposite ((is_private-Reaches run draft own_user _).1 r) (s.6))
    where
      all :
          (key : String) (v : Value)
          → get sent key ≡ some v
          → Sent text live
              (object_under (get spec "inputs"))
              (is_private run draft own_user)
              (list_in (get (object_under (get spec "snapshot")) "inputs"))
              key
              v
      all =
          inputs_loop-AllSent text live (object_under (get spec "inputs"))
            (is_private run draft own_user)
            (list_in (get (object_under (get spec "snapshot")) "inputs"))
            (list_in (get (object_under (get spec "snapshot")) "inputs")) end sent (λ im m. m)
            (λ k w e. cc) h

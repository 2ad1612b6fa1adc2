-- ===== src/Plugins/Call.antt =====
-- A call of a plugin (companydata/plugin.go: call, options, outputs).
use company_data_go.Prelude.{
  ℕ, zero, suc, String, Bool, true, false, not, ◌&&◌, ◌||◌, Option, none, some, List, [], ◌∷◌,
  str_eq, ◌==◌, if◌then◌else◌,
}
use company_data_go.Json.{
  Value, boolean, string, object, array, Items, nil, cons, Fields, end, field, get,
}
use company_data_go.Flow.Scalars.{FloatText, flow_str}
use company_data_go.Flow.Condition.{value_or_null}
use company_data_go.Constants.Expr.{FloatMath}
use company_data_go.Plugins.Elements.{FlowRun, as_string, live_flow_answers}
use company_data_go.Plugins.Privacy.{is_private}
use company_data_go.Plugins.Inputs.{Inputs, resolved, unavailable, plugin_inputs}
use company_data_go.Plugins.Pass.{
  CallError, api_error, not_a_plugin, input_unavailable, Outcome, ok, failed, not_responding,
  PluginPass, plugin_pass_from_api, public_key_for,
}

-- What `post` returns: the status, the decoded body and the private half of the reply key.
pub record Reply (ReplyKey : Type 0) : Type 0 where
  pub status : ℕ
  pub body : Fields
  pub reply_key : ReplyKey

-- The steps that a call takes in a world: reading the run and the stored answers, taking a pass,
-- loading a key, sealing and posting a request, opening a reply, and decoding it.
pub record Party (World PublicKey ReplyKey : Type 0) : Type 0 where
  pub text : FloatText
  pub math : FloatMath
  pub decode : String → Option Value
  pub own_user : FlowRun → String
  pub fetch_run : World → Outcome FlowRun × World
  pub stored_answers : FlowRun → World → Outcome Fields × World
  pub fetch_pass : World → Outcome PluginPass × World
  pub load_public_key : String → Outcome PublicKey
  pub post : PluginPass → String → PublicKey → Fields → World → Outcome (Reply ReplyKey) × World
  pub decrypt : Option Value → ReplyKey → Outcome String

-- What one answer of the forwarder leads to.
pub data Next : Type 0 where
  reply_opened : Next
  resealed_with : String → Next
  renewed_pass : Next
  refused : CallError → Next

abbrev pub reply_object : Option Value → Outcome Fields
reply_object (some (object m)) = ok m
reply_object (some _) = not_responding "the plugin reply is not a JSON object"
reply_object none = not_responding "the plugin reply is not a JSON object"

unfoldable pub judge_reply : Bool → Bool → ℕ → Fields → Next
judge_reply resealed renewed status body =
    if status == 200
    then reply_opened
    else if status == 409
        && str_eq (as_string (get body "error_key")) "plugin.key_changed"
        && not resealed
    then resealed_with (as_string (get body "public_key"))
    else if (status == 401 || status == 403) && not renewed
    then renewed_pass
    else refused
        (api_error status (as_string (get body "error_key")) (as_string (get body "error")))

pub record PluginOption : Type 0 where
  pub id : List ℕ
  pub label : List ℕ

pub record PluginOptionsResult : Type 0 where
  pub options : List PluginOption
  pub more : Bool

pub data PluginOutputsResult : Type 0 where
  plugin_outputs : Fields → PluginOutputsResult
  picks_invalid : PluginOutputsResult

-- Three rounds: one, one after a new key and one after a new pass.
abbrev pub max_rounds : ℕ
max_rounds = 3

module _ {World PublicKey ReplyKey : Type 0} (party : Party World PublicKey ReplyKey) where
  abbrev pub decoded : Outcome String → Outcome Fields
  decoded (failed e) = failed e
  decoded (ok reply) = reply_object (party.decode reply)

  abbrev pub Ended : Type 0
  Ended = Option (Outcome Fields × World)

  -- A new pass names the key for the next round.
  abbrev pub after_pass :
      String → (PluginPass → String → World → Ended) → Outcome PluginPass × World → Ended
  after_pass id again (failed e, w) = some (failed e, w)
  after_pass id again (ok pass, w) = again pass (public_key_for pass id) w

  abbrev pub after_next :
      String
      → PluginPass
      → Reply ReplyKey
      → (again renewed_again : PluginPass → String → World → Ended) → Next
      → World
      → Ended
  after_next id pass reply again renewed_again reply_opened w =
      some (decoded (party.decrypt (get reply.body "reply") reply.reply_key), w)
  after_next id pass reply again renewed_again (resealed_with spki) w = again pass spki w
  after_next id pass reply again renewed_again renewed_pass w =
      after_pass id renewed_again (party.fetch_pass w)
  after_next id pass reply again renewed_again (refused e) w = some (failed e, w)

  abbrev pub after_post :
      String
      → PluginPass
      → (resealed renewed : Bool) → (again renewed_again : PluginPass → String → World → Ended)
      → Outcome (Reply ReplyKey) × World
      → Ended
  after_post id pass resealed renewed again renewed_again (failed e, w) = some (failed e, w)
  after_post id pass resealed renewed again renewed_again (ok reply, w) =
      after_next id pass reply again renewed_again
        (judge_reply resealed renewed reply.status reply.body) w

  abbrev pub with_key : Outcome PublicKey → World → (PublicKey → Ended) → Ended
  with_key (failed e) w post = some (failed e, w)
  with_key (ok key) w post = post key

  -- The loop; `none` is that the rounds ran out.
  unfoldable pub call_loop :
      ℕ → (resealed renewed : Bool) → String → Fields → PluginPass → String → World → Ended
  unfolding judge_reply public_key_for
  call_loop zero resealed renewed id request pass spki w = none
  call_loop (suc rounds) resealed renewed id request pass spki w =
      let keyed = with_key (party.load_public_key spki) w (λ key.
        after_post id pass resealed renewed
          (λ p k v. call_loop rounds true renewed id request p k v)
          (λ p k v. call_loop rounds resealed true id request p k v)
          (party.post pass id key request w)) in
      if str_eq spki ""
      then some (not_responding "the plugin has no usable description", w)
      else keyed

  abbrev pub bind :
      {A B : Type 0} → Outcome A × World → (A → World → Outcome B × World) → Outcome B × World
  bind (failed e, w) f = (failed e, w)
  bind (ok a, w) f = f a w

  abbrev pub no_rounds : Outcome Fields
  no_rounds = not_responding "the rounds ran out"

  abbrev pub ended_or : World → Ended → Outcome Fields × World
  ended_or w none = (no_rounds, w)
  ended_or w (some r) = r

  abbrev pub with_inputs :
      (Fields → Outcome Fields × World) → Inputs → World → Outcome Fields × World
  with_inputs send (resolved inputs) w = send inputs
  with_inputs send (unavailable u) w = (failed (input_unavailable u), w)

  -- The inputs are resolved from the live answers, with the privacy of the run.
  abbrev pub with_spec :
      FlowRun
      → (stored draft : Fields) → String
      → (String → Fields → Fields)
      → PluginPass
      → Option Value
      → World
      → Outcome Fields × World
  with_spec run stored draft slug build pass (some (object spec)) w =
      with_inputs
        (λ inputs. ended_or w (
          call_loop max_rounds false false (as_string (get spec "plugin_id"))
            (build (as_string (get spec "field_type")) inputs) pass
            (public_key_for pass (as_string (get spec "plugin_id"))) w))
        (plugin_inputs party.text spec
          (live_flow_answers party.text party.math party.decode run stored draft)
          (is_private run draft (party.own_user run)))
        w
  with_spec run stored draft slug build pass (some _) w = (failed (not_a_plugin slug), w)
  with_spec run stored draft slug build pass none w = (failed (not_a_plugin slug), w)

  unfoldable pub call :
      String → Fields → (String → Fields → Fields) → World → Outcome Fields × World
  unfolding call_loop plugin_pass_from_api
  call slug draft build w = bind (party.fetch_run w) (λ run w.
      bind (party.stored_answers run w) (λ stored w.
        bind (party.fetch_pass w)
          (λ pass w. with_spec run stored draft slug build pass (get pass.specs slug) w)))

  abbrev pub is_true : Option Value → Bool
  is_true (some (boolean b)) = b
  is_true (some _) = false
  is_true none = false

  abbrev options_in : Items → List PluginOption
  options_in nil = []
  options_in (cons (object m) xs) =
      record {
        id = flow_str party.text (value_or_null (get m "id"));
        label = flow_str party.text (value_or_null (get m "label"));
      }
      ∷ options_in xs
  options_in (cons _ xs) = options_in xs

  abbrev options_reply : Bool → Option Value → Outcome PluginOptionsResult
  options_reply more (some (array xs)) = ok (record { options = options_in xs; more = more })
  options_reply more (some _) = not_responding "the plugin reply carries no options"
  options_reply more none = not_responding "the plugin reply carries no options"

  abbrev options_request :
      (block query : String) → (picks values : Fields) → String → Fields → Fields
  options_request block query picks values field_type inputs =
      field "field_type" (string field_type) (
        field "op" (string "options") (
          field "block" (string block) (
            field "query" (string query) (
              field "picks" (object picks)
                (field "values" (object values) (field "inputs" (object inputs) end))))))

  unfoldable pub options :
      (slug block query : String)
      → (picks values draft : Fields) → World
      → Outcome PluginOptionsResult × World
  unfolding call
  options slug block query picks values draft w =
      bind (call slug draft (options_request block query picks values) w)
        (λ reply w. (options_reply (is_true (get reply "more")) (get reply "options"), w))

  abbrev outputs_reply : Bool → Option Value → Outcome PluginOutputsResult
  outputs_reply true o = ok picks_invalid
  outputs_reply false (some (object m)) = ok (plugin_outputs m)
  outputs_reply false (some _) = not_responding "the plugin reply carries no outputs"
  outputs_reply false none = not_responding "the plugin reply carries no outputs"

  abbrev outputs_request : (picks values : Fields) → String → Fields → Fields
  outputs_request picks values field_type inputs = field "field_type" (string field_type) (
      field "op" (string "outputs") (
        field "picks" (object picks)
          (field "values" (object values) (field "inputs" (object inputs) end))))

  unfoldable pub outputs :
      String → (picks values draft : Fields) → World → Outcome PluginOutputsResult × World
  unfolding call
  outputs slug picks values draft w =
      bind (call slug draft (outputs_request picks values) w)
        (λ reply w. (outputs_reply (is_true (get reply "picks_invalid")) (get reply "outputs"), w))

-- ===== src/Plugins/Privacy.antt =====
-- Whether a key of the live answers reaches another party's private value (companydata/plugin.go:
-- newFlowPrivacy, isPrivate, exprReachesPrivate, sourcePrivate).
use company_data_go.Prelude.{
  ℕ, zero, suc, String, Bool, true, false, not, Option, none, some, List, [], ◌∷◌, ◌++◌, length,
  codes, of_codes, str_eq, ◌==◌, if◌then◌else◌,
}
use company_data_go.Json.{Value, null, object, Items, nil, cons, Fields, end, field, get}
use company_data_go.FieldTypes.Registry.{contains_string}
use company_data_go.Constants.Refs.{expr_refs}
use company_data_go.Constants.Compute.{Constant, keys_of, by_key, expr_in}
use company_data_go.Constants.Plugins.{list_in}
use company_data_go.Plugins.Elements.{
  FlowRun, Placed, as_string, text_under, answer_element, node_of, party_of,
}

-- The text before the first dot.
abbrev before_dot : List ℕ → List ℕ
before_dot [] = []
before_dot (c ∷ cs) = let rest = before_dot cs in if c == b'.' then [] else c ∷ rest

unfoldable pub base_of : String → String
base_of ref = of_codes (before_dot (codes ref))

-- What a base is: private at once, or as private as what it reads.
pub data Node : Type 0 where
  private_source : Node
  reads : List String → Node

-- An answer to `isPrivate` with the bases that were seen.
pub record Verdict : Type 0 where
  pub is_private : Bool
  pub seen : List String

abbrev pub verdict : Bool → List String → Verdict
verdict b seen = record { is_private = b; seen = seen }

-- The loop of exprReachesPrivate, with `step` for isPrivate.
abbrev pub after_one : Verdict → (List String → Verdict) → Verdict
after_one v rest = if v.is_private then v else rest v.seen

unfoldable pub any_private : (String → List String → Verdict) → List String → List String → Verdict
any_private step [] seen = verdict false seen
any_private step (r ∷ rs) seen = after_one (step r seen) (λ s. any_private step rs s)

abbrev pub on_node : (String → List String → Verdict) → Node → List String → Verdict
on_node step private_source seen = verdict true seen
on_node step (reads refs) seen = any_private step refs seen

-- isPrivate, where `node` says what each base is; `fuel` is above the number of the bases that
-- read anything.
unfoldable pub private_from : (String → Node) → ℕ → String → List String → Verdict
unfolding any_private
private_from node zero ref seen = verdict false seen
private_from node (suc fuel) ref seen =
    let base = base_of ref in
    let deep = on_node (private_from node fuel) (node base) (base ∷ seen) in
    if contains_string seen base then verdict false seen else deep

-- ── the nodes of a run ──

-- `constants`: the objects under "constants" with a key.
abbrev keyed : String → Fields → List Constant → List Constant
keyed k m rest = if str_eq k "" then rest else record { key = k; fields = m } ∷ rest

unfoldable pub keyed_constants : Items → List Constant
keyed_constants nil = []
keyed_constants (cons (object m) cs) = keyed (as_string (get m "key")) m (keyed_constants cs)
keyed_constants (cons _ cs) = keyed_constants cs

abbrev pub draft_keys : Fields → List String
draft_keys end = []
draft_keys (field k v m) = k ∷ draft_keys m

module _ (run : FlowRun) (draft : Fields) (own_user : String) where
  abbrev pub constants : List Constant
  constants = keyed_constants (list_in (get run.definition "constants"))

  -- Without the list of private slugs every answer of another party is private.
  abbrev pub private_slug : Option (List String) → Option Placed → String → Bool
  private_slug (some slugs) placed base = contains_string slugs base
  private_slug none none base = false
  private_slug none (some p) base =
      not (str_eq (text_under run.bindings (party_of run.definition p.node)) own_user)

  abbrev refs_of : Value → List String
  refs_of e = expr_refs (λ k. true) e []

  abbrev default_in : Option Value → Node
  default_in none = reads []
  default_in (some null) = reads []
  default_in (some e) = reads (refs_of e)

  abbrev default_of : Option Placed → Node
  default_of none = reads []
  default_of (some p) = default_in (get p.element "default")

  -- An answer that is drafted on the current step reads what its default reads.
  abbrev pub drafted_node : Bool → Option Placed → Node
  drafted_node false placed = reads []
  drafted_node true placed =
      if str_eq (node_of placed) run.current_node then default_of placed else reads []

  abbrev pub answer_node : Option Placed → String → Node
  answer_node placed base =
      if private_slug run.private_slugs placed base
      then private_source
      else drafted_node (contains_string (draft_keys draft) base) placed

  abbrev pub constant_or : Option Fields → Node → Node
  constant_or none otherwise = otherwise
  constant_or (some m) otherwise = reads (refs_of (expr_in (some m)))

  unfoldable pub node_in : String → Node
  unfolding by_key answer_element party_of
  node_in base =
      constant_or (by_key constants base) (answer_node (answer_element run.definition base) base)

  -- The bases that may read anything: the constants and the drafted answers.
  abbrev pub readers : List String
  readers = keys_of constants ++ draft_keys draft

  unfoldable pub is_private : String → Bool
  unfolding private_from node_in
  is_private ref = (private_from node_in (suc (length readers)) ref []).is_private

  -- The submitted slugs whose answers are private.
  abbrev private_among : List String → List String
  private_among [] = []
  private_among (k ∷ ks) = let rest = private_among ks in if is_private k then k ∷ rest else rest

-- The submitted answers are the draft.
unfoldable pub source_private : FlowRun → Fields → String → List String
unfolding is_private
source_private run submitted own_user = private_among run submitted own_user (draft_keys submitted)

-- ===== src/Plugins/Reach.antt =====
-- isPrivate answers whether a private source can be reached (companydata/plugin.go: isPrivate).
use company_data_go.Prelude.{
  suc, ◌≡◌, ◌↔◌, refl, sym, ap, ◌∙◌, String, Bool, true, false, Option, none, some, List, [], ◌∷◌,
  length, if◌then◌else◌, arith,
}
use company_data_go.Json.{Fields}
use company_data_go.Keys.{contains_string-append, one_of, unmarked}
use company_data_go.FieldTypes.Registry.{contains_string}
use company_data_go.Constants.Compute.{keys_of, by_key, is_some}
use company_data_go.Constants.Visits.{by_key-is_constant}
use company_data_go.Plugins.Elements.{FlowRun, answer_element}
use company_data_go.Plugins.Privacy.{
  private_source, reads, node_in, readers, is_private, draft_keys, constants, constant_or,
  answer_node, drafted_node, private_slug,
}
use company_data_go.Plugins.Explored.{Reaches, private_from-Reaches_iff}

module _ (run : FlowRun) (draft : Fields) (own_user : String) where
  drafted-reads :
      (b r : String) (rs : List String)
      → answer_node run draft own_user (answer_element run.definition b) b ≡ reads (r ∷ rs)
      → contains_string (draft_keys draft) b ≡ true
  drafted-reads b r rs h =
      of_slug
        (private_slug run draft own_user run.private_slugs (answer_element run.definition b) b)
        (contains_string (draft_keys draft) b) refl h
    where
      of_slug :
          (p d : Bool)
          → contains_string (draft_keys draft) b ≡ d
          → (if p
              then private_source
              else drafted_node run draft own_user d (answer_element run.definition b))
            ≡ reads (r ∷ rs)
          → contains_string (draft_keys draft) b ≡ true
      of_slug true d e h = cc
      of_slug false true e h = e
      of_slug false false e h = cc

  node_in-readers :
      (b r : String) (rs : List String)
      → node_in run draft own_user b ≡ reads (r ∷ rs)
      → contains_string (readers run draft own_user) b ≡ true
  unfolding node_in
  node_in-readers b r rs h = of (by_key (constants run draft own_user) b) refl h
    where
      of :
          (o : Option Fields)
          → by_key (constants run draft own_user) b ≡ o
          → constant_or run draft own_user o
              (answer_node run draft own_user (answer_element run.definition b) b)
            ≡ reads (r ∷ rs)
          → contains_string (readers run draft own_user) b ≡ true
      of none e h =
          rw (contains_string-append (keys_of (constants run draft own_user)) (draft_keys draft) b)
            (rw (drafted-reads b r rs h) (ground arith))
      of (some m) e h =
          rw (contains_string-append (keys_of (constants run draft own_user)) (draft_keys draft) b)
            (one_of _ _ (sym (by_key-is_constant (constants run draft own_user) b) ∙ ap is_some e))

  unmarked-all : (ks : List String) → unmarked ks [] ≡ length ks
  unmarked-all [] = refl
  unmarked-all (k ∷ ks) = omega (arith, unmarked-all ks)

  -- A key of the live answers is private exactly if a private source is reached from it: a slug of
  -- the run's list (without a list, an answer of another party), through the references of
  -- constants and of the defaults of drafted answers, whatever cycles these make.
  pub is_private-Reaches :
      (ref : String)
      → (is_private run draft own_user ref ≡ true) ↔ Reaches (node_in run draft own_user) ref
  unfolding is_private
  is_private-Reaches ref =
      private_from-Reaches_iff (node_in run draft own_user) (readers run draft own_user)
        node_in-readers (suc (length (readers run draft own_user))) ref
        (omega (arith, unmarked-all (readers run draft own_user)))

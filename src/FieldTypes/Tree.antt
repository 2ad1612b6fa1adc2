-- ===== src/FieldTypes/Tree.antt =====
-- The tree of the field types and the sets derived from it (companydata/fieldtypes.go: Descendants,
-- Accepts, the lanes, the derived sets, OptionsFor, Ordered, EffectiveType).
use company_data_go.Prelude.{
  ℕ, zero, suc, String, Bool, true, false, not, ◌&&◌, ◌||◌, Option, none, some, List, [], ◌∷◌, ◌++◌,
  map, length, codes, eqb, str_eq, if◌then◌else◌,
}
use company_data_go.Buffer.Disk.{lex_lt}
use company_data_go.FieldTypes.Registry.{
  Row, contains_string, if_non_empty, label_or, find_row, resolve,
}

abbrev pub is_text : Option String → String → Bool
is_text none t = false
is_text (some s) t = str_eq s t

-- strings.ToLower is `lower`.
abbrev pub compare_labels : (List ℕ → List ℕ) → String → String → Bool
compare_labels lower a b =
    if eqb (lower (codes a)) (lower (codes b))
    then lex_lt (codes a) (codes b)
    else lex_lt (lower (codes a)) (lower (codes b))

-- sort.SliceStable by a comparison of labels.
abbrev pub insert_by : {A : Type 0} → (A → A → Bool) → A → List A → List A
insert_by less x [] = x ∷ []
insert_by less x (y ∷ ys) =
    let rest = insert_by less x ys in if less x y then x ∷ y ∷ ys else y ∷ rest

abbrev pub sort_onto : {A : Type 0} → (A → A → Bool) → List A → List A → List A
sort_onto less sorted [] = sorted
sort_onto less sorted (x ∷ xs) = sort_onto less (insert_by less x sorted) xs

abbrev pub sort_stable : {A : Type 0} → (A → A → Bool) → List A → List A
sort_stable less xs = sort_onto less [] xs

-- The types for which a test holds.
unfoldable pub filter_types : (String → Bool) → List String → List String
filter_types keep [] = []
filter_types keep (t ∷ ts) = let rest = filter_types keep ts in if keep t then t ∷ rest else rest

pub record Labelled : Type 0 where
  pub label : String
  pub name : String

-- What one pass of Descendants has found.
pub record Found : Type 0 where
  pub out : List String
  pub next : List String

module _ {Entry : Type 0} (r : List (Row Entry)) where
  -- `order`, which is also what Types answers.
  abbrev pub types : List String
  types = map (λ row. row.type_name) r

  abbrev pub knows : String → Bool
  knows t = contains_string types t

  -- ── descendants ──

  abbrev pub parent_in : Option String → List String → Bool
  parent_in none frontier = false
  parent_in (some p) frontier = contains_string frontier p

  abbrev pub consider : List String → Row Entry → Found → Found
  consider frontier row f =
      if parent_in row.parent frontier && not (contains_string f.out row.type_name)
      then record { out = f.out ++ (row.type_name ∷ []); next = row.type_name ∷ f.next }
      else f

  unfoldable pub pass : List String → List (Row Entry) → Found → Found
  pass frontier [] f = f
  pass frontier (row ∷ rows) f = pass frontier rows (consider frontier row f)

  -- The passes, at most `guard` of them, until one finds nothing.
  unfoldable pub passes : ℕ → List String → List String → List String
  unfolding pass
  passes guard [] out = out
  passes zero (t ∷ ts) out = out
  passes (suc guard) (t ∷ ts) out =
      let f = pass (t ∷ ts) r (record { out = out; next = [] }) in passes guard f.next f.out

  unfoldable pub descendants : String → List String
  unfolding passes
  descendants t = passes (length r) (t ∷ []) (t ∷ [])

  unfoldable pub accepts : String → String → Bool
  unfolding descendants
  accepts requested actual =
      str_eq actual requested || contains_string (descendants requested) actual

  -- ── lanes ──

  abbrev pub other_lane : Option String → Bool
  other_lane none = false
  other_lane (some lane) = not (str_eq lane "inline")

  unfoldable pub is_binary : String → Bool
  is_binary t = other_lane (resolve r t).lane

  unfoldable pub is_document_like : String → Bool
  is_document_like t = is_text (resolve r t).lane "document"

  unfoldable pub is_id_document : String → Bool
  is_id_document t = is_text (resolve r t).input "pages"

  abbrev pub binary_types : List String
  unfolding is_binary
  binary_types = filter_types is_binary types

  abbrev pub document_like_types : List String
  document_like_types = filter_types is_document_like types

  abbrev pub id_document_types : List String
  id_document_types = filter_types is_id_document types

  -- ── derived sets ──

  abbrev pub is_empty_list : List String → Bool
  is_empty_list [] = true
  is_empty_list (x ∷ xs) = false

  unfoldable pub is_option_less_choice : String → Bool
  is_option_less_choice t =
      (is_text (resolve r t).input "list" || is_text (resolve r t).input "multilist")
      && is_empty_list (resolve r t).options

  abbrev pub or_supplied : List String → List String → Option (List String)
  or_supplied (o ∷ os) supplied = some (o ∷ os)
  or_supplied [] (s ∷ ss) = some (s ∷ ss)
  or_supplied [] [] = none

  -- `none` is nil: neither source has a domain.
  unfoldable pub options_for : String → List String → Option (List String)
  options_for t supplied = or_supplied (resolve r t).options supplied

  abbrev pub is_requestable : String → Bool
  is_requestable t = not (is_option_less_choice t) && not (resolve r t).system_only

  unfoldable pub requestable_types : List String
  unfolding is_option_less_choice filter_types
  requestable_types = filter_types is_requestable types

  unfoldable pub flow_types : List String
  unfolding requestable_types
  flow_types =
      requestable_types
      ++ filter_types (λ t. is_option_less_choice t && not (resolve r t).system_only) types

  unfoldable pub claimable_types : List String
  unfolding requestable_types
  claimable_types = filter_types (λ t. is_text (resolve r t).lane "inline") requestable_types

  -- ── display ──

  abbrev pub label_for : String → String
  label_for t = (resolve r t).label

  -- The row hangs below the parent; the roots below none.
  abbrev pub same_parent : Option String → Option String → Bool
  same_parent none none = true
  same_parent none (some q) = false
  same_parent (some p) none = false
  same_parent (some p) (some q) = str_eq p q

  abbrev pub children_in : List (Row Entry) → Option String → List Labelled
  children_in [] parent = []
  children_in (row ∷ rows) parent =
      let rest = children_in rows parent in
      if same_parent row.parent parent
      then record { label = label_or (if_non_empty row.label) row.type_name; name = row.type_name }
        ∷ rest
      else rest

  abbrev pub children_of : (List ℕ → List ℕ) → Option String → List String
  children_of lower parent =
      map (λ l. l.name)
        (sort_stable (λ a b. compare_labels lower a.label b.label) (children_in r parent))

  abbrev pub walk_each : (String → List String) → List String → List String → List String
  walk_each below wanted [] = []
  walk_each below wanted (name ∷ names) =
      (if contains_string wanted name then name ∷ [] else [])
      ++ (below name ++ walk_each below wanted names)

  -- The tree below a parent; the fuel is a level for each row.
  unfoldable pub walk : (List ℕ → List ℕ) → ℕ → List String → Option String → List String
  walk lower zero wanted parent = []
  walk lower (suc fuel) wanted parent =
      walk_each (λ name. walk lower fuel wanted (some name)) wanted (children_of lower parent)

  unfoldable pub ordered : (List ℕ → List ℕ) → List String → List String
  unfolding walk filter_types
  ordered lower wanted =
      let out = walk lower (length r) wanted none in
      out
      ++ sort_stable (compare_labels lower) (filter_types (λ t. not (contains_string out t)) wanted)

  -- ── the domain of the comparisons ──

  abbrev pub is_base : String → Bool
  is_base t = str_eq t "date" || str_eq t "number"

  abbrev pub effective_above : (String → String) → String → String → Option (Row Entry) → String
  effective_above up t cursor none = t
  effective_above up t cursor (some row) = if is_base cursor then cursor else climb row.parent
    where
      climb : Option String → String
      climb none = t
      climb (some p) = up p

  -- The walk to the root, with a unit of fuel for each row.
  unfoldable pub effective_from : ℕ → List String → String → String → String
  effective_from zero seen t cursor = t
  effective_from (suc fuel) seen t cursor =
      if str_eq cursor "" || contains_string seen cursor
      then t
      else effective_above (λ p. effective_from fuel (cursor ∷ seen) t p) t cursor
          (find_row r cursor)

  unfoldable pub effective_type : String → String
  unfolding effective_from
  effective_type t = effective_from (length r) [] t t

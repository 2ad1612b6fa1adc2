-- ===== src/FieldTypes/Registry.antt =====
-- The registry of the field types and its tree (companydata/fieldtypes.go: NewFieldTypeRegistry,
-- resolveIn, Descendants, EffectiveType, OptionsFor).
use company_data_go.Prelude.{
  ℕ, zero, suc, String, Bool, true, false, ◌||◌, Option, none, some, List, [], ◌∷◌, ◌++◌, reverse,
  length, str_eq, if◌then◌else◌,
}

-- The fields of a sub-field entry play no part in the tree.
pub record Row (Entry : Type 0) : Type 0 where
  pub type_name : String
  pub parent : Option String
  pub label : Option String
  pub input : Option String
  pub lane : Option String
  pub check : Option String
  pub options : Option (List String)
  pub entries : Option (List Entry)
  pub validation : Option String
  pub is_system : Bool
  pub system_only : Bool

-- `Known` is false for a type that the registry does not carry.
pub record Resolved (Entry : Type 0) : Type 0 where
  pub type_name : String
  pub parent : Option String
  pub label : String
  pub is_system : Bool
  pub system_only : Bool
  pub known : Bool
  pub input : Option String
  pub lane : Option String
  pub check : Option String
  pub options : List String
  pub entries : List Entry
  pub validations : List String

abbrev pub contains_string : List String → String → Bool
contains_string [] want = false
contains_string (s ∷ list) want = str_eq s want || contains_string list want

abbrev pub or_keep {ℓ} : {A : Type ℓ} → Option A → Option A → Option A
or_keep none kept = kept
or_keep (some a) kept = some a

abbrev pub or_list {ℓ} : {A : Type ℓ} → Option (List A) → List A → List A
or_list none kept = kept
or_list (some xs) kept = xs

abbrev pub non_empty : String → Option String
non_empty s = if str_eq s "" then none else some s

abbrev pub if_non_empty : Option String → Option String
if_non_empty none = none
if_non_empty (some s) = non_empty s

abbrev pub label_or : Option String → String → String
label_or none name = name
label_or (some s) name = s

abbrev pub also : List String → Option String → List String
also xs none = xs
also xs (some v) = xs ++ v ∷ []

module _ {Entry : Type 0} where
  -- The registry is the rows in served order, a later row replacing an earlier one in its place.
  unfoldable pub find_row : List (Row Entry) → String → Option (Row Entry)
  find_row [] t = none
  find_row (row ∷ rows) t = if str_eq row.type_name t then some row else find_row rows t

  unfoldable pub insert_row : List (Row Entry) → Row Entry → List (Row Entry)
  insert_row [] new = new ∷ []
  insert_row (row ∷ rows) new =
      let rest = insert_row rows new in
      if str_eq row.type_name new.type_name then new ∷ rows else row ∷ rest

  unfoldable pub add_rows : List (Row Entry) → List (Row Entry) → List (Row Entry)
  unfolding insert_row
  add_rows r [] = r
  add_rows r (row ∷ rows) = add_rows (if str_eq row.type_name "" then r else insert_row r row) rows

  unfoldable pub new_registry : List (Row Entry) → List (Row Entry)
  new_registry rows = add_rows [] rows

  -- ── the chain to the root ──

  abbrev pub on_parent : (String → List (Row Entry)) → Option String → List (Row Entry)
  on_parent above none = []
  on_parent above (some p) = above p

  abbrev pub on_row : (String → List (Row Entry)) → Option (Row Entry) → List (Row Entry)
  on_row above none = []
  on_row above (some row) = row ∷ on_parent above row.parent

  -- The rows from a type up to its root, with the types seen so far; `fuel` is one for each row.
  unfoldable pub chain : List (Row Entry) → ℕ → List String → String → List (Row Entry)
  chain r zero seen cursor = []
  chain r (suc fuel) seen cursor =
      if str_eq cursor "" || contains_string seen cursor
      then []
      else on_row (λ p. chain r fuel (cursor ∷ seen) p) (find_row r cursor)

  -- What one row of the chain sets below its ancestors.
  abbrev pub refine : Resolved Entry → Row Entry → Resolved Entry
  refine d row = record d {
    input = or_keep row.input d.input;
    lane = or_keep row.lane d.lane;
    check = or_keep row.check d.check;
    options = or_list row.options d.options;
    entries = or_list row.entries d.entries;
    validations = also d.validations (if_non_empty row.validation);
  }

  unfoldable pub refine_all : Resolved Entry → List (Row Entry) → Resolved Entry
  refine_all d [] = d
  refine_all d (row ∷ rows) = refine_all (refine d row) rows

  abbrev pub blank : String → Option String → String → Bool → Bool → Bool → Resolved Entry
  blank t parent label is_system system_only known = record {
    type_name = t;
    parent = parent;
    label = label;
    is_system = is_system;
    system_only = system_only;
    known = known;
    input = none;
    lane = none;
    check = none;
    options = [];
    entries = [];
    validations = [];
  }

  unfoldable pub resolve : List (Row Entry) → String → Resolved Entry
  unfolding chain refine_all
  resolve r t = elim (find_row r t) [
    | none ↦ blank t none t false false false
    | some row ↦
        refine_all
          (blank t row.parent (label_or (if_non_empty row.label) t) row.is_system row.system_only
            true)
          (reverse (chain r (length r) [] t))
  ]

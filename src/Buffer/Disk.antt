-- ===== src/Buffer/Disk.antt =====
-- The files under CacheDir and the actions on them (companydata/buffer.go: listJSON, readEvent,
-- atomicWriteJSON, atomicWriteInt, os.Remove). A write, a rename into place and a removal are one
-- atomic action each; every such action takes its outcome from a list that the environment chooses.
-- os.ReadDir lists a directory sorted by name, so a directory is kept in that order.
use company_data_go.Prelude.{
  ℕ, Bool, true, false, not, ◌&&◌, ◌||◌, Option, none, some, List, [], ◌∷◌, codes, eqb, ltb, ◌==◌,
  if◌then◌else◌,
}
use company_data_go.Json.{Fields}
use company_data_go.Errors.{Error, other, Result, ok, err}
use company_data_go.Buffer.Names.{Name, json_suffix, has_prefix, has_suffix}

-- The order of Go's strings, on ASCII names.
unfoldable pub lex_lt : Name → Name → Bool
lex_lt [] [] = false
lex_lt [] (y ∷ ys) = true
lex_lt (x ∷ xs) [] = false
lex_lt (x ∷ xs) (y ∷ ys) = ltb x y || (x == y && lex_lt xs ys)

-- A file holds an event, or bytes that do not decode to one.
abbrev pub Dir : Type 0
Dir = List (Name × Option Fields)

unfoldable pub write : Name → Fields → Dir → Dir
write n event [] = (n, some event) ∷ []
write n event ((m, c) ∷ dir) =
    if eqb n m
    then (n, some event) ∷ dir
    else if lex_lt n m
    then (n, some event) ∷ (m, c) ∷ dir
    else (m, c) ∷ write n event dir

unfoldable pub remove : Name → Dir → Dir
remove n [] = []
remove n ((m, c) ∷ dir) = if eqb n m then dir else (m, c) ∷ remove n dir

abbrev pub is_present : Name → Dir → Bool
is_present n [] = false
is_present n ((m, c) ∷ dir) = eqb n m || is_present n dir

-- What decodes from a file, if it is there and decodes.
abbrev pub read : Name → Dir → Option Fields
read n [] = none
read n ((m, c) ∷ dir) = if eqb n m then c else read n dir

abbrev pub json_names : Dir → List Name
json_names [] = []
json_names ((n, c) ∷ dir) =
    let rest = json_names dir in
    if has_suffix n json_suffix && not (has_prefix n (codes ".tmp_")) then n ∷ rest else rest

abbrev pub insert_name : Name → List Name → List Name
insert_name n [] = n ∷ []
insert_name n (m ∷ ms) = if lex_lt m n then m ∷ insert_name n ms else n ∷ m ∷ ms

-- sort.Strings.
unfoldable pub sort_names : List Name → List Name
sort_names [] = []
sort_names (n ∷ ns) = insert_name n (sort_names ns)

unfoldable pub list_json : Dir → List Name
list_json dir = sort_names (json_names dir)

pub record Disk : Type 0 where
  pub pending : Dir
  pub deadletter : Dir
  pub seq_file : Option (List ℕ)
  pub faults : List Bool  -- the outcome of each coming action, true for a failure

-- A method that changes the disk and may fail; what was done before a failure stays done.
abbrev pub M {ℓ} : Type ℓ → Type ℓ
M A = Disk → Result A × Disk

module _ {ℓ κ} {A : Type ℓ} {B : Type κ} where
  abbrev pub continue : Result A × Disk → (A → M B) → Result B × Disk
  continue (ok a, d) f = f a d
  continue (err e, d) f = (err e, d)

  infixl 5 ◌>>=◌
  abbrev pub ◌>>=◌ : M A → (A → M B) → M B
  ◌>>=◌ m f d = continue (m d) f

module _ {ℓ} {A : Type ℓ} where
  infixl 5 ◌>>◌
  abbrev pub ◌>>◌ : M (Unit {0}) → M A → M A
  m >> k = m >>= λ _. k

  abbrev pub pure : A → M A
  pure a d = (ok a, d)

  abbrev pub fail : Error → M A
  fail e d = (err e, d)

abbrev pub io_error : Error
io_error = other "i/o error"

abbrev pub run_action : List Bool → (Disk → Disk) → M (Unit {0})
run_action [] change d = (ok tt, change d)
run_action (false ∷ later) change d = (ok tt, change (record d { faults = later }))
run_action (true ∷ later) change d = (err io_error, record d { faults = later })

-- One action on the disk.
unfoldable pub act : (Disk → Disk) → M (Unit {0})
act change d = run_action d.faults change d

abbrev pub gets {ℓ} : {A : Type ℓ} → (Disk → A) → M A
gets f d = (ok (f d), d)

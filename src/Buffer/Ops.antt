-- ===== src/Buffer/Ops.antt =====
-- The methods of FileBuffer (companydata/buffer.go).
use company_data_go.Prelude.{
  String, Bool, true, false, Option, none, some, List, [], ◌∷◌, ◌++◌, map, ℤ, pos, suc_ℤ, ltb_ℤ,
  if◌then◌else◌,
}
use company_data_go.Json.{
  Value, int, float64, number, string, object, Fields, end, field, get, put, without, text_or_empty,
}
use company_data_go.Floats.{float_to_int}
use company_data_go.Errors.{Error, other, Result, ok, err}
use company_data_go.Buffer.Decimal.{itoa, atoi, trim_space}
use company_data_go.Buffer.Names.{Name, event_id, file_name, seq_of, is_file_of}
use company_data_go.Buffer.Disk.{
  Dir, Disk, M, write, remove, read, list_json, act, gets, pure, fail, ◌>>=◌, ◌>>◌,
}

-- ── sequence ──

unfoldable pub read_seq : Disk → Option ℤ
read_seq d = elim d.seq_file [ none ↦ none | some bytes ↦ atoi (trim_space bytes) ]

abbrev pub better : ℤ → Option ℤ → ℤ
better best none = best
better best (some seq) = if ltb_ℤ best seq then seq else best

-- The loop of `maxOnDiskSeq` over one directory.
unfoldable pub max_seq : ℤ → Dir → ℤ
max_seq best [] = best
max_seq best ((n, c) ∷ dir) = max_seq (better best (seq_of n)) dir

unfoldable pub max_on_disk_seq : Disk → ℤ
unfolding max_seq
max_on_disk_seq d = max_seq (max_seq (pos 0) d.pending) d.deadletter

abbrev pub or_else : Option ℤ → ℤ → ℤ
or_else none best = best
or_else (some seq) best = seq

unfoldable pub current_seq : Disk → ℤ
unfolding read_seq max_on_disk_seq
current_seq d = let best = max_on_disk_seq d in or_else (read_seq d) best

unfoldable pub next_seq : M ℤ
next_seq = do
  cur ← gets current_seq
  let next = suc_ℤ cur
  act (λ d. record d { seq_file = some (itoa next) })
  pure next

-- ── append, pending, ack ──

abbrev pub write_pending : Name → Fields → Disk → Disk
write_pending name event d = record d { pending = write name event d.pending }

-- One round of the loop of `Append`.
unfoldable pub append_one : (Value → String) → Fields → M Name
append_one format event = do
  seq ← next_seq
  let name = file_name seq (event_id format event)
  act (write_pending name event)
  pure name

-- `Append` returns the names written before an error beside it.
unfoldable pub append_from :
    (Value → String) → List Name → List Fields → Disk → (List Name × Option Error) × Disk
append_from format written [] d = ((written, none), d)
append_from format written (event ∷ events) d =
    let (r, d') = append_one format event d in
    elim r [
      | ok name ↦ append_from format (written ++ name ∷ []) events d'
      | err e ↦ ((written, some e), d')
    ]

unfoldable pub append : (Value → String) → List Fields → Disk → (List Name × Option Error) × Disk
unfolding append_from
append format = append_from format []

-- The event of a file that is there and decodes.
unfoldable pub read_event : Dir → Name → Result Fields
read_event dir name = elim (read name dir) [ none ↦ err (other "no event") | some e ↦ ok e ]

abbrev pub prepend : Result Fields → Result (List Fields) → Result (List Fields)
prepend (err e) rest = err e
prepend (ok event) (err e) = err e
prepend (ok event) (ok events) = ok (event ∷ events)

unfoldable pub read_all : Dir → List Name → Result (List Fields)
read_all dir [] = ok []
read_all dir (n ∷ ns) = prepend (read_event dir n) (read_all dir ns)

-- `Pending`: the events that are not acked.
unfoldable pub pending_events : Disk → Result (List Fields)
unfolding read_all
pending_events d = read_all d.pending (list_json d.pending)

abbrev pub first_file : String → List Name → Option Name
first_file change_id [] = none
first_file change_id (n ∷ ns) = if is_file_of change_id n then some n else first_file change_id ns

-- `findPendingFile` and `findDeadletterFile`, each on its directory.
unfoldable pub find_file : String → Dir → Option Name
find_file change_id dir = first_file change_id (list_json dir)

abbrev pub remove_pending : Name → Disk → Disk
remove_pending name d = record d { pending = remove name d.pending }

abbrev pub ack_found : Option Name → M Bool
ack_found none = pure false
ack_found (some name) = do act (remove_pending name); pure true

unfoldable pub ack : String → M Bool
ack change_id = do found ← gets (λ d. find_file change_id d.pending); ack_found found

-- ── dead letters ──

abbrev pub meta_key : String
meta_key = "_deadletter"

-- The failure context of a dead letter.
pub record DeadletterMeta : Type 0 where
  pub error : String
  pub attempts : ℤ

-- The context as it decodes from disk: the struct is encoded to an object with two members.
unfoldable pub meta_value : DeadletterMeta → Value
meta_value m =
    object (field "error" (string m.error) (field "attempts" (number (itoa m.attempts)) end))

abbrev pub write_deadletter : Name → Fields → Disk → Disk
write_deadletter name event d = record d { deadletter = write name event d.deadletter }

abbrev pub bury : DeadletterMeta → Name → Result Fields → M Bool
bury m name (err e) = fail e
bury m name (ok event) = do
  act (write_deadletter name (put event meta_key (meta_value m)))
  act (remove_pending name)
  pure true

abbrev pub bury_found : DeadletterMeta → Option Name → M Bool
bury_found m none = pure false
bury_found m (some name) = do event ← gets (λ d. read_event d.pending name); bury m name event

-- `DeadLetterEvent`: the new copy is written before the old one is removed.
unfoldable pub dead_letter_event : String → DeadletterMeta → M Bool
dead_letter_event change_id m = do
  found ← gets (λ d. find_file change_id d.pending)
  bury_found m found

abbrev pub value_or_zero : Option ℤ → ℤ
value_or_zero none = pos 0
value_or_zero (some n) = n

-- The type switch on the stored attempts.
unfoldable pub attempts_of : Option Value → ℤ
attempts_of (some (number text)) = value_or_zero (atoi text)
attempts_of (some (int n)) = n
attempts_of (some (float64 bits)) = float_to_int bits
attempts_of _ = pos 0

abbrev pub meta_of : Option Value → DeadletterMeta
meta_of (some (object m)) = record {
  error = text_or_empty (get m "error");
  attempts = attempts_of (get m "attempts");
}
meta_of _ = record { error = ""; attempts = pos 0 }

unfoldable pub read_deadletter_meta : Fields → DeadletterMeta
unfolding attempts_of
read_deadletter_meta event = meta_of (get event meta_key)

pub record DeadLetter : Type 0 where
  pub id : String
  pub event : Fields
  pub error : String
  pub attempts : ℤ

unfoldable pub dead_letter_of : (Value → String) → Fields → DeadLetter
unfolding read_deadletter_meta
dead_letter_of format event =
    let m = read_deadletter_meta event in
    record {
      id = event_id format event;
      event = without event meta_key;
      error = m.error;
      attempts = m.attempts;
    }

abbrev pub map_result : (Value → String) → Result (List Fields) → Result (List DeadLetter)
map_result format (err e) = err e
map_result format (ok events) = ok (map (dead_letter_of format) events)

-- `DeadLetters`: the store of dead letters, flattened.
unfoldable pub dead_letters : (Value → String) → Disk → Result (List DeadLetter)
unfolding dead_letter_of read_all
dead_letters format d = map_result format (read_all d.deadletter (list_json d.deadletter))

-- `maxInt`.
abbrev pub max_int : ℤ → ℤ → ℤ
max_int a b = if ltb_ℤ b a then a else b

abbrev pub refreshed : DeadletterMeta → Fields → Fields
refreshed m event = put (without event meta_key) meta_key (
    meta_value (record {
      error = m.error;
      attempts = max_int (read_deadletter_meta event).attempts m.attempts;
    }))

abbrev pub refresh : DeadletterMeta → Name → Result Fields → M Bool
refresh m name (err e) = fail e
refresh m name (ok event) = do act (write_deadletter name (refreshed m event)); pure true

abbrev pub refresh_found : DeadletterMeta → Option Name → M Bool
refresh_found m none = pure false
refresh_found m (some name) = do
  event ← gets (λ d. read_event d.deadletter name)
  refresh m name event

-- `UpdateDeadLetter`: rewrites a dead letter in place; the stored attempts never fall.
unfoldable pub update_dead_letter : String → DeadletterMeta → M Bool
unfolding read_event read_deadletter_meta meta_value
update_dead_letter change_id m = do
  found ← gets (λ d. find_file change_id d.deadletter)
  refresh_found m found

abbrev pub drop_found : Option Name → M Bool
drop_found none = pure false
drop_found (some name) = do act (λ d. record d { deadletter = remove name d.deadletter }); pure true

-- `RemoveDeadLetter`.
unfoldable pub remove_dead_letter : String → M Bool
remove_dead_letter change_id = do
  found ← gets (λ d. find_file change_id d.deadletter)
  drop_found found

-- ===== src/Buffer/Examples.antt =====
-- A buffer with one pending event and no `.seq`; the theorems on the buffer at that input.
use company_data_go.Prelude.{◌≡◌, refl, String, true, false, none, some, [], ◌∷◌, arith, pos, inl}
use company_data_go.Json.{Value, string, object, int, Fields, end, field, put, without}
use company_data_go.Errors.{ok}
use company_data_go.Buffer.Decimal.{itoa}
use company_data_go.Buffer.Names.{event_id, file_name, sanitize_id, id_text}
use company_data_go.Buffer.Disk.{Disk, lex_lt}
use company_data_go.Buffer.Ops.{
  append, ack, next_seq, read_seq, current_seq, dead_letter_event, DeadletterMeta, pending_events,
  meta_key, meta_value, dead_letter_of, remove_dead_letter,
}
use company_data_go.Buffer.Order.{lex_lt-file_name}
use company_data_go.Buffer.ReadBack.{atoi-itoa}
use company_data_go.Buffer.Counter.{read_seq-next_seq}
use company_data_go.Buffer.Slots.{Slots, dir_of, events}
use company_data_go.Buffer.Invariant.{IsBuffer, pending_events-IsBuffer}
use company_data_go.Buffer.Append.{Appended, append-Appended}
use company_data_go.Buffer.DeadLetters.{dead_letter_of-put, remove_dead_letter_oldest}
use company_data_go.Buffer.Settle.{
  AckOutcome, ack-AckOutcome, BuryOutcome, dead_letter_event-BuryOutcome,
}

abbrev pub event : String → Fields
event id = field "id" (string id) (field "value" (string "ciphertext") end)

abbrev pub no_format : Value → String
no_format v = ""

-- One event was left pending by an earlier run, and its `.seq` is lost.
abbrev pub small_queue : Slots
small_queue = (7, event "a") ∷ []

abbrev pub small_disk : Disk
small_disk = record {
  pending = dir_of no_format small_queue;
  deadletter = [];
  seq_file = none;
  faults = [];
}

pub small_disk-IsBuffer : IsBuffer no_format small_disk small_queue [] none 7
small_disk-IsBuffer = record {
  pending_is = refl;
  deadletter_is = refl;
  mid = 0;
  dead_rises = omega arith;
  pending_rises = omega arith;
  seq_is = inl refl;
  small = omega arith;
}

-- The second write of an append to this disk fails.
abbrev faulty_disk : Disk
faulty_disk = record small_disk { faults = false ∷ true ∷ [] }

faulty_disk-IsBuffer : IsBuffer no_format faulty_disk small_queue [] none 7
faulty_disk-IsBuffer = record {
  pending_is = refl;
  deadletter_is = refl;
  mid = 0;
  dead_rises = omega arith;
  pending_rises = omega arith;
  seq_is = inl refl;
  small = omega arith;
}

pending_events-IsBuffer_example : pending_events small_disk ≡ ok (events small_queue)
pending_events-IsBuffer_example = pending_events-IsBuffer small_disk-IsBuffer

append-Appended_example :
    Appended no_format small_queue [] none 7
      (event "b/2" ∷ event "c" ∷ [])
      (append no_format (event "b/2" ∷ event "c" ∷ []) faulty_disk)
append-Appended_example =
    append-Appended no_format (event "b/2" ∷ event "c" ∷ []) faulty_disk-IsBuffer (omega arith)

ack-AckOutcome_example :
    AckOutcome faulty_disk-IsBuffer (ack (event_id no_format (event "a")) faulty_disk)
ack-AckOutcome_example = ack-AckOutcome faulty_disk-IsBuffer

abbrev bad_key : DeadletterMeta
bad_key = record { error = "DecryptError: bad key"; attempts = pos 1 }

dead_letter_event-BuryOutcome_example :
    BuryOutcome no_format 7
      (event "a")
      []
      []
      none
      7
      bad_key
      (dead_letter_event (event_id no_format (event "a")) bad_key faulty_disk)
dead_letter_event-BuryOutcome_example = dead_letter_event-BuryOutcome faulty_disk-IsBuffer bad_key

lex_lt-file_name_example :
    (lex_lt (file_name (pos 9) "z") (file_name (pos 10) "a") ≡ true)
    × (lex_lt (file_name (pos 10) "a") (file_name (pos 9) "z") ≡ false)
lex_lt-file_name_example = lex_lt-file_name 9 10 "z" "a" (omega arith) (omega arith)

abbrev counted_disk : Disk
counted_disk = record small_disk { seq_file = some (itoa (pos 7)) }

counted_disk-current_seq : current_seq counted_disk ≡ pos 7
unfolding current_seq
counted_disk-current_seq = rw (atoi-itoa 7 (omega arith)) refl

read_seq-next_seq_example :
    ((next_seq counted_disk).0 ≡ ok (pos 8)) × (read_seq (next_seq counted_disk).1 ≡ some (pos 8))
read_seq-next_seq_example =
    read_seq-next_seq counted_disk 7 counted_disk-current_seq (omega arith) refl

dead_letter_of-put_example :
    dead_letter_of no_format
      (put (event "a") meta_key (meta_value (record { error = "busy"; attempts = pos 4 })))
    ≡ record {
      id = event_id no_format (event "a");
      event = without (event "a") meta_key;
      error = "busy";
      attempts = pos 4;
    }
dead_letter_of-put_example = dead_letter_of-put no_format (event "a") "busy" 4 (omega arith)

abbrev buried_twice : Fields
buried_twice =
    field "id" (string "a") (field "_deadletter" (object (field "attempts" (int (pos 3)) end)) end)

-- Two dead letters whose ids sanitize to the same text.
abbrev twins : Disk
twins = record {
  pending = [];
  deadletter = dir_of no_format ((7, event "b/2") ∷ (8, event "b_2") ∷ []);
  seq_file = none;
  faults = [];
}

-- Removing the second twin removes the first.
remove_dead_letter_oldest_example :
    remove_dead_letter "b_2" twins
    ≡ (ok true, record twins { deadletter = dir_of no_format ((8, event "b_2") ∷ []) })
unfolding sanitize_id event_id id_text
remove_dead_letter_oldest_example =
    remove_dead_letter_oldest no_format twins 7 (event "b/2") ((8, event "b_2") ∷ []) 8 "b_2" refl
      refl (omega arith, (omega arith, omega arith)) (omega arith) refl

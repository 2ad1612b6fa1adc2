-- ===== src/Buffer/Outcomes.antt =====
-- What Ack and DeadLetterEvent do to the directories, by the outcomes of their actions
-- (companydata/buffer.go).
use mathlib.Core.List.{append-nil}
use company_data_go.Prelude.{
  ℕ, ◌<◌, ◌≡◌, refl, ap, Bool, true, false, Option, none, some, List, [], ◌∷◌, ◌++◌, eqb, pos,
  String, arith,
}
use company_data_go.Json.{Value, Fields, put}
use company_data_go.Errors.{Result, ok, err}
use company_data_go.Buffer.Decimal.{pow10}
use company_data_go.Buffer.Names.{Name, event_id, file_name}
use company_data_go.Buffer.Disk.{Dir, Disk, write, remove, act, io_error, lex_lt}
use company_data_go.Buffer.Ops.{
  ack, dead_letter_event, DeadletterMeta, meta_value, meta_key, read_event, find_file,
}
use company_data_go.Buffer.Order.{eqb-file_name, eqb_refl, lex_lt-file_name}
use company_data_go.Buffer.Slots.{
  Slots, Ascending, Ascending-le, Ascending-raise, Ascending-snoc, slot_name, dir_of,
}
use company_data_go.Buffer.Invariant.{IsBuffer, torn_slots, event_id-put}

-- An action that failed leaves the files as they were.
pub IsBuffer-faults :
    {format : Value → String} {d : Disk} {q dl : Slots} {torn : Option Value} {hi : ℕ}
    (later : List Bool)
    → IsBuffer format d q dl torn hi
    → IsBuffer format (record d { faults = later }) q dl torn hi
IsBuffer-faults later b = record {
  pending_is = b.pending_is;
  deadletter_is = b.deadletter_is;
  mid = b.mid;
  dead_rises = b.dead_rises;
  pending_rises = b.pending_rises;
  seq_is = b.seq_is;
  small = b.small;
}

-- The slot of a dead letter.
abbrev pub buried : ℕ → Fields → Value → ℕ × Fields
buried n e m = (n, put e meta_key m)

pub torn_rises :
    (dl : Slots) (mid : ℕ) (torn : Option Value) (n : ℕ) (e : Fields) (q : Slots)
    → Ascending 0 dl mid
    → mid < n
    → Ascending 0 (dl ++ torn_slots torn ((n, e) ∷ q)) n
torn_rises dl mid none n e q h k = rw (append-nil dl) (Ascending-raise 0 dl mid n (omega arith) h)
torn_rises dl mid (some m) n e q h k = Ascending-snoc 0 dl mid n (put e meta_key m) k h

write_over :
    (n : Name) (c e : Fields) (dir : Dir) → write n e ((n, some c) ∷ dir) ≡ (n, some e) ∷ dir
unfolding write
write_over n c e dir = rw (eqb_refl n)

write_past :
    (n m : Name) (c : Option Fields) (e : Fields) (dir : Dir)
    → eqb n m ≡ false
    → lex_lt n m ≡ false
    → write n e ((m, c) ∷ dir) ≡ (m, c) ∷ write n e dir
unfolding write
write_past n m c e dir h k = rw (h, k)

-- What `Ack` does to a file that it finds, by the outcome of its action.
abbrev pub ack_outcome : Name → Disk → List Bool → Result Bool × Disk
ack_outcome name d [] = (ok true, record d { pending = remove name d.pending; faults = [] })
ack_outcome name d (true ∷ later) = (err io_error, record d { faults = later })
ack_outcome name d (false ∷ later) =
    (ok true, record d { pending = remove name d.pending; faults = later })

pub ack_lem :
    (id : String) (name : Name) (d : Disk) (fs : List Bool)
    → d.faults ≡ fs
    → find_file id d.pending ≡ some name
    → ack id d ≡ ack_outcome name d fs
unfolding ack act
ack_lem id name d [] f h = rw (h, f)
ack_lem id name d (true ∷ later) f h = rw (h, f)
ack_lem id name d (false ∷ later) f h = rw (h, f)

-- What `DeadLetterEvent` does to a file that it finds and reads, by the outcomes of its actions.
module _ (name : Name) (e : Fields) (m : DeadletterMeta) (d : Disk) where
  abbrev copy_written : Dir
  copy_written = write name (put e meta_key (meta_value m)) d.deadletter

  abbrev both_done : List Bool → Disk
  both_done later = record d {
    pending = remove name d.pending;
    deadletter = copy_written;
    faults = later;
  }

  abbrev pub bury_outcome : List Bool → Result Bool × Disk
  bury_outcome [] = (ok true, both_done [])
  bury_outcome (true ∷ later) = (err io_error, record d { faults = later })
  bury_outcome (false ∷ []) = (ok true, both_done [])
  bury_outcome (false ∷ true ∷ later) =
      (err io_error, record d { deadletter = copy_written; faults = later })
  bury_outcome (false ∷ false ∷ later) = (ok true, both_done later)

pub bury_lem :
    (id : String) (name : Name) (e : Fields) (m : DeadletterMeta) (d : Disk) (fs : List Bool)
    → d.faults ≡ fs
    → find_file id d.pending ≡ some name
    → read_event d.pending name ≡ ok e
    → dead_letter_event id m d ≡ bury_outcome name e m d fs
unfolding dead_letter_event act
bury_lem id name e m d [] f h r = rw (h, r, f)
bury_lem id name e m d (true ∷ later) f h r = rw (h, r, f)
bury_lem id name e m d (false ∷ []) f h r = rw (h, r, f)
bury_lem id name e m d (false ∷ true ∷ later) f h r = rw (h, r, f)
bury_lem id name e m d (false ∷ false ∷ later) f h r = rw (h, r, f)

-- A dead letter is written behind the others, over a torn copy of the same event.
pub write-dead_slots :
    (format : Value → String) (dl : Slots) (mid : ℕ) (torn : Option Value) (n : ℕ) (e : Fields)
    (q : Slots) (v : Value)
    → Ascending 0 dl mid
    → mid < n
    → n < pow10 16
    → write
        (slot_name format n e)
        (put e meta_key v)
        (dir_of format (dl ++ torn_slots torn ((n, e) ∷ q)))
      ≡ dir_of format (dl ++ (n, put e meta_key v) ∷ [])
write-dead_slots format dl mid torn n e q v = below 0 dl
  where
    same : slot_name format n (put e meta_key v) ≡ slot_name format n e
    same = ap (file_name (pos n)) (event_id-put format e v)

    at_end :
        (torn : Option Value)
        → write
            (slot_name format n e)
            (put e meta_key v)
            (dir_of format (torn_slots torn ((n, e) ∷ q)))
          ≡ (slot_name format n e, some (put e meta_key v)) ∷ []
    at_end none = unfold write in refl
    at_end (some w) =
        rw (event_id-put format e w)
          (rw (write_over (slot_name format n e) (put e meta_key w) (put e meta_key v) []))

    below :
        (lo : ℕ) (dl : Slots)
        → Ascending lo dl mid
        → mid < n
        → n < pow10 16
        → write
            (slot_name format n e)
            (put e meta_key v)
            (dir_of format (dl ++ torn_slots torn ((n, e) ∷ q)))
          ≡ dir_of format (dl ++ (n, put e meta_key v) ∷ [])
    below lo [] h k l = rw same (at_end torn)
    below lo ((i, f) ∷ dl) h k l =
        let i<n : i < n = omega (arith, Ascending-le i dl mid h.1) in
        rw (
          write_past (slot_name format n e) (slot_name format i f) (some f) (put e meta_key v)
              (dir_of format (dl ++ torn_slots torn ((n, e) ∷ q)))
              (eqb-file_name i n (event_id format f) (event_id format e) i<n l).1
              (lex_lt-file_name i n (event_id format f) (event_id format e) i<n l).1,
          below i dl h.1 k l,
        )

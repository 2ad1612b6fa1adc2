-- ===== src/Buffer/Settle.antt =====
-- Ack and DeadLetterEvent of the oldest event keep the buffer's invariant (companydata/buffer.go).
use mathlib.Core.List.{append-nil}
use company_data_go.Prelude.{
  ℕ, ◌≡◌, refl, Bool, true, false, Option, none, some, List, [], ◌∷◌, ◌++◌, String, arith,
}
use company_data_go.Json.{Value, Fields, put}
use company_data_go.Errors.{Error, Result, ok, err}
use company_data_go.Buffer.Names.{event_id}
use company_data_go.Buffer.Disk.{Disk, write, remove, io_error}
use company_data_go.Buffer.Ops.{
  ack, dead_letter_event, DeadletterMeta, meta_value, meta_key, find_file,
}
use company_data_go.Buffer.Slots.{
  Slots, Ascending-le, slot_name, dir_of, find_file-head, remove-head, read_event-here,
}
use company_data_go.Buffer.Invariant.{IsBuffer, dead_slots, pending_rise}
use company_data_go.Buffer.Outcomes.{
  IsBuffer-faults, buried, torn_rises, ack_outcome, ack_lem, bury_outcome, bury_lem,
  write-dead_slots,
}

module _ {format : Value → String} {d : Disk} {n : ℕ} {e : Fields} {q dl : Slots}
    {torn : Option Value} {hi : ℕ} (b : IsBuffer format d ((n, e) ∷ q) dl torn hi) where
  -- The head is removed, and a torn copy of it stays as a dead letter.
  IsBuffer-tail :
      (later : List Bool)
      → IsBuffer format
          (record d { pending = remove (slot_name format n e) d.pending; faults = later })
          q
          (dead_slots dl torn ((n, e) ∷ q))
          none
          hi
  IsBuffer-tail later = record {
    pending_is = rw b.pending_is (remove-head format n e e (dir_of format q));
    deadletter_is = rw (append-nil (dead_slots dl torn ((n, e) ∷ q))) b.deadletter_is;
    mid = n;
    dead_rises = torn_rises dl b.mid torn n e q b.dead_rises b.pending_rises.0;
    pending_rises = b.pending_rises.1;
    seq_is = b.seq_is;
    small = b.small;
  }

  head_found : find_file (event_id format e) d.pending ≡ some (slot_name format n e)
  head_found = rw b.pending_is (find_file-head format 0 n e q hi (pending_rise b) b.small)

  -- `Ack` of the oldest event removes it, or fails and changes no file.
  pub data AckOutcome (r : Result Bool × Disk) : Type 0 where
    acked :
        r.0 ≡ ok true
        → IsBuffer format r.1 q (dead_slots dl torn ((n, e) ∷ q)) none hi
        → AckOutcome r
    not_acked :
        (x : Error) → r.0 ≡ err x → IsBuffer format r.1 ((n, e) ∷ q) dl torn hi → AckOutcome r

  -- `Ack` of the oldest event removes exactly that event, or fails and leaves the queue as it was.
  pub ack-AckOutcome : AckOutcome (ack (event_id format e) d)
  ack-AckOutcome =
      rw (ack_lem (event_id format e) (slot_name format n e) d d.faults refl head_found)
        (go d.faults)
    where
      go : (fs : List Bool) → AckOutcome (ack_outcome (slot_name format n e) d fs)
      go [] = acked refl (IsBuffer-tail [])
      go (false ∷ later) = acked refl (IsBuffer-tail later)
      go (true ∷ later) = not_acked io_error refl (IsBuffer-faults later b)

  -- The head is a dead letter too.
  IsBuffer-torn :
      (m : DeadletterMeta) (later : List Bool)
      → IsBuffer format
          (record d {
            deadletter = write (slot_name format n e) (put e meta_key (meta_value m)) d.deadletter;
            faults = later;
          })
          ((n, e) ∷ q)
          dl
          (some (meta_value m))
          hi
  IsBuffer-torn m later = record {
    pending_is = b.pending_is;
    deadletter_is = rw b.deadletter_is (
        write-dead_slots format dl b.mid torn n e q (meta_value m) b.dead_rises b.pending_rises.0
          (omega (arith, Ascending-le n q hi b.pending_rises.1, b.small)));
    mid = b.mid;
    dead_rises = b.dead_rises;
    pending_rises = b.pending_rises;
    seq_is = b.seq_is;
    small = b.small;
  }

-- `DeadLetterEvent` of the oldest event moves it, or leaves it pending: with no copy of this
-- failure, or with one that a failed removal left beside it.
pub data BuryOutcome (format : Value → String) (n : ℕ) (e : Fields) (q dl : Slots)
    (torn : Option Value) (hi : ℕ) (m : DeadletterMeta) (r : Result Bool × Disk) : Type 0 where
  moved :
      r.0 ≡ ok true
      → IsBuffer format r.1 q (dl ++ buried n e (meta_value m) ∷ []) none hi
      → BuryOutcome format n e q dl torn hi m r
  copied :
      (x : Error)
      → r.0 ≡ err x
      → IsBuffer format r.1 ((n, e) ∷ q) dl (some (meta_value m)) hi
      → BuryOutcome format n e q dl torn hi m r
  not_buried :
      (x : Error)
      → r.0 ≡ err x
      → IsBuffer format r.1 ((n, e) ∷ q) dl torn hi
      → BuryOutcome format n e q dl torn hi m r

module _ {format : Value → String} {d : Disk} {n : ℕ} {e : Fields} {q dl : Slots}
    {torn : Option Value} {hi : ℕ} (b : IsBuffer format d ((n, e) ∷ q) dl torn hi)
    (m : DeadletterMeta) where
  -- `DeadLetterEvent` of the oldest event moves it behind the other dead letters, or fails and leaves
  -- it pending, with or without a copy; the invariant holds in each case.
  pub dead_letter_event-BuryOutcome :
      BuryOutcome format n e q dl torn hi m (dead_letter_event (event_id format e) m d)
  dead_letter_event-BuryOutcome =
      rw
        (bury_lem (event_id format e) (slot_name format n e) e m d d.faults refl (head_found b)
          (rw b.pending_is (read_event-here (slot_name format n e) e (dir_of format q))))
        (go d.faults)
    where
      go :
          (fs : List Bool)
          → BuryOutcome format n e q dl torn hi m (bury_outcome (slot_name format n e) e m d fs)
      go [] = moved refl (IsBuffer-tail (IsBuffer-torn b m []) [])
      go (true ∷ later) = not_buried io_error refl (IsBuffer-faults later b)
      go (false ∷ []) = moved refl (IsBuffer-tail (IsBuffer-torn b m []) [])
      go (false ∷ true ∷ later) = copied io_error refl (IsBuffer-torn b m later)
      go (false ∷ false ∷ later) = moved refl (IsBuffer-tail (IsBuffer-torn b m later) later)

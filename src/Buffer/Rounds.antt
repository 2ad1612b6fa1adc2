-- ===== src/Buffer/Rounds.antt =====
-- One round of Append (companydata/buffer.go).
use company_data_go.Prelude.{
  ℕ, suc, ◌+◌, ◌≤◌, ◌<◌, ◌≡◌, refl, ap, ◌∙◌, Bool, true, false, Option, none, some, inr, List, [],
  ◌∷◌, ◌++◌, pos, suc_ℤ, String, arith, ◌==◌, max_int64,
}
use company_data_go.Json.{Value, Fields}
use company_data_go.Errors.{Error, Result, ok, err}
use company_data_go.Buffer.Decimal.{pow10, itoa}
use company_data_go.Buffer.Names.{Name}
use company_data_go.Buffer.Disk.{Disk, write, act, io_error}
use company_data_go.Buffer.Ops.{current_seq, next_seq, append_one}
use company_data_go.Buffer.Slots.{Slots, Ascending-raise, Ascending-snoc, slot_name, write-dir_of}
use company_data_go.Buffer.Invariant.{IsBuffer, torn_slots, Counts, IsBuffer-Counts}

-- A torn copy belongs to the head of the queue, so to none where the queue is empty.
abbrev pub torn_after : Option Value → Slots → Option Value
torn_after torn [] = none
torn_after torn (s ∷ q) = torn

torn_slots-snoc :
    (torn : Option Value) (q : Slots) (s : ℕ × Fields)
    → torn_slots (torn_after torn q) (q ++ s ∷ []) ≡ torn_slots torn q
torn_slots-snoc none [] s = refl
torn_slots-snoc (some m) [] s = refl
torn_slots-snoc none ((n, e) ∷ q) s = refl
torn_slots-snoc (some m) ((n, e) ∷ q) s = refl

suc_ℤ-pos : (n : ℕ) → n < max_int64 → suc_ℤ (pos n) ≡ pos (n + 1)
suc_ℤ-pos n h = let e : (n == max_int64) ≡ false = ground arith in rw e

-- What `append_one` does, by the outcomes of its two actions.
module _ (format : Value → String) (e : Fields) (d : Disk) (n : ℕ) where
  abbrev after_seq : List Bool → Disk
  after_seq later = record d { seq_file = some (itoa (pos n)); faults = later }

  abbrev after_both : List Bool → Disk
  after_both later = record d {
    pending = write (slot_name format n e) e d.pending;
    seq_file = some (itoa (pos n));
    faults = later;
  }

  abbrev pub outcome : List Bool → Result Name × Disk
  outcome [] = (ok (slot_name format n e), after_both [])
  outcome (true ∷ later) = (err io_error, record d { faults = later })
  outcome (false ∷ []) = (ok (slot_name format n e), after_both [])
  outcome (false ∷ true ∷ later) = (err io_error, after_seq later)
  outcome (false ∷ false ∷ later) = (ok (slot_name format n e), after_both later)

append_one_lem :
    (format : Value → String) (e : Fields) (d : Disk) (n : ℕ) (fs : List Bool)
    → d.faults ≡ fs
    → suc_ℤ (current_seq d) ≡ pos n
    → append_one format e d ≡ outcome format e d n fs
unfolding append_one next_seq act
append_one_lem format e d n [] f c = rw (c, f)
append_one_lem format e d n (true ∷ later) f c = rw (c, f)
append_one_lem format e d n (false ∷ []) f c = rw (c, f)
append_one_lem format e d n (false ∷ true ∷ later) f c = rw (c, f)
append_one_lem format e d n (false ∷ false ∷ later) f c = rw (c, f)

module _ (format : Value → String) (e : Fields) where
  -- One round of the loop: the event is written at the end, or the queue stays as it was.
  pub data Round (q dl : Slots) (torn : Option Value) (hi : ℕ) (r : Result Name × Disk)
      : Type 0 where
    written :
        (n : ℕ)
        → r.0 ≡ ok (slot_name format n e)
        → n ≤ suc hi
        → IsBuffer format r.1 (q ++ (n, e) ∷ []) dl (torn_after torn q) n
        → Round q dl torn hi r
    failed :
        (x : Error) (n : ℕ)
        → r.0 ≡ err x
        → n ≤ suc hi
        → IsBuffer format r.1 q dl torn n
        → Round q dl torn hi r

module _ {format : Value → String} (e : Fields) {d : Disk} {q dl : Slots} {torn : Option Value}
    {hi : ℕ} (b : IsBuffer format d q dl torn hi) (room : suc hi < pow10 16) where
  pub append_one-Round : Round format e q dl torn hi (append_one format e d)
  append_one-Round =
      rw
        (append_one_lem format e d (c.n + 1) d.faults refl
          (ap suc_ℤ c.is_current ∙ suc_ℤ-pos c.n (omega (arith, c.within))))
        (by_faults d.faults)
    where
      c : Counts d q dl hi
      c = IsBuffer-Counts b

      kept : (later : List Bool) → IsBuffer format (record d { faults = later }) q dl torn hi
      kept later = record {
        pending_is = b.pending_is;
        deadletter_is = b.deadletter_is;
        mid = b.mid;
        dead_rises = b.dead_rises;
        pending_rises = b.pending_rises;
        seq_is = b.seq_is;
        small = b.small;
      }

      counted :
          (later : List Bool)
          → IsBuffer format (after_seq format e d (c.n + 1) later) q dl torn (c.n + 1)
      counted later = record {
        pending_is = b.pending_is;
        deadletter_is = b.deadletter_is;
        mid = c.mid;
        dead_rises = c.dead_rises;
        pending_rises = Ascending-raise c.mid q c.n (c.n + 1) (omega arith) c.pending_rises;
        seq_is = inr refl;
        small = omega (arith, c.within);
      }

      extended :
          (later : List Bool)
          → IsBuffer format
              (after_both format e d (c.n + 1) later)
              (q ++ (c.n + 1, e) ∷ [])
              dl
              (torn_after torn q)
              (c.n + 1)
      extended later = record {
        pending_is = rw b.pending_is (
            write-dir_of format c.mid q c.n (c.n + 1) e c.pending_rises (omega arith)
              (omega (arith, c.within)));
        deadletter_is = rw (torn_slots-snoc torn q (c.n + 1, e)) b.deadletter_is;
        mid = c.mid;
        dead_rises = c.dead_rises;
        pending_rises = Ascending-snoc c.mid q c.n (c.n + 1) e (omega arith) c.pending_rises;
        seq_is = inr refl;
        small = omega (arith, c.within);
      }

      by_faults : (fs : List Bool) → Round format e q dl torn hi (outcome format e d (c.n + 1) fs)
      by_faults [] = written (c.n + 1) refl (omega (arith, c.within)) (extended [])
      by_faults (true ∷ later) = failed io_error hi refl (omega arith) (kept later)
      by_faults (false ∷ []) = written (c.n + 1) refl (omega (arith, c.within)) (extended [])
      by_faults (false ∷ true ∷ later) =
          failed io_error (c.n + 1) refl (omega (arith, c.within)) (counted later)
      by_faults (false ∷ false ∷ later) =
          written (c.n + 1) refl (omega (arith, c.within)) (extended later)

-- ===== src/Buffer/Invariant.antt =====
-- What holds of the files of the buffer between two methods, failed ones included, and the
-- sequence number that the next append counts from.
use mathlib.Core.List.{append-nil}
use company_data_go.Prelude.{
  ℕ, ◌≤◌, ◌<◌, ◌≡◌, refl, Option, none, some, ◌⊎◌, inl, inr, [], ◌∷◌, ◌++◌, ℤ, pos, String, arith,
  ltb, if◌then◌else◌, Bool-cases,
}
use company_data_go.Json.{Value, Fields, put, get-put}
use company_data_go.Errors.{ok}
use company_data_go.Buffer.Decimal.{pow10, itoa}
use company_data_go.Buffer.Names.{Name, event_id, seq_of}
use company_data_go.Buffer.Disk.{Dir, Disk, list_json}
use company_data_go.Buffer.Ops.{
  better, max_seq, max_on_disk_seq, current_seq, read_all, pending_events, meta_key,
}
use company_data_go.Buffer.Order.{cut-file_name}
use company_data_go.Buffer.ReadBack.{atoi-pad, atoi-itoa}
use company_data_go.Buffer.Slots.{
  Slots, Ascending, Ascending-le, Ascending-lower, Ascending-raise, events, slot_name, dir_of,
  list_json-dir_of, read_all-dir_of,
}

-- The dead-letter copy of the oldest pending event, where a failure came between the write of that
-- copy and the removal of the pending one.
abbrev pub torn_slots : Option Value → Slots → Slots
torn_slots none q = []
torn_slots (some m) [] = []
torn_slots (some m) ((n, e) ∷ q) = (n, put e meta_key m) ∷ []

abbrev pub dead_slots : Slots → Option Value → Slots → Slots
dead_slots dl torn q = dl ++ torn_slots torn q

-- The pending directory holds `q` and the dead letters are `dl`, which came before `q`, and perhaps
-- a torn copy of the head of `q`; no number is above `hi`, and `.seq` holds `hi` or is missing.
pub record IsBuffer (format : Value → String) (d : Disk) (q dl : Slots) (torn : Option Value)
    (hi : ℕ) : Type 0 where
  pub pending_is : d.pending ≡ dir_of format q
  pub deadletter_is : d.deadletter ≡ dir_of format (dead_slots dl torn q)
  pub mid : ℕ
  pub dead_rises : Ascending 0 dl mid
  pub pending_rises : Ascending mid q hi
  pub seq_is : (d.seq_file ≡ none) ⊎ (d.seq_file ≡ some (itoa (pos hi)))
  pub small : hi < pow10 16

-- ── the highest number on disk ──

abbrev higher : ℕ → ℕ → ℕ
higher b n = if ltb b n then n else b

abbrev top : ℕ → Slots → ℕ
top b [] = b
top b ((n, e) ∷ q) = top (higher b n) q

top-ge : (b : ℕ) (q : Slots) → b ≤ top b q
top-ge b [] = omega arith
top-ge b ((n, e) ∷ q) = let ih = top-ge (higher b n) q in ground arith

top-le : (b lo : ℕ) (q : Slots) (hi : ℕ) → b ≤ hi → Ascending lo q hi → top b q ≤ hi
top-le b lo [] hi k h = k
top-le b lo ((n, e) ∷ q) hi k h =
    let n≤hi = Ascending-le n q hi h.1 in top-le (higher b n) n q hi (ground arith) h.1

top-Ascending :
    (b lo : ℕ) (q : Slots) (hi : ℕ) → lo ≤ b → Ascending lo q hi → Ascending lo q (top b q)
top-Ascending b lo [] hi k h = k
top-Ascending b lo ((n, e) ∷ q) hi k h = (h.0, top-Ascending (higher b n) n q hi (ground arith) h.1)

max_seq_step :
    (best : ℤ) (n : Name) (c : Option Fields) (dir : Dir)
    → max_seq best ((n, c) ∷ dir) ≡ max_seq (better best (seq_of n)) dir
unfolding max_seq
max_seq_step best n c dir = refl

module _ (format : Value → String) where
  seq_of-slot : (n : ℕ) (e : Fields) → n < pow10 16 → seq_of (slot_name format n e) ≡ some (pos n)
  unfolding seq_of
  seq_of-slot n e h = rw (cut-file_name n (event_id format e) h) (atoi-pad n h)

  max_seq-dir_of :
      (b lo : ℕ) (q : Slots) (hi : ℕ)
      → Ascending lo q hi
      → hi < pow10 16
      → max_seq (pos b) (dir_of format q) ≡ pos (top b q)
  max_seq-dir_of b lo [] hi h k = unfold max_seq in refl
  max_seq-dir_of b lo ((n, e) ∷ q) hi h k =
      rw
        (
          max_seq_step (pos b) (slot_name format n e) (some e) (dir_of format q),
          seq_of-slot n e (omega (arith, Ascending-le n q hi h.1)),
        )
        (elim (Bool-cases (ltb b n)) [
          | inl lt ↦ rw lt (max_seq-dir_of n n q hi h.1 k)
          | inr ge ↦ rw ge (max_seq-dir_of b n q hi h.1 k)
        ])

  -- A dead-letter copy keeps the name of its event.
  pub event_id-put :
      (e : Fields) (m : Value) → event_id format (put e meta_key m) ≡ event_id format e
  unfolding event_id
  event_id-put e m = rw (get-put e meta_key "id" m)

-- The dead letters rise up to the head of the pending queue.
dead_slots-Ascending :
    (lo : ℕ) (dl : Slots) (mid : ℕ) (torn : Option Value) (q : Slots) (hi : ℕ)
    → Ascending lo dl mid
    → Ascending mid q hi
    → Ascending lo (dl ++ torn_slots torn q) hi
dead_slots-Ascending lo [] mid none q hi h k = omega (arith, Ascending-le mid q hi k)
dead_slots-Ascending lo [] mid (some m) [] hi h k = omega arith
dead_slots-Ascending lo [] mid (some m) ((n, e) ∷ q) hi h k =
    (omega (arith, k.0), Ascending-le n q hi k.1)
dead_slots-Ascending lo ((n, e) ∷ dl) mid torn q hi h k =
    (h.0, dead_slots-Ascending n dl mid torn q hi h.1 k)

module _ {format : Value → String} {d : Disk} {q dl : Slots} {torn : Option Value} {hi : ℕ}
    (b : IsBuffer format d q dl torn hi) where
  pub dead_rise : Ascending 0 (dead_slots dl torn q) hi
  dead_rise = dead_slots-Ascending 0 dl b.mid torn q hi b.dead_rises b.pending_rises

  pub pending_rise : Ascending 0 q hi
  pending_rise = Ascending-lower 0 b.mid q hi (omega arith) b.pending_rises

  -- `Pending` returns the events of the queue, the oldest first.
  pub pending_events-IsBuffer : pending_events d ≡ ok (events q)
  unfolding pending_events
  pending_events-IsBuffer = rw b.pending_is (
      rw (list_json-dir_of format 0 q hi pending_rise b.small)
        (read_all-dir_of format 0 q hi pending_rise b.small))

  pub read_dead-IsBuffer :
      read_all d.deadletter (list_json d.deadletter) ≡ ok (events (dead_slots dl torn q))
  read_dead-IsBuffer = rw b.deadletter_is (
      rw (list_json-dir_of format 0 (dead_slots dl torn q) hi dead_rise b.small)
        (read_all-dir_of format 0 (dead_slots dl torn q) hi dead_rise b.small))

  -- What `maxOnDiskSeq` finds.
  max_on_disk_seq-IsBuffer : max_on_disk_seq d ≡ pos (top (top 0 q) (dead_slots dl torn q))
  unfolding max_on_disk_seq
  max_on_disk_seq-IsBuffer =
      rw (b.pending_is, b.deadletter_is)
        (rw (max_seq-dir_of format 0 0 q hi pending_rise b.small)
          (max_seq-dir_of format (top 0 q) 0 (dead_slots dl torn q) hi dead_rise b.small))

-- Between two bounds of its own the queue still rises.
regroup :
    (dl : Slots) (mid : ℕ) (torn : Option Value) (q : Slots) (hi n : ℕ)
    → Ascending 0 dl mid
    → Ascending mid q hi
    → Ascending 0 q n
    → Ascending 0 (dl ++ torn_slots torn q) n
    → (m : ℕ) × Ascending 0 dl m × Ascending m q n
regroup dl mid none [] hi n h k a b = (n, rw (append-nil dl) at b, omega arith)
regroup dl mid (some v) [] hi n h k a b = (n, rw (append-nil dl) at b, omega arith)
regroup dl mid torn ((i, e) ∷ q) hi n h k a b = (mid, h, (k.0, a.1))

-- The next number counts from `n`, which no file passes.
pub record Counts (d : Disk) (q dl : Slots) (hi : ℕ) : Type 0 where
  pub n : ℕ
  pub is_current : current_seq d ≡ pos n
  pub within : n ≤ hi
  pub mid : ℕ
  pub dead_rises : Ascending 0 dl mid
  pub pending_rises : Ascending mid q n

module _ {format : Value → String} {d : Disk} {q dl : Slots} {torn : Option Value} {hi : ℕ}
    (b : IsBuffer format d q dl torn hi) where
  -- The number that the next append counts from, read from `.seq` or found on disk when that file is
  -- lost, is not below the number of any file of the buffer.
  pub IsBuffer-Counts : Counts d q dl hi
  IsBuffer-Counts = elim b.seq_is [
    | inr e ↦ record {
      n = hi;
      is_current = unfold current_seq in rw (e, atoi-itoa hi (omega (arith, b.small)));
      within = omega arith;
      mid = b.mid;
      dead_rises = b.dead_rises;
      pending_rises = b.pending_rises;
    }
    | inl e ↦
        let first = top 0 q in
        let n = top first (dead_slots dl torn q) in
        let found =
          regroup dl b.mid torn q hi n b.dead_rises b.pending_rises
            (Ascending-raise 0 q first n (top-ge first (dead_slots dl torn q))
              (top-Ascending 0 0 q hi (omega arith) (pending_rise b)))
            (top-Ascending first 0 (dead_slots dl torn q) hi (omega arith) (dead_rise b)) in
        record {
          n = n;
          is_current = unfold current_seq in rw e (max_on_disk_seq-IsBuffer b);
          within =
              top-le first 0 (dead_slots dl torn q) hi
                (top-le 0 0 q hi (omega arith) (pending_rise b)) (dead_rise b);
          mid = found.0;
          dead_rises = found.1;
          pending_rises = found.2;
        }
  ]

-- ===== src/Buffer/Slots.antt =====
-- A directory of the buffer as a queue of numbered events: what listing, reading, searching,
-- writing at the end and removing at the front do on that view.
use company_data_go.Prelude.{
  ℕ, ◌≤◌, ◌<◌, ◌≡◌, refl, ap, true, false, Option, some, List, [], ◌∷◌, ◌++◌, pos, String, arith,
  eqb,
}
use company_data_go.Json.{Value, Fields}
use company_data_go.Errors.{ok}
use company_data_go.Buffer.Decimal.{pow10}
use company_data_go.Buffer.Names.{Name, event_id, file_name, sanitize_id, json_suffix, is_file_of}
use company_data_go.Buffer.Disk.{Dir, write, remove, json_names, sort_names, list_json}
use company_data_go.Buffer.Ops.{read_event, read_all, find_file}
use company_data_go.Buffer.Order.{
  lex_lt-file_name, eqb-file_name, eqb_refl, eqb_comm, id_part-file_name, is_listed-file_name,
}

-- Sequence numbers with their events, the oldest first.
abbrev pub Slots : Type 0
Slots = List (ℕ × Fields)

-- The numbers rise, all above `lo` and none above `hi`.
abbrev pub Ascending : ℕ → Slots → ℕ → Type 0
Ascending lo [] hi = lo ≤ hi
Ascending lo ((n, e) ∷ q) hi = (lo < n) × Ascending n q hi

abbrev pub events : Slots → List Fields
events [] = []
events ((n, e) ∷ q) = e ∷ events q

pub Ascending-le : (lo : ℕ) (q : Slots) (hi : ℕ) → Ascending lo q hi → lo ≤ hi
Ascending-le lo [] hi h = h
Ascending-le lo ((n, e) ∷ q) hi h = omega (arith, h.0, Ascending-le n q hi h.1)

pub Ascending-lower :
    (a lo : ℕ) (q : Slots) (hi : ℕ) → a ≤ lo → Ascending lo q hi → Ascending a q hi
Ascending-lower a lo [] hi k h = omega arith
Ascending-lower a lo ((n, e) ∷ q) hi k h = (omega (arith, h.0), h.1)

pub Ascending-raise :
    (lo : ℕ) (q : Slots) (hi b : ℕ) → hi ≤ b → Ascending lo q hi → Ascending lo q b
Ascending-raise lo [] hi b k h = omega arith
Ascending-raise lo ((n, e) ∷ q) hi b k h = (h.0, Ascending-raise n q hi b k h.1)

pub Ascending-snoc :
    (lo : ℕ) (q : Slots) (hi n : ℕ) (e : Fields)
    → hi < n
    → Ascending lo q hi
    → Ascending lo (q ++ (n, e) ∷ []) n
Ascending-snoc lo [] hi n e k h = (omega arith, omega arith)
Ascending-snoc lo ((m, f) ∷ q) hi n e k h = (h.0, Ascending-snoc m q hi n e k h.1)

pub events-snoc : (q : Slots) (n : ℕ) (e : Fields) → events (q ++ (n, e) ∷ []) ≡ events q ++ e ∷ []
events-snoc [] n e = refl
events-snoc ((m, f) ∷ q) n e = ap (λ l. f ∷ l) (events-snoc q n e)

pub read_event-skip :
    (m n : Name) (c : Option Fields) (dir : Dir)
    → eqb m n ≡ false
    → read_event ((m, c) ∷ dir) n ≡ read_event dir n
unfolding read_event
read_event-skip m n c dir h = ground (arith, eqb_comm n m)

pub read_event-here : (n : Name) (e : Fields) (dir : Dir) → read_event ((n, some e) ∷ dir) n ≡ ok e
unfolding read_event
read_event-here n e dir = ground (arith, eqb_refl n)

module _ (format : Value → String) where
  abbrev pub slot_name : ℕ → Fields → Name
  slot_name n e = file_name (pos n) (event_id format e)

  abbrev pub names : Slots → List Name
  names [] = []
  names ((n, e) ∷ q) = slot_name n e ∷ names q

  -- The directory that holds the queue.
  abbrev pub dir_of : Slots → Dir
  dir_of [] = []
  dir_of ((n, e) ∷ q) = (slot_name n e, some e) ∷ dir_of q

  json_names-dir_of :
      (lo : ℕ) (q : Slots) (hi : ℕ)
      → Ascending lo q hi
      → hi < pow10 16
      → json_names (dir_of q) ≡ names q
  json_names-dir_of lo [] hi h k = refl
  json_names-dir_of lo ((n, e) ∷ q) hi h k = rw (
    is_listed-file_name n (event_id format e) (omega (arith, Ascending-le n q hi h.1)),
    json_names-dir_of n q hi h.1 k,
  )

  sort_names-names :
      (lo : ℕ) (q : Slots) (hi : ℕ)
      → Ascending lo q hi
      → hi < pow10 16
      → sort_names (names q) ≡ names q
  unfolding sort_names
  sort_names-names lo [] hi h k = refl
  sort_names-names lo ((n, e) ∷ []) hi h k = refl
  sort_names-names lo ((n, e) ∷ (m, f) ∷ q) hi h k = rw (
    sort_names-names n ((m, f) ∷ q) hi h.1 k,
    (lex_lt-file_name n m (event_id format e) (event_id format f) h.1.0
        (omega (arith, Ascending-le m q hi h.1.1))).1,
  )

  pub list_json-dir_of :
      (lo : ℕ) (q : Slots) (hi : ℕ)
      → Ascending lo q hi
      → hi < pow10 16
      → list_json (dir_of q) ≡ names q
  unfolding list_json
  list_json-dir_of lo q hi h k = rw (json_names-dir_of lo q hi h k) (sort_names-names lo q hi h k)

  -- A file with a smaller number does not hide the later ones.
  read_all-skip :
      (lo : ℕ) (q : Slots) (hi : ℕ) (f c : Fields) (dir : Dir)
      → Ascending lo q hi
      → hi < pow10 16
      → read_all ((slot_name lo f, some c) ∷ dir) (names q) ≡ read_all dir (names q)
  unfolding read_all
  read_all-skip lo [] hi f c dir h k = refl
  read_all-skip lo ((n, e) ∷ q) hi f c dir h k = rw (
    read_event-skip (slot_name lo f) (slot_name n e) (some c) dir
        (eqb-file_name lo n (event_id format f) (event_id format e) h.0
          (omega (arith, Ascending-le n q hi h.1))).0,
    read_all-skip lo q hi f c dir (Ascending-lower lo n q hi (omega (arith, h.0)) h.1) k,
  )

  pub read_all-dir_of :
      (lo : ℕ) (q : Slots) (hi : ℕ)
      → Ascending lo q hi
      → hi < pow10 16
      → read_all (dir_of q) (names q) ≡ ok (events q)
  unfolding read_all
  read_all-dir_of lo [] hi h k = refl
  read_all-dir_of lo ((n, e) ∷ q) hi h k = rw (
    read_event-here (slot_name n e) e (dir_of q),
    read_all-skip n q hi e e (dir_of q) h.1 k,
    read_all-dir_of n q hi h.1 k,
  )

  -- An event with a number above all is written at the end.
  pub write-dir_of :
      (lo : ℕ) (q : Slots) (hi n : ℕ) (e : Fields)
      → Ascending lo q hi
      → hi < n
      → n < pow10 16
      → write (slot_name n e) e (dir_of q) ≡ dir_of (q ++ (n, e) ∷ [])
  unfolding write
  write-dir_of lo [] hi n e h k l = refl
  write-dir_of lo ((m, f) ∷ q) hi n e h k l =
      let m<n : m < n = omega (arith, Ascending-le m q hi h.1) in
      rw (
        (eqb-file_name m n (event_id format f) (event_id format e) m<n l).1,
        (lex_lt-file_name m n (event_id format f) (event_id format e) m<n l).1,
        write-dir_of m q hi n e h.1 k l,
      )

  pub is_file_of-slot :
      (n : ℕ) (e : Fields) → n < pow10 16 → is_file_of (event_id format e) (slot_name n e) ≡ true
  unfolding is_file_of
  is_file_of-slot n e h =
      rw (id_part-file_name n (event_id format e) h)
        (eqb_refl (sanitize_id (event_id format e) ++ json_suffix))

  -- The search for the id of the oldest event finds its file.
  pub find_file-head :
      (lo n : ℕ) (e : Fields) (q : Slots) (hi : ℕ)
      → Ascending lo ((n, e) ∷ q) hi
      → hi < pow10 16
      → find_file (event_id format e) (dir_of ((n, e) ∷ q)) ≡ some (slot_name n e)
  unfolding find_file
  find_file-head lo n e q hi h k =
      rw (list_json-dir_of lo ((n, e) ∷ q) hi h k)
        (rw (is_file_of-slot n e (omega (arith, Ascending-le n q hi h.1))))

  pub remove-head :
      (n : ℕ) (e c : Fields) (dir : Dir)
      → remove (slot_name n e) ((slot_name n e, some c) ∷ dir) ≡ dir
  unfolding remove
  remove-head n e c dir = rw (eqb_refl (slot_name n e))

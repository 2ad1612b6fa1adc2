-- ===== src/Buffer/DeadLetters.antt =====
-- The context of a dead letter, and the file that an id finds (companydata/buffer.go:
-- readDeadletterMeta, UpdateDeadLetter, RemoveDeadLetter).
use company_data_go.Prelude.{
  ℕ, ◌≤◌, ◌<◌, ◌≡◌, refl, String, true, Bool-cases, some, inl, inr, List, [], ◌∷◌, pos, ltb,
  max_int64, str_eq, eq_refl, if◌then◌else◌,
}
use company_data_go.Json.{Value, Fields, end, field, put, without, get-put}
use company_data_go.Errors.{ok}
use company_data_go.Buffer.Decimal.{pow10}
use company_data_go.Buffer.Names.{Name, event_id, sanitize_id, is_file_of}
use company_data_go.Buffer.Disk.{Dir, Disk, list_json, act}
use company_data_go.Buffer.Ops.{
  find_file, first_file, meta_value, meta_key, attempts_of, meta_of, read_deadletter_meta,
  dead_letter_of, refreshed, remove_dead_letter,
}
use company_data_go.Buffer.ReadBack.{atoi-itoa_plain}
use company_data_go.Buffer.Slots.{Slots, Ascending, dir_of, find_file-head, remove-head}
use company_data_go.Buffer.Invariant.{event_id-put}

meta_of-meta_value :
    (msg : String) (n : ℕ)
    → n ≤ max_int64
    → meta_of (some (meta_value (record { error = msg; attempts = pos n })))
      ≡ record { error = msg; attempts = pos n }
unfolding meta_value attempts_of
meta_of-meta_value msg n h = rw (atoi-itoa_plain n h) refl

-- The context that a dead letter is stored with is read back.
pub read_deadletter_meta-put :
    (e : Fields) (msg : String) (n : ℕ)
    → n ≤ max_int64
    → read_deadletter_meta (put e meta_key (meta_value (record { error = msg; attempts = pos n })))
      ≡ record { error = msg; attempts = pos n }
unfolding read_deadletter_meta
read_deadletter_meta-put e msg n h =
    rw (get-put e meta_key meta_key (meta_value (record { error = msg; attempts = pos n })))
      (meta_of-meta_value msg n h)

without-put : (e : Fields) (k : String) (v : Value) → without (put e k v) k ≡ without e k
unfolding without put
without-put end k v = rw (eq_refl k)
without-put (field j w m) k v = elim (Bool-cases (str_eq j k)) [
  | inl h ↦ rw h (rw (eq_refl k) refl)
  | inr h ↦ rw h (rw (h, without-put m k v) refl)
]

without-without : (e : Fields) (k : String) → without (without e k) k ≡ without e k
unfolding without
without-without end k = refl
without-without (field j w m) k = elim (Bool-cases (str_eq j k)) [
  | inl h ↦ rw h (without-without m k)
  | inr h ↦ rw h (rw (h, without-without m k))
]

-- A buried event comes back from the dead letters with its id, its error and its attempts, and
-- without any entry that the context was stored under.
pub dead_letter_of-put :
    (format : Value → String) (e : Fields) (msg : String) (n : ℕ)
    → n ≤ max_int64
    → dead_letter_of format (put e meta_key (meta_value (record { error = msg; attempts = pos n })))
      ≡ record { id = event_id format e; event = without e meta_key; error = msg; attempts = pos n }
unfolding dead_letter_of
dead_letter_of-put format e msg n h = rw (
  read_deadletter_meta-put e msg n h,
  event_id-put format e (meta_value (record { error = msg; attempts = pos n })),
  without-put e meta_key (meta_value (record { error = msg; attempts = pos n })),
)

dead_letter_of-event :
    (format : Value → String) (e : Fields) → (dead_letter_of format e).event ≡ without e meta_key
unfolding dead_letter_of
dead_letter_of-event format e = refl

-- An update takes the new message and the larger number of attempts, and keeps the event.
pub dead_letter_of-refreshed :
    (format : Value → String) (e : Fields) (msg : String) (a b : ℕ)
    → (read_deadletter_meta e).attempts ≡ pos a
    → a ≤ max_int64
    → b ≤ max_int64
    → ((dead_letter_of format (refreshed (record { error = msg; attempts = pos b }) e)).error ≡ msg)
      × ((dead_letter_of format (refreshed (record { error = msg; attempts = pos b }) e)).attempts
          ≡ pos (if ltb b a then a else b))
      × ((dead_letter_of format (refreshed (record { error = msg; attempts = pos b }) e)).event
          ≡ (dead_letter_of format e).event)
dead_letter_of-refreshed format e msg a b k h i =
    rw k (elim (Bool-cases (ltb b a)) [ inl l ↦ rw l (parts a h) | inr l ↦ rw l (parts b i) ])
  where
    parts :
        (n : ℕ)
        → n ≤ max_int64
        → ((dead_letter_of format (
              put
                (without e meta_key)
                meta_key
                (meta_value (record { error = msg; attempts = pos n })))).error
            ≡ msg)
          × ((dead_letter_of format (
                put
                  (without e meta_key)
                  meta_key
                  (meta_value (record { error = msg; attempts = pos n })))).attempts
              ≡ pos n)
          × ((dead_letter_of format (
                put
                  (without e meta_key)
                  meta_key
                  (meta_value (record { error = msg; attempts = pos n })))).event
              ≡ (dead_letter_of format e).event)
    parts n j =
        rw (dead_letter_of-put format (without e meta_key) msg n j, dead_letter_of-event format e)
          (refl, refl, without-without e meta_key)

-- ── the file that an id finds ──

first_file-sanitized :
    (i j : String) (ns : List Name)
    → sanitize_id i ≡ sanitize_id j
    → first_file i ns ≡ first_file j ns
unfolding is_file_of
first_file-sanitized i j [] h = refl
first_file-sanitized i j (n ∷ ns) h = rw (h, first_file-sanitized i j ns h)

find_file-sanitized :
    (i j : String) (dir : Dir) → sanitize_id i ≡ sanitize_id j → find_file i dir ≡ find_file j dir
unfolding find_file
find_file-sanitized i j dir h = first_file-sanitized i j (list_json dir) h

-- When the disk does not fail, an id that sanitizes to the same text as the oldest dead letter's
-- removes that one.
pub remove_dead_letter_oldest :
    (format : Value → String) (d : Disk) (n : ℕ) (e : Fields) (q : Slots) (hi : ℕ) (id : String)
    → d.deadletter ≡ dir_of format ((n, e) ∷ q)
    → d.faults ≡ []
    → Ascending 0 ((n, e) ∷ q) hi
    → hi < pow10 16
    → sanitize_id id ≡ sanitize_id (event_id format e)
    → remove_dead_letter id d ≡ (ok true, record d { deadletter = dir_of format q })
unfolding remove_dead_letter act
remove_dead_letter_oldest format d n e q hi id c f r k h = rw c (
    rw
      (
        find_file-sanitized id (event_id format e) (dir_of format ((n, e) ∷ q)) h,
        find_file-head format 0 n e q hi r k,
      )
      (rw f (rw (remove-head format n e e (dir_of format q)) refl)))

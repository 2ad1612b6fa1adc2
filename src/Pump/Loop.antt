-- ===== src/Pump/Loop.antt =====
-- The pump (companydata/pump.go). The drain source, the decryption, the handler and the sleep are
-- the environment's: they act on a world that the pump passes along beside the buffer's disk.
use company_data_go.Prelude.{
  ℕ, zero, suc, ◌+◌, String, Bool, true, false, Option, none, some, List, [], ◌∷◌, ℤ, pos, leb,
  length, ltb_ℤ, if◌then◌else◌,
}
use Prim.Native.String.{◌++◌ as cat}
use company_data_go.Json.{Value, Fields}
use company_data_go.Errors.{Error, is_decrypt, message, Result, ok, err}
use company_data_go.Buffer.Names.{Name, event_id}
use company_data_go.Buffer.Disk.{Disk}
use company_data_go.Buffer.Ops.{append, pending_events, ack, dead_letter_event}
use company_data_go.Pump.Options.{Resolved, is_halt, clamp_batch}

-- What the pump is given: `format` is fmt's "%v", `fetch` drains at most so many events.
pub record Env (World Change : Type 0) : Type 0 where
  pub format : Value → String
  pub fetch : ℕ → World → Result (List Fields) × World
  pub decrypt : Fields → World → Result Change × World
  pub handle : Change → World → Option Error × World
  pub sleep : ℤ → World → World

pub record State (World : Type 0) : Type 0 where
  pub disk : Disk
  pub world : World

-- One attempt to deliver: it settled, or it failed with a handler's (or another) error.
pub data Attempt (World : Type 0) : Type 0 where
  settled : Option Error → State World → Attempt World
  undecryptable : Error → State World → Attempt World
  refused : Error → State World → Attempt World

module _ {World Change : Type 0} (env : Env World Change) where
  abbrev pub on_disk : Result Bool × Disk → World → Option Error × State World
  on_disk (ok b, d) w = (none, record { disk = d; world = w })
  on_disk (err x, d) w = (some x, record { disk = d; world = w })

  -- The handler is called on a decrypted change; its success is acked.
  abbrev pub after_handler : String → Option Error × World → Disk → Attempt World
  after_handler change_id (none, w) d = let (r, s) = on_disk (ack change_id d) w in settled r s
  after_handler change_id (some x, w) d = refused x (record { disk = d; world = w })

  abbrev pub after_decrypt : String → Result Change × World → Disk → Attempt World
  after_decrypt change_id (ok c, w) d = after_handler change_id (env.handle c w) d
  after_decrypt change_id (err x, w) d =
      if is_decrypt x
      then undecryptable x (record { disk = d; world = w })
      else refused x (record { disk = d; world = w })

  -- One round of the loop of `deliverOne`, up to its decision on a failure.
  unfoldable pub attempt : Fields → State World → Attempt World
  attempt event s = after_decrypt (event_id env.format event) (env.decrypt event s.world) s.disk

  -- The event goes to the dead letters with the failure and the attempts made.
  unfoldable pub give_up : String → String → ℕ → State World → Option Error × State World
  give_up change_id msg attempts s =
      on_disk (dead_letter_event change_id (record { error = msg; attempts = pos attempts }) s.disk)
        s.world

  unfoldable pub on_poison :
      Resolved → Fields → Error → ℕ → State World → Option Error × State World
  unfolding give_up
  on_poison o event x attempts s =
      if is_halt o
      then (some x, s)
      else give_up (event_id env.format event) (cat "DecryptError: " (message x)) attempts s

  unfoldable pub on_exhausted :
      Resolved → Fields → Error → ℕ → State World → Option Error × State World
  unfolding give_up
  on_exhausted o event x attempts s =
      if is_halt o then (some x, s) else give_up (event_id env.format event) (message x) attempts s

  -- The delay before a retry; a negative one is no sleep.
  unfoldable pub pause : Resolved → ℕ → State World → State World
  pause o attempts s =
      let delay = o.backoff attempts in
      if ltb_ℤ (pos 0) delay then record s { world = env.sleep delay s.world } else s

  -- The loop of `deliverOne`: `left` bounds the retries that can follow, `attempts` counts this one.
  unfoldable pub deliver_loop : Resolved → Fields → ℕ → ℕ → State World → Option Error × State World
  deliver_loop o event zero attempts s = elim (attempt event s) [
    | settled r s' ↦ (r, s')
    | undecryptable x s' ↦ on_poison o event x attempts s'
    | refused x s' ↦ on_exhausted o event x attempts s'
  ]
  deliver_loop o event (suc left) attempts s = elim (attempt event s) [
    | settled r s' ↦ (r, s')
    | undecryptable x s' ↦ on_poison o event x attempts s'
    | refused x s' ↦ elim (leb attempts o.retries) [
      | true ↦ deliver_loop o event left (attempts + 1) (pause o attempts s')
      | false ↦ on_exhausted o event x attempts s'
    ]
  ]

  unfoldable pub deliver_one : Resolved → Fields → State World → Option Error × State World
  unfolding deliver_loop
  deliver_one o event s = deliver_loop o event o.retries 1 s

  -- The loop over the pending events; the first error stops it.
  unfoldable pub deliver_all : Resolved → List Fields → State World → Option Error × State World
  deliver_all o [] s = (none, s)
  deliver_all o (event ∷ events) s =
      let (r, s') = deliver_one o event s in
      elim r [ none ↦ deliver_all o events s' | some x ↦ (some x, s') ]

  abbrev pub persisted : ℕ → World → (List Name × Option Error) × Disk → Result ℕ × State World
  persisted n w ((names, none), d) = (ok n, record { disk = d; world = w })
  persisted n w ((names, some x), d) = (err x, record { disk = d; world = w })

  abbrev pub after_fetch : Result (List Fields) × World → Disk → Result ℕ × State World
  after_fetch (err x, w) d = (err x, record { disk = d; world = w })
  after_fetch (ok [], w) d = (ok 0, record { disk = d; world = w })
  after_fetch (ok (e ∷ es), w) d = persisted (length (e ∷ es)) w (append env.format (e ∷ es) d)

  unfoldable pub drain_into_buffer : ℕ → State World → Result ℕ × State World
  drain_into_buffer size s = after_fetch (env.fetch size s.world) s.disk

  -- What a cycle delivers, or how the pump returns.
  pub data Batch : Type 0 where
    stop : Option Error → State World → Batch
    deliver : List Fields → State World → Batch

  abbrev pub from_buffer : State World → Result (List Fields) → Batch
  from_buffer s (err x) = stop (some x) s
  from_buffer s (ok events) = deliver events s

  abbrev pub from_drain : Result ℕ × State World → Batch
  from_drain (err x, s) = stop (some x) s
  from_drain (ok zero, s) = stop none s
  from_drain (ok (suc n), s) = from_buffer s (pending_events s.disk)

  -- Replay first: only an empty buffer is filled from the feed.
  abbrev pub from_pending : Resolved → State World → Result (List Fields) → Batch
  from_pending o s (err x) = stop (some x) s
  from_pending o s (ok []) = from_drain (drain_into_buffer o.batch s)
  from_pending o s (ok (e ∷ es)) = deliver (e ∷ es) s

  unfoldable pub next_batch : Resolved → State World → Batch
  next_batch o s = from_pending o s (pending_events s.disk)

  -- `ProcessChanges` after the defaults; `none` means that the fuel, one for a cycle, ran out.
  unfoldable pub process_changes : Resolved → ℕ → State World → Option (Option Error × State World)
  process_changes o zero s = none
  process_changes o (suc fuel) s = elim (next_batch o s) [
    | stop r s' ↦ some (r, s')
    | deliver events s' ↦
        let (r, s'') = deliver_all o events s' in
        elim r [ none ↦ process_changes o fuel s'' | some x ↦ some (some x, s'') ]
  ]

  -- The rest of the batch is decrypted unless this event failed.
  abbrev add_change : Change → Result (List Change) × World → Result (List Change) × World
  add_change c (ok cs, w) = (ok (c ∷ cs), w)
  add_change c (err x, w) = (err x, w)

  unfoldable pub decrypt_all : List Fields → World → Result (List Change) × World
  decrypt_all [] w = (ok [], w)
  decrypt_all (e ∷ es) w =
      let (r, w') = env.decrypt e w in
      elim r [ ok c ↦ add_change c (decrypt_all es w') | err x ↦ (err x, w') ]

  abbrev decrypt_fetched : Result (List Fields) × World → Result (List Change) × World
  decrypt_fetched (err x, w) = (err x, w)
  decrypt_fetched (ok es, w) = decrypt_all es w

  -- `DrainBatch`: nothing is persisted.
  unfoldable pub drain_batch : ℤ → World → Result (List Change) × World
  drain_batch max w = decrypt_fetched (env.fetch (clamp_batch max) w)

-- ===== src/Pump/Redrive.antt =====
-- `RetryDeadLetters` (companydata/pump.go).
use company_data_go.Prelude.{
  ℕ, zero, suc, ◌+◌, String, true, false, Option, none, some, List, [], ◌∷◌, pos, leb,
  if◌then◌else◌,
}
use Prim.Native.String.{◌++◌ as cat}
use company_data_go.Errors.{Error, is_decrypt, message, Result, ok, err}
use company_data_go.Buffer.Disk.{Disk}
use company_data_go.Buffer.Ops.{DeadLetter, dead_letters, update_dead_letter, remove_dead_letter}
use company_data_go.Pump.Options.{Resolved, is_halt}
use company_data_go.Pump.Loop.{Env, State, on_disk, pause}

-- How the loop over one record ends: the next record follows, after a success or not, or the
-- method returns an error.
pub data Redriven (World : Type 0) : Type 0 where
  done : State World → Redriven World
  kept : State World → Redriven World
  stopped : Error → State World → Redriven World

-- One attempt: its end, or the failure that is retried.
pub data Retry (World : Type 0) : Type 0 where
  finished : Redriven World → Retry World
  poison : Error → State World → Retry World
  refused : Error → State World → Retry World

module _ {World Change : Type 0} (env : Env World Change) where
  abbrev pub removed : Option Error × State World → Redriven World
  removed (none, s) = done s
  removed (some x, s) = stopped x s

  abbrev pub after_handler : DeadLetter → Option Error × World → Disk → Retry World
  after_handler rec (none, w) d = finished (removed (on_disk env (remove_dead_letter rec.id d) w))
  after_handler rec (some x, w) d = refused x (record { disk = d; world = w })

  abbrev pub after_decrypt : DeadLetter → Result Change × World → Disk → Retry World
  after_decrypt rec (ok c, w) d = after_handler rec (env.handle c w) d
  after_decrypt rec (err x, w) d =
      if is_decrypt x
      then poison x (record { disk = d; world = w })
      else refused x (record { disk = d; world = w })

  unfoldable pub attempt : DeadLetter → State World → Retry World
  attempt rec s = after_decrypt rec (env.decrypt rec.event s.world) s.disk

  abbrev pub updated : Option Error × State World → Redriven World
  updated (none, s) = kept s
  updated (some x, s) = stopped x s

  -- The record stays, its failure context refreshed in place.
  unfoldable pub keep : Resolved → DeadLetter → Error → String → ℕ → State World → Redriven World
  keep o rec x msg attempts s =
      if is_halt o
      then stopped x s
      else updated (
          on_disk env
            (update_dead_letter rec.id (record { error = msg; attempts = pos attempts }) s.disk)
            s.world)

  -- The loop over one record; `left` bounds the retries that can follow.
  unfoldable pub redrive_loop : Resolved → DeadLetter → ℕ → ℕ → State World → Redriven World
  redrive_loop o rec zero attempts s = elim (attempt rec s) [
    | finished r ↦ r
    | poison x s' ↦ keep o rec x (cat "DecryptError: " (message x)) attempts s'
    | refused x s' ↦ keep o rec x (message x) attempts s'
  ]
  redrive_loop o rec (suc left) attempts s = elim (attempt rec s) [
    | finished r ↦ r
    | poison x s' ↦ keep o rec x (cat "DecryptError: " (message x)) attempts s'
    | refused x s' ↦ elim (leb attempts o.retries) [
      | true ↦ redrive_loop o rec left (attempts + 1) (pause env o attempts s')
      | false ↦ keep o rec x (message x) attempts s'
    ]
  ]

  -- The loop over the records; `redriven` counts the successes.
  unfoldable pub redrive_all :
      Resolved → ℕ → List DeadLetter → State World → ℕ × Option Error × State World
  redrive_all o redriven [] s = (redriven, none, s)
  redrive_all o redriven (rec ∷ recs) s = elim (redrive_loop o rec o.retries 1 s) [
    | done s' ↦ redrive_all o (redriven + 1) recs s'
    | kept s' ↦ redrive_all o redriven recs s'
    | stopped x s' ↦ (redriven, some x, s')
  ]

  abbrev pub redrive_records :
      Resolved → State World → Result (List DeadLetter) → ℕ × Option Error × State World
  redrive_records o s (err x) = (0, some x, s)
  redrive_records o s (ok recs) = redrive_all o 0 recs s

  unfoldable pub retry_dead_letters : Resolved → State World → ℕ × Option Error × State World
  retry_dead_letters o s = redrive_records o s (dead_letters env.format s.disk)

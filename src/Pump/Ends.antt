-- ===== src/Pump/Ends.antt =====
-- `ProcessChanges` returns when the feed runs dry.
use company_data_go.Prelude.{
  ℕ, zero, suc, ◌+◌, ◌*◌, ◌≤◌, ◌<◌, ◌≡◌, refl, Option, none, some, List, [], ◌∷◌, ◌++◌, arith,
  length,
}
use company_data_go.Json.{Value, Fields}
use company_data_go.Errors.{Error, Result, ok, err}
use company_data_go.Buffer.Decimal.{pow10}
use company_data_go.Buffer.Disk.{Disk}
use company_data_go.Buffer.Names.{Name}
use company_data_go.Buffer.Ops.{append, pending_events}
use company_data_go.Buffer.Slots.{Slots, events}
use company_data_go.Buffer.Invariant.{IsBuffer, pending_events-IsBuffer}
use company_data_go.Pump.Options.{Resolved}
use company_data_go.Pump.Loop.{
  Env, State, deliver_all, drain_into_buffer, after_fetch, persisted, Batch, stop, deliver,
  from_buffer, from_drain, next_batch, process_changes,
}
use company_data_go.Pump.Process.{Passed, deliver_all-Passed}
use company_data_go.Pump.Feed.{Drains, deliver_all_keeps}
use company_data_go.Pump.Opening.{IsLimited, Opened, stopped, opened, next_batch-Opened}
use company_data_go.Pump.Run.{process_changes-suc, run_batch, after_pass}

module _ {World Change : Type 0} (env : Env World Change) (o : Resolved) (dry : Drains env) where
  open dry use {remaining}

  -- A cycle delivers what was buffered, or what leaves fewer events to come.
  abbrev IsProgress : State World → Slots → Batch env → Type 0
  IsProgress s q (stop r s') = Unit
  IsProgress s [] (deliver es s') = remaining s'.world < remaining s.world
  IsProgress s (x ∷ q) (deliver es s') = remaining s'.world ≤ remaining s.world

  loaded-IsProgress :
      (s : State World) (w' : World) (r : Result (List Fields)) (d : Disk)
      → remaining w' < remaining s.world
      → IsProgress s [] (from_buffer env (record { disk = d; world = w' }) r)
  loaded-IsProgress s w' (err x) d h = tt
  loaded-IsProgress s w' (ok es) d h = h

  persisted-IsProgress :
      (s : State World) (w' : World) (e : Fields) (es : List Fields)
      (r : (List Name × Option Error) × Disk)
      → remaining w' < remaining s.world
      → IsProgress s [] (from_drain env (persisted env (length (e ∷ es)) w' r))
  persisted-IsProgress s w' e es ((names, none), d) h =
      loaded-IsProgress s w' (pending_events d) d h
  persisted-IsProgress s w' e es ((names, some x), d) h = tt

  fetched-IsProgress :
      (s : State World) (r : Result (List Fields) × World) (d : Disk)
      → env.fetch o.batch s.world ≡ r
      → IsProgress s [] (from_drain env (after_fetch env r d))
  fetched-IsProgress s (err x, w) d k = tt
  fetched-IsProgress s (ok [], w) d k = tt
  fetched-IsProgress s (ok (e ∷ es), w) d k =
      persisted-IsProgress s w e es (append env.format (e ∷ es) d)
        (dry.fetch_fewer o.batch s.world w e es k)

  next_batch-IsProgress :
      (q : Slots) (s : State World) {dl : Slots} {torn : Option Value} {hi : ℕ}
      → IsBuffer env.format s.disk q dl torn hi
      → IsProgress s q (next_batch env o s)
  unfolding next_batch
  next_batch-IsProgress [] s b =
      rw (pending_events-IsBuffer b)
        (unfold drain_into_buffer in fetched-IsProgress s (env.fetch o.batch s.world) s.disk refl)
  next_batch-IsProgress ((n, e) ∷ q) s b = rw (pending_events-IsBuffer b) (omega arith)

  -- The cycles that a run from the queue `q` needs: one more to deliver what is buffered.
  abbrev pub cycles : Slots → State World → ℕ
  cycles [] s = remaining s.world + 1
  cycles (x ∷ q) s = remaining s.world + 2

  fewer_cycles :
      (q : Slots) (s s' : State World) (es : List Fields) (fuel : ℕ)
      → IsProgress s q (deliver es s')
      → cycles q s ≤ suc fuel
      → remaining s'.world + 1 ≤ fuel
  fewer_cycles [] s s' es fuel h k = omega arith
  fewer_cycles (x ∷ q) s s' es fuel h k = omega arith

  some_cycle : (q : Slots) (s : State World) → 1 ≤ cycles q s
  some_cycle [] s = omega arith
  some_cycle (x ∷ q) s = omega arith

  -- With a cycle for each event still to come, and two more, the pump returns.
  pub process_changes_ends :
      (limited : IsLimited env) (fuel : ℕ) (q : Slots) (s : State World) (dl : Slots)
      (torn : Option Value) (hi : ℕ)
      → IsBuffer env.format s.disk q dl torn hi
      → hi + fuel * o.batch < pow10 16
      → cycles q s ≤ fuel
      → (r : Option Error × State World) × (process_changes env o fuel s ≡ some r)
  process_changes_ends limited zero q s dl torn hi b room enough =
      absurd (omega (arith, some_cycle q s))
  process_changes_ends limited (suc fuel) q s dl torn hi b room enough =
      rw (process_changes-suc env o limited fuel s) (
        by_opening (next_batch env o s) (next_batch-Opened env o limited q s b (grind arith))
          (next_batch-IsProgress q s b)
          (λ s' dl' torn' hi' le b' m.
            process_changes_ends limited fuel [] s' dl' torn' hi' b' (grind arith) m))
    where
      by_opening :
          (batch : Batch env)
          → Opened env o q dl hi batch
          → IsProgress s q batch
          → ((s' : State World) (dl' : Slots) (torn' : Option Value) (hi' : ℕ)
              → hi' ≤ hi + o.batch
              → IsBuffer env.format s'.disk [] dl' torn' hi'
              → remaining s'.world + 1 ≤ fuel
              → (r : Option Error × State World) × (process_changes env o fuel s' ≡ some r))
          → (r : Option Error × State World) × (run_batch env o limited fuel batch ≡ some r)
      by_opening batch (stopped r s' added torn' hi' e b' le c feed) p ih = ((r, s'), rw e)
      by_opening batch (opened s' added torn' hi' e b' le feed) p ih = rw e (
          by_pass (deliver_all env o (events (q ++ added)) s')
            (deliver_all-Passed env o (q ++ added) dl torn' hi' s' b')
            (omega (
              arith,
              deliver_all_keeps env o dry (events (q ++ added)) s',
              fewer_cycles q s s' (events (q ++ added)) fuel (rw e at p) enough,
            )))
        where
          by_pass :
              (r : Option Error × State World)
              → Passed env (q ++ added) dl hi' r
              → remaining r.1.world + 1 ≤ fuel
              → (x : Option Error × State World) × (after_pass env o limited fuel r ≡ some x)
          by_pass (none, s₂) pa m =
              ih s₂ pa.dl' pa.torn' hi' le (rw (pa.complete refl) at pa.holds) m
          by_pass (some x, s₂) pa m = ((some x, s₂), refl)

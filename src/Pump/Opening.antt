-- ===== src/Pump/Opening.antt =====
-- What a cycle of the pump begins with: the queue, or a batch that it drained and persisted
-- (companydata/pump.go: ProcessChanges, drainIntoBuffer).
use mathlib.Core.List.{append_assoc, append-nil}
use company_data_go.Prelude.{
  ℕ, ◌+◌, ◌≤◌, ◌<◌, ◌≡◌, refl, Option, none, some, List, [], ◌∷◌, ◌++◌, arith, length,
}
use company_data_go.Json.{Value, Fields}
use company_data_go.Errors.{Error, Result, ok, err}
use company_data_go.Buffer.Decimal.{pow10}
use company_data_go.Buffer.Disk.{Disk}
use company_data_go.Buffer.Names.{Name}
use company_data_go.Buffer.Ops.{append}
use company_data_go.Buffer.Slots.{Slots, events}
use company_data_go.Buffer.Invariant.{IsBuffer, pending_events-IsBuffer}
use company_data_go.Buffer.Append.{Appended, append-Appended}
use company_data_go.Pump.Options.{Resolved}
use company_data_go.Pump.Loop.{
  Env, State, drain_into_buffer, after_fetch, persisted, Batch, stop, deliver, from_drain,
  next_batch,
}

-- The drain source returns no more events than it is asked for.
pub record IsLimited {World Change : Type 0} (env : Env World Change) : Type 0 where
  pub limit :
      (size : ℕ) (w w' : World) (es : List Fields)
      → env.fetch size w ≡ (ok es, w')
      → length es ≤ size

module _ {World Change : Type 0} (env : Env World Change) (o : Resolved) where
  -- Slots that the pump persisted: prefixes of batches that the drain source returned, in order.
  pub data FromFeed : Slots → Type 0 where
    nothing : FromFeed []
    one_drain :
        {later : Slots} (added : Slots) (es left : List Fields) (w w' : World)
        → env.fetch o.batch w ≡ (ok es, w')
        → events added ++ left ≡ es
        → FromFeed later
        → FromFeed (added ++ later)

  one_batch :
      (added : Slots) (left : List Fields) {es : List Fields} {w w' : World}
      → env.fetch o.batch w ≡ (ok es, w')
      → events added ++ left ≡ es
      → FromFeed added
  one_batch added left {es} {w} {w'} k e =
      rw (append-nil added) at (one_drain added es left w w' k e nothing)

  pub FromFeed-append : {a b : Slots} → FromFeed a → FromFeed b → FromFeed (a ++ b)
  FromFeed-append nothing g = g
  FromFeed-append {b = b} (one_drain {later} added es left w w' k e f) g =
      rw (append_assoc added later b) (one_drain added es left w w' k e (FromFeed-append f g))

  -- What a cycle begins with: the queue, extended by what was drained.
  pub data Opened (q dl : Slots) (hi : ℕ) (batch : Batch env) : Type 0 where
    stopped :
        (r : Option Error) (s : State World) (added : Slots) (torn : Option Value) (hi' : ℕ)
        → batch ≡ stop r s
        → IsBuffer env.format s.disk (q ++ added) dl torn hi'
        → hi' ≤ hi + o.batch
        → (r ≡ none → q ++ added ≡ [])
        → FromFeed added
        → Opened q dl hi batch
    opened :
        (s : State World) (added : Slots) (torn : Option Value) (hi' : ℕ)
        → batch ≡ deliver (events (q ++ added)) s
        → IsBuffer env.format s.disk (q ++ added) dl torn hi'
        → hi' ≤ hi + o.batch
        → FromFeed added
        → Opened q dl hi batch

  from_Appended :
      (w₀ w : World) (e : Fields) (es : List Fields) {dl : Slots} {torn : Option Value} {hi : ℕ}
      (r : (List Name × Option Error) × Disk)
      → env.fetch o.batch w₀ ≡ (ok (e ∷ es), w)
      → length (e ∷ es) ≤ o.batch
      → Appended env.format [] dl torn hi (e ∷ es) r
      → Opened [] dl hi (from_drain env (persisted env (length (e ∷ es)) w r))
  from_Appended w₀ w e es ((names, some x), d) k le a =
      stopped (some x) _ a.added a.torn' a.hi' refl a.holds (omega (arith, a.hi_bound)) (λ h. cc)
        (one_batch a.added a.left k a.split)
  from_Appended w₀ w e es ((names, none), d) k le a =
      opened (record { disk = d; world = w }) a.added a.torn' a.hi'
        (rw (pending_events-IsBuffer a.holds)) a.holds (omega (arith, a.hi_bound))
        (one_batch a.added a.left k a.split)

  from_fetched :
      (r : Result (List Fields) × World) (d : Disk) {dl : Slots} {torn : Option Value} {hi : ℕ}
      → IsBuffer env.format d [] dl torn hi
      → ((es : List Fields) (w' : World) → r ≡ (ok es, w') → length es ≤ o.batch)
      → ((es : List Fields) (w' : World)
          → r ≡ (ok es, w')
          → (w : World) × (env.fetch o.batch w ≡ (ok es, w')))
      → hi + o.batch < pow10 16
      → Opened [] dl hi (from_drain env (after_fetch env r d))
  from_fetched (err x, w) d {torn = torn} {hi = hi} b lim source room =
      stopped (some x) _ [] torn hi refl b (omega arith) (λ h. cc) nothing
  from_fetched (ok [], w) d {torn = torn} {hi = hi} b lim source room =
      stopped none _ [] torn hi refl b (omega arith) (λ h. refl) nothing
  from_fetched (ok (e ∷ es), w) d b lim source room =
      let le = lim (e ∷ es) w refl in
      let (w₀, k) = source (e ∷ es) w refl in
      from_Appended w₀ w e es (append env.format (e ∷ es) d) k le
        (append-Appended env.format (e ∷ es) b (omega arith))

  module _ (limited : IsLimited env) where
    pub next_batch-Opened :
        (q : Slots) (s : State World) {dl : Slots} {torn : Option Value} {hi : ℕ}
        → IsBuffer env.format s.disk q dl torn hi
        → hi + o.batch < pow10 16
        → Opened q dl hi (next_batch env o s)
    unfolding next_batch
    next_batch-Opened [] s b room = rw (pending_events-IsBuffer b) (
        unfold drain_into_buffer in
        from_fetched (env.fetch o.batch s.world) s.disk b
          (λ es w' k. limited.limit o.batch s.world w' es k) (λ es w' k. (s.world, k)) room)
    next_batch-Opened ((n, e) ∷ q) s {torn = torn} {hi = hi} b room =
        opened s [] torn hi (rw (pending_events-IsBuffer b, append-nil q)) (rw (append-nil q) b)
          (omega arith) nothing

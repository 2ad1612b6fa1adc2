-- ===== src/Pump/Feed.antt =====
-- A feed that runs dry, and what a delivery does to the number of events still to come.
use company_data_go.Prelude.{
  ℕ, zero, suc, ◌+◌, ◌≤◌, ◌<◌, ◌≡◌, refl, Option, none, some, inl, inr, List, [], ◌∷◌, arith, Bool,
  Bool-cases, leb, ltb_ℤ, ℤ, pos, String,
}
use company_data_go.Json.{Fields}
use company_data_go.Errors.{Error, is_decrypt, Result, ok, err}
use company_data_go.Buffer.Disk.{Disk}
use company_data_go.Buffer.Names.{event_id}
use company_data_go.Buffer.Ops.{ack}
use company_data_go.Pump.Options.{Resolved, is_halt}
use company_data_go.Pump.Loop.{
  Env, State, Attempt, settled, undecryptable, refused, attempt, after_handler, after_decrypt,
  give_up, on_poison, on_exhausted, on_disk, pause, deliver_loop, deliver_one, deliver_all,
}

-- The feed runs dry: every batch that is not empty leaves fewer events to come, and nothing else
-- adds to them while the pump runs.
pub record Drains {World Change : Type 0} (env : Env World Change) : Type 0 where
  pub remaining : World → ℕ
  pub fetch_fewer :
      (size : ℕ) (w w' : World) (e : Fields) (es : List Fields)
      → env.fetch size w ≡ (ok (e ∷ es), w')
      → remaining w' < remaining w
  pub decrypt_keeps : (e : Fields) (w : World) → remaining (env.decrypt e w).1 ≤ remaining w
  pub handle_keeps : (c : Change) (w : World) → remaining (env.handle c w).1 ≤ remaining w
  pub sleep_keeps : (delay : ℤ) (w : World) → remaining (env.sleep delay w) ≤ remaining w

module _ {World Change : Type 0} (env : Env World Change) (o : Resolved) (dry : Drains env) where
  open dry use {remaining}

  abbrev attempt_state : Attempt World → State World
  attempt_state (settled r s) = s
  attempt_state (undecryptable x s) = s
  attempt_state (refused x s) = s

  on_disk_keeps :
      (r : Result Bool × Disk) (w : World) → remaining (on_disk env r w).1.world ≤ remaining w
  on_disk_keeps (ok b, d) w = omega arith
  on_disk_keeps (err x, d) w = omega arith

  handled_keeps :
      (id : String) (r : Option Error × World) (d : Disk)
      → remaining (attempt_state (after_handler env id r d)).world ≤ remaining r.1
  handled_keeps id (none, w) d = on_disk_keeps (ack id d) w
  handled_keeps id (some x, w) d = omega arith

  decrypted_keeps :
      (id : String) (r : Result Change × World) (d : Disk)
      → remaining (attempt_state (after_decrypt env id r d)).world ≤ remaining r.1
  decrypted_keeps id (ok c, w) d =
      omega (arith, handled_keeps id (env.handle c w) d, dry.handle_keeps c w)
  decrypted_keeps id (err x, w) d = elim (Bool-cases (is_decrypt x)) [
    | inl h ↦ rw h (omega arith)
    | inr h ↦ rw h (omega arith)
  ]

  attempt_keeps :
      (e : Fields) (s : State World)
      → remaining (attempt_state (attempt env e s)).world ≤ remaining s.world
  unfolding attempt
  attempt_keeps e s = omega (
    arith,
    decrypted_keeps (event_id env.format e) (env.decrypt e s.world) s.disk,
    dry.decrypt_keeps e s.world,
  )

  poison_keeps :
      (e : Fields) (x : Error) (n : ℕ) (s : State World)
      → remaining (on_poison env o e x n s).1.world ≤ remaining s.world
  unfolding on_poison give_up
  poison_keeps e x n s = elim (Bool-cases (is_halt o)) [
    | inl h ↦ rw h (omega arith)
    | inr h ↦ rw h (on_disk_keeps _ s.world)
  ]

  exhausted_keeps :
      (e : Fields) (x : Error) (n : ℕ) (s : State World)
      → remaining (on_exhausted env o e x n s).1.world ≤ remaining s.world
  unfolding on_exhausted give_up
  exhausted_keeps e x n s = elim (Bool-cases (is_halt o)) [
    | inl h ↦ rw h (omega arith)
    | inr h ↦ rw h (on_disk_keeps _ s.world)
  ]

  pause_keeps : (n : ℕ) (s : State World) → remaining (pause env o n s).world ≤ remaining s.world
  unfolding pause
  pause_keeps n s = elim (Bool-cases (ltb_ℤ (pos 0) (o.backoff n))) [
    | inl h ↦ rw h (dry.sleep_keeps (o.backoff n) s.world)
    | inr h ↦ rw h (omega arith)
  ]

  deliver_loop_keeps :
      (e : Fields) (left n : ℕ) (s : State World)
      → remaining (deliver_loop env o e left n s).1.world ≤ remaining s.world
  unfolding deliver_loop
  deliver_loop_keeps e zero n s = go (attempt env e s) refl
    where
      go :
          (a : Attempt World)
          → attempt env e s ≡ a
          → remaining (deliver_loop env o e zero n s).1.world ≤ remaining s.world
      go (settled r s') k = rw (k, deliver_loop) (rw k at (attempt_keeps e s))
      go (undecryptable x s') k =
          rw (k, deliver_loop) (omega (arith, poison_keeps e x n s', rw k at (attempt_keeps e s)))
      go (refused x s') k =
          rw (k, deliver_loop)
            (omega (arith, exhausted_keeps e x n s', rw k at (attempt_keeps e s)))
  deliver_loop_keeps e (suc left) n s =
      go (attempt env e s) refl (λ s'. deliver_loop_keeps e left (n + 1) (pause env o n s'))
    where
      go :
          (a : Attempt World)
          → attempt env e s ≡ a
          → ((s' : State World)
              → remaining (deliver_loop env o e left (n + 1) (pause env o n s')).1.world
                ≤ remaining (pause env o n s').world)
          → remaining (deliver_loop env o e (suc left) n s).1.world ≤ remaining s.world
      go (settled r s') k ih = rw (k, deliver_loop) (rw k at (attempt_keeps e s))
      go (undecryptable x s') k ih =
          rw (k, deliver_loop) (omega (arith, poison_keeps e x n s', rw k at (attempt_keeps e s)))
      go (refused x s') k ih =
          let fewer = rw k at (attempt_keeps e s) in
          rw (k, deliver_loop)
            (elim (Bool-cases (leb n o.retries)) [
              | inl h ↦ rw (h, deliver_loop) (omega (arith, ih s', pause_keeps n s', fewer))
              | inr h ↦ rw (h, deliver_loop) (omega (arith, exhausted_keeps e x n s', fewer))
            ])

  deliver_one_keeps :
      (e : Fields) (s : State World) → remaining (deliver_one env o e s).1.world ≤ remaining s.world
  unfolding deliver_one
  deliver_one_keeps e s = deliver_loop_keeps e o.retries 1 s

  pub deliver_all_keeps :
      (es : List Fields) (s : State World)
      → remaining (deliver_all env o es s).1.world ≤ remaining s.world
  unfolding deliver_all
  deliver_all_keeps [] s = omega arith
  deliver_all_keeps (e ∷ es) s =
      go (deliver_one env o e s) refl (deliver_all_keeps es (deliver_one env o e s).1)
    where
      go :
          (p : Option Error × State World)
          → deliver_one env o e s ≡ p
          → remaining (deliver_all env o es (deliver_one env o e s).1).1.world
            ≤ remaining (deliver_one env o e s).1.world
          → remaining (deliver_all env o (e ∷ es) s).1.world ≤ remaining s.world
      go (none, s') k ih = rw (k, deliver_all) (omega (arith, ih, deliver_one_keeps e s))
      go (some x, s') k ih = rw (k, deliver_all) (deliver_one_keeps e s)

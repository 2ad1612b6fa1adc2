-- ===== src/Pump/Deliver.antt =====
-- Delivery of the oldest pending event: it leaves the pending queue only when the handler has
-- succeeded on it or when it is among the dead letters.
use company_data_go.Prelude.{
  ◌≤◌, arith, ℕ, zero, suc, ◌+◌, ◌≡◌, refl, String, Bool, false, Option, none, some, inl, inr, [],
  ◌∷◌, ◌++◌, pos, leb, ltb_ℤ, Bool-cases,
}
use company_data_go.Json.{Value, Fields}
use company_data_go.Errors.{Error, is_decrypt, Result, ok, err}
use company_data_go.Buffer.Names.{event_id}
use company_data_go.Buffer.Disk.{Disk}
use company_data_go.Buffer.Ops.{ack, dead_letter_event, DeadletterMeta, meta_value}
use company_data_go.Buffer.Slots.{Slots}
use company_data_go.Buffer.Invariant.{IsBuffer, dead_slots}
use company_data_go.Buffer.Settle.{
  AckOutcome, acked, not_acked, ack-AckOutcome, BuryOutcome, moved, copied, not_buried,
  dead_letter_event-BuryOutcome,
}
use company_data_go.Buffer.Outcomes.{buried}
use company_data_go.Pump.Options.{Resolved, is_halt}
use company_data_go.Pump.Loop.{
  Env, State, Attempt, settled, undecryptable, refused, attempt, give_up, on_poison, on_exhausted,
  on_disk, after_handler, after_decrypt, pause, deliver_loop, deliver_one,
}

module _ {World Change : Type 0} (env : Env World Change) where
  -- The handler returned nil on what the event decrypted to.
  pub record Handled (e : Fields) : Type 0 where
    pub change : Change
    pub before : World
    pub between : World
    pub after : World
    pub decrypted : env.decrypt e before ≡ (ok change, between)
    pub succeeded : env.handle change between ≡ (none, after)

  module _ (o : Resolved) (n : ℕ) (e : Fields) (q dl : Slots) (torn : Option Value) (hi : ℕ) where
    -- How a delivery of the oldest event ends.
    pub data Delivered (r : Option Error × State World) : Type 0 where
      handled :
          r.0 ≡ none
          → (h : Handled e) → r.1.world ≡ h.after
          → IsBuffer env.format r.1.disk q (dead_slots dl torn ((n, e) ∷ q)) none hi
          → Delivered r
      dead :
          r.0 ≡ none
          → is_halt o ≡ false
          → (m : DeadletterMeta) (attempts : ℕ) → m.attempts ≡ pos attempts
          → attempts ≤ o.retries + 1
          → IsBuffer env.format r.1.disk q (dl ++ buried n e (meta_value m) ∷ []) none hi
          → Delivered r
      stays :
          (x : Error)
          → (torn' : Option Value) → r.0 ≡ some x
          → IsBuffer env.format r.1.disk ((n, e) ∷ q) dl torn' hi
          → Delivered r

    -- How an attempt ends: a failed one changes no file.
    pub data Attempted (a : Attempt World) : Type 0 where
      ended :
          (r : Option Error) (s : State World) → a ≡ settled r s → Delivered (r, s) → Attempted a
      unreadable :
          (x : Error) (s : State World)
          → a ≡ undecryptable x s
          → IsBuffer env.format s.disk ((n, e) ∷ q) dl torn hi
          → Attempted a
      failed :
          (x : Error) (s : State World)
          → a ≡ refused x s
          → IsBuffer env.format s.disk ((n, e) ∷ q) dl torn hi
          → Attempted a

  module _ (o : Resolved) {n : ℕ} {e : Fields} {q dl : Slots} {torn : Option Value} {hi : ℕ} where
    give_up-Delivered :
        (msg : String) (attempts : ℕ) (s : State World)
        → is_halt o ≡ false
        → attempts ≤ o.retries + 1
        → IsBuffer env.format s.disk ((n, e) ∷ q) dl torn hi
        → Delivered o n e q dl torn hi (give_up env (event_id env.format e) msg attempts s)
    unfolding give_up
    give_up-Delivered msg attempts s h le b =
        go (dead_letter_event (event_id env.format e) m s.disk) (dead_letter_event-BuryOutcome b m)
      where
        m : DeadletterMeta
        m = record { error = msg; attempts = pos attempts }

        go :
            (r : Result Bool × Disk)
            → BuryOutcome env.format n e q dl torn hi m r
            → Delivered o n e q dl torn hi (on_disk env r s.world)
        go (ok t, d) (moved k b') = dead refl h m attempts refl le b'
        go (err x, d) (moved k b') = cc
        go (ok t, d) (copied y k b') = cc
        go (err x, d) (copied y k b') = stays x _ refl b'
        go (ok t, d) (not_buried y k b') = cc
        go (err x, d) (not_buried y k b') = stays x _ refl b'

    on_poison-Delivered :
        (x : Error) (attempts : ℕ) (s : State World)
        → attempts ≤ o.retries + 1
        → IsBuffer env.format s.disk ((n, e) ∷ q) dl torn hi
        → Delivered o n e q dl torn hi (on_poison env o e x attempts s)
    unfolding on_poison
    on_poison-Delivered x attempts s le b = elim (Bool-cases (is_halt o)) [
      | inl h ↦ rw h (stays x torn refl b)
      | inr h ↦ rw h (give_up-Delivered _ attempts s h le b)
    ]

    on_exhausted-Delivered :
        (x : Error) (attempts : ℕ) (s : State World)
        → attempts ≤ o.retries + 1
        → IsBuffer env.format s.disk ((n, e) ∷ q) dl torn hi
        → Delivered o n e q dl torn hi (on_exhausted env o e x attempts s)
    unfolding on_exhausted
    on_exhausted-Delivered x attempts s le b = elim (Bool-cases (is_halt o)) [
      | inl h ↦ rw h (stays x torn refl b)
      | inr h ↦ rw h (give_up-Delivered _ attempts s h le b)
    ]

    acked-Attempted :
        (d : Disk) (w : World) (b : IsBuffer env.format d ((n, e) ∷ q) dl torn hi)
        → (h : Handled e) → w ≡ h.after
        → Attempted o n e q dl torn hi (after_handler env (event_id env.format e) (none, w) d)
    acked-Attempted d w b h same = go (ack (event_id env.format e) d) (ack-AckOutcome b)
      where
        go :
            (r : Result Bool × Disk)
            → AckOutcome b r
            → Attempted o n e q dl torn hi (settled (on_disk env r w).0 (on_disk env r w).1)
        go (ok t, d') (acked k b') = ended _ _ refl (handled refl h same b')
        go (err x, d') (acked k b') = cc
        go (ok t, d') (not_acked y k b') = cc
        go (err x, d') (not_acked y k b') = ended _ _ refl (stays x torn refl b')

    decrypted-Attempted :
        (s : State World) (r : Result Change × World)
        → env.decrypt e s.world ≡ r
        → IsBuffer env.format s.disk ((n, e) ∷ q) dl torn hi
        → Attempted o n e q dl torn hi (after_decrypt env (event_id env.format e) r s.disk)
    decrypted-Attempted s (err x, w) k b = elim (Bool-cases (is_decrypt x)) [
      | inl h ↦ rw h (unreadable x _ refl b)
      | inr h ↦ rw h (failed x _ refl b)
    ]
    decrypted-Attempted s (ok c, w) k b = go (env.handle c w) refl
      where
        go :
            (r : Option Error × World)
            → env.handle c w ≡ r
            → Attempted o n e q dl torn hi (after_handler env (event_id env.format e) r s.disk)
        go (some x, w') l = failed x _ refl b
        go (none, w') l =
            acked-Attempted s.disk w' b
              (record {
                change = c;
                before = s.world;
                between = w;
                after = w';
                decrypted = k;
                succeeded = l;
              })
              refl

    attempt-Attempted :
        (s : State World)
        → IsBuffer env.format s.disk ((n, e) ∷ q) dl torn hi
        → Attempted o n e q dl torn hi (attempt env e s)
    unfolding attempt
    attempt-Attempted s b = decrypted-Attempted s (env.decrypt e s.world) refl b

    pause-IsBuffer :
        (attempts : ℕ) (s : State World)
        → IsBuffer env.format s.disk ((n, e) ∷ q) dl torn hi
        → IsBuffer env.format (pause env o attempts s).disk ((n, e) ∷ q) dl torn hi
    unfolding pause
    pause-IsBuffer attempts s b = elim (Bool-cases (ltb_ℤ (pos 0) (o.backoff attempts))) [
      | inl h ↦ rw h b
      | inr h ↦ rw h b
    ]

    deliver_loop-Delivered :
        (left attempts : ℕ) (s : State World)
        → attempts + left ≤ o.retries + 1
        → IsBuffer env.format s.disk ((n, e) ∷ q) dl torn hi
        → Delivered o n e q dl torn hi (deliver_loop env o e left attempts s)
    unfolding deliver_loop
    deliver_loop-Delivered zero attempts s le b = elim (attempt-Attempted s b) [
      | ended r s' k d ↦ rw (k, deliver_loop) d
      | unreadable x s' k b' ↦
          rw (k, deliver_loop) (on_poison-Delivered x attempts s' (omega arith) b')
      | failed x s' k b' ↦
          rw (k, deliver_loop) (on_exhausted-Delivered x attempts s' (omega arith) b')
    ]
    deliver_loop-Delivered (suc left) attempts s le b = elim (attempt-Attempted s b) [
      | ended r s' k d ↦ rw (k, deliver_loop) d
      | unreadable x s' k b' ↦
          rw (k, deliver_loop) (on_poison-Delivered x attempts s' (omega arith) b')
      | failed x s' k b' ↦
          rw (k, deliver_loop)
            (elim (Bool-cases (leb attempts o.retries)) [
              | inl h ↦
                  rw (h, deliver_loop)
                    (deliver_loop-Delivered left (attempts + 1) (pause env o attempts s')
                      (omega arith) (pause-IsBuffer attempts s' b'))
              | inr h ↦ rw (h, deliver_loop) (on_exhausted-Delivered x attempts s' (omega arith) b')
            ])
    ]

    -- `deliverOne` of the oldest event ends with the event handled, as the last thing that it did to
    -- the world, and removed; with the event moved to the dead letters (never under halt), counted at
    -- no more attempts than the retries and one; or with an error and the event still pending.
    pub deliver_one-Delivered :
        (s : State World)
        → IsBuffer env.format s.disk ((n, e) ∷ q) dl torn hi
        → Delivered o n e q dl torn hi (deliver_one env o e s)
    unfolding deliver_one
    deliver_one-Delivered s b = deliver_loop-Delivered o.retries 1 s (omega arith) b

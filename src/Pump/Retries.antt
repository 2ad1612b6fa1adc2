-- ===== src/Pump/Retries.antt =====
-- How many attempts `deliverOne` makes.
use company_data_go.Prelude.{
  ℕ, zero, suc, ◌+◌, ◌<◌, ◌≡◌, refl, false, arith, pos, leb, Bool-cases, inl, inr,
}
use company_data_go.Json.{Fields}
use company_data_go.Errors.{Error}
use company_data_go.Pump.Options.{PumpOptions, Resolved, with_defaults}
use company_data_go.Pump.Loop.{
  Env, State, Attempt, settled, undecryptable, refused, attempt, on_exhausted, pause, deliver_loop,
  deliver_one,
}

module _ {World Change : Type 0} (env : Env World Change) where
  -- The bound on the retries is never what ends the loop: once `left + n` passes the budget, one
  -- more allowed retry changes nothing.
  pub deliver_loop_enough :
      (o : Resolved) (e : Fields) (left n : ℕ) (s : State World)
      → o.retries < left + n
      → deliver_loop env o e (suc left) n s ≡ deliver_loop env o e left n s
  unfolding deliver_loop
  deliver_loop_enough o e zero n s h = go (attempt env e s) refl
    where
      go :
          (a : Attempt World)
          → attempt env e s ≡ a
          → deliver_loop env o e 1 n s ≡ deliver_loop env o e 0 n s
      go (settled r s') k = rw (k, deliver_loop)
      go (undecryptable x s') k = rw (k, deliver_loop)
      go (refused x s') k =
          let f : leb n o.retries ≡ false = ground arith in
          rw (k, deliver_loop) (rw (f, deliver_loop))
  deliver_loop_enough o e (suc left) n s h =
      go (attempt env e s) refl
        (λ s'. deliver_loop_enough o e left (n + 1) (pause env o n s') (omega arith))
    where
      go :
          (a : Attempt World)
          → attempt env e s ≡ a
          → ((s' : State World)
              → deliver_loop env o e (suc left) (n + 1) (pause env o n s')
                ≡ deliver_loop env o e left (n + 1) (pause env o n s'))
          → deliver_loop env o e (suc (suc left)) n s ≡ deliver_loop env o e (suc left) n s
      go (settled r s') k ih = rw (k, deliver_loop)
      go (undecryptable x s') k ih = rw (k, deliver_loop)
      go (refused x s') k ih =
          rw (k, deliver_loop)
            (elim (Bool-cases (leb n o.retries)) [
              | inl t ↦ rw (t, deliver_loop) (ih s')
              | inr f ↦ rw (f, deliver_loop)
            ])

  no_fuel :
      (r : Resolved) (e : Fields) (m : ℕ) (x : Error) (s s' : State World)
      → m ≡ 0
      → attempt env e s ≡ refused x s'
      → deliver_loop env r e m 1 s ≡ on_exhausted env r e x 1 s'
  no_fuel r e zero x s s' h k = unfold deliver_loop in rw (k, deliver_loop)
  no_fuel r e (suc m) x s s' h k = absurd (omega arith)

  -- Options that leave MaxRetries at its zero value allow no retry at all.
  pub deliver_one_zero_retries :
      (o : PumpOptions) (e : Fields) (x : Error) (s s' : State World)
      → o.max_retries ≡ pos 0
      → attempt env e s ≡ refused x s'
      → deliver_one env (with_defaults o) e s ≡ on_exhausted env (with_defaults o) e x 1 s'
  unfolding deliver_one
  deliver_one_zero_retries o e x s s' h k =
      no_fuel (with_defaults o) e (with_defaults o).retries x s s' zero_retries k
    where
      zero_retries : (with_defaults o).retries ≡ 0
      zero_retries = unfold with_defaults in rw h

-- ===== src/Pump/Redriven.antt =====
-- What `RetryDeadLetters` leaves of the buffer (companydata/pump.go).
use company_data_go.Prelude.{
  ℕ, zero, suc, ◌+◌, ◌≡◌, refl, ◌∙◌, String, Bool, Bool-cases, inl, inr, Option, none, some, List,
  [], ◌∷◌, pos, leb, ltb_ℤ,
}
use Prim.Native.String.{◌++◌ as cat}
use company_data_go.Errors.{Error, is_decrypt, message, Result, ok, err}
use company_data_go.Buffer.Disk.{Disk}
use company_data_go.Buffer.Ops.{DeadLetter, dead_letters, update_dead_letter, remove_dead_letter}
use company_data_go.Pump.Options.{Resolved, is_halt}
use company_data_go.Pump.Loop.{Env, State, on_disk, pause}
use company_data_go.Pump.Redrive.{
  Redriven, done, kept, stopped, Retry, finished, poison, refused, attempt, after_handler,
  after_decrypt, keep, removed, updated, redrive_loop, redrive_all, redrive_records,
  retry_dead_letters,
}
use company_data_go.Pump.Kept.{
  Kept, Kept-same, Kept-then, Removed, remove_dead_letter-Removed, update_dead_letter-Kept,
}

-- How the loop over one record ends, counted.
abbrev RecordKept : {World : Type 0} → ℕ → Disk → Redriven World → Type 0
RecordKept n d (done s) = Kept n (n + 1) d s.disk
RecordKept n d (kept s) = Kept n n d s.disk
RecordKept n d (stopped x s) = Kept n n d s.disk

abbrev RetryKept : {World : Type 0} → ℕ → Disk → Retry World → Type 0
RetryKept n d (finished r) = RecordKept n d r
RetryKept n d (poison x s) = s.disk ≡ d
RetryKept n d (refused x s) = s.disk ≡ d

module _ {World Change : Type 0} (env : Env World Change) where
  handler-RetryKept :
      (n : ℕ) (rec : DeadLetter) (r : Option Error × World) (d : Disk)
      → RetryKept n d (after_handler env rec r d)
  handler-RetryKept n rec (some x, w) d = refl
  handler-RetryKept n rec (none, w) d =
      by (remove_dead_letter rec.id d) (remove_dead_letter-Removed n rec.id d)
    where
      by :
          (r : Result Bool × Disk)
          → Removed n d r
          → RetryKept n d (finished (removed env (on_disk env r w)))
      by (ok b, d') k = k
      by (err x, d') k = k

  decrypt-RetryKept :
      (n : ℕ) (rec : DeadLetter) (r : Result Change × World) (d : Disk)
      → RetryKept n d (after_decrypt env rec r d)
  decrypt-RetryKept n rec (ok c, w) d = handler-RetryKept n rec (env.handle c w) d
  decrypt-RetryKept n rec (err x, w) d = elim (Bool-cases (is_decrypt x)) [
    | inl e ↦ rw e refl
    | inr e ↦ rw e refl
  ]

  attempt-RetryKept :
      (n : ℕ) (rec : DeadLetter) (s : State World) (d : Disk)
      → s.disk ≡ d
      → RetryKept n d (attempt env rec s)
  unfolding attempt
  attempt-RetryKept n rec s d e = rw e (decrypt-RetryKept n rec (env.decrypt rec.event s.world) d)

  keep-RecordKept :
      (n : ℕ) (o : Resolved) (rec : DeadLetter) (x : Error) (msg : String) (attempts : ℕ)
      (s : State World) (d : Disk)
      → s.disk ≡ d
      → RecordKept n d (keep env o rec x msg attempts s)
  unfolding keep
  keep-RecordKept n o rec x msg attempts s d e = elim (Bool-cases (is_halt o)) [
    | inl h ↦ rw h (rw e (Kept-same n d))
    | inr h ↦ rw h (
        rw e (
          by (update_dead_letter rec.id (record { error = msg; attempts = pos attempts }) d)
            (update_dead_letter-Kept n rec.id (record { error = msg; attempts = pos attempts }) d)))
  ]
    where
      by :
          (r : Result Bool × Disk)
          → Kept n n d r.1
          → RecordKept n d (updated env (on_disk env r s.world))
      by (ok b, d') k = k
      by (err y, d') k = k

  pause-disk :
      (o : Resolved) (attempts : ℕ) (s : State World) → (pause env o attempts s).disk ≡ s.disk
  unfolding pause
  pause-disk o attempts s = elim (Bool-cases (ltb_ℤ (pos 0) (o.backoff attempts))) [
    | inl h ↦ rw h refl
    | inr h ↦ rw h refl
  ]

  redrive_loop-RecordKept :
      (n : ℕ) (o : Resolved) (rec : DeadLetter) (left attempts : ℕ) (s : State World) (d : Disk)
      → s.disk ≡ d
      → RecordKept n d (redrive_loop env o rec left attempts s)
  unfolding redrive_loop
  redrive_loop-RecordKept n o rec zero attempts s d e =
      by (attempt env rec s) refl (attempt-RetryKept n rec s d e)
    where
      by :
          (a : Retry World)
          → attempt env rec s ≡ a
          → RetryKept n d (attempt env rec s)
          → RecordKept n d (redrive_loop env o rec 0 attempts s)
      by (finished r) k h = rw (k, redrive_loop) (rw k at h)
      by (poison x s') k h =
          rw (k, redrive_loop)
            (keep-RecordKept n o rec x (cat "DecryptError: " (message x)) attempts s' d (rw k at h))
      by (refused x s') k h =
          rw (k, redrive_loop) (keep-RecordKept n o rec x (message x) attempts s' d (rw k at h))
  redrive_loop-RecordKept n o rec (suc left) attempts s d e =
      by (attempt env rec s) refl (attempt-RetryKept n rec s d e)
        (λ s' e'. redrive_loop-RecordKept n o rec left (attempts + 1) s' d e')
    where
      by :
          (a : Retry World)
          → attempt env rec s ≡ a
          → RetryKept n d (attempt env rec s)
          → ((s' : State World)
              → s'.disk ≡ d
              → RecordKept n d (redrive_loop env o rec left (attempts + 1) s'))
          → RecordKept n d (redrive_loop env o rec (suc left) attempts s)
      by (finished r) k h again = rw (k, redrive_loop) (rw k at h)
      by (poison x s') k h again =
          rw (k, redrive_loop)
            (keep-RecordKept n o rec x (cat "DecryptError: " (message x)) attempts s' d (rw k at h))
      by (refused x s') k h again =
          rw (k, redrive_loop)
            (elim (Bool-cases (leb attempts o.retries)) [
              | inl l ↦
                  rw (l, redrive_loop)
                    (again (pause env o attempts s') (pause-disk o attempts s' ∙ (rw k at h)))
              | inr l ↦
                  rw (l, redrive_loop)
                    (keep-RecordKept n o rec x (message x) attempts s' d (rw k at h))
            ])

  -- The loop over the records.
  abbrev AllKept : ℕ → Disk → ℕ × Option Error × State World → Type 0
  AllKept n d (n', r, s) = Kept n n' d s.disk

  redrive_all-AllKept :
      (o : Resolved) (n : ℕ) (recs : List DeadLetter) (s : State World)
      → AllKept n s.disk (redrive_all env o n recs s)
  unfolding redrive_all
  redrive_all-AllKept o n [] s = Kept-same n s.disk
  redrive_all-AllKept o n (rec ∷ recs) s =
      by (redrive_loop env o rec o.retries 1 s) refl
        (redrive_loop-RecordKept n o rec o.retries 1 s s.disk refl)
        (λ n' s'. redrive_all-AllKept o n' recs s')
    where
      by :
          (r : Redriven World)
          → redrive_loop env o rec o.retries 1 s ≡ r
          → RecordKept n s.disk (redrive_loop env o rec o.retries 1 s)
          → ((n' : ℕ) (s' : State World) → AllKept n' s'.disk (redrive_all env o n' recs s'))
          → AllKept n s.disk (redrive_all env o n (rec ∷ recs) s)
      by (done s') k h rest = rw (k, redrive_all) (Kept-then (rw k at h) (rest (n + 1) s'))
      by (kept s') k h rest = rw (k, redrive_all) (Kept-then (rw k at h) (rest n s'))
      by (stopped x s') k h rest = rw (k, redrive_all) (rw k at h)

  -- `RetryDeadLetters` leaves the pending events and the sequence counter alone, and no more dead
  -- letters are gone afterwards than the successes that it returns, errors included.
  pub retry_dead_letters-Kept :
      (o : Resolved) (s : State World)
      → Kept 0 (retry_dead_letters env o s).0 s.disk (retry_dead_letters env o s).2.disk
  unfolding retry_dead_letters
  retry_dead_letters-Kept o s = by (dead_letters env.format s.disk)
    where
      by :
          (r : Result (List DeadLetter))
          → Kept 0 (redrive_records env o s r).0 s.disk (redrive_records env o s r).2.disk
      by (err x) = Kept-same 0 s.disk
      by (ok recs) = opened (redrive_all env o 0 recs s) (redrive_all-AllKept o 0 recs s)
        where
          opened :
              (r : ℕ × Option Error × State World) → AllKept 0 s.disk r → Kept 0 r.0 s.disk r.2.disk
          opened (n', r, s') k = k

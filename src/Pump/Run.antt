-- ===== src/Pump/Run.antt =====
-- The whole of `ProcessChanges`: whatever fails, every event that was pending or that was drained
-- and persisted is settled in order or still pending, and none is pending after a clean return.
use mathlib.Core.List.{append_assoc, append-nil}
use company_data_go.Prelude.{
  ℕ, zero, suc, ◌+◌, ◌*◌, ◌≤◌, ◌<◌, ◌≡◌, refl, sym, ◌∙◌, Option, none, some, [], ◌++◌, arith,
  some-eq-some,
}
use mathlib.Core.Path.{subst}
use company_data_go.Json.{Value}
use company_data_go.Errors.{Error}
use company_data_go.Buffer.Decimal.{pow10}
use company_data_go.Buffer.Slots.{Slots, events}
use company_data_go.Buffer.Invariant.{IsBuffer}
use company_data_go.Pump.Options.{Resolved}
use company_data_go.Pump.Loop.{
  Env, State, deliver_all, Batch, stop, deliver, next_batch, process_changes,
}
use company_data_go.Pump.Process.{Settled, none_left, Settled-append, Passed, deliver_all-Passed}
use company_data_go.Pump.Opening.{
  IsLimited, FromFeed, FromFeed-append, Opened, stopped, opened, next_batch-Opened,
}

join : (a b c d q e : Slots) → a ≡ q ++ e → b ++ c ≡ d → (a ++ b) ++ c ≡ q ++ (e ++ d)
join a b c d q e h k = rw (append_assoc a b c, k, h) (append_assoc q e d)

all_settled : (a b : Slots) {c : Slots} → a ++ b ≡ c → b ≡ [] → a ≡ c
all_settled a b h e = sym (append-nil a) ∙ (rw e at h)

module _ {World Change : Type 0} (env : Env World Change) (o : Resolved)
    (limited : IsLimited env) where
  -- What a run leaves of the queue `q` and of the `added` events that it drained and persisted.
  pub record Ran (q dl : Slots) (hi fuel : ℕ) (r : Option Error × State World) : Type 0 where
    pub added : Slots
    pub drained : FromFeed env o added
    pub settled_slots : Slots
    pub rest : Slots
    pub dl' : Slots
    pub torn' : Option Value
    pub hi' : ℕ
    pub parts : settled_slots ++ rest ≡ q ++ added
    pub log : Settled env dl dl' settled_slots
    pub holds : IsBuffer env.format r.1.disk rest dl' torn' hi'
    pub hi_bound : hi' ≤ hi + fuel * o.batch
    pub complete : r.0 ≡ none → rest ≡ []

  -- The run goes on after a pass that met no error.
  abbrev pub after_pass : ℕ → Option Error × State World → Option (Option Error × State World)
  after_pass fuel (none, s) = process_changes env o fuel s
  after_pass fuel (some x, s) = some (some x, s)

  abbrev pub run_batch : ℕ → Batch env → Option (Option Error × State World)
  run_batch fuel (stop r s) = some (r, s)
  run_batch fuel (deliver es s) = after_pass fuel (deliver_all env o es s)

  pub process_changes-suc :
      (fuel : ℕ) (s : State World)
      → process_changes env o (suc fuel) s ≡ run_batch fuel (next_batch env o s)
  unfolding process_changes
  process_changes-suc fuel s = by_batch (next_batch env o s)
    where
      by_pass :
          (p : Option Error × State World)
          → elim p.0 [ none ↦ process_changes env o fuel p.1 | some x ↦ some (some x, p.1) ]
            ≡ after_pass fuel p
      by_pass (none, s') = refl
      by_pass (some x, s') = refl

      by_batch :
          (batch : Batch env)
          → elim batch [
            | stop r s' ↦ some (r, s')
            | deliver es s' ↦
                let (r, s'') = deliver_all env o es s' in
                elim r [ none ↦ process_changes env o fuel s'' | some x ↦ some (some x, s'') ]
          ]
            ≡ run_batch fuel batch
      by_batch (stop r s') = refl
      by_batch (deliver es s') = by_pass (deliver_all env o es s')

  -- A run that ends with a pass.
  Ran-pass :
      (fuel : ℕ) {q dl : Slots} (added : Slots) {hi hi' : ℕ} {p : Option Error × State World}
      → FromFeed env o added
      → hi' ≤ hi + o.batch
      → Passed env (q ++ added) dl hi' p
      → Ran q dl hi (suc fuel) p
  Ran-pass fuel {q} added {hi = hi} {hi' = hi'} feed le p = record {
    added = added;
    drained = feed;
    settled_slots = p.settled_slots;
    rest = p.rest;
    dl' = p.dl';
    torn' = p.torn';
    hi' = hi';
    parts = p.parts;
    log = p.log;
    holds = p.holds;
    hi_bound = grind arith;
    complete = p.complete;
  }

  -- A run that goes on after a clean pass.
  Ran-next :
      (fuel : ℕ) {q dl : Slots} (added : Slots) {hi hi' : ℕ} {s : State World}
      {r : Option Error × State World}
      → FromFeed env o added
      → hi' ≤ hi + o.batch
      → (p : Passed env (q ++ added) dl hi' (none, s)) → Ran [] p.dl' hi' fuel r
      → Ran q dl hi (suc fuel) r
  Ran-next fuel {q} {dl} added {hi} {hi'} feed le p n = record {
    added = added ++ n.added;
    drained = FromFeed-append env o feed n.drained;
    settled_slots = p.settled_slots ++ n.settled_slots;
    rest = n.rest;
    dl' = n.dl';
    torn' = n.torn';
    hi' = n.hi';
    parts =
        join p.settled_slots n.settled_slots n.rest n.added q added
          (all_settled p.settled_slots p.rest p.parts (p.complete refl)) n.parts;
    log = Settled-append env dl p.dl' p.settled_slots n.settled_slots p.log n.log;
    holds = n.holds;
    hi_bound = grind (arith, n.hi_bound);
    complete = n.complete;
  }

  -- From a buffer that satisfies the invariant, with sequence numbers to spare and a drain source
  -- that keeps to its limit, a run that returns has settled a prefix of the queue and of prefixes of
  -- the batches that the source returned, in order, each event by a handler that succeeded or by a dead letter; the rest is still
  -- pending, the invariant holds, and without an error nothing is pending.
  pub process_changes-Ran :
      (fuel : ℕ) (q dl : Slots) (torn : Option Value) (hi : ℕ) (s : State World)
      (r : Option Error × State World)
      → IsBuffer env.format s.disk q dl torn hi
      → hi + fuel * o.batch < pow10 16
      → process_changes env o fuel s ≡ some r
      → Ran q dl hi fuel r
  process_changes-Ran zero q dl torn hi s r b room k = unfold process_changes in cc
  process_changes-Ran (suc fuel) q dl torn hi s r b room k =
      by_opening (next_batch env o s) (next_batch-Opened env o limited q s b (grind arith))
        (sym (process_changes-suc fuel s) ∙ k)
        (λ dl' torn' hi' s' le b' l.
          process_changes-Ran fuel [] dl' torn' hi' s' r b' (grind arith) l)
    where
      by_opening :
          (batch : Batch env)
          → Opened env o q dl hi batch
          → run_batch fuel batch ≡ some r
          → ((dl' : Slots) (torn' : Option Value) (hi' : ℕ) (s' : State World)
              → hi' ≤ hi + o.batch
              → IsBuffer env.format s'.disk [] dl' torn' hi'
              → process_changes env o fuel s' ≡ some r
              → Ran [] dl' hi' fuel r)
          → Ran q dl hi (suc fuel) r
      by_opening batch (stopped r' s' added torn' hi' e b' le c feed) l ih =
          let same : (r', s') ≡ r = some-eq-some (rw e at l) in
          subst (Ran q dl hi (suc fuel)) same (record {
            added = added;
            drained = feed;
            settled_slots = [];
            rest = q ++ added;
            dl' = dl;
            torn' = torn';
            hi' = hi';
            parts = refl;
            log = none_left dl;
            holds = b';
            hi_bound = grind arith;
            complete = c;
          })
      by_opening batch (opened s' added torn' hi' e b' le feed) l ih =
          by_pass (deliver_all env o (events (q ++ added)) s')
            (deliver_all-Passed env o (q ++ added) dl torn' hi' s' b') (rw e at l)
        where
          by_pass :
              (p : Option Error × State World)
              → Passed env (q ++ added) dl hi' p
              → after_pass fuel p ≡ some r
              → Ran q dl hi (suc fuel) r
          by_pass (none, s'') p l' =
              Ran-next fuel added feed le p
                (ih p.dl' p.torn' hi' s'' le (rw (p.complete refl) at p.holds) l')
          by_pass (some x, s'') p l' =
              subst (Ran q dl hi (suc fuel)) (some-eq-some l') (Ran-pass fuel added feed le p)

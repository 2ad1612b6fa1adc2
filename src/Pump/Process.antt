-- ===== src/Pump/Process.antt =====
-- A pass over the pending queue, and the whole of `ProcessChanges`: every event that is drained or
-- replayed is settled in order or still pending, and a run ends when the feed does.
use company_data_go.Prelude.{ℕ, ◌≡◌, refl, ap, Option, none, [], ◌∷◌, ◌++◌}
use company_data_go.Json.{Value, Fields}
use company_data_go.Errors.{Error}
use company_data_go.Buffer.Ops.{meta_value}
use company_data_go.Buffer.Slots.{Slots, events}
use company_data_go.Buffer.Invariant.{IsBuffer, dead_slots}
use company_data_go.Buffer.Outcomes.{buried}
use company_data_go.Pump.Options.{Resolved}
use company_data_go.Pump.Loop.{Env, State, deliver_one, deliver_all}
use company_data_go.Pump.Deliver.{Handled, handled, dead, stays, deliver_one-Delivered}

module _ {World Change : Type 0} (env : Env World Change) where
  -- The slots of `es` settled in order, the dead letters growing from `dl` to `dl'`: each by a
  -- handler that succeeded (an earlier torn copy may stay) or by a dead letter.
  pub data Settled : Slots → Slots → Slots → Type 0 where
    none_left : (dl : Slots) → Settled dl dl []
    by_handler :
        {dl dl' es : Slots} (n : ℕ) (e : Fields) (torn : Option Value) (q : Slots)
        → Handled env e
        → Settled (dead_slots dl torn ((n, e) ∷ q)) dl' es
        → Settled dl dl' ((n, e) ∷ es)
    by_dead_letter :
        {dl dl' es : Slots} (n : ℕ) (e : Fields) (m : Value)
        → Settled (dl ++ buried n e m ∷ []) dl' es
        → Settled dl dl' ((n, e) ∷ es)

  -- What a pass over the queue `q` leaves: `settled_slots` settled, `rest` still pending.
  pub record Passed (q dl : Slots) (hi : ℕ) (r : Option Error × State World) : Type 0 where
    pub settled_slots : Slots
    pub rest : Slots
    pub dl' : Slots
    pub torn' : Option Value
    pub parts : settled_slots ++ rest ≡ q
    pub log : Settled dl dl' settled_slots
    pub holds : IsBuffer env.format r.1.disk rest dl' torn' hi
    pub complete : r.0 ≡ none → rest ≡ []

  module _ (o : Resolved) where
    pub deliver_all-Passed :
        (q dl : Slots) (torn : Option Value) (hi : ℕ) (s : State World)
        → IsBuffer env.format s.disk q dl torn hi
        → Passed q dl hi (deliver_all env o (events q) s)
    unfolding deliver_all
    deliver_all-Passed [] dl torn hi s b = record {
      settled_slots = [];
      rest = [];
      dl' = dl;
      torn' = torn;
      parts = refl;
      log = none_left dl;
      holds = b;
      complete = λ h. refl;
    }
    deliver_all-Passed ((n, e) ∷ q) dl torn hi s b = elim (deliver_one-Delivered env o s b) [
      | handled k h same b' ↦
          rw (k, deliver_all)
            (after_handled h (
              deliver_all-Passed q (dead_slots dl torn ((n, e) ∷ q)) none hi
                (deliver_one env o e s).1 b'))
      | dead k h m attempts counted le b' ↦
          rw (k, deliver_all)
            (after_dead (meta_value m) (
              deliver_all-Passed q (dl ++ buried n e (meta_value m) ∷ []) none hi
                (deliver_one env o e s).1 b'))
      | stays x torn' k b' ↦
          rw (k, deliver_all)
            (record {
              settled_slots = [];
              rest = (n, e) ∷ q;
              dl' = dl;
              torn' = torn';
              parts = refl;
              log = none_left dl;
              holds = b';
              complete = λ h. cc;
            })
    ]
      where
        after_handled :
            {r : Option Error × State World}
            → Handled env e
            → Passed q (dead_slots dl torn ((n, e) ∷ q)) hi r
            → Passed ((n, e) ∷ q) dl hi r
        after_handled h p = record {
          settled_slots = (n, e) ∷ p.settled_slots;
          rest = p.rest;
          dl' = p.dl';
          torn' = p.torn';
          parts = ap (λ l. (n, e) ∷ l) p.parts;
          log = by_handler n e torn q h p.log;
          holds = p.holds;
          complete = p.complete;
        }

        after_dead :
            {r : Option Error × State World} (m : Value)
            → Passed q (dl ++ buried n e m ∷ []) hi r
            → Passed ((n, e) ∷ q) dl hi r
        after_dead m p = record {
          settled_slots = (n, e) ∷ p.settled_slots;
          rest = p.rest;
          dl' = p.dl';
          torn' = p.torn';
          parts = ap (λ l. (n, e) ∷ l) p.parts;
          log = by_dead_letter n e m p.log;
          holds = p.holds;
          complete = p.complete;
        }

  pub Settled-append :
      (dl dl' : Slots) (a : Slots) {dl'' : Slots} (b : Slots)
      → Settled dl dl' a
      → Settled dl' dl'' b
      → Settled dl dl'' (a ++ b)
  Settled-append dl dl' a b (none_left _) k = k
  Settled-append dl dl' a b (by_handler {es = es} n e torn q h l) k =
      by_handler n e torn q h (Settled-append (dead_slots dl torn ((n, e) ∷ q)) dl' es b l k)
  Settled-append dl dl' a b (by_dead_letter {es = es} n e m l) k =
      by_dead_letter n e m (Settled-append (dl ++ buried n e m ∷ []) dl' es b l k)

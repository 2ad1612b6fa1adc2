-- ===== src/Pump/Examples.antt =====
-- A feed of three events, whose second never decrypts and whose first the handler refuses once; the
-- theorems on the buffer and the pump at that input.
use company_data_go.Prelude.{
  ℕ, zero, suc, ◌+◌, ◌≤◌, ◌<◌, ◌≡◌, ap, Option, none, some, List, [], ◌∷◌, arith, length, take,
  drop, pos, str_eq, if◌then◌else◌,
}
use company_data_go.Json.{Fields, get, text_or_empty}
use company_data_go.Errors.{Error, decrypt, other, Result, ok, err}
use company_data_go.Buffer.Examples.{event, no_format, small_queue, small_disk, small_disk-IsBuffer}
use company_data_go.Pump.Options.{Resolved, PumpOptions, default_pump_backoff_fn}
use company_data_go.Pump.Backoff.{
  wanted, default_pump_backoff_fn_exact, default_pump_backoff_fn_vanishes,
}
use company_data_go.Pump.Deliver.{Delivered, deliver_one-Delivered}
use company_data_go.Buffer.Slots.{dir_of}
use company_data_go.Pump.Redrive.{retry_dead_letters}
use company_data_go.Pump.Kept.{Kept}
use company_data_go.Pump.Redriven.{retry_dead_letters-Kept}
use company_data_go.Pump.Loop.{Env, State, process_changes, deliver_one}
use company_data_go.Pump.Opening.{IsLimited}
use company_data_go.Pump.Run.{Ran, process_changes-Ran}
use company_data_go.Pump.Feed.{Drains}
use company_data_go.Pump.Ends.{process_changes_ends}

-- The world: the events to come, and how often the handler was called.
record World : Type 0 where
  queue : List Fields
  calls : ℕ

abbrev drain : ℕ → World → Result (List Fields) × World
drain size w = (ok (take size w.queue), record w { queue = drop size w.queue })

abbrev open_event : Fields → World → Result Fields × World
open_event e w =
    (if str_eq (text_or_empty (get e "id")) "b/2" then err (decrypt "bad key") else ok e, w)

abbrev fail_first : ℕ → Option Error
fail_first zero = some (other "busy")
fail_first (suc n) = none

abbrev handle_event : Fields → World → Option Error × World
handle_event e w = (fail_first w.calls, record w { calls = w.calls + 1 })

abbrev small_env : Env World Fields
small_env = record {
  format = no_format;
  fetch = drain;
  decrypt = open_event;
  handle = handle_event;
  sleep = λ delay w. w;
}

length-take-le : {A : Type 0} (n : ℕ) (xs : List A) → length (take n xs) ≤ n
length-take-le zero xs = omega arith
length-take-le (suc n) [] = omega arith
length-take-le (suc n) (x ∷ xs) = omega (arith, length-take-le n xs)

length-drop-le : {A : Type 0} (n : ℕ) (xs : List A) → length (drop n xs) ≤ length xs
length-drop-le zero xs = omega arith
length-drop-le (suc n) [] = omega arith
length-drop-le (suc n) (x ∷ xs) = omega (arith, length-drop-le n xs)

abbrev fetched : Result (List Fields) → List Fields
fetched (ok es) = es
fetched (err x) = []

small_env-IsLimited : IsLimited small_env
small_env-IsLimited = record {
  limit = λ size w w' es k.
      let e : take size w.queue ≡ es = ap (λ (p : Result (List Fields) × World). fetched p.0) k in
      rw e at (length-take-le size w.queue);
}

fewer_left :
    (size : ℕ) (q : List Fields) (e : Fields) (es : List Fields)
    → take size q ≡ e ∷ es
    → length (drop size q) < length q
fewer_left zero q e es k = cc
fewer_left (suc size) [] e es k = cc
fewer_left (suc size) (x ∷ q) e es k = omega (arith, length-drop-le size q)

abbrev small_env-Drains : Drains small_env
small_env-Drains = record {
  remaining = λ w. length w.queue;
  fetch_fewer = λ size w w' e es k.
      let p : take size w.queue ≡ e ∷ es =
        ap (λ (p : Result (List Fields) × World). fetched p.0) k in
      let r : drop size w.queue ≡ w'.queue =
        ap (λ (p : Result (List Fields) × World). p.1.queue) k in
      rw r at (fewer_left size w.queue e es p);
  decrypt_keeps = λ e w. omega arith;
  handle_keeps = λ c w. omega arith;
  sleep_keeps = λ delay w. omega arith;
}

abbrev small_options : Resolved
small_options = record {
  batch = 2;
  retries = 1;
  on_error = "deadletter";
  backoff = λ attempt. pos 0;
}

abbrev small_state : State World
small_state = record {
  disk = small_disk;
  world = record { queue = event "b/2" ∷ event "c" ∷ event "d" ∷ []; calls = 0 };
}

process_changes_ends_example :
    (r : Option Error × State World) × (process_changes small_env small_options 5 small_state
      ≡ some r)
process_changes_ends_example =
    process_changes_ends small_env small_options small_env-Drains small_env-IsLimited 5 small_queue
      small_state [] none 7 small_disk-IsBuffer (omega arith) (omega arith)

small_run :
    (r : Option Error × State World) × (process_changes small_env small_options 5 small_state
      ≡ some r)
small_run =
    process_changes_ends small_env small_options small_env-Drains small_env-IsLimited 5 small_queue
      small_state [] none 7 small_disk-IsBuffer (omega arith) (omega arith)

process_changes-Ran_example :
    Ran small_env small_options small_env-IsLimited small_queue [] 7 5 small_run.0
process_changes-Ran_example =
    process_changes-Ran small_env small_options small_env-IsLimited 5 small_queue [] none 7
      small_state small_run.0 small_disk-IsBuffer (omega arith) small_run.1

deliver_one-Delivered_example :
    Delivered small_env small_options 7
      (event "a")
      []
      []
      none
      7
      (deliver_one small_env small_options (event "a") small_state)
deliver_one-Delivered_example =
    deliver_one-Delivered small_env small_options small_state small_disk-IsBuffer

abbrev zero_options : PumpOptions
zero_options = record { batch_size = pos 0; max_retries = pos 0; on_error = ""; backoff = none }

default_pump_backoff_fn_exact_example : default_pump_backoff_fn 7 ≡ pos (wanted 7)
default_pump_backoff_fn_exact_example = default_pump_backoff_fn_exact 7 (omega arith) (omega arith)

default_pump_backoff_fn_vanishes_example : default_pump_backoff_fn 60 ≡ pos 0
default_pump_backoff_fn_vanishes_example = default_pump_backoff_fn_vanishes 60 (omega arith)

-- The event that never decrypts is among the dead letters, with one that does.
abbrev buried_state : State World
buried_state = record small_state {
  disk = record small_disk {
    deadletter = dir_of no_format ((3, event "b/2") ∷ (4, event "c") ∷ []);
  };
}

retry_dead_letters-Kept_example :
    Kept 0
      (retry_dead_letters small_env small_options buried_state).0
      buried_state.disk
      (retry_dead_letters small_env small_options buried_state).2.disk
retry_dead_letters-Kept_example = retry_dead_letters-Kept small_env small_options buried_state

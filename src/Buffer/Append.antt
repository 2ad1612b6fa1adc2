-- ===== src/Buffer/Append.antt =====
-- Append keeps the buffer's invariant (companydata/buffer.go).
use mathlib.Core.List.{append_assoc, append-nil}
use company_data_go.Prelude.{
  ℕ, suc, ◌+◌, ◌≤◌, ◌<◌, ◌≡◌, refl, ap, Option, none, some, List, [], ◌∷◌, ◌++◌, String, arith,
  length,
}
use company_data_go.Json.{Value, Fields}
use company_data_go.Errors.{Error, Result, ok, err}
use company_data_go.Buffer.Decimal.{pow10}
use company_data_go.Buffer.Names.{Name}
use company_data_go.Buffer.Disk.{Disk}
use company_data_go.Buffer.Ops.{append_one, append_from, append}
use company_data_go.Buffer.Slots.{Slots, events}
use company_data_go.Buffer.Invariant.{IsBuffer}
use company_data_go.Buffer.Rounds.{torn_after, Round, append_one-Round, written, failed}

-- What `Append` leaves of the batch `es`: `added` is written, `left` is not.
pub record Appended (format : Value → String) (q dl : Slots) (torn : Option Value) (hi : ℕ)
    (es : List Fields) (r : (List Name × Option Error) × Disk) : Type 0 where
  pub added : Slots
  pub left : List Fields
  pub torn' : Option Value
  pub hi' : ℕ
  pub split : events added ++ left ≡ es
  pub holds : IsBuffer format r.1 (q ++ added) dl torn' hi'
  pub hi_bound : hi' ≤ hi + length es
  pub complete : r.0.1 ≡ none → left ≡ []

abbrev next_round :
    (Value → String)
    → List Name
    → List Fields
    → Result Name × Disk
    → (List Name × Option Error) × Disk
next_round format names es (ok name, d) = append_from format (names ++ name ∷ []) es d
next_round format names es (err x, d) = ((names, some x), d)

append_from-cons :
    (format : Value → String) (names : List Name) (e : Fields) (es : List Fields) (d : Disk)
    → append_from format names (e ∷ es) d ≡ next_round format names es (append_one format e d)
unfolding append_from
append_from-cons format names e es d = go (append_one format e d)
  where
    go :
        (r : Result Name × Disk)
        → elim r.0 [
          | ok name ↦ append_from format (names ++ name ∷ []) es r.1
          | err x ↦ ((names, some x), r.1)
        ]
          ≡ next_round format names es r
    go (ok name, d') = refl
    go (err x, d') = refl

module _ (format : Value → String) where
  -- One event more in front.
  Appended-cons :
      {q dl : Slots} {torn torn' : Option Value} {hi n : ℕ} (e : Fields) {es : List Fields}
      {r : (List Name × Option Error) × Disk}
      → n ≤ suc hi
      → Appended format (q ++ (n, e) ∷ []) dl torn' n es r
      → Appended format q dl torn hi (e ∷ es) r
  Appended-cons {q} {n = n} e h a = record {
    added = (n, e) ∷ a.added;
    left = a.left;
    torn' = a.torn';
    hi' = a.hi';
    split = ap (λ l. e ∷ l) a.split;
    holds = rw (append_assoc q ((n, e) ∷ []) a.added) at a.holds;
    hi_bound = omega (arith, a.hi_bound);
    complete = a.complete;
  }

  round-Appended :
      (names : List Name) (e : Fields) (es : List Fields) {q dl : Slots} {torn : Option Value}
      {hi : ℕ} (r : Result Name × Disk)
      → Round format e q dl torn hi r
      → ((ns : List Name) (d : Disk) (p : Slots) (t : Option Value) (n : ℕ)
          → n ≤ suc hi
          → IsBuffer format d p dl t n
          → Appended format p dl t n es (append_from format ns es d))
      → Appended format q dl torn hi (e ∷ es) (next_round format names es r)
  round-Appended names e es {q} {torn = torn} (ok name, d) (written n h le b) ih =
      Appended-cons e le (ih (names ++ name ∷ []) d (q ++ (n, e) ∷ []) (torn_after torn q) n le b)
  round-Appended names e es (err x, d) (written n h le b) ih = cc
  round-Appended names e es (ok name, d) (failed x n h le b) ih = cc
  round-Appended names e es {q} {torn = torn} (err y, d) (failed x n h le b) ih = record {
    added = [];
    left = e ∷ es;
    torn' = torn;
    hi' = n;
    split = refl;
    holds = rw (append-nil q) b;
    hi_bound = omega arith;
    complete = λ k. cc;
  }

  append_from-Appended :
      (names : List Name) (es : List Fields) (d : Disk) (q dl : Slots) (torn : Option Value)
      (hi : ℕ)
      → IsBuffer format d q dl torn hi
      → hi + length es < pow10 16
      → Appended format q dl torn hi es (append_from format names es d)
  append_from-Appended names [] d q dl torn hi b room = record {
    added = [];
    left = [];
    torn' = torn;
    hi' = hi;
    split = refl;
    holds = unfold append_from in rw (append-nil q) b;
    hi_bound = omega arith;
    complete = λ h. refl;
  }
  append_from-Appended names (e ∷ es) d q dl torn hi b room =
      rw (append_from-cons format names e es d) (
        round-Appended names e es (append_one format e d) (append_one-Round e b (omega arith))
          λ ns d' p t n le b'. append_from-Appended ns es d' p dl t n b' (omega arith))

  -- With sequence numbers to spare, `Append` extends the queue by a prefix of the batch in its order,
  -- keeps the invariant, and has written the whole batch when it reports no error.
  pub append-Appended :
      {d : Disk} {q dl : Slots} {torn : Option Value} {hi : ℕ} (es : List Fields)
      → IsBuffer format d q dl torn hi
      → hi + length es < pow10 16
      → Appended format q dl torn hi es (append format es d)
  unfolding append
  append-Appended {d} {q} {dl} {torn} {hi} es b room =
      append_from-Appended [] es d q dl torn hi b room

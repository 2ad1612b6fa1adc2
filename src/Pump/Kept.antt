-- ===== src/Pump/Kept.antt =====
-- What UpdateDeadLetter and RemoveDeadLetter leave of the buffer (companydata/buffer.go).
use company_data_go.Prelude.{
  ℕ, ◌+◌, ◌≤◌, ◌≡◌, refl, ◌∙◌, String, Bool, true, false, Option, none, some, List, [], ◌∷◌, length,
  arith,
}
use company_data_go.Json.{Fields}
use company_data_go.Errors.{Result, ok, err}
use company_data_go.Buffer.Names.{Name}
use company_data_go.Buffer.Disk.{Dir, Disk, act, write, remove}
use company_data_go.Buffer.Ops.{
  DeadletterMeta, update_dead_letter, remove_dead_letter, drop_found, refresh, refresh_found,
  refreshed, find_file, read_event,
}

-- From `d` to `d'`, while the count went from `n` to `n'`: the pending events and the counter are
-- as they were, and no more dead letters are gone than were counted.
pub record Kept (n n' : ℕ) (d d' : Disk) : Type 0 where
  pub pending_is : d'.pending ≡ d.pending
  pub seq_is : d'.seq_file ≡ d.seq_file
  pub letters : length d.deadletter + n ≤ length d'.deadletter + n'

pub Kept-same : (n : ℕ) (d : Disk) → Kept n n d d
Kept-same n d = record { pending_is = refl; seq_is = refl; letters = omega arith }

pub Kept-then :
    {n n' n'' : ℕ} {d d' d'' : Disk} → Kept n n' d d' → Kept n' n'' d' d'' → Kept n n'' d d''
Kept-then a b = record {
  pending_is = b.pending_is ∙ a.pending_is;
  seq_is = b.seq_is ∙ a.seq_is;
  letters = omega (arith, a.letters, b.letters);
}

length-remove : (n : Name) (dir : Dir) → length dir ≤ length (remove n dir) + 1
unfolding remove
length-remove n [] = omega arith
length-remove n ((m, c) ∷ dir) = let ih = length-remove n dir in ground arith

length-write : (n : Name) (e : Fields) (dir : Dir) → length dir ≤ length (write n e dir)
unfolding write
length-write n e [] = omega arith
length-write n e ((m, c) ∷ dir) = let ih = length-write n e dir in ground arith

-- A removal that succeeds may take one dead letter, one that fails takes none.
abbrev pub Removed : ℕ → Disk → Result Bool × Disk → Type 0
Removed n d (ok b, d') = Kept n (n + 1) d d'
Removed n d (err x, d') = Kept n n d d'

pub remove_dead_letter-Removed :
    (n : ℕ) (id : String) (d : Disk) → Removed n d (remove_dead_letter id d)
unfolding remove_dead_letter act
remove_dead_letter-Removed n id d = by (find_file id d.deadletter) d.faults
  where
    by : (o : Option Name) (fs : List Bool) → Removed n d (drop_found o (record d { faults = fs }))
    by none fs = record { pending_is = refl; seq_is = refl; letters = omega arith }
    by (some name) [] = record {
      pending_is = refl;
      seq_is = refl;
      letters = omega (arith, length-remove name d.deadletter);
    }
    by (some name) (false ∷ later) = record {
      pending_is = refl;
      seq_is = refl;
      letters = omega (arith, length-remove name d.deadletter);
    }
    by (some name) (true ∷ later) = record {
      pending_is = refl;
      seq_is = refl;
      letters = omega arith;
    }

pub update_dead_letter-Kept :
    (n : ℕ) (id : String) (m : DeadletterMeta) (d : Disk) → Kept n n d (update_dead_letter id m d).1
unfolding update_dead_letter act
update_dead_letter-Kept n id m d = by (find_file id d.deadletter) d.faults
  where
    refreshed_by :
        (name : Name) (fs : List Bool) (r : Result Fields)
        → Kept n n d (refresh m name r (record d { faults = fs })).1
    refreshed_by name fs (err x) = record {
      pending_is = refl;
      seq_is = refl;
      letters = omega arith;
    }
    refreshed_by name [] (ok e) = record {
      pending_is = refl;
      seq_is = refl;
      letters = omega (arith, length-write name (refreshed m e) d.deadletter);
    }
    refreshed_by name (false ∷ later) (ok e) = record {
      pending_is = refl;
      seq_is = refl;
      letters = omega (arith, length-write name (refreshed m e) d.deadletter);
    }
    refreshed_by name (true ∷ later) (ok e) = record {
      pending_is = refl;
      seq_is = refl;
      letters = omega arith;
    }

    by :
        (o : Option Name) (fs : List Bool)
        → Kept n n d (refresh_found m o (record d { faults = fs })).1
    by none fs = record { pending_is = refl; seq_is = refl; letters = omega arith }
    by (some name) fs = refreshed_by name fs (read_event d.deadletter name)

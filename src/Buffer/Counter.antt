-- ===== src/Buffer/Counter.antt =====
-- The counter of the buffer (companydata/buffer.go: nextSeq, readSeq).
use company_data_go.Prelude.{ℕ, ◌+◌, ◌<◌, ◌≡◌, refl, false, some, [], pos, max_int64, ◌==◌, arith}
use company_data_go.Errors.{ok}
use company_data_go.Buffer.Disk.{Disk, act}
use company_data_go.Buffer.Ops.{read_seq, current_seq, next_seq}
use company_data_go.Buffer.ReadBack.{atoi-itoa}

-- When the disk does not fail, `nextSeq` returns one more than the current number, below the largest
-- integer, and the counter that it writes is read back as that number.
pub read_seq-next_seq :
    (d : Disk) (n : ℕ)
    → current_seq d ≡ pos n
    → n < max_int64
    → d.faults ≡ []
    → ((next_seq d).0 ≡ ok (pos (n + 1))) × (read_seq (next_seq d).1 ≡ some (pos (n + 1)))
unfolding next_seq read_seq act
read_seq-next_seq d n c h f =
    let below : (n == max_int64) ≡ false = ground arith in
    rw (c, f) (rw below (refl, atoi-itoa (n + 1) (omega arith)))

-- ===== src/Zephyr/Thread.antt =====
-- zephyr-samples/pcie_native_thread/src/main.c: what one of its threads does while no other runs. The
-- locks, the pause and the creation of the threads are left out.
pub mod Runs
use warp_pipe.Base.{ℕ, suc, zero, ◌+◌, ◌%◌, Bool, List, Mem, slice, update}
use warp_pipe.Zephyr.{Link, read_data}
use warp_pipe.Zephyr.Checked.{Checked, done, ◌>>◌, ◌>>=◌, assert, within, equals}

abbrev pub transaction_length : ℕ
transaction_length = 2048

abbrev pub iterations : ℕ
iterations = 100

-- `for (j = 0; j < n; j++) buf[j] = j+i;` with `left` for `n - j`.
unfoldable pub fill_buf : ℕ → ℕ → ℕ → Mem → Mem
fill_buf i j zero buf = buf
fill_buf i j (suc left) buf = fill_buf i (j + 1) left (update buf j ((j + i) % 256))

module _ (link : Link) (warppipe_write : ℕ → ℕ → List ℕ → link.World → Bool × link.World) where
  -- One round of the loop, with the array before and after it.
  unfoldable pub iteration : ℕ → ℕ → Mem → link.World → Checked (Mem × link.World)
  iteration rounds i buf w = do
    first ← within (read_data link rounds 1 0 transaction_length buf w)
    assert (equals transaction_length first.0)
    let filled = fill_buf i 0 transaction_length first.1
    let sent = warppipe_write 1 0 (slice filled 0 transaction_length) first.2
    assert sent.0
    second ← within (read_data link rounds 1 0 transaction_length filled sent.1)
    assert (equals transaction_length second.0)
    done (second.1, second.2)

  -- The loop, with `left` rounds left.
  unfoldable pub thread_rounds : ℕ → ℕ → ℕ → Mem → link.World → Checked (Mem × link.World)
  thread_rounds rounds i zero buf w = done (buf, w)
  thread_rounds rounds i (suc left) buf w =
      iteration rounds i buf w >>= λ next. thread_rounds rounds i left next.0 next.1

  unfoldable pub thread_task : ℕ → ℕ → Mem → link.World → Checked (Mem × link.World)
  thread_task rounds i buf w = thread_rounds rounds i iterations buf w

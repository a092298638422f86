-- ===== src/Zephyr/Thread/Runs.antt =====
-- A thread of pcie_native_thread, with the memory mock at the other end of the link.
use warp_pipe.Base.{ℕ, ◌+◌, ◌%◌, ◌≤◌, ◌<◌, ◌≡◌, Bool, List}
use warp_pipe.Zephyr.{Link}
use warp_pipe.Zephyr.Attached.{View, Attached}
use warp_pipe.Zephyr.Populated.{Populated, IsWritable}
use warp_pipe.Zephyr.Thread.{transaction_length}

module _ (link : Link) (d : Attached link)
    (warppipe_write : ℕ → ℕ → List ℕ → link.World → Bool × link.World)
    (p : Populated d warppipe_write) (rounds : ℕ) (enough : d.delay + 2 ≤ rounds) (i : ℕ) where
  -- BAR 1 can be reached, and holds a transaction.
  abbrev IsLarge : View → Type 0
  IsLarge v = IsWritable v 1 × (transaction_length ≤ (v.bars_config 1).size)

  abbrev Counts : View → Type 0
  Counts v = (k : ℕ) → k < transaction_length → (v.bars_config 1).memory k ≡ (k + i) % 256

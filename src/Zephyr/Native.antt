-- ===== src/Zephyr/Native.antt =====
-- zephyr-samples/pcie_native/src/main.c: a host that reads and writes the memory of a device. Its
-- output is left out.
pub mod Passes
use warp_pipe.Base.{ℕ, Bool, not, List, Mem, slice, poke, if◌then◌else◌, ℤ, pos, negsuc}
use warp_pipe.Zephyr.{Link, read_data, enumerate}
use warp_pipe.Zephyr.Checked.{
  Checked, done, ◌>>◌, ◌>>=◌, assert, within, equals, is_minus_one, same_bytes, hello,
}

module _ (link : Link) (warppipe_server_create : link.World → Bool × link.World)
    (warppipe_write : ℕ → ℕ → List ℕ → link.World → Bool × link.World) where
  -- The reads and the write, with `buf` as the memory of the array of 16 bytes.
  unfoldable pub transfers : ℕ → Mem → link.World → Checked (ℤ × link.World)
  unfolding same_bytes
  transfers rounds buf w = do
    first ← within (read_data link rounds 0 0 16 buf w)
    assert (equals 16 first.0)
    second ← within (read_data link rounds 1 0 16 first.1 first.2)
    assert (equals 16 second.0)
    let text = poke second.1 0 hello
    let sent = warppipe_write 1 0 (slice text 0 5) second.2
    assert sent.0
    third ← within (read_data link rounds 1 0 16 text sent.1)
    assert (equals 16 third.0)
    assert (same_bytes (slice third.1 0 5) hello)
    last ← within (read_data link rounds 2 0 16 third.1 third.2)
    assert (is_minus_one last.0)
    done (pos 0, last.2)

  -- `junk` is what the variables hold at first.
  unfoldable pub main : ℕ → Mem → link.World → Checked (ℤ × link.World)
  unfolding transfers
  main rounds junk w =
      let (made, w₁) = warppipe_server_create w in
      if not made
      then done (negsuc 0, w₁)
      else within (enumerate link rounds junk w₁) >>= λ listed.
          if not listed.0 then done (negsuc 0, listed.1) else transfers rounds junk listed.1

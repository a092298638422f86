-- ===== src/Zephyr/Suite.antt =====
-- zephyr-tests/src/main.cpp: the test suite of the library, which has its own version of the helpers
-- of zephyr-samples/common. A failed `zassert` ends the test.
pub mod Enumerated
pub mod Passes
use warp_pipe.Base.{
  ℕ, suc, zero, ◌+◌, ◌-◌, ◌*◌, ◌/◌, bit_and, Bool, true, false, not, ◌||◌, List, [], ◌∷◌, Mem,
  slice, poke, u32, u64, leb, ◌==◌, if◌then◌else◌, ℤ, pos, negsuc,
}
use warp_pipe.Client.Handlers.{is_zero}
use warp_pipe.Zephyr.{ReadComplData, Completed, Link, load32, load16, bytes32, probed_size}
use warp_pipe.Zephyr.Checked.{Checked, done, out_of_rounds, ◌>>=◌, ◌>>◌, assert, equals, hello}

unfoldable pub read_compl : Completed → ReadComplData → Checked ReadComplData
read_compl c d = if not (is_zero c.error_code) then done (record d { ret = c.error_code }) else (do
  assert (c.length == d.buf_size)
  done (record d {
    ret = pos c.length;
    buf = poke d.buf 0 (slice c.payload 0 c.length);
    finished = true;
  }))

unfoldable pub complete_all : List Completed → ReadComplData → Checked ReadComplData
unfolding read_compl
complete_all [] d = done d
complete_all (c ∷ rest) d = read_compl c d >>= complete_all rest

-- The loop of a test over an array that is counted up from 0x10, from `i` on.
unfoldable pub counted_up : Mem → ℕ → ℕ → Checked (Unit {0})
counted_up m i zero = done tt
counted_up m i (suc left) = assert (m i == 0x10 + i) >> counted_up m (i + 1) left

-- A structure for `size` bytes, before its read.
abbrev pub expected : Mem → ℕ → ReadComplData
expected junk size = record { buf = junk; buf_size = size; ret = negsuc 0; finished = false }

-- `warppipe_server_create` is the call in `fixture_before`, for a server whose `quit` was cleared.
module _ (link : Link) (warppipe_server_create : link.World → Bool × link.World)
    (warppipe_write : ℕ → ℕ → List ℕ → link.World → Bool × link.World) where
  -- For `rounds` tests of the loop at most; false is -1.
  unfoldable pub wait_for_completion :
      ℕ → ReadComplData → link.World → Checked (Bool × ReadComplData × link.World)
  unfolding complete_all
  wait_for_completion zero d w = out_of_rounds
  wait_for_completion (suc rounds) d w =
      let (arrived, w') = link.warppipe_server_loop w in
      let rest = complete_all arrived d >>= λ d'. wait_for_completion rounds d' w' in
      if d.finished || link.quit w then done (not (link.quit w), d, w) else rest

  -- `aligned_buf` is what the variable of this name holds at first.
  unfoldable pub read_config_header_field :
      ℕ → Mem → ℕ → ℕ → Mem → link.World → Checked (ℕ × Mem × link.World)
  unfolding wait_for_completion
  read_config_header_field rounds aligned_buf addr length buf w = do
    let offset = bit_and addr 3
    assert (leb (u64 (length + offset)) 4)
    let sent = link.warppipe_config0_read (addr - offset) 4 w
    assert sent.0
    waited ←
        wait_for_completion rounds
          (record { buf = aligned_buf; buf_size = 4; ret = pos 0; finished = false }) sent.1
    assert waited.0
    assert (equals 4 (waited.1.ret))
    done (length, poke buf 0 (slice (waited.1.buf) offset length), waited.2)

  -- One round of the loop on the BARs.
  unfoldable pub enumerate_bar : ℕ → Mem → ℕ → link.World → Checked link.World
  enumerate_bar rounds junk bar_offset w = do
    old_bar ← read_config_header_field rounds junk bar_offset 4 junk w
    assert (old_bar.0 == 4)
    let asked = link.warppipe_config0_write bar_offset (bytes32 0xffff_ffff) old_bar.2
    assert asked.0
    bar ←
        read_config_header_field rounds junk bar_offset 4 (poke junk 0 (bytes32 0xffff_ffff))
          asked.1
    assert (bar.0 == 4)
    if load32 bar.1 == 0 then done bar.2 else (do
      let bar_addr = u32 (bar_offset * 0x1_0000)
      let registered =
          link.warppipe_register_bar bar_addr (probed_size (load32 bar.1)) ((bar_offset - 0x10) / 4)
            bar.2
      assert registered.0
      let written = link.warppipe_config0_write bar_offset (bytes32 bar_addr) registered.1
      assert written.0
      done written.1)

  unfoldable pub enumerate_bars : ℕ → Mem → ℕ → ℕ → link.World → Checked link.World
  enumerate_bars rounds junk zero bar_offset w = done w
  enumerate_bars rounds junk (suc left) bar_offset w =
      enumerate_bar rounds junk bar_offset w >>= enumerate_bars rounds junk left (bar_offset + 4)

  -- Its result is always 0.
  unfoldable pub enumerate : ℕ → Mem → link.World → Checked link.World
  enumerate rounds junk w = do
    vendor_id ← read_config_header_field rounds junk 0 2 junk w
    assert (vendor_id.0 == 2)
    assert (load16 vendor_id.1 == 1)
    header_type ← read_config_header_field rounds junk 0xe 1 junk vendor_id.2
    assert (header_type.0 == 1)
    assert (header_type.1 0 == 0)
    enumerate_bars rounds junk 6 0x10 header_type.2

  unfoldable pub fixture_before : ℕ → Mem → link.World → Checked link.World
  fixture_before rounds junk w = do
    let made = warppipe_server_create w
    assert made.0
    enumerate rounds junk made.1

  unfoldable pub read_data :
      ℕ → ℕ → ℕ → ℕ → ReadComplData → link.World → Checked (ℤ × ReadComplData × link.World)
  unfolding wait_for_completion
  read_data rounds bar addr length d w =
      let (sent, w₁) = link.warppipe_read bar addr length w in
      if not sent
      then done (negsuc 0, d, w₁)
      else wait_for_completion rounds d w₁ >>= λ waited. done (waited.1.ret, waited.1, waited.2)

  unfoldable pub test_write : Mem → link.World → Checked link.World
  test_write junk w = do
    let sent = warppipe_write 1 0 (slice (poke junk 0 hello) 0 5) w
    assert sent.0
    done sent.1

  unfoldable pub test_read : ℕ → Mem → link.World → Checked link.World
  unfolding counted_up
  test_read rounds junk w = do
    r ← read_data rounds 0 0 16 (expected junk 16) w
    assert (equals 16 r.0)
    counted_up (r.1.buf) 0 16
    done r.2

  unfoldable pub test_unaligned_read : ℕ → Mem → link.World → Checked link.World
  test_unaligned_read rounds junk w = do
    r ← read_data rounds 0 1 1 (expected junk 1) w
    assert (equals 1 r.0)
    assert (r.1.buf 0 == 0x11)
    done r.2

  unfoldable pub test_unaligned_write : ℕ → Mem → link.World → Checked link.World
  test_unaligned_write rounds junk w = do
    let sent = warppipe_write 1 1 (slice (poke junk 0 hello) 0 5) w
    assert sent.0
    r ← read_data rounds 1 1 5 (expected junk 5) sent.1
    assert (equals 5 r.0)
    assert (r.1.buf 0 == 0x68)
    assert (r.1.buf 1 == 0x65)
    assert (r.1.buf 2 == 0x6c)
    assert (r.1.buf 3 == 0x6c)
    assert (r.1.buf 4 == 0x6f)
    done r.2

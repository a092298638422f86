-- ===== src/Zephyr/Suite/Enumerated.antt =====
-- The enumeration in zephyr-tests/src/main.cpp, with the memory mock at the other end of the link.
use warp_pipe.Base.{
  ℕ, suc, zero, ◌+◌, ◌-◌, ◌*◌, ◌/◌, ◌%◌, ◌^◌, ◌≤◌, ◌≡◌, refl, ap, ◌∙◌, arith, bit_and, Bool, true,
  false, List, [], ◌∷◌, Mem, slice, poke, pos, u32, u64, leb, ◌==◌, ==_refl,
}
use mathlib.Core.Path.{subst}
use warp_pipe.Base.Bits.{bit_and-mask}
use warp_pipe.MemoryMock.{bar_offset}
use warp_pipe.MemoryMock.Probe.{bounds}
use warp_pipe.Zephyr.{ReadComplData, Completed, Link, load16, bytes32}
use warp_pipe.Zephyr.HeaderField.{Arrives, filled, field_bytes}
use warp_pipe.Zephyr.Attached.{View, Attached, view, bar_address}
use warp_pipe.Zephyr.Settled.{size_found}
use warp_pipe.Zephyr.Enumerate.{Fetches, Exchange, passed_over, mapped}
use warp_pipe.Zephyr.Enumerate.Exchanges.{Exchanges, Enumerates}
use warp_pipe.Zephyr.Enumerate.Whole.{load32_lem, load16_lem, first_byte}
use warp_pipe.Zephyr.Checked.{Checked, done, ◌>>=◌}
use warp_pipe.Zephyr.Suite.{
  complete_all, wait_for_completion, read_config_header_field, enumerate_bar, enumerate_bars,
  enumerate,
}

module _ (link : Link) (create : link.World → Bool × link.World)
    (warppipe_write : ℕ → ℕ → List ℕ → link.World → Bool × link.World) where
  goes_on :
      (n : ℕ) (d : ReadComplData) (w : link.World) (arrived : List Completed) (w' : link.World)
      → d.finished ≡ false
      → link.quit w ≡ false
      → link.warppipe_server_loop w ≡ (arrived, w')
      → wait_for_completion link create warppipe_write (suc n) d w
        ≡ (complete_all arrived d >>= λ d'. wait_for_completion link create warppipe_write n d' w')
  unfolding wait_for_completion
  goes_on n d w arrived w' open_yet on e = rw (open_yet, on, e) refl

  ends :
      (n : ℕ) (d : ReadComplData) (w : link.World)
      → d.finished ≡ true
      → link.quit w ≡ false
      → wait_for_completion link create warppipe_write (suc n) d w ≡ done (true, d, w)
  unfolding wait_for_completion
  ends n d w over on = rw (over, on) refl

  module _ (payload : Mem) (size : ℕ) (w' : link.World) where
    abbrev completion : Completed
    completion = record { error_code = pos 0; payload = payload; length = size }

    completes :
        (d : ReadComplData)
        → d.buf_size ≡ size
        → complete_all (completion ∷ []) d ≡ done (filled link payload size d)
    unfolding complete_all
    completes d sized = rw (sized, ==_refl size) refl

    -- As `waits` of the samples.
    pub waits :
        (n rounds : ℕ) (d : ReadComplData) (w : link.World)
        → n + 2 ≤ rounds
        → d.finished ≡ false
        → d.buf_size ≡ size
        → Arrives link n w completion w'
        → wait_for_completion link create warppipe_write rounds d w
          ≡ done (true, filled link payload size d, w')
    unfolding complete_all
    waits n zero d w enough open_yet sized _ = absurd (omega arith)
    waits n (suc zero) d w enough open_yet sized _ = absurd (omega arith)
    waits zero (suc (suc r)) d w enough open_yet sized (on, e, on') =
        let next : ReadComplData → Checked (Bool × ReadComplData × link.World) =
          λ d'. wait_for_completion link create warppipe_write (suc r) d' w' in
        goes_on (suc r) d w (completion ∷ []) w' open_yet on e
        ∙ ap (λ (x : Checked ReadComplData). x >>= next) (completes d sized)
        ∙ ends r (filled link payload size d) w' refl on'
    waits (suc n) (suc (suc r)) d w enough open_yet sized (next, on, e, later) =
        goes_on (suc r) d w [] next open_yet on e
        ∙ waits n (suc r) d next (omega arith) open_yet sized later

  module _ (d : Attached link) (junk : Mem) (rounds : ℕ) (enough : d.delay + 2 ≤ rounds) where
    fetched :
        (addr length : ℕ) (buf : Mem) (w w' : link.World)
        → length + addr % 4 ≤ 4
        → Fetches d (addr / 4 * 4) w w'
        → read_config_header_field link create warppipe_write rounds junk addr length buf w
          ≡ done (length, poke buf 0 (slice (view d w).space addr length), w')
    unfolding read_config_header_field
    fetched addr length buf w w' fits (w₁, n, payload, asked, arrives, soon, same) =
        let offset : bit_and addr 3 ≡ addr % 4 = bit_and-mask 2 addr in
        let aligned : addr - addr % 4 ≡ addr / 4 * 4 = omega arith in
        let inside : leb (u64 (length + addr % 4)) 4 ≡ true = ground (arith, fits) in
        let r : ReadComplData = record {
          buf = junk;
          buf_size = 4;
          ret = pos 0;
          finished = false;
        } in
        rw (offset, inside, aligned, asked)
          (rw (waits payload 4 w' n rounds r w₁ (omega arith) refl refl arrives) (
            ap (λ (bytes : List ℕ). done (length, poke buf 0 bytes, w'))
              (field_bytes link junk payload (view d w).space addr length fits same)))

    fetched_register :
        (i : ℕ) (buf : Mem) (w w' : link.World)
        → Fetches d (bar_offset + 4 * i) w w'
        → read_config_header_field link create warppipe_write rounds junk
            (bar_offset + 4 * i)
            4
            buf
            w
          ≡ done (4, poke buf 0 (slice (view d w).space (bar_offset + 4 * i) 4), w')
    fetched_register i buf w w' f =
        let word : bar_offset + 4 * i ≡ (bar_offset + 4 * i) / 4 * 4 = omega arith in
        fetched (bar_offset + 4 * i) 4 buf w w' (omega arith)
          (subst (λ (a : ℕ). Fetches d a w w') word f)

    Exchange-enumerate_bar :
        (i : ℕ) (w w' : link.World)
        → Exchange d i w w'
        → enumerate_bar link create warppipe_write rounds junk (bar_offset + 4 * i) w ≡ done w'
    unfolding enumerate_bar
    Exchange-enumerate_bar i w w' (passed_over (w₁, w₂, first, asked, second, value)) =
        let ones : Mem = poke junk 0 (bytes32 0xffff_ffff) in
        let nothing = load32_lem ones (view d w₂).space (bar_offset + 4 * i) ∙ value in
        rw (fetched_register i junk w w₁ first, asked, enumerate_bar)
          (rw (fetched_register i ones w₂ w' second, nothing) refl)
    Exchange-enumerate_bar i w w'
          (mapped k config w₃ w₄ in_range low high small
            (w₁, w₂, first, asked, second, value)
            named
            told) =
        let ones : Mem = poke junk 0 (bytes32 0xffff_ffff) in
        let read = load32_lem ones (view d w₂).space (bar_offset + 4 * i) ∙ value in
        let size = size_found k config low high small in
        let present : (2 ^ 32 - 2 ^ k + config == 0) ≡ false =
          ground (arith, bounds k config low high small) in
        let index : (bar_offset + 4 * i - bar_offset) / 4 ≡ i = omega arith in
        let address : u32 ((bar_offset + 4 * i) * 0x1_0000) ≡ bar_address i = omega arith in
        rw (fetched_register i junk w w₁ first, asked, enumerate_bar)
          (rw
            (fetched_register i ones w₂ w₃ second, read, present, index, address, size, named, told)
            refl)

    Exchanges-enumerate_bars :
        (left i : ℕ) (w w' : link.World)
        → Exchanges d left i w w'
        → enumerate_bars link create warppipe_write rounds junk left (bar_offset + 4 * i) w
          ≡ done w'
    unfolding enumerate_bars
    Exchanges-enumerate_bars zero i w w' e = ap done e
    Exchanges-enumerate_bars (suc left) i w w' (w₁, round, more) =
        let next : bar_offset + 4 * i + 4 ≡ bar_offset + 4 * (i + 1) = omega arith in
        rw (Exchange-enumerate_bar i w w₁ round, next)
          (Exchanges-enumerate_bars left (i + 1) w₁ w' more)

    pub Enumerates-enumerate :
        (w w' : link.World)
        → Enumerates d w w'
        → (view d w).space 0 + (view d w).space 1 * 2 ^ 8 ≡ 1
        → (view d w).space 0xe ≡ 0
        → enumerate link create warppipe_write rounds junk w ≡ done w'
    unfolding enumerate
    Enumerates-enumerate w w' (w₁, w₂, first, second, v₁, more) vendor header =
        let known : load16 (poke junk 0 (slice (view d w).space 0 2)) ≡ 1 =
          load16_lem junk (view d w).space ∙ vendor in
        let normal : poke junk 0 (slice (view d w₁).space 0xe 1) 0 ≡ 0 =
          first_byte junk (view d w₁).space 0xe ∙ ap (λ (v : View). v.space 0xe) v₁ ∙ header in
        rw (fetched 0 2 junk w w₁ (omega arith) first, known, enumerate)
          (rw
            (
              fetched 0xe 1 junk w₁ w₂ (omega arith) second,
              normal,
              Exchanges-enumerate_bars 6 0 w₂ w' more,
            )
            refl)

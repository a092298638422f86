-- ===== src/Zephyr/Enumerate/Whole.antt =====
-- `enumerate` of zephyr-samples/common/common.c, with the memory mock at the other end of the link.
use warp_pipe.Base.{
  ℕ, suc, zero, ◌+◌, ◌-◌, ◌*◌, ◌/◌, ◌%◌, ◌^◌, ◌≤◌, ◌<◌, ◌≡◌, ◌≢◌, refl, ap, ◌∙◌, arith, true, false,
  some, Mem, slice, poke, pos, u32, ◌==◌,
}
use mathlib.Core.Path.{subst}
use warp_pipe.MemoryMock.{bar_offset, load_word}
use warp_pipe.MemoryMock.Probe.{bounds}
use warp_pipe.Zephyr.{
  Link, load16, load32, bytes32, read_config_header_field, enumerate_bar, enumerate_bars, enumerate,
}
use warp_pipe.Zephyr.HeaderField.{field_answered}
use warp_pipe.Zephyr.Attached.{View, Attached, view, bar_address}
use warp_pipe.Zephyr.Settled.{size_found}
use warp_pipe.Zephyr.Enumerate.{Fetches, Exchange, passed_over, mapped}
use warp_pipe.Zephyr.Enumerate.Mapped.{IsUsual, IsUnmapped, IsMapped}
use warp_pipe.Zephyr.Enumerate.Exchanges.{Exchanges, Enumerates, takes_part}

pub load32_lem :
    (buf space : Mem) (off : ℕ) → load32 (poke buf 0 (slice space off 4)) ≡ load_word off space
unfolding poke slice
load32_lem buf space off = ground arith

pub load16_lem :
    (buf space : Mem) → load16 (poke buf 0 (slice space 0 2)) ≡ space 0 + space 1 * 2 ^ 8
unfolding poke slice
load16_lem buf space = ground arith

pub first_byte : (buf space : Mem) (off : ℕ) → poke buf 0 (slice space off 1) 0 ≡ space off
unfolding poke slice
first_byte buf space off = refl

module _ (link : Link) (d : Attached link) (junk : Mem) (rounds : ℕ)
    (enough : d.delay + 2 ≤ rounds) where
  pub fetched :
      (addr length : ℕ) (buf : Mem) (w w' : link.World)
      → length + addr % 4 ≤ 4
      → Fetches d (addr / 4 * 4) w w'
      → read_config_header_field link rounds junk addr length buf w
        ≡ some (pos 4, poke buf 0 (slice (view d w).space addr length), w')
  fetched addr length buf w w' fits (w₁, n, payload, asked, arrives, soon, same) =
      field_answered link junk payload (view d w).space addr length buf w w₁ w' n rounds
        (omega arith) fits asked arrives same

  fetched_register :
      (i : ℕ) (buf : Mem) (w w' : link.World)
      → Fetches d (bar_offset + 4 * i) w w'
      → read_config_header_field link rounds junk (bar_offset + 4 * i) 4 buf w
        ≡ some (pos 4, poke buf 0 (slice (view d w).space (bar_offset + 4 * i) 4), w')
  fetched_register i buf w w' f =
      let word : bar_offset + 4 * i ≡ (bar_offset + 4 * i) / 4 * 4 = omega arith in
      fetched (bar_offset + 4 * i) 4 buf w w' (omega arith)
        (subst (λ (a : ℕ). Fetches d a w w') word f)

  Exchange-enumerate_bar :
      (i : ℕ) (w w' : link.World)
      → Exchange d i w w'
      → enumerate_bar link rounds junk (bar_offset + 4 * i) w ≡ some w'
  unfolding enumerate_bar
  Exchange-enumerate_bar i w w' (passed_over (w₁, w₂, first, asked, second, value)) =
      let ones : Mem = poke junk 0 (bytes32 0xffff_ffff) in
      let nothing = load32_lem ones (view d w₂).space (bar_offset + 4 * i) ∙ value in
      rw (fetched_register i junk w w₁ first, asked, enumerate_bar)
        (rw (fetched_register i ones w₂ w' second, nothing) refl)
  Exchange-enumerate_bar i w w'
        (mapped k config w₃ w₄ in_range low high small
          (w₁, w₂, first, asked, second, value)
          named
          told) =
      let ones : Mem = poke junk 0 (bytes32 0xffff_ffff) in
      let read = load32_lem ones (view d w₂).space (bar_offset + 4 * i) ∙ value in
      let size = size_found k config low high small in
      let present : (2 ^ 32 - 2 ^ k + config == 0) ≡ false =
        ground (arith, bounds k config low high small) in
      let index : (bar_offset + 4 * i - bar_offset) / 4 ≡ i = omega arith in
      let address : u32 ((bar_offset + 4 * i) * 0x1_0000) ≡ bar_address i = omega arith in
      rw (fetched_register i junk w w₁ first, asked, enumerate_bar)
        (rw (fetched_register i ones w₂ w₃ second, read, present, index, address, size, named, told)
          refl)

  bars_step :
      (left off : ℕ) (w w' : link.World)
      → enumerate_bar link rounds junk off w ≡ some w'
      → enumerate_bars link rounds junk (suc left) off w
        ≡ enumerate_bars link rounds junk left (off + 4) w'
  unfolding enumerate_bars
  bars_step left off w w' e = rw (e, enumerate_bars) refl

  Exchanges-enumerate_bars :
      (left i : ℕ) (w w' : link.World)
      → Exchanges d left i w w'
      → enumerate_bars link rounds junk left (bar_offset + 4 * i) w ≡ some w'
  unfolding enumerate_bars
  Exchanges-enumerate_bars zero i w w' e = ap some e
  Exchanges-enumerate_bars (suc left) i w w' (w₁, round, more) =
      let next : bar_offset + 4 * i + 4 ≡ bar_offset + 4 * (i + 1) = omega arith in
      bars_step left (bar_offset + 4 * i) w w₁ (Exchange-enumerate_bar i w w₁ round)
      ∙ ap (λ (off : ℕ). enumerate_bars link rounds junk left off w₁) next
      ∙ Exchanges-enumerate_bars left (i + 1) w₁ w' more

  Enumerates-enumerate :
      (w w' : link.World)
      → Enumerates d w w'
      → (view d w).space 0 + (view d w).space 1 * 2 ^ 8 ≢ 0xffff
      → (view d w).space 0xe ≡ 0
      → enumerate link rounds junk w ≡ some (true, w')
  unfolding enumerate
  Enumerates-enumerate w w' (w₁, w₂, first, second, v₁, more) vendor header =
      let known : (load16 (poke junk 0 (slice (view d w).space 0 2)) == 0xffff) ≡ false =
        ground (arith, vendor, load16_lem junk (view d w).space) in
      let normal : poke junk 0 (slice (view d w₁).space 0xe 1) 0 ≡ 0 =
        first_byte junk (view d w₁).space 0xe ∙ ap (λ (v : View). v.space 0xe) v₁ ∙ header in
      rw (fetched 0 2 junk w w₁ (omega arith) first, known, enumerate)
        (rw
          (
            fetched 0xe 1 junk w₁ w₂ (omega arith) second,
            normal,
            Exchanges-enumerate_bars 6 0 w₂ w' more,
          )
          refl)

-- `enumerate` with the memory mock at the other end, whose vendor is not 0xffff and whose header
-- type is 0. Each of its six BARs is missing or has a size from 16 bytes to 256 KB, a power of two,
-- with less than 16 for its flags, and no BAR has an address or a size yet on either side. When
-- each wait may take two rounds more than the delay of the device, the host comes to the end with
-- 0. Then, for each BAR, both sides have the address `0x10_0000 + 0x4_0000 * i`, or 0 where it is
-- missing, and the size of the BAR; its register holds this address and the flags. The BARs of the
-- device are as before.
pub enumerate_maps :
    (link : Link) (d : Attached link) (junk : Mem) (rounds : ℕ) (w : link.World)
    → d.delay + 2 ≤ rounds
    → d.Ready w
    → (view d w).space 0 + (view d w).space 1 * 2 ^ 8 ≢ 0xffff
    → (view d w).space 0xe ≡ 0
    → ((j : ℕ) → j < 6 → IsUsual ((view d w).bars_config j))
    → ((j : ℕ) → j < 6 → IsUnmapped (view d w) j)
    → (w' : link.World) × (enumerate link rounds junk w ≡ some (true, w'))
      × d.Ready w'
      × ((j : ℕ) → j < 6 → IsMapped (view d w') j)
      × ((view d w').bars_config ≡ (view d w).bars_config)
enumerate_maps link d junk rounds w enough ready vendor header usual unmapped =
    let (w', trace, ready', are_mapped, kept) = takes_part d w ready usual unmapped in
    (
      w',
      Enumerates-enumerate link d junk rounds enough w w' trace vendor header,
      ready',
      are_mapped,
      kept,
    )

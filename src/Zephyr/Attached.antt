-- ===== src/Zephyr/Attached.antt =====
-- The memory mock at the other end of the link of zephyr-samples/common/common.c: how it answers the
-- requests of the host, and what one write to a register of a BAR does.
use warp_pipe.Base.{
  ℕ, ◌+◌, ◌%◌, ◌-◌, ◌*◌, ◌/◌, ◌^◌, ◌≤◌, ◌<◌, ◌≡◌, refl, ap, ◌∙◌, arith, bit_and, bit_or, true,
  false, none, ◌==◌, ==_iff, sym, List, Mem, poke, length, update, u32, pos,
}
use native.Mathlib.Nat.{one-le-pow, mul-mod_left, mul_assoc}
use warp_pipe.Base.Bits.{bit_and-mask, two-pow-add, bit_or-shift}
use warp_pipe.Crc.{complement32}
use warp_pipe.Client.State.{Client}
use warp_pipe.Client.Bars.{size_mask, warppipe_register_bar}
use warp_pipe.Client.Bars.Lookup.{window_lem, multiple_iff}
use warp_pipe.Client.Bars.Register.{register_unused}
use warp_pipe.ConfigSpace.{store_word}
use warp_pipe.MemoryMock.{
  BarConfig, Mock, bar_offset, handle_config_bar_write, config0_write_cb, load_word,
}
use warp_pipe.MemoryMock.Probe.{all_ones, register_value}
use warp_pipe.Zephyr.{Link, bytes32}
use warp_pipe.Zephyr.HeaderField.{Arrives}

-- What the two sides know of the BARs. The rest of the clients, such as their buffers, changes with
-- every packet.
pub record View : Type 0 where
  pub bars_config : ℕ → BarConfig
  pub space : Mem
  pub device_bar : ℕ → ℕ
  pub device_size : ℕ → ℕ
  pub host_bar : ℕ → ℕ
  pub host_size : ℕ → ℕ

abbrev pub view_of : Mock → Client → View
view_of mock host = record {
  bars_config = mock.bars_config;
  space = mock.configuration_space;
  device_bar = mock.mock_dev_client.bar;
  device_size = mock.mock_dev_client.bar_size;
  host_bar = host.bar;
  host_size = host.bar_size;
}

-- The mock, as it is when it has handled all that was sent, and the client of the host. It answers
-- each read of a whole word of its configuration space of 64 bytes within `delay` rounds of the host's loop, and
-- each write by its callback.
pub record Attached (link : Link) : Type 1 where
  pub Ready : link.World → Type 0
  pub delay : ℕ
  pub mock : link.World → Mock
  pub host : link.World → Client
  pub reads :
      (addr : ℕ) (w : link.World)
      → Ready w
      → addr % 4 ≡ 0
      → addr + 4 ≤ 64
      → (w₁ : link.World) × (n : ℕ) × (payload : Mem) × (w' : link.World)
        × (link.warppipe_config0_read addr 4 w ≡ (true, w₁))
        × Arrives link n w₁ (record { error_code = pos 0; payload = payload; length = 4 }) w'
        × (n ≤ delay)
        × Ready w'
        × (view_of (mock w') (host w') ≡ view_of (mock w) (host w))
        × ((k : ℕ) → k < 4 → payload k ≡ (mock w).configuration_space (addr + k))
  pub writes :
      (addr : ℕ) (bytes : List ℕ) (w : link.World)
      → Ready w
      → addr % 4 ≡ 0
      → addr + 4 ≤ 64
      → length bytes ≡ 4
      → (w' : link.World) × (link.warppipe_config0_write addr bytes w ≡ (true, w'))
        × Ready w'
        × (view_of (mock w') (host w')
            ≡ view_of (config0_write_cb (mock w) addr (poke (λ _. 0) 0 bytes) 4) (host w))
  pub registers :
      (bar size i : ℕ) (w : link.World)
      → Ready w
      → i < 6
      → (w' : link.World) × (link.warppipe_register_bar bar size i w
          ≡ ((warppipe_register_bar (host w) bar size i none none).1, w'))
        × Ready w'
        × (view_of (mock w') (host w')
            ≡ view_of (mock w) (warppipe_register_bar (host w) bar size i none none).0)

abbrev pub view : {link : Link} → Attached link → link.World → View
view d w = view_of (d.mock w) (d.host w)

-- The address that the host gives to the BAR `i`: the offset of its register, shifted.
abbrev pub bar_address : ℕ → ℕ
bar_address i = 0x10_0000 + 0x4_0000 * i

load_bytes32 : (v : ℕ) → v < 2 ^ 32 → load_word 0 (poke (λ _. 0) 0 (bytes32 v)) ≡ v
unfolding poke
load_bytes32 v h = ground arith

register_reached :
    (mock : Mock) (i v : ℕ)
    → i < 6
    → v < 2 ^ 32
    → config0_write_cb mock (bar_offset + 4 * i) (poke (λ _. 0) 0 (bytes32 v)) 4
      ≡ handle_config_bar_write mock i v
unfolding config0_write_cb
register_reached mock i v h small =
    let at_word : bit_and (bar_offset + 4 * i) 3 ≡ 0 =
      bit_and-mask 2 (bar_offset + 4 * i) ∙ omega arith in
    let index : (bar_offset + 4 * i - bar_offset) / 4 ≡ i = omega arith in
    rw (at_word, index, load_bytes32 v small) (ground arith)

module _ (mock : Mock) (client : Client) (i : ℕ) where
  abbrev seen : View
  seen = view_of mock client

  -- What a write of `v` to the register leaves.
  abbrev pub after : ℕ → View
  after v =
      view_of (config0_write_cb mock (bar_offset + 4 * i) (poke (λ _. 0) 0 (bytes32 v)) 4) client

  pub absent_written :
      i < 6
      → (mock.bars_config i).size ≡ 0
      → (mock.bars_config i).config ≡ 0
      → after 0xffff_ffff
        ≡ record seen { space = store_word (bar_offset + 4 * i) 0 mock.configuration_space }
  unfolding handle_config_bar_write
  absent_written in_range no_size no_config =
      rw (register_reached mock i 0xffff_ffff in_range (omega arith), no_size, no_config) refl

  module _ (in_range : i < 6) (k : ℕ) (low : 4 ≤ k) (high : k < 32)
      (sized : (mock.bars_config i).size ≡ 2 ^ k) (small : (mock.bars_config i).config < 16) where
    abbrev config : ℕ
    config = (mock.bars_config i).config

    sixteen : 2 ^ k ≡ 2 ^ (k - 4) * 2 ^ 4
    sixteen = ap (λ (e : ℕ). 2 ^ e) (omega arith) ∙ two-pow-add (k - 4) 4

    flagged_address : (q : ℕ) → bit_or (q * 2 ^ k) config ≡ q * 2 ^ k + config
    flagged_address q =
        let product : q * 2 ^ k ≡ q * 2 ^ (k - 4) * 2 ^ 4 =
          ap (λ (t : ℕ). q * t) sixteen ∙ sym (mul_assoc q (2 ^ (k - 4)) (2 ^ 4)) in
        rw product (bit_or-shift 4 (q * 2 ^ (k - 4)) config small)

    whole_multiple : (q : ℕ) → q * 2 ^ k / 2 ^ k * 2 ^ k ≡ q * 2 ^ k
    whole_multiple q =
        (multiple_iff (q * 2 ^ k) (q * 2 ^ k) (2 ^ k) (one-le-pow k 2 (omega arith))
            (mul-mod_left q (2 ^ k))).1
          (omega arith, omega (arith, one-le-pow k 2 (omega arith)))

    pub probe_written : after 0xffff_ffff ≡ record seen {
      space = store_word (bar_offset + 4 * i) (2 ^ 32 - 2 ^ k + config) mock.configuration_space;
    }
    unfolding handle_config_bar_write
    probe_written =
        let stored = all_ones k config low high small in
        let flagged = register_value k config low high small in
        rw (register_reached mock i 0xffff_ffff in_range (omega arith), sized, stored, flagged) refl

    multiple_written :
        (q : ℕ)
        → q * 2 ^ k < 0xffff_ffff
        → mock.mock_dev_client.bar i ≡ 0
        → after (q * 2 ^ k) ≡ record seen {
          space = store_word (bar_offset + 4 * i) (q * 2 ^ k + config) mock.configuration_space;
          device_bar = update mock.mock_dev_client.bar i (q * 2 ^ k);
          device_size = update mock.mock_dev_client.bar_size i (2 ^ k);
        }
    unfolding handle_config_bar_write
    multiple_written q h unused =
        let addr : ℕ = q * 2 ^ k in
        let bar = mock.bars_config i in
        let within : u32 addr ≡ addr = omega arith in
        let whole : u32 addr / 2 ^ k * 2 ^ k ≡ addr =
          ap (λ (a : ℕ). a / 2 ^ k * 2 ^ k) within ∙ whole_multiple q in
        let masked : bit_and addr (complement32 (size_mask (2 ^ k))) ≡ addr =
          window_lem k high addr ∙ whole in
        let address : (addr == 0xffff_ffff) ≡ false = ground (arith, h) in
        let free : (mock.mock_dev_client.bar i == 0) ≡ true =
          (==_iff (mock.mock_dev_client.bar i) 0).1 unused in
        let accepted =
          register_unused mock.mock_dev_client addr i k bar.read_cb bar.write_cb high unused in
        rw (register_reached mock i addr in_range (omega arith), sized, masked, flagged_address q)
          (rw (address, free, accepted, within) refl)

    -- An address that is a multiple of the size, for a BAR that is not registered.
    pub address_written :
        (addr q : ℕ)
        → addr ≡ q * 2 ^ k
        → addr < 0xffff_ffff
        → mock.mock_dev_client.bar i ≡ 0
        → after addr ≡ record seen {
          space = store_word (bar_offset + 4 * i) (addr + config) mock.configuration_space;
          device_bar = update mock.mock_dev_client.bar i addr;
          device_size = update mock.mock_dev_client.bar_size i (2 ^ k);
        }
    address_written addr q e h unused = rw e (multiple_written q (omega arith) unused)

-- ===== src/MemoryMock/Probe.antt =====
-- How a host finds the size of a BAR of the device.
use warp_pipe.Base.{
  ℕ, ◌+◌, ◌-◌, ◌*◌, ◌/◌, ◌%◌, ◌^◌, ◌≤◌, ◌<◌, ◌≡◌, refl, arith, bit_and, bit_or, ap, sym, ◌∙◌, Mem,
}
use native.Mathlib.Nat.{one-le-pow, pow-le-pow_right, mul-mod_left}
use warp_pipe.Base.Bits.{two-pow-add, bit_and-mask, bit_and-shift, bit_or-shift}
use warp_pipe.Crc.{complement32}
use warp_pipe.Client.Bars.{size_mask}
use warp_pipe.Client.Bars.Lookup.{window_lem, multiple_iff, less_one}
use warp_pipe.ConfigSpace.{store_word}
use warp_pipe.MemoryMock.{Mock, bar_offset, load_word, handle_config_bar_write, bar_decode_size}

pub load-store_word : (off v : ℕ) (m : Mem) → v < 2 ^ 32 → load_word off (store_word off v m) ≡ v
load-store_word off v m h = ground arith

module _ (k config : ℕ) (low : 4 ≤ k) (high : k < 32) (small : config < 16) where
  whole : 2 ^ k * 2 ^ (32 - k) ≡ 2 ^ 32
  whole =
      let sum : k + (32 - k) ≡ 32 = omega arith in
      sym (two-pow-add k (32 - k)) ∙ ap (λ (e : ℕ). 2 ^ e) sum

  sixteen : 2 ^ k ≡ 16 * 2 ^ (k - 4)
  sixteen = ap (λ (e : ℕ). 2 ^ e) (omega arith) ∙ two-pow-add 4 (k - 4)

  pub bounds : (16 ≤ 2 ^ k) × (2 ^ k ≤ 2 ^ 31)
  bounds = (
    omega (arith, sixteen, one-le-pow (k - 4) 2 (omega arith)),
    pow-le-pow_right (omega arith) {j = 31} (omega arith),
  )

  pub all_ones : bit_and 0xffff_ffff (complement32 (size_mask (2 ^ k))) ≡ 2 ^ 32 - 2 ^ k
  all_ones =
      let product : 2 ^ 32 - 2 ^ k ≡ (2 ^ (32 - k) - 1) * 2 ^ k =
        omega
          (arith, whole, less_one (2 ^ (32 - k)) (2 ^ k) (one-le-pow (32 - k) 2 (omega arith))) in
      let multiple : (2 ^ 32 - 2 ^ k) % 2 ^ k ≡ 0 =
        ap (λ (b : ℕ). b % 2 ^ k) product ∙ mul-mod_left (2 ^ (32 - k) - 1) (2 ^ k) in
      window_lem k high 0xffff_ffff
      ∙ (multiple_iff 0xffff_ffff (2 ^ 32 - 2 ^ k) (2 ^ k) (omega (arith, bounds)) multiple).1
          (omega (arith, bounds), omega (arith, bounds))

  pub register_value : bit_or (2 ^ 32 - 2 ^ k) config ≡ 2 ^ 32 - 2 ^ k + config
  register_value =
      let product : 2 ^ 32 - 2 ^ k ≡ (2 ^ 28 - 2 ^ (k - 4)) * 2 ^ 4 = omega (arith, sixteen) in
      rw product (bit_or-shift 4 (2 ^ 28 - 2 ^ (k - 4)) config small)

  pub decoded : bar_decode_size (2 ^ 32 - 2 ^ k + config) ≡ 2 ^ k
  decoded =
      let s : ℕ = 2 ^ 32 - 2 ^ k + config in
      omega (arith, bounds, sixteen, bit_and-shift 4 s (2 ^ 28 - 1), bit_and-mask 28 (s / 16))

  -- A host that writes all ones to the register of a BAR with `2 ^ k` bytes, for a `k` from 4 to
  -- 31, and decodes what it then reads there, gets the size of the BAR. No BAR is registered.
  pub probe-size :
      (mock : Mock) (i : ℕ)
      → (mock.bars_config i).size ≡ 2 ^ k
      → (mock.bars_config i).config ≡ config
      → let after = handle_config_bar_write mock i 0xffff_ffff in
        (bar_decode_size (load_word (bar_offset + 4 * i) after.configuration_space) ≡ 2 ^ k)
        × (after.mock_dev_client ≡ mock.mock_dev_client)
  unfolding handle_config_bar_write
  probe-size mock i sized configured = (
    rw (sized, configured, all_ones, register_value)
        (ap bar_decode_size (
            load-store_word (bar_offset + 4 * i) (2 ^ 32 - 2 ^ k + config) mock.configuration_space
              (omega (arith, bounds)))
          ∙ decoded),
    refl,
  )

-- ===== src/Zephyr/Settled.antt =====
-- What a round of the enumeration does to the BARs, for the host and for the memory mock.
use warp_pipe.Base.{
  ℕ, ◌+◌, ◌-◌, ◌*◌, ◌/◌, ◌^◌, ◌≤◌, ◌<◌, ◌≡◌, refl, ap, sym, ◌∙◌, arith, update, u32,
}
use native.Mathlib.Nat.{mul_assoc}
use warp_pipe.Base.Bits.{two-pow-add, bit_and-shift, bit_and-mask}
use warp_pipe.ConfigSpace.{store_word}
use warp_pipe.MemoryMock.{BarConfig, bar_offset}
use warp_pipe.MemoryMock.Probe.{bounds}
use warp_pipe.Zephyr.{probed_size}
use warp_pipe.Zephyr.Attached.{View, bar_address}

pub multiple : (i k : ℕ) → k ≤ 18 → bar_address i ≡ (4 + i) * 2 ^ (18 - k) * 2 ^ k
multiple i k high =
    let whole : 18 - k + k ≡ 18 = omega arith in
    let power : 2 ^ 18 ≡ 2 ^ (18 - k) * 2 ^ k =
      sym (ap (λ (e : ℕ). 2 ^ e) whole) ∙ two-pow-add (18 - k) k in
    let shifted : bar_address i ≡ (4 + i) * 2 ^ 18 = omega arith in
    shifted ∙ ap (λ (t : ℕ). (4 + i) * t) power ∙ sym (mul_assoc (4 + i) (2 ^ (18 - k)) (2 ^ k))

-- What the host reads from the register of a BAR of `2 ^ k` bytes after it has written all ones.
abbrev pub register_probed : ℕ → BarConfig → ℕ
register_probed k bar = 2 ^ 32 - 2 ^ k + bar.config

sixteen_times : (k : ℕ) → 4 ≤ k → 2 ^ k ≡ 16 * 2 ^ (k - 4)
sixteen_times k low = ap (λ (e : ℕ). 2 ^ e) (omega arith) ∙ two-pow-add 4 (k - 4)

pub size_found :
    (k config : ℕ) → 4 ≤ k → k < 32 → config < 16 → probed_size (2 ^ 32 - 2 ^ k + config) ≡ 2 ^ k
size_found k config low high small =
    let s : ℕ = 2 ^ 32 - 2 ^ k + config in
    let mask : 2 ^ 32 - 16 ≡ (2 ^ 28 - 1) * 2 ^ 4 = refl in
    omega (
      arith,
      bounds k config low high small,
      sixteen_times k low,
      bit_and-shift 4 s (2 ^ 28 - 1),
      bit_and-mask 28 (s / 16),
    )

abbrev pub absent : ℕ → View → View
absent i v = record v { space = store_word (bar_offset + 4 * i) 0 v.space }

-- The three changes in the round for a BAR of `2 ^ k` bytes.
module _ (i k : ℕ) where
  abbrev pub probed : View → View
  probed v = record v {
    space = store_word (bar_offset + 4 * i) (register_probed k (v.bars_config i)) v.space;
  }

  abbrev pub hosted : View → View
  hosted v = record v {
    host_bar = update v.host_bar i (u32 (bar_address i));
    host_size = update v.host_size i (2 ^ k);
  }

  abbrev pub addressed : View → View
  addressed v = record v {
    space = store_word (bar_offset + 4 * i) (bar_address i + (v.bars_config i).config) v.space;
    device_bar = update v.device_bar i (bar_address i);
    device_size = update v.device_size i (2 ^ k);
  }

  abbrev pub settled : View → View
  settled v = addressed (hosted (probed v))

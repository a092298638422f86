-- ===== src/Zephyr/Enumerate/Large.antt =====
-- The addresses that `enumerate` gives to large BARs, as the memory mock takes them.
use warp_pipe.Base.{
  ℕ, ◌+◌, ◌-◌, ◌*◌, ◌/◌, ◌%◌, ◌^◌, ◌≤◌, ◌<◌, ◌≡◌, ◌↔◌, ap, sym, ◌∙◌, arith, bit_and, true, false,
  u32, ◌==◌, ==_iff, update_at,
}
use native.Mathlib.Nat.{div-add-mod', mul-mod_left}
use warp_pipe.Crc.{complement32}
use warp_pipe.Client.Bars.{size_mask}
use warp_pipe.Client.Bars.Lookup.{window_lem}
use warp_pipe.Client.Bars.Register.{register_unused}
use warp_pipe.MemoryMock.{Mock, handle_config_bar_write}
use warp_pipe.Zephyr.Attached.{bar_address}
use warp_pipe.Zephyr.Settled.{multiple}

rounded_iff : (a p : ℕ) → (a / p * p ≡ a) ↔ (a % p ≡ 0)
rounded_iff a p = ((λ e. omega (arith, div-add-mod' a p)), (λ e. omega (arith, div-add-mod' a p)))

rounded :
    (mock : Mock) (i k : ℕ)
    → i < 6
    → k < 32
    → (mock.bars_config i).size ≡ 2 ^ k
    → mock.mock_dev_client.bar i ≡ 0
    → (handle_config_bar_write mock i (bar_address i)).mock_dev_client.bar i
      ≡ bar_address i / 2 ^ k * 2 ^ k
unfolding handle_config_bar_write
rounded mock i k in_range high sized unused =
    let addr : ℕ = bar_address i in
    let down : ℕ = addr / 2 ^ k * 2 ^ k in
    let bar = mock.bars_config i in
    let within : u32 addr ≡ addr = omega arith in
    let below : u32 down ≡ down = omega (arith, div-add-mod' addr (2 ^ k)) in
    let masked : bit_and addr (complement32 (size_mask (2 ^ k))) ≡ down =
      window_lem k high addr ∙ ap (λ (a : ℕ). a / 2 ^ k * 2 ^ k) within in
    let address : (addr == 0xffff_ffff) ≡ false = ground (arith, in_range) in
    let free : (mock.mock_dev_client.bar i == 0) ≡ true =
      (==_iff (mock.mock_dev_client.bar i) 0).1 unused in
    let accepted =
      register_unused mock.mock_dev_client down i k bar.read_cb bar.write_cb high unused in
    rw (sized, masked, address, free, accepted)
      (update_at mock.mock_dev_client.bar i (u32 down) ∙ below)

-- The address of the BAR `i` that the host writes, when the mock has not registered it yet: the mock
-- registers the BAR of `2 ^ k` bytes at this address rounded down to a multiple of its size. This
-- is the host's address for each size of at most 256 KB, and for a larger one exactly if the host's
-- address is such a multiple.
pub large_bar_rounded :
    (mock : Mock) (i k : ℕ)
    → i < 6
    → k < 32
    → (mock.bars_config i).size ≡ 2 ^ k
    → mock.mock_dev_client.bar i ≡ 0
    → let registered = (handle_config_bar_write mock i (bar_address i)).mock_dev_client.bar i in
      (registered ≡ bar_address i / 2 ^ k * 2 ^ k)
      × (k ≤ 18 → registered ≡ bar_address i)
      × ((registered ≡ bar_address i) ↔ (bar_address i % 2 ^ k ≡ 0))
large_bar_rounded mock i k in_range high sized unused =
    let e = rounded mock i k in_range high sized unused in
    let whole = rounded_iff (bar_address i) (2 ^ k) in
    (
      e,
      (λ small.
          e ∙ whole.1 (rw (multiple i k small) (mul-mod_left ((4 + i) * 2 ^ (18 - k)) (2 ^ k)))),
      ((λ same. whole.0 (sym e ∙ same)), (λ exact. e ∙ whole.1 exact)),
    )

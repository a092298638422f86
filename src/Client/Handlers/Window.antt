-- ===== src/Client/Handlers/Window.antt =====
-- Where a memory request ends up: the window of a BAR and the place of its first byte, for both
-- request handlers.
use warp_pipe.Base.{
  ℕ, suc, ◌+◌, ◌-◌, ◌*◌, ◌/◌, ◌%◌, ◌^◌, ◌≤◌, ◌<◌, bit_and, ◌≡◌, ap, ◌∙◌, arith, Option, some, u64,
}
use native.Mathlib.Nat.{pow-le-pow_right, one-le-pow, mod-mod_of_dvd, dvd-mul_right}
use warp_pipe.Base.Bits.{two-pow-add}
use warp_pipe.Proto.Length.{first_enables}
use warp_pipe.Client.State.{Client, Callback}
use warp_pipe.Client.Bars.Lookup.{window_start}
use warp_pipe.Client.Bars.{get_bar_idx, size_mask}
use warp_pipe.Client.Handlers.{in_window, first_offset}

-- The handlers find the place of the first byte in the enables that `tlp_req_set_addr` writes.
pub first_offset-enables :
    (a l r : ℕ) → a < 4 → 1 ≤ l → (l + a) % 4 ≡ r → first_offset (first_enables a l r) ≡ a
unfolding first_offset
first_offset-enables (suc (suc (suc (suc a)))) l r h p e = absurd (omega arith)
first_offset-enables _ l (suc (suc (suc (suc r)))) h p e = absurd (omega arith)
first_offset-enables _ l _ h p e = ground arith

pub window-found :
    (client : Client) (callbacks : ℕ → Option Callback) (addr i : ℕ)
    → get_bar_idx client addr ≡ some i
    → in_window client callbacks addr ≡ (callbacks i, bit_and addr (size_mask (client.bar_size i)))
window-found client callbacks addr i f = rw (f, in_window)

pub size_mask-pow : (k : ℕ) → k < 32 → size_mask (2 ^ k) ≡ 2 ^ k - 1
size_mask-pow k h =
    let below : 2 ^ k ≤ 2 ^ 31 = pow-le-pow_right (omega arith) {j = 31} (omega arith) in
    omega (arith, one-le-pow k 2 (omega arith), below)

-- The aligned address and the place within its word make the address within the BAR.
within_word : (addr w : ℕ) → 0 < w → addr / 4 * 4 % (4 * w) + addr % 4 ≡ addr % (4 * w)
within_word addr w pos_w =
    let back : addr / 4 * 4 / 4 ≡ addr / 4 = omega arith in
    let none : addr / 4 * 4 % 4 ≡ 0 = omega arith in
    omega (
      arith,
      window_start addr 4 w (omega arith) pos_w,
      window_start (addr / 4 * 4) 4 w (omega arith) pos_w,
      ap (λ (q : ℕ). q % w * 4) back,
      mod-mod_of_dvd 4 addr (dvd-mul_right 4 w),
      mod-mod_of_dvd 4 (addr / 4 * 4) (dvd-mul_right 4 w),
      none,
    )

pub offset_sum :
    (addr k : ℕ) → 2 ≤ k → k < 32 → u64 (addr / 4 * 4 % 2 ^ k + addr % 4) ≡ addr % 2 ^ k
offset_sum addr k lo hi =
    let split : 2 ^ k ≡ 4 * 2 ^ (k - 2) =
      ap (λ (e : ℕ). 2 ^ e) (omega arith) ∙ two-pow-add 2 (k - 2) in
    let sum : addr / 4 * 4 % 2 ^ k + addr % 4 ≡ addr % 2 ^ k =
      rw split (within_word addr (2 ^ (k - 2)) (one-le-pow (k - 2) 2 (omega arith))) in
    let below : 2 ^ k ≤ 2 ^ 31 = pow-le-pow_right (omega arith) {j = 31} (omega arith) in
    omega (arith, sum, below, one-le-pow k 2 (omega arith))

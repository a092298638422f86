-- ===== src/Client/Bars/Register.antt =====
-- What `warppipe_register_bar` accepts, and what the BARs of a client hold.
use warp_pipe.Base.{
  ℕ, suc, ◌-◌, ◌/◌, ◌%◌, ◌^◌, ◌<◌, ◌≤◌, ◌≡◌, ◌↔◌, refl, ap, ◌∙◌, ◌⊎◌, inl, inr, bit_and, arith,
  Bool, true, false, not, ◌||◌, Bool-cases, ==_iff, Option, none, update, u32, ◌==◌, if◌then◌else◌,
}
use warp_pipe.Base.Bits.{bit_and-digit, bit_and_self, halving, bit_and-mask}
use native.Mathlib.Nat.{pow-suc, one-le-pow, mod_self, pow-le-pow_right}
use warp_pipe.Client.State.{Client, Callback, warppipe_client_create}
use warp_pipe.Client.Bars.{size_mask, warppipe_register_bar}

-- The test `(size & (size - 1)) == 0`.
abbrev PowerIfPasses : ℕ → Type 0
PowerIfPasses x = 0 < x → bit_and x (x - 1) ≡ 0 → (k : ℕ) × (x ≡ 2 ^ k)

parity : (x : ℕ) → (x % 2 ≡ 0) ⊎ (x % 2 ≡ 1)
parity x = ground arith

power_even : (n : ℕ) → 0 < n → n % 2 ≡ 0 → PowerIfPasses (n / 2) → PowerIfPasses n
power_even n pos_n even ih p e =
    let before : (n - 1) / 2 ≡ n / 2 - 1 = omega arith in
    let half =
      ih (omega arith) (omega (arith, bit_and-digit n (n - 1), ap (bit_and (n / 2)) before)) in
    (suc (half.0), omega (arith, half.1, pow-suc 2 (half.0)))

power_odd : (n : ℕ) → n % 2 ≡ 1 → PowerIfPasses n
power_odd n odd p e =
    let before : (n - 1) / 2 ≡ n / 2 = omega arith in
    (0, omega (arith, bit_and-digit n (n - 1), ap (bit_and (n / 2)) before, bit_and_self (n / 2)))

power_of_two : (x : ℕ) → PowerIfPasses x
power_of_two =
    halving PowerIfPasses (λ p e. absurd (omega arith))
      λ n p ih. elim (parity n) [ inl even ↦ power_even n p even ih | inr odd ↦ power_odd n odd ]

two-pow_passes : (k : ℕ) → bit_and (2 ^ k) (2 ^ k - 1) ≡ 0
two-pow_passes k = bit_and-mask k (2 ^ k) ∙ mod_self (2 ^ k)

size_mask_pos : (size : ℕ) → 0 < size → size < 2 ^ 32 → size_mask size ≡ size - 1
size_mask_pos size p h = omega arith

abbrev valid_size : ℕ → Bool
valid_size size = not (size == 0 || not (bit_and size (size_mask size) == 0))

valid_size_iff : (size : ℕ) → size < 2 ^ 32 → (valid_size size ≡ true) ↔ ((k : ℕ) × (size ≡ 2 ^ k))
valid_size_iff size h = (
  (λ e. power_of_two size (ground arith) (ground (arith, size_mask_pos size))),
  (λ p. ground (arith, size_mask_pos size, two-pow_passes p.0, one-le-pow (p.0) 2)),
)

-- The registration, where it is accepted.
abbrev pub registered : Client → ℕ → ℕ → ℕ → Option Callback → Option Callback → Client
registered client bar size i read_cb write_cb = record client {
  bar = update client.bar i (u32 bar);
  bar_size = update client.bar_size i size;
  bar_read_cb = update client.bar_read_cb i read_cb;
  bar_write_cb = update client.bar_write_cb i write_cb;
}

module _ (client : Client) (bar size i : ℕ) (read_cb write_cb : Option Callback) where
  abbrev register : Client × Bool
  register = warppipe_register_bar client bar size i read_cb write_cb

  register_in_use : (client.bar i == 0) ≡ false → register ≡ (client, false)
  register_in_use e = unfold warppipe_register_bar in rw e

  register_bad_size :
      (client.bar i == 0) ≡ true → valid_size size ≡ false → register ≡ (client, false)
  register_bad_size e v =
      let bad : (size == 0 || not (bit_and size (size_mask size) == 0)) ≡ true = ground arith in
      unfold warppipe_register_bar in rw (e, bad)

  register_accepted :
      (client.bar i == 0) ≡ true
      → valid_size size ≡ true
      → register ≡ (registered client bar size i read_cb write_cb, true)
  register_accepted e v =
      let good : (size == 0 || not (bit_and size (size_mask size) == 0)) ≡ false = ground arith in
      unfold warppipe_register_bar in rw (e, good)

-- A BAR is unused, or its size is a power of two.
abbrev pub IsSized : Client → ℕ → Type 0
IsSized client i =
    ((client.bar_size i ≡ 0)
      × (client.bar i ≡ 0)
      × (client.bar_read_cb i ≡ none)
      × (client.bar_write_cb i ≡ none))
    ⊎ ((k : ℕ) × (client.bar_size i ≡ 2 ^ k))

-- For a 32-bit size, a BAR is registered exactly when its index has no address yet and the size is
-- a power of two: then its address, its size and its two callbacks are stored, and otherwise
-- nothing changes.
pub register_bar_lem :
    (client : Client) (bar size i : ℕ) (read_cb write_cb : Option Callback)
    → size < 2 ^ 32
    → let r = warppipe_register_bar client bar size i read_cb write_cb in
      ((r.1 ≡ true) ↔ ((client.bar i ≡ 0) × ((k : ℕ) × (size ≡ 2 ^ k))))
      × (r.0 ≡ (if r.1 then registered client bar size i read_cb write_cb else client))
register_bar_lem client bar size i read_cb write_cb h = elim (Bool-cases (client.bar i == 0)) [
  | inr e ↦
      rw (register_in_use client bar size i read_cb write_cb e)
        (((λ q. cc), (λ p. cc (e, (==_iff (client.bar i) 0).1 p.0))), refl)
  | inl e ↦ elim (Bool-cases (valid_size size)) [
    | inl v ↦
        rw (register_accepted client bar size i read_cb write_cb e v)
          (((λ q. ((==_iff (client.bar i) 0).0 e, (valid_size_iff size h).0 v)), (λ p. refl)), refl)
    | inr v ↦
        rw (register_bad_size client bar size i read_cb write_cb e v)
          (((λ q. cc), (λ p. cc (v, (valid_size_iff size h).1 p.1))), refl)
  ]
]

-- A power of two is accepted for an index that has no address yet.
pub register_unused :
    (client : Client) (bar i k : ℕ) (read_cb write_cb : Option Callback)
    → k < 32
    → client.bar i ≡ 0
    → warppipe_register_bar client bar (2 ^ k) i read_cb write_cb
      ≡ (registered client bar (2 ^ k) i read_cb write_cb, true)
register_unused client bar i k read_cb write_cb small unused =
    let below : 2 ^ k ≤ 2 ^ 31 = pow-le-pow_right (omega arith) {j = 31} (omega arith) in
    register_accepted client bar (2 ^ k) i read_cb write_cb ((==_iff (client.bar i) 0).1 unused)
      ((valid_size_iff (2 ^ k) (omega arith)).1 (k, refl))

registered-IsSized :
    (client : Client) (bar size i : ℕ) (read_cb write_cb : Option Callback) (k : ℕ)
    → size ≡ 2 ^ k
    → ((j : ℕ) → IsSized client j)
    → (j : ℕ) → IsSized (registered client bar size i read_cb write_cb) j
registered-IsSized client bar size i read_cb write_cb k e sized j = elim (Bool-cases (j == i)) [
  | inl here ↦ rw here (inr (k, e))
  | inr other ↦ rw other (sized j)
]

-- If every BAR is unused or has a power of two for its size, it is so after a registration with a
-- 32-bit size, too, whether this is accepted or not.
pub register_bar-IsSized :
    (client : Client) (bar size i : ℕ) (read_cb write_cb : Option Callback)
    → size < 2 ^ 32
    → ((j : ℕ) → IsSized client j)
    → (j : ℕ) → IsSized ((warppipe_register_bar client bar size i read_cb write_cb).0) j
register_bar-IsSized client bar size i read_cb write_cb h sized j =
    let r = warppipe_register_bar client bar size i read_cb write_cb in
    let spec = register_bar_lem client bar size i read_cb write_cb h in
    elim (Bool-cases (r.1)) [
      | inl done ↦
          let p = (spec.0.0 done).1 in
          rw (spec.1, done)
            (registered-IsSized client bar size i read_cb write_cb (p.0) (p.1) sized j)
      | inr refused ↦ rw (spec.1, refused) (sized j)
    ]

pub create-IsSized :
    (client : Client) (fd j : ℕ) → j < 6 → IsSized (warppipe_client_create client fd) j
unfolding warppipe_client_create
create-IsSized client fd j h = ground arith

-- ===== src/Base/Bits.antt =====
-- `&`, `|` and `^` at variables, as arithmetic on the binary digits.
use Prim.Native.Nat.{
  ℕ, zero, suc, ◌+◌, ◌-◌, ◌*◌, ◌/◌, ◌%◌, ◌^◌, ◌≤◌, ◌<◌, min, max, bit_and, bit_or, bit_xor, digits,
  bitwise, differ, bit_and-bitwise, bit_or-bitwise, bit_xor-bitwise,
}
use mathlib.Core.Path.{◌≡◌, refl, sym, ap, ◌∙◌}
use mathlib.Core.WellFounded.{induction}
use mathlib.Core.WellFounded.{Acc, WellFounded}
use native.Mathlib.Nat.{
  add-zero, add-suc, mul-one, div-one, mul_comm, pow-suc, one-le-pow, div-add-mod', mod-lt,
  mod-eq_of_lt, mul-add-mod_self_right, div-div-eq-div-mul,
}
use native.Mathlib.Numerals.{towards_suc}
use native.Mathlib.Omega.{arith}

lt_Acc : (bound n : ℕ) → n < bound → Acc ◌<◌ n
lt_Acc zero n h = absurd (omega arith)
lt_Acc (suc bound) n h = Acc.intro n λ m below. lt_Acc bound m (omega arith)

lt_wf : WellFounded ◌<◌
lt_wf = record { apply = λ n. lt_Acc (n + 1) n (omega arith) }

-- Induction along `n / 2`.
pub halving {ℓ} : (P : ℕ → Type ℓ) → P 0 → ((n : ℕ) → 0 < n → P (n / 2) → P n) → (n : ℕ) → P n
halving P base step n = induction lt_wf {C = P} n go
  where
    go : (k : ℕ) → ((m : ℕ) → m < k → P m) → P k
    go zero ih = base
    go (suc k) ih = step (suc k) (omega arith) (ih (suc k / 2) (omega arith))

module _ (z : ℕ → ℕ) (f : ℕ → ℕ → ℕ) where
  digits-zero : (n b : ℕ) → digits z f n 0 b ≡ z b
  digits-zero zero b = refl
  digits-zero (suc n) b = refl

  digits_agree : (a b n m : ℕ) → a ≤ n → a ≤ m → digits z f n a b ≡ digits z f m a b
  digits_agree zero b n m p q = digits-zero n b ∙ sym (digits-zero m b)
  digits_agree (suc a) b zero m p q = absurd (omega arith)
  digits_agree (suc a) b (suc n) zero p q = absurd (omega arith)
  digits_agree (suc a) b (suc n) (suc m) p q =
      ap (λ (t : ℕ). t * 2 + f (suc a % 2) (b % 2))
        (digits_agree (suc a / 2) (b / 2) n m (omega arith) (omega arith))

  bitwise_halves :
      (a b : ℕ)
      → bitwise z f (suc a) b ≡ bitwise z f (suc a / 2) (b / 2) * 2 + f (suc a % 2) (b % 2)
  bitwise_halves a b =
      omega (arith, digits_agree (suc a / 2) (b / 2) a (suc a / 2) (omega arith) (omega arith))

-- One equation for the lowest digit of each operation.
pub bit_and-digit : (a b : ℕ) → bit_and a b ≡ bit_and (a / 2) (b / 2) * 2 + min (a % 2) (b % 2)
bit_and-digit zero b = rw (bit_and-bitwise 0 b, bit_and-bitwise (0 / 2) (b / 2)) (omega arith)
bit_and-digit (suc a) b =
    rw (bit_and-bitwise (suc a) b, bit_and-bitwise (suc a / 2) (b / 2))
      (bitwise_halves (λ y. 0) min a b)

bit_or-digit : (a b : ℕ) → bit_or a b ≡ bit_or (a / 2) (b / 2) * 2 + max (a % 2) (b % 2)
bit_or-digit zero b = rw (bit_or-bitwise 0 b, bit_or-bitwise (0 / 2) (b / 2)) (omega arith)
bit_or-digit (suc a) b =
    rw (bit_or-bitwise (suc a) b, bit_or-bitwise (suc a / 2) (b / 2))
      (bitwise_halves (λ y. y) max a b)

differ_digits : (x y : ℕ) → x < 2 → y < 2 → differ x y ≡ (x + y) % 2
differ_digits zero y h k = omega arith
differ_digits (suc zero) zero h k = refl
differ_digits (suc zero) (suc zero) h k = refl
differ_digits (suc zero) (suc (suc y)) h k = absurd (omega arith)
differ_digits (suc (suc x)) y h k = absurd (omega arith)

bit_xor-digit : (a b : ℕ) → bit_xor a b ≡ bit_xor (a / 2) (b / 2) * 2 + (a + b) % 2
bit_xor-digit zero b = rw (bit_xor-bitwise 0 b, bit_xor-bitwise (0 / 2) (b / 2)) (omega arith)
bit_xor-digit (suc a) b =
    rw (bit_xor-bitwise (suc a) b, bit_xor-bitwise (suc a / 2) (b / 2))
      (omega (
        arith,
        bitwise_halves (λ y. y) differ a b,
        differ_digits (suc a % 2) (b % 2) (omega arith) (omega arith),
      ))

pub bit_and-zero : (a : ℕ) → bit_and a 0 ≡ 0
bit_and-zero = halving (λ a. bit_and a 0 ≡ 0) refl λ a h ih. omega (arith, bit_and-digit a 0, ih)

pub bit_and_self : (a : ℕ) → bit_and a a ≡ a
bit_and_self = halving (λ a. bit_and a a ≡ a) refl λ a h ih. omega (arith, bit_and-digit a a, ih)

bit_or-zero : (a : ℕ) → bit_or a 0 ≡ a
bit_or-zero = halving (λ a. bit_or a 0 ≡ a) refl λ a h ih. omega (arith, bit_or-digit a 0, ih)

mod_double : (a t : ℕ) → 0 < t → a % (2 * t) ≡ (a / 2 % t) * 2 + a % 2
mod_double a t h =
    let r : ℕ = a / 2 % t * 2 + a % 2 in
    let split : a ≡ a / 2 / t * (2 * t) + r = omega (arith, div-add-mod' (a / 2) t) in
    let small : r < 2 * t = omega (arith, mod-lt (a / 2) h) in
    ap (λ (x : ℕ). x % (2 * t)) split
    ∙ mul-add-mod_self_right (a / 2 / t) (2 * t) r
    ∙ mod-eq_of_lt small

-- A mask of the `k` low bits is the remainder by `2 ^ k`.
pub bit_and-mask : (k a : ℕ) → bit_and a (2 ^ k - 1) ≡ a % 2 ^ k
bit_and-mask zero a = omega (arith, bit_and-zero a)
bit_and-mask (suc k) a = ground (
  arith,
  pow-suc 2 k,
  one-le-pow k 2,
  bit_and-digit a (2 ^ suc k - 1),
  bit_and-mask k (a / 2),
  mod_double a (2 ^ k),
)

halved : (t : ℕ) → 2 * t / 2 ≡ t
halved t = omega arith

-- A mask with `k` zeros at its end clears the `k` low bits.
pub bit_and-shift : (k a m : ℕ) → bit_and a (m * 2 ^ k) ≡ bit_and (a / 2 ^ k) m * 2 ^ k
bit_and-shift zero a m = rw (mul-one m, div-one a) (sym (mul-one (bit_and a m)))
bit_and-shift (suc k) a m =
    let doubled : m * 2 ^ suc k ≡ 2 * (m * 2 ^ k) =
      omega (arith, ap (λ (t : ℕ). m * t) (pow-suc 2 k)) in
    let halves : a / 2 ^ suc k ≡ a / 2 / 2 ^ k =
      rw (pow-suc 2 k, mul_comm (2 ^ k) 2) (sym (div-div-eq-div-mul a 2 (2 ^ k))) in
    rw (doubled, halves)
      (omega (
        arith,
        bit_and-digit a (2 * (m * 2 ^ k)),
        ap (bit_and (a / 2)) (halved (m * 2 ^ k)),
        bit_and-shift k (a / 2) m,
        ap (λ (t : ℕ). bit_and (a / 2 / 2 ^ k) m * t) (pow-suc 2 k),
      ))

-- `q << k | r` is a sum where `r` has no more than `k` bits.
pub bit_or-shift : (k q r : ℕ) → r < 2 ^ k → bit_or (q * 2 ^ k) r ≡ q * 2 ^ k + r
bit_or-shift zero q r h = ground (arith, bit_or-zero q)
bit_or-shift (suc k) q r h = ground (
  arith,
  pow-suc 2 k,
  ap (λ (t : ℕ). q * t) (pow-suc 2 k),
  bit_or-digit (q * 2 ^ suc k) r,
  bit_or-shift k q (r / 2),
)

pub zero-bit_xor : (b : ℕ) → bit_xor 0 b ≡ b
zero-bit_xor b = bit_xor-bitwise 0 b

pub bit_xor_self : (a : ℕ) → bit_xor a a ≡ 0
bit_xor_self = halving (λ a. bit_xor a a ≡ 0) refl λ a h ih. omega (arith, bit_xor-digit a a, ih)

pub bit_xor-zero : (a : ℕ) → bit_xor a 0 ≡ a
bit_xor-zero = halving (λ a. bit_xor a 0 ≡ a) refl λ a h ih. omega (arith, bit_xor-digit a 0, ih)

pub bit_xor_comm : (a b : ℕ) → bit_xor a b ≡ bit_xor b a
bit_xor_comm =
    halving (λ a. (b : ℕ) → bit_xor a b ≡ bit_xor b a) (λ b. zero-bit_xor b ∙ sym (bit_xor-zero b))
      λ a h ih b. omega (arith, bit_xor-digit a b, bit_xor-digit b a, ih (b / 2))

-- The same value taken twice cancels.
pub bit_xor_cancel : (a b : ℕ) → bit_xor (bit_xor a b) b ≡ a
bit_xor_cancel =
    halving (λ a. (b : ℕ) → bit_xor (bit_xor a b) b ≡ a) (λ b. rw (zero-bit_xor b) (bit_xor_self b))
      λ a h ih b.
        let digit = bit_xor-digit a b in
        let half : bit_xor a b / 2 ≡ bit_xor (a / 2) (b / 2) = omega (arith, digit) in
        omega (
          arith,
          digit,
          bit_xor-digit (bit_xor a b) b,
          ap (λ (t : ℕ). bit_xor t (b / 2)) half,
          ih (b / 2),
        )

pub bit_xor-lt : (k a b : ℕ) → a < 2 ^ k → b < 2 ^ k → bit_xor a b < 2 ^ k
bit_xor-lt zero a b h l = let e : a ≡ 0 = omega arith in rw e (omega (arith, zero-bit_xor b))
bit_xor-lt (suc k) a b h l = omega (
  arith,
  pow-suc 2 k,
  bit_xor-digit a b,
  bit_xor-lt k (a / 2) (b / 2) (omega (arith, pow-suc 2 k)) (omega (arith, pow-suc 2 k)),
)

-- A bit above all of `a` stays set.
pub bit_xor_top : (k a p : ℕ) → a < 2 ^ k → 2 ^ k ≤ p → p < 2 ^ suc k → 2 ^ k ≤ bit_xor a p
bit_xor_top zero a p h l u = let e : a ≡ 0 = omega arith in rw e (omega (arith, zero-bit_xor p))
bit_xor_top (suc k) a p h l u = omega (
  arith,
  pow-suc 2 k,
  pow-suc 2 (suc k),
  bit_xor-digit a p,
  bit_xor_top k (a / 2) (p / 2) (omega (arith, pow-suc 2 k)) (omega (arith, pow-suc 2 k))
      (omega (arith, pow-suc 2 (suc k))),
)

pub two-pow-add-eight : (k : ℕ) → 2 ^ (k + 8) ≡ 256 * 2 ^ k
two-pow-add-eight k = simp towards_suc (omega arith)

pub two-pow-add : (a b : ℕ) → 2 ^ (a + b) ≡ 2 ^ a * 2 ^ b
two-pow-add a zero = rw (add-zero a) (omega arith)
two-pow-add a (suc b) =
    rw (add-suc a b)
      (omega (arith, pow-suc 2 (a + b), two-pow-add a b, ap (λ (t : ℕ). 2 ^ a * t) (pow-suc 2 b)))

-- ===== src/MemoryMock/Setup/Sizes.antt =====
-- Which sizes of BARs the mock accepts.
use mathlib.Core.Path.{subst}
use warp_pipe.Base.{
  ℕ, zero, suc, ◌+◌, ◌-◌, ◌*◌, ◌/◌, ◌%◌, ◌^◌, ◌<◌, ◌≤◌, bit_and, ◌≡◌, ◌↔◌, ◌⊎◌, inl, inr, refl, ap,
  sym, ◌∙◌, arith, true, false, Bool, Bool-cases, not, ==_iff, passes, u32, ◌==◌,
}
use native.Mathlib.Nat.{pow-suc, one-le-pow}
use warp_pipe.Base.Bits.{halving, bit_and-digit, bit_and_self}
use warp_pipe.MemoryMock.{BarConfig}
use warp_pipe.MemoryMock.Setup.{bar_check_size, verify_bars, verify_args}

abbrev pub IsPower : ℕ → Type 0
IsPower s = (k : ℕ) × (s ≡ 2 ^ k)

parity : (s : ℕ) → (s % 2 ≡ 0) ⊎ (s % 2 ≡ 1)
parity s = omega arith

even_step :
    (s : ℕ)
    → 0 < s
    → s % 2 ≡ 0
    → bit_and (s - 1) s ≡ 0
    → (0 < s / 2 → bit_and (s / 2 - 1) (s / 2) ≡ 0 → IsPower (s / 2))
    → IsPower s
even_step s lt even e ih =
    let below : (s - 1) / 2 ≡ s / 2 - 1 = omega arith in
    let halves : bit_and (s / 2 - 1) (s / 2) ≡ 0 =
      omega (arith, e, bit_and-digit (s - 1) s, ap (λ (x : ℕ). bit_and x (s / 2)) below) in
    let (k, half) = ih (omega arith) halves in (suc k, omega (arith, half, pow-suc 2 k))

-- A number that shares no bit with the one below it is a power of two.
IsPower-of_apart : (s : ℕ) → 0 < s → bit_and (s - 1) s ≡ 0 → IsPower s
IsPower-of_apart =
    halving (λ s. 0 < s → bit_and (s - 1) s ≡ 0 → IsPower s) (λ lt e. absurd (omega arith))
      (λ s h ih lt e. elim (parity s) [
        | inl even ↦ even_step s lt even e ih
        | inr odd ↦
            let below : (s - 1) / 2 ≡ s / 2 = omega arith in
            let none : s / 2 ≡ 0 = omega (
              arith,
              e,
              bit_and-digit (s - 1) s,
              ap (λ (x : ℕ). bit_and x (s / 2)) below,
              bit_and_self (s / 2),
            ) in
            (0, omega (arith, none, odd))
      ])

apart_of_power : (k : ℕ) → bit_and (2 ^ k - 1) (2 ^ k) ≡ 0
apart_of_power zero = refl
apart_of_power (suc k) =
    let double : 2 ^ suc k ≡ 2 ^ k * 2 = pow-suc 2 k in
    let one : 1 ≤ 2 ^ k = one-le-pow k 2 (omega arith) in
    let below : (2 ^ suc k - 1) / 2 ≡ 2 ^ k - 1 = omega (arith, double, one) in
    let half : 2 ^ suc k / 2 ≡ 2 ^ k = omega (arith, double) in
    let inner : bit_and ((2 ^ suc k - 1) / 2) (2 ^ suc k / 2) ≡ 0 =
      rw (below, half) (apart_of_power k) in
    omega (arith, bit_and-digit (2 ^ suc k - 1) (2 ^ suc k), inner, double)

pub bar_check_size_iff : (s : ℕ) → s < 2 ^ 32 → (bar_check_size s ≡ true) ↔ ((s ≡ 0) ⊎ IsPower s)
bar_check_size_iff zero lt = (λ e. inl refl, λ e. refl)
bar_check_size_iff (suc n) lt =
    let below : u32 (suc n + (2 ^ 32 - 1)) ≡ suc n - 1 = omega arith in
    (
      λ e. inr (
          IsPower-of_apart (suc n) (omega arith)
            (sym (ap (λ (x : ℕ). bit_and x (suc n)) below) ∙ (==_iff _ 0).0 e)),
      λ p. elim p [
        | inl none ↦ absurd (omega arith)
        | inr (k, e) ↦
            (==_iff _ 0).1 (ap (λ (x : ℕ). bit_and x (suc n)) below ∙ rw e (apart_of_power k))
      ],
    )

from_negation : (b : Bool) → not b ≡ false → b ≡ true
from_negation true e = refl
from_negation false e = sym e

verify_bars_iff :
    (bars_config : ℕ → BarConfig) (i left : ℕ)
    → ((j : ℕ) → (bars_config j).size < 2 ^ 32)
    → (verify_bars bars_config i left ≡ true)
      ↔ ((j : ℕ) → i ≤ j → j < i + left → ((bars_config j).size ≡ 0) ⊎ IsPower (bars_config j).size)
unfolding verify_bars
verify_bars_iff bars_config i zero words = (λ e j lo hi. absurd (omega arith), λ h. refl)
verify_bars_iff bars_config i (suc left) words =
    let rest = verify_bars_iff bars_config (i + 1) left words in
    let this = bar_check_size_iff (bars_config i).size (words i) in
    (
      λ e j lo hi.
          let (good, more) = passes (not (bar_check_size (bars_config i).size)) _ e in
          elim (Bool-cases (j == i)) [
            | inl same ↦
                subst (λ (x : ℕ). ((bars_config x).size ≡ 0) ⊎ IsPower (bars_config x).size)
                  (sym ((==_iff j i).0 same))
                  (this.0 (from_negation (bar_check_size (bars_config i).size) good))
            | inr other ↦ rest.0 more j (ground (arith, other)) (omega (arith, hi))
          ],
      λ h.
          rw (this.1 (h i (omega arith) (omega arith)))
            (rest.1 (λ j lo hi. h j (omega arith) (omega arith))),
    )

-- The check of the BARs at the start of the mock. Where the sizes are 32-bit numbers, it passes just
-- if the size of each of the six BARs is 0 or a power of two.
pub verify_args_iff :
    (bars_config : ℕ → BarConfig)
    → ((j : ℕ) → (bars_config j).size < 2 ^ 32)
    → (verify_args bars_config ≡ true)
      ↔ ((j : ℕ) → j < 6 → ((bars_config j).size ≡ 0) ⊎ IsPower (bars_config j).size)
unfolding verify_args
verify_args_iff bars_config words =
    let loop = verify_bars_iff bars_config 0 6 words in
    (λ e j lt. loop.0 e j (omega arith) (omega arith), λ h. loop.1 (λ j lo hi. h j (omega arith)))

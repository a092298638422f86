-- ===== src/Crc/Word.antt =====
-- The register of the CRC loop, for a polynomial of `k + 1` bits whose top bit is set: it stays
-- within its width, and no step of the loop takes two values to one.
use warp_pipe.Base.{
  AreBytes, ℕ, zero, suc, ◌/◌, ◌%◌, ◌^◌, ◌≤◌, ◌<◌, bit_xor, true, false, ◌≡◌, sym, ap, ◌∙◌, arith,
  ◌⊎◌, inl, inr, ◌==◌, List, [], ◌∷◌, ◌++◌, if◌then◌else◌,
}
use warp_pipe.Base.Bits.{bit_and-mask, bit_xor-lt, bit_xor_top, bit_xor_cancel, bit_xor_comm}
use native.Mathlib.Nat.{pow-suc}
use warp_pipe.Proto.Header.{has}
use warp_pipe.Crc.{crc_round, crc_rounds, crc32p}

has_one : (x : ℕ) → has x 1 ≡ (if x % 2 == 0 then false else true)
has_one x = ground (arith, bit_and-mask 1 x)

pub bit_xor_injective : (a b c : ℕ) → bit_xor a c ≡ bit_xor b c → a ≡ b
bit_xor_injective a b c h = sym (bit_xor_cancel a c) ∙ ap (λ x. bit_xor x c) h ∙ bit_xor_cancel b c

parity : (c : ℕ) → (c % 2 ≡ 0) ⊎ (c % 2 ≡ 1)
parity c = ground arith

module _ (k poly : ℕ) (top : 2 ^ k ≤ poly) (fits : poly < 2 ^ suc k) where
  crc_round_odd : (c : ℕ) → c % 2 ≡ 1 → crc_round poly c ≡ bit_xor (c / 2) poly
  unfolding crc_round
  crc_round_odd c h = rw (has_one c) (ground arith)

  crc_round_even : (c : ℕ) → c % 2 ≡ 0 → crc_round poly c ≡ c / 2
  unfolding crc_round
  crc_round_even c h = rw (has_one c) (ground arith)

  half-lt : (c : ℕ) → c < 2 ^ suc k → c / 2 < 2 ^ k
  half-lt c h = omega (arith, pow-suc 2 k)

  odd-top : (c : ℕ) → c < 2 ^ suc k → 2 ^ k ≤ bit_xor (c / 2) poly
  odd-top c h = bit_xor_top k (c / 2) poly (half-lt c h) top fits

  crc_round-lt : (c : ℕ) → c < 2 ^ suc k → crc_round poly c < 2 ^ suc k
  crc_round-lt c h = elim (parity c) [
    | inl e ↦ rw (crc_round_even c e) (omega arith)
    | inr e ↦ rw (crc_round_odd c e) (bit_xor-lt (suc k) (c / 2) poly (omega arith) fits)
  ]

  -- An odd register leaves the top bit set and an even one clear, so the round can be undone.
  crc_round_injective :
      (a b : ℕ) → a < 2 ^ suc k → b < 2 ^ suc k → crc_round poly a ≡ crc_round poly b → a ≡ b
  crc_round_injective a b ha hb e = elim (parity a) [
    | inl p ↦ elim (parity b) [
      | inl q ↦ omega (arith, crc_round_even a p, crc_round_even b q)
      | inr q ↦
          absurd (omega (arith, crc_round_even a p, crc_round_odd b q, half-lt a ha, odd-top b hb))
    ]
    | inr p ↦ elim (parity b) [
      | inl q ↦
          absurd (omega (arith, crc_round_odd a p, crc_round_even b q, half-lt b hb, odd-top a ha))
      | inr q ↦
          let halves : a / 2 ≡ b / 2 =
            bit_xor_injective (a / 2) (b / 2) poly
              (sym (crc_round_odd a p) ∙ e ∙ crc_round_odd b q) in
          omega arith
    ]
  ]

  crc_rounds-lt : (n c : ℕ) → c < 2 ^ suc k → crc_rounds n poly c < 2 ^ suc k
  unfolding crc_rounds
  crc_rounds-lt zero c h = h
  crc_rounds-lt (suc n) c h = crc_rounds-lt n (crc_round poly c) (crc_round-lt c h)

  crc_rounds_injective :
      (n a b : ℕ)
      → a < 2 ^ suc k
      → b < 2 ^ suc k
      → crc_rounds n poly a ≡ crc_rounds n poly b
      → a ≡ b
  unfolding crc_rounds
  crc_rounds_injective zero a b ha hb e = e
  crc_rounds_injective (suc n) a b ha hb e =
      crc_round_injective a b ha hb
        (crc_rounds_injective n _ _ (crc_round-lt a ha) (crc_round-lt b hb) e)

  module _ (wide : 2 ^ 8 ≤ 2 ^ suc k) where
    absorbed-lt : (c b : ℕ) → c < 2 ^ suc k → b < 256 → bit_xor c b < 2 ^ suc k
    absorbed-lt c b h l = bit_xor-lt (suc k) c b h (omega arith)

    pub crc32p-lt :
        (bs : List ℕ) (c : ℕ) → AreBytes bs → c < 2 ^ suc k → crc32p bs c poly < 2 ^ suc k
    unfolding crc32p
    crc32p-lt [] c hb h = h
    crc32p-lt (b ∷ bs) c hb h =
        crc32p-lt bs _ hb.1 (crc_rounds-lt 8 (bit_xor c b) (absorbed-lt c b h hb.0))

    -- Over the same bytes two different registers stay different.
    pub crc32p_injective :
        (bs : List ℕ) (c d : ℕ)
        → AreBytes bs
        → c < 2 ^ suc k
        → d < 2 ^ suc k
        → crc32p bs c poly ≡ crc32p bs d poly
        → c ≡ d
    unfolding crc32p
    crc32p_injective [] c d hb hc hd e = e
    crc32p_injective (b ∷ bs) c d hb hc hd e =
        let hc' = absorbed-lt c b hc hb.0 in
        let hd' = absorbed-lt d b hd hb.0 in
        bit_xor_injective c d b (
          crc_rounds_injective 8 _ _ hc' hd'
            (crc32p_injective bs _ _ hb.1 (crc_rounds-lt 8 _ hc') (crc_rounds-lt 8 _ hd') e))

    -- Two messages that differ in exactly one byte have different remainders.
    pub crc32p_one_byte :
        (xs ys : List ℕ) (x y c : ℕ)
        → AreBytes xs
        → AreBytes ys
        → x < 256
        → y < 256
        → c < 2 ^ suc k
        → crc32p (xs ++ x ∷ ys) c poly ≡ crc32p (xs ++ y ∷ ys) c poly
        → x ≡ y
    unfolding crc32p
    crc32p_one_byte [] ys x y c hxs hys hx hy hc e =
        let hcx = absorbed-lt c x hc hx in
        let hcy = absorbed-lt c y hc hy in
        bit_xor_injective x y c (
          bit_xor_comm x c
          ∙ crc_rounds_injective 8 _ _ hcx hcy
              (crc32p_injective ys _ _ hys (crc_rounds-lt 8 _ hcx) (crc_rounds-lt 8 _ hcy) e)
          ∙ bit_xor_comm c y)
    crc32p_one_byte (b ∷ xs) ys x y c hxs hys hx hy hc e =
        crc32p_one_byte xs ys x y _ hxs.1 hys hx hy (crc_rounds-lt 8 _ (absorbed-lt c b hc hxs.0)) e

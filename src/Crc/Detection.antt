-- ===== src/Crc/Detection.antt =====
-- The loops that store and compare the bytes of a CRC, and what a comparison detects.
use warp_pipe.Base.{
  ℕ, zero, suc, ◌+◌, ◌-◌, ◌*◌, ◌/◌, ◌%◌, ◌^◌, ◌≤◌, ◌<◌, bit_and, Bool, true, false, ◌≡◌, ◌≢◌, refl,
  sym, ap, ◌∙◌, ◌⊎◌, arith, inl, inr, Bool-cases, ◌>>>◌, ==_refl, Mem, update, AreBytes-slice,
  slice-update_split, slice, slice_ext, slice_split,
}
use mathlib.Core.Path.{subst}
use native.Mathlib.Decide.{dec_lt}
use warp_pipe.Base.Bits.{bit_and-mask, two-pow-add-eight}
use warp_pipe.Crc.{crc32p, store_crc, matches_crc}
use warp_pipe.Crc.Word.{crc32p-lt, crc32p_one_byte}

pub store_crc_outside :
    (crc p n : ℕ) (m : Mem) (k : ℕ) → (k < p) ⊎ (p + n ≤ k) → store_crc crc p n m k ≡ m k
unfolding store_crc
store_crc_outside crc p zero m k h = refl
store_crc_outside crc p (suc n) m k h =
    ground (arith, store_crc_outside (crc >>> 8) (p + 1) n (update m p (bit_and crc 0xff)) k)

pub matches-store_crc : (crc p n : ℕ) (m : Mem) → matches_crc crc p n (store_crc crc p n m) ≡ true
unfolding store_crc matches_crc
matches-store_crc crc p zero m = refl
matches-store_crc crc p (suc n) m =
    let m' = update m p (bit_and crc 0xff) in
    rw
      (
        store_crc_outside (crc >>> 8) (p + 1) n m' p (inl (omega arith)),
        ==_refl p,
        ==_refl (bit_and crc 0xff),
      )
      (matches-store_crc (crc >>> 8) (p + 1) n m')

-- The comparison reads the stored bytes only.
pub matches_crc_ext :
    (crc p n : ℕ) (m m' : Mem)
    → ((k : ℕ) → p ≤ k → k < p + n → m k ≡ m' k)
    → matches_crc crc p n m ≡ matches_crc crc p n m'
unfolding matches_crc
matches_crc_ext crc p zero m m' h = refl
matches_crc_ext crc p (suc n) m m' h = rw (
  h p (omega arith) (omega arith),
  matches_crc_ext (crc >>> 8) (p + 1) n m m' (λ k a b. h k (omega arith) (omega arith)),
)

matches_parts :
    (crc p n : ℕ) (m : Mem)
    → matches_crc crc p (suc n) m ≡ true
    → (m p ≡ crc % 256) × (matches_crc (crc / 256) (p + 1) n m ≡ true)
unfolding matches_crc
matches_parts crc p n m h = ground (arith, bit_and-mask 8 crc)

-- Two values that match the same bytes are equal, and two memories that match the same value
-- hold the same bytes.
pub matches_crc_unique :
    (c d p n : ℕ) (m : Mem)
    → c < 2 ^ (8 * n)
    → d < 2 ^ (8 * n)
    → matches_crc c p n m ≡ true
    → matches_crc d p n m ≡ true
    → c ≡ d
matches_crc_unique c d p zero m hc hd a b = omega arith
matches_crc_unique c d p (suc n) m hc hd a b =
    let a' = matches_parts c p n m a in
    let b' = matches_parts d p n m b in
    let eight : 8 * suc n ≡ 8 * n + 8 = omega arith in
    let width : 2 ^ (8 * suc n) ≡ 256 * 2 ^ (8 * n) =
      ap (λ (t : ℕ). 2 ^ t) eight ∙ two-pow-add-eight (8 * n) in
    let higher : c / 256 ≡ d / 256 =
      matches_crc_unique (c / 256) (d / 256) (p + 1) n m (omega arith) (omega arith) a'.1 b'.1 in
    omega arith

pub matches_crc_bytes :
    (c p n : ℕ) (m m' : Mem)
    → matches_crc c p n m ≡ true
    → matches_crc c p n m' ≡ true
    → (k : ℕ) → p ≤ k
    → k < p + n
    → m k ≡ m' k
matches_crc_bytes c p zero m m' a b k lo hi = absurd (omega arith)
matches_crc_bytes c p (suc n) m m' a b k lo hi =
    let a' = matches_parts c p n m a in
    let b' = matches_parts c p n m' b in
    ground (arith, matches_crc_bytes (c / 256) (p + 1) n m m' a'.1 b'.1 k)

-- A CRC of `n` bytes that `out` makes of the register, over the bytes before address `end`.
module _ (k poly init n : ℕ) (out : ℕ → ℕ) (top : 2 ^ k ≤ poly) (fits : poly < 2 ^ suc k)
    (wide : 2 ^ 8 ≤ 2 ^ suc k) (start : init < 2 ^ suc k)
    (out-lt : (c : ℕ) → c < 2 ^ suc k → out c < 2 ^ (8 * n))
    (out_injective : (c d : ℕ) → c < 2 ^ suc k → d < 2 ^ suc k → out c ≡ out d → c ≡ d) where
  abbrev code_of : Mem → ℕ → ℕ
  code_of m end = out (crc32p (slice m 0 end) init poly)

  abbrev checks : Mem → ℕ → Bool
  checks m end = matches_crc (code_of m end) end n m

  register-lt :
      (m : Mem) (end : ℕ) → ((i : ℕ) → m i < 256) → crc32p (slice m 0 end) init poly < 2 ^ suc k
  register-lt m end h =
      crc32p-lt k poly top fits wide (slice m 0 end) init (AreBytes-slice m 0 end h) start

  update_bytes :
      (m : Mem) (j v : ℕ) → ((i : ℕ) → m i < 256) → v < 256 → (i : ℕ) → update m j v i < 256
  update_bytes m j v h hv i = ground (arith, h i)

  -- A change within the bytes that are covered changes the code.
  code_detects :
      (m : Mem) (j b v : ℕ)
      → ((i : ℕ) → m i < 256)
      → v < 256
      → code_of (update m j v) (j + suc b) ≡ code_of m (j + suc b)
      → v ≡ m j
  code_detects m j b v h hv e =
      let here : 0 + j ≡ j = omega arith in
      let split = rw (here) at (slice_split m 0 j b) in
      let same =
        out_injective _ _ (register-lt (update m j v) (j + suc b) (update_bytes m j v h hv))
          (register-lt m (j + suc b) h) e in
      crc32p_one_byte k poly top fits wide (slice m 0 j) (slice m (j + 1) b) v (m j) init
        (AreBytes-slice m 0 j h) (AreBytes-slice m (j + 1) b h) hv (h j) start
        (ap (λ l. crc32p l init poly) (sym (slice-update_split m j v b))
          ∙ same
          ∙ ap (λ l. crc32p l init poly) split)

  accepted_same :
      (m : Mem) (end j v : ℕ)
      → ((i : ℕ) → m i < 256)
      → v < 256
      → j < end + n
      → checks m end ≡ true
      → checks (update m j v) end ≡ true
      → v ≡ m j
  accepted_same m end j v h hv lt valid accepted = elim (dec_lt j end) [
    | yes covered ↦
        let length : end ≡ j + suc (end - j - 1) = omega arith in
        let kept =
          matches_crc_ext (code_of (update m j v) end) end n (update m j v) m
            (λ i lo hi. ground arith) in
        let codes =
          matches_crc_unique (code_of (update m j v) end) (code_of m end) end n m
            (out-lt _ (register-lt (update m j v) end (update_bytes m j v h hv)))
            (out-lt _ (register-lt m end h)) (sym kept ∙ accepted) valid in
        code_detects m j (end - j - 1) v h hv
          (subst (λ t. code_of (update m j v) t ≡ code_of m t) length codes)
    | no stored ↦
        let same = slice_ext (update m j v) m 0 end (λ i lo hi. ground arith) in
        let here : update m j v j ≡ v = rw (==_refl j) refl in
        sym here
        ∙ matches_crc_bytes (code_of m end) end n (update m j v) m
            (subst (λ l. matches_crc (out (crc32p l init poly)) end n (update m j v) ≡ true) same
              accepted)
            valid j (omega arith) lt
  ]

  -- A check that passes fails once any one byte is changed, be it covered or part of the code.
  pub checks_detects :
      (m : Mem) (end j v : ℕ)
      → ((i : ℕ) → m i < 256)
      → v < 256
      → v ≢ m j
      → j < end + n
      → checks m end ≡ true
      → checks (update m j v) end ≡ false
  checks_detects m end j v h hv ne lt valid = elim (Bool-cases (checks (update m j v) end)) [
    | inr rejected ↦ rejected
    | inl accepted ↦ absurd (ne (accepted_same m end j v h hv lt valid accepted))
  ]

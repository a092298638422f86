-- ===== src/Proto/Length.antt =====
-- What the length fields and the byte enables of a header say, and that `tlp_req_set_addr`
-- writes them so that they say the length it was given.
use warp_pipe.Base.{
  false, update, ℕ, suc, ◌+◌, ◌-◌, ◌*◌, ◌/◌, ◌%◌, ◌^◌, ◌≤◌, ◌<◌, bit_and, ◌≡◌, inl, inr, Bool-cases,
  refl, arith, Mem, ◌>>>◌, leb, ◌==◌, if◌then◌else◌, ℤ, pos, negsuc, sub_ℕ, word32,
}
use warp_pipe.Base.Bits.{bit_and-mask, bit_or-shift}
use warp_pipe.Proto.Address.{set_address_frame}
use warp_pipe.Proto.Fields.{fields}
use warp_pipe.Proto.Layout.{
  set_tlp_length_hi, set_tlp_length_lo, bits, tlp_length_hi, tlp_length_lo, r_first_be, r_last_be,
}
use warp_pipe.Proto.Header.{
  has, tlp_data_length, tlp_data_length_bytes, last_enabled, enables_byte, tlp_req_set_addr,
}

pub tlp_data_length_sum :
    (pkt : Mem)
    → tlp_data_length pkt ≡ (tlp_length_hi pkt * 256 + tlp_length_lo pkt + 1023) % 1024 + 1
unfolding tlp_data_length bits
tlp_data_length_sum pkt =
    let n : ℕ = tlp_length_hi pkt * 256 + tlp_length_lo pkt in
    rw (bit_or-shift 8 (tlp_length_hi pkt) (tlp_length_lo pkt) (omega arith))
      (ground (arith, bit_and-mask 10 (word32 (sub_ℕ n 1))))

-- The bytes that the enables `first` and `last` leave of `n`.
abbrev enabled : ℕ → ℕ → ℕ → ℤ
enabled n first last =
    let last_be = if n == 4 then first else last in
    if has first 1
    then last_enabled last_be n
    else if has first 2
    then last_enabled last_be (n - 1)
    else if has first 4
    then last_enabled last_be (n - 2)
    else if has first 8
    then last_enabled last_be (n - 3)
    else if n == 4
    then pos 0
    else negsuc 0

tlp_data_length_bytes-enabled :
    (pkt : Mem)
    → tlp_data_length_bytes pkt ≡ enabled (tlp_data_length pkt * 4) (r_first_be pkt) (r_last_be pkt)
unfolding tlp_data_length_bytes
tlp_data_length_bytes-enabled pkt = refl

-- What `set_byte_enables` writes, for an end at `r` bytes into the last word.
abbrev pub first_enables : ℕ → ℕ → ℕ → ℕ
first_enables a l r =
    if leb (l + a) 4
    then bit_and (15 * 2 ^ a % 16) (15 / 2 ^ ((4 - r) % 4) % 16) % 16
    else 15 * 2 ^ a % 16

abbrev last_enables : ℕ → ℕ → ℕ → ℕ
last_enables a l r = if leb (l + a) 4 then 0 else 15 / 2 ^ ((4 - r) % 4) % 16

enabled_lem :
    (a r l n : ℕ)
    → a < 4
    → r < 4
    → 1 ≤ l
    → (l + a) % 4 ≡ r
    → (l + a + 3) / 4 * 4 ≡ n
    → enabled n (first_enables a l r) (last_enables a l r) ≡ pos l
unfolding last_enabled
enabled_lem (suc (suc (suc (suc a)))) r l n p q h e f = absurd (omega arith)
enabled_lem a (suc (suc (suc (suc r)))) l n p q h e f = absurd (omega arith)
enabled_lem _ _ l n p q h e f = ground arith

module _ (a l b : ℕ) (pos_length : 1 ≤ l) where
  tail : bit_and (word32 (sub_ℕ 0 (l + a))) 3 ≡ (4 - (l + a) % 4) % 4
  tail = ground (arith, bit_and-mask 2 (word32 (sub_ℕ 0 (l + a))))

  not_empty : (l == 0) ≡ false
  not_empty = ground arith

  enables_first : bits 0 4 (enables_byte a l b) ≡ first_enables a l ((l + a) % 4)
  enables_first = elim (Bool-cases (leb (l + a) 4)) [
    | inl e ↦ unfold enables_byte in rw (e, not_empty, tail) (simp fields)
    | inr e ↦ unfold enables_byte in rw (e, not_empty, tail) (simp fields)
  ]

  enables_last : bits 4 4 (enables_byte a l b) ≡ last_enables a l ((l + a) % 4)
  enables_last = elim (Bool-cases (leb (l + a) 4)) [
    | inl e ↦ unfold enables_byte in rw (e, not_empty, tail) (simp fields)
    | inr e ↦ unfold enables_byte in rw (e, not_empty, tail) (simp fields)
  ]

module _ (pkt : Mem) (addr length : ℕ) where
  abbrev written : Mem
  written = tlp_req_set_addr pkt addr length

  abbrev words : ℕ
  words = (length + addr % 4 + 4 - 1) / 4

  -- Bytes 1 to 7 as they stand before the address is written.
  kept :
      (k : ℕ)
      → 1 ≤ k
      → k < 8
      → written k
        ≡ set_tlp_length_lo
            (bit_and words 0xff)
            (set_tlp_length_hi
              (words >>> 8)
              (update pkt 7 (enables_byte (addr % 4) length (pkt 7))))
            k
  unfolding tlp_req_set_addr
  kept k p q = rw (← bit_and-mask 2 addr) (set_address_frame _ _ k p q)

  length_hi-set_addr : tlp_length_hi written ≡ words / 256 % 4
  length_hi-set_addr = rw (kept 2 (omega arith) (omega arith)) (simp fields)

  length_lo-set_addr : tlp_length_lo written ≡ words % 256
  length_lo-set_addr =
      rw (kept 3 (omega arith) (omega arith)) (simp fields (omega (arith, bit_and-mask 8 words)))

  -- A header written for `length` bytes from `addr` on says the number of words that hold them, if
  -- these are from 1 to 1024 words.
  pub data_length-set_addr :
      1 ≤ length + addr % 4
      → length + addr % 4 ≤ 4096
      → tlp_data_length written ≡ (length + addr % 4 + 3) / 4
  data_length-set_addr pos_length h =
      omega (arith, tlp_data_length_sum written, length_hi-set_addr, length_lo-set_addr)

  pub first_be-set_addr :
      1 ≤ length → r_first_be written ≡ first_enables (addr % 4) length ((length + addr % 4) % 4)
  first_be-set_addr pos_length =
      rw (kept 7 (omega arith) (omega arith)) (enables_first (addr % 4) length (pkt 7) pos_length)

  last_be-set_addr :
      1 ≤ length → r_last_be written ≡ last_enables (addr % 4) length ((length + addr % 4) % 4)
  last_be-set_addr pos_length =
      rw (kept 7 (omega arith) (omega arith)) (enables_last (addr % 4) length (pkt 7) pos_length)

  -- A header written for `length` bytes from `addr` on says that many bytes, for any length from
  -- 1 byte to as many as 1024 words hold from that address.
  pub data_length_bytes-set_addr :
      1 ≤ length → length + addr % 4 ≤ 4096 → tlp_data_length_bytes written ≡ pos length
  data_length_bytes-set_addr pos_length h =
      rw
        (
          tlp_data_length_bytes-enabled written,
          first_be-set_addr pos_length,
          last_be-set_addr pos_length,
        )
        (enabled_lem (addr % 4) ((length + addr % 4) % 4) length (tlp_data_length written * 4)
          (omega arith) (omega arith) pos_length refl
          (omega (arith, data_length-set_addr (omega arith) h)))

  -- A request of length 0 from a word's start is written as 1024 words with no byte enabled, which
  -- is no valid length; from inside a word it is the one word with no byte enabled that it should be.
  pub set_addr_zero_length :
      length ≡ 0
      → (tlp_data_length written ≡ (if addr % 4 == 0 then 1024 else 1))
        × (tlp_data_length_bytes written ≡ (if addr % 4 == 0 then negsuc 0 else pos 0))
  set_addr_zero_length e = (
    words_written,
    rw (tlp_data_length_bytes-enabled written, none_enabled) (ground (arith, words_written)),
  )
    where
      words_written : tlp_data_length written ≡ (if addr % 4 == 0 then 1024 else 1)
      words_written =
          ground (arith, tlp_data_length_sum written, length_hi-set_addr, length_lo-set_addr)

      none_enabled : r_first_be written ≡ 0
      none_enabled = rw (kept 7 (omega arith) (omega arith), e) (unfold enables_byte in simp fields)

-- ===== src/Proto/Address.antt =====
-- The address that `tlp_req_set_addr` writes is the one that `tlp_req_get_addr` reads.
use warp_pipe.Base.{
  ℕ, zero, suc, ◌+◌, ◌-◌, ◌*◌, ◌/◌, ◌%◌, ◌^◌, ◌≤◌, ◌<◌, bit_and, bit_or, ◌≡◌, refl, ap, ◌∙◌, arith,
  inl, inr, true, false, Bool-cases, sym, update, ==_refl, Mem, u8, u64, ◌<<<◌, ◌>>>◌, ltb,
}
use warp_pipe.Base.Bits.{bit_and-mask, bit_or-shift, bit_and-shift, two-pow-add-eight}
use native.Mathlib.Nat.{mul_comm, one-le-pow, div-div-eq-div-mul, mod-eq_of_lt, div-add-mod'}
use warp_pipe.Proto.Fields.{fields, bits-lt}
use warp_pipe.Proto.Layout.{bits, tlp_fmt}
use warp_pipe.Proto.Header.{
  has, load_addr, store_addr, set_address, tlp_req_set_addr, tlp_req_get_addr,
}

-- `|` puts the byte at shift `k` below the higher ones.
or_byte :
    (k a : ℕ)
    → 2 ^ k ≤ 2 ^ 56
    → bit_or (a / 2 ^ (k + 8) * 2 ^ (k + 8)) (u64 (u8 (a >>> k) <<< k)) ≡ a / 2 ^ k * 2 ^ k
or_byte k a h =
    let t : ℕ = 2 ^ k in
    let c : ℕ = a / t in
    let low : c % 256 * t + t ≤ 256 * t = grind arith in
    let positive : 1 ≤ t = one-le-pow k 2 (omega arith) in
    let shifted : a / (256 * t) ≡ c / 256 =
      rw (mul_comm 256 t) (sym (div-div-eq-div-mul a t 256)) in
    let cut : u64 (u8 (a >>> k) <<< k) ≡ c % 256 * t = mod-eq_of_lt (omega arith) in
    rw (two-pow-add-eight k, shifted, cut)
      (omega (
        arith,
        two-pow-add-eight k,
        ap (λ (x : ℕ). bit_or (c / 256 * x) (c % 256 * t)) (two-pow-add-eight k),
        ap (λ (x : ℕ). c / 256 * x) (two-pow-add-eight k),
        bit_or-shift (k + 8) (c / 256) (c % 256 * t) (omega (arith, two-pow-add-eight k)),
        ap (λ (x : ℕ). x * t) (div-add-mod' c 256),
      ))

pub store_addr_below :
    (a p left : ℕ) (pkt : Mem) (k : ℕ) → k < p → store_addr a p left pkt k ≡ pkt k
unfolding store_addr
store_addr_below a p zero pkt k h = refl
store_addr_below a p (suc left) pkt k h =
    ground (arith, store_addr_below a (p + 1) left (update pkt p (u8 (a >>> (8 * left)))) k)

-- Setting the address leaves bytes 1 to 7 of the header alone.
pub set_address_frame : (a : ℕ) (pkt : Mem) (k : ℕ) → 1 ≤ k → k < 8 → set_address a pkt k ≡ pkt k
set_address_frame a pkt k lo hi = elim (Bool-cases (ltb a 0x1_0000_0000)) [
  | inl e ↦ unfold set_address in rw (e, store_addr_below a 8 4 _ k hi) (ground arith)
  | inr e ↦ unfold set_address in rw (e, store_addr_below a 8 8 _ k hi) (ground arith)
]

two-pow-le : (left : ℕ) → left < 8 → 2 ^ (8 * left) ≤ 2 ^ 56
two-pow-le (suc (suc (suc (suc (suc (suc (suc (suc left)))))))) h = absurd (omega arith)
two-pow-le _ h = omega arith

-- Reading back what the store loop wrote, the higher bytes being there already.
load-store_addr :
    (left a p : ℕ) (pkt : Mem)
    → left ≤ 8
    → load_addr (a / 2 ^ (8 * left) * 2 ^ (8 * left)) p left (store_addr a p left pkt) ≡ a
unfolding load_addr store_addr
load-store_addr zero a p pkt h = omega arith
load-store_addr (suc left) a p pkt h =
    let pkt' = update pkt p (u8 (a >>> (8 * left))) in
    let byte = store_addr_below a (p + 1) left pkt' p (omega arith) in
    let eight : 8 * suc left ≡ 8 * left + 8 = omega arith in
    rw (eight, byte, ==_refl p, or_byte (8 * left) a (two-pow-le left (omega arith)))
      (load-store_addr left a (p + 1) pkt' (omega arith))

fmt_cleared : (f : ℕ) → f < 8 → has (bit_and f 6 % 8) 1 ≡ false
fmt_cleared (suc (suc (suc (suc (suc (suc (suc (suc f)))))))) h = absurd (omega arith)
fmt_cleared _ h = refl

fmt_set : (f : ℕ) → f < 8 → has (bit_or f 1 % 8) 1 ≡ true
fmt_set (suc (suc (suc (suc (suc (suc (suc (suc f)))))))) h = absurd (omega arith)
fmt_set _ h = refl

module _ (a : ℕ) (pkt : Mem) where
  pub short_address : ltb a 0x1_0000_0000 ≡ true → has (tlp_fmt (set_address a pkt)) 1 ≡ false
  unfolding set_address
  short_address e =
      rw (e, store_addr_below a 8 4 _ 0 (omega arith))
        (simp fields (fmt_cleared (bits 5 3 (pkt 0)) (bits-lt 5 3 (pkt 0) (omega arith))))

  pub long_address : ltb a 0x1_0000_0000 ≡ false → has (tlp_fmt (set_address a pkt)) 1 ≡ true
  unfolding set_address
  long_address e =
      rw (e, store_addr_below a 8 8 _ 0 (omega arith))
        (simp fields (fmt_set (bits 5 3 (pkt 0)) (bits-lt 5 3 (pkt 0) (omega arith))))

  get-set_address : a < 2 ^ 64 → tlp_req_get_addr (set_address a pkt) ≡ a
  unfolding tlp_req_get_addr
  get-set_address h = elim (Bool-cases (ltb a 0x1_0000_0000)) [
    | inl e ↦
        let none_higher : 0 ≡ a / 2 ^ 32 * 2 ^ 32 = ground arith in
        rw (short_address e)
          (unfold set_address in rw (e, none_higher) (load-store_addr 4 a 8 _ (omega arith)))
    | inr e ↦
        let none_higher : 0 ≡ a / 2 ^ 64 * 2 ^ 64 = ground arith in
        rw (long_address e)
          (unfold set_address in rw (e, none_higher) (load-store_addr 8 a 8 _ (omega arith)))
  ]

-- `addr & ~3`
pub aligned : (addr : ℕ) → addr < 2 ^ 64 → bit_and addr (2 ^ 64 - 4) ≡ addr / 4 * 4
aligned addr h = omega (arith, bit_and-shift 2 addr (2 ^ 62 - 1), bit_and-mask 62 (addr / 4))

-- A request carries the address of the aligned word that holds a 64-bit `addr`, whatever was in the
-- header before, and with either address size.
pub get_addr-set_addr :
    (pkt : Mem) (addr length : ℕ)
    → addr < 2 ^ 64
    → tlp_req_get_addr (tlp_req_set_addr pkt addr length) ≡ addr / 4 * 4
unfolding tlp_req_set_addr
get_addr-set_addr pkt addr length h =
    get-set_address (bit_and addr (2 ^ 64 - 4)) _ (omega (arith, aligned addr h)) ∙ aligned addr h

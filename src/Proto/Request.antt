-- ===== src/Proto/Request.antt =====
-- The other effects of `tlp_req_set_addr`, and the length of the whole packet.
use warp_pipe.Base.{
  ℕ, suc, ◌+◌, ◌*◌, ◌/◌, ◌%◌, ◌^◌, ◌≤◌, ◌<◌, bit_and, bit_or, ◌≡◌, refl, ap, ◌∙◌, arith, inl, inr,
  Bool-cases, Mem, ltb, if◌then◌else◌, pos, negsuc, ◌⊎◌,
}
use warp_pipe.Proto.Fields.{fields, bits-lt}
use warp_pipe.Proto.Layout.{bits, tlp_fmt, tlp_type, r_tag}
use warp_pipe.Proto.Header.{tlp_data_length, tlp_total_length, set_address, tlp_req_set_addr}
use warp_pipe.Proto.Length.{tlp_data_length_sum}
use warp_pipe.Proto.Address.{store_addr_below, set_address_frame, aligned}

-- The format that a request ends up with: its data bit, and the size that its address needs.
abbrev pub fmt_for : ℕ → ℕ → ℕ
fmt_for addr fmt = fmt / 2 * 2 + (if ltb addr 0x1_0000_0000 then 0 else 1)

clear_size : (f : ℕ) → f < 8 → bit_and f 6 % 8 ≡ f / 2 * 2 + 0
clear_size (suc (suc (suc (suc (suc (suc (suc (suc f)))))))) h = absurd (omega arith)
clear_size _ h = refl

set_size : (f : ℕ) → f < 8 → bit_or f 1 % 8 ≡ f / 2 * 2 + 1
set_size (suc (suc (suc (suc (suc (suc (suc (suc f)))))))) h = absurd (omega arith)
set_size _ h = refl

fmt-set_address : (a : ℕ) (pkt : Mem) → tlp_fmt (set_address a pkt) ≡ fmt_for a (tlp_fmt pkt)
fmt-set_address a pkt = elim (Bool-cases (ltb a 0x1_0000_0000)) [
  | inl e ↦
      unfold set_address in
      rw (e, store_addr_below a 8 4 _ 0 (omega arith))
        (simp fields (clear_size (bits 5 3 (pkt 0)) (bits-lt 5 3 (pkt 0) (omega arith))))
  | inr e ↦
      unfold set_address in
      rw (e, store_addr_below a 8 8 _ 0 (omega arith))
        (simp fields (set_size (bits 5 3 (pkt 0)) (bits-lt 5 3 (pkt 0) (omega arith))))
]

type-set_address : (a : ℕ) (pkt : Mem) → tlp_type (set_address a pkt) ≡ tlp_type pkt
type-set_address a pkt = elim (Bool-cases (ltb a 0x1_0000_0000)) [
  | inl e ↦ unfold set_address in rw (e, store_addr_below a 8 4 _ 0 (omega arith)) (simp fields)
  | inr e ↦ unfold set_address in rw (e, store_addr_below a 8 8 _ 0 (omega arith)) (simp fields)
]

-- Writing a 64-bit address keeps the type, the bits of the format above the lowest and the tag, and
-- makes the format say 4 words of header exactly when the address needs more than 32 bits.
pub set_addr_keeps :
    (pkt : Mem) (addr length : ℕ)
    → addr < 2 ^ 64
    → let q = tlp_req_set_addr pkt addr length in
      (tlp_fmt q ≡ fmt_for addr (tlp_fmt pkt)) × (tlp_type q ≡ tlp_type pkt) × (r_tag q ≡ r_tag pkt)
unfolding tlp_req_set_addr
set_addr_keeps pkt addr length h = (
  fmt-set_address _ _ ∙ ground (arith, aligned addr h),
  type-set_address _ _,
  ap (bits 0 8) (set_address_frame _ _ 6 (omega arith) (omega arith)),
)

-- The length of a packet of a format below 4 is that of its 3 or 4 words of header and of the data
-- that the format says it has; any other format has the length -1.
pub tlp_total_length_cases :
    (pkt : Mem)
    → ((tlp_fmt pkt < 4)
        × (tlp_total_length pkt
            ≡ pos (
                12
                + tlp_fmt pkt % 2 * 4
                + (if ltb (tlp_fmt pkt) 2 then 0 else tlp_data_length pkt * 4))))
      ⊎ ((4 ≤ tlp_fmt pkt) × (tlp_total_length pkt ≡ negsuc 0))
unfolding tlp_total_length
tlp_total_length_cases pkt = ground arith

pub tlp_data_length_range : (pkt : Mem) → (1 ≤ tlp_data_length pkt) × (tlp_data_length pkt ≤ 1024)
tlp_data_length_range pkt = omega (arith, tlp_data_length_sum pkt)

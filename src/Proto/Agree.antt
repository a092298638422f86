-- ===== src/Proto/Agree.antt =====
-- What src/proto.c reads of a packet depends on the bytes of its header only.
use warp_pipe.Base.{
  ℕ, zero, suc, ◌+◌, ◌*◌, ◌≤◌, ◌<◌, bit_or, ◌≡◌, refl, arith, Bool-cases, inl, inr, Mem, u64, ◌<<<◌,
  if◌then◌else◌,
}
use warp_pipe.Proto.Layout.{
  tlp_fmt, tlp_type, r_first_be, r_address, r_data32, r_data64, pcie_tlp_fmt_4dw,
}
use warp_pipe.Proto.Header.{
  has, load_addr, tlp_req_get_addr, tlp_data_length, tlp_data_length_bytes,
}

-- Where the data of a request starts.
abbrev pub request_data : Mem → ℕ
request_data pkt = if has (tlp_fmt pkt) pcie_tlp_fmt_4dw then r_data64 else r_data32

pub load_addr_ext :
    (acc p left : ℕ) (m m' : Mem)
    → ((k : ℕ) → p ≤ k → k < p + left → m k ≡ m' k)
    → load_addr acc p left m ≡ load_addr acc p left m'
unfolding load_addr
load_addr_ext acc p zero m m' h = refl
load_addr_ext acc p (suc left) m m' h = rw (h p (omega arith) (omega arith)) (
    load_addr_ext (bit_or acc (u64 (m' p <<< (8 * left)))) (p + 1) left m m'
      (λ k lo hi. h k (omega arith) (omega arith)))

module _ (p q : Mem) (agree : (k : ℕ) → k < request_data q → p k ≡ q k) where
  at_least : 12 ≤ request_data q
  at_least = ground arith

  header_byte : (k : ℕ) → k < 12 → p k ≡ q k
  header_byte k h = agree k (omega (arith, at_least))

  pub fmt_ext : tlp_fmt p ≡ tlp_fmt q
  fmt_ext = rw (header_byte 0 (omega arith))

  pub type_ext : tlp_type p ≡ tlp_type q
  type_ext = rw (header_byte 0 (omega arith))

  pub first_be_ext : r_first_be p ≡ r_first_be q
  first_be_ext = rw (header_byte 7 (omega arith))

  pub data_length_ext : tlp_data_length p ≡ tlp_data_length q
  unfolding tlp_data_length
  data_length_ext = rw (header_byte 2 (omega arith), header_byte 3 (omega arith)) refl

  pub data_length_bytes_ext : tlp_data_length_bytes p ≡ tlp_data_length_bytes q
  unfolding tlp_data_length_bytes tlp_data_length
  data_length_bytes_ext =
      rw (header_byte 2 (omega arith), header_byte 3 (omega arith), header_byte 7 (omega arith))

  pub get_addr_ext : tlp_req_get_addr p ≡ tlp_req_get_addr q
  unfolding tlp_req_get_addr
  get_addr_ext = rw fmt_ext (elim (Bool-cases (has (tlp_fmt q) pcie_tlp_fmt_4dw)) [
    | inl e ↦ rw e (load_addr_ext 0 r_address 8 p q (λ k lo hi. agree k (ground arith)))
    | inr e ↦ rw e (load_addr_ext 0 r_address 4 p q (λ k lo hi. header_byte k (omega arith)))
  ])

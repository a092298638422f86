-- ===== src/Client/Requests/Packet.antt =====
-- The packet that `warppipe_write` sends, byte for byte.
use warp_pipe.Base.{
  ℕ, ◌+◌, ◌*◌, ◌/◌, ◌%◌, ◌^◌, ◌≤◌, ◌<◌, bit_and, ◌≡◌, ap, ◌∙◌, inl, inr, arith, List, Mem, length,
  slice, slice-poke, poke_below, ltb, if◌then◌else◌, pos,
}
use warp_pipe.Base.Bits.{bit_and-mask}
use warp_pipe.Proto.Layout.{tlp_fmt, tlp_type, pcie_tlp_mwr64}
use warp_pipe.Proto.Fields.{fields}
use warp_pipe.Proto.Header.{tlp_total_length, tlp_req_set_addr}
use warp_pipe.Proto.Length.{data_length-set_addr}
use warp_pipe.Proto.Request.{set_addr_keeps, tlp_total_length_cases}
use warp_pipe.Proto.Agree.{request_data}
use warp_pipe.Crc.Lcrc.{tlp_total_length_ext}
use warp_pipe.Client.Requests.{set_code, write_tlp}

module _ (junk : Mem) (addr : ℕ) (bytes : List ℕ) (small : addr < 2 ^ 64)
    (some_bytes : 1 ≤ length bytes) (fits : length bytes + addr % 4 ≤ 4096) where
  abbrev pub header : Mem
  header = tlp_req_set_addr (set_code pcie_tlp_mwr64 junk) addr (length bytes)

  abbrev pub written : Mem
  written = write_tlp junk addr bytes pcie_tlp_mwr64

  -- The words of data.
  abbrev pub words : ℕ
  words = (length bytes + addr % 4 + 3) / 4

  pub fmt-header : tlp_fmt header ≡ 2 + (if ltb addr 0x1_0000_0000 then 0 else 1)
  fmt-header =
      (set_addr_keeps (set_code pcie_tlp_mwr64 junk) addr (length bytes) small).0 ∙ simp fields

  pub type-header : tlp_type header ≡ 0
  type-header =
      (set_addr_keeps (set_code pcie_tlp_mwr64 junk) addr (length bytes) small).1 ∙ simp fields

  pub starts : request_data header ≡ 12 + (if ltb addr 0x1_0000_0000 then 0 else 4)
  starts = rw fmt-header (ground arith)

  pub written_header : (k : ℕ) → k < request_data header → written k ≡ header k
  unfolding write_tlp
  written_header k h =
      poke_below header (request_data header + bit_and addr 3) bytes k (omega arith)

  pub written_data : slice written (request_data header + addr % 4) (length bytes) ≡ bytes
  unfolding write_tlp
  written_data =
      rw (← bit_and-mask 2 addr) (slice-poke header (request_data header + bit_and addr 3) bytes)

  pub total-written : tlp_total_length written ≡ pos (request_data header + words * 4)
  total-written =
      tlp_total_length_ext written header (written_header 0 (omega (arith, starts)))
        (written_header 2 (omega (arith, starts))) (written_header 3 (omega (arith, starts)))
      ∙ elim (tlp_total_length_cases header) [
        | inl (known, e) ↦
            e
            ∙ ap pos (
                ground (
                  arith,
                  fmt-header,
                  starts,
                  data_length-set_addr (set_code pcie_tlp_mwr64 junk) addr (length bytes)
                      (omega arith) fits,
                ))
        | inr (unknown, e) ↦ absurd (ground (arith, fmt-header))
      ]

  pub starts-le : request_data header ≤ 16
  starts-le = ground (arith, starts)

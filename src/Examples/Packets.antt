-- ===== src/Examples/Packets.antt =====
-- Packets: their lengths, addresses and CRCs.
use warp_pipe.Base.{
  ℕ, ◌+◌, ◌*◌, ◌%◌, ◌<◌, ◌≤◌, ◌≡◌, ◌⊎◌, refl, arith, true, false, List, [], ◌∷◌, Mem, update, view,
  slice, pos, negsuc, ltb, if◌then◌else◌,
}
use warp_pipe.Proto.Layout.{bits, tlp_fmt, tlp_type, r_tag, dl_tlp}
use warp_pipe.Proto.Header.{
  tlp_data_length, tlp_data_length_bytes, tlp_total_length, tlp_req_set_addr, tlp_req_get_addr,
}
use warp_pipe.Proto.Length.{data_length-set_addr, data_length_bytes-set_addr, set_addr_zero_length}
use warp_pipe.Proto.Address.{get_addr-set_addr}
use warp_pipe.Proto.Request.{set_addr_keeps, tlp_total_length_cases}
use warp_pipe.Crc.{pcie_crc16, pcie_crc16_valid, pcie_lcrc32, pcie_lcrc32_valid, lcrc_end}
use warp_pipe.Crc.Lcrc.{lcrc32_detects, lcrc32_valid-lcrc32}
use warp_pipe.Crc.Dllp.{crc16_detects, crc16_valid-crc16}
use warp_pipe.Examples.Pipe.{memory_of, memory_of-lt}

-- A memory read of 1 byte with the sequence number 1, and its CRC.
abbrev read_bytes : List ℕ
read_bytes = 0 ∷ 1 ∷ 0x20 ∷ 0 ∷ 0 ∷ 1 ∷ 0 ∷ 0 ∷ 0 ∷ 1 ∷ 0 ∷ 0 ∷ 0 ∷ 1 ∷ 0 ∷ 0 ∷ 0x10 ∷ 0 ∷ []

abbrev read_sent : List ℕ
read_sent =
    0 ∷ 1 ∷ 0x20 ∷ 0 ∷ 0 ∷ 1 ∷ 0 ∷ 0 ∷ 0 ∷ 1 ∷ 0 ∷ 0 ∷ 0 ∷ 1 ∷ 0 ∷ 0 ∷ 0x10 ∷ 0 ∷ 84 ∷ 137 ∷ 205
    ∷ 74 ∷ []

read_is_valid : pcie_lcrc32_valid (memory_of read_sent) ≡ true
unfolding pcie_lcrc32_valid slice bits
read_is_valid = refl

read_crc : slice (pcie_lcrc32 (memory_of read_bytes)) 0 22 ≡ read_sent
unfolding pcie_lcrc32 slice bits
read_crc = refl

-- An ACK for the sequence number 5, and its CRC.
abbrev ack_sent : List ℕ
ack_sent = 0 ∷ 0 ∷ 0 ∷ 5 ∷ 150 ∷ 23 ∷ []

ack_is_valid : pcie_crc16_valid (memory_of ack_sent) ≡ true
unfolding pcie_crc16_valid slice
ack_is_valid = refl

data_length_bytes-set_addr_example :
    tlp_data_length_bytes (tlp_req_set_addr (λ _. 0) 0x1_0000_1003 6) ≡ pos 6
data_length_bytes-set_addr_example =
    data_length_bytes-set_addr (λ _. 0) 0x1_0000_1003 6 (omega arith) (omega arith)

data_length-set_addr_test : tlp_data_length (tlp_req_set_addr (λ _. 0) 0x1003 4093) ≡ 1024
data_length-set_addr_test = data_length-set_addr (λ _. 0) 0x1003 4093 (omega arith) (omega arith)

set_addr_zero_length_example :
    (tlp_data_length (tlp_req_set_addr (λ _. 0) 0x1000 0) ≡ 1024)
    × (tlp_data_length_bytes (tlp_req_set_addr (λ _. 0) 0x1000 0) ≡ negsuc 0)
set_addr_zero_length_example = set_addr_zero_length (λ _. 0) 0x1000 0 refl

get_addr-set_addr_example :
    tlp_req_get_addr (tlp_req_set_addr (λ _. 0) 0x12_3456_7892 6) ≡ 0x12_3456_7890
get_addr-set_addr_example = get_addr-set_addr (λ _. 0) 0x12_3456_7892 6 (omega arith)

set_addr_keeps_test :
    (tlp_fmt (tlp_req_set_addr (λ _. 0x60) 0x1000 4) ≡ 2)
    × (tlp_type (tlp_req_set_addr (λ _. 0x60) 0x1000 4) ≡ tlp_type (λ _. 0x60))
    × (r_tag (tlp_req_set_addr (λ _. 0x60) 0x1000 4) ≡ r_tag (λ _. 0x60))
unfolding bits
set_addr_keeps_test = set_addr_keeps (λ _. 0x60) 0x1000 4 (omega arith)

crc16_valid-crc16_example :
    (pcie_crc16_valid (pcie_crc16 (memory_of ack_sent)) ≡ true)
    × ((k : ℕ) → (k < 4) ⊎ (6 ≤ k) → pcie_crc16 (memory_of ack_sent) k ≡ memory_of ack_sent k)
crc16_valid-crc16_example = crc16_valid-crc16 (memory_of ack_sent)

crc16_detects_example : pcie_crc16_valid (update (memory_of ack_sent) 3 6) ≡ false
crc16_detects_example =
    crc16_detects (memory_of ack_sent) 3 6 (memory_of-lt ack_sent (ground arith)) (omega arith)
      (ground arith) (omega arith) ack_is_valid

lcrc32_detects_example : pcie_lcrc32_valid (update (memory_of read_sent) 14 7) ≡ false
unfolding bits lcrc_end
lcrc32_detects_example =
    lcrc32_detects (memory_of read_sent) 14 7 (memory_of-lt read_sent (ground arith)) (omega arith)
      (ground arith) (ground arith) refl read_is_valid

lcrc32_valid-lcrc32_example :
    (pcie_lcrc32_valid (pcie_lcrc32 (memory_of read_bytes)) ≡ true)
    × ((k : ℕ)
        → (k < lcrc_end (memory_of read_bytes)) ⊎ (lcrc_end (memory_of read_bytes) + 4 ≤ k)
        → pcie_lcrc32 (memory_of read_bytes) k ≡ memory_of read_bytes k)
unfolding bits
lcrc32_valid-lcrc32_example = lcrc32_valid-lcrc32 (memory_of read_bytes) (omega arith)

abbrev LengthOf : Mem → Type 0
LengthOf pkt =
    ((tlp_fmt pkt < 4)
      × (tlp_total_length pkt
          ≡ pos (
              12
              + tlp_fmt pkt % 2 * 4
              + (if ltb (tlp_fmt pkt) 2 then 0 else tlp_data_length pkt * 4))))
    ⊎ ((4 ≤ tlp_fmt pkt) × (tlp_total_length pkt ≡ negsuc 0))

tlp_total_length_cases_test : LengthOf (view dl_tlp (memory_of read_sent))
tlp_total_length_cases_test = tlp_total_length_cases (view dl_tlp (memory_of read_sent))

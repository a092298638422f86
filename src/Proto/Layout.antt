-- ===== src/Proto/Layout.antt =====
-- inc/warppipe/proto.h: a `struct pcie_tlp *` is the memory that it points to, and a member is
-- read from the byte and the bits at which a little-endian host keeps it. So the members of a
-- union overlap as they do in the source.
use warp_pipe.Base.{ℕ, ◌+◌, ◌*◌, ◌/◌, ◌%◌, ◌^◌, Mem, update}

-- The bits `[lo, lo + width)` of a byte, and a write to them, which keeps the others.
unfoldable pub bits : ℕ → ℕ → ℕ → ℕ
bits lo width b = b / 2 ^ lo % 2 ^ width

unfoldable pub with_bits : ℕ → ℕ → ℕ → ℕ → ℕ
with_bits lo width v b =
    b / 2 ^ (lo + width) * 2 ^ (lo + width) + v % 2 ^ width * 2 ^ lo + b % 2 ^ lo

-- enum pcie_proto
abbrev pub pcie_proto_dllp : ℕ
pcie_proto_dllp = 2

abbrev pub pcie_proto_tlp : ℕ
pcie_proto_tlp = 3

-- enum pcie_dllp_type
abbrev pub pcie_dllp_ack : ℕ
pcie_dllp_ack = 0x00

abbrev pub pcie_dllp_nak : ℕ
pcie_dllp_nak = 0x10

-- enum pcie_tlp_fmt
abbrev pub pcie_tlp_fmt_4dw : ℕ
pcie_tlp_fmt_4dw = 1

abbrev pub pcie_tlp_fmt_data : ℕ
pcie_tlp_fmt_data = 2

abbrev pub pcie_tlp_fmt_3dw_nodata : ℕ
pcie_tlp_fmt_3dw_nodata = 0

abbrev pub pcie_tlp_fmt_4dw_nodata : ℕ
pcie_tlp_fmt_4dw_nodata = 1

abbrev pub pcie_tlp_fmt_3dw_data : ℕ
pcie_tlp_fmt_3dw_data = 2

abbrev pub pcie_tlp_fmt_4dw_data : ℕ
pcie_tlp_fmt_4dw_data = 3

-- enum pcie_tlp_type: the format in the three high bits, the type in the five low ones.
abbrev pub pcie_tlp_mrd32 : ℕ
pcie_tlp_mrd32 = 0x00

abbrev pub pcie_tlp_mrd64 : ℕ
pcie_tlp_mrd64 = 0x20

abbrev pub pcie_tlp_mrdlk32 : ℕ
pcie_tlp_mrdlk32 = 0x01

abbrev pub pcie_tlp_mrdlk64 : ℕ
pcie_tlp_mrdlk64 = 0x21

abbrev pub pcie_tlp_mwr32 : ℕ
pcie_tlp_mwr32 = 0x40

abbrev pub pcie_tlp_mwr64 : ℕ
pcie_tlp_mwr64 = 0x60

abbrev pub pcie_tlp_iord : ℕ
pcie_tlp_iord = 0x02

abbrev pub pcie_tlp_iowr : ℕ
pcie_tlp_iowr = 0x42

abbrev pub pcie_tlp_cpl : ℕ
pcie_tlp_cpl = 0x0a

abbrev pub pcie_tlp_cpld : ℕ
pcie_tlp_cpld = 0x4a

abbrev pub pcie_tlp_cr0 : ℕ
pcie_tlp_cr0 = 0x04

abbrev pub pcie_tlp_cw0 : ℕ
pcie_tlp_cw0 = 0x44

-- struct pcie_tlp
abbrev pub tlp_type : Mem → ℕ
tlp_type pkt = bits 0 5 (pkt 0)

abbrev pub tlp_fmt : Mem → ℕ
tlp_fmt pkt = bits 5 3 (pkt 0)

abbrev pub tlp_length_hi : Mem → ℕ
tlp_length_hi pkt = bits 0 2 (pkt 2)

abbrev pub tlp_length_lo : Mem → ℕ
tlp_length_lo pkt = bits 0 8 (pkt 3)

abbrev pub set_tlp_type : ℕ → Mem → Mem
set_tlp_type v pkt = update pkt 0 (with_bits 0 5 v (pkt 0))

abbrev pub set_tlp_fmt : ℕ → Mem → Mem
set_tlp_fmt v pkt = update pkt 0 (with_bits 5 3 v (pkt 0))

abbrev pub set_tlp_length_hi : ℕ → Mem → Mem
set_tlp_length_hi v pkt = update pkt 2 (with_bits 0 2 v (pkt 2))

abbrev pub set_tlp_length_lo : ℕ → Mem → Mem
set_tlp_length_lo v pkt = update pkt 3 (with_bits 0 8 v (pkt 3))

-- tlp_req
abbrev pub r_tag : Mem → ℕ
r_tag pkt = bits 0 8 (pkt 6)

abbrev pub r_first_be : Mem → ℕ
r_first_be pkt = bits 0 4 (pkt 7)

abbrev pub r_last_be : Mem → ℕ
r_last_be pkt = bits 4 4 (pkt 7)

abbrev pub set_r_tag : ℕ → Mem → Mem
set_r_tag v pkt = update pkt 6 (with_bits 0 8 v (pkt 6))

abbrev pub set_r_first_be : ℕ → Mem → Mem
set_r_first_be v pkt = update pkt 7 (with_bits 0 4 v (pkt 7))

abbrev pub set_r_last_be : ℕ → Mem → Mem
set_r_last_be v pkt = update pkt 7 (with_bits 4 4 v (pkt 7))

-- The offsets of `r_address32`, `r_address64`, `r_data32` and `r_data64`.
abbrev pub r_address : ℕ
r_address = 8

abbrev pub r_data32 : ℕ
r_data32 = 12

abbrev pub r_data64 : ℕ
r_data64 = 16

-- tlp_cpl
abbrev pub c_byte_count_hi : Mem → ℕ
c_byte_count_hi pkt = bits 0 4 (pkt 6)

abbrev pub c_byte_count_lo : Mem → ℕ
c_byte_count_lo pkt = bits 0 8 (pkt 7)

abbrev pub c_tag : Mem → ℕ
c_tag pkt = bits 0 8 (pkt 10)

abbrev pub set_c_byte_count_hi : ℕ → Mem → Mem
set_c_byte_count_hi v pkt = update pkt 6 (with_bits 0 4 v (pkt 6))

abbrev pub set_c_byte_count_lo : ℕ → Mem → Mem
set_c_byte_count_lo v pkt = update pkt 7 (with_bits 0 8 v (pkt 7))

abbrev pub set_c_tag : ℕ → Mem → Mem
set_c_tag v pkt = update pkt 10 (with_bits 0 8 v (pkt 10))

abbrev pub c_data : ℕ
c_data = 12

-- struct pcie_dllp
abbrev pub dl_type : Mem → ℕ
dl_type pkt = pkt 0

abbrev pub dl_crc16 : ℕ
dl_crc16 = 4

-- struct pcie_dltlp
abbrev pub dl_tlp : ℕ
dl_tlp = 2

abbrev pub dl_seqno_hi : Mem → ℕ
dl_seqno_hi pkt = bits 0 4 (pkt 0)

abbrev pub dl_seqno_lo : Mem → ℕ
dl_seqno_lo pkt = bits 0 8 (pkt 1)

abbrev pub set_dl_seqno_hi : ℕ → Mem → Mem
set_dl_seqno_hi v pkt = update pkt 0 (with_bits 0 4 v (pkt 0))

abbrev pub set_dl_seqno_lo : ℕ → Mem → Mem
set_dl_seqno_lo v pkt = update pkt 1 (with_bits 0 8 v (pkt 1))

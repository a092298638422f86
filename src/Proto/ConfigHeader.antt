-- ===== src/Proto/ConfigHeader.antt =====
-- inc/warppipe/proto.h: `struct pcie_configuration_space_header_type0` and
-- `struct pcie_extended_capability`, with the places that C gives to their members.
use warp_pipe.Base.{ℕ, ◌+◌, ◌-◌, ◌*◌, ◌/◌, ◌≡◌, refl, arith, List, [], ◌∷◌, Mem}
use warp_pipe.Proto.Layout.{bits}

-- The members, in their order.
pub data Member : Type 0 where
  vendor_id : Member
  device_id : Member
  command : Member
  status : Member
  revision_id : Member
  class_code : Member
  cache_line_size : Member
  latency_timer : Member
  header_type : Member
  bist : Member
  bar : Member
  cardbus_cis_pointer : Member
  subsystem_vendor_id : Member
  subsystem_id : Member
  expansion_rom_base_address : Member
  capabilities_pointer : Member
  reserved0 : Member
  reserved1 : Member
  reserved2 : Member
  interrupt_line : Member
  interrupt_pin : Member
  min_gnt : Member
  max_lat : Member

-- A member with its size and the alignment of its type. Arrays of `uint8_t` and bit-fields of 8 bits
-- are aligned to bytes.
pub record Declared : Type 0 where
  pub member : Member
  pub size : ℕ
  pub alignment : ℕ

abbrev declare : Member → ℕ → ℕ → Declared
declare m s a = record { member = m; size = s; alignment = a }

abbrev pub header_type0 : List Declared
header_type0 =
    declare vendor_id 2 1
    ∷ declare device_id 2 1
    ∷ declare command 2 1
    ∷ declare status 2 1
    ∷ declare revision_id 1 1
    ∷ declare class_code 3 1
    ∷ declare cache_line_size 1 1
    ∷ declare latency_timer 1 1
    ∷ declare header_type 1 1
    ∷ declare bist 1 1
    ∷ declare bar 24 4
    ∷ declare cardbus_cis_pointer 4 4
    ∷ declare subsystem_vendor_id 2 1
    ∷ declare subsystem_id 2 1
    ∷ declare expansion_rom_base_address 4 4
    ∷ declare capabilities_pointer 1 1
    ∷ declare reserved0 1 1
    ∷ declare reserved1 2 1
    ∷ declare reserved2 4 1
    ∷ declare interrupt_line 1 1
    ∷ declare interrupt_pin 1 1
    ∷ declare min_gnt 1 1
    ∷ declare max_lat 1 1
    ∷ []

-- `offset`, rounded up to a multiple.
abbrev pub round_up : ℕ → ℕ → ℕ
round_up offset alignment = (offset + alignment - 1) / alignment * alignment

-- The members with their offsets, from `offset` on, and the size of the structure.
abbrev pub Placed : Type 0
Placed = List (Member × ℕ × ℕ)

unfoldable pub placed : List Declared → ℕ → Placed
placed [] offset = []
placed (d ∷ ds) offset =
    let start = round_up offset d.alignment in
    (d.member, start, d.size) ∷ placed ds (start + d.size)

unfoldable pub size_of : List Declared → ℕ → ℕ
size_of [] offset = round_up offset 4
size_of (d ∷ ds) offset = size_of ds (round_up offset d.alignment + d.size)

-- `struct pcie_extended_capability`, before its data.
abbrev pub next_capability_offset_hi : Mem → ℕ
next_capability_offset_hi cap = bits 0 8 (cap 0)

abbrev pub capability_version : Mem → ℕ
capability_version cap = bits 0 4 (cap 1)

abbrev pub next_capability_offset_lo : Mem → ℕ
next_capability_offset_lo cap = bits 4 4 (cap 1)

abbrev pub capability_id_hi : Mem → ℕ
capability_id_hi cap = bits 0 8 (cap 2)

abbrev pub capability_id_lo : Mem → ℕ
capability_id_lo cap = bits 0 8 (cap 3)

-- The `static_assert` on the size of the header holds.
header_size : size_of header_type0 0 ≡ 64
unfolding size_of
header_size = refl

-- Each member begins where the one before it ends, and no byte is left over.
abbrev Tiles : Placed → ℕ → ℕ → Type 0
Tiles [] start end = start ≡ end
Tiles ((m, offset, size) ∷ ps) start end = (offset ≡ start) × Tiles ps (offset + size) end

header_type0-Tiles : Tiles (placed header_type0 0) 0 64
unfolding placed
header_type0-Tiles = omega arith

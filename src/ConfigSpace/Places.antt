-- ===== src/ConfigSpace/Places.antt =====
-- The places in the header that src/yaml_configspace.c writes, and those of the BARs in memory-mock/main.c,
-- are those of the members of the structure in inc/warppipe/proto.h.
use warp_pipe.Base.{◌*◌, ◌≡◌, refl, ◌∷◌, []}
use warp_pipe.Proto.ConfigHeader.{
  vendor_id, device_id, command, status, revision_id, class_code, cache_line_size, latency_timer,
  header_type, bist, bar, cardbus_cis_pointer, subsystem_vendor_id, subsystem_id,
  expansion_rom_base_address, capabilities_pointer, reserved0, reserved1, reserved2, interrupt_line,
  interrupt_pin, min_gnt, max_lat, Placed, placed, header_type0,
}
use warp_pipe.ConfigSpace.{
  parse_vendor_id, parse_device_id, parse_command, parse_status, parse_revision_id,
  parse_class_code, parse_cache_line_size, parse_latency_timer, parse_header_type, parse_bist,
  parse_cardbus_cis_pointer, parse_subsystem_vendor_id, parse_subsystem_id,
  parse_expansion_rom_base_address, parse_capabilities_pointer, parse_interrupt_line,
  parse_interrupt_pin, parse_min_gnt, parse_max_lat,
}
use warp_pipe.ConfigSpace.Header.{field_offset, field_size}
use warp_pipe.MemoryMock.{bar_offset}

abbrev written_places : Placed
written_places =
    (vendor_id, field_offset parse_vendor_id, field_size parse_vendor_id)
    ∷ (device_id, field_offset parse_device_id, field_size parse_device_id)
    ∷ (command, field_offset parse_command, field_size parse_command)
    ∷ (status, field_offset parse_status, field_size parse_status)
    ∷ (revision_id, field_offset parse_revision_id, field_size parse_revision_id)
    ∷ (class_code, field_offset parse_class_code, field_size parse_class_code)
    ∷ (cache_line_size, field_offset parse_cache_line_size, field_size parse_cache_line_size)
    ∷ (latency_timer, field_offset parse_latency_timer, field_size parse_latency_timer)
    ∷ (header_type, field_offset parse_header_type, field_size parse_header_type)
    ∷ (bist, field_offset parse_bist, field_size parse_bist)
    ∷ (bar, bar_offset, 4 * 6)
    ∷ (
      cardbus_cis_pointer,
      field_offset parse_cardbus_cis_pointer,
      field_size parse_cardbus_cis_pointer,
    )
    ∷ (
      subsystem_vendor_id,
      field_offset parse_subsystem_vendor_id,
      field_size parse_subsystem_vendor_id,
    )
    ∷ (subsystem_id, field_offset parse_subsystem_id, field_size parse_subsystem_id)
    ∷ (
      expansion_rom_base_address,
      field_offset parse_expansion_rom_base_address,
      field_size parse_expansion_rom_base_address,
    )
    ∷ (
      capabilities_pointer,
      field_offset parse_capabilities_pointer,
      field_size parse_capabilities_pointer,
    )
    ∷ (reserved0, 53, 1)
    ∷ (reserved1, 54, 2)
    ∷ (reserved2, 56, 4)
    ∷ (interrupt_line, field_offset parse_interrupt_line, field_size parse_interrupt_line)
    ∷ (interrupt_pin, field_offset parse_interrupt_pin, field_size parse_interrupt_pin)
    ∷ (min_gnt, field_offset parse_min_gnt, field_size parse_min_gnt)
    ∷ (max_lat, field_offset parse_max_lat, field_size parse_max_lat)
    ∷ []

places_agree : placed header_type0 0 ≡ written_places
unfolding placed
places_agree = refl

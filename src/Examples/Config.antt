-- ===== src/Examples/Config.antt =====
-- The reader of the configuration file.
use Prim.Native.String.{String}
use warp_pipe.Base.{ℕ, ◌<◌, ◌+◌, ◌*◌, ◌/◌, ◌%◌, ◌≤◌, ◌^◌, ◌≡◌, refl, true, false, [], ◌∷◌}
use warp_pipe.ConfigSpace.{
  Parsed, scalar, ends, find_key, parser_keys, store_field, read_events, parse_key,
  parse_class_code, parse_device_id, number_refused,
}
use warp_pipe.ConfigSpace.{pcie_configuration_space_header_from_yaml, success}
use warp_pipe.ConfigSpace.Mapping.{Entry, events_of, opened, mapping_read}
use warp_pipe.ConfigSpace.Header.{Holds, find_key-key_of, store_field-Holds, read_events-entry}

find_key-key_of_test : find_key "class_code" parser_keys ≡ parse_class_code
find_key-key_of_test = find_key-key_of parse_class_code

store_field-Holds_test :
    Holds 9 3 0x12_3456 (λ _. 0) (store_field parse_class_code 0x12_3456 (λ _. 0))
store_field-Holds_test = store_field-Holds parse_class_code 0x12_3456 (λ _. 0)

-- Every text is a number.
abbrev strtoul : String → Parsed
strtoul value = record {
  number = 0x1af4;
  nothing_read = false;
  all_read = true;
  out_of_range = false;
}

taken : number_refused strtoul parse_device_id "0x1af4" ≡ false
unfolding number_refused
taken = refl

read_events-entry_test :
    read_events strtoul
      ((true, scalar "device_id") ∷ (true, scalar "0x1af4") ∷ (true, ends) ∷ [])
      (λ _. 0)
      parse_key
    ≡ read_events strtoul
        ((true, ends) ∷ [])
        (store_field parse_device_id 0x1af4 (λ _. 0))
        parse_key
read_events-entry_test =
    read_events-entry strtoul parse_device_id "0x1af4" (λ _. 0) ((true, ends) ∷ []) refl refl taken

abbrev device_entry : Entry
device_entry = record { field = parse_device_id; text = "0x1af4" }

abbrev class_entry : Entry
class_entry = record { field = parse_class_code; text = "0x1af4" }

refused_class : number_refused strtoul parse_class_code "0x1af4" ≡ false
unfolding number_refused
refused_class = refl

-- The device, the class and the device once more.
mapping_read_example :
    let r =
      pcie_configuration_space_header_from_yaml strtoul
        (opened 3 (events_of (device_entry ∷ class_entry ∷ device_entry ∷ []) ((true, ends) ∷ [])))
        (λ _. 0) in
    (r.1 ≡ success)
    × ((k : ℕ) → k < 3 → r.0 (9 + k) ≡ 0x1af4 / 2 ^ (8 * k) % 256)
    × ((k : ℕ) → 16 ≤ k → k < 40 → r.0 k ≡ 0)
    × ((k : ℕ) → 64 ≤ k → r.0 k ≡ 0)
mapping_read_example =
    mapping_read strtoul 3 (device_entry ∷ []) (device_entry ∷ []) class_entry [] (λ _. 0)
      (refl, refl, taken, (refl, refl, refused_class, (refl, refl, taken, tt))) ((λ e. cc e), tt)

-- ===== src/ConfigSpace.antt =====
-- src/yaml_configspace.c: the configuration space header from a YAML file. The header is the memory
-- of its `struct pcie_configuration_space_header_type0`. The events are those of libyaml, and the
-- numbers those of `strtoul`, which is a parameter.
pub mod Header
pub mod Mapping
mod Places
use Prim.Native.String.{String}
use text.Mathlib.Text.{◌==◌ as ◌==ₛ◌}
use warp_pipe.Base.{
  ℕ, ◌+◌, ◌*◌, ◌^◌, bit_and, bit_or, Bool, true, false, not, ◌&&◌, ◌||◌, List, [], ◌∷◌, Mem, update,
  u8, u32, ◌<<<◌, ◌>>>◌, if◌then◌else◌,
}

-- enum parser_state
pub data ParserState : Type 0 where
  parse_vendor_id : ParserState
  parse_device_id : ParserState
  parse_command : ParserState
  parse_status : ParserState
  parse_revision_id : ParserState
  parse_class_code : ParserState
  parse_cache_line_size : ParserState
  parse_latency_timer : ParserState
  parse_header_type : ParserState
  parse_bist : ParserState
  parse_cardbus_cis_pointer : ParserState
  parse_subsystem_vendor_id : ParserState
  parse_subsystem_id : ParserState
  parse_expansion_rom_base_address : ParserState
  parse_capabilities_pointer : ParserState
  parse_interrupt_line : ParserState
  parse_interrupt_pin : ParserState
  parse_min_gnt : ParserState
  parse_max_lat : ParserState
  done : ParserState
  parse_key : ParserState

-- `parser_keys`, each with the state at its index.
abbrev pub parser_keys : List (String × ParserState)
parser_keys =
    ("vendor_id", parse_vendor_id)
    ∷ ("device_id", parse_device_id)
    ∷ ("command", parse_command)
    ∷ ("status", parse_status)
    ∷ ("revision_id", parse_revision_id)
    ∷ ("class_code", parse_class_code)
    ∷ ("cache_line_size", parse_cache_line_size)
    ∷ ("latency_timer", parse_latency_timer)
    ∷ ("header_type", parse_header_type)
    ∷ ("bist", parse_bist)
    ∷ ("cardbus_cis_pointer", parse_cardbus_cis_pointer)
    ∷ ("subsystem_vendor_id", parse_subsystem_vendor_id)
    ∷ ("subsystem_id", parse_subsystem_id)
    ∷ ("expansion_rom_base_address", parse_expansion_rom_base_address)
    ∷ ("capabilities_pointer", parse_capabilities_pointer)
    ∷ ("interrupt_line", parse_interrupt_line)
    ∷ ("interrupt_pin", parse_interrupt_pin)
    ∷ ("min_gnt", parse_min_gnt)
    ∷ ("max_lat", parse_max_lat)
    ∷ []

-- The loop over `parser_keys`; the state stays where no key is equal.
unfoldable pub find_key : String → List (String × ParserState) → ParserState
find_key value [] = parse_key
find_key value ((key, state) ∷ rest) =
    let later = find_key value rest in if value ==ₛ key then state else later

-- What `strtoul` gives: its result, if it read nothing, if it read all, and if the number was out of
-- its range.
pub record Parsed : Type 0 where
  pub number : ℕ
  pub nothing_read : Bool
  pub all_read : Bool
  pub out_of_range : Bool

-- `YAML_NO_EVENT` and the ends of a mapping, of a document and of the stream; a scalar; the others.
pub data YamlEvent : Type 0 where
  ends : YamlEvent
  scalar : String → YamlEvent
  other_event : YamlEvent

abbrev pub store1 : ℕ → ℕ → Mem → Mem
store1 off n m = update m off (u8 n)

-- The bytes of `GET_HI_OF_SPLIT2` and so on, as they are assigned.
abbrev pub store2 : ℕ → ℕ → Mem → Mem
store2 off n m = update (update m (off + 1) (u8 (n >>> 8))) off (bit_and n 0xff)

abbrev pub store3 : ℕ → ℕ → Mem → Mem
store3 off n m =
    update (update (update m (off + 2) (u8 (n >>> 16))) (off + 1) (bit_and (n >>> 8) 0xff)) off
      (bit_and n 0xff)

-- A `uint32_t` member.
abbrev pub store_word : ℕ → ℕ → Mem → Mem
store_word off n m =
    update
      (update (update (update m off (u8 n)) (off + 1) (u8 (n >>> 8))) (off + 2) (u8 (n >>> 16)))
      (off + 3) (u8 (n >>> 24))

abbrev pub split4 : ℕ → ℕ
split4 n =
    bit_or
      (bit_or (bit_or ((n >>> 24) <<< 24) (bit_and (n >>> 16) 0xff <<< 16))
        (bit_and (n >>> 8) 0xff <<< 8))
      (bit_and n 0xff)

-- The inner `switch` in a state that a key selects.
unfoldable pub store_field : ParserState → ℕ → Mem → Mem
store_field parse_vendor_id n m = store2 0 n m
store_field parse_device_id n m = store2 2 n m
store_field parse_command n m = store2 4 n m
store_field parse_status n m = store2 6 n m
store_field parse_revision_id n m = store1 8 n m
store_field parse_class_code n m = store3 9 n m
store_field parse_cache_line_size n m = store1 12 n m
store_field parse_latency_timer n m = store1 13 n m
store_field parse_header_type n m = store1 14 n m
store_field parse_bist n m = store1 15 n m
store_field parse_cardbus_cis_pointer n m = store_word 40 (u32 (split4 n)) m
store_field parse_subsystem_vendor_id n m = store2 44 n m
store_field parse_subsystem_id n m = store2 46 n m
store_field parse_expansion_rom_base_address n m = store_word 48 (u32 (split4 n)) m
store_field parse_capabilities_pointer n m = store1 52 n m
store_field parse_interrupt_line n m = store1 60 n m
store_field parse_interrupt_pin n m = store1 61 n m
store_field parse_min_gnt n m = store1 62 n m
store_field parse_max_lat n m = store1 63 n m
store_field done n m = m
store_field parse_key n m = m

abbrev pub is_key : ParserState → Bool
is_key parse_key = true
is_key _ = false

abbrev pub is_done : ParserState → Bool
is_done done = true
is_done _ = false

-- The results 0, -ERANGE and -1.
pub data ReturnValue : Type 0 where
  success : ReturnValue
  range_error : ReturnValue
  parser_error : ReturnValue

module _ (strtoul : String → Parsed) where
  unfoldable pub next_state : ParserState → String → ParserState
  unfolding find_key
  next_state state value =
      if is_key state then find_key value parser_keys else if is_done state then done else parse_key

  unfoldable pub number_refused : ParserState → String → Bool
  number_refused state value =
      let parsed = strtoul value in
      not (is_key state) && (parsed.nothing_read || not (parsed.all_read) || parsed.out_of_range)

  unfoldable pub process_event : YamlEvent → Mem → ParserState → Mem × ParserState × ReturnValue
  unfolding store_field next_state number_refused
  process_event ends header state = (header, done, success)
  process_event other_event header state = (header, state, success)
  process_event (scalar value) header state = (
    store_field state ((strtoul value).number) header,
    next_state state value,
    if number_refused state value then range_error else success,
  )

  -- The loop over what `yaml_parser_parse` gives: `false` is its failure. After the end of the stream
  -- it goes on with `YAML_NO_EVENT`.
  unfoldable pub read_events : List (Bool × YamlEvent) → Mem → ParserState → Mem × ReturnValue
  unfolding process_event
  read_events [] header state =
      let (header', state', r) = process_event ends header state in (header', r)
  read_events ((parsed, event) ∷ rest) header state =
      let (header', state', r) = process_event event header state in
      let later = read_events rest header' state' in
      if not parsed then (header, parser_error) else elim r [
        | success ↦ if is_done state' then (header', success) else later
        | range_error ↦ (header', range_error)
        | parser_error ↦ (header', parser_error)
      ]

  unfoldable pub pcie_configuration_space_header_from_yaml :
      List (Bool × YamlEvent) → Mem → Mem × ReturnValue
  unfolding read_events
  pcie_configuration_space_header_from_yaml events result = read_events events result parse_key

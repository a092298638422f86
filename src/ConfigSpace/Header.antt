-- ===== src/ConfigSpace/Header.antt =====
-- What the states of the parser do to the header.
use Prim.Native.String.{String}
use warp_pipe.Base.{
  ℕ, ◌+◌, ◌*◌, ◌/◌, ◌%◌, ◌^◌, bit_and, bit_or, u32, ◌≡◌, ◌-◌, refl, ap, ◌∙◌, arith, Bool, true,
  false, List, ◌∷◌, Mem, leb, ltb, ◌&&◌, if◌then◌else◌,
}
use warp_pipe.Base.Bits.{bit_and-mask, bit_or-shift}
use warp_pipe.ConfigSpace.{
  ParserState, Parsed, YamlEvent, scalar, parser_keys, find_key, store_field, process_event,
  read_events, next_state, number_refused, success, done, parse_key, is_key, is_done, split4,
  store1, store2, store3, store_word, parse_vendor_id, parse_device_id, parse_command, parse_status,
  parse_revision_id, parse_class_code, parse_cache_line_size, parse_latency_timer,
  parse_header_type, parse_bist, parse_cardbus_cis_pointer, parse_subsystem_vendor_id,
  parse_subsystem_id, parse_expansion_rom_base_address, parse_capabilities_pointer,
  parse_interrupt_line, parse_interrupt_pin, parse_min_gnt, parse_max_lat,
}

-- Where the member of a state stands in the header, and how many bytes it has.
abbrev pub field_offset : ParserState → ℕ
field_offset parse_vendor_id = 0
field_offset parse_device_id = 2
field_offset parse_command = 4
field_offset parse_status = 6
field_offset parse_revision_id = 8
field_offset parse_class_code = 9
field_offset parse_cache_line_size = 12
field_offset parse_latency_timer = 13
field_offset parse_header_type = 14
field_offset parse_bist = 15
field_offset parse_cardbus_cis_pointer = 40
field_offset parse_subsystem_vendor_id = 44
field_offset parse_subsystem_id = 46
field_offset parse_expansion_rom_base_address = 48
field_offset parse_capabilities_pointer = 52
field_offset parse_interrupt_line = 60
field_offset parse_interrupt_pin = 61
field_offset parse_min_gnt = 62
field_offset parse_max_lat = 63
field_offset _ = 0

abbrev pub field_size : ParserState → ℕ
field_size parse_vendor_id = 2
field_size parse_device_id = 2
field_size parse_command = 2
field_size parse_status = 2
field_size parse_revision_id = 1
field_size parse_class_code = 3
field_size parse_cache_line_size = 1
field_size parse_latency_timer = 1
field_size parse_header_type = 1
field_size parse_bist = 1
field_size parse_cardbus_cis_pointer = 4
field_size parse_subsystem_vendor_id = 2
field_size parse_subsystem_id = 2
field_size parse_expansion_rom_base_address = 4
field_size parse_capabilities_pointer = 1
field_size parse_interrupt_line = 1
field_size parse_interrupt_pin = 1
field_size parse_min_gnt = 1
field_size parse_max_lat = 1
field_size _ = 0

-- The key of a state.
abbrev pub key_of : ParserState → String
key_of parse_vendor_id = "vendor_id"
key_of parse_device_id = "device_id"
key_of parse_command = "command"
key_of parse_status = "status"
key_of parse_revision_id = "revision_id"
key_of parse_class_code = "class_code"
key_of parse_cache_line_size = "cache_line_size"
key_of parse_latency_timer = "latency_timer"
key_of parse_header_type = "header_type"
key_of parse_bist = "bist"
key_of parse_cardbus_cis_pointer = "cardbus_cis_pointer"
key_of parse_subsystem_vendor_id = "subsystem_vendor_id"
key_of parse_subsystem_id = "subsystem_id"
key_of parse_expansion_rom_base_address = "expansion_rom_base_address"
key_of parse_capabilities_pointer = "capabilities_pointer"
key_of parse_interrupt_line = "interrupt_line"
key_of parse_interrupt_pin = "interrupt_pin"
key_of parse_min_gnt = "min_gnt"
key_of parse_max_lat = "max_lat"
key_of _ = ""

-- Each key selects the state of its member, and no other.
pub find_key-key_of :
    (state : ParserState)
    → find_key (key_of state) parser_keys ≡ (if is_done state then parse_key else state)
unfolding find_key
find_key-key_of parse_vendor_id = refl
find_key-key_of parse_device_id = refl
find_key-key_of parse_command = refl
find_key-key_of parse_status = refl
find_key-key_of parse_revision_id = refl
find_key-key_of parse_class_code = refl
find_key-key_of parse_cache_line_size = refl
find_key-key_of parse_latency_timer = refl
find_key-key_of parse_header_type = refl
find_key-key_of parse_bist = refl
find_key-key_of parse_cardbus_cis_pointer = refl
find_key-key_of parse_subsystem_vendor_id = refl
find_key-key_of parse_subsystem_id = refl
find_key-key_of parse_expansion_rom_base_address = refl
find_key-key_of parse_capabilities_pointer = refl
find_key-key_of parse_interrupt_line = refl
find_key-key_of parse_interrupt_pin = refl
find_key-key_of parse_min_gnt = refl
find_key-key_of parse_max_lat = refl
find_key-key_of done = refl
find_key-key_of parse_key = refl

-- A member of `size` bytes at `off` holds the low bytes of `n`, the lowest first, and the rest of the
-- header is as it was.
abbrev pub Holds : ℕ → ℕ → ℕ → Mem → Mem → Type 0
Holds off size n m m' =
    (k : ℕ)
    → m' k ≡ (if leb off k && ltb k (off + size) then n / 2 ^ (8 * (k - off)) % 256 else m k)

Holds-store1 : (off n : ℕ) (m : Mem) → Holds off 1 n m (store1 off n m)
Holds-store1 off n m k = ground arith

Holds-store2 : (off n : ℕ) (m : Mem) → Holds off 2 n m (store2 off n m)
Holds-store2 off n m k = ground (arith, bit_and-mask 8 n)

Holds-store3 : (off n : ℕ) (m : Mem) → Holds off 3 n m (store3 off n m)
Holds-store3 off n m k = ground (arith, bit_and-mask 8 n, bit_and-mask 8 (n / 2 ^ 8))

Holds-store_word : (off n : ℕ) (m : Mem) → Holds off 4 n m (store_word off n m)
Holds-store_word off n m k = ground arith

-- `GET_HI_OF_SPLIT4` and so on take a number apart, and `|` puts it together again.
split4_lem : (n : ℕ) → split4 n ≡ n
split4_lem n =
    let high : bit_or (n / 2 ^ 24 * 2 ^ 24) (bit_and (n / 2 ^ 16) 0xff * 2 ^ 16)
        ≡ n / 2 ^ 16 * 2 ^ 16 =
      omega (
        arith,
        bit_and-mask 8 (n / 2 ^ 16),
        bit_or-shift 24 (n / 2 ^ 24) (bit_and (n / 2 ^ 16) 0xff * 2 ^ 16)
            (omega (arith, bit_and-mask 8 (n / 2 ^ 16))),
      ) in
    let middle : bit_or (n / 2 ^ 16 * 2 ^ 16) (bit_and (n / 2 ^ 8) 0xff * 2 ^ 8)
        ≡ n / 2 ^ 8 * 2 ^ 8 =
      omega (
        arith,
        bit_and-mask 8 (n / 2 ^ 8),
        bit_or-shift 16 (n / 2 ^ 16) (bit_and (n / 2 ^ 8) 0xff * 2 ^ 8)
            (omega (arith, bit_and-mask 8 (n / 2 ^ 8))),
      ) in
    rw (high, middle)
      (omega (
        arith,
        bit_and-mask 8 n,
        bit_or-shift 8 (n / 2 ^ 8) (bit_and n 0xff) (omega (arith, bit_and-mask 8 n)),
      ))

-- Taking the low 32 bits first changes none of the four bytes.
Holds-split4 : (off n : ℕ) (m : Mem) → Holds off 4 n m (store_word off (u32 (split4 n)) m)
Holds-split4 off n m k = rw (split4_lem n) (ground arith)

-- What a number does in any state: the member of the state holds its low bytes, the lowest first,
-- and the rest of the header is as it was.
pub store_field-Holds :
    (state : ParserState) (n : ℕ) (m : Mem)
    → Holds (field_offset state) (field_size state) n m (store_field state n m)
unfolding store_field
store_field-Holds parse_vendor_id n m = Holds-store2 0 n m
store_field-Holds parse_device_id n m = Holds-store2 2 n m
store_field-Holds parse_command n m = Holds-store2 4 n m
store_field-Holds parse_status n m = Holds-store2 6 n m
store_field-Holds parse_revision_id n m = Holds-store1 8 n m
store_field-Holds parse_class_code n m = Holds-store3 9 n m
store_field-Holds parse_cache_line_size n m = Holds-store1 12 n m
store_field-Holds parse_latency_timer n m = Holds-store1 13 n m
store_field-Holds parse_header_type n m = Holds-store1 14 n m
store_field-Holds parse_bist n m = Holds-store1 15 n m
store_field-Holds parse_cardbus_cis_pointer n m = Holds-split4 40 n m
store_field-Holds parse_subsystem_vendor_id n m = Holds-store2 44 n m
store_field-Holds parse_subsystem_id n m = Holds-store2 46 n m
store_field-Holds parse_expansion_rom_base_address n m = Holds-split4 48 n m
store_field-Holds parse_capabilities_pointer n m = Holds-store1 52 n m
store_field-Holds parse_interrupt_line n m = Holds-store1 60 n m
store_field-Holds parse_interrupt_pin n m = Holds-store1 61 n m
store_field-Holds parse_min_gnt n m = Holds-store1 62 n m
store_field-Holds parse_max_lat n m = Holds-store1 63 n m
store_field-Holds done n m = λ k. ground arith
store_field-Holds parse_key n m = λ k. ground arith

goes_on :
    (strtoul : String → Parsed) (event : YamlEvent) (rest : List (Bool × YamlEvent)) (m m' : Mem)
    (state state' : ParserState)
    → process_event strtoul event m state ≡ (m', state', success)
    → is_done state' ≡ false
    → read_events strtoul ((true, event) ∷ rest) m state ≡ read_events strtoul rest m' state'
unfolding read_events
goes_on strtoul event rest m m' state state' e not_done = rw (e, read_events) (rw (e, not_done))

module _ (strtoul : String → Parsed) (state : ParserState) (value : String) (m : Mem)
    (rest : List (Bool × YamlEvent)) (not_key : is_key state ≡ false)
    (not_done : is_done state ≡ false) (accepted : number_refused strtoul state value ≡ false) where
  abbrev stored : Mem
  stored = store_field state ((strtoul value).number) m

  key_read : process_event strtoul (scalar (key_of state)) m parse_key ≡ (m, state, success)
  unfolding process_event
  key_read =
      ap (λ z. (m, z, success))
        (find_key-key_of state ∙ ap (λ b. if b then parse_key else state) not_done)

  number_read : process_event strtoul (scalar value) m state ≡ (stored, parse_key, success)
  unfolding process_event next_state number_refused
  number_read = rw (accepted, not_key, not_done)

  -- An entry with the key of a member and a number that `strtoul` reads whole: the member is stored,
  -- and the loop goes on with the rest of the events as if it had just begun.
  pub read_events-entry :
      read_events strtoul ((true, scalar (key_of state)) ∷ (true, scalar value) ∷ rest) m parse_key
      ≡ read_events strtoul rest stored parse_key
  read_events-entry =
      goes_on strtoul (scalar (key_of state)) ((true, scalar value) ∷ rest) m m parse_key state
        key_read not_done
      ∙ goes_on strtoul (scalar value) rest m stored state parse_key number_read refl

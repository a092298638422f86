-- ===== src/ConfigSpace/Mapping.antt =====
-- A whole mapping of a configuration file: the entries of src/yaml_configspace.c, in any order.
use Prim.Native.String.{String}
use warp_pipe.Base.{
  ℕ, ◌+◌, ◌-◌, ◌*◌, ◌/◌, ◌%◌, ◌^◌, ◌≤◌, ◌<◌, ◌≡◌, ◌≢◌, refl, ap, ◌∙◌, sym, arith, Bool, true, false,
  List, [], ◌∷◌, ◌++◌, Mem, leb, ltb, ◌&&◌, if◌then◌else◌, Bool-cases, inl, inr, zero, suc,
}
use warp_pipe.ConfigSpace.{
  ParserState, Parsed, YamlEvent, scalar, other_event, ends, store_field, read_events,
  pcie_configuration_space_header_from_yaml, number_refused, success, done, parse_key, is_key,
  is_done, parse_vendor_id, parse_device_id, parse_command, parse_status, parse_revision_id,
  parse_class_code, parse_cache_line_size, parse_latency_timer, parse_header_type, parse_bist,
  parse_cardbus_cis_pointer, parse_subsystem_vendor_id, parse_subsystem_id,
  parse_expansion_rom_base_address, parse_capabilities_pointer, parse_interrupt_line,
  parse_interrupt_pin, parse_min_gnt, parse_max_lat,
}
use warp_pipe.ConfigSpace.Header.{
  field_offset, field_size, key_of, store_field-Holds, read_events-entry,
}

-- The key of a member, and the text of its number.
pub record Entry : Type 0 where
  pub field : ParserState
  pub text : String

-- Each entry is for a member, and `strtoul` reads its number whole.
abbrev pub AreRead : (String → Parsed) → List Entry → Type 0
AreRead strtoul [] = Unit {0}
AreRead strtoul (e ∷ es) =
    (is_key e.field ≡ false)
    × (is_done e.field ≡ false)
    × (number_refused strtoul e.field e.text ≡ false)
    × AreRead strtoul es

abbrev pub Lacks : ParserState → List Entry → Type 0
Lacks state [] = Unit {0}
Lacks state (e ∷ es) = (e.field ≢ state) × Lacks state es

abbrev pub events_of : List Entry → List (Bool × YamlEvent) → List (Bool × YamlEvent)
events_of [] rest = rest
events_of (e ∷ es) rest =
    (true, scalar (key_of e.field)) ∷ (true, scalar e.text) ∷ events_of es rest

-- The events before the first key.
abbrev pub opened : ℕ → List (Bool × YamlEvent) → List (Bool × YamlEvent)
opened zero events = events
opened (suc n) events = (true, other_event) ∷ opened n events

opened-skipped :
    (strtoul : String → Parsed) (n : ℕ) (events : List (Bool × YamlEvent)) (m : Mem)
    → read_events strtoul (opened n events) m parse_key ≡ read_events strtoul events m parse_key
unfolding read_events
opened-skipped strtoul zero events m = refl
opened-skipped strtoul (suc n) events m = opened-skipped strtoul n events m

stored_all : (String → Parsed) → List Entry → Mem → Mem
stored_all strtoul [] m = m
stored_all strtoul (e ∷ es) m =
    stored_all strtoul es (store_field e.field ((strtoul e.text).number) m)

reads_all :
    (strtoul : String → Parsed) (es : List Entry) (rest : List (Bool × YamlEvent)) (m : Mem)
    → AreRead strtoul es
    → read_events strtoul (events_of es ((true, ends) ∷ rest)) m parse_key
      ≡ (stored_all strtoul es m, success)
unfolding stored_all read_events
reads_all strtoul [] rest m h = refl
reads_all strtoul (e ∷ es) rest m (not_key, not_done, accepted, h) =
    read_events-entry strtoul e.field e.text m (events_of es ((true, ends) ∷ rest)) not_key not_done
      accepted
    ∙ reads_all strtoul es rest (store_field e.field ((strtoul e.text).number) m) h

-- The member that a byte of the header belongs to.
field_at : ℕ → ParserState
field_at k =
    if ltb k 2
    then parse_vendor_id
    else if ltb k 4
    then parse_device_id
    else if ltb k 6
    then parse_command
    else if ltb k 8
    then parse_status
    else if ltb k 9
    then parse_revision_id
    else if ltb k 12
    then parse_class_code
    else if ltb k 13
    then parse_cache_line_size
    else if ltb k 14
    then parse_latency_timer
    else if ltb k 15
    then parse_header_type
    else if ltb k 16
    then parse_bist
    else if ltb k 40
    then done
    else if ltb k 44
    then parse_cardbus_cis_pointer
    else if ltb k 46
    then parse_subsystem_vendor_id
    else if ltb k 48
    then parse_subsystem_id
    else if ltb k 52
    then parse_expansion_rom_base_address
    else if ltb k 53
    then parse_capabilities_pointer
    else if ltb k 60
    then done
    else if ltb k 61
    then parse_interrupt_line
    else if ltb k 62
    then parse_interrupt_pin
    else if ltb k 63
    then parse_min_gnt
    else if ltb k 64
    then parse_max_lat
    else done

-- No two members share a byte, and none is among the BARs.
field_at-within :
    (state : ParserState) (k : ℕ)
    → field_offset state ≤ k
    → k < field_offset state + field_size state
    → field_at k ≡ state
unfolding field_at
field_at-within parse_key k lo hi = absurd (omega arith)
field_at-within done k lo hi = absurd (omega arith)
field_at-within state k lo hi = ground arith

outside :
    (state : ParserState) (k : ℕ)
    → field_at k ≢ state
    → (leb (field_offset state) k && ltb k (field_offset state + field_size state)) ≡ false
outside state k apart =
    elim (Bool-cases
      (leb (field_offset state) k && ltb k (field_offset state + field_size state))) [
        | inl within ↦
            absurd
              (apart (field_at-within state k (ground (arith, within)) (ground (arith, within))))
        | inr e ↦ e
      ]

-- The entries leave a byte that belongs to the member of none of them.
stored_kept :
    (strtoul : String → Parsed) (es : List Entry) (m : Mem) (k : ℕ)
    → Lacks (field_at k) es
    → stored_all strtoul es m k ≡ m k
unfolding stored_all
stored_kept strtoul [] m k h = refl
stored_kept strtoul (e ∷ es) m k (apart, h) =
    let n : ℕ = (strtoul e.text).number in
    stored_kept strtoul es (store_field e.field n m) k h
    ∙ store_field-Holds e.field n m k
    ∙ rw (outside e.field k (λ same. apart (sym same))) refl

stored_all-append :
    (strtoul : String → Parsed) (es fs : List Entry) (m : Mem)
    → stored_all strtoul (es ++ fs) m ≡ stored_all strtoul fs (stored_all strtoul es m)
unfolding stored_all
stored_all-append strtoul [] fs m = refl
stored_all-append strtoul (e ∷ es) fs m =
    stored_all-append strtoul es fs (store_field e.field ((strtoul e.text).number) m)

Lacks-done : (strtoul : String → Parsed) (es : List Entry) → AreRead strtoul es → Lacks done es
Lacks-done strtoul [] h = tt
Lacks-done strtoul (e ∷ es) (_, not_done, _, h) =
    ((λ same. cc (not_done, ap is_done same)), Lacks-done strtoul es h)

field_stored :
    (strtoul : String → Parsed) (before after : List Entry) (e : Entry) (m : Mem) (k : ℕ)
    → Lacks e.field after
    → k < field_size e.field
    → stored_all strtoul (before ++ e ∷ after) m (field_offset e.field + k)
      ≡ (strtoul e.text).number / 2 ^ (8 * k) % 256
unfolding stored_all
field_stored strtoul before after e m k last lt =
    let n : ℕ = (strtoul e.text).number in
    let i : ℕ = field_offset e.field + k in
    let start = stored_all strtoul before m in
    let own : field_at i ≡ e.field = field_at-within e.field i (omega arith) (omega arith) in
    let inside : (leb (field_offset e.field) i && ltb i (field_offset e.field + field_size e.field))
        ≡ true =
      ground (arith, lt) in
    let place : i - field_offset e.field ≡ k = omega arith in
    ap (λ (s : Mem). s i) (stored_all-append strtoul before (e ∷ after) m)
    ∙ stored_kept strtoul after (store_field e.field n start) i (rw own last)
    ∙ store_field-Holds e.field n start i
    ∙ rw (inside, place) refl

-- A mapping whose entries have the keys of members, in any order, and numbers that `strtoul` reads
-- whole is read with the result 0, after any number of other events (a file begins with three, for
-- the stream, the document and the mapping) and whatever follows the first event that ends one of
-- these. The last entry for a
-- member decides: each byte of the member is that byte of its number, the lowest first. The bytes
-- of the BARs and all behind the header stay as they were.
pub mapping_read :
    (strtoul : String → Parsed) (opening : ℕ) (before after : List Entry) (e : Entry)
    (rest : List (Bool × YamlEvent)) (m : Mem)
    → AreRead strtoul (before ++ e ∷ after)
    → Lacks e.field after
    → let r =
        pcie_configuration_space_header_from_yaml strtoul
          (opened opening (events_of (before ++ e ∷ after) ((true, ends) ∷ rest)))
          m in
      (r.1 ≡ success)
      × ((k : ℕ)
          → k < field_size e.field
          → r.0 (field_offset e.field + k) ≡ (strtoul e.text).number / 2 ^ (8 * k) % 256)
      × ((k : ℕ) → 16 ≤ k → k < 40 → r.0 k ≡ m k)
      × ((k : ℕ) → 64 ≤ k → r.0 k ≡ m k)
unfolding pcie_configuration_space_header_from_yaml field_at
mapping_read strtoul opening before after e rest m h last =
    let es = before ++ e ∷ after in
    let read =
      opened-skipped strtoul opening (events_of es ((true, ends) ∷ rest)) m
      ∙ reads_all strtoul es rest m h in
    let none_left = Lacks-done strtoul es h in
    rw read (
      refl,
      (λ k lt. field_stored strtoul before after e m k last lt),
      (λ k lo hi.
          let bars : field_at k ≡ done = ground (arith, lo, hi) in
          stored_kept strtoul es m k (rw bars none_left)),
      (λ k lo.
          let behind : field_at k ≡ done = ground (arith, lo) in
          stored_kept strtoul es m k (rw behind none_left)),
    )

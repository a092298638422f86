-- ===== src/Client/Handlers.antt =====
-- The handlers of incoming packets in src/client.c. A TLP is handled where it was received, in the
-- client's buffer.
mod Window
pub mod Write
pub mod Completion
pub mod Read
use warp_pipe.Base.{
  ℕ, ◌+◌, ◌-◌, bit_and, bit_or, Bool, true, false, Option, none, List, some, Mem, update, view,
  poke, u64, ◌<<<◌, ◌>>>◌, ◌==◌, ◌&&◌, ◌||◌, not, if◌then◌else◌, ℤ, pos, negsuc, word32,
}
use warp_pipe.Proto.Layout.{
  bits, pcie_proto_tlp, pcie_dllp_ack, pcie_dllp_nak, pcie_tlp_fmt_4dw, pcie_tlp_fmt_data,
  pcie_tlp_mrd32, pcie_tlp_mrd64, pcie_tlp_mrdlk32, pcie_tlp_mrdlk64, pcie_tlp_mwr32,
  pcie_tlp_mwr64, pcie_tlp_iord, pcie_tlp_iowr, pcie_tlp_cpl, pcie_tlp_cpld, pcie_tlp_cr0,
  pcie_tlp_cw0, tlp_type, tlp_fmt, tlp_length_hi, tlp_length_lo, set_tlp_type, set_tlp_fmt,
  set_tlp_length_hi, set_tlp_length_lo, r_tag, r_first_be, r_data32, r_data64, c_byte_count_hi,
  c_byte_count_lo, c_tag, set_c_byte_count_hi, set_c_byte_count_lo, set_c_tag, c_data, dl_type,
}
use warp_pipe.Proto.Header.{has, tlp_data_length_bytes, tlp_req_get_addr}
use warp_pipe.Client.State.{Client, Callback, Host, State, ReadReply, set_client}
use warp_pipe.Client.Bars.{get_bar_idx, size_mask}
use warp_pipe.Client.Send.{at, t_tlp_tlp, client_send_pcie_transport}

-- What `handle_dllp` reports; it changes nothing.
pub data DllpReport : Type 0 where
  ack_nak : ℕ → DllpReport
  credit : DllpReport
  unknown_type : ℕ → DllpReport

unfoldable pub handle_dllp : Mem → DllpReport
handle_dllp pkt =
    if dl_type pkt == pcie_dllp_ack || dl_type pkt == pcie_dllp_nak
    then ack_nak (bit_or (bits 0 4 (pkt 2) <<< 8) (bits 0 8 (pkt 3)))
    else if not (bits 6 2 (pkt 0) == 0) && bits 3 1 (pkt 0) == 0
    then credit
    else unknown_type (dl_type pkt)

-- `pkt` of the handlers.
abbrev pub received_tlp : Client → Mem
received_tlp client = view t_tlp_tlp client.buf

-- `pkt->tlp_fmt << 5 | pkt->tlp_type`
abbrev pub type_code : Mem → ℕ
type_code pkt = bit_or (tlp_fmt pkt <<< 5) (tlp_type pkt)

-- How many bytes of the first word are not enabled.
unfoldable pub first_offset : ℕ → ℕ
first_offset be =
    if bit_and be 7 == 0
    then 3
    else if bit_and be 3 == 0
    then 2
    else if bit_and be 1 == 0
    then 1
    else 0

-- The callback of a BAR and the address within it, for the address of a request.
abbrev in_window : Client → (ℕ → Option Callback) → ℕ → Option Callback × ℕ
in_window client callbacks addr = elim (get_bar_idx client addr) [
  | none ↦ (none, addr)
  | some i ↦ (callbacks i, bit_and addr (size_mask (client.bar_size i)))
]

-- The `switch` of each request handler: its callback, if any, and the address for it.
unfoldable pub read_target : Client → Mem → Option Callback × ℕ
read_target client pkt =
    let addr = tlp_req_get_addr pkt in
    let code = type_code pkt in
    if code == pcie_tlp_iord || code == pcie_tlp_mrd32 || code == pcie_tlp_mrd64
    then in_window client client.bar_read_cb addr
    else if code == pcie_tlp_cr0
    then (client.cfg0_read_cb, addr)
    else (none, addr)

unfoldable pub write_target : Client → Mem → Option Callback × ℕ
write_target client pkt =
    let addr = tlp_req_get_addr pkt in
    let code = type_code pkt in
    if code == pcie_tlp_iowr || code == pcie_tlp_mwr32 || code == pcie_tlp_mwr64
    then in_window client client.bar_write_cb addr
    else if code == pcie_tlp_cw0
    then (client.cfg0_write_cb, addr)
    else (none, addr)

-- The header of the completion that answers `pkt`, in memory from `calloc`.
unfoldable pub completion_header : Mem → ℤ → Mem
completion_header pkt data_len_bytes =
    let t₁ = set_tlp_fmt (pcie_tlp_cpld >>> 5) (λ _. 0) in
    let t₂ = set_tlp_type (bit_and pcie_tlp_cpld 0x1f) t₁ in
    let t₃ = set_tlp_length_hi (tlp_length_hi pkt) t₂ in
    let t₄ = set_tlp_length_lo (tlp_length_lo pkt) t₃ in
    let t₅ = set_c_tag (r_tag pkt) t₄ in
    let t₆ = set_c_byte_count_hi (word32 data_len_bytes >>> 8) t₅ in
    set_c_byte_count_lo (bit_and (word32 data_len_bytes) 0xff) t₆

abbrev pub is_zero : ℤ → Bool
is_zero (pos n) = n == 0
is_zero (negsuc n) = false

-- The completion as it is sent: without the data bit where the callback failed.
unfoldable pub completion : Mem → ℤ → List ℕ → ℤ → Mem
unfolding completion_header
completion pkt data_len_bytes written error =
    let tlp = poke (completion_header pkt data_len_bytes) c_data written in
    at t_tlp_tlp
      (λ _.
        if is_zero error
        then tlp
        else set_tlp_fmt (bit_and (tlp_fmt tlp) (7 - pcie_tlp_fmt_data)) tlp)
      (update (λ _. 0) 0 pcie_proto_tlp)

module _ (host : Host) where
  open host use {World, call_read, call_write, call_completion}

  unfoldable pub handle_memory_read_request : State host → State host
  unfolding read_target client_send_pcie_transport completion
  handle_memory_read_request s =
      let pkt = received_tlp s.client in
      let data_len_bytes = tlp_data_length_bytes pkt in
      let (read_cb, addr) = read_target s.client pkt in
      elim read_cb [
        | none ↦ s
        | some cb ↦
            let reply =
              call_read cb (u64 (addr + first_offset (r_first_be pkt))) data_len_bytes s.client
                s.world in
            let s' : State host = record { client = reply.client; world = reply.world } in
            (client_send_pcie_transport host s'
              (completion pkt data_len_bytes reply.written reply.error)).0
      ]

  unfoldable pub handle_memory_write_request : State host → State host
  unfolding write_target
  handle_memory_write_request s =
      let pkt = received_tlp s.client in
      let data_len = tlp_data_length_bytes pkt in
      let (write_cb, addr) = write_target s.client pkt in
      let payload = if has (tlp_fmt pkt) pcie_tlp_fmt_4dw then r_data64 else r_data32 in
      let offset = first_offset (r_first_be pkt) in
      elim write_cb [
        | none ↦ s
        | some cb ↦
            let (client, world) =
              call_write cb (u64 (addr + offset)) (view (payload + offset) pkt) data_len s.client
                s.world in
            record { client = client; world = world }
      ]

  -- After the callback the tag is read again, from the buffer as it then is.
  unfoldable pub handle_completion : State host → State host
  handle_completion s =
      let pkt = received_tlp s.client in
      elim (s.client.completion_cb (c_tag pkt)) [
        | none ↦ s
        | some cb ↦
            let data_len = bit_or (c_byte_count_hi pkt <<< 8) (c_byte_count_lo pkt) in
            let (client, world) =
              call_completion cb 0 (view c_data pkt) data_len s.client s.world in
            let tag = c_tag (received_tlp client) in
            record {
              client = record client { completion_cb = update client.completion_cb tag none };
              world = world;
            }
      ]

  unfoldable pub handle_tlp : State host → State host
  unfolding handle_memory_read_request handle_memory_write_request handle_completion
  handle_tlp s =
      let code = type_code (received_tlp s.client) in
      if code == pcie_tlp_iord
        || code == pcie_tlp_mrd32
        || code == pcie_tlp_mrd64
        || code == pcie_tlp_cr0
      then handle_memory_read_request s
      else if code == pcie_tlp_iowr
          || code == pcie_tlp_mwr32
          || code == pcie_tlp_mwr64
          || code == pcie_tlp_cw0
      then handle_memory_write_request s
      else if code == pcie_tlp_cpl
      then s
      else if code == pcie_tlp_cpld
      then handle_completion s
      else s

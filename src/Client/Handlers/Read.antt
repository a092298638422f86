-- ===== src/Client/Handlers/Read.antt =====
-- `handle_tlp` on the packet of a `warppipe_read`.
use warp_pipe.Base.{
  ℕ, ◌⊎◌, ◌+◌, ◌*◌, ◌/◌, ◌%◌, ◌^◌, ◌≤◌, ◌<◌, bit_and, ◌≡◌, refl, ap, ◌∙◌, inl, inr, arith,
  Bool-cases, some, Mem, ltb, u64, if◌then◌else◌, pos,
}
use warp_pipe.Base.Bits.{bit_and-mask}
use warp_pipe.Proto.Layout.{r_tag, r_first_be}
use warp_pipe.Proto.Header.{tlp_data_length, tlp_data_length_bytes, tlp_req_get_addr}
use warp_pipe.Proto.Length.{data_length-set_addr, data_length_bytes-set_addr, first_be-set_addr}
use warp_pipe.Proto.Address.{get_addr-set_addr}
use warp_pipe.Proto.Agree.{
  request_data, fmt_ext, type_ext, first_be_ext, data_length_ext, data_length_bytes_ext,
  get_addr_ext,
}
use warp_pipe.Client.State.{Client, Host, State, ReadReply}
use warp_pipe.Client.Bars.{get_bar_idx, size_mask}
use warp_pipe.Client.Send.{client_send_pcie_transport}
use warp_pipe.Client.Handlers.{
  type_code, received_tlp, first_offset, read_target, completion, handle_memory_read_request,
  handle_tlp,
}
use warp_pipe.Client.Handlers.Window.{first_offset-enables, window-found, size_mask-pow, offset_sum}
use warp_pipe.Client.Requests.ReadPacket.{
  request, header, fmt-header, type-header, tag-header, starts,
}

module _ (tag addr len : ℕ) (small : addr < 2 ^ 64) (one : 1 ≤ len) (fits : len + addr % 4 ≤ 4096)
    (p : Mem)
    (agree : (k : ℕ)
      → k < request_data (header tag addr len small)
      → p k ≡ header tag addr len small k) where
  abbrev h : Mem
  h = header tag addr len small

  code_received : type_code p ≡ (if ltb addr 0x1_0000_0000 then 0 else 0x20)
  code_received =
      rw
        (
          fmt_ext p h agree,
          type_ext p h agree,
          fmt-header tag addr len small,
          type-header tag addr len small,
        )
        (ground arith)

  addr_received : tlp_req_get_addr p ≡ addr / 4 * 4
  addr_received = get_addr_ext p h agree ∙ get_addr-set_addr (request tag) addr len small

  length_received : tlp_data_length_bytes p ≡ pos len
  length_received =
      data_length_bytes_ext p h agree ∙ data_length_bytes-set_addr (request tag) addr len one fits

  offset_received : first_offset (r_first_be p) ≡ addr % 4
  offset_received =
      ap first_offset (first_be_ext p h agree ∙ first_be-set_addr (request tag) addr len one)
      ∙ first_offset-enables (addr % 4) len ((len + addr % 4) % 4) (omega arith) one refl

  pub tag_received : tag < 256 → r_tag p ≡ tag
  tag_received lt =
      rw (agree 6 (ground (arith, starts tag addr len small))) (tag-header tag addr len small lt)

  pub words_received : tlp_data_length p ≡ (len + addr % 4 + 3) / 4
  words_received =
      data_length_ext p h agree ∙ data_length-set_addr (request tag) addr len (omega arith) fits

abbrev IsMemoryRead : Mem → Type 0
IsMemoryRead p = (type_code p ≡ 0) ⊎ (type_code p ≡ 0x20)

memory_code :
    (addr : ℕ) (p : Mem)
    → type_code p ≡ (if ltb addr 0x1_0000_0000 then 0 else 0x20)
    → IsMemoryRead p
memory_code addr p e = elim (Bool-cases (ltb addr 0x1_0000_0000)) [
  | inl f ↦ inl (e ∙ ap (λ b. if b then 0 else 0x20) f)
  | inr f ↦ inr (e ∙ ap (λ b. if b then 0 else 0x20) f)
]

handle_tlp-memory :
    (host : Host) (s : State host)
    → IsMemoryRead (received_tlp s.client)
    → handle_tlp host s ≡ handle_memory_read_request host s
unfolding handle_tlp
handle_tlp-memory host s (inl e) = rw (e)
handle_tlp-memory host s (inr e) = rw (e)

target-memory :
    (client : Client) (p : Mem) (i : ℕ)
    → IsMemoryRead p
    → get_bar_idx client (tlp_req_get_addr p) ≡ some i
    → read_target client p
      ≡ (client.bar_read_cb i, bit_and (tlp_req_get_addr p) (size_mask (client.bar_size i)))
unfolding read_target
target-memory client p i (inl e) f = rw (e) (window-found client client.bar_read_cb _ i f)
target-memory client p i (inr e) f = rw (e) (window-found client client.bar_read_cb _ i f)

-- The answer to a request, from what the callback gives.
abbrev pub reply_sent : (host : Host) → Mem → ℕ → ReadReply host.World → State host
reply_sent host p len reply =
    (client_send_pcie_transport host (record { client = reply.client; world = reply.world })
      (completion p (pos len) reply.written reply.error)).0

memory_read :
    (host : Host) (s : State host) (cb a d x len : ℕ)
    → read_target s.client (received_tlp s.client) ≡ (some cb, a)
    → first_offset (r_first_be (received_tlp s.client)) ≡ d
    → tlp_data_length_bytes (received_tlp s.client) ≡ pos len
    → u64 (a + d) ≡ x
    → handle_memory_read_request host s
      ≡ reply_sent host (received_tlp s.client) len (host.call_read cb x (pos len) s.client s.world)
unfolding handle_memory_read_request
memory_read host s cb a d x len target offset len_e sum =
    rw (target, handle_memory_read_request) (rw (offset, len_e, target, sum))

-- A memory read of a 64-bit address, of 1 byte to as many as 1024 words hold, that arrives whole, is
-- handed to the read callback of the BAR that is found for its word, if this has `2 ^ k` bytes for a
-- `k` from 2 to 31: with the address within the BAR and the number of bytes that were asked for; and
-- what the callback gives is sent as the completion for this request.
pub handle_tlp-read :
    (host : Host) (s : State host) (tag addr len i k cb : ℕ) (small : addr < 2 ^ 64)
    → 1 ≤ len
    → len + addr % 4 ≤ 4096
    → ((j : ℕ)
        → j < request_data (header tag addr len small)
        → received_tlp s.client j ≡ header tag addr len small j)
    → get_bar_idx s.client (addr / 4 * 4) ≡ some i
    → s.client.bar_size i ≡ 2 ^ k
    → 2 ≤ k
    → k < 32
    → s.client.bar_read_cb i ≡ some cb
    → handle_tlp host s
      ≡ reply_sent host
          (received_tlp s.client)
          len
          (host.call_read cb (addr % 2 ^ k) (pos len) s.client s.world)
handle_tlp-read host s tag addr len i k cb small one fits agree found size lo hi called =
    let p = received_tlp s.client in
    let memory : IsMemoryRead p =
      memory_code addr p (code_received tag addr len small one fits p agree) in
    let at = addr_received tag addr len small one fits p agree in
    let target : read_target s.client p ≡ (some cb, addr / 4 * 4 % 2 ^ k) =
      target-memory s.client p i memory (ap (get_bar_idx s.client) at ∙ found)
      ∙ rw (called, at, size, size_mask-pow k hi, bit_and-mask k (addr / 4 * 4)) refl in
    handle_tlp-memory host s memory
    ∙ memory_read host s cb (addr / 4 * 4 % 2 ^ k) (addr % 4) (addr % 2 ^ k) len target
        (offset_received tag addr len small one fits p agree)
        (length_received tag addr len small one fits p agree) (offset_sum addr k lo hi)

-- ===== src/Client/Handlers/Write.antt =====
-- `handle_tlp` on the packet of a `warppipe_write`.
use warp_pipe.Base.{
  ℕ, ◌⊎◌, ◌+◌, ◌*◌, ◌/◌, ◌%◌, ◌^◌, ◌≤◌, ◌<◌, bit_and, ◌≡◌, refl, ap, ◌∙◌, inl, inr, arith,
  Bool-cases, some, List, Mem, length, view, slice, slice_ext, ltb, u64, if◌then◌else◌, pos,
}
use native.Mathlib.Nat.{add-zero}
use warp_pipe.Base.Bits.{bit_and-mask}
use warp_pipe.Base.Copy.{slice-view}
use warp_pipe.Proto.Layout.{r_first_be, pcie_tlp_mwr64}
use warp_pipe.Proto.Header.{tlp_total_length, tlp_data_length_bytes, tlp_req_get_addr}
use warp_pipe.Proto.Length.{data_length_bytes-set_addr, first_be-set_addr}
use warp_pipe.Proto.Address.{get_addr-set_addr}
use warp_pipe.Proto.Agree.{
  request_data, fmt_ext, type_ext, first_be_ext, data_length_bytes_ext, get_addr_ext,
}
use warp_pipe.Client.State.{Client, Host, State}
use warp_pipe.Client.Bars.{get_bar_idx, size_mask}
use warp_pipe.Client.Handlers.{
  type_code, received_tlp, first_offset, write_target, handle_memory_write_request, handle_tlp,
}
use warp_pipe.Client.Handlers.Window.{first_offset-enables, window-found, size_mask-pow, offset_sum}
use warp_pipe.Client.Requests.{set_code, write_tlp}
use warp_pipe.Client.Requests.Packet.{
  header, written, words, fmt-header, type-header, written_header, written_data, total-written,
}

module _ (junk : Mem) (addr : ℕ) (bytes : List ℕ) (small : addr < 2 ^ 64)
    (some_bytes : 1 ≤ length bytes) (fits : length bytes + addr % 4 ≤ 4096) (p : Mem) (t : ℕ)
    (sized : tlp_total_length (write_tlp junk addr bytes pcie_tlp_mwr64) ≡ pos t)
    (agree : (k : ℕ) → k < t → p k ≡ write_tlp junk addr bytes pcie_tlp_mwr64 k) where
  abbrev h : Mem
  h = header junk addr bytes small some_bytes fits

  long : t ≡ request_data h + words junk addr bytes small some_bytes fits * 4
  long = ground (arith, sized, total-written junk addr bytes small some_bytes fits)

  same : (k : ℕ) → k < request_data h → p k ≡ h k
  same k lt =
      agree k (omega (arith, long)) ∙ written_header junk addr bytes small some_bytes fits k lt

  data_start : request_data p ≡ request_data h
  data_start = rw (fmt_ext p h same)

  code_received : type_code p ≡ (if ltb addr 0x1_0000_0000 then 0x40 else 0x60)
  code_received =
      rw
        (
          fmt_ext p h same,
          type_ext p h same,
          fmt-header junk addr bytes small some_bytes fits,
          type-header junk addr bytes small some_bytes fits,
        )
        (ground arith)

  addr_received : tlp_req_get_addr p ≡ addr / 4 * 4
  addr_received =
      get_addr_ext p h same
      ∙ get_addr-set_addr (set_code pcie_tlp_mwr64 junk) addr (length bytes) small

  length_received : tlp_data_length_bytes p ≡ pos (length bytes)
  length_received =
      data_length_bytes_ext p h same
      ∙ data_length_bytes-set_addr (set_code pcie_tlp_mwr64 junk) addr (length bytes) some_bytes
          fits

  offset_received : first_offset (r_first_be p) ≡ addr % 4
  offset_received =
      ap first_offset (
        first_be_ext p h same
        ∙ first_be-set_addr (set_code pcie_tlp_mwr64 junk) addr (length bytes) some_bytes)
      ∙ first_offset-enables (addr % 4) (length bytes) ((length bytes + addr % 4) % 4) (omega arith)
          some_bytes refl

  data_received : slice p (request_data p + addr % 4) (length bytes) ≡ bytes
  data_received =
      ap (λ d. slice p (d + addr % 4) (length bytes)) data_start
      ∙ slice_ext p (written junk addr bytes small some_bytes fits) (request_data h + addr % 4)
          (length bytes) (λ k lo hi. agree k (omega (arith, long)))
      ∙ written_data junk addr bytes small some_bytes fits

abbrev IsMemoryWrite : Mem → Type 0
IsMemoryWrite p = (type_code p ≡ 0x40) ⊎ (type_code p ≡ 0x60)

memory_code :
    (addr : ℕ) (p : Mem)
    → type_code p ≡ (if ltb addr 0x1_0000_0000 then 0x40 else 0x60)
    → IsMemoryWrite p
memory_code addr p e = elim (Bool-cases (ltb addr 0x1_0000_0000)) [
  | inl f ↦ inl (e ∙ ap (λ b. if b then 0x40 else 0x60) f)
  | inr f ↦ inr (e ∙ ap (λ b. if b then 0x40 else 0x60) f)
]

handle_tlp-memory :
    (host : Host) (s : State host)
    → IsMemoryWrite (received_tlp s.client)
    → handle_tlp host s ≡ handle_memory_write_request host s
unfolding handle_tlp
handle_tlp-memory host s (inl e) = rw (e)
handle_tlp-memory host s (inr e) = rw (e)

target-memory :
    (client : Client) (p : Mem) (i : ℕ)
    → IsMemoryWrite p
    → get_bar_idx client (tlp_req_get_addr p) ≡ some i
    → write_target client p
      ≡ (client.bar_write_cb i, bit_and (tlp_req_get_addr p) (size_mask (client.bar_size i)))
unfolding write_target
target-memory client p i (inl e) f = rw (e) (window-found client client.bar_write_cb _ i f)
target-memory client p i (inr e) f = rw (e) (window-found client client.bar_write_cb _ i f)

memory_write :
    (host : Host) (s : State host) (cb a d x len : ℕ)
    → write_target s.client (received_tlp s.client) ≡ (some cb, a)
    → first_offset (r_first_be (received_tlp s.client)) ≡ d
    → tlp_data_length_bytes (received_tlp s.client) ≡ pos len
    → u64 (a + d) ≡ x
    → handle_memory_write_request host s ≡ (
        let (client, world) =
          host.call_write cb x
            (view (request_data (received_tlp s.client) + d) (received_tlp s.client))
            (pos len)
            s.client
            s.world in
        record { client = client; world = world })
unfolding handle_memory_write_request
memory_write host s cb a d x len target offset len_e sum =
    rw (target, handle_memory_write_request) (rw (offset, len_e, target, sum))

-- A memory write to a 64-bit address, of 1 byte to as many as 1024 words hold, that arrives whole,
-- from its header to its last data word, is handed to the write callback of the BAR that is found
-- for its word, if this has `2 ^ k` bytes for a `k` from 2 to 31: with the address within the BAR,
-- the number of bytes that were written, and just these bytes.
pub handle_tlp-write :
    (host : Host) (s : State host) (junk : Mem) (addr : ℕ) (bytes : List ℕ) (t i k cb : ℕ)
    → addr < 2 ^ 64
    → 1 ≤ length bytes
    → length bytes + addr % 4 ≤ 4096
    → tlp_total_length (write_tlp junk addr bytes pcie_tlp_mwr64) ≡ pos t
    → ((j : ℕ) → j < t → received_tlp s.client j ≡ write_tlp junk addr bytes pcie_tlp_mwr64 j)
    → get_bar_idx s.client (addr / 4 * 4) ≡ some i
    → s.client.bar_size i ≡ 2 ^ k
    → 2 ≤ k
    → k < 32
    → s.client.bar_write_cb i ≡ some cb
    → (payload : Mem) × (handle_tlp host s ≡ (
        let (client, world) =
          host.call_write cb (addr % 2 ^ k) payload (pos (length bytes)) s.client s.world in
        record { client = client; world = world }))
      × (slice payload 0 (length bytes) ≡ bytes)
handle_tlp-write host s junk addr bytes t i k cb small one fits sized agree found size lo hi
      called =
    let p = received_tlp s.client in
    let memory : IsMemoryWrite p =
      memory_code addr p (code_received junk addr bytes small one fits p t sized agree) in
    let at = addr_received junk addr bytes small one fits p t sized agree in
    let target : write_target s.client p ≡ (some cb, addr / 4 * 4 % 2 ^ k) =
      target-memory s.client p i memory (ap (get_bar_idx s.client) at ∙ found)
      ∙ rw (called, at, size, size_mask-pow k hi, bit_and-mask k (addr / 4 * 4)) refl in
    (
      view (request_data p + addr % 4) p,
      handle_tlp-memory host s memory
          ∙ memory_write host s cb (addr / 4 * 4 % 2 ^ k) (addr % 4) (addr % 2 ^ k) (length bytes)
              target (offset_received junk addr bytes small one fits p t sized agree)
              (length_received junk addr bytes small one fits p t sized agree)
              (offset_sum addr k lo hi),
      slice-view (request_data p + addr % 4) p 0 (length bytes)
          ∙ ap (λ o. slice p o (length bytes)) (add-zero (request_data p + addr % 4))
          ∙ data_received junk addr bytes small one fits p t sized agree,
    )

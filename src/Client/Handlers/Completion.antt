-- ===== src/Client/Handlers/Completion.antt =====
-- The completion that answers a read request, from its header to the completion callback.
use warp_pipe.Base.{
  ℕ, ◌+◌, ◌*◌, ◌/◌, ◌%◌, ◌^◌, ◌≤◌, ◌<◌, bit_or, ◌≡◌, refl, ap, sym, ◌∙◌, inl, inr, arith, some,
  none, List, Mem, length, update, view, slice, slice_ext, slice-poke, poke, poke_below, ◌<<<◌, pos,
}
use native.Mathlib.Nat.{mod-eq_of_lt}
use warp_pipe.Base.Bits.{bit_and-mask, bit_or-shift}
use warp_pipe.Base.Copy.{slice-view}
use warp_pipe.Proto.Fields.{fields, bits-lt}
use warp_pipe.Proto.Layout.{
  tlp_fmt, tlp_type, tlp_length_hi, tlp_length_lo, r_tag, c_tag, c_byte_count_hi, c_byte_count_lo,
  c_data,
}
use warp_pipe.Proto.Header.{tlp_data_length, tlp_total_length}
use warp_pipe.Proto.Request.{tlp_total_length_cases}
use warp_pipe.Crc.Lcrc.{tlp_total_length_ext}
use warp_pipe.Client.State.{Host, State}
use warp_pipe.Client.Handlers.{
  type_code, received_tlp, completion_header, handle_completion, handle_tlp,
}

module _ (p : Mem) (len : ℕ) (small : len < 4096) where
  abbrev pub answer : Mem
  answer = completion_header p (pos len)

  fmt_type : (tlp_fmt answer ≡ 2) × (tlp_type answer ≡ 10)
  unfolding completion_header
  fmt_type = (simp fields, simp fields)

  tag-answer : c_tag answer ≡ r_tag p
  unfolding completion_header
  tag-answer = simp fields (mod-eq_of_lt (bits-lt 0 8 (p 6) (omega arith)))

  lengths : (tlp_length_hi answer ≡ tlp_length_hi p) × (tlp_length_lo answer ≡ tlp_length_lo p)
  unfolding completion_header
  lengths = (
    simp fields (mod-eq_of_lt (bits-lt 0 2 (p 2) (omega arith))),
    simp fields (mod-eq_of_lt (bits-lt 0 8 (p 3) (omega arith))),
  )

  count-answer : bit_or (c_byte_count_hi answer <<< 8) (c_byte_count_lo answer) ≡ len
  unfolding completion_header
  count-answer =
      simp (fields, bit_and-mask 8 (len % 2 ^ 32))
        (bit_or-shift 8 (len % 2 ^ 32 / 2 ^ 8 % 16) (len % 2 ^ 32 % 2 ^ 8 % 256) (omega arith)
          ∙ omega arith)

  -- The completion with its data.
  module _ (written : List ℕ) where
    abbrev pub tlp : Mem
    tlp = poke answer c_data written

    tlp_header : (k : ℕ) → k < 12 → tlp k ≡ answer k
    tlp_header k lt = poke_below answer c_data written k lt

    data_length-answer : tlp_data_length answer ≡ tlp_data_length p
    unfolding tlp_data_length
    data_length-answer = rw (lengths.0, lengths.1) refl

    pub total-tlp : tlp_total_length tlp ≡ pos (12 + tlp_data_length p * 4)
    total-tlp =
        tlp_total_length_ext tlp answer (tlp_header 0 (omega arith)) (tlp_header 2 (omega arith))
          (tlp_header 3 (omega arith))
        ∙ elim (tlp_total_length_cases answer) [
          | inl (known, e) ↦ e ∙ ap pos (ground (arith, fmt_type.0, data_length-answer))
          | inr (unknown, e) ↦ absurd (ground (arith, fmt_type.0))
        ]

    -- Where a packet agrees with the completion over the whole of its length.
    module _ (q : Mem) (agree : (k : ℕ) → k < 12 + tlp_data_length p * 4 → q k ≡ tlp k) where
      header_of : (k : ℕ) → k < 12 → q k ≡ answer k
      header_of k lt = agree k (omega arith) ∙ tlp_header k lt

      pub code-tlp : type_code q ≡ 0x4a
      code-tlp = rw (header_of 0 (omega arith)) (rw (fmt_type.0, fmt_type.1) refl)

      pub tag-tlp : c_tag q ≡ r_tag p
      tag-tlp = rw (header_of 10 (omega arith)) tag-answer

      pub count-tlp : bit_or (c_byte_count_hi q <<< 8) (c_byte_count_lo q) ≡ len
      count-tlp = rw (header_of 6 (omega arith), header_of 7 (omega arith)) count-answer

      pub data-tlp :
          length written ≡ len → len ≤ tlp_data_length p * 4 → slice (view c_data q) 0 len ≡ written
      data-tlp e le =
          slice-view c_data q 0 len
          ∙ slice_ext q tlp 12 len (λ k lo hi. agree k (omega (arith, le)))
          ∙ ap (λ (n : ℕ). slice tlp c_data n) (sym e)
          ∙ slice-poke answer c_data written

handle_tlp-cpld :
    (host : Host) (s : State host)
    → type_code (received_tlp s.client) ≡ 0x4a
    → handle_tlp host s ≡ handle_completion host s
unfolding handle_tlp
handle_tlp-cpld host s e = rw (e)

completion_called :
    (host : Host) (s : State host) (tag n cb : ℕ)
    → c_tag (received_tlp s.client) ≡ tag
    → bit_or
        (c_byte_count_hi (received_tlp s.client) <<< 8)
        (c_byte_count_lo (received_tlp s.client))
      ≡ n
    → s.client.completion_cb tag ≡ some cb
    → handle_completion host s ≡ (
        let (client, world) =
          host.call_completion cb 0 (view c_data (received_tlp s.client)) n s.client s.world in
        record {
          client = record client {
            completion_cb = update client.completion_cb (c_tag (received_tlp client)) none;
          };
          world = world;
        })
unfolding handle_completion
completion_called host s tag n cb tag_e count_e called =
    let there : s.client.completion_cb (c_tag (received_tlp s.client)) ≡ some cb =
      ap s.client.completion_cb tag_e ∙ called in
    rw (there, handle_completion) (rw (count_e) refl)

-- A completion that arrives whole, for a tag that has a callback, is handed to it, with its byte
-- count and its bytes; then the callback of the tag that the buffer holds is forgotten.
pub handle_tlp-completion :
    (host : Host) (s : State host) (p : Mem) (written : List ℕ) (cb : ℕ)
    → length written < 4096
    → length written ≤ tlp_data_length p * 4
    → ((k : ℕ)
        → k < 12 + tlp_data_length p * 4
        → received_tlp s.client k
          ≡ poke (completion_header p (pos (length written))) c_data written k)
    → s.client.completion_cb (r_tag p) ≡ some cb
    → (payload : Mem) × (handle_tlp host s ≡ (
        let (client, world) = host.call_completion cb 0 payload (length written) s.client s.world in
        record {
          client = record client {
            completion_cb = update client.completion_cb (c_tag (received_tlp client)) none;
          };
          world = world;
        }))
      × (slice payload 0 (length written) ≡ written)
handle_tlp-completion host s p written cb small fits agree called =
    let q = received_tlp s.client in
    let n = length written in
    (
      view c_data q,
      handle_tlp-cpld host s (code-tlp p n small written q agree)
          ∙ completion_called host s (r_tag p) n cb (tag-tlp p n small written q agree)
              (count-tlp p n small written q agree) called,
      data-tlp p n small written q agree refl fits,
    )

-- ===== src/Client/Receive/RoundTrip.antt =====
-- A read request and its answer: from the request of one client, through the read callback of its
-- peer, back to the completion callback of the first.
use warp_pipe.Base.{
  ℕ, ◌+◌, ◌*◌, ◌/◌, ◌%◌, ◌^◌, ◌≤◌, ◌<◌, ◌≡◌, refl, ap, sym, ◌∙◌, arith, some, List, ◌++◌, Mem,
  length, pos, ℤ,
}
use warp_pipe.Proto.Layout.{pcie_proto_tlp}
use warp_pipe.Client.State.{Client, Host, State, ReadReply}
use warp_pipe.Client.Bars.{get_bar_idx}
use warp_pipe.Client.Send.{
  next_seqno, finish_tlp, packet_bytes, send_bytes, client_send_pcie_transport,
}
use warp_pipe.Client.Send.Wire.{send_tlp}
use warp_pipe.Client.Handlers.{completion}
use warp_pipe.Client.Handlers.Read.{reply_sent}
use warp_pipe.Client.Receive.{returned, warppipe_client_read}
use warp_pipe.Client.Receive.Fill.{Delivers}
use warp_pipe.Client.Receive.Read.{sent, answered, read_arrives}
use warp_pipe.Client.Receive.Completion.{Completes, completion_arrives}

-- The bytes of a successful answer to the request `p`, with the next sequence number.
abbrev pub answer_bytes : Client → Mem → List ℕ → List ℕ
answer_bytes client p written =
    packet_bytes
      (finish_tlp (next_seqno client.seqno) (completion p (pos (length written)) written (pos 0)))

is_tlp :
    (p : Mem) (written : List ℕ)
    → completion p (pos (length written)) written (pos 0) 0 ≡ pcie_proto_tlp
unfolding completion
is_tlp p written = refl

reply_sent-bytes :
    (host : Host) (p : Mem) (len : ℕ) (reply : ReadReply host.World)
    → reply.error ≡ pos 0
    → length reply.written ≡ len
    → reply_sent host p len reply
      ≡ (send_bytes host
          (record {
            client = record (reply.client) { seqno = next_seqno reply.client.seqno };
            world = reply.world;
          })
          (answer_bytes reply.client p reply.written)).0
reply_sent-bytes host p len reply ok whole =
    let s : State host = record { client = reply.client; world = reply.world } in
    let same : completion p (pos len) reply.written reply.error
        ≡ completion p (pos (length reply.written)) reply.written (pos 0) =
      ap (completion p (pos len) reply.written) ok
      ∙ ap (λ (n : ℕ). completion p (pos n) reply.written (pos 0)) (sym whole) in
    ap (λ (t : Mem). (client_send_pcie_transport host s t).0) same
    ∙ ap (λ (r : State host × ℤ). r.0)
        (send_tlp host s (completion p (pos (length reply.written)) reply.written (pos 0))
          (is_tlp p reply.written))

module _ (a b : Host) (net_a : Delivers a) (net_b : Delivers b) (s : State b) (ys zs : List ℕ)
    (seqno tag addr len i k cb cb_a : ℕ) (arriving : List ℕ → State a) where
  -- The peer answers with what its callback gives, and the client gets just that.
  abbrev pub RoundTrips : Type 0
  RoundTrips =
      (asked : State b) × (p : Mem) × (warppipe_client_read b s
        ≡ returned (
            let reply = b.call_read cb (addr % 2 ^ k) (pos len) asked.client asked.world in
            (send_bytes b
              (record {
                client = record (reply.client) { seqno = next_seqno reply.client.seqno };
                world = reply.world;
              })
              (answer_bytes reply.client p reply.written)).0))
      × (let reply = b.call_read cb (addr % 2 ^ k) (pos len) asked.client asked.world in
          (length reply.written ≡ len)
          × Completes a net_a (arriving (answer_bytes reply.client p reply.written)) zs p
              reply.written (next_seqno reply.client.seqno) cb_a)

  -- A read comes back. Let the bytes of a read request of 1 to 4095 bytes, which fit in 1024 words,
  -- with a tag below 256, be next in the stream of a peer whose BAR `i` of `2 ^ k` bytes, for a `k` from
  -- 2 to 31, is found for the word of the 64-bit address and has a read callback; and let this succeed
  -- and write as many bytes as it is asked for. Then the peer, in one step, calls it with the address
  -- within the BAR and hands the bytes of an answer to `send`; and a client that waits for the tag of
  -- the request, with the bytes of this answer next in its stream, in one step hands the completion
  -- callback this number of bytes, just as the read callback wrote them.
  pub read_round_trip :
      addr < 2 ^ 64
      → 1 ≤ len
      → len < 4096
      → len + addr % 4 ≤ 4096
      → tag < 256
      → net_b.incoming s.world ≡ sent b net_b s ys seqno tag addr len i k cb ++ ys
      → get_bar_idx s.client (addr / 4 * 4) ≡ some i
      → s.client.bar_size i ≡ 2 ^ k
      → 2 ≤ k
      → k < 32
      → s.client.bar_read_cb i ≡ some cb
      → ((x : State b)
          → ((b.call_read cb (addr % 2 ^ k) (pos len) x.client x.world).error ≡ pos 0)
            × (length (b.call_read cb (addr % 2 ^ k) (pos len) x.client x.world).written ≡ len))
      → ((bytes : List ℕ) → net_a.incoming (arriving bytes).world ≡ bytes ++ zs)
      → ((bytes : List ℕ) → (arriving bytes).client.completion_cb tag ≡ some cb_a)
      → RoundTrips
  read_round_trip small one below fits tag_lt there found size lo hi called succeeds arrives waits =
      let (w, p, runs, tag_p, words_p, rest) =
        read_arrives b net_b s ys seqno tag addr len i k cb small one fits tag_lt there found size
          lo hi called in
      let asked = answered b net_b s ys seqno tag addr len i k cb w in
      let reply = b.call_read cb (addr % 2 ^ k) (pos len) asked.client asked.world in
      let (ok, whole) = succeeds asked in
      let bytes = answer_bytes reply.client p reply.written in
      (
        asked,
        p,
        runs ∙ ap returned (reply_sent-bytes b p len reply ok whole),
        (
          whole,
          completion_arrives a net_a (arriving bytes) zs p reply.written
              (next_seqno reply.client.seqno) cb_a (omega (arith, whole, below))
              (omega (arith, whole, words_p)) (arrives bytes)
              (ap (arriving bytes).client.completion_cb tag_p ∙ waits bytes),
        ),
      )

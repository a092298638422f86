-- ===== src/Client/Requests/Read.antt =====
-- What `warppipe_read` does to the client.
use warp_pipe.Base.{
  ℕ, ◌+◌, ◌%◌, ◌^◌, ◌≡◌, refl, ◌∙◌, true, false, Option, List, Mem, length, update, u64, ◌==◌,
  ==_refl, pos,
}
use warp_pipe.Proto.Layout.{pcie_tlp_mrd64, pcie_proto_tlp}
use warp_pipe.Client.State.{Client, Callback, Host, State, set_client}
use warp_pipe.Client.Send.{
  next_seqno, finish_tlp, packet_bytes, send_bytes, client_send_pcie_transport,
}
use warp_pipe.Client.Send.Wire.{send_tlp}
use warp_pipe.Client.Requests.{read_packet, warppipe_read_imp, warppipe_read}

-- The bytes of a read request of the client.
abbrev pub request_bytes : Client → ℕ → ℕ → List ℕ
request_bytes client addr len =
    packet_bytes
      (finish_tlp (next_seqno client.seqno) (read_packet client.read_tag addr len pcie_tlp_mrd64))

sent_whole :
    (host : Host) (s : State host) (bytes : List ℕ) (w : host.World)
    → host.send s.client.fd bytes s.world ≡ (pos (length bytes), w)
    → send_bytes host s bytes ≡ (record s { world = w }, pos (length bytes))
unfolding send_bytes
sent_whole host s bytes w e = rw e (rw (==_refl (length bytes)) refl)

module _ (host : Host) (s : State host) (addr len : ℕ) (cb : Option Callback) (w : host.World)
    (sent : (let bytes = request_bytes s.client addr len in
      host.send s.client.fd bytes s.world ≡ (pos (length bytes), w))) where
  abbrev counted : State host
  counted = set_client s (record (s.client) { read_tag = (s.client.read_tag + 1) % 2 ^ 5 })

  abbrev packet : Mem
  packet = read_packet s.client.read_tag addr len pcie_tlp_mrd64

  starts_tlp : packet 0 ≡ pcie_proto_tlp
  unfolding read_packet
  starts_tlp = refl

  packet_sent : client_send_pcie_transport host counted packet ≡ (
    record {
      client = record (s.client) {
        seqno = next_seqno s.client.seqno;
        read_tag = (s.client.read_tag + 1) % 2 ^ 5;
      };
      world = w;
    },
    pos (length (request_bytes s.client addr len)),
  )
  packet_sent =
      send_tlp host counted packet starts_tlp
      ∙ sent_whole host
          (set_client counted (record (counted.client) { seqno = next_seqno s.client.seqno }))
          (request_bytes s.client addr len) w sent

  pub imp_sent : warppipe_read_imp host s addr len cb pcie_tlp_mrd64 ≡ (
    record {
      client = record (s.client) {
        seqno = next_seqno s.client.seqno;
        read_tag = (s.client.read_tag + 1) % 2 ^ 5;
        completion_cb = update s.client.completion_cb s.client.read_tag cb;
      };
      world = w;
    },
    true,
  )
  unfolding warppipe_read_imp
  imp_sent = rw (packet_sent, warppipe_read_imp) refl

-- A read request is made. For a BAR that has an address, where the socket takes the whole packet,
-- `warppipe_read` returns 0: it has sent the request for the address within the BAR, with the next
-- sequence number and the current tag; the callback waits under this tag, the next tag is the next
-- one modulo 32, and nothing else of the client is changed.
pub read_requested :
    (host : Host) (s : State host) (i addr len : ℕ) (cb : Option Callback) (w : host.World)
    → (s.client.bar i == 0) ≡ false
    → (let bytes = request_bytes s.client (u64 (s.client.bar i + addr)) len in
        host.send s.client.fd bytes s.world ≡ (pos (length bytes), w))
    → warppipe_read host s i addr len cb ≡ (
      record {
        client = record (s.client) {
          seqno = next_seqno s.client.seqno;
          read_tag = (s.client.read_tag + 1) % 2 ^ 5;
          completion_cb = update s.client.completion_cb s.client.read_tag cb;
        };
        world = w;
      },
      true,
    )
unfolding warppipe_read
read_requested host s i addr len cb w used sent =
    rw used (imp_sent host s (u64 (s.client.bar i + addr)) len cb w sent)

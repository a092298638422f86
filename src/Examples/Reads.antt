-- ===== src/Examples/Reads.antt =====
-- A read request and its completion on concrete clients, and a field of a concrete configuration
-- space.
use warp_pipe.Base.{
  ℕ, ◌+◌, ◌%◌, ◌≡◌, refl, ap, arith, true, false, Option, none, some, List, [], ◌∷◌, ◌++◌, Mem,
  update, pos,
}
use warp_pipe.Proto.Layout.{bits, r_tag, pcie_tlp_mrd64}
use warp_pipe.Proto.Header.{tlp_data_length}
use warp_pipe.Client.State.{Client, Host, State}
use warp_pipe.Client.Bars.{get_bar_idx}
use warp_pipe.Client.Send.{finish_tlp, packet_bytes}
use warp_pipe.Client.Requests.{warppipe_read, read_packet}
use warp_pipe.Client.Requests.Read.{read_requested}
use warp_pipe.Client.Receive.Fill.{Delivers}
use warp_pipe.Client.Receive.RoundTrip.{RoundTrips, read_round_trip}
use warp_pipe.Client.Receive.Read.{Served, read_arrives}
use warp_pipe.Client.Receive.Completion.{Completes, completion_arrives}
use warp_pipe.Client.Handlers.{completion}
use warp_pipe.Zephyr.{Link, Completed}
use warp_pipe.Examples.Pipe.{pipe, pipe_delivers, zeroed}

-- A host that knows where its peer has BAR 0, and the next tag of which is 31.
abbrev host_client : Client
host_client = record zeroed { bar = update (λ _. 0) 0 0x4000; read_tag = 31 }

read_requested_test :
    warppipe_read pipe (record { client = host_client; world = [] }) 0 0x10 8 (some 3) ≡ (
      record {
        client = record host_client {
          seqno = 1;
          read_tag = 0;
          completion_cb = update (λ _. none) 31 (some 3);
        };
        world = [];
      },
      true,
    )
read_requested_test =
    read_requested pipe (record { client = host_client; world = [] }) 0 0x10 8 (some 3) [] refl refl

-- The peer, with a read callback for its BAR 0 of 4 KiB, and the request in its stream.
abbrev peer : Client
peer = record zeroed {
  bar = update (λ _. 0) 0 0x4000;
  bar_size = update (λ _. 0) 0 0x1000;
  bar_read_cb = update (λ _. none) 0 (some 5);
}

abbrev request_sent : List ℕ
request_sent = packet_bytes (finish_tlp 1 (read_packet 31 0x4010 8 pcie_tlp_mrd64))

abbrev asked : State pipe
asked = record { client = peer; world = request_sent ++ [] }

found : get_bar_idx peer 0x4010 ≡ some 0
unfolding get_bar_idx
found = refl

read_arrives_example : Served pipe pipe_delivers asked [] 1 31 0x4010 8 0 12 5
read_arrives_example =
    read_arrives pipe pipe_delivers asked [] 1 31 0x4010 8 0 12 5 (omega arith) (omega arith)
      (omega arith) (omega arith) refl found refl (omega arith) (omega arith) refl

-- The completion of a request for a word, with the tag 31.
abbrev word_request : Mem
word_request = update (update (λ _. 0) 3 1) 6 31

abbrev word : List ℕ
word = 1 ∷ 2 ∷ 3 ∷ 4 ∷ []

abbrev completion_sent : List ℕ
completion_sent = packet_bytes (finish_tlp 9 (completion word_request (pos 4) word (pos 0)))

abbrev waiting_client : State pipe
waiting_client = record {
  client = record host_client { completion_cb = update (λ _. none) 31 (some 3) };
  world = completion_sent ++ 7 ∷ [];
}

one_word : tlp_data_length word_request ≡ 1
unfolding tlp_data_length bits
one_word = refl

tag_of : r_tag word_request ≡ 31
unfolding bits
tag_of = refl

completion_arrives_example :
    Completes pipe pipe_delivers waiting_client (7 ∷ []) word_request word 9 3
completion_arrives_example =
    completion_arrives pipe pipe_delivers waiting_client (7 ∷ []) word_request word 9 3
      (omega arith) (omega (arith, one_word)) refl (ap waiting_client.client.completion_cb tag_of)

-- A configuration space, and a device that answers each read in the next round.
abbrev space : Mem
space k = (k + 1) % 256

abbrev arrivals : Option ℕ → List Completed × Option ℕ
arrivals none = ([], none)
arrivals (some addr) =
    (record { error_code = pos 0; payload = λ k. space (addr + k); length = 4 } ∷ [], none)

abbrev pub link : Link
link = record {
  World = Option ℕ;
  warppipe_config0_read = λ addr length w. (true, some addr);
  warppipe_config0_write = λ addr bytes w. (true, w);
  warppipe_read = λ bar addr length w. (true, some addr);
  warppipe_register_bar = λ addr size idx w. (true, w);
  warppipe_server_loop = arrivals;
  quit = λ w. false;
}

-- A host like the pipe, with a read callback that gives eight bytes.
abbrev serving : Host
serving = record pipe {
  call_read = λ cb addr len client w. record {
    error = pos 0;
    written = 1 ∷ 2 ∷ 3 ∷ 4 ∷ 5 ∷ 6 ∷ 7 ∷ 8 ∷ [];
    client = client;
    world = w;
  };
}

abbrev serving_delivers : Delivers serving
serving_delivers = record {
  incoming = λ w. w;
  some_bytes = pipe_delivers.some_bytes;
  whole_header = pipe_delivers.whole_header;
}

-- The peer with the request, and the client that waits, when some bytes arrive.
abbrev serving_asked : State serving
serving_asked = record { client = peer; world = request_sent ++ [] }

abbrev waiting_for : List ℕ → State pipe
waiting_for bytes = record {
  client = record host_client { completion_cb = update (λ _. none) 31 (some 3) };
  world = bytes ++ 7 ∷ [];
}

read_round_trip_example :
    RoundTrips pipe serving pipe_delivers serving_delivers serving_asked []
      (7 ∷ [])
      1
      31
      0x4010
      8
      0
      12
      5
      3
      waiting_for
read_round_trip_example =
    read_round_trip pipe serving pipe_delivers serving_delivers serving_asked [] (7 ∷ []) 1 31
      0x4010 8 0 12 5 3 waiting_for (omega arith) (omega arith) (omega arith) (omega arith)
      (omega arith) refl found refl (omega arith) (omega arith) refl (λ x. (refl, refl))
      (λ bytes. refl) (λ bytes. refl)

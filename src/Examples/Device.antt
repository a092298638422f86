-- ===== src/Examples/Device.antt =====
-- The server and the memory mock.
use warp_pipe.Base.{
  ℕ, zero, suc, ◌<◌, ◌↔◌, ◌⊎◌, ◌+◌, ◌*◌, not, ◌&&◌, ◌||◌, ◌^◌, ◌≡◌, refl, arith, true, false, none,
  some, List, [], ◌∷◌, poke, slice, pos, negsuc, ◌≤◌,
}
use warp_pipe.Client.State.{Client}
use warp_pipe.MemoryMock.{
  BarConfig, Mock, write_bar, load_word, bar_offset, bar_decode_size, handle_config_bar_write,
}
use warp_pipe.MemoryMock.Transfers.{IsNegative, write_bar-inside}
use warp_pipe.MemoryMock.Probe.{probe-size}
use warp_pipe.MemoryMock.Setup.{
  client_mode, port, unspecified, accepted, parse_args, mock_bars, mock_space, verify_args,
}
use warp_pipe.MemoryMock.Setup.Sizes.{IsPower, verify_args_iff}
use warp_pipe.Server.{Server, Calls, should_disconnect_client, warppipe_server_loop}
use warp_pipe.Server.Create.{Sockets, warppipe_server_create}
use warp_pipe.Server.Create.Outcome.{Creates, server_create_outcome}
use warp_pipe.Server.{warppipe_server_disconnect_clients}
use warp_pipe.Server.Active.{
  AreActive, server_loop-AreActive, chosen, is_empty, close_all, disconnect_clients_lem,
}
use warp_pipe.Examples.Pipe.{pipe, zeroed, memory_of}

-- BAR 1 of the mock.
abbrev bar1 : BarConfig
bar1 = record { config = 1; size = 2048; read_cb = some 1; write_cb = some 2; memory = λ _. 0 }

abbrev mock : Mock
mock = record { bars_config = λ _. bar1; configuration_space = λ _. 0; mock_dev_client = zeroed }

write_bar-inside_example :
    ((write_bar bar1 2046 (λ _. 7) (negsuc 0) ≡ none) ↔ ((2046 ≤ 2048) × IsNegative (negsuc 0)))
    × ((bar' : BarConfig) (k : ℕ)
        → write_bar bar1 2046 (λ _. 7) (negsuc 0) ≡ some bar'
        → (2048 ≤ k) ⊎ (k < 2046)
        → bar'.memory k ≡ 0)
write_bar-inside_example = write_bar-inside bar1 2046 (negsuc 0) (λ _. 7) (omega arith)

-- A write that reaches over the end of the BAR is cut.
cut :
    (write_bar bar1 2046 (memory_of (1 ∷ 2 ∷ 3 ∷ [])) (pos 3))
    ≡ some (record bar1 { memory = poke (λ _. 0) 2046 (1 ∷ 2 ∷ []) })
unfolding write_bar slice
cut = refl

probe-size_test :
    (bar_decode_size (
        load_word
          (bar_offset + 4 * 1)
          (handle_config_bar_write mock 1 0xffff_ffff).configuration_space)
      ≡ 2 ^ 11)
    × ((handle_config_bar_write mock 1 0xffff_ffff).mock_dev_client ≡ zeroed)
probe-size_test = probe-size 11 1 (omega arith) (omega arith) (omega arith) mock 1 refl refl

-- Nothing is readable, and nobody connects.
abbrev calls : Calls (List ℕ)
calls = record {
  accept = λ fd w. (none, w);
  named = λ w. true;
  select = λ fds w. ((λ _. false), w);
  close = λ fd w. w;
  fresh = λ w. zeroed;
  call_accept = λ cb client w. (client, w);
}

abbrev server_of : List Client → Server
server_of clients = record {
  fd = 3;
  listen = true;
  quit = false;
  max_fd = 5;
  clients = clients;
  accept_cb = none;
}

round :
    warppipe_server_loop pipe calls (server_of (record zeroed { active = false } ∷ zeroed ∷ [])) []
    ≡ some (server_of (zeroed ∷ []), [])
unfolding warppipe_server_loop should_disconnect_client
round = refl

server_loop-AreActive_example : AreActive (zeroed ∷ [])
server_loop-AreActive_example =
    server_loop-AreActive pipe calls (server_of (record zeroed { active = false } ∷ zeroed ∷ []))
      (server_of (zeroed ∷ [])) [] [] round

-- Sockets that always work: a server that connects to its peer.
abbrev working : Sockets (List ℕ)
working = record {
  getaddrinfo = λ listen w. (some (1 ∷ []), w);
  freeaddrinfo = λ w. w;
  socket = λ address w. (some 4, w);
  set_reuseaddr = λ sfd w. (true, w);
  set_reuseport = λ sfd w. (true, w);
  set_nodelay = λ sfd w. (true, w);
  bind = λ sfd address w. (true, w);
  connect = λ sfd address w. (true, w);
  listen = λ sfd w. (true, w);
  getsockname = λ sfd w. (true, w);
  getpeername = λ sfd w. (true, w);
  getnameinfo = λ w. true;
  set_nonblocking = λ sfd w. w;
  signal = λ w. w;
  raise = λ w. w;
  call_previous = λ w. w;
}

server_create_outcome_example :
    Creates pipe calls working
      (server_of [])
      (some (1 ∷ []))
      (warppipe_server_create pipe calls working (server_of []) [])
server_create_outcome_example = server_create_outcome pipe calls working (server_of []) []

small_sizes : (j : ℕ) → (mock_bars j).size < 2 ^ 32
small_sizes zero = omega arith
small_sizes (suc zero) = omega arith
small_sizes (suc (suc j)) = omega arith

verify_args_iff_example :
    (verify_args mock_bars ≡ true)
    ↔ ((j : ℕ) → j < 6 → ((mock_bars j).size ≡ 0) ⊎ IsPower (mock_bars j).size)
verify_args_iff_example = verify_args_iff mock_bars small_sizes

accepts_port :
    parse_args
      (λ path space. none)
      (client_mode ∷ port 7 ∷ [])
      (record {
        listen = true;
        host = none;
        port_text = 0;
        addr_family = unspecified;
        yaml_path = none;
      })
      mock_space
    ≡ accepted
        (record {
          listen = false;
          host = none;
          port_text = 7;
          addr_family = unspecified;
          yaml_path = none;
        })
        mock_space
unfolding parse_args
accepts_port = refl

disconnect_clients_lem_example :
    warppipe_server_disconnect_clients pipe calls should_disconnect_client
      (server_of (record zeroed { active = false } ∷ zeroed ∷ []))
      []
    ≡ (
      record (server_of (
          chosen
            (λ c. not (should_disconnect_client c))
            (record zeroed { active = false } ∷ zeroed ∷ []))) {
              quit =
                  false
                  || false
                    && not (
                        is_empty (
                          chosen should_disconnect_client
                            (record zeroed { active = false } ∷ zeroed ∷ [])));
            },
      close_all pipe calls should_disconnect_client
          (chosen should_disconnect_client (record zeroed { active = false } ∷ zeroed ∷ []))
          [],
    )
disconnect_clients_lem_example =
    disconnect_clients_lem pipe calls should_disconnect_client
      (server_of (record zeroed { active = false } ∷ zeroed ∷ [])) []

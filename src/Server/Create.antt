-- ===== src/Server/Create.antt =====
-- `warppipe_server_create`, `warppipe_server_register_accept_cb` and `handle_sigint` of src/server.c.
-- The calls of the operating system are a parameter; SO_REUSEPORT is defined, as on Linux.
pub mod Attached
pub mod Outcome
use warp_pipe.Base.{ℕ, Bool, true, false, not, Option, none, some, List, [], ◌∷◌, if◌then◌else◌}
use warp_pipe.Client.State.{Client, Callback, Host}
use warp_pipe.Server.{Server, Calls, server_accept, warppipe_server_disconnect_clients}

-- An address of `getaddrinfo`, by its place in the list that this returns; a test is true where the
-- call succeeds, and `none` is -1.
pub record Sockets (World : Type 0) : Type 0 where
  pub getaddrinfo : Bool → World → Option (List ℕ) × World
  pub freeaddrinfo : World → World
  pub socket : ℕ → World → Option ℕ × World
  pub set_reuseaddr : ℕ → World → Bool × World
  pub set_reuseport : ℕ → World → Bool × World
  pub set_nodelay : ℕ → World → Bool × World
  pub bind : ℕ → ℕ → World → Bool × World
  pub connect : ℕ → ℕ → World → Bool × World
  pub listen : ℕ → World → Bool × World
  pub getsockname : ℕ → World → Bool × World
  pub getpeername : ℕ → World → Bool × World
  pub getnameinfo : World → Bool
  pub set_nonblocking : ℕ → World → World
  pub signal : World → World
  pub raise : World → World
  pub call_previous : World → World

-- What handled SIGINT before: nobody (SIG_IGN), the default, or a function.
pub data SigintHandler : Type 0 where
  ignored : SigintHandler
  by_default : SigintHandler
  by_function : SigintHandler

-- What becomes of one address: the function returns -1, or the next one is tried, or there is a
-- socket.
pub data Attempt : Type 0 where
  gives_up : Attempt
  tries_next : Attempt
  attached : ℕ → Attempt

unfoldable pub warppipe_server_register_accept_cb : Server → Option Callback → Server
warppipe_server_register_accept_cb server accept_cb = record server { accept_cb = accept_cb }

module _ (host : Host) (calls : Calls host.World) (sockets : Sockets host.World) where
  abbrev World : Type 0
  World = host.World

  -- From `bind` or `connect` on, whose result is `done`.
  unfoldable pub attach : Bool → ℕ → Bool × World → Attempt × World
  attach listen sfd (done, w) =
      let (listens, w₁) = if listen then sockets.listen sfd w else (true, w) in
      let (named, w₂) = if listen then sockets.getsockname sfd w₁ else sockets.getpeername sfd w₁ in
      if not done
      then (tries_next, calls.close sfd w)
      else if not listens
      then (gives_up, w₁)
      else if not named
      then (gives_up, w₂)
      else if not (sockets.getnameinfo w₂)
      then (gives_up, w₂)
      else (attached sfd, w₂)

  unfoldable pub try_socket : Bool → ℕ → ℕ → World → Attempt × World
  unfolding attach
  try_socket listen address sfd w =
      let (reuses, w₁) = sockets.set_reuseaddr sfd w in
      let (shares, w₂) = sockets.set_reuseport sfd w₁ in
      let (_, w₃) = sockets.set_nodelay sfd w₂ in
      if not reuses
      then (gives_up, w₁)
      else if not shares
      then (gives_up, w₂)
      else attach listen sfd
          (if listen then sockets.bind sfd address w₃ else sockets.connect sfd address w₃)

  -- The body of the loop on the addresses.
  unfoldable pub try_address : Bool → ℕ → World → Attempt × World
  unfolding try_socket
  try_address listen address w =
      let (opened, w₁) = sockets.socket address w in
      elim opened [ none ↦ (tries_next, w₁) | some sfd ↦ try_socket listen address sfd w₁ ]

  -- The loop; `tries_next` is its end without a socket.
  unfoldable pub try_addresses : Bool → List ℕ → World → Attempt × World
  unfolding try_address
  try_addresses listen [] w = (tries_next, w)
  try_addresses listen (address ∷ addresses) w =
      let (attempt, w₁) = try_address listen address w in
      let rest = try_addresses listen addresses w₁ in
      elim attempt [
        | gives_up ↦ (gives_up, w₁)
        | tries_next ↦ rest
        | attached sfd ↦ (attached sfd, w₁)
      ]

  -- From the assignment of the descriptors on.
  unfoldable pub start_server : Server → ℕ → World → Server × World
  unfolding server_accept
  start_server server sfd w =
      let w₁ = sockets.set_nonblocking sfd w in
      let ready = record server { max_fd = sfd; fd = sfd; clients = [] } in
      let (server', w₂) =
        if not (server.listen) then server_accept host calls ready w₁ else (ready, w₁) in
      (server', sockets.signal w₂)

  -- What follows the loop, and what follows `getaddrinfo`. False is -1.
  unfoldable pub after_attempt : Server → Attempt × World → Bool × Server × World
  unfolding start_server
  after_attempt server (gives_up, w) = (false, server, w)
  after_attempt server (tries_next, w) = (false, server, sockets.freeaddrinfo w)
  after_attempt server (attached sfd, w) =
      let (server', w₁) = start_server server sfd (sockets.freeaddrinfo w) in (true, server', w₁)

  unfoldable pub with_addresses : Server → Option (List ℕ) × World → Bool × Server × World
  unfolding try_addresses after_attempt
  with_addresses server (none, w) = (false, server, w)
  with_addresses server (some addresses, w) =
      after_attempt server (try_addresses server.listen addresses w)

  unfoldable pub warppipe_server_create : Server → World → Bool × Server × World
  unfolding with_addresses
  warppipe_server_create server w = with_addresses server (sockets.getaddrinfo server.listen w)

  -- The end of `handle_sigint`: with the default handler set, the signal is raised again.
  abbrev pass_on : SigintHandler → World → World
  pass_on ignored w = w
  pass_on by_default w = sockets.raise w
  pass_on by_function w = sockets.call_previous w

  -- With a server of `warppipe_server_create`, all clients are disconnected.
  unfoldable pub shut_down : Option Server → World → Option Server × World
  unfolding warppipe_server_disconnect_clients
  shut_down none w = (none, w)
  shut_down (some server) w =
      let (server', w₁) =
        warppipe_server_disconnect_clients host calls (λ _. true) (record server { quit = true })
          w in
      (some server', calls.close server.fd w₁)

  unfoldable pub handle_sigint : SigintHandler → Option Server → World → Option Server × World
  unfolding shut_down
  handle_sigint ignored server w = (server, w)
  handle_sigint by_default server w =
      let (server', w₁) = shut_down server w in (server', pass_on by_default w₁)
  handle_sigint by_function server w =
      let (server', w₁) = shut_down server w in (server', pass_on by_function w₁)

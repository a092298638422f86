-- ===== src/Server.antt =====
-- src/server.c: the list of clients, and the loop that serves them. What the operating system and the
-- accept callback do is a parameter. Memory is always allocated.
pub mod Active
pub mod Create
use warp_pipe.Base.{
  ℕ, ◌+◌, Bool, true, false, not, ◌&&◌, ◌||◌, Option, none, some, List, [], ◌∷◌, ◌++◌, ltb,
  if◌then◌else◌,
}
use warp_pipe.Client.State.{Client, Callback, Host, State, warppipe_client_create}
use warp_pipe.Client.Receive.{Outcome, returned, reported, aborted, stalled, warppipe_client_read}

-- `struct warppipe_server`, without the socket addresses and `read_fds`.
pub record Server : Type 0 where
  pub fd : ℕ
  pub listen : Bool
  pub quit : Bool
  pub max_fd : ℕ
  pub clients : List Client
  pub accept_cb : Option Callback

-- `accept` with `none` for -1; whether `getnameinfo` finds the names; the descriptors that `select`
-- finds readable among the given ones; `close`; the memory that `malloc` gives for a client; and the
-- call of the accept callback.
pub record Calls (World : Type 0) : Type 0 where
  pub accept : ℕ → World → Option ℕ × World
  pub named : World → Bool
  pub select : List ℕ → World → (ℕ → Bool) × World
  pub close : ℕ → World → World
  pub fresh : World → Client
  pub call_accept : Callback → Client → World → Client × World

unfoldable pub should_disconnect_client : Client → Bool
should_disconnect_client client = not (client.active)

unfoldable pub track_max_fd : Server → ℕ → Server
track_max_fd server new_fd =
    if ltb server.max_fd new_fd then record server { max_fd = new_fd } else server

abbrev pub descriptors : List Client → List ℕ
descriptors [] = []
descriptors (client ∷ clients) = client.fd ∷ descriptors clients

module _ (host : Host) (calls : Calls host.World) where
  abbrev World : Type 0
  World = host.World

  -- The loop of `warppipe_server_disconnect_clients`: the clients that are left, and whether one
  -- was removed.
  unfoldable pub remove_clients : (Client → Bool) → List Client → World → List Client × Bool × World
  remove_clients condition [] world = ([], false, world)
  remove_clients condition (client ∷ clients) world =
      let gone = condition client in
      let (left, some_gone, world') =
        remove_clients condition clients (if gone then calls.close client.fd world else world) in
      if gone then (left, true, world') else (client ∷ left, some_gone, world')

  unfoldable pub warppipe_server_disconnect_clients :
      (Client → Bool) → Server → World → Server × World
  unfolding remove_clients
  warppipe_server_disconnect_clients condition server world =
      let (left, some_gone, world') = remove_clients condition (server.clients) world in
      (
        record server {
          clients = left;
          quit = if some_gone && not (server.listen) then true else server.quit;
        },
        world',
      )

  -- `none` is the abort of the process by an assertion in `warppipe_client_read`.
  unfoldable pub server_read : (ℕ → Bool) → List Client → World → Option (List Client × World)
  server_read ready [] world = some ([], world)
  server_read ready (client ∷ clients) world =
      if ready client.fd
      then elim (warppipe_client_read host (record { client = client; world = world })) [
        | returned s ↦ elim (server_read ready clients (s.world)) [
          | none ↦ none
          | some (rest, w) ↦ some (s.client ∷ rest, w)
        ]
        | reported r s ↦ elim (server_read ready clients (s.world)) [
          | none ↦ none
          | some (rest, w) ↦ some (s.client ∷ rest, w)
        ]
        | aborted ↦ none
        | stalled ↦ none
      ]
      else elim (server_read ready clients world) [
        | none ↦ none
        | some (rest, w) ↦ some (client ∷ rest, w)
      ]

  -- The call of the accept callback, if there is one.
  unfoldable pub notify : Option Callback → Client → World → Client × World
  notify none client world = (client, world)
  notify (some cb) client world = calls.call_accept cb client world

  -- From `new_client = malloc(…)` on. The accept callback may change the client.
  unfoldable pub add_client : Server → ℕ → World → Server × World
  unfolding track_max_fd notify
  add_client server fd world =
      let client = warppipe_client_create (calls.fresh world) fd in
      let (client', world') = notify server.accept_cb client world in
      (track_max_fd (record server { clients = server.clients ++ client' ∷ [] }) fd, world')

  abbrev no_clients : List Client → Bool
  no_clients [] = true
  no_clients (client ∷ clients) = false

  -- Where it returns -1, the server is as it was.
  unfoldable pub server_accept : Server → World → Server × World
  unfolding add_client
  server_accept server world =
      if server.listen
      then (let (r, world') = calls.accept server.fd world in
          elim r [
            | none ↦ (server, world')
            | some fd ↦ if calls.named world' then add_client server fd world' else (server, world')
          ])
      else if no_clients server.clients
      then add_client server server.fd world
      else (server, world)

  unfoldable pub warppipe_server_loop : Server → World → Option (Server × World)
  unfolding warppipe_server_disconnect_clients server_read server_accept
  warppipe_server_loop server world =
      let (ready, world₁) = calls.select (server.fd ∷ descriptors (server.clients)) world in
      let (server₂, world₂) =
        if ready server.fd then server_accept server world₁ else (server, world₁) in
      elim (server_read ready (server₂.clients) world₂) [
        | none ↦ none
        | some (read, world₃) ↦ some (
            warppipe_server_disconnect_clients should_disconnect_client
              (record server₂ { clients = read }) world₃)
      ]

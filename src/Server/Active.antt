-- ===== src/Server/Active.antt =====
-- Which clients are left after a round of the server.
use warp_pipe.Base.{
  ◌≡◌, refl, ap, arith, Bool, not, ◌&&◌, ◌||◌, inl, inr, true, false, Bool-cases, Option, some,
  none, List, [], ◌∷◌, if◌then◌else◌,
}
use mathlib.Core.Path.{subst}
use warp_pipe.Client.State.{Client, Host}
use warp_pipe.Server.{
  descriptors, server_accept, Server, Calls, should_disconnect_client, remove_clients,
  warppipe_server_disconnect_clients, server_read, warppipe_server_loop,
}

-- Every client of the list is active.
abbrev pub AreActive : List Client → Type 0
AreActive [] = Unit {0}
AreActive (client ∷ clients) = (client.active ≡ true) × AreActive clients

active_if : (client : Client) → should_disconnect_client client ≡ false → client.active ≡ true
unfolding should_disconnect_client
active_if client e = ground arith

module _ (host : Host) (calls : Calls host.World) where
  left_active :
      (clients : List Client) (world : host.World)
      → AreActive ((remove_clients host calls should_disconnect_client clients world).0)
  unfolding remove_clients
  left_active [] world = tt
  left_active (client ∷ clients) world = elim (Bool-cases (should_disconnect_client client)) [
    | inl gone ↦ rw gone (left_active clients (calls.close client.fd world))
    | inr kept ↦ rw kept (active_if client kept, left_active clients world)
  ]

  abbrev Leaves : Option (Server × host.World) → Type 0
  Leaves none = Unit {0}
  Leaves (some (server, world)) = AreActive server.clients

  after_read :
      (server : Server) (r : Option (List Client × host.World))
      → Leaves (elim r [
        | none ↦ none
        | some (read, world) ↦ some (
            warppipe_server_disconnect_clients host calls should_disconnect_client
              (record server { clients = read })
              world)
      ])
  unfolding warppipe_server_disconnect_clients
  after_read server none = tt
  after_read server (some (read, world)) = left_active read world

  -- After a round of the loop, every client that is left is active.
  pub server_loop-AreActive :
      (server server' : Server) (world world' : host.World)
      → warppipe_server_loop host calls server world ≡ some (server', world')
      → AreActive server'.clients
  unfolding warppipe_server_loop
  server_loop-AreActive server server' world world' e =
      let (ready, world₁) = calls.select (server.fd ∷ descriptors server.clients) world in
      let accepted : Server × host.World =
        if ready server.fd then server_accept host calls server world₁ else (server, world₁) in
      subst Leaves e
        (after_read accepted.0 (server_read host calls ready (accepted.0.clients) accepted.1))

-- The clients that a condition holds for, and those that it does not hold for, in their order.
abbrev pub chosen : (Client → Bool) → List Client → List Client
chosen condition [] = []
chosen condition (client ∷ clients) =
    if condition client then client ∷ chosen condition clients else chosen condition clients

abbrev pub is_empty : List Client → Bool
is_empty [] = true
is_empty (client ∷ clients) = false

quits : (a b c : Bool) → (if a && b then true else c) ≡ (c || b && a)
quits a b c = ground arith

module _ (host : Host) (calls : Calls host.World) (condition : Client → Bool) where
  abbrev pub close_all : List Client → host.World → host.World
  close_all [] world = world
  close_all (client ∷ clients) world = close_all clients (calls.close client.fd world)

  remove_clients_lem :
      (clients : List Client) (world : host.World)
      → remove_clients host calls condition clients world ≡ (
        chosen (λ c. not (condition c)) clients,
        not (is_empty (chosen condition clients)),
        close_all (chosen condition clients) world,
      )
  unfolding remove_clients
  remove_clients_lem [] world = refl
  remove_clients_lem (client ∷ clients) world = elim (Bool-cases (condition client)) [
    | inl gone ↦ rw gone (rw (remove_clients_lem clients (calls.close client.fd world)) refl)
    | inr kept ↦ rw kept (rw (remove_clients_lem clients world) refl)
  ]

  -- `warppipe_server_disconnect_clients` keeps the clients for which the condition does not hold, in
  -- their order, and closes the descriptors of the others, each once and in their order. The server
  -- quits exactly if it was to quit already, or does not listen and has removed a client. Nothing else
  -- of it changes.
  pub disconnect_clients_lem :
      (server : Server) (world : host.World)
      → warppipe_server_disconnect_clients host calls condition server world ≡ (
        record server {
          clients = chosen (λ c. not (condition c)) server.clients;
          quit =
              server.quit
              || not (server.listen) && not (is_empty (chosen condition server.clients));
        },
        close_all (chosen condition server.clients) world,
      )
  unfolding warppipe_server_disconnect_clients
  disconnect_clients_lem server world =
      let removed : Bool = not (is_empty (chosen condition server.clients)) in
      let left = chosen (λ c. not (condition c)) server.clients in
      let world' = close_all (chosen condition server.clients) world in
      rw (remove_clients_lem server.clients world) (
        ap (λ (q : Bool). (record server { clients = left; quit = q }, world'))
          (quits removed (not (server.listen)) server.quit))

-- ===== src/Server/Create/Outcome.antt =====
-- The outcomes of `warppipe_server_create`.
use mathlib.Core.Path.{subst}
use warp_pipe.Base.{
  ℕ, ◌≡◌, ◌⊎◌, inl, inr, refl, sym, arith, Bool, true, false, Option, none, some, List, [], ◌∷◌,
  ltb,
}
use warp_pipe.Client.State.{Client, Host, warppipe_client_create}
use warp_pipe.Server.{Server, Calls, track_max_fd, notify, add_client, server_accept}
use warp_pipe.Server.Create.Attached.{IfAttached, IsFrom, addresses_lem}
use warp_pipe.Server.Create.{
  Sockets, Attempt, gives_up, tries_next, attached, try_addresses, start_server, after_attempt,
  with_addresses, warppipe_server_create,
}

track_max_fd-same : (s : Server) (fd : ℕ) → s.max_fd ≡ fd → track_max_fd s fd ≡ s
unfolding track_max_fd
track_max_fd-same s fd e = let same : ltb s.max_fd fd ≡ false = ground (arith, e) in rw same refl

-- The server `s'` has the socket `sfd`, and no client if it listens, and just one if it does not; the
-- rest is as in `s`.
abbrev pub IsCreated : Server → ℕ → Server → Type 0
IsCreated s sfd s' =
    (s'.fd ≡ sfd)
    × (s'.max_fd ≡ sfd)
    × (s'.quit ≡ s.quit)
    × (s'.listen ≡ s.listen)
    × (s'.accept_cb ≡ s.accept_cb)
    × ((s.listen ≡ true) × (s'.clients ≡ [])
        ⊎ (s.listen ≡ false) × ((client : Client) × (s'.clients ≡ client ∷ [])))

tracked :
    (s s' : Server) (sfd : ℕ)
    → s'.max_fd ≡ sfd
    → IsCreated s sfd s'
    → IsCreated s sfd (track_max_fd s' sfd)
tracked s s' sfd e = subst (IsCreated s sfd) (sym (track_max_fd-same s' sfd e))

module _ (host : Host) (calls : Calls host.World) (sockets : Sockets host.World) where
  started :
      (listens : Bool) (s : Server) (sfd : ℕ) (w : host.World)
      → IsCreated
          (record s { listen = listens })
          sfd
          (start_server host calls sockets (record s { listen = listens }) sfd w).0
  unfolding start_server server_accept add_client
  started true s sfd w = (refl, refl, refl, refl, refl, inl (refl, refl))
  started false s sfd w =
      let w₁ = sockets.set_nonblocking sfd w in
      let client =
        (notify host calls s.accept_cb (warppipe_client_create (calls.fresh w₁) sfd) w₁).0 in
      tracked (record s { listen = false })
        (record s { listen = false; fd = sfd; max_fd = sfd; clients = client ∷ [] }) sfd refl
        (refl, refl, refl, refl, refl, inr (refl, (client, refl)))

  -- The server is as it was, or has a socket that was opened for one of the addresses found.
  abbrev pub Creates : Server → Option (List ℕ) → Bool × Server × host.World → Type 0
  Creates s found r =
      ((r.0 ≡ false) × (r.1 ≡ s))
      ⊎ ((r.0 ≡ true)
          × ((sfd : ℕ) × (addresses : List ℕ) × (found ≡ some addresses)
              × IsFrom host calls sockets s.listen addresses sfd
              × IsCreated s sfd r.1))

  after_attempt-Creates :
      (s : Server) (addresses : List ℕ) (a : Attempt) (w : host.World)
      → IfAttached (IsFrom host calls sockets s.listen addresses) a
      → Creates s (some addresses) (after_attempt host calls sockets s (a, w))
  unfolding after_attempt
  after_attempt-Creates s addresses gives_up w h = inl (refl, refl)
  after_attempt-Creates s addresses tries_next w h = inl (refl, refl)
  after_attempt-Creates s addresses (attached sfd) w h =
      inr (refl, (sfd, addresses, refl, h, started s.listen s sfd (sockets.freeaddrinfo w)))

  with_addresses-Creates :
      (s : Server) (found : Option (List ℕ)) (w : host.World)
      → Creates s found (with_addresses host calls sockets s (found, w))
  unfolding with_addresses
  with_addresses-Creates s none w = inl (refl, refl)
  with_addresses-Creates s (some addresses) w =
      let (a, w') = try_addresses host calls sockets s.listen addresses w in
      after_attempt-Creates s addresses a w' (addresses_lem host calls sockets s.listen addresses w)

  -- Every outcome of `warppipe_server_create`: on -1 the server is as it was; otherwise it has a
  -- socket that `socket` gave for one of the addresses of `getaddrinfo`, with both options set, on
  -- which `bind` and `listen` have succeeded if the server listens, and `connect` if it does not. The
  -- socket is also the largest descriptor, there is no client if the server listens, and just one if
  -- it does not, and nothing else of the server is changed.
  pub server_create_outcome :
      (s : Server) (w : host.World)
      → Creates s (sockets.getaddrinfo s.listen w).0 (warppipe_server_create host calls sockets s w)
  unfolding warppipe_server_create
  server_create_outcome s w =
      let (found, w') = sockets.getaddrinfo s.listen w in with_addresses-Creates s found w'

-- ===== src/Server/Create/Attached.antt =====
-- Where the socket of `warppipe_server_create` comes from: the loop on the addresses of src/server.c.
use mathlib.Core.Path.{subst}
use warp_pipe.Base.{
  ℕ, ◌≡◌, refl, ap, sym, Bool, true, false, not, Option, none, some, List, [], ◌∷◌, ◌++◌,
  if◌then◌else◌,
}
use warp_pipe.Client.State.{Host}
use warp_pipe.Server.{Calls}
use warp_pipe.Server.Create.{
  Sockets, Attempt, gives_up, tries_next, attached, attach, try_socket, try_address, try_addresses,
}

-- `P` holds of the socket, if there is one.
abbrev pub IfAttached : (ℕ → Type 0) → Attempt → Type 0
IfAttached P gives_up = Unit {0}
IfAttached P tries_next = Unit {0}
IfAttached P (attached sfd) = P sfd

IfAttached-map :
    (P Q : ℕ → Type 0) (a : Attempt) → ((sfd : ℕ) → P sfd → Q sfd) → IfAttached P a → IfAttached Q a
IfAttached-map P Q gives_up f h = tt
IfAttached-map P Q tries_next f h = tt
IfAttached-map P Q (attached sfd) f h = f sfd h

module _ {W : Type 0} (P : ℕ → Type 0) (sfd : ℕ) where
  -- The tests of `attach`, and those of `try_socket`.
  four_tests :
      (a b c d : Bool) (x y z : W)
      → (a ≡ true → b ≡ true → P sfd)
      → let r : Attempt × W =
          if not a
          then (tries_next, x)
          else if not b
          then (gives_up, y)
          else if not c
          then (gives_up, z)
          else if not d
          then (gives_up, z)
          else (attached sfd, z) in
        IfAttached P r.0
  four_tests false b c d x y z f = tt
  four_tests true false c d x y z f = tt
  four_tests true true false d x y z f = tt
  four_tests true true true false x y z f = tt
  four_tests true true true true x y z f = f refl refl

  two_tests :
      (a b : Bool) (x y : W) (rest : Attempt × W)
      → (a ≡ true → b ≡ true → IfAttached P rest.0)
      → let r : Attempt × W =
          if not a then (gives_up, x) else if not b then (gives_up, y) else rest in
        IfAttached P r.0
  two_tests false b x y rest f = tt
  two_tests true false x y rest f = tt
  two_tests true true x y rest f = f refl refl

module _ (host : Host) (calls : Calls host.World) (sockets : Sockets host.World) where
  -- `bind` or `connect`.
  abbrev pub tied : Bool → ℕ → ℕ → host.World → Bool × host.World
  tied listen sfd address w =
      if listen then sockets.bind sfd address w else sockets.connect sfd address w

  -- From the world `w` on, `socket` gives `sfd` for the address, both options are set, `bind` or
  -- `connect` succeeds for it, and for a server that listens `listen` too.
  abbrev pub Opens : Bool → ℕ → ℕ → host.World → Type 0
  Opens listen address sfd w =
      let w₁ = (sockets.socket address w).1 in
      let w₂ = (sockets.set_reuseaddr sfd w₁).1 in
      let w₃ = (sockets.set_reuseport sfd w₂).1 in
      let w₄ = (sockets.set_nodelay sfd w₃).1 in
      ((sockets.socket address w).0 ≡ some sfd)
      × ((sockets.set_reuseaddr sfd w₁).0 ≡ true)
      × ((sockets.set_reuseport sfd w₂).0 ≡ true)
      × ((tied listen sfd address w₄).0 ≡ true)
      × (listen ≡ true → (sockets.listen sfd (tied listen sfd address w₄).1).0 ≡ true)

  attach_lem :
      (P : ℕ → Type 0) (listen : Bool) (sfd : ℕ) (r : Bool × host.World)
      → (r.0 ≡ true → (listen ≡ true → (sockets.listen sfd r.1).0 ≡ true) → P sfd)
      → IfAttached P (attach host calls sockets listen sfd r).0
  unfolding attach
  attach_lem P true sfd (tied, w) f =
      four_tests P sfd tied (sockets.listen sfd w).0
        (sockets.getsockname sfd (sockets.listen sfd w).1).0 _ _ _ _ (λ a b. f a (λ _. b))
  attach_lem P false sfd (tied, w) f =
      four_tests P sfd tied true (sockets.getpeername sfd w).0 _ _ w _ (λ a b. f a (λ e. cc e))

  socket_lem :
      (listen : Bool) (address sfd : ℕ) (w : host.World)
      → (sockets.socket address w).0 ≡ some sfd
      → IfAttached
          (λ s. Opens listen address s w)
          (try_socket host calls sockets listen address sfd (sockets.socket address w).1).0
  unfolding try_socket
  socket_lem listen address sfd w e =
      let w₁ = (sockets.socket address w).1 in
      let w₂ = (sockets.set_reuseaddr sfd w₁).1 in
      let w₃ = (sockets.set_reuseport sfd w₂).1 in
      two_tests (λ s. Opens listen address s w) sfd (sockets.set_reuseaddr sfd w₁).0
        (sockets.set_reuseport sfd w₂).0 _ _ _
        (λ a b. attach_lem (λ s. Opens listen address s w) listen sfd _ (λ c h. (e, a, b, c, h)))

  address_lem :
      (listen : Bool) (address : ℕ) (w : host.World) (opened : Option ℕ)
      → (sockets.socket address w).0 ≡ opened
      → IfAttached
          (λ sfd. Opens listen address sfd w)
          (try_address host calls sockets listen address w).0
  unfolding try_address
  address_lem listen address w none e =
      let next : try_address host calls sockets listen address w
          ≡ (tries_next, (sockets.socket address w).1) =
        rw (e, try_address) refl in
      subst (λ (a : Attempt). IfAttached (λ sfd. Opens listen address sfd w) a)
        (sym (ap (λ (r : Attempt × host.World). r.0) next)) tt
  address_lem listen address w (some sfd) e =
      let here : try_address host calls sockets listen address w
          ≡ try_socket host calls sockets listen address sfd (sockets.socket address w).1 =
        rw (e, try_address) refl in
      subst (λ (a : Attempt). IfAttached (λ s. Opens listen address s w) a)
        (sym (ap (λ (r : Attempt × host.World). r.0) here)) (socket_lem listen address sfd w e)

  -- The socket was opened for one of the addresses.
  abbrev pub IsFrom : Bool → List ℕ → ℕ → Type 0
  IsFrom listen addresses sfd =
      (before : List ℕ) × (address : ℕ) × (after : List ℕ) × (w : host.World) × (addresses
        ≡ before ++ address ∷ after)
      × Opens listen address sfd w

  loop_lem :
      (P : ℕ → Type 0) (listen : Bool) (address : ℕ) (addresses : List ℕ) (w : host.World)
      (a : Attempt)
      → (try_address host calls sockets listen address w).0 ≡ a
      → IfAttached P a
      → IfAttached P
          (try_addresses host calls sockets listen addresses
            (try_address host calls sockets listen address w).1).0
      → (r : Attempt) × ((try_addresses host calls sockets listen (address ∷ addresses) w).0 ≡ r)
        × IfAttached P r
  unfolding try_addresses
  loop_lem P listen address addresses w gives_up e h rest =
      (gives_up, rw (e, try_addresses) refl, tt)
  loop_lem P listen address addresses w tries_next e h rest = (
    (try_addresses host calls sockets listen addresses
        (try_address host calls sockets listen address w).1).0,
    rw (e, try_addresses) refl,
    rest,
  )
  loop_lem P listen address addresses w (attached sfd) e h rest =
      (attached sfd, rw (e, try_addresses) refl, h)

  pub addresses_lem :
      (listen : Bool) (addresses : List ℕ) (w : host.World)
      → IfAttached (IsFrom listen addresses) (try_addresses host calls sockets listen addresses w).0
  unfolding try_addresses
  addresses_lem listen [] w = tt
  addresses_lem listen (address ∷ addresses) w =
      let (a, w') = try_address host calls sockets listen address w in
      let later = addresses_lem listen addresses w' in
      let P = IsFrom listen (address ∷ addresses) in
      let (r, e, h) =
        loop_lem P listen address addresses w a refl
          (IfAttached-map (λ sfd. Opens listen address sfd w) P a
            (λ sfd h. ([], address, addresses, w, refl, h))
            (address_lem listen address w (sockets.socket address w).0 refl))
          (IfAttached-map (IsFrom listen addresses) P
            (try_addresses host calls sockets listen addresses w').0
            (λ sfd h. (address ∷ h.0, h.1, h.2, h.3, ap (λ (l : List ℕ). address ∷ l) h.4, h.5))
            later) in
      subst (IfAttached P) (sym e) h

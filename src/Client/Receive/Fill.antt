-- ===== src/Client/Receive/Fill.antt =====
-- The loop of `warppipe_client_read` that reads the rest of a packet, over a socket that behaves.
use warp_pipe.Base.{
  ℕ, zero, suc, ◌+◌, ◌-◌, ◌≤◌, ◌<◌, ◌≡◌, ◌≢◌, refl, sym, ap, ◌∙◌, ◌⊎◌, inl, inr, arith, Bool, true,
  false, List, [], ◌∷◌, ◌++◌, length, length-append, poke, ltb,
}
use warp_pipe.Base.Copy.{append_split, poke-append}
use native.Mathlib.Decide.{dec_lt}
use warp_pipe.Client.Send.{header_length}
use warp_pipe.Client.State.{Host, State, Received, received, failed}
use warp_pipe.Client.Receive.{
  filled, disconnected, out_of_fuel, store_received, recv_at, fill, deactivate,
}

pub Received-cases :
    (r : Received)
    → ((again : Bool) × (r ≡ failed again))
      ⊎ ((r ≡ received []) ⊎ ((b : ℕ) × (bs : List ℕ) × (r ≡ received (b ∷ bs))))
Received-cases (failed again) = inl (again, refl)
Received-cases (received []) = inr (inl refl)
Received-cases (received (b ∷ bs)) = inr (inr (b, bs, refl))

module _ (host : Host) where
  -- One round, by what `recv` gives.
  abbrev asked : State host → ℕ → ℕ → Received × host.World
  asked s len total = host.recv s.client.fd (total - len) s.world

  abbrev stored : State host → ℕ → ℕ → List ℕ → State host
  stored s len total bytes = record {
    client = record (s.client) { buf = poke (s.client.buf) len bytes };
    world = (asked s len total).1;
  }

  pub fill_done :
      (fuel : ℕ) (s : State host) (len total : ℕ)
      → total ≤ len
      → fill host fuel s len total ≡ filled s
  unfolding fill
  fill_done zero s len total h = ground arith
  fill_done (suc fuel) s len total h = ground arith

  fill_more :
      (fuel : ℕ) (s : State host) (len total b : ℕ) (bs : List ℕ)
      → len < total
      → (asked s len total).0 ≡ received (b ∷ bs)
      → fill host (suc fuel) s len total
        ≡ fill host fuel (stored s len total (b ∷ bs)) (len + suc (length bs)) total
  unfolding fill recv_at store_received
  fill_more fuel s len total b bs h e =
      let more : ltb len total ≡ true = ground arith in rw (more, e) (rw e)

  fill_stops :
      (fuel : ℕ) (s : State host) (len total : ℕ)
      → len < total
      → ((again : Bool) × ((asked s len total).0 ≡ failed again))
        ⊎ ((asked s len total).0 ≡ received [])
      → (s' : State host) × (fill host (suc fuel) s len total ≡ disconnected s')
        × (s'.client.active ≡ false)
  unfolding fill recv_at store_received
  fill_stops fuel s len total h (inl (again, e)) =
      let more : ltb len total ≡ true = ground arith in
      (deactivate host (record s { world = (asked s len total).1 }), rw (more, e) (rw e), refl)
  fill_stops fuel s len total h (inr e) =
      let more : ltb len total ≡ true = ground arith in
      (deactivate host (stored s len total []), rw (more, e) (rw e), refl)

  -- The loop ends within as many rounds as bytes are missing, whatever the socket does: each round
  -- that goes on has read a byte.
  pub fill_ends :
      (fuel : ℕ) (s : State host) (len total : ℕ)
      → total ≤ fuel + len
      → fill host fuel s len total ≢ out_of_fuel
  fill_ends zero s len total h e = cc (fill_done zero s len total (omega arith))
  fill_ends (suc fuel) s len total h e = elim (dec_lt len total) [
    | no enough ↦ cc (fill_done (suc fuel) s len total (omega arith))
    | yes more ↦ elim (Received-cases ((asked s len total).0)) [
      | inl f ↦ cc ((fill_stops fuel s len total more (inl f)).1)
      | inr (inl f) ↦ cc ((fill_stops fuel s len total more (inr f)).1)
      | inr (inr (b, bs, f)) ↦
          fill_ends fuel (stored s len total (b ∷ bs)) (len + suc (length bs)) total (omega arith)
            (sym (fill_more fuel s len total b bs more f) ∙ e)
    ]
  ]

-- A stream socket with data in it: `incoming` is what the peer has sent and nobody has read. A
-- `recv` takes some of it, in order and at most what is asked for, and as long as there is
-- enough it does not fail; what the header asks for comes at once.
pub record Delivers (host : Host) : Type 0 where
  pub incoming : host.World → List ℕ
  pub some_bytes :
      (fd n : ℕ) (w : host.World)
      → 0 < n
      → n ≤ length (incoming w)
      → (b : ℕ) × (bs : List ℕ) × ((host.recv fd n w).0 ≡ received (b ∷ bs))
        × (suc (length bs) ≤ n)
        × (incoming w ≡ (b ∷ bs) ++ incoming ((host.recv fd n w).1))
  pub whole_header :
      (fd : ℕ) (w : host.World) (xs ys : List ℕ)
      → incoming w ≡ xs ++ ys
      → length xs ≡ header_length
      → ((host.recv fd header_length w).0 ≡ received xs)
        × (incoming ((host.recv fd header_length w).1) ≡ ys)

module _ (host : Host) (net : Delivers host) where
  open net use {incoming}

  -- The client with the bytes `xs` of the stream in its buffer from `len` on.
  abbrev pub arrived : State host → ℕ → List ℕ → host.World → State host
  arrived s len xs w = record {
    client = record (s.client) { buf = poke (s.client.buf) len xs };
    world = w;
  }

  -- With as many rounds as bytes are missing, if the stream holds these bytes, the loop stores just
  -- them behind those that are there and leaves the rest in the stream, however they are cut up.
  pub fill-incoming :
      (fuel : ℕ) (s : State host) (len total : ℕ) (xs ys : List ℕ)
      → incoming s.world ≡ xs ++ ys
      → len + length xs ≡ total
      → total ≤ fuel + len
      → (w : host.World) × (fill host fuel s len total ≡ filled (arrived s len xs w))
        × (incoming w ≡ ys)
  unfolding poke
  fill-incoming fuel s len total [] ys h e l =
      (s.world, fill_done host fuel s len total (omega arith), h)
  fill-incoming zero s len total (x ∷ xs) ys h e l = absurd (omega arith)
  fill-incoming (suc fuel) s len total (x ∷ xs) ys h e l =
      let there : length (incoming s.world) ≡ suc (length xs) + length ys =
        ap length h ∙ length-append (x ∷ xs) ys in
      let (b, bs, got, few, split) =
        net.some_bytes s.client.fd (total - len) s.world (omega arith) (omega (arith, there)) in
      let (more, is_more, left) =
        append_split (b ∷ bs) (x ∷ xs) ys (incoming ((asked host s len total).1)) (sym h ∙ split)
          (omega arith) in
      let long = ap length is_more ∙ length-append (b ∷ bs) more in
      let (w, runs, rest) =
        fill-incoming fuel (stored host s len total (b ∷ bs)) (len + suc (length bs)) total more ys
          left (omega (arith, long)) (omega arith) in
      (
        w,
        fill_more host fuel s len total b bs (omega arith) got
            ∙ runs
            ∙ ap (λ m. filled (record { client = record (s.client) { buf = m }; world = w }))
                (sym (
                  ap (poke (s.client.buf) len) is_more
                  ∙ poke-append s.client.buf len (b ∷ bs) more)),
        rest,
      )

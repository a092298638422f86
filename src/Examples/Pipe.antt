-- ===== src/Examples/Pipe.antt =====
-- A host whose socket is a pipe: the world is the bytes that have not been read yet, all that is
-- sent is accepted, and a `recv` gives as many bytes as it is asked for. The callbacks do nothing.
use warp_pipe.Base.{
  ℕ, zero, suc, ◌≤◌, ◌<◌, ◌≡◌, refl, ap, ◌∙◌, arith, true, List, [], ◌∷◌, ◌++◌, Mem, length, pos,
  none, get_or, take, AreBytes,
}
use warp_pipe.Client.State.{Client, Host, received}
use warp_pipe.Client.Receive.Fill.{Delivers}

abbrev pub drop : ℕ → List ℕ → List ℕ
drop zero xs = xs
drop (suc n) [] = []
drop (suc n) (x ∷ xs) = drop n xs

length-take : (n : ℕ) (xs : List ℕ) → length (take n xs) ≤ n
length-take zero xs = omega arith
length-take (suc n) [] = omega arith
length-take (suc n) (x ∷ xs) = omega (arith, length-take n xs)

take-drop : (n : ℕ) (xs : List ℕ) → xs ≡ take n xs ++ drop n xs
take-drop zero xs = refl
take-drop (suc n) [] = refl
take-drop (suc n) (x ∷ xs) = ap (x ∷◌) (take-drop n xs)

pub take-append : (n : ℕ) (xs ys : List ℕ) → length xs ≡ n → take n (xs ++ ys) ≡ xs
take-append zero [] ys h = refl
take-append zero (x ∷ xs) ys h = absurd (omega arith)
take-append (suc n) [] ys h = absurd (omega arith)
take-append (suc n) (x ∷ xs) ys h = ap (x ∷◌) (take-append n xs ys (omega arith))

pub drop-append : (n : ℕ) (xs ys : List ℕ) → length xs ≡ n → drop n (xs ++ ys) ≡ ys
drop-append zero [] ys h = refl
drop-append zero (x ∷ xs) ys h = absurd (omega arith)
drop-append (suc n) [] ys h = absurd (omega arith)
drop-append (suc n) (x ∷ xs) ys h = drop-append n xs ys (omega arith)

abbrev pub pipe : Host
pipe = record {
  World = List ℕ;
  send = λ fd bytes w. (pos (length bytes), w);
  recv = λ fd n w. (received (take n w), drop n w);
  call_read =
      λ cb addr len client w. record { error = pos 0; written = []; client = client; world = w };
  call_write = λ cb addr payload len client w. (client, w);
  call_completion = λ cb error payload len client w. (client, w);
}

pub taken :
    (n : ℕ) (w : List ℕ)
    → 0 < n
    → n ≤ length w
    → (b : ℕ) × (bs : List ℕ) × (received (take n w) ≡ received (b ∷ bs))
      × (suc (length bs) ≤ n)
      × (w ≡ (b ∷ bs) ++ drop n w)
taken zero w p h = absurd (omega arith)
taken (suc n) [] p h = absurd (omega arith)
taken (suc n) (b ∷ w) p h =
    (b, take n w, refl, omega (arith, length-take n w), ap (b ∷◌) (take-drop n w))

abbrev pub pipe_delivers : Delivers pipe
pipe_delivers = record {
  incoming = λ w. w;
  some_bytes = λ fd n w p h. taken n w p h;
  whole_header = λ fd w xs ys e h. (
    ap (λ v. received (take 7 v)) e ∙ ap received (take-append 7 xs ys h),
    ap (drop 7) e ∙ drop-append 7 xs ys h,
  );
}

-- The memory that holds the bytes of a list, and 0 behind them.
abbrev pub memory_of : List ℕ → Mem
memory_of bytes i = get_or bytes i 0

pub memory_of-lt : (bytes : List ℕ) → AreBytes bytes → (i : ℕ) → memory_of bytes i < 256
memory_of-lt [] h i = omega arith
memory_of-lt (b ∷ bs) h zero = h.0
memory_of-lt (b ∷ bs) h (suc i) = memory_of-lt bs h.1 i

-- A client as `calloc` and `warppipe_client_create` leave it.
abbrev pub zeroed : Client
zeroed = record {
  fd = 0;
  seqno = 0;
  active = true;
  private_data = 0;
  bar_read_cb = λ _. none;
  bar_write_cb = λ _. none;
  bar = λ _. 0;
  bar_size = λ _. 0;
  cfg0_read_cb = none;
  cfg0_write_cb = none;
  completion_cb = λ _. none;
  read_tag = 0;
  buf = λ _. 0;
}

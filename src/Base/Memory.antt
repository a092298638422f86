-- ===== src/Base/Memory.antt =====
-- Memory as the bytes at the addresses of one object, counted from its start.
use Prim.Native.Nat.{ℕ, zero, suc, ◌+◌, ◌-◌, ◌≤◌, ◌<◌}
use mathlib.Core.Path.{◌≡◌, refl, sym, ap, ◌∙◌}
use mathlib.Core.Logic.{◌≢◌}
use mathlib.Core.Bool.{false}
use mathlib.Core.List.{List, [], ◌∷◌, ◌++◌}
use native.Mathlib.Omega.{arith}
use warp_pipe.Base.Tests.{==_refl, ltb, ◌==◌, if◌then◌else◌}

module _ {ℓ} {A : Type ℓ} where
  abbrev pub length : List A → ℕ
  length [] = 0
  length (x ∷ xs) = suc (length xs)

  pub length-append : (xs ys : List A) → length (xs ++ ys) ≡ length xs + length ys
  length-append [] ys = omega arith
  length-append (x ∷ xs) ys = omega (arith, length-append xs ys)

  abbrev pub get_or : List A → ℕ → A → A
  get_or [] i d = d
  get_or (x ∷ xs) zero d = x
  get_or (x ∷ xs) (suc i) d = get_or xs i d

  abbrev pub take : ℕ → List A → List A
  take zero xs = []
  take (suc n) [] = []
  take (suc n) (x ∷ xs) = x ∷ take n xs

  -- The entries of an array from `i` on.
  abbrev pub entries : (ℕ → A) → ℕ → ℕ → List A
  entries f i zero = []
  entries f i (suc n) = f i ∷ entries f (i + 1) n

  pub entries-take :
      (f : ℕ → A) (i n : ℕ) (xs : List A)
      → n ≤ length xs
      → ((j : ℕ) (d : A) → j < n → f (i + j) ≡ get_or xs j d)
      → entries f i n ≡ take n xs
  entries-take f i zero xs le same = refl
  entries-take f i (suc n) [] le same = absurd (omega arith)
  entries-take f i (suc n) (x ∷ xs) le same =
      let here : i + 0 ≡ i = omega arith in
      let first : f i ≡ x = ap f (sym here) ∙ same 0 x (omega arith) in
      let later : entries f (i + 1) n ≡ take n xs =
        entries-take f (i + 1) n xs (omega arith) (λ j d lt.
          let next : i + 1 + j ≡ i + suc j = omega arith in
          ap f next ∙ same (suc j) d (omega arith)) in
      λ t. first t ∷ later t

abbrev pub Mem : Type 0
Mem = ℕ → ℕ

-- `m[i] = v`
abbrev pub update {ℓ} : {A : Type ℓ} → (ℕ → A) → ℕ → A → ℕ → A
update m i v k = if k == i then v else m k

pub update_at {ℓ} : {A : Type ℓ} (m : ℕ → A) (i : ℕ) (v : A) → update m i v i ≡ v
update_at m i v = rw (==_refl i) refl

pub update_apart {ℓ} : {A : Type ℓ} (m : ℕ → A) (i k : ℕ) (v : A) → k ≢ i → update m i v k ≡ m k
update_apart m i k v apart = let other : (k == i) ≡ false = ground (arith, apart) in rw other refl

-- The memory that a pointer to `m[off]` sees.
abbrev pub view : ℕ → Mem → Mem
view off m k = m (off + k)

-- What a function that works on the object at `m[off]` leaves behind.
abbrev pub put_view : ℕ → Mem → Mem → Mem
put_view off m v k = if ltb k off then m k else v (k - off)

-- The `n` bytes from address `i` on.
unfoldable pub slice : Mem → ℕ → ℕ → List ℕ
slice m i zero = []
slice m i (suc n) = m i ∷ slice m (i + 1) n

-- `memcpy(m + i, bytes, length bytes)`
unfoldable pub poke : Mem → ℕ → List ℕ → Mem
poke m i [] = m
poke m i (b ∷ bs) = poke (update m i b) (i + 1) bs

pub length-slice : (m : Mem) (i n : ℕ) → length (slice m i n) ≡ n
unfolding slice
length-slice m i zero = refl
length-slice m i (suc n) = omega (arith, length-slice m (i + 1) n)

-- A slice depends on the bytes of its range only.
pub slice_ext :
    (m m' : Mem) (i n : ℕ) → ((k : ℕ) → i ≤ k → k < i + n → m k ≡ m' k) → slice m i n ≡ slice m' i n
unfolding slice
slice_ext m m' i zero h = refl
slice_ext m m' i (suc n) h = λ t.
    h i (omega arith) (omega arith) t
    ∷ slice_ext m m' (i + 1) n (λ k p q. h k (omega arith) (omega arith)) t

pub poke_below : (m : Mem) (i : ℕ) (bs : List ℕ) (k : ℕ) → k < i → poke m i bs k ≡ m k
unfolding poke
poke_below m i [] k h = refl
poke_below m i (b ∷ bs) k h = ground (arith, poke_below (update m i b) (i + 1) bs k)

pub poke_above : (m : Mem) (i : ℕ) (bs : List ℕ) (k : ℕ) → i + length bs ≤ k → poke m i bs k ≡ m k
unfolding poke
poke_above m i [] k h = refl
poke_above m i (b ∷ bs) k h = ground (arith, poke_above (update m i b) (i + 1) bs k)

pub slice-poke : (m : Mem) (i : ℕ) (bs : List ℕ) → slice (poke m i bs) i (length bs) ≡ bs
unfolding slice poke
slice-poke m i [] = refl
slice-poke m i (b ∷ bs) =
    ground (arith, poke_below (update m i b) (i + 1) bs i, slice-poke (update m i b) (i + 1) bs)

pub slice_split :
    (m : Mem) (i a b : ℕ) → slice m i (a + suc b) ≡ slice m i a ++ m (i + a) ∷ slice m (i + a + 1) b
unfolding slice
slice_split m i zero b =
    let one_more : 0 + suc b ≡ suc b = omega arith in
    let here : i + 0 ≡ i = omega arith in rw (one_more, here)
slice_split m i (suc a) b =
    let one_more : suc a + suc b ≡ suc (a + suc b) = omega arith in
    let there : i + suc a ≡ i + 1 + a = omega arith in
    rw (one_more, there, slice_split m (i + 1) a b)

-- Every byte of the list is one.
abbrev pub AreBytes : List ℕ → Type 0
AreBytes [] = Unit {0}
AreBytes (b ∷ bs) = (b < 256) × AreBytes bs

pub AreBytes-slice : (m : Mem) (i n : ℕ) → ((k : ℕ) → m k < 256) → AreBytes (slice m i n)
unfolding slice
AreBytes-slice m i zero h = tt
AreBytes-slice m i (suc n) h = (h i, AreBytes-slice m (i + 1) n h)

-- The bytes before and after address `j` are those that the memory had before a write to `j`.
pub slice-update_split :
    (m : Mem) (j v b : ℕ)
    → slice (update m j v) 0 (j + suc b) ≡ slice m 0 j ++ v ∷ slice m (j + 1) b
slice-update_split m j v b =
    let here : 0 + j ≡ j = omega arith in
    rw (
      slice_split (update m j v) 0 j b,
      here,
      ==_refl j,
      slice_ext (update m j v) m 0 j (λ k lo hi. ground arith),
      slice_ext (update m j v) m (j + 1) b (λ k lo hi. ground arith),
    )

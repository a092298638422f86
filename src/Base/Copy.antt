-- ===== src/Base/Copy.antt =====
-- Copies between packets and buffers: views, and bytes written over a range.
use Prim.Native.Nat.{ℕ, zero, suc, ◌+◌, ◌-◌, ◌≤◌, ◌<◌}
use mathlib.Core.Path.{◌≡◌, refl, sym, ap, fun_ext}
use mathlib.Core.List.{List, [], ◌∷◌, ◌++◌}
use native.Mathlib.Omega.{arith}
use warp_pipe.Base.Memory.{Mem, length, view, put_view, update, slice, poke, poke_below}

pub view-put_view : (off : ℕ) (m v : Mem) → view off (put_view off m v) ≡ v
view-put_view off m v =
    fun_ext λ k. let back : off + k - off ≡ k = omega arith in rw back (ground arith)

pub view-view : (a b : ℕ) (m : Mem) → view b (view a m) ≡ view (a + b) m
view-view a b m = fun_ext λ k. let sum : a + (b + k) ≡ a + b + k = omega arith in ap m sum

pub slice-view : (off : ℕ) (m : Mem) (i n : ℕ) → slice (view off m) i n ≡ slice m (off + i) n
unfolding slice
slice-view off m i zero = refl
slice-view off m i (suc n) =
    let next : off + (i + 1) ≡ off + i + 1 = omega arith in rw (slice-view off m (i + 1) n, next)

pub slice-append : (m : Mem) (i a b : ℕ) → slice m i (a + b) ≡ slice m i a ++ slice m (i + a) b
unfolding slice
slice-append m i zero b =
    let e : 0 + b ≡ b = omega arith in let f : i + 0 ≡ i = omega arith in rw (e, f)
slice-append m i (suc a) b =
    let e : suc a + b ≡ suc (a + b) = omega arith in
    let f : i + suc a ≡ i + 1 + a = omega arith in rw (e, f, slice-append m (i + 1) a b)

pub poke-append :
    (m : Mem) (i : ℕ) (xs ys : List ℕ) → poke m i (xs ++ ys) ≡ poke (poke m i xs) (i + length xs) ys
unfolding poke
poke-append m i [] ys = let e : i + 0 ≡ i = omega arith in rw e
poke-append m i (x ∷ xs) ys =
    let e : i + suc (length xs) ≡ i + 1 + length xs = omega arith in
    rw (e, poke-append (update m i x) (i + 1) xs ys)

-- Writing a slice of `q` where it stands in `q` makes the range that of `q`.
pub poke-slice : (m q : Mem) (i n k : ℕ) → i ≤ k → k < i + n → poke m i (slice q i n) k ≡ q k
unfolding poke slice
poke-slice m q i zero k lo hi = absurd (omega arith)
poke-slice m q i (suc n) k lo hi = ground (
  arith,
  poke_below (update m i (q i)) (i + 1) (slice q (i + 1) n) i,
  poke-slice (update m i (q i)) q (i + 1) n k,
)

-- Where the shorter of two beginnings of one list ends, the longer goes on.
pub append_split {ℓ} :
    {A : Type ℓ} (c a b d : List A)
    → a ++ b ≡ c ++ d
    → length c ≤ length a
    → (e : List A) × (a ≡ c ++ e) × (d ≡ e ++ b)
append_split [] a b d h l = (a, refl, sym h)
append_split (x ∷ c) [] b d h l = absurd (omega arith)
append_split (x ∷ c) (y ∷ a) b d h l =
    let rest = append_split c a b d (cc) (omega arith) in (rest.0, cc (rest.1), rest.2)

-- ===== src/Zephyr/Checked.antt =====
-- Programs with assertions, for zephyr-samples/pcie_native and zephyr-tests.
use warp_pipe.Base.{
  ℕ, Bool, true, false, Option, none, some, List, [], ◌∷◌, ◌==◌, ◌&&◌, ℤ, pos, negsuc,
}

-- What a program with assertions comes to. The loops end within their rounds, or not.
pub data Checked (A : Type 0) : Type 0 where
  done : A → Checked A
  assert_failed : Checked A
  out_of_rounds : Checked A

infixl 5 ◌>>=◌ ◌>>◌
abbrev pub ◌>>=◌ : {A B : Type 0} → Checked A → (A → Checked B) → Checked B
done a >>= f = f a
assert_failed >>= f = assert_failed
out_of_rounds >>= f = out_of_rounds

abbrev pub ◌>>◌ : {B : Type 0} → Checked (Unit {0}) → Checked B → Checked B
m >> k = m >>= λ _. k

abbrev pub assert : Bool → Checked (Unit {0})
assert true = done tt
assert false = assert_failed

abbrev pub within : {A : Type 0} → Option A → Checked A
within none = out_of_rounds
within (some a) = done a

-- Whether an `int` is `n`.
abbrev pub equals : ℕ → ℤ → Bool
equals n (pos m) = m == n
equals n (negsuc m) = false

abbrev pub is_minus_one : ℤ → Bool
is_minus_one (pos n) = false
is_minus_one (negsuc n) = n == 0

-- Whether two byte strings of the same length are equal.
unfoldable pub same_bytes : List ℕ → List ℕ → Bool
same_bytes [] [] = true
same_bytes (x ∷ xs) (y ∷ ys) = x == y && same_bytes xs ys
same_bytes [] (y ∷ ys) = false
same_bytes (x ∷ xs) [] = false

-- The text "hello".
abbrev pub hello : List ℕ
hello = 0x68 ∷ 0x65 ∷ 0x6c ∷ 0x6c ∷ 0x6f ∷ []

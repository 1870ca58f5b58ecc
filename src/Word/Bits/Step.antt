-- ===== src/Word/Bits/Step.antt =====
-- One equation of each native bit operator for the lowest bit, without the operator's fuel.
use Prim.Native.Nat.{min, max, digits, bitwise, bit_and-bitwise, bit_or-bitwise}
use syli.Prelude.{ℕ, zero, suc, ◌+◌, ◌*◌, ◌/◌, ◌%◌, ◌≤◌, bit_and, bit_or, ◌≡◌, refl, arith}

-- Enough fuel is as good as more.
digits-eq :
    (z : ℕ → ℕ) (f : ℕ → ℕ → ℕ) (n m a b : ℕ) → a ≤ n → a ≤ m → digits z f n a b ≡ digits z f m a b
digits-eq z f zero zero a b p q = refl
digits-eq z f zero (suc m) zero b p q = refl
digits-eq z f zero (suc m) (suc a) b p q = absurd (omega arith)
digits-eq z f (suc n) zero zero b p q = refl
digits-eq z f (suc n) zero (suc a) b p q = absurd (omega arith)
digits-eq z f (suc n) (suc m) zero b p q = refl
digits-eq z f (suc n) (suc m) (suc a) b p q =
    rw (digits-eq z f n m (suc a / 2) (b / 2) (omega arith) (omega arith))

-- The operator with `f` on bits and `z` past the end, at a number that is not 0
halved :
    (z : ℕ → ℕ) (f : ℕ → ℕ → ℕ) (x y : ℕ)
    → bitwise z f (suc x) y ≡ f (suc x % 2) (y % 2) + 2 * bitwise z f (suc x / 2) (y / 2)
halved z f x y =
    let less : suc x / 2 ≤ x = omega arith in
    omega (arith, digits-eq z f x (suc x / 2) (suc x / 2) (y / 2) less (omega arith))

module _ (y : ℕ) where
  pub bit_or-halves : (x : ℕ) → bit_or x y ≡ max (x % 2) (y % 2) + 2 * bit_or (x / 2) (y / 2)
  bit_or-halves (suc x) = simp bit_or-bitwise (halved (λ rest. rest) max x y)
  bit_or-halves zero = simp bit_or-bitwise (omega arith)

  pub bit_and-halves : (x : ℕ) → bit_and x y ≡ min (x % 2) (y % 2) + 2 * bit_and (x / 2) (y / 2)
  bit_and-halves (suc x) = simp bit_and-bitwise (halved (λ rest. 0) min x y)
  bit_and-halves zero = simp bit_and-bitwise (omega arith)

-- ===== src/Shared/Threads.antt =====
-- Families of threads: one of them replaced, and what all of them have together.
use syli.Prelude.{ℕ, zero, suc, ◌+◌, ◌≤◌, ◌<◌, ◌≡◌, refl, arith, ◌==◌, if◌then◌else◌}
use native.Mathlib.Decide.{dec_lt}

abbrev pub put {ℓ} : {A : Type ℓ} → (ℕ → A) → ℕ → A → ℕ → A
put f i a j = if j == i then a else f j

module _ {ℓ} {A : Type ℓ} (weight : A → ℕ) where
  -- Over the first `n` threads
  unfoldable pub total : ℕ → (ℕ → A) → ℕ
  total zero f = 0
  total (suc n) f = total n f + weight (f n)

  total-put_above : (n : ℕ) (f : ℕ → A) (i : ℕ) (a : A) → n ≤ i → total n (put f i a) ≡ total n f
  unfolding total
  total-put_above zero f i a h = refl
  total-put_above (suc n) f i a h = ground (arith, total-put_above n f i a)

  pub total-put :
      (n : ℕ) (f : ℕ → A) (i : ℕ) (a : A)
      → i < n
      → total n (put f i a) + weight (f i) ≡ total n f + weight a
  unfolding total
  total-put zero f i a h = absurd (omega arith)
  total-put (suc n) f i a h = elim (dec_lt i n) [
    | yes below ↦ ground (arith, total-put n f i a below)
    | no last ↦ ground (arith, total-put_above n f i a)
  ]

  pub total-member : (n : ℕ) (f : ℕ → A) (i : ℕ) → i < n → weight (f i) ≤ total n f
  unfolding total
  total-member zero f i h = absurd (omega arith)
  total-member (suc n) f i h = elim (dec_lt i n) [
    | yes below ↦ omega (arith, total-member n f i below)
    | no last ↦ ground arith
  ]

module _ {ℓ} {A : Type ℓ} (low high : A → ℕ) (below : (a : A) → low a ≤ high a) where
  total-le : (n : ℕ) (f : ℕ → A) → total low n f ≤ total high n f
  unfolding total
  total-le zero f = omega arith
  total-le (suc n) f = omega (arith, total-le n f, below (f n))

  -- What one thread has more, all of them have more.
  pub total-gap :
      (n : ℕ) (f : ℕ → A) (i : ℕ) → i < n → total low n f + high (f i) ≤ total high n f + low (f i)
  unfolding total
  total-gap zero f i h = absurd (omega arith)
  total-gap (suc n) f i h = elim (dec_lt i n) [
    | yes inside ↦ omega (arith, total-gap n f i inside, below (f n))
    | no last ↦ ground (arith, total-le n f)
  ]

pub total-same {ℓ} :
    {A : Type ℓ} (v w : A → ℕ) (n : ℕ) (f : ℕ → A)
    → ((i : ℕ) → v (f i) ≡ w (f i))
    → total v n f ≡ total w n f
unfolding total
total-same v w zero f h = refl
total-same v w (suc n) f h = omega (arith, total-same v w n f h, h n)

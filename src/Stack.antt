-- ===== src/Stack.antt =====
-- What a chunked vector promises: a stack with the newest element first, whose elements are
-- numbered from the oldest.
use syli.Prelude.{
  ℕ, ◌+◌, ◌-◌, ◌≡◌, ◌<◌, refl, Option, none, some, List, [], ◌∷◌, length, ◌==◌, if◌then◌else◌,
  arith,
}

abbrev pub Stack : Type 0 → Type 0
Stack A = List A

module _ {A : Type 0} where
  unfoldable pub at : Stack A → ℕ → Option A
  at [] i = none
  at (x ∷ xs) i = if i == length xs then some x else at xs i

  unfoldable pub set_at : Stack A → ℕ → A → Stack A
  set_at [] i y = []
  set_at (x ∷ xs) i y = if i == length xs then y ∷ xs else x ∷ set_at xs i y

  unfoldable pub push : A → Stack A → Stack A
  push x xs = x ∷ xs

  unfoldable pub pop : Stack A → Stack A
  pop [] = []
  pop (x ∷ xs) = xs

  unfoldable pub back : Stack A → Option A
  back [] = none
  back (x ∷ xs) = some x

  pub at-ge_length : (xs : Stack A) (i : ℕ) → length xs - i ≡ 0 → at xs i ≡ none
  unfolding at
  at-ge_length [] i h = refl
  at-ge_length (x ∷ xs) i h = ground (arith, at-ge_length xs i (omega arith))

  pub length-set_at : (xs : Stack A) (i : ℕ) (y : A) → length (set_at xs i y) ≡ length xs
  unfolding set_at
  length-set_at [] i y = refl
  length-set_at (x ∷ xs) i y = ground (arith, length-set_at xs i y)

  pub at-set_at :
      (xs : Stack A) (i j : ℕ) (y : A)
      → i < length xs
      → at (set_at xs i y) j ≡ (if i == j then some y else at xs j)
  unfolding at set_at
  at-set_at [] i j y h = absurd (omega arith)
  at-set_at (x ∷ xs) i j y h = ground (arith, at-set_at xs i j y, length-set_at xs i y)

  pub at-pop : (xs : Stack A) (i : ℕ) → i + 1 < length xs → at (pop xs) i ≡ at xs i
  unfolding at pop
  at-pop [] i h = refl
  at-pop (x ∷ xs) i h = ground arith

  pub back-at : (xs : Stack A) → back xs ≡ at xs (length xs - 1)
  unfolding at back
  back-at [] = refl
  back-at (x ∷ xs) = ground arith

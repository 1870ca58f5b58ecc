-- ===== src/Tracing/Colours/Weight.antt =====
-- How much is left to trace: the words of the objects that are not marked, the worklist
-- and what the mutations own.
use syli.Prelude.{
  suc, ℕ, ◌+◌, ◌≤◌, ◌≡◌, sym, ap, ◌∙◌, Bool-cases, inl, inr, true, false, List, [], ◌∷◌, Memᴰ,
  length, if◌then◌else◌, arith,
}
use syli.Pointer
use syli.State.{State}
use syli.Tracing.Colours.{Graph, words, is_marked}

module _ (g : Graph) where
  abbrev left_at : State → ℕ → ℕ
  left_at s o = if is_marked s o then 0 else length (words g o)

  unfoldable pub left_of : State → List ℕ → ℕ
  left_of s [] = 0
  left_of s (o ∷ os) = left_at s o + left_of s os

  -- What the mutations have to look at, each with a round of its own
  unfoldable pub pending_of : List ℕ → ℕ
  pending_of [] = 0
  pending_of (p ∷ ps) = suc (length (words g (Pointer.untag p))) + pending_of ps

  abbrev pub weight : State → ℕ
  weight s =
      left_of s g.objects + length s.tracing_worklist + pending_of s.tracing_mutations_worklist

  left_at-le :
      (s t : State) (o : ℕ)
      → (is_marked s o ≡ true → is_marked t o ≡ true)
      → left_at t o ≤ left_at s o
  left_at-le s t o grows = elim (Bool-cases (is_marked s o)) [
    | inl black ↦ rw (grows black, black) (omega arith)
    | inr white ↦ elim (Bool-cases (is_marked t o)) [
      | inl black ↦ rw black (omega arith)
      | inr still ↦ rw (white, still) (omega arith)
    ]
  ]

  -- Marking more leaves no more.
  pub left_of-le :
      (s t : State) (os : List ℕ)
      → ((o : ℕ) → is_marked s o ≡ true → is_marked t o ≡ true)
      → left_of t os ≤ left_of s os
  unfolding left_of
  left_of-le s t [] grows = omega arith
  left_of-le s t (o ∷ os) grows = omega (arith, left_at-le s t o (grows o), left_of-le s t os grows)

  -- Marking an object takes its words away.
  pub left_of-mark :
      (s t : State) (o : ℕ) (os : List ℕ)
      → ((q : ℕ) → is_marked s q ≡ true → is_marked t q ≡ true)
      → is_marked s o ≡ false
      → is_marked t o ≡ true
      → Memᴰ o os
      → left_of t os + length (words g o) ≤ left_of s os
  unfolding left_of
  left_of-mark s t o [] grows white black m = elim m [ ]
  left_of-mark s t o (q ∷ os) grows white black (Memᴰ.head e) =
      let before : left_at s q ≡ length (words g o) =
        ap (left_at s) (sym e) ∙ ap (λ b. if b then 0 else length (words g o)) white in
      let after : left_at t q ≡ 0 =
        ap (left_at t) (sym e) ∙ ap (λ b. if b then 0 else length (words g o)) black in
      omega (arith, before, after, left_of-le s t os grows)
  left_of-mark s t o (q ∷ os) grows white black (Memᴰ.tail m) =
      omega (arith, left_at-le s t q (grows q), left_of-mark s t o os grows white black m)

-- All the words of the objects
unfoldable pub word_count : Graph → List ℕ → ℕ
word_count g [] = 0
word_count g (o ∷ os) = length (words g o) + word_count g os

pub left_of-word_count : (g : Graph) (s : State) (os : List ℕ) → left_of g s os ≤ word_count g os
unfolding left_of word_count
left_of-word_count g s [] = omega arith
left_of-word_count g s (o ∷ os) = elim (Bool-cases (is_marked s o)) [
  | inl black ↦ rw black (omega (arith, left_of-word_count g s os))
  | inr white ↦ rw white (omega (arith, left_of-word_count g s os))
]

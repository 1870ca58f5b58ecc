-- ===== src/Gc/Numbers.antt =====
-- The numbers of the candidates of runtime/include/syli/gc_helpers.h, and the objects they stand for.
use syli.Prelude.{ℕ, ◌+◌, ◌-◌, ◌<◌, ◌≡◌, ◌≢◌, sym, ap, ◌∙◌, [], ◌∷◌, some, length, arith}
use syli.Prelude.Options.{some-inj}
use syli.Pointer
use syli.Stack
use syli.State.{State}
use syli.Gc.Candidates.{IsCandidate-unique, Registered, at-lt_length}
use syli.Gc.Register.{at-push_lt}

pub length-pop : (xs : Stack.Stack ℕ) → length (Stack.pop xs) ≡ length xs - 1
unfolding Stack.pop
length-pop [] = omega arith
length-pop (x ∷ xs) = omega arith

pub at-pop_inv :
    (xs : Stack.Stack ℕ) (i p : ℕ)
    → Stack.at (Stack.pop xs) i ≡ some p
    → (Stack.at xs i ≡ some p) × (i + 1 < length xs)
unfolding Stack.pop
at-pop_inv [] i p h = (h, absurd (omega (arith, at-lt_length [] i p h)))
at-pop_inv (x ∷ xs) i p h = (at-push_lt xs x i p h, omega (arith, at-lt_length xs i p h))

pub at_last :
    (xs : Stack.Stack ℕ) → 0 < length xs → (m : ℕ) × (Stack.at xs (length xs - 1) ≡ some m)
unfolding Stack.back
at_last [] h = absurd (omega arith)
at_last (x ∷ xs) h = (x, sym (Stack.back-at (x ∷ xs)))

-- Candidates of two numbers are two objects.
pub distinct :
    (s : State) (i p j q : ℕ)
    → Registered s
    → Stack.at s.cyclic_candidates i ≡ some p
    → Stack.at s.cyclic_candidates j ≡ some q
    → i ≢ j
    → Pointer.untag p ≢ Pointer.untag q
distinct s i p j q registered found found' other same =
    other (IsCandidate-unique (registered.each i p found) (rw same (registered.each j q found')))

-- Numbers of candidates that are two objects differ.
pub apart :
    (xs : Stack.Stack ℕ) (i p j q : ℕ)
    → Stack.at xs i ≡ some p
    → Stack.at xs j ≡ some q
    → Pointer.untag p ≢ Pointer.untag q
    → i ≢ j
apart xs i p j q found found' other e =
    other (ap Pointer.untag (some-inj (sym found ∙ ap (Stack.at xs) e ∙ found')))

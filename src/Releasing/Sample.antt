-- ===== src/Releasing/Sample.antt =====
-- A state with an object that waits to be released, for tests.
use syli.Prelude.{◌≡◌, Bool-cases, inl, inr, true, none, some, [], ◌∷◌, ◌==◌, if◌then◌else◌, arith}
use syli.Header
use syli.State.{State}
use syli.State.Sample.{pair, start}
use syli.Releasing.Budget.{Small}

-- The pair is referred to no more, and waits to be released.
abbrev pub waiting_pair : State
waiting_pair = record start {
  heap = λ p. if p == 16 then some (record pair { meta = 0 }) else none;
  releasing_waitlist = 17 ∷ [];
  budget_gc_releasing = 5000;
  releasing_budget = 5000;
}

pub waiting_pair-Small : Small waiting_pair
unfolding Header.payload
waiting_pair-Small o b h = elim (Bool-cases (o == 16)) [
  | inl e ↦ rw⁻¹ (same e) (omega arith)
  | inr e ↦ absurd (ground arith)
]
  where
    same : (o == 16) ≡ true → record pair { meta = 0 } ≡ b
    same e = ground arith

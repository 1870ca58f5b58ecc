-- ===== src/Vector/Tests.antt =====
-- Concrete vectors, and the theorems applied to them.
use syli.Prelude.{
  ℕ, zero, suc, ◌+◌, ◌*◌, ◌<◌, ◌≤◌, ◌≡◌, refl, true, false, none, some, List, [], ◌∷◌, ◌==◌,
  if◌then◌else◌, arith,
}
use mathlib.Core.Option
use syli.Vector.{Vector, Slot, read, write, push_back, alloc_slot, pop_back}
use syli.Vector.Inv.{IsValid}
use syli.Vector.Refine.{Holds, slot, push_back-Holds, alloc_slot-push_back, pop_back-Holds}
use syli.Vector.Run.{
  Op, add, drop, newest, count, reset, number, done, element, amount, run, stack_run, run_refines,
}
use syli.Vector.Failure.{IsFull, push_back-lost, alloc_slot-wild}
use syli.Stack
use syli.Stack.{Stack}

abbrev junk : ℕ → ℕ
junk i = 7

-- The elements 10 and 11 in the first chunk
abbrev two_items : Vector ℕ
two_items = record {
  chunks = λ i. if i == 0 then some (λ j. j + 10) else none;
  array_len = 64;
  chunk_count = 1;
  chunk_array_capacity = 64;
  active_chunk = 0;
  active_offset = 2;
  total_elements = 2;
}

two_items-IsValid : IsValid two_items
two_items-IsValid = record {
  array = refl;
  counted = omega arith;
  slack = omega arith;
  active = omega arith;
  offset = omega arith;
  total = refl;
  exist = λ c h. ground arith;
}

abbrev two_elements : Stack ℕ
two_elements = 11 ∷ 10 ∷ []

two_items-read : (i : ℕ) → i < 2 → read two_items (slot i) ≡ Stack.at two_elements i
unfolding read Stack.at
two_items-read zero h = refl
two_items-read (suc zero) h = refl
two_items-read (suc (suc i)) h = absurd (omega arith)

two_items-Holds : Holds two_items two_elements
two_items-Holds = record { valid = two_items-IsValid; count = refl; items = two_items-read }

abbrev calls : List (Op ℕ)
calls = add 12 ∷ newest ∷ drop ∷ drop ∷ number 0 ∷ count ∷ reset ∷ newest ∷ []

run_refines_example :
    run junk two_items calls
    ≡ some (
        done
        ∷ element (some 12)
        ∷ done
        ∷ done
        ∷ element (some 10)
        ∷ amount 1
        ∷ done
        ∷ element none
        ∷ [])
unfolding stack_run Stack.push Stack.pop Stack.back Stack.at
run_refines_example = run_refines junk calls two_items-Holds (omega arith)

push_back-Holds_example :
    (v' : Vector ℕ) × (push_back true true junk 12 two_items ≡ some v')
    × Holds v' (12 ∷ two_elements)
    × (v'.chunk_count ≤ 2)
push_back-Holds_example = push_back-Holds junk 12 two_items-Holds (omega arith)

alloc_slot-push_back_example :
    Option.bind
      (alloc_slot true true junk two_items)
      (λ (s, v'). Option.bind s (λ p. write v' p 12))
    ≡ push_back true true junk 12 two_items
alloc_slot-push_back_example = alloc_slot-push_back junk 12 two_items

pop_back-Holds_example : Holds (pop_back two_items) (Stack.pop two_elements)
pop_back-Holds_example = pop_back-Holds two_items-Holds

-- 64 full chunks, which is all that the array has room for
abbrev full : Vector ℕ
full = record {
  chunks = λ i. some junk;
  array_len = 64;
  chunk_count = 64;
  chunk_array_capacity = 64;
  active_chunk = 63;
  active_offset = 512;
  total_elements = 64 * 512;
}

full-IsFull : IsFull full
full-IsFull = record {
  valid = record {
    array = refl;
    counted = omega arith;
    slack = omega arith;
    active = omega arith;
    offset = omega arith;
    total = refl;
    exist = λ c h. ground arith;
  };
  chunk_full = refl;
  array_full = refl;
  small = omega arith;
}

push_back-lost_example :
    (v' : Vector ℕ) × (push_back false true junk 1 full ≡ some v')
    × (v'.total_elements ≡ 64 * 512)
    × (push_back true true junk 2 v' ≡ none)
push_back-lost_example = push_back-lost true true true junk 1 2 full-IsFull

alloc_slot-wild_example :
    (v' : Vector ℕ) × (alloc_slot false true junk full ≡ some (none, v'))
    × (s : Slot) × (Option.map (λ r. r.0) (alloc_slot true true junk v') ≡ some (some s))
    × (read v' s ≡ none)
alloc_slot-wild_example = alloc_slot-wild true true true junk full-IsFull

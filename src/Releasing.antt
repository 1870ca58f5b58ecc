-- ===== src/Releasing.antt =====
-- runtime/src/syli_state_gc_releasing.c: objects whose count is 0 release their children, step by
-- step within a budget.
pub mod Budget
pub mod Loop
pub mod Sample
mod Tests
use syli.Prelude.{
  ℕ, zero, suc, ◌+◌, ◌-◌, ◌%◌, ◌^◌, Bool, true, false, Option, none, some, List, [], ◌∷◌, length,
  ltb, leb, ◌==◌, ◌||◌, not, if◌then◌else◌,
}
use syli.Word.{u64}
use syli.Header
use syli.Pointer
use syli.Stack
use syli.Stack.{Stack}
use syli.State.{State, ReleasingState, releasing_idle, releasing, spend, is_spent}
use syli.State.Monad.{
  Result, ok, fault, assert_failed, M, pure, and_then, ◌>>=◌, ◌>>◌, assert, asserted, get_state,
  modify, load,
}
use syli.Object
use syli.Gc
use syli.Traverse.{traverse}

-- The count of a child has reached 0.
pub child_dead : (o ptr : ℕ) → M (Unit {0})
child_dead o ptr = do
  b ← load o
  if Header.has_pointers b.header then Gc.releasing_worklist_push ptr else Gc.free_released_object o

pub child_release_object : ℕ → M (Unit {0})
child_release_object ptr = do
  assert (not (ptr == 0))
  Object.decr_local (Pointer.untag ptr)
  count ← Object.refcount (Pointer.untag ptr)
  if ltb 0 count then pure tt else child_dead (Pointer.untag ptr) ptr

pub spend_releasing : ℕ → M (Unit {0})
spend_releasing n = modify λ s. record s { releasing_budget = spend s.releasing_budget n }

-- `gc_vector_pop_back` of the releasing worklist
pub pop_releasing : M ℕ
pop_releasing s = elim s.releasing_worklist [
  | [] ↦ assert_failed
  | p ∷ ps ↦ ok p (record s { releasing_worklist = ps })
]

-- An object is taken from the worklist, its children are released, and it is freed.
pub release_popped : ℕ → M (Unit {0})
release_popped ptr = do
  traverse child_release_object spend_releasing spend_releasing (Pointer.untag ptr)
  count ← Object.refcount (Pointer.untag ptr)
  assert (count == 0)
  Gc.free_released_object (Pointer.untag ptr)

pub one_step_releasing : M (Unit {0})
one_step_releasing = do spend_releasing 1; ptr ← pop_releasing; release_popped ptr

-- The two vectors are swapped and the new waitlist is cleared.
pub set_releasing_working : M (Unit {0})
set_releasing_working =
    modify λ s. record s { releasing_worklist = s.releasing_waitlist; releasing_waitlist = [] }

-- One round of the loop: `true` is a return.
unfoldable pub releasing_round : ReleasingState → M Bool
releasing_round releasing_idle = do
  s ← get_state
  if ltb (length s.releasing_waitlist) s.threshold_releasing_bucket
        || length s.releasing_waitlist == 0
      then pure true
      else (do
        set_releasing_working
        modify (λ s. record s { releasing_state = releasing })
        pure false)
releasing_round releasing = do
  one_step_releasing
  modify (λ s. record s { releasing_steps = u64 (s.releasing_steps + 1) })
  modify (λ s. record s {
    releasing_state =
        if length s.releasing_worklist == 0 then releasing_idle else s.releasing_state;
  })
  pure false

-- The loop, with fuel for its rounds: `none` is a loop that has not ended.
unfoldable pub gc_releasing : ℕ → State → Option (Result (Unit {0}))
gc_releasing zero s = none
gc_releasing (suc fuel) s = elim (is_spent s.releasing_budget) [
  | true ↦ some (ok tt s)
  | false ↦ elim (releasing_round s.releasing_state s) [
    | ok true s' ↦ some (ok tt s')
    | ok false s' ↦ gc_releasing fuel s'
    | fault ↦ some fault
    | assert_failed ↦ some assert_failed
  ]
]

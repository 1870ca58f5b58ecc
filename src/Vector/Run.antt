-- ===== src/Vector/Run.antt =====
-- A client's calls of a chunked vector in order, against the same calls of a stack.
use mathlib.Core.Option
use syli.Prelude.{ℕ, ◌+◌, ◌^◌, ◌<◌, ◌≡◌, refl, true, Option, some, List, [], ◌∷◌, length, arith}
use syli.Vector.{Vector, read, push_back, pop_back, back, at, clear, size}
use syli.Vector.Refine.{Holds, push_back-Holds, pop_back-Holds, back-Holds, at-Holds, clear-Holds}
use syli.Stack
use syli.Stack.{Stack}

pub data Op (A : Type 0) : Type 0 where
  add : A → Op A
  drop newest count reset : Op A
  number : ℕ → Op A

pub data Reply (A : Type 0) : Type 0 where
  done : Reply A
  element : Option A → Reply A
  amount : ℕ → Reply A

module _ {A : Type 0} where
  -- Every allocation succeeds, and leaves `junk` in a new chunk.
  pub step : (ℕ → A) → Op A → Vector A → Option (Reply A × Vector A)
  step junk (add x) v = Option.map (λ v'. (done, v')) (push_back true true junk x v)
  step junk drop v = some (done, pop_back v)
  step junk newest v = some (element (Option.bind (back v) (read v)), v)
  step junk (number i) v = some (element (Option.bind (at v i) (read v)), v)
  step junk count v = some (amount (size v), v)
  step junk reset v = some (done, clear v)

  pub run : (ℕ → A) → Vector A → List (Op A) → Option (List (Reply A))
  run junk v [] = some []
  run junk v (op ∷ ops) =
      Option.bind (step junk op v) (λ (r, v'). Option.map (λ rs. r ∷ rs) (run junk v' ops))

  unfoldable pub stack_run : Stack A → List (Op A) → List (Reply A)
  stack_run xs [] = []
  stack_run xs (add x ∷ ops) = done ∷ stack_run (Stack.push x xs) ops
  stack_run xs (drop ∷ ops) = done ∷ stack_run (Stack.pop xs) ops
  stack_run xs (newest ∷ ops) = element (Stack.back xs) ∷ stack_run xs ops
  stack_run xs (number i ∷ ops) = element (Stack.at xs i) ∷ stack_run xs ops
  stack_run xs (count ∷ ops) = amount (length xs) ∷ stack_run xs ops
  stack_run xs (reset ∷ ops) = done ∷ stack_run [] ops

  chunk_count-pop_back : (v : Vector A) → (pop_back v).chunk_count ≡ v.chunk_count
  unfolding pop_back
  chunk_count-pop_back v = ground arith

  -- While allocation succeeds, no sequence of calls tells a vector that holds `xs` from the stack
  -- `xs`, nor does one access memory out of bounds, as long as the chunks and the calls stay
  -- below 2 ^ 30 together.
  pub run_refines :
      (junk : ℕ → A) (ops : List (Op A)) {v : Vector A} {xs : Stack A}
      → Holds v xs
      → v.chunk_count + length ops < 2 ^ 30
      → run junk v ops ≡ some (stack_run xs ops)
  unfolding run stack_run step Option.bind Stack.push size clear
  run_refines junk [] h small = refl
  run_refines junk (add x ∷ ops) h small =
      let (v', made, h', grown) = push_back-Holds junk x h (omega arith) in
      rw made (rw (run_refines junk ops h' (omega arith)))
  run_refines junk (drop ∷ ops) {v} h small =
      rw (run_refines junk ops (pop_back-Holds h) (omega (arith, chunk_count-pop_back v)))
  run_refines junk (newest ∷ ops) h small = rw (back-Holds h, run_refines junk ops h (omega arith))
  run_refines junk (number i ∷ ops) h small =
      rw (at-Holds i h (omega arith), run_refines junk ops h (omega arith))
  run_refines junk (count ∷ ops) h small = rw (run_refines junk ops h (omega arith), h.count)
  run_refines junk (reset ∷ ops) h small = rw (run_refines junk ops (clear-Holds h) (omega arith))

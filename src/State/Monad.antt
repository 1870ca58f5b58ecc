-- ===== src/State/Monad.antt =====
-- Code that reads and changes the state, and may fault or fail an assertion.
use syli.Prelude.{not, ℕ, Bool, true, false, Option, none, some, ◌==◌, if◌then◌else◌}
use syli.State.{Block, Heap, State}

-- `fault` is an access through a null or dangling pointer or out of an object's bounds, and
-- `assert_failed` an `assert` that does not hold.
pub data Result (A : Type 0) : Type 0 where
  ok : A → State → Result A
  fault assert_failed : Result A

abbrev pub M : Type 0 → Type 0
M A = State → Result A

abbrev pub pure : {A : Type 0} → A → M A
pure a s = ok a s

abbrev pub and_then : {A B : Type 0} → Result A → (A → M B) → Result B
and_then (ok a s) k = k a s
and_then fault k = fault
and_then assert_failed k = assert_failed

infixl 5 ◌>>=◌ ◌>>◌
abbrev pub ◌>>=◌ : {A B : Type 0} → M A → (A → M B) → M B
◌>>=◌ m k s = and_then (m s) k

abbrev pub ◌>>◌ : {A B : Type 0} → M A → M B → M B
m >> k = m >>= λ _. k

abbrev pub get_state : M State
get_state s = ok s s

abbrev pub modify : (State → State) → M (Unit {0})
modify f s = ok tt (f s)

abbrev pub assert : Bool → M (Unit {0})
assert true s = ok tt s
assert false s = assert_failed

-- A value whose computation asserts something
abbrev pub asserted : {A : Type 0} → Option A → M A
asserted none s = assert_failed
asserted (some a) s = ok a s

abbrev pub or_fault : {A : Type 0} → Option A → M A
or_fault none s = fault
or_fault (some a) s = ok a s

abbrev pub update : Heap → ℕ → Option Block → Heap
update h p b q = if p == q then b else h q

-- `*p`, at the address of an object
unfoldable pub load : ℕ → M Block
load p s = or_fault (s.heap p) s

-- The same after the assertion that `p` is not null
unfoldable pub load_object : ℕ → M Block
load_object p = do assert (not (p == 0)); load p

unfoldable pub store : ℕ → Block → M (Unit {0})
store p b s = ok tt (record s { heap = update s.heap p (some b) })

-- `free(p)`, at the address of an object
unfoldable pub free : ℕ → M (Unit {0})
unfolding load
free p = load p >> modify (λ s. record s { heap = update s.heap p none })

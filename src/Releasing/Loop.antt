-- ===== src/Releasing/Loop.antt =====
-- The loop of `syli_state_gc_releasing` ends within its budget.
use syli.Prelude.{
  ℕ, ◌+◌, ◌*◌, ◌^◌, ◌<◌, ◌≡◌, ◌⊎◌, Bool, true, length, ltb, ◌==◌, ◌||◌, if◌then◌else◌,
}
use syli.Word.{u64}
use syli.State.{State, releasing_idle, releasing, is_spent}
use syli.State.Monad.{Result, ok, fault, assert_failed}
use syli.Releasing.Budget.{Small}

-- Too few objects wait to be released.
abbrev pub few_waiting : State → Bool
few_waiting s =
    ltb (length s.releasing_waitlist) s.threshold_releasing_bucket
    || length s.releasing_waitlist == 0

-- How many rounds are left at most, from the state `s`.
abbrev pub rounds : State → ℕ
rounds s =
    if is_spent s.releasing_budget
    then 1
    else (2 * s.releasing_budget + (elim s.releasing_state [ releasing_idle ↦ 2 | releasing ↦ 1 ]))

-- The state after a round, which is nearer to the end
record Nearer (s s' : State) : Type 0 where
  small : Small s'
  fewer : rounds s' < rounds s
  bounded : s'.releasing_budget < 2 ^ 32

-- What a round does once its step is over
abbrev stepped : State → State
stepped t = record t {
  releasing_steps = u64 (t.releasing_steps + 1);
  releasing_state = if length t.releasing_worklist == 0 then releasing_idle else t.releasing_state;
}

-- A call that ends well has spent its budget, or is idle with few objects waiting.
abbrev pub Ended : Result (Unit {0}) → Type 0
Ended (ok a s) =
    (is_spent s.releasing_budget ≡ true)
    ⊎ ((s.releasing_state ≡ releasing_idle) × (few_waiting s ≡ true))
Ended fault = Unit
Ended assert_failed = Unit

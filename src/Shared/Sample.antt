-- ===== src/Shared/Sample.antt =====
-- Two threads on one word: the first sets a flag while the second gives up its reference between
-- the load and the exchange of the first, which goes round its loop once.
use syli.Prelude.{◌+◌, ◌^◌, ◌≡◌, refl, false, [], ◌∷◌, ◌==◌, if◌then◌else◌, arith}
use syli.Meta
use syli.Meta.{tracing, refcount}
use syli.Shared
use syli.Shared.{
  System, Reach, access, exchange, counted, claimed, outside, decr_shared, set_flags_shared, start,
  later, call, go, hand, enter, advance, give,
}
use syli.Shared.Threads.{total}
use syli.Shared.Safety.{IsStart}

-- Marked, and counted three times
abbrev pub first : System
first = record {
  word = 2 ^ 63 + 3;
  threads = λ i. record { held = if i == 0 then 3 else 0; pc = outside };
  log = [];
}

pub first-IsStart : IsStart 2 first
unfolding total refcount
first-IsStart = record {
  fits = omega arith;
  count = refl;
  fewer = omega arith;
  idle = λ i. refl;
  fresh = refl;
}

-- The first thread hands a reference over, and loads the word for setting the flag.
abbrev pub handed : System
handed = give first 0 1 1

abbrev pub flagging : System
flagging = advance (enter handed 0 (set_flags_shared tracing)) 0 false

pub flagging-Reach : Reach 2 first flagging
unfolding access exchange total claimed
flagging-Reach =
    later
      (later (later start (hand 0 1 1 (omega arith) (omega arith) (omega arith)))
        (call 0 (set_flags_shared tracing) (omega arith) refl (omega arith) (omega arith)))
      (go 0 false (omega arith))

-- The second gives its reference up.
abbrev pub entering : System
entering = enter flagging 1 decr_shared

pub entering-Reach : Reach 2 flagging entering
unfolding access exchange total claimed
entering-Reach = later start (call 1 decr_shared (omega arith) refl (omega arith) (omega arith))

abbrev pub given_up : System
given_up = advance (advance entering 1 false) 1 false

pub given_up-Reach : Reach 2 first given_up
unfolding access exchange total claimed
given_up-Reach =
    later
      (later
        (later flagging-Reach (call 1 decr_shared (omega arith) refl (omega arith) (omega arith)))
        (go 1 false (omega arith)))
      (go 1 false (omega arith))

-- The exchange of the first fails, and the next one does not.
abbrev pub last : System
last = advance (advance (advance given_up 0 false) 0 false) 0 false

pub last-Reach : Reach 2 first last
last-Reach =
    later (later (later given_up-Reach (go 0 false (omega arith))) (go 0 false (omega arith)))
      (go 0 false (omega arith))

last_lem :
    (last.log ≡ set_flags_shared tracing ∷ decr_shared ∷ [])
    × (last.word ≡ 2 ^ 63 + 2 ^ 58 + 2)
    × ((last.threads 0).pc ≡ outside)
unfolding access exchange Shared.effect Meta.set_flags Meta.decr_n refcount
last_lem = (refl, refl, refl)

-- ===== src/Shared.antt =====
-- runtime/include/syli/object.h, the functions on the meta word of a shared object, as threads run
-- them at the same time: each access to the word is one step, and the steps of the threads come in
-- any order. A weak compare-and-exchange may fail on an equal word.
pub mod Threads
pub mod Calls
pub mod Inv
pub mod Safety
pub mod Sample
mod Tests
use syli.Prelude.{
  ℕ, ◌+◌, ◌-◌, ◌≤◌, ◌<◌, ◌^◌, ◌≡◌, Bool, true, false, not, ◌&&◌, ◌==◌, ltb, leb, List, [], ◌∷◌,
  ◌++◌, if◌then◌else◌,
}
use syli.Meta.{MetaFlag, incr, decr_n, set_flags, clear_flags, refcount}
use syli.Shared.Threads.{put, total}

-- A call of one of the functions on a shared object
pub data Call : Type 0 where
  incr_shared decr_shared : Call
  decr_shared_n : ℕ → Call
  set_flags_shared clear_flags_shared : MetaFlag → Call

-- Where a thread stands: outside the functions, before the first access of a call, before the
-- subtraction that follows the assertion, before the exchange with the word it has loaded, or
-- stopped by the assertion.
pub data Pc : Type 0 where
  outside stopped : Pc
  entered checked : Call → Pc
  loaded : Call → ℕ → Pc

-- What a call does to the word when nothing comes between
unfoldable pub effect : Call → ℕ → ℕ
effect incr_shared m = incr m
effect decr_shared m = decr_n m 1
effect (decr_shared_n n) m = decr_n m n
effect (set_flags_shared f) m = set_flags m f
effect (clear_flags_shared f) m = clear_flags m f

-- A thread, with the number of references it owns
pub record Thread : Type 0 where
  pub held : ℕ
  pub pc : Pc

-- The references that a call gives up when it is entered, and those it has when it returns
abbrev pub price : Call → ℕ
price decr_shared = 1
price (decr_shared_n n) = n
price _ = 0

abbrev pub gain : Call → ℕ
gain incr_shared = 1
gain _ = 0

-- The word and the thread after an access, with the call that took effect
pub record Outcome : Type 0 where
  pub word : ℕ
  pub thread : Thread
  pub done : List Call

abbrev pub stay : ℕ → ℕ → Pc → Outcome
stay m h p = record { word = m; thread = record { held = h; pc = p }; done = [] }

-- The access takes effect on `m`, and the call returns.
abbrev pub return : ℕ → ℕ → Call → Outcome
return m h c = record {
  word = effect c m;
  thread = record { held = h + gain c; pc = outside };
  done = c ∷ [];
}

-- The exchange of a loop that has loaded `old`, on the word `m`: the loop begins again when the
-- word is another one, or the exchange fails for no reason.
unfoldable pub exchange : (spurious : Bool) → (m h : ℕ) → Call → (old : ℕ) → Outcome
exchange spurious m h c old =
    if m == old && not spurious then return old h c else stay m h (entered c)

-- The next access of a thread that owns `h` references; `spurious` is whether an exchange fails
-- for no reason.
unfoldable pub access : (spurious : Bool) → ℕ → (h : ℕ) → Pc → Outcome
access spurious m h (entered incr_shared) = return m h incr_shared
access spurious m h (entered decr_shared) =
    stay m h (if ltb 0 (refcount m) then checked decr_shared else stopped)
access spurious m h (entered (decr_shared_n n)) =
    stay m h (if leb n (refcount m) then checked (decr_shared_n n) else stopped)
access spurious m h (entered c) = stay m h (loaded c m)
access spurious m h (checked c) = return m h c
access spurious m h (loaded c old) = exchange spurious m h c old
access spurious m h p = stay m h p

-- The word, the threads, and the calls that took effect, the last one first
pub record System : Type 0 where
  pub word : ℕ
  pub threads : ℕ → Thread
  pub log : List Call

-- The references that a thread owns or is giving up
unfoldable pub counted : Thread → ℕ
counted t = elim t.pc [
  | entered c ↦ t.held + price c
  | checked c ↦ t.held + price c
  | loaded c _ ↦ t.held + price c
  | _ ↦ t.held
]

-- The same with those it is about to have
unfoldable pub claimed : Thread → ℕ
claimed t = elim t.pc [
  | entered c ↦ t.held + price c + gain c
  | checked c ↦ t.held + price c + gain c
  | loaded c _ ↦ t.held + price c + gain c
  | _ ↦ t.held
]

abbrev pub enter : System → ℕ → Call → System
enter s i c = record s {
  threads = put s.threads i (record { held = (s.threads i).held - price c; pc = entered c });
}

abbrev pub advance : System → ℕ → Bool → System
advance s i spurious =
    let o : Outcome = access spurious s.word (s.threads i).held (s.threads i).pc in
    record { word = o.word; threads = put s.threads i o.thread; log = o.done ++ s.log }

abbrev pub give : System → ℕ → ℕ → ℕ → System
give s i j k =
    let u : ℕ → Thread = put s.threads i (record (s.threads i) { held = (s.threads i).held - k }) in
    record s { threads = put u j (record (u j) { held = (u j).held + k }) }

-- What `n` threads do. The conditions are those of the callers: a call gives up only references
-- that its thread owns, a new reference is made by a thread that owns one and must fit in the
-- memory, and a thread may hand references that it owns to another.
pub data Step (n : ℕ) (s : System) : System → Type 0 where
  call :
      (i : ℕ) (c : Call)
      → i < n
      → (s.threads i).pc ≡ outside
      → price c + gain c ≤ (s.threads i).held
      → total claimed n s.threads + gain c < 2 ^ 56
      → Step n s (enter s i c)
  go : (i : ℕ) (spurious : Bool) → i < n → Step n s (advance s i spurious)
  hand : (i j k : ℕ) → i < n → j < n → k ≤ (s.threads i).held → Step n s (give s i j k)

pub data Reach (n : ℕ) (s : System) : System → Type 0 where
  start : Reach n s s
  later : {t u : System} → Reach n s t → Step n t u → Reach n s u

-- The calls of the log, run one after the other
unfoldable pub run_calls : List Call → ℕ → ℕ
run_calls [] m = m
run_calls (c ∷ cs) m = effect c (run_calls cs m)

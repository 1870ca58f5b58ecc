-- ===== src/Lib.antt =====
-- The runtime of Syli, the C library that every compiled program is linked with
-- (runtime/include/syli and runtime/src): tagged pointers, reference-counted objects, and the
-- incremental collector of released objects and of lost cycles. Of the compiler, in OCaml, only
-- the layout of a string literal is modelled, which the runtime reads.
--
-- The parts and their files
--   Header     runtime/include/syli/header_object.h: the header word of an object
--              (`syli_object_make_header` is `make_header`, and so on without the prefix).
--   Pointer    runtime/include/syli/object.h: the ownership tag in the low bits of a pointer.
--   Meta       runtime/include/syli/object.h: the meta word, with count, flags and mark.
--   Object     runtime/include/syli/object.h: the same on an object of the heap, by its zone;
--              Object/Counts has the counter that its functions are.
--   Shared     runtime/include/syli/object.h: the same on one shared object, as several threads run
--              them, an access to its meta word at a time.
--   Vector     runtime/include/syli/chunk_vector.h: the growable stack that holds the worklists;
--              Stack is the stack that it behaves as.
--   State      runtime/include/syli/syli_state.h: the global state, with the heap as a function
--              from addresses to objects; State/Monad is the code that reads and changes it, with
--              an invalid access and a failed assertion as its two ends other than a return;
--              State/Frame is what every step of the collector leaves alone.
--   Gc         runtime/include/syli/gc_helpers.h: candidates, marking, accounting and freeing.
--   Traverse   the walk over the references of an object, which stands in both collector files.
--   Releasing  runtime/src/syli_state_gc_releasing.c: objects whose count is 0.
--   Tracing    runtime/src/syli_state_gc_tracing.c: marking, and the release of lost cycles;
--              Tracing/Colours has the invariant of the marking, for a graph of objects in use,
--              and Api/Barrier the writes to them while a trace is under way; a Course is any order
--              of rounds of the tracing, writes and new budgets.
--   Roots      runtime/src/syli_state_gc_roots.c: the search of the stack map table;
--              Roots/Section reads the section of stack maps, byte by byte, and builds the table;
--              Roots/Frames decodes locations and collects the frames of the stack. Roots/Format
--              says what the bytes of a section are, as LLVM documents it.
--   Env        runtime/src/env.c: the tuning values from the environment.
--   Runtime    runtime/src/syli_state.c: initialisation, destruction, and the cycle.
--   Foreign    runtime/src/syli_foreign_primitives.c: strings; Foreign/Report is the line on the
--              state of the collector, Foreign/Literal the layout of a literal in
--              compiler/target_llvm/gen_llvm.ml.
--   Api        runtime/src/syli.c: what compiled programs call (`syli_rt_ownership_release` is
--              `ownership_release`, and so on).
--   Prelude and Word are shared: Boolean tests, lists and bit operations over native numbers.
--
-- How they interact: the API counts references and puts an object whose count is 0 on the
-- waitlist; releasing takes the waitlist as its worklist, releases the children of each object
-- and frees it; tracing marks what the stack reaches and then releases the candidates that it
-- did not mark. They share the one state, and an object that is freed leaves the candidates. A
-- cycle fills the budgets and calls releasing, then tracing. The table of stack maps is kept
-- beside the state, as an argument and a result of the code in Roots that uses it.
--
-- Words, assertions and memory: a machine word is a natural number with its wrap-around written
-- out, an `int` budget its 32-bit pattern. Assertions are taken as enabled. An object is the block
-- at its address: two header words, the whole 64-bit words behind them and the bytes that are left.
-- What `malloc` returns, and whether it fails, are arguments; the size that it is asked for wraps as
-- a `size_t`. The vectors of the state are stacks, which never fail to grow. Elsewhere than in
-- Shared there is one thread, in which the atomic operations on shared objects have the effect of
-- the plain ones. In Shared the accesses of the threads come one after the other, in any order.
--
-- Fuel: the loop of releasing and that of tracing, and the search of the table, run on fuel for
-- their rounds. `Releasing.Loop.rounds` fuel is enough for releasing, and one more than the entries
-- for the search. Of tracing, the marking of a closed graph has a bound in its references and the
-- roots, and so has the reclaiming of marked candidates.
--
-- Parameters: the comparison of two doubles; `getenv`, `strtoull` and `strtod`; the bytes of the
-- section of stack maps and its bounds; and the stack, as the frames that unwinding finds, their
-- registers and the words in memory. Tracing takes the roots as words.
--
-- Not modelled: unwinding, and its variant for macOS; what `printf` makes of numbers and
-- characters; `syli_match_failure`, which aborts; `main`.
pub mod Prelude
pub mod Word
pub mod Header
pub mod Pointer
pub mod Meta
pub mod Stack
pub mod Vector
pub mod State
pub mod Object
pub mod Env
pub mod Foreign
pub mod Gc
pub mod Traverse
pub mod Releasing
pub mod Tracing
pub mod Roots
pub mod Shared
pub mod Runtime
pub mod Api

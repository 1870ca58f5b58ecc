-- ===== src/Roots/Cache.antt =====
-- runtime/src/syli_state_gc_roots.c: the table that is kept between collections.
use syli.Prelude.{ℕ, ◌≡◌, ◌≢◌, refl, Bool, true, false, Option, none, some, List, ◌==◌, arith}
use syli.State.Monad.{pure, ◌>>◌}
use syli.Roots.Section.{build_stackmap_record_entry}
use syli.Roots.Format.{StackMap, Fits, print, function_entries, records_at}
use syli.Roots.Build.{build_record_entry-print}
use syli.Roots.Frames.{Frame, collect_frames, stack_roots_ready, collect_stack_roots}

-- A collection with a table of a section that says `m`, kept in the state or not, collects the
-- frames with the table of `m` and keeps it, when the section is not null and not empty. Without a
-- table `calloc` has to succeed. So the first collection and those behind it do the same.
pub collect_stack_roots-kept :
    (word : ℕ → Option ℕ) (start stop : ℕ) (m : StackMap) (frames : List Frame)
    → Fits m
    → start ≢ 0
    → stop ≢ 0
    → start ≢ stop
    → let table = function_entries start (records_at m) m.functions in
      let kept = collect_frames word start (print m) table frames >> pure (some table) in
      (collect_stack_roots word start (print m) true stop none frames ≡ kept)
      × ((calloc_ok : Bool)
          → collect_stack_roots word start (print m) calloc_ok stop (some table) frames ≡ kept)
unfolding collect_stack_roots stack_roots_ready build_stackmap_record_entry
collect_stack_roots-kept word start stop m frames fits there there' more =
    let there : (start == 0) ≡ false = ground arith in
    let there' : (stop == 0) ≡ false = ground arith in
    let more : (start == stop) ≡ false = ground arith in
    (
      rw (there, there', more, build_record_entry-print start m fits) refl,
      λ calloc_ok. rw (there, there', more) refl,
    )

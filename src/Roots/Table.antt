-- ===== src/Roots/Table.antt =====
-- runtime/src/syli_state_gc_roots.c: which record each entry of the table stands for, and what is
-- collected from a frame by its instruction pointer.
use mathlib.Core.Option
use syli.Prelude.{
  ℕ, zero, suc, ◌+◌, ◌%◌, ◌^◌, ◌<◌, ◌≡◌, ◌≢◌, ◌⊎◌, inl, inr, refl, sym, ap, ◌∙◌, Option, some, List,
  [], ◌∷◌, ◌++◌, get_elem?, length, All, arith,
}
use syli.State.Monad.{M, pure}
use syli.Tracing.{push_roots}
use syli.Roots.{RecordEntry}
use syli.Roots.Search.{Sorted, lookup_record_entry-Answers}
use syli.Roots.Format.{
  MapRecord, MapFunction, StackMap, concat, print_record, RecordFits, FunctionFits, Fits, print,
  entry_of, entries_of, function_entries, records_at, count_records,
}
use syli.Roots.Bytes.{At, At-front, At-back}
use syli.Roots.Build.{records-At, length-function_entries}
use syli.Roots.Frames.{collect_entry, collect_frame}
use syli.Roots.Collect.{decode_all, or_fault-some, collect_entry-print_record}

get_elem?-append_left :
    {A : Type 0} (xs ys : List A) (j : ℕ) (a : A)
    → get_elem? xs j ≡ some a
    → get_elem? (xs ++ ys) j ≡ some a
get_elem?-append_left [] ys j a h = cc
get_elem?-append_left (x ∷ xs) ys zero a h = h
get_elem?-append_left (x ∷ xs) ys (suc j) a h = get_elem?-append_left xs ys j a h

get_elem?-append_right :
    {A : Type 0} (xs ys : List A) (j : ℕ) (a : A)
    → get_elem? ys j ≡ some a
    → (k : ℕ) × (get_elem? (xs ++ ys) k ≡ some a)
get_elem?-append_right [] ys j a h = (j, h)
get_elem?-append_right (x ∷ xs) ys j a h =
    let (k, found) = get_elem?-append_right xs ys j a h in (suc k, found)

get_elem?-append :
    {A : Type 0} (xs ys : List A) (j : ℕ) (a : A)
    → get_elem? (xs ++ ys) j ≡ some a
    → (get_elem? xs j ≡ some a) ⊎ ((k : ℕ) × (get_elem? ys k ≡ some a))
get_elem?-append [] ys j a h = inr (j, h)
get_elem?-append (x ∷ xs) ys zero a h = inl h
get_elem?-append (x ∷ xs) ys (suc j) a h = get_elem?-append xs ys j a h

-- The section has the record `r` of the function `f`.
abbrev pub Says : List MapFunction → MapFunction → MapRecord → Type 0
Says fs f r = (a : ℕ) × (b : ℕ) × (get_elem? fs a ≡ some f) × (get_elem? f.records b ≡ some r)

entries_of-get_elem? :
    (start addr i : ℕ) (rs : List MapRecord) (j : ℕ) (r : MapRecord)
    → get_elem? rs j ≡ some r
    → (k : ℕ) × (get_elem? (entries_of start addr i rs) j ≡ some (entry_of start addr k r))
unfolding entries_of
entries_of-get_elem? start addr i [] j r h = cc
entries_of-get_elem? start addr i (r ∷ rs) zero r' h =
    (i, ap (Option.map (entry_of start addr i)) h)
entries_of-get_elem? start addr i (r ∷ rs) (suc j) r' h =
    entries_of-get_elem? start addr (i + length (print_record r)) rs j r' h

function_entries-get_elem? :
    (start i : ℕ) (fs : List MapFunction) (f : MapFunction) (r : MapRecord)
    → Says fs f r
    → (k : ℕ) × (j : ℕ) × (get_elem? (function_entries start i fs) j
        ≡ some (entry_of start f.addr k r))
unfolding function_entries
function_entries-get_elem? start i [] f r (a, b, h, h') = cc
function_entries-get_elem? start i (g ∷ fs) f r (zero, b, h, h') =
    let (k, found) = entries_of-get_elem? start f.addr i f.records b r h' in
    let same : g ≡ f = ground (arith, h) in
    (k, b, rw same (get_elem?-append_left (entries_of start f.addr i f.records) _ b _ found))
function_entries-get_elem? start i (g ∷ fs) f r (suc a, b, h, h') =
    let next = i + length (concat print_record g.records) in
    let (k, j, found) = function_entries-get_elem? start next fs f r (a, b, h, h') in
    let (j', there) =
      get_elem?-append_right (entries_of start g.addr i g.records) (function_entries start next fs)
        j _ found in
    (k, j', there)

module _ {bytes : List ℕ} (start : ℕ) where
  entries_of-inv :
      (addr i : ℕ) (rs : List MapRecord) (j : ℕ) (e : RecordEntry)
      → All RecordFits rs
      → At bytes i (concat print_record rs)
      → get_elem? (entries_of start addr i rs) j ≡ some e
      → (r : MapRecord) × (k : ℕ) × (get_elem? rs j ≡ some r)
        × (e ≡ entry_of start addr k r)
        × RecordFits r
        × At bytes k (print_record r)
  unfolding entries_of
  entries_of-inv addr i [] j e fits at h = cc
  entries_of-inv addr i (r ∷ rs) zero e (fits, rest) at h =
      (r, i, refl, ground (arith, h), fits, At-front _ _ at)
  entries_of-inv addr i (r ∷ rs) (suc j) e (fits, rest) at h =
      entries_of-inv addr (i + length (print_record r)) rs j e rest
        (At-back (print_record r) _ refl at) h

  function_entries-inv :
      (i : ℕ) (fs : List MapFunction) (j : ℕ) (e : RecordEntry)
      → All FunctionFits fs
      → At bytes i (concat (λ f. concat print_record f.records) fs)
      → get_elem? (function_entries start i fs) j ≡ some e
      → (f : MapFunction) × (r : MapRecord) × (k : ℕ) × Says fs f r
        × (e ≡ entry_of start f.addr k r)
        × RecordFits r
        × At bytes k (print_record r)
  unfolding function_entries
  function_entries-inv i [] j e fits at h = cc
  function_entries-inv i (g ∷ fs) j e ((_, _, records_fit), rest) at h =
      let next = i + length (concat print_record g.records) in
      elim (get_elem?-append (entries_of start g.addr i g.records) (function_entries start next fs)
        j e h) [
          | inl here ↦
              let (r, k, found, shape, fits, stands) =
                entries_of-inv g.addr i g.records j e records_fit (At-front _ _ at) here in
              (g, r, k, (0, j, refl, found), shape, fits, stands)
          | inr (j', there) ↦
              let (f, r, k, (a, b, found, found'), shape, fits, stands) =
                function_entries-inv next fs j' e rest
                  (At-back (concat print_record g.records) _ refl at) there in
              (f, r, k, (suc a, b, found, found'), shape, fits, stands)
        ]

-- The section says no record for the program counter, and nothing is collected, or it says the
-- record `r` for it, and when the locations of `r` name words, these are pushed in their order.
abbrev pub Collects :
    (word : ℕ → Option ℕ) (start : ℕ) (m : StackMap) (ip : ℕ) (register : ℕ → Option ℕ)
    → M (Unit {0})
    → Type 0
Collects word start m ip register code =
    ((code ≡ pure tt)
      × ((f : MapFunction) (r : MapRecord)
          → Says m.functions f r
          → (f.addr + r.instr_offset) % 2 ^ 64 ≢ ip))
    ⊎ ((f : MapFunction) × (r : MapRecord) × Says m.functions f r
        × ((f.addr + r.instr_offset) % 2 ^ 64 ≡ ip)
        × ((values : List ℕ)
            → decode_all word register r.locations ≡ some values
            → code ≡ push_roots values))

-- For the bytes of a section whose numbers fit, at an address that is not null, with fewer than
-- `2 ^ 31` records and in the order of program counters: with the table of the section, a frame
-- collects nothing when the section has no record for its instruction pointer. Otherwise the
-- section has one, and the words that its locations name, when they can be read, are pushed in
-- their order.
pub collect_frame-Collects :
    (word : ℕ → Option ℕ) (start : ℕ) (m : StackMap) (ip : ℕ) (register : ℕ → Option ℕ)
    → Fits m
    → start ≢ 0
    → count_records m.functions < 2 ^ 31
    → Sorted (function_entries start (records_at m) m.functions)
    → Collects word start m ip register (
        collect_frame word start
          (print m)
          (function_entries start (records_at m) m.functions)
          ip
          register)
unfolding collect_frame collect_entry
collect_frame-Collects word start m ip register (_, _, _, fits) there few sorted =
    let table = function_entries start (records_at m) m.functions in
    let (e, found, answers) =
      lookup_record_entry-Answers table ip sorted
        (omega (arith, few, length-function_entries start (records_at m) m.functions)) in
    let run = or_fault-some (collect_entry word start (print m) register) found in
    elim answers [
      | inr (unknown, none_known) ↦ inl (
        run ∙ ap (collect_entry word start (print m) register) unknown,
        (λ f r says same.
            let (k, j, held) =
              function_entries-get_elem? start (records_at m) m.functions f r says in
            none_known j (entry_of start f.addr k r) held same),
      )
      | inl (j, held, here) ↦
          let (f, r, k, says, shape, record_fits, stands) =
            function_entries-inv start (records_at m) m.functions j e fits (records-At m) held in
          inr (
            f,
            r,
            says,
            sym (ap (λ x. x.pc) shape) ∙ here,
            λ values decoded.
                run
                ∙ ap (collect_entry word start (print m) register) shape
                ∙ collect_entry-print_record word register start f.addr k r values record_fits
                    stands there decoded,
          )
    ]

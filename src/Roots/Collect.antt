-- ===== src/Roots/Collect.antt =====
-- runtime/src/syli_state_gc_roots.c: collecting the frames of the stack is pushing the words that
-- the section names for them.
use mathlib.Core.Option
use syli.Prelude.{
  Option-cases, false, ℕ, ◌+◌, ◌-◌, ◌≡◌, ◌≢◌, inl, inr, refl, sym, ap, ◌∙◌, Option, some, List, [],
  ◌∷◌, length, All, ◌==◌, arith,
}
use syli.State.Monad.{M, ◌>>=◌, ◌>>◌, or_fault}
use syli.Tracing.{push_roots}
use syli.Roots.Section.{read_location, Location}
use syli.Roots.Format.{
  MapRecord, concat, le_bytes, print_location, print_record, LocationFits, RecordFits, entry_of,
}
use syli.Roots.Bytes.{At, At-front, At-back, read_le-le_bytes}
use syli.Roots.Record.{read_record-print_record, record-locations}
use syli.Roots.Frames.{decode_location, collect_value, collect_locations, collect_entry}

read_location-print_location :
    {bytes : List ℕ} {i : ℕ} (l : Location)
    → LocationFits l
    → At bytes i (print_location l)
    → read_location bytes i ≡ some l
unfolding read_location
read_location-print_location {i = i} l (kind_fits, size_fits, reg_fits, offset_fits) at =
    let size_at : At _ (i + 2) _ =
      At-back (le_bytes 1 0) _ (omega arith) (At-back (le_bytes 1 l.kind) _ refl at) in
    let reg_at : At _ (i + 4) _ = At-back (le_bytes 2 l.size) _ (omega arith) size_at in
    let offset_at : At _ (i + 8) _ =
      At-back (le_bytes 2 0) _ (omega arith) (At-back (le_bytes 2 l.dwarf_reg) _ refl reg_at) in
    rw
      (
        read_le-le_bytes 1 l.kind kind_fits (At-front _ _ at),
        read_le-le_bytes 2 l.size size_fits (At-front _ _ size_at),
        read_le-le_bytes 2 l.dwarf_reg reg_fits (At-front _ _ reg_at),
        read_le-le_bytes 4 l.offset offset_fits offset_at,
      )
      refl

pub or_fault-some :
    {A B : Type 0} {o : Option A} {a : A} (k : A → M B) → o ≡ some a → (or_fault o >>= k) ≡ k a
or_fault-some k e = ap (λ (o : Option _). or_fault o >>= k) e

module _ (word register : ℕ → Option ℕ) where
  -- The words that the locations of a record name
  unfoldable pub decode_all : List Location → Option (List ℕ)
  decode_all [] = some []
  decode_all (l ∷ ls) =
      Option.bind (decode_location word register l)
        (λ value. Option.map (λ values. value ∷ values) (decode_all ls))

  decode_all-cons :
      (l : Location) (ls : List Location) (values : List ℕ)
      → decode_all (l ∷ ls) ≡ some values
      → (v : ℕ) × (vs : List ℕ) × (decode_location word register l ≡ some v)
        × (decode_all ls ≡ some vs)
        × (values ≡ (v ∷ vs))
  unfolding decode_all Option.bind
  decode_all-cons l ls values h = elim (Option-cases (decode_location word register l)) [
    | inl e ↦ absurd (ground (arith, h, e))
    | inr (v, e) ↦ elim (Option-cases (decode_all ls)) [
      | inl e' ↦ absurd (ground (arith, h, e, e'))
      | inr (vs, e') ↦ (v, vs, e, e', ground (arith, h, e, e'))
    ]
  ]

  module _ {bytes : List ℕ} (start : ℕ) where
    collect_locations-concat :
        (i : ℕ) (ls : List Location) (values : List ℕ)
        → All LocationFits ls
        → At bytes i (concat print_location ls)
        → decode_all ls ≡ some values
        → collect_locations word start bytes register (length ls) i ≡ push_roots values
    unfolding collect_locations decode_all push_roots collect_value
    collect_locations-concat i [] values fits at decoded =
        let e : values ≡ [] = ground (arith, decoded) in rw e refl
    collect_locations-concat i (l ∷ ls) values (fits, rest) at decoded =
        let (v, vs, e, e', shape) = decode_all-cons l ls values decoded in
        or_fault-some _ (read_location-print_location l fits (At-front _ _ at))
        ∙ or_fault-some _ e
        ∙ ap (λ (more : M (Unit {0})). collect_value v >> more)
            (collect_locations-concat (i + 12) ls vs rest (At-back (print_location l) _ refl at) e')
        ∙ ap push_roots (sym shape)

    -- The roots of the frame at a call whose record stands at `i`
    pub collect_entry-print_record :
        (addr i : ℕ) (r : MapRecord) (values : List ℕ)
        → RecordFits r
        → At bytes i (print_record r)
        → start ≢ 0
        → decode_all r.locations ≡ some values
        → collect_entry word start bytes register (entry_of start addr i r) ≡ push_roots values
    unfolding collect_entry
    collect_entry-print_record addr i r values fits at there decoded =
        let (_, _, _, locations_fit) = fits in
        let locations_there : (start + i + 16 == 0) ≡ false = ground arith in
        let record_there : (start + i == 0) ≡ false = ground arith in
        let record_here : start + i - start ≡ i = omega arith in
        let locations_here : start + i + 16 - start ≡ i + 16 = omega arith in
        rw
          (
            locations_there,
            record_there,
            record_here,
            read_record-print_record r fits at,
            locations_here,
          )
          (collect_locations-concat (i + 16) r.locations values locations_fit
            (At-front _ _ (record-locations r at)) decoded)

-- ===== src/Meta/Tests.antt =====
-- Concrete meta words, and the theorems applied to them.
use syli.Prelude.{ℕ, ◌+◌, ◌^◌, ◌<◌, ◌≡◌, arith}
use syli.Meta.{MetaFlag, has_flags, refcount, mark_tag, set_mark}
use syli.Meta.Count.{set_mark_lem}

-- Marked, with the first flag and three references
abbrev word : ℕ
word = 2 ^ 63 + 2 ^ 56 + 3

set_mark_lem_example :
    (mark_tag (set_mark 0 word) ≡ 0)
    × (refcount (set_mark 0 word) ≡ refcount word)
    × ((f : MetaFlag) → has_flags (set_mark 0 word) f ≡ has_flags word f)
    × (set_mark 0 word < 2 ^ 64)
set_mark_lem_example = set_mark_lem 0 word (omega arith) (omega arith)

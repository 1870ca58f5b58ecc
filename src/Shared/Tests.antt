-- ===== src/Shared/Tests.antt =====
-- The theorems on the threads, applied to the run of `Sample` and to a shared object.
use syli.Prelude.{ℕ, ◌≤◌, ◌<◌, ◌≡◌, refl, false, [], ◌∷◌}
use syli.Meta.{MetaFlag, tracing, refcount, mark_tag, has_flags}
use syli.Shared.{counted, run_calls, access, exchange, loaded, set_flags_shared}
use syli.Shared.Threads.{total}
use syli.Shared.Inv.{is_stopped, flag_of}
use syli.Shared.Safety.{Reach-counts, Reach-linear, Reach-exchange}
use syli.Shared.Sample.{
  first, first-IsStart, flagging, flagging-Reach, entering, entering-Reach, last, last-Reach,
}

Reach-counts_example :
    ((i : ℕ) → is_stopped (last.threads i) ≡ false)
    × (refcount last.word ≡ total counted 2 last.threads)
    × ((i : ℕ) → i < 2 → counted (last.threads i) ≤ refcount last.word)
Reach-counts_example = Reach-counts first-IsStart last-Reach

Reach-linear_example :
    (last.word ≡ run_calls last.log first.word)
    × ((g : MetaFlag) → has_flags last.word g ≡ flag_of last.log g (has_flags first.word g))
    × (mark_tag last.word ≡ mark_tag first.word)
Reach-linear_example = Reach-linear first-IsStart last-Reach

-- The second thread has entered its call, and has not taken effect.
Reach-exchange_example :
    (access false entering.word 2 (loaded (set_flags_shared tracing) flagging.word)).done
    ≡ set_flags_shared tracing ∷ []
unfolding access exchange
Reach-exchange_example =
    Reach-exchange first-IsStart flagging-Reach 0 (set_flags_shared tracing) entering-Reach refl
      refl

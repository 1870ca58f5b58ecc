-- ===== src/Foreign/Tests.antt =====
-- A string literal in a concrete heap, and the theorems applied to it.
use syli.Prelude.{
  ℕ, ◌+◌, ◌^◌, ◌<◌, ◌≡◌, ◌≢◌, refl, some, none, List, [], ◌∷◌, length, ◌==◌, if◌then◌else◌, arith,
}
use syli.State.{State}
use syli.State.Monad.{ok}
use syli.State.Sample.{start}
use syli.Foreign.{print_string}
use syli.Foreign.Literal.{string_word_count, string_object_init}
use syli.Foreign.Bytes.{AreBytes}
use syli.Foreign.RoundTrip.{print_string-string_object_init}

-- "helloworld"
abbrev helloworld : List ℕ
helloworld = 104 ∷ 101 ∷ 108 ∷ 108 ∷ 111 ∷ 119 ∷ 111 ∷ 114 ∷ 108 ∷ 100 ∷ []

abbrev with_literal : State
with_literal = record start {
  heap = λ p. if p == 4096 then some (string_object_init helloworld) else none;
}

helloworld-AreBytes : AreBytes helloworld
helloworld-AreBytes = (
  omega arith,
  (
    omega arith,
    (
      omega arith,
      (
        omega arith,
        (
          omega arith,
          (omega arith, (omega arith, (omega arith, (omega arith, (omega arith, tt))))),
        ),
      ),
    ),
  ),
)

two_words : string_word_count (length helloworld) < 2 ^ 32
unfolding string_word_count
two_words = omega arith

at_4096 : ◌≢◌ {A = ℕ} 4096 0
at_4096 e = absurd (omega (arith, e))

print_string-string_object_init_example :
    print_string (4096 + 2) with_literal ≡ ok helloworld with_literal
print_string-string_object_init_example =
    print_string-string_object_init with_literal 4096 helloworld helloworld-AreBytes two_words
      at_4096 refl (omega arith) refl

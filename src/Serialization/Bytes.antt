-- ===== src/Serialization/Bytes.antt =====
-- The bytes of a number, as `copy` of include/hypercomm/serialization/serdes.hpp moves them.
-- The machine is one that stores the low byte first; a `std::size_t` has eight bytes.
use native.Mathlib.Nat.{pow-suc}
use hypercomm.Base.{
  ℕ, zero, suc, ◌+◌, ◌*◌, ◌/◌, ◌%◌, ◌^◌, ◌<◌, ◌≡◌, refl, ap, List, [], ◌∷◌, ◌++◌, Option, none,
  some, arith, length, ◌>>=◌,
}

-- `sizeof(std::size_t)`.
abbrev pub word_size : ℕ
word_size = 8

unfoldable pub put_word : ℕ → ℕ → List ℕ
put_word zero n = []
put_word (suc w) n = n % 256 ∷ put_word w (n / 256)

-- `none` is a read past the end.
unfoldable pub get_word : ℕ → List ℕ → Option (ℕ × List ℕ)
get_word zero bytes = some (0, bytes)
get_word (suc w) [] = none
get_word (suc w) (b ∷ bytes) = get_word w bytes >>= λ (n, rest). some (b + 256 * n, rest)

pub length-put_word : (w n : ℕ) → length (put_word w n) ≡ w
unfolding put_word
length-put_word zero n = refl
length-put_word (suc w) n = ap suc (length-put_word w (n / 256))

pub get_word-put_word :
    (w n : ℕ) (rest : List ℕ) → n < 256 ^ w → get_word w (put_word w n ++ rest) ≡ some (n, rest)
unfolding put_word get_word
get_word-put_word zero n rest h = ground arith
get_word-put_word (suc w) n rest h =
    let split : n < 256 ^ w * 256 = simp (← pow-suc) h in
    let small : n / 256 < 256 ^ w = omega arith in
    rw (get_word-put_word w (n / 256) rest small) (ground arith)

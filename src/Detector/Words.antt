-- ===== src/Detector/Words.antt =====
-- The word table `BIP39Words` of internal/detector/bip39.go.
mod First
mod Second
mod Third
use First.{first_words}
use Second.{second_words}
use Third.{third_words}
use Prim.Native.String.{String}
use dnn_daemon.Common.{
  Bool, true, false, ◌≡◌, refl, ◌||◌, ◌&&◌, List, [], ◌∷◌, ◌++◌, leb, length, Bool-cases, inl, inr,
  all, arith, ◌≤◌, if◌then◌else◌,
}
use mathlib.Core.Bool.{false≢true}
use dnn_daemon.Common.Bytes.{Bytes, codes, equal, equal→eq}

-- A lookup in the table: a missing key reads as `false`.
is_listed : Bytes → List String → Bool
unfolding equal
is_listed w [] = false
is_listed w (v ∷ vs) = let rest = is_listed w vs in if equal (codes v) w then true else rest

unfoldable pub in_first : Bytes → Bool
unfolding is_listed first_words
in_first w = is_listed w first_words

unfoldable pub in_second : Bytes → Bool
unfolding is_listed second_words
in_second w = is_listed w second_words

unfoldable pub in_third : Bytes → Bool
unfolding is_listed third_words
in_third w = is_listed w third_words

unfoldable pub bip39_words : Bytes → Bool
bip39_words w = in_first w || in_second w || in_third w

-- A word as the prefix search needs it: three to eight lowercase letters.
abbrev pub word_shape : Bytes → Bool
word_shape w = leb 3 (length w) && leb (length w) 8 && all (λ c. leb b'a' c && leb c b'z') w

abbrev all_have : (Bytes → Bool) → List String → Bool
all_have p [] = true
all_have p (v ∷ vs) = p (codes v) && all_have p vs

is_listed-all :
    (p : Bytes → Bool) (w : Bytes) (vs : List String)
    → all_have p vs ≡ true
    → is_listed w vs ≡ true
    → p w ≡ true
unfolding is_listed
is_listed-all p w [] h k = absurd (false≢true k)
is_listed-all p w (v ∷ vs) h k = ground (arith, is_listed-all p w vs, equal→eq (codes v) w)

first_shapes : all_have word_shape first_words ≡ true
unfolding first_words
first_shapes = refl

unfold_first : (w : Bytes) → in_first w ≡ true → is_listed w first_words ≡ true
unfolding in_first
unfold_first w h = h

in_first-word_shape : (w : Bytes) → in_first w ≡ true → word_shape w ≡ true
in_first-word_shape w h = is_listed-all word_shape w first_words first_shapes (unfold_first w h)

second_shapes : all_have word_shape second_words ≡ true
unfolding second_words
second_shapes = refl

unfold_second : (w : Bytes) → in_second w ≡ true → is_listed w second_words ≡ true
unfolding in_second
unfold_second w h = h

in_second-word_shape : (w : Bytes) → in_second w ≡ true → word_shape w ≡ true
in_second-word_shape w h = is_listed-all word_shape w second_words second_shapes (unfold_second w h)

third_shapes : all_have word_shape third_words ≡ true
unfolding third_words
third_shapes = refl

unfold_third : (w : Bytes) → in_third w ≡ true → is_listed w third_words ≡ true
unfolding in_third
unfold_third w h = h

in_third-word_shape : (w : Bytes) → in_third w ≡ true → word_shape w ≡ true
in_third-word_shape w h = is_listed-all word_shape w third_words third_shapes (unfold_third w h)

-- Every word of the table has three to eight bytes, all of them lowercase letters.
pub bip39_words-word_shape : (w : Bytes) → bip39_words w ≡ true → word_shape w ≡ true
unfolding bip39_words
bip39_words-word_shape w h = elim (Bool-cases (in_first w)) [
  | inl a ↦ in_first-word_shape w a
  | inr a ↦ elim (Bool-cases (in_second w)) [
    | inl b ↦ in_second-word_shape w b
    | inr b ↦ in_third-word_shape w (rw (a, b) at h)
  ]
]

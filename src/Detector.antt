-- ===== src/Detector.antt =====
-- internal/detector/detector.go: which domain names are DNN names.
pub mod Words
pub mod Prefix
pub mod Encoded
pub mod Names
use dnn_daemon.Common.{
  ℕ, zero, suc, ◌+◌, Bool, true, false, not, ◌&&◌, ◌||◌, List, [], ◌∷◌, ltb, leb, ◌==◌,
  if◌then◌else◌, length, take, drop, all, is_nil,
}
use dnn_daemon.Common.Bytes.{Bytes}
use dnn_daemon.Runtime.{Runtime}
use dnn_daemon.Text.{trim_suffix, to_lower, split, last, contains}
use dnn_daemon.Detector.Words.{bip39_words}

-- One round of the loop over `wordLen`, with `bestMatch`.
unfoldable pub try_length : Bytes → ℕ → Bytes → Bytes
try_length s word_len best_match =
    if ltb (length s) word_len
    then best_match
    else if bip39_words (take word_len s) && ltb (length best_match) (length (take word_len s))
    then take word_len s
    else best_match

-- `for wordLen := 8; wordLen >= 3; wordLen--`, by the rounds left.
unfoldable pub try_lengths : ℕ → Bytes → Bytes → Bytes
try_lengths zero s best_match = best_match
try_lengths (suc k) s best_match = try_lengths k s (try_length s (k + 3) best_match)

-- The tests around the loop, on its `bestMatch`.
unfoldable pub best_or_none : Bytes → Bytes → Bytes × Bytes
best_or_none s best_match =
    if is_nil s
    then ([], s)
    else if is_nil best_match
    then ([], s)
    else (best_match, drop (length best_match) s)

unfoldable pub match_bip39_prefix : Bytes → Bytes × Bytes
match_bip39_prefix s = best_or_none s (try_lengths 6 s [])

abbrev pub is_digit : ℕ → Bool
is_digit c = leb b'0' c && leb c b'9'

abbrev pub is_letter : ℕ → Bool
is_letter c = leb b'a' c && leb c b'z'

-- The loop that skips the cycle digits.
unfoldable pub skip_digits : Bytes → Bytes
skip_digits [] = []
skip_digits (c ∷ s) = let rest = skip_digits s in if is_digit c then rest else c ∷ s

-- The source's `s[1:]` needs a byte: each caller has tested the length.
unfoldable pub is_dnn_encoded : Bytes → Bool
unfolding skip_digits
is_dnn_encoded s =
    let (word1, remainder1) = match_bip39_prefix (drop 1 s) in
    let (word2, remainder2) = match_bip39_prefix remainder1 in
    let letters = skip_digits remainder2 in
    if is_nil word1
    then false
    else if is_nil word2
    then false
    else if is_nil letters
    then false
    else all is_letter letters

abbrev pub starts_with_n : Bytes → Bool
starts_with_n [] = false
starts_with_n (c ∷ _) = c == b'n'

unfoldable pub is_single_part_dnn : Bytes → Bool
is_single_part_dnn part =
    if ltb (length part) 8
    then false
    else if not (starts_with_n part)
    then false
    else is_dnn_encoded part

-- The first part that is a DNN ID, else the fallback.
unfoldable pub first_dnn_part : Bytes → List Bytes → Bytes
first_dnn_part fallback [] = fallback
first_dnn_part fallback (part ∷ parts) =
    let rest = first_dnn_part fallback parts in if is_single_part_dnn part then part else rest

module _ ⦃r : Runtime⦄ where
  unfoldable pub is_dnn_name : Bytes → Bool
  is_dnn_name name =
      if is_nil name || ltb (length name) 8
      then false
      else if contains name b' '
      then false
      else let tld = last (split (to_lower (trim_suffix name (b'.' ∷ []))) b'.') in
        if ltb (length tld) 8
        then false
        else if not (starts_with_n tld)
        then false
        else is_dnn_encoded tld

  unfoldable pub get_tld : Bytes → Bytes
  unfolding first_dnn_part
  get_tld name =
      let parts = split (to_lower (trim_suffix name (b'.' ∷ []))) b'.' in
      first_dnn_part (last parts) parts

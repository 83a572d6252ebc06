-- ===== src/Tests/Sample.antt =====
-- A run time that meets the laws of `Runtime`: ASCII text only, and a digest that pads the message.

use dnn_daemon.Common.{
  ℕ, suc, zero, ◌≡◌, none, some, [], ◌∷◌, ◌++◌, length, length-append, length-take, take, arith,
  ◌==◌, if◌then◌else◌,
}
use dnn_daemon.Common.Bytes.{Bytes, equal}
use dnn_daemon.Common.Int.{pos}
use dnn_daemon.Common.Table.{lookup, insert, remove}
use dnn_daemon.Runtime.{Runtime}
use dnn_daemon.Text.{
  to_lower, trim_space, has_prefix, has_suffix, trim_suffix, contains, split, last, after_first,
  remove_all, index,
}
use dnn_daemon.Detector.Words.{bip39_words, in_first, in_second, in_third}
use dnn_daemon.Detector.{
  match_bip39_prefix, best_or_none, try_lengths, try_length, is_dnn_encoded, is_single_part_dnn,
  is_dnn_name, get_tld,
}

abbrev pub zeros : ℕ → Bytes
zeros zero = []
zeros (suc n) = 0 ∷ zeros n

abbrev pub padded : Bytes → Bytes
padded message = take 32 (message ++ zeros 32)

pub length-padded : (message : Bytes) → length (padded message) ≡ 32
length-padded message =
    omega (arith, length-take 32 (message ++ zeros 32), length-append message (zeros 32))

pub same_text : (a b : Bytes) → length a ≡ 16 → length b ≡ 16 → a ≡ b → a ≡ b
same_text a b h k e = e

instance abbrev pub sample_runtime : Runtime
sample_runtime = record {
  lower_runes = λ s. s;
  trim_runes = λ s. s;
  sum256 = padded;
  length-sum256 = length-padded;
  ip_string = λ ip. ip;
  ip_string-injective = same_text;
  parse_ip = λ s. if length s == 16 then some s else none;
  int_of_float = λ bits. pos bits;
}

-- What the tests of texts and of names compute with.
unfoldable pub opened_text : ℕ
unfolding to_lower trim_space has_prefix has_suffix trim_suffix contains split last after_first
    remove_all index equal lookup insert remove
opened_text = 0

unfoldable pub opened_names : ℕ
unfolding opened_text bip39_words in_first in_second in_third match_bip39_prefix best_or_none
    try_lengths try_length is_dnn_encoded is_single_part_dnn is_dnn_name get_tld
opened_names = 0

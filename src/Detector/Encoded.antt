-- ===== src/Detector/Encoded.antt =====
-- The language that `isSinglePartDNN` and `isDNNEncoded` accept.
use dnn_daemon.Common.{
  ℕ, ◌≡◌, ◌≢◌, refl, sym, ap, ◌∙◌, inl, inr, true, false, [], ◌∷◌, ◌++◌, ltb, if◌then◌else◌, length,
  all, is_nil, arith, take-append_self, drop-append_self, length-append, is_nil→ne, ne→is_nil, ◌↔◌,
}
use dnn_daemon.Common.Bytes.{Bytes}
use dnn_daemon.Detector.Words.{bip39_words}
use dnn_daemon.Detector.Prefix.{LongestWord, word_length, match_bip39_prefix_lem}
use dnn_daemon.Detector.{
  match_bip39_prefix, is_digit, is_letter, skip_digits, is_dnn_encoded, starts_with_n,
  is_single_part_dnn,
}

-- n, a word, a word, digits and letters, each word the longest that can be read at its place.
pub record DnnId (part : Bytes) : Type 0 where
  pub word1 : Bytes
  pub word2 : Bytes
  pub digits : Bytes
  pub letters : Bytes
  pub splits : part ≡ b'n' ∷ (word1 ++ (word2 ++ (digits ++ letters)))
  pub first :
      LongestWord (word1 ++ (word2 ++ (digits ++ letters))) word1 (word2 ++ (digits ++ letters))
  pub second : LongestWord (word2 ++ (digits ++ letters)) word2 (digits ++ letters)
  pub digits_only : all is_digit digits ≡ true
  pub letters_only : all is_letter letters ≡ true
  pub some_letters : letters ≢ []

same_prefix : (a b s t : Bytes) → a ++ s ≡ b ++ t → length a ≡ length b → (a ≡ b) × (s ≡ t)
same_prefix a b s t e l = (
  sym (take-append_self a s) ∙ (rw l (rw e (take-append_self b t))),
  sym (drop-append_self a s) ∙ (rw l (rw e (drop-append_self b t))),
)

pub match_bip39_prefix-eq :
    {s w rest : Bytes} → LongestWord s w rest → match_bip39_prefix s ≡ (w, rest)
match_bip39_prefix-eq {s} {w} {rest} l = elim (match_bip39_prefix_lem s) [
  | inl (ne, l') ↦
      let (w', rest') = match_bip39_prefix s in
      let short = l.longest w' rest' l'.listed l'.splits in
      let long = l'.longest w rest l.listed l.splits in
      let (e, f) =
        same_prefix w' w rest' rest (sym l'.splits ∙ l.splits) (omega (arith, short, long)) in
      λ i. (e i, f i)
  | inr (e, f, no_word) ↦ absurd (no_word w rest l.listed l.splits)
]

word_ne_nil : (w : Bytes) → bip39_words w ≡ true → is_nil w ≡ false
word_ne_nil [] h = absurd (omega (arith, (word_length [] h).0))
word_ne_nil (c ∷ w) h = refl

-- The digits that `skip_digits` passes over.
skipped : Bytes → Bytes
skipped [] = []
skipped (c ∷ s) = if is_digit c then c ∷ skipped s else []

skipped-append : (s : Bytes) → s ≡ skipped s ++ skip_digits s
unfolding skipped skip_digits
skipped-append [] = refl
skipped-append (c ∷ s) = ground (arith, skipped-append s)

skipped_digits : (s : Bytes) → all is_digit (skipped s) ≡ true
unfolding skipped
skipped_digits [] = refl
skipped_digits (c ∷ s) = ground (arith, skipped_digits s)

skip_digits-append :
    (ds ls : Bytes) → all is_digit ds ≡ true → all is_letter ls ≡ true → skip_digits (ds ++ ls) ≡ ls
unfolding skip_digits
skip_digits-append [] [] h k = refl
skip_digits-append [] (c ∷ ls) h k = ground arith
skip_digits-append (c ∷ ds) ls h k = ground (arith, skip_digits-append ds ls)

is_dnn_encoded_complete : {part : Bytes} → DnnId part → is_dnn_encoded part ≡ true
unfolding is_dnn_encoded
is_dnn_encoded_complete d =
    rw
      (
        d.splits,
        match_bip39_prefix-eq d.first,
        match_bip39_prefix-eq d.second,
        skip_digits-append d.digits d.letters d.digits_only d.letters_only,
        word_ne_nil d.word1 d.first.listed,
        word_ne_nil d.word2 d.second.listed,
        ne→is_nil d.letters d.some_letters,
      )
      d.letters_only

DnnId-long : {part : Bytes} → DnnId part → ltb (length part) 8 ≡ false
DnnId-long {part} d =
    let l1 = length-append d.word1 (d.word2 ++ (d.digits ++ d.letters)) in
    let l2 = length-append d.word2 (d.digits ++ d.letters) in
    let l3 = length-append d.digits d.letters in
    ground (
      arith,
      ap length d.splits,
      l1,
      l2,
      l3,
      word_length d.word1 d.first.listed,
      word_length d.word2 d.second.listed,
      d.some_letters,
    )

DnnId-starts : {part : Bytes} → DnnId part → starts_with_n part ≡ true
DnnId-starts d = rw d.splits

is_single_part_dnn_complete : {part : Bytes} → DnnId part → is_single_part_dnn part ≡ true
unfolding is_single_part_dnn
is_single_part_dnn_complete d = rw (DnnId-long d, DnnId-starts d, is_dnn_encoded_complete d)

-- What an accepted text passed.
module _ (c : ℕ) (s : Bytes) where
  abbrev word1 : Bytes × Bytes
  word1 = match_bip39_prefix s

  abbrev word2 : Bytes × Bytes
  word2 = match_bip39_prefix word1.1

  abbrev letters : Bytes
  letters = skip_digits word2.1

  record Passed : Type 0 where
    word1_read : is_nil word1.0 ≡ false
    word2_read : is_nil word2.0 ≡ false
    letters_read : is_nil letters ≡ false
    letters_only : all is_letter letters ≡ true

  is_dnn_encoded-Passed : is_dnn_encoded (c ∷ s) ≡ true → Passed
  unfolding is_dnn_encoded
  is_dnn_encoded-Passed h = ground arith

found_word :
    (s : Bytes)
    → is_nil (match_bip39_prefix s).0 ≡ false
    → LongestWord s (match_bip39_prefix s).0 (match_bip39_prefix s).1
found_word s h = elim (match_bip39_prefix_lem s) [
  | inl (ne, l) ↦ l
  | inr (e, f, no_word) ↦ cc (ap is_nil e)
]

-- A longest word stays one when what follows it is written another way.
LongestWord-rest :
    {s w rest rest' : Bytes}
    → LongestWord s w rest
    → rest ≡ rest'
    → LongestWord (w ++ rest') w rest'
LongestWord-rest {s} {w} {rest} l e = record {
  listed = l.listed;
  splits = refl;
  longest = λ v t h k. l.longest v t h (l.splits ∙ ap (λ x. w ++ x) e ∙ k);
}

is_dnn_encoded_sound : (s : Bytes) → is_dnn_encoded (b'n' ∷ s) ≡ true → DnnId (b'n' ∷ s)
is_dnn_encoded_sound s h =
    let p = is_dnn_encoded-Passed b'n' s h in
    let (w1, r1) = match_bip39_prefix s in
    let (w2, r2) = match_bip39_prefix r1 in
    let l1 = found_word s p.word1_read in
    let l2 = found_word r1 p.word2_read in
    let e2 : r2 ≡ skipped r2 ++ skip_digits r2 = skipped-append r2 in
    let e1 : r1 ≡ w2 ++ (skipped r2 ++ skip_digits r2) = l2.splits ∙ ap (λ x. w2 ++ x) e2 in
    record {
      word1 = w1;
      word2 = w2;
      digits = skipped r2;
      letters = skip_digits r2;
      splits = ap (◌∷◌ b'n') (l1.splits ∙ ap (λ x. w1 ++ x) e1);
      first = LongestWord-rest l1 e1;
      second = LongestWord-rest l2 e2;
      digits_only = skipped_digits r2;
      letters_only = p.letters_only;
      some_letters = is_nil→ne (skip_digits r2) p.letters_read;
    }

is_single_part_dnn_sound : (part : Bytes) → is_single_part_dnn part ≡ true → DnnId part
unfolding is_single_part_dnn
is_single_part_dnn_sound [] h = cc
is_single_part_dnn_sound (c ∷ s) h =
    let e : c ≡ b'n' = ground arith in rw e (is_dnn_encoded_sound s (ground arith))

-- `isSinglePartDNN` accepts exactly the texts of the encoded format: n, the longest word of the table
-- that can be read, again the longest word that can be read, digits, and at least one lowercase
-- letter up to the end.
pub is_single_part_dnn_iff : (part : Bytes) → (is_single_part_dnn part ≡ true) ↔ DnnId part
is_single_part_dnn_iff part = (is_single_part_dnn_sound part, is_single_part_dnn_complete)

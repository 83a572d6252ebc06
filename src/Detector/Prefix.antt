-- ===== src/Detector/Prefix.antt =====
-- `matchBIP39Prefix` finds the longest word of the table that a text begins with.
use dnn_daemon.Common.{
  ℕ, zero, suc, ◌+◌, ◌≤◌, ◌<◌, ◌≡◌, ◌≢◌, refl, sym, ap, ◌∙◌, ◌⊎◌, inl, inr, true, [], ◌++◌, ltb,
  length, take, drop, is_nil, arith, Bool-cases, take-append_self, take-append-drop, length-append,
  length-take, &&-eq-true, is_nil→eq, is_nil→ne, ltb→le, ltb→lt, ◌&&◌,
}
use dnn_daemon.Common.Bytes.{Bytes}
use dnn_daemon.Detector.Words.{bip39_words, bip39_words-word_shape}
use dnn_daemon.Detector.{try_length, try_lengths, match_bip39_prefix, best_or_none}

-- `w` is the longest word of the table that `s` begins with, and `rest` is what follows it.
pub record LongestWord (s w rest : Bytes) : Type 0 where
  pub listed : bip39_words w ≡ true
  pub splits : s ≡ w ++ rest
  pub longest : (v t : Bytes) → bip39_words v ≡ true → s ≡ v ++ t → length v ≤ length w

abbrev pub NoWord : Bytes → Type 0
NoWord s = (v t : Bytes) → bip39_words v ≡ true → s ≢ v ++ t

-- What the loop knows with `k` rounds left: the longer words have all been tried.
record Tried (k : ℕ) (s best : Bytes) : Type 0 where
  tried :
      (v t : Bytes) → bip39_words v ≡ true → s ≡ v ++ t → k + 2 < length v → length v ≤ length best
  found : (best ≡ []) ⊎ ((bip39_words best ≡ true) × (s ≡ best ++ drop (length best) s))

pub word_length : (w : Bytes) → bip39_words w ≡ true → (3 ≤ length w) × (length w ≤ 8)
word_length w h = ground (arith, bip39_words-word_shape w h)

length-le-try_length :
    (s : Bytes) (n : ℕ) (best : Bytes) → length best ≤ length (try_length s n best)
unfolding try_length
length-le-try_length s n best = ground arith

try_length-covers :
    (v t best : Bytes)
    → bip39_words v ≡ true
    → length v ≤ length (try_length (v ++ t) (length v) best)
unfolding try_length
try_length-covers v t best h = ground (arith, length-append v t, take-append_self v t)

take_splits : (s : Bytes) (n : ℕ) → n ≤ length s → s ≡ take n s ++ drop (length (take n s)) s
take_splits s n h =
    let e : length (take n s) ≡ n = omega (arith, length-take n s) in
    rw e (sym (take-append-drop n s))

try_length-found :
    (s : Bytes) (n : ℕ) (best : Bytes)
    → (best ≡ []) ⊎ ((bip39_words best ≡ true) × (s ≡ best ++ drop (length best) s))
    → (try_length s n best ≡ [])
      ⊎ ((bip39_words (try_length s n best) ≡ true)
          × (s ≡ try_length s n best ++ drop (length (try_length s n best)) s))
unfolding try_length
try_length-found s n best h = elim (Bool-cases (ltb (length s) n)) [
  | inl a ↦ rw a h
  | inr a ↦ elim (Bool-cases (bip39_words (take n s) && ltb (length best) (length (take n s)))) [
    | inl b ↦ rw (a, b) (inr ((&&-eq-true _ _ b).0, take_splits s n (ltb→le _ _ a)))
    | inr b ↦ rw (a, b) h
  ]
]

try_length-Tried :
    (k : ℕ) (s best : Bytes) → Tried (suc k) s best → Tried k s (try_length s (k + 3) best)
try_length-Tried k s best i = record {
  tried = λ v t listed splits long. elim (Bool-cases (ltb (k + 3) (length v))) [
    | inl longer ↦
        let known = i.tried v t listed splits (omega (arith, ltb→lt (k + 3) (length v) longer)) in
        omega (arith, known, length-le-try_length s (k + 3) best)
    | inr same ↦
        let e : length v ≡ k + 3 = omega (arith, ltb→le (k + 3) (length v) same) in
        rw (← e, splits) (try_length-covers v t best listed)
  ];
  found = try_length-found s (k + 3) best i.found;
}

try_lengths-Tried : (k : ℕ) (s best : Bytes) → Tried k s best → Tried 0 s (try_lengths k s best)
unfolding try_lengths
try_lengths-Tried zero s best i = i
try_lengths-Tried (suc k) s best i =
    try_lengths-Tried k s (try_length s (k + 3) best) (try_length-Tried k s best i)

start-Tried : (s : Bytes) → Tried 6 s []
start-Tried s = record {
  tried = λ v t listed splits long. absurd (omega (arith, (word_length v listed).1));
  found = inl refl;
}

best-NoWord : (s best : Bytes) → Tried 0 s best → best ≡ [] → NoWord s
best-NoWord s best i e v t listed splits =
    let short = i.tried v t listed splits (omega (arith, (word_length v listed).0)) in
    omega (arith, (word_length v listed).0, short, ap length e)

NoWord-nil : (s : Bytes) → s ≡ [] → NoWord s
NoWord-nil s e v t listed splits =
    omega (arith, (word_length v listed).0, ap length (sym e ∙ splits), length-append v t)

found_longest :
    (s best : Bytes) → Tried 0 s best → best ≢ [] → LongestWord s best (drop (length best) s)
found_longest s best i ne = elim i.found [
  | inl e ↦ absurd (ne e)
  | inr (listed, splits) ↦ record {
    listed = listed;
    splits = splits;
    longest = λ v t h e. i.tried v t h e (omega (arith, (word_length v h).0));
  }
]

-- What `matchBIP39Prefix` promises of its result.
abbrev pub MatchesPrefix : Bytes → Bytes × Bytes → Type 0
MatchesPrefix s (w, rest) = (w ≢ [] × LongestWord s w rest) ⊎ ((w ≡ []) × (rest ≡ s) × NoWord s)

choose_best : (s best : Bytes) → Tried 0 s best → MatchesPrefix s (best_or_none s best)
unfolding best_or_none
choose_best s best i = elim (Bool-cases (is_nil s)) [
  | inl a ↦ rw a (inr (refl, refl, NoWord-nil s (is_nil→eq s a)))
  | inr a ↦ elim (Bool-cases (is_nil best)) [
    | inl b ↦ rw (a, b) (inr (refl, refl, best-NoWord s best i (is_nil→eq best b)))
    | inr b ↦ rw (a, b) (inl (is_nil→ne best b, found_longest s best i (is_nil→ne best b)))
  ]
]

-- Either the text begins with the word returned, no word of the table that it begins with is longer
-- and the rest is what follows it; or the word is empty, the rest is the whole text, and the text
-- begins with no word of the table.
pub match_bip39_prefix_lem : (s : Bytes) → MatchesPrefix s (match_bip39_prefix s)
unfolding match_bip39_prefix
match_bip39_prefix_lem s =
    choose_best s (try_lengths 6 s []) (try_lengths-Tried 6 s [] (start-Tried s))

-- ===== src/Text/Laws.antt =====
-- Laws of the text functions.
use dnn_daemon.Common.{
  ℕ, suc, ◌-◌, ◌≤◌, ◌==◌, false, ◌||◌, List, ◌++◌, leb, length, length-append, take-append_self,
  drop-append_self, ◌≡◌, refl, ap, ◌∙◌, true, [], ◌∷◌, map, is_nil, arith,
}
use dnn_daemon.Common.Bytes.{Bytes, equal_self}
use dnn_daemon.Runtime.{Runtime}
use dnn_daemon.Text.{
  is_ascii, lower_byte, is_space, trim_left, trim_right, to_lower, trim_space, has_suffix,
  trim_suffix, contains, split, last, cons_head,
}

lower_byte-lower_byte : (c : ℕ) → lower_byte (lower_byte c) ≡ lower_byte c
unfolding lower_byte
lower_byte-lower_byte c = ground arith

is_ascii-lower : (s : Bytes) → is_ascii s ≡ true → is_ascii (map lower_byte s) ≡ true
unfolding lower_byte
is_ascii-lower [] h = refl
is_ascii-lower (c ∷ s) h = ground (arith, is_ascii-lower s)

map-lower_byte : (s : Bytes) → map lower_byte (map lower_byte s) ≡ map lower_byte s
map-lower_byte [] = refl
map-lower_byte (c ∷ s) = cc (lower_byte-lower_byte c, map-lower_byte s)

is_space-lower_byte : (c : ℕ) → is_space (lower_byte c) ≡ is_space c
unfolding lower_byte is_space
is_space-lower_byte c = ground arith

trim_left-map : (s : Bytes) → trim_left (map lower_byte s) ≡ map lower_byte (trim_left s)
unfolding trim_left
trim_left-map [] = refl
trim_left-map (c ∷ s) = ground (arith, trim_left-map s, is_space-lower_byte c)

is_nil-map : (s : Bytes) → is_nil (map lower_byte s) ≡ is_nil s
is_nil-map [] = refl
is_nil-map (c ∷ s) = refl

trim_right-map : (s : Bytes) → trim_right (map lower_byte s) ≡ map lower_byte (trim_right s)
unfolding trim_right
trim_right-map [] = refl
trim_right-map (c ∷ s) =
    ground (arith, trim_right-map s, is_space-lower_byte c, is_nil-map (trim_right s))

trim_right-trim_right : (s : Bytes) → trim_right (trim_right s) ≡ trim_right s
unfolding trim_right
trim_right-trim_right [] = refl
trim_right-trim_right (c ∷ s) = ground (arith, trim_right-trim_right s)

trim_left-trim_right : (s : Bytes) → trim_left (trim_right (trim_left s)) ≡ trim_right (trim_left s)
unfolding trim_left trim_right
trim_left-trim_right [] = refl
trim_left-trim_right (c ∷ s) = ground (arith, trim_left-trim_right s)

is_ascii-trim_left : (s : Bytes) → is_ascii s ≡ true → is_ascii (trim_left s) ≡ true
unfolding trim_left
is_ascii-trim_left [] h = refl
is_ascii-trim_left (c ∷ s) h = ground (arith, is_ascii-trim_left s)

is_ascii-trim_right : (s : Bytes) → is_ascii s ≡ true → is_ascii (trim_right s) ≡ true
unfolding trim_right
is_ascii-trim_right [] h = refl
is_ascii-trim_right (c ∷ s) h = ground (arith, is_ascii-trim_right s)

abbrev trimmed : Bytes → Bytes
trimmed s = trim_right (trim_left s)

is_ascii-trimmed : (s : Bytes) → is_ascii s ≡ true → is_ascii (trimmed s) ≡ true
is_ascii-trimmed s h = is_ascii-trim_right (trim_left s) (is_ascii-trim_left s h)

trimmed-trimmed : (s : Bytes) → trimmed (trimmed s) ≡ trimmed s
trimmed-trimmed s = rw (trim_left-trim_right s) (trim_right-trim_right (trim_left s))

trimmed-map : (s : Bytes) → trimmed (map lower_byte s) ≡ map lower_byte (trimmed s)
trimmed-map s = rw (trim_left-map s) (trim_right-map (trim_left s))

module _ ⦃r : Runtime⦄ where
  pub to_lower-ascii : (s : Bytes) → is_ascii s ≡ true → to_lower s ≡ map lower_byte s
  unfolding to_lower
  to_lower-ascii s h = rw h

  trim_space-ascii : (s : Bytes) → is_ascii s ≡ true → trim_space s ≡ trimmed s
  unfolding trim_space
  trim_space-ascii s h = rw h

  normalized_ascii :
      (s : Bytes) → is_ascii s ≡ true → to_lower (trim_space s) ≡ map lower_byte (trimmed s)
  normalized_ascii s h =
      rw (trim_space-ascii s h) (to_lower-ascii (trimmed s) (is_ascii-trimmed s h))

  -- Normalising an ASCII name twice is normalising it once.
  pub normalize_idempotent :
      (s : Bytes)
      → is_ascii s ≡ true
      → to_lower (trim_space (to_lower (trim_space s))) ≡ to_lower (trim_space s)
  normalize_idempotent s h = rw (normalized_ascii s h) (
      normalized_ascii (map lower_byte (trimmed s)) (is_ascii-lower _ (is_ascii-trimmed s h))
      ∙ ap (map lower_byte) (trimmed-map (trimmed s))
      ∙ map-lower_byte (trimmed (trimmed s))
      ∙ ap (map lower_byte) (trimmed-trimmed s))

pub length-map : (s : Bytes) (f : ℕ → ℕ) → length (map f s) ≡ length s
length-map [] f = refl
length-map (c ∷ s) f = ap suc (length-map s f)

has_suffix-append : (s : Bytes) (c : ℕ) → has_suffix (s ++ c ∷ []) (c ∷ []) ≡ true
unfolding has_suffix
has_suffix-append s c =
    let e : length (s ++ c ∷ []) - 1 ≡ length s = omega (arith, length-append s (c ∷ [])) in
    let fits : leb 1 (length (s ++ c ∷ [])) ≡ true = ground (arith, length-append s (c ∷ [])) in
    rw (fits, e, drop-append_self s (c ∷ [])) (equal_self (c ∷ []))

-- A final byte is cut off by `TrimSuffix`; a text without it stays.
pub trim_suffix-append : (s : Bytes) (c : ℕ) → trim_suffix (s ++ c ∷ []) (c ∷ []) ≡ s
unfolding trim_suffix
trim_suffix-append s c =
    let e : length (s ++ c ∷ []) - 1 ≡ length s = omega (arith, length-append s (c ∷ [])) in
    rw (has_suffix-append s c, e) (take-append_self s (c ∷ []))

pub trim_suffix-absent : (s x : Bytes) → has_suffix s x ≡ false → trim_suffix s x ≡ s
unfolding trim_suffix
trim_suffix-absent s x h = rw h

pub contains-append : (s t : Bytes) (c : ℕ) → contains (s ++ t) c ≡ (contains s c || contains t c)
unfolding contains
contains-append [] t c = refl
contains-append (x ∷ s) t c = ground (arith, contains-append s t c)

length-last-cons_head :
    (c : ℕ) (ps : List Bytes) → length (last (cons_head c ps)) ≤ suc (length (last ps))
unfolding last
length-last-cons_head c [] = omega arith
length-last-cons_head c (p ∷ []) = omega arith
length-last-cons_head c (p ∷ (q ∷ ps)) = omega arith

length-last-nil : (ps : List Bytes) → length (last ([] ∷ ps)) ≤ length (last ps)
unfolding last
length-last-nil [] = omega arith
length-last-nil (p ∷ ps) = omega arith

-- The last part is no longer than the text.
pub length-last-split : (s : Bytes) (sep : ℕ) → length (last (split s sep)) ≤ length s
unfolding split last
length-last-split [] sep = omega arith
length-last-split (c ∷ s) sep = ground (
  arith,
  length-last-split s sep,
  length-last-cons_head c (split s sep),
  length-last-nil (split s sep),
)

contains-last-cons_head :
    (c sep : ℕ) (ps : List Bytes)
    → (c == sep) ≡ false
    → contains (last ps) sep ≡ false
    → contains (last (cons_head c ps)) sep ≡ false
unfolding last contains
contains-last-cons_head c sep [] h k = ground arith
contains-last-cons_head c sep (p ∷ []) h k = ground arith
contains-last-cons_head c sep (p ∷ (q ∷ ps)) h k = k

contains-last-nil :
    (sep : ℕ) (ps : List Bytes)
    → contains (last ps) sep ≡ false
    → contains (last ([] ∷ ps)) sep ≡ false
unfolding last contains
contains-last-nil sep [] k = refl
contains-last-nil sep (p ∷ ps) k = k

-- A part has no separator in it.
pub contains-last-split : (s : Bytes) (sep : ℕ) → contains (last (split s sep)) sep ≡ false
unfolding split
contains-last-split [] sep = unfold last contains in refl
contains-last-split (c ∷ s) sep = ground (
  arith,
  contains-last-split s sep,
  contains-last-cons_head c sep (split s sep),
  contains-last-nil sep (split s sep),
)

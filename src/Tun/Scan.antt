-- ===== src/Tun/Scan.antt =====
-- internal/tun/tun_windows.go: the helper functions on text. A loop over a string is a recursion on it.
use dnn_daemon.Common.{
  ℕ, ◌+◌, ◌≡◌, refl, ap, ◌∙◌, Bool, true, false, not, ◌&&◌, ◌||◌, Option, none, some, List, [], ◌∷◌,
  ◌++◌, leb, ◌==◌, if◌then◌else◌, length, take, is_nil, arith, Bool-cases, inl, inr,
}
use dnn_daemon.Common.Bytes.{Bytes, equal}
use dnn_daemon.Text.{next_index, trim_suffix, index, has_prefix}

abbrev pub is_blank : ℕ → Bool
is_blank c = c == b' ' || c == b'\t'

-- `splitFields`, by the field so far, which is empty outside a field.
unfoldable pub fields_from : Bytes → Bytes → List Bytes
fields_from field [] = if is_nil field then [] else field ∷ []
fields_from field (c ∷ s) =
    let rest = fields_from (if is_blank c then [] else field ++ c ∷ []) s in
    if is_blank c && not (is_nil field) then field ∷ rest else rest

unfoldable pub split_fields : Bytes → List Bytes
unfolding fields_from
split_fields s = fields_from [] s

-- `splitLines`, by the line so far. The last line needs no line feed, and then keeps a carriage return.
unfoldable pub lines_from : Bytes → Bytes → List Bytes
lines_from line [] = if is_nil line then [] else line ∷ []
lines_from line (c ∷ s) =
    let rest = lines_from (if c == b'\n' then [] else line ++ c ∷ []) s in
    if c == b'\n' then trim_suffix line (b'\r' ∷ []) ∷ rest else rest

unfoldable pub split_lines : Bytes → List Bytes
unfolding lines_from
split_lines s = lines_from [] s

abbrev pub is_space : ℕ → Bool
is_space c = c == b' ' || c == b'\t' || c == b'\r' || c == b'\n'

unfoldable pub trim_start : Bytes → Bytes
trim_start [] = []
trim_start (c ∷ s) = let rest = trim_start s in if is_space c then rest else c ∷ s

unfoldable pub trim_end : Bytes → Bytes
trim_end [] = []
trim_end (c ∷ s) = let rest = trim_end s in if is_nil rest && is_space c then [] else c ∷ rest

unfoldable pub trim_space : Bytes → Bytes
unfolding trim_start trim_end
trim_space s = trim_end (trim_start s)

-- The loop of `indexString` at `i`, with what of the string is left; -1 is `none`.
unfoldable pub index_from : ℕ → Bytes → Bytes → Option ℕ
unfolding equal
index_from i [] substr = if is_nil substr then some i else none
index_from i (c ∷ s) substr =
    let rest = index_from (i + 1) s substr in
    if not (leb (length substr) (length (c ∷ s)))
    then none
    else if equal (take (length substr) (c ∷ s)) substr
    then some i
    else rest

unfoldable pub index_string : Bytes → Bytes → Option ℕ
unfolding index_from
index_string s substr = index_from 0 s substr

abbrev is_found : Option ℕ → Bool
is_found none = false
is_found (some i) = true

unfoldable pub contains_string : Bytes → Bytes → Bool
unfolding index_string
contains_string s substr = is_found (index_string s substr)

abbrev shifted : ℕ → Option ℕ → Option ℕ
shifted i none = none
shifted i (some k) = some (i + k)

too_short : (s x : Bytes) → leb (length x) (length s) ≡ false → index s x ≡ none
unfolding index has_prefix
too_short [] [] h = cc
too_short [] (d ∷ x) h = refl
too_short (c ∷ s) x h = let ih : index s x ≡ none = too_short s x (ground arith) in rw (h, ih) refl

shifted-suc : (i : ℕ) (o : Option ℕ) → shifted (i + 1) o ≡ shifted i (next_index o)
shifted-suc i none = refl
shifted-suc i (some k) = ap some (omega arith)

shifted_zero : (o : Option ℕ) → shifted 0 o ≡ o
shifted_zero none = refl
shifted_zero (some k) = ap some (omega arith)

index_from_lem : (i : ℕ) (s x : Bytes) → index_from i s x ≡ shifted i (index s x)
unfolding index_from index has_prefix
index_from_lem i [] [] = ap some (omega arith)
index_from_lem i [] (d ∷ x) = refl
index_from_lem i (c ∷ s) x = elim (Bool-cases (leb (length x) (length (c ∷ s)))) [
  | inl fits ↦ elim (Bool-cases (equal (take (length x) (c ∷ s)) x)) [
    | inl e ↦ rw (fits, e) (ap some (omega arith))
    | inr e ↦ rw (fits, e) (index_from_lem (i + 1) s x ∙ shifted-suc i (index s x))
  ]
  | inr short ↦ rw (short, too_short s x (ground (arith, short))) refl
]

-- `indexString` is `strings.Index`, for every string and every substring, the empty ones included.
index_string_lem : (s x : Bytes) → index_string s x ≡ index s x
unfolding index_string
index_string_lem s x = index_from_lem 0 s x ∙ shifted_zero (index s x)

-- ===== src/Text.antt =====
-- The functions of Go's package `strings` that the daemon calls, over byte strings. `ToLower` and
-- `TrimSpace` are written out for ASCII text; for other text they are the run time's.
pub mod Laws
pub mod Affixes
use dnn_daemon.Common.{
  ℕ, suc, ◌+◌, ◌-◌, ◌≡◌, Bool, true, false, ◌&&◌, ◌||◌, not, Option, none, some, List, [], ◌∷◌,
  ◌++◌, map, ltb, leb, ◌==◌, if◌then◌else◌, length, take, drop, all, is_nil,
}
use dnn_daemon.Common.Bytes.{Bytes, equal}
use dnn_daemon.Runtime.{Runtime}

abbrev pub is_ascii : Bytes → Bool
is_ascii s = all (λ c. ltb c 128) s

unfoldable pub lower_byte : ℕ → ℕ
lower_byte c = if leb b'A' c && leb c b'Z' then c + 32 else c

-- tab, line feed, vertical tab, form feed, carriage return, space
unfoldable pub is_space : ℕ → Bool
is_space c = (leb 9 c && leb c 13) || c == 32

unfoldable pub trim_left : Bytes → Bytes
unfolding is_space
trim_left [] = []
trim_left (c ∷ s) = let rest = trim_left s in if is_space c then rest else c ∷ s

unfoldable pub trim_right : Bytes → Bytes
unfolding is_space
trim_right [] = []
trim_right (c ∷ s) = let rest = trim_right s in if is_nil rest && is_space c then [] else c ∷ rest

module _ ⦃r : Runtime⦄ where
  unfoldable pub to_lower : Bytes → Bytes
  unfolding lower_byte
  to_lower s = if is_ascii s then map lower_byte s else r.lower_runes s

  unfoldable pub trim_space : Bytes → Bytes
  unfolding trim_left trim_right
  trim_space s = if is_ascii s then trim_right (trim_left s) else r.trim_runes s

unfoldable pub has_prefix : Bytes → Bytes → Bool
unfolding equal
has_prefix s p = leb (length p) (length s) && equal (take (length p) s) p

unfoldable pub has_suffix : Bytes → Bytes → Bool
unfolding equal
has_suffix s x = leb (length x) (length s) && equal (drop (length s - length x) s) x

unfoldable pub trim_suffix : Bytes → Bytes → Bytes
trim_suffix s x = if has_suffix s x then take (length s - length x) s else s

-- `strings.Contains(s, sep)` for a one-byte `sep`
unfoldable pub contains : Bytes → ℕ → Bool
contains [] sep = false
contains (c ∷ s) sep = c == sep || contains s sep

abbrev pub cons_head : ℕ → List Bytes → List Bytes
cons_head c [] = (c ∷ []) ∷ []
cons_head c (p ∷ ps) = (c ∷ p) ∷ ps

-- `strings.Split(s, sep)` for a one-byte `sep`: never empty
unfoldable pub split : Bytes → ℕ → List Bytes
split [] sep = [] ∷ []
split (c ∷ s) sep = let rest = split s sep in if c == sep then [] ∷ rest else cons_head c rest

-- `parts[len(parts)-1]`
unfoldable pub last : List Bytes → Bytes
last [] = []
last (p ∷ []) = p
last (p ∷ (q ∷ ps)) = last (q ∷ ps)

-- `strings.SplitN(s, ".", 2)`, when it has two parts: what follows the first separator
unfoldable pub after_first : Bytes → ℕ → Option Bytes
after_first [] sep = none
after_first (c ∷ s) sep = let rest = after_first s sep in if c == sep then some s else rest

-- `strings.ReplaceAll(s, x, "")` for a one-byte `x`
unfoldable pub remove_all : ℕ → Bytes → Bytes
remove_all x [] = []
remove_all x (c ∷ s) = let rest = remove_all x s in if c == x then rest else c ∷ rest

abbrev pub next_index : Option ℕ → Option ℕ
next_index none = none
next_index (some i) = some (i + 1)

-- `strings.Index`, with `none` for -1
unfoldable pub index : Bytes → Bytes → Option ℕ
index [] x = if is_nil x then some 0 else none
index (c ∷ s) x = let rest = index s x in if has_prefix (c ∷ s) x then some 0 else next_index rest

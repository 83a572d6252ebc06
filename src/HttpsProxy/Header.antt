-- ===== src/HttpsProxy/Header.antt =====
-- internal/httpsproxy/proxy.go: the Host header of a request, and where `handleHTTP` sends it.
-- `net.SplitHostPort` is a parameter, with `none` for an error.
use dnn_daemon.Common.{
  ℕ, ◌≡◌, ◌≢◌, refl, ◌∙◌, ap, Bool, true, false, ◌&&◌, ◌||◌, Option, none, some, List, [], ◌∷◌,
  ◌++◌, ltb, ◌==◌, if◌then◌else◌, is_nil, length, take, drop, arith, append_assoc, append-nil,
}
use dnn_daemon.Common.Bytes.{Bytes, codes, equal}
use dnn_daemon.Common.Int.{ℤ, pos, is_literal}
use dnn_daemon.Common.Outcome.{Outcome, done, ◌>>=◌}
use dnn_daemon.Runtime.{Runtime}
use dnn_daemon.Text.{trim_suffix, contains}
use dnn_daemon.Text.Laws.{trim_suffix-append}
use dnn_daemon.Mapper.{Resolution, Cache, get_resolution}
use dnn_daemon.Resolver.Answer as Answer

-- `splitLines`, by the bytes of the line so far: a line ends in a line feed, and loses a carriage
-- return before it. What follows the last line feed is no line.
unfoldable pub lines_from : Bytes → Bytes → List Bytes
lines_from line [] = []
lines_from line (c ∷ s) =
    let next = lines_from (if c == b'\n' then [] else line ++ c ∷ []) s in
    if c == b'\n' then trim_suffix line (b'\r' ∷ []) ∷ next else next

unfoldable pub split_lines : Bytes → List Bytes
unfolding lines_from
split_lines s = lines_from [] s

abbrev pub is_blank : ℕ → Bool
is_blank c = c == b' ' || c == b'\t'

unfoldable pub trim_left_blanks : Bytes → Bytes
trim_left_blanks [] = []
trim_left_blanks (c ∷ s) = let rest = trim_left_blanks s in if is_blank c then rest else c ∷ s

unfoldable pub trim_right_blanks : Bytes → Bytes
trim_right_blanks [] = []
trim_right_blanks (c ∷ s) =
    let rest = trim_right_blanks s in if is_nil rest && is_blank c then [] else c ∷ rest

unfoldable pub trim_space : Bytes → Bytes
unfolding trim_left_blanks trim_right_blanks
trim_space s = trim_right_blanks (trim_left_blanks s)

unfoldable pub is_host_line : Bytes → Bool
unfolding equal
is_host_line line =
    ltb 6 (length line)
    && (equal (take 5 line) (codes "Host:") || equal (take 5 line) (codes "host:"))

unfoldable pub host_in : List Bytes → Bytes
unfolding is_host_line trim_space
host_in [] = []
host_in (line ∷ lines) =
    let rest = host_in lines in if is_host_line line then trim_space (drop 5 line) else rest

unfoldable pub extract_host_header : Bytes → Bytes
unfolding split_lines host_in
extract_host_header request = host_in (split_lines request)

module _ ⦃r : Runtime⦄ (resolve : Bytes → Outcome (Option Answer.Resolution))
    (split_host_port : Bytes → Option Bytes) where
  abbrev without_port : Bytes → Option Bytes → Bytes
  without_port host none = host
  without_port host (some h) = h

  abbrev http_port : ℤ → ℤ
  http_port port = if is_literal port 0 || is_literal port 443 then pos 80 else port

  abbrev resolved_target : Option Answer.Resolution → Option (Bytes × ℤ)
  resolved_target none = none
  resolved_target (some res) = some (res.ip, pos 80)

  abbrev cached_target : Bytes → Option Resolution → Outcome (Option (Bytes × ℤ))
  cached_target host (some res) = done (some (res.ip, http_port res.port))
  cached_target host none = do found ← resolve host; done (resolved_target found)

  abbrev target_of_host : Cache → Bytes → Outcome (Option (Bytes × ℤ))
  target_of_host c host = cached_target host (get_resolution c host)

  -- Where `handleHTTP` connects to, by the first bytes of the request.
  unfoldable pub handle_http : Cache → Bytes → Outcome (Option (Bytes × ℤ))
  handle_http c request =
      if is_nil (extract_host_header request)
      then done none
      else target_of_host c (
          without_port (extract_host_header request)
            (split_host_port (extract_host_header request)))

-- The lines as a client sends them.
abbrev pub render : List Bytes → Bytes → Bytes
render [] rest = rest
render (line ∷ lines) rest = line ++ (b'\r' ∷ b'\n' ∷ render lines rest)

-- No line has a line feed, or is a Host line.
abbrev pub NoHost : List Bytes → Type 0
NoHost [] = Unit {0}
NoHost (line ∷ lines) = (contains line b'\n' ≡ false) × (is_host_line line ≡ false) × NoHost lines

lines_from-line :
    (seen line s : Bytes)
    → contains line b'\n' ≡ false
    → lines_from seen (line ++ (b'\r' ∷ b'\n' ∷ s)) ≡ (seen ++ line) ∷ lines_from [] s
unfolding lines_from contains
lines_from-line seen [] s h =
    ap (λ (l : Bytes). l ∷ lines_from [] s) (trim_suffix-append seen b'\r' ∙ rw append-nil)
lines_from-line seen (c ∷ line) s h =
    let other : (c == b'\n') ≡ false = ground arith in
    rw other (
      lines_from-line (seen ++ c ∷ []) line s (ground arith)
      ∙ ap (λ (l : Bytes). l ∷ lines_from [] s) (append_assoc seen (c ∷ []) line))

host_in-render :
    (lines : List Bytes) (rest : Bytes)
    → NoHost lines
    → host_in (lines_from [] (render lines rest)) ≡ host_in (lines_from [] rest)
unfolding host_in
host_in-render [] rest h = refl
host_in-render (line ∷ lines) rest (a, b, h) =
    rw (lines_from-line [] line (render lines rest) a, b) (host_in-render lines rest h)

host_line :
    (value : Bytes)
    → value ≢ []
    → (is_host_line (codes "Host: " ++ value) ≡ true)
      × (trim_space (drop 5 (codes "Host: " ++ value)) ≡ trim_space value)
unfolding is_host_line trim_space equal
host_line [] ne = absurd (ne refl)
host_line (c ∷ value) ne = (ground arith, refl)

host_in-line :
    (line : Bytes) (lines : List Bytes)
    → is_host_line line ≡ true
    → host_in (line ∷ lines) ≡ trim_space (drop 5 line)
unfolding host_in
host_in-line line lines h = rw h

-- The value of the first Host line is read, whatever lines come before it and whatever follows, if the
-- value is not empty, has no line feed and neither begins nor ends with a blank.
extract_host_header-render :
    (lines : List Bytes) (value rest : Bytes)
    → NoHost lines
    → value ≢ []
    → contains value b'\n' ≡ false
    → trim_space value ≡ value
    → extract_host_header (render lines ((codes "Host: " ++ value) ++ (b'\r' ∷ b'\n' ∷ rest)))
      ≡ value
unfolding extract_host_header
extract_host_header-render lines value rest h ne nl t =
    let (is_host, trimmed) = host_line value ne in
    let clean : contains (codes "Host: " ++ value) b'\n' ≡ false = unfold contains in nl in
    unfold split_lines in
    host_in-render lines ((codes "Host: " ++ value) ++ (b'\r' ∷ b'\n' ∷ rest)) h
    ∙ ap host_in (lines_from-line [] (codes "Host: " ++ value) rest clean)
    ∙ host_in-line (codes "Host: " ++ value) (lines_from [] rest) is_host
    ∙ trimmed
    ∙ t

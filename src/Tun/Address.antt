-- ===== src/Tun/Address.antt =====
-- internal/tun/tun_windows.go: the tests on the text of an IPv4 address. A number of a part is not cut to
-- 64 bits: the callers pass at most 15 bytes.
use dnn_daemon.Common.{
  ℕ, ◌+◌, ◌*◌, ◌/◌, ◌%◌, ◌-◌, ◌^◌, ◌<◌, ◌≡◌, refl, ap, sym, ◌∙◌, Bool, true, false, not, ◌&&◌, ◌||◌,
  Option, none, some, List, [], ◌∷◌, ◌++◌, ltb, leb, ◌==◌, if◌then◌else◌, length, arith, Bool-cases,
  inl, inr, length-append, append-nil,
}
use dnn_daemon.Common.Bytes.{Bytes}

-- The loop of `isValidIP`, with the dots so far; `none` is its return from within.
unfoldable pub dots_from : ℕ → Bytes → Option ℕ
dots_from dots [] = some dots
dots_from dots (c ∷ s) =
    let rest = dots_from (if c == b'.' then dots + 1 else dots) s in
    if not (c == b'.') && (ltb c b'0' || ltb b'9' c) then none else rest

abbrev is_three : Option ℕ → Bool
is_three none = false
is_three (some dots) = dots == 3

unfoldable pub is_valid_ip : Bytes → Bool
unfolding dots_from
is_valid_ip s = if ltb (length s) 7 || ltb 15 (length s) then false else is_three (dots_from 0 s)

abbrev number : Option ℕ → ℕ
number none = 0
number (some n) = n

abbrev ended : Option ℕ → List ℕ → List ℕ
ended none parts = parts
ended (some n) parts = n ∷ parts

-- The loops of `splitDottedIP`, by the number read since the last dot, `none` when nothing was.
-- `int(ip[j]-'0')` is the difference of two bytes.
unfoldable pub parts_from : Option ℕ → Bytes → List ℕ
parts_from part [] = ended part []
parts_from part (c ∷ s) =
    let rest =
      parts_from (if c == b'.' then none else some (number part * 10 + (c + 256 - b'0') % 256)) s in
    if c == b'.' then ended part rest else rest

unfoldable pub split_dotted_ip : Bytes → List ℕ
unfolding parts_from
split_dotted_ip ip = parts_from none ip

unfoldable pub is_local : List ℕ → Bool
is_local (first ∷ second ∷ _ ∷ _ ∷ []) =
    if first == 10
    then true
    else if first == 172 && leb 16 second && leb second 31
    then true
    else if first == 192 && second == 168
    then true
    else if first == 127
    then true
    else if first == 169 && second == 254
    then true
    else false
is_local _ = false

unfoldable pub is_local_network_ip : Bytes → Bool
unfolding split_dotted_ip is_local
is_local_network_ip ip = is_local (split_dotted_ip ip)

-- The decimal digits of an octet.
unfoldable pub decimal : ℕ → Bytes
decimal n =
    if ltb n 10
    then (b'0' + n) ∷ []
    else if ltb n 100
    then (b'0' + n / 10) ∷ (b'0' + n % 10) ∷ []
    else (b'0' + n / 100) ∷ (b'0' + n / 10 % 10) ∷ (b'0' + n % 10) ∷ []

unfoldable pub dotted : ℕ → ℕ → ℕ → ℕ → Bytes
dotted a b c d = decimal a ++ b'.' ∷ (decimal b ++ b'.' ∷ (decimal c ++ b'.' ∷ decimal d))

abbrev pub address : ℕ → ℕ → ℕ → ℕ → ℕ
address a b c d = ((a * 256 + b) * 256 + c) * 256 + d

-- Whether an address lies in the network `base/len`, by its bits above the `host` low ones.
abbrev in_network : ℕ → ℕ → ℕ → Bool
in_network base host ip = ip / 2 ^ host == base / 2 ^ host

-- RFC 1918, loopback and link-local.
abbrev pub is_private : ℕ → Bool
is_private ip =
    in_network (address 10 0 0 0) 24 ip
    || in_network (address 172 16 0 0) 20 ip
    || in_network (address 192 168 0 0) 16 ip
    || in_network (address 127 0 0 0) 24 ip
    || in_network (address 169 254 0 0) 16 ip

parts_from-digit :
    (part : Option ℕ) (k n : ℕ) (s : Bytes)
    → k < 10
    → number part * 10 + k ≡ n
    → parts_from part ((b'0' + k) ∷ s) ≡ parts_from (some n) s
unfolding parts_from
parts_from-digit part k n s h e =
    let plain : (b'0' + k == b'.') ≡ false = ground arith in
    let digit : (b'0' + k + 256 - b'0') % 256 ≡ k = omega (arith, h) in rw (plain, digit, e) refl

dots_from-digit :
    (dots k : ℕ) (s : Bytes) → k < 10 → dots_from dots ((b'0' + k) ∷ s) ≡ dots_from dots s
unfolding dots_from
dots_from-digit dots k s h =
    let plain : (b'0' + k == b'.') ≡ false = ground arith in
    let low : ltb (b'0' + k) b'0' ≡ false = ground arith in
    let high : ltb b'9' (b'0' + k) ≡ false = ground arith in rw (plain, low, high) refl

parts_from-decimal :
    (n : ℕ) (s : Bytes) → n < 256 → parts_from none (decimal n ++ s) ≡ parts_from (some n) s
unfolding decimal
parts_from-decimal n s h = elim (Bool-cases (ltb n 10)) [
  | inl one ↦ rw one (parts_from-digit none n n s (ground (arith, one)) (omega arith))
  | inr more ↦ elim (Bool-cases (ltb n 100)) [
    | inl two ↦
        rw (more, two)
          (parts_from-digit none (n / 10) (n / 10) ((b'0' + n % 10) ∷ s) (ground (arith, two))
              (omega arith)
            ∙ parts_from-digit (some (n / 10)) (n % 10) n s (omega arith) (omega arith))
    | inr three ↦
        let t = (b'0' + n % 10) ∷ s in
        rw (more, three)
          (parts_from-digit none (n / 100) (n / 100) ((b'0' + n / 10 % 10) ∷ t) (omega (arith, h))
              (omega arith)
            ∙ parts_from-digit (some (n / 100)) (n / 10 % 10) (n / 10) t (omega arith) (omega arith)
            ∙ parts_from-digit (some (n / 10)) (n % 10) n s (omega arith) (omega arith))
  ]
]

dots_from-decimal :
    (dots n : ℕ) (s : Bytes) → n < 256 → dots_from dots (decimal n ++ s) ≡ dots_from dots s
unfolding decimal
dots_from-decimal dots n s h = elim (Bool-cases (ltb n 10)) [
  | inl one ↦ rw one (dots_from-digit dots n s (ground (arith, one)))
  | inr more ↦ elim (Bool-cases (ltb n 100)) [
    | inl two ↦
        rw (more, two)
          (dots_from-digit dots (n / 10) ((b'0' + n % 10) ∷ s) (ground (arith, two))
            ∙ dots_from-digit dots (n % 10) s (omega arith))
    | inr three ↦
        rw (more, three)
          (dots_from-digit dots (n / 100) ((b'0' + n / 10 % 10) ∷ ((b'0' + n % 10) ∷ s))
              (omega arith)
            ∙ dots_from-digit dots (n / 10 % 10) ((b'0' + n % 10) ∷ s) (omega arith)
            ∙ dots_from-digit dots (n % 10) s (omega arith))
  ]
]

length-decimal : (n : ℕ) → (0 < length (decimal n)) × (length (decimal n) < 4)
unfolding decimal
length-decimal n = ground arith

length-dotted : (a b c d : ℕ) → (6 < length (dotted a b c d)) × (length (dotted a b c d) < 16)
unfolding dotted
length-dotted a b c d =
    let two = decimal c ++ b'.' ∷ decimal d in
    let three = decimal b ++ b'.' ∷ two in
    omega (
      arith,
      length-append (decimal a) (b'.' ∷ three),
      length-append (decimal b) (b'.' ∷ two),
      length-append (decimal c) (b'.' ∷ decimal d),
      length-decimal a,
      length-decimal b,
      length-decimal c,
      length-decimal d,
    )

module _ (a b c d : ℕ) (ha : a < 256) (hb : b < 256) (hc : c < 256) (hd : d < 256) where
  parts_from-dotted : split_dotted_ip (dotted a b c d) ≡ a ∷ b ∷ c ∷ d ∷ []
  unfolding split_dotted_ip dotted parts_from
  parts_from-dotted =
      let last : parts_from none (decimal d) ≡ d ∷ [] =
        ap (parts_from none) (sym (append-nil (decimal d))) ∙ parts_from-decimal d [] hd in
      parts_from-decimal a _ ha
      ∙ ap (◌∷◌ a)
          (parts_from-decimal b _ hb ∙ ap (◌∷◌ b) (parts_from-decimal c _ hc ∙ ap (◌∷◌ c) last))

  dots_from-dotted : dots_from 0 (dotted a b c d) ≡ some 3
  unfolding dots_from dotted
  dots_from-dotted =
      dots_from-decimal 0 a _ ha
      ∙ dots_from-decimal 1 b _ hb
      ∙ dots_from-decimal 2 c _ hc
      ∙ ap (dots_from 3) (sym (append-nil (decimal d)))
      ∙ dots_from-decimal 3 d [] hd

  is_valid_ip-dotted : is_valid_ip (dotted a b c d) ≡ true
  unfolding is_valid_ip
  is_valid_ip-dotted =
      let fits : (ltb (length (dotted a b c d)) 7 || ltb 15 (length (dotted a b c d))) ≡ false =
        ground (arith, length-dotted a b c d) in
      rw (fits, dots_from-dotted) refl

  is_local_lem : is_local (a ∷ b ∷ c ∷ d ∷ []) ≡ is_private (address a b c d)
  unfolding is_local
  is_local_lem = ground arith

  -- An IPv4 address in dotted form is accepted, its octets are read back, and it is taken for local
  -- exactly when its 32 bits lie in one of the networks 10.0.0.0/8, 172.16.0.0/12, 192.168.0.0/16,
  -- 127.0.0.0/8 and 169.254.0.0/16.
  pub is_local_network_ip-dotted :
      (is_valid_ip (dotted a b c d) ≡ true)
      × (split_dotted_ip (dotted a b c d) ≡ a ∷ b ∷ c ∷ d ∷ [])
      × (is_local_network_ip (dotted a b c d) ≡ is_private (address a b c d))
  unfolding is_local_network_ip
  is_local_network_ip-dotted =
      (is_valid_ip-dotted, parts_from-dotted, ap is_local parts_from-dotted ∙ is_local_lem)

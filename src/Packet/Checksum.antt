-- ===== src/Packet/Checksum.antt =====
-- The checksum of the header that is built.
use dnn_daemon.Common.{
  ℕ, zero, suc, ◌+◌, ◌*◌, ◌%◌, ◌≤◌, ◌<◌, ◌≡◌, refl, ap, ◌∙◌, Bool-cases, inl, inr, [], ◌∷◌, ◌++◌,
  length, take, drop, arith, length-drop, ◌==◌, ==→eq, ◌&&◌,
}
use dnn_daemon.Common.Bytes.{Bytes, equal}
use dnn_daemon.Common.Outcome.{done}
use dnn_daemon.Net.{to4, word, four_bytes}
use dnn_daemon.Packet.{sum_words, fold_carries, complement, ipv4_checksum, build_ipv4_packet}

-- Two rounds end the loop over the carries.
pub fold_carries_enough : (sum : ℕ) → sum < 0x100000000 → fold_carries 2 sum ≤ 0xffff
unfolding fold_carries
fold_carries_enough sum h = ground arith

abbrev pub AllBytes : Bytes → Type 0
AllBytes [] = Unit {0}
AllBytes (b ∷ bs) = (b < 256) × AllBytes bs

-- The sum of the words, which do not wrap where it fits.
abbrev words : Bytes → ℕ
words [] = 0
words (b ∷ []) = 0
words (hi ∷ (lo ∷ rest)) = hi * 256 + lo + words rest

abbrev IsPaired : Bytes → Type 0
IsPaired [] = Unit {0}
IsPaired (b ∷ []) = ⊥
IsPaired (hi ∷ (lo ∷ rest)) = IsPaired rest

sum_words_exact :
    (sum : ℕ) (bs : Bytes)
    → IsPaired bs
    → sum + words bs < 0x100000000
    → sum_words sum bs ≡ done (sum + words bs)
unfolding sum_words
sum_words_exact sum [] p h = ap done (omega arith)
sum_words_exact sum (b ∷ []) p h = absurd p
sum_words_exact sum (hi ∷ (lo ∷ rest)) p h =
    let e : (sum + (hi * 256 + lo)) % 0x100000000 ≡ sum + (hi * 256 + lo) = omega arith in
    rw e (sum_words_exact (sum + (hi * 256 + lo)) rest p (omega arith) ∙ ap done (omega arith))

ipv4_checksum-words :
    (header : Bytes)
    → IsPaired header
    → words header < 0x100000000
    → ipv4_checksum header ≡ done (complement (fold_carries 2 (words header)))
unfolding ipv4_checksum
ipv4_checksum-words header p h = rw (sum_words_exact 0 header p (omega arith)) (
    ap (λ (n : ℕ). done (complement (fold_carries 2 n))) {x = 0 + words header} {y = words header}
      (omega arith))

-- The complement makes the sum a multiple of 0xffff.
complement_sum :
    (sum : ℕ)
    → 0 < sum
    → sum < 0x100000
    → complement (fold_carries 2 (sum + complement (fold_carries 2 sum))) ≡ 0
unfolding fold_carries
complement_sum sum p h = ground arith

AllBytes-drop : (n : ℕ) (bs : Bytes) → AllBytes bs → AllBytes (drop n bs)
AllBytes-drop zero bs h = h
AllBytes-drop (suc n) [] h = h
AllBytes-drop (suc n) (b ∷ bs) h = AllBytes-drop n bs h.1

-- An address as a header has it.
data FourBytes : Bytes → Type 0 where
  four : (a b c d : ℕ) → a < 256 → b < 256 → c < 256 → d < 256 → FourBytes (a ∷ b ∷ c ∷ d ∷ [])

length-FourBytes : (bs : Bytes) → length bs ≡ 4 → AllBytes bs → FourBytes bs
length-FourBytes [] e h = absurd (omega (arith, e))
length-FourBytes (a ∷ []) e h = absurd (omega (arith, e))
length-FourBytes (a ∷ (b ∷ [])) e h = absurd (omega (arith, e))
length-FourBytes (a ∷ (b ∷ (c ∷ []))) e h = absurd (omega (arith, e))
length-FourBytes (a ∷ (b ∷ (c ∷ (d ∷ [])))) e (p, (q, (r, (s, _)))) = four a b c d p q r s
length-FourBytes (a ∷ (b ∷ (c ∷ (d ∷ (x ∷ bs))))) e h = absurd (omega (arith, e))

to4-FourBytes : (ip : Bytes) → AllBytes ip → FourBytes (four_bytes (to4 ip))
to4-FourBytes ip h = elim (Bool-cases (length ip == 4)) [
  | inl a ↦ unfold to4 in rw a (length-FourBytes ip (==→eq (length ip) 4 a) h)
  | inr a ↦
      elim (Bool-cases (
        length ip == 16
        && equal (take 12 ip) (0 ∷ 0 ∷ 0 ∷ 0 ∷ 0 ∷ 0 ∷ 0 ∷ 0 ∷ 0 ∷ 0 ∷ 0xff ∷ 0xff ∷ []))) [
          | inl b ↦
              unfold to4 in
              rw (a, b)
                (length-FourBytes (drop 12 ip) (ground (arith, length-drop 12 ip))
                  (AllBytes-drop 12 ip h))
          | inr b ↦
              unfold to4 in
              rw (a, b) (four 0 0 0 0 (omega arith) (omega arith) (omega arith) (omega arith))
        ]
]

-- The header over addresses of four bytes.
abbrev header_with : ℕ → ℕ → Bytes → Bytes → ℕ → Bytes
header_with total_len protocol src dst checksum =
    0x45
    ∷ 0
    ∷ (word total_len ++ (0 ∷ 0 ∷ 0x40 ∷ 0 ∷ 64 ∷ protocol ∷ (word checksum ++ (src ++ dst))))

header_words :
    (total_len protocol : ℕ) (src dst : Bytes)
    → FourBytes src
    → FourBytes dst
    → protocol < 256
    → (checksum : ℕ) → checksum < 0x10000
    → IsPaired (header_with total_len protocol src dst checksum)
      × (words (header_with total_len protocol src dst checksum)
          ≡ words (header_with total_len protocol src dst 0) + checksum)
      × (0 < words (header_with total_len protocol src dst 0))
      × (words (header_with total_len protocol src dst 0) < 0x100000)
header_words total_len protocol _ _ (four a b c d p q r s) (four a' b' c' d' p' q' r' s') h checksum
      k =
    (tt, omega arith, omega arith, omega arith)

checksum_fits : (sum : ℕ) → complement sum < 0x10000
checksum_fits sum = omega arith

header_verifies :
    (total_len protocol : ℕ) (src dst : Bytes)
    → FourBytes src
    → FourBytes dst
    → protocol < 256
    → (checksum : ℕ) × (ipv4_checksum (header_with total_len protocol src dst 0) ≡ done checksum)
      × (ipv4_checksum (header_with total_len protocol src dst checksum) ≡ done 0)
header_verifies total_len protocol src dst f g h =
    let sum : ℕ = words (header_with total_len protocol src dst 0) in
    let checksum : ℕ = complement (fold_carries 2 sum) in
    let (paired, _, positive, small) =
      header_words total_len protocol src dst f g h 0 (omega arith) in
    let (paired', e, _, _) =
      header_words total_len protocol src dst f g h checksum (checksum_fits (fold_carries 2 sum)) in
    let fits : checksum < 0x10000 = checksum_fits (fold_carries 2 sum) in
    (
      checksum,
      ipv4_checksum-words (header_with total_len protocol src dst 0) paired (omega arith),
      ipv4_checksum-words (header_with total_len protocol src dst checksum) paired' (omega arith)
          ∙ rw e (ap done (complement_sum sum positive small)),
    )

take-header_with :
    (total_len protocol : ℕ) (src dst : Bytes) (checksum : ℕ) (payload : Bytes)
    → FourBytes src
    → FourBytes dst
    → take 20 (header_with total_len protocol src dst checksum ++ payload)
      ≡ header_with total_len protocol src dst checksum
take-header_with total_len protocol _ _ checksum payload (four a b c d p q r s)
      (four a' b' c' d' p' q' r' s') =
    refl

-- A packet is built, whatever its payload, and the header that it begins with has the checksum zero
-- when it is summed with its own checksum in place, as a receiver does.
pub build_ipv4_packet-ipv4_checksum :
    (src_ip dst_ip : Bytes) (protocol : ℕ) (payload : Bytes)
    → AllBytes src_ip
    → AllBytes dst_ip
    → protocol < 256
    → (packet : Bytes) × (build_ipv4_packet src_ip dst_ip protocol payload ≡ done packet)
      × (ipv4_checksum (take 20 packet) ≡ done 0)
unfolding build_ipv4_packet
build_ipv4_packet-ipv4_checksum src_ip dst_ip protocol payload hs hd hp =
    let src : Bytes = four_bytes (to4 src_ip) in
    let dst : Bytes = four_bytes (to4 dst_ip) in
    let total : ℕ = 20 + length payload in
    let f = to4-FourBytes src_ip hs in
    let g = to4-FourBytes dst_ip hd in
    let (checksum, e, v) = header_verifies total protocol src dst f g hp in
    (
      header_with total protocol src dst checksum ++ payload,
      rw e refl,
      rw (take-header_with total protocol src dst checksum payload f g) v,
    )

-- ===== src/Stack/Flows.antt =====
-- What the stack reads of the packets that it builds.
use dnn_daemon.Common.{
  ℕ, suc, ◌+◌, ◌≤◌, ◌≡◌, refl, true, false, some, [], ◌∷◌, ◌++◌, length, take, drop, arith, ◌==◌,
  if◌then◌else◌, get_or, take-append_self, ◌∙◌, append_assoc, drop-append_self, length-append, ap,
}
use dnn_daemon.Common.Bytes.{Bytes}
use dnn_daemon.Common.Outcome.{done}
use dnn_daemon.Net.{to4, to16}
use dnn_daemon.Packet.{build_ipv4_packet, build_ipv6_packet, ipv4_checksum}
use dnn_daemon.Stack.{udp, transport, process_packet}

to4_four : (a b c d : ℕ) → to4 (a ∷ b ∷ c ∷ d ∷ []) ≡ some (a ∷ b ∷ c ∷ d ∷ [])
unfolding to4
to4_four a b c d = refl

abbrev headed : ℕ → ℕ → ℕ → ℕ → ℕ → ℕ → ℕ → ℕ → ℕ → ℕ → ℕ → ℕ → Bytes → Bytes
headed t u x y a b c d a' b' c' d' payload =
    0x45 ∷ 0 ∷ t ∷ u ∷ 0 ∷ 0 ∷ 0x40 ∷ 0 ∷ 64 ∷ 17 ∷ x ∷ y ∷ a ∷ b ∷ c ∷ d ∷ a' ∷ b' ∷ c' ∷ d'
    ∷ payload

read_headed :
    (t u x y a b c d a' b' c' d' : ℕ) (payload : Bytes)
    → 8 ≤ length payload
    → process_packet (headed t u x y a b c d a' b' c' d' payload)
      ≡ udp payload (a ∷ b ∷ c ∷ d ∷ []) (a' ∷ b' ∷ c' ∷ d' ∷ []) false
unfolding process_packet
read_headed t u x y a b c d a' b' c' d' payload h = ground arith

read_ipv4 :
    (a b c d a' b' c' d' : ℕ) (payload : Bytes)
    → 8 ≤ length payload
    → (packet : Bytes) × (build_ipv4_packet (a ∷ b ∷ c ∷ d ∷ []) (a' ∷ b' ∷ c' ∷ d' ∷ []) 17 payload
        ≡ done packet)
      × (process_packet packet ≡ udp payload (a ∷ b ∷ c ∷ d ∷ []) (a' ∷ b' ∷ c' ∷ d' ∷ []) false)
unfolding build_ipv4_packet ipv4_checksum to4
read_ipv4 a b c d a' b' c' d' payload h =
    (_, refl, read_headed _ _ _ _ a b c d a' b' c' d' payload h)

pub take_exact : (n : ℕ) (xs ys : Bytes) → length xs ≡ n → take n (xs ++ ys) ≡ xs
take_exact n xs ys h = rw h at (take-append_self xs ys)

pub drop_exact : (n : ℕ) (xs ys : Bytes) → length xs ≡ n → drop n (xs ++ ys) ≡ ys
drop_exact n xs ys h = rw h at (drop-append_self xs ys)

get_or-append : (n : ℕ) (xs ys : Bytes) → get_or (xs ++ ys) (length xs + n) 0 ≡ get_or ys n 0
get_or-append n [] ys = ap (λ (m : ℕ). get_or ys m 0) (omega arith)
get_or-append n (x ∷ xs) ys =
    ap (λ (m : ℕ). get_or (x ∷ (xs ++ ys)) m 0) {y = suc (length xs + n)} (omega arith)
    ∙ get_or-append n xs ys

get_or-append_first : (xs ys : Bytes) → length xs ≡ 16 → get_or (xs ++ ys) 0 0 ≡ get_or xs 0 0
get_or-append_first [] ys h = absurd (omega (arith, h))
get_or-append_first (x ∷ xs) ys h = refl

read_long :
    (packet src dst payload : Bytes)
    → get_or packet 0 0 ≡ 0x60
    → get_or packet 6 0 ≡ 17
    → length packet ≡ 40 + length payload
    → get_or packet 24 0 ≡ get_or dst 0 0
    → take 16 (drop 8 packet) ≡ src
    → take 16 (drop 24 packet) ≡ dst
    → drop 40 packet ≡ payload
    → 8 ≤ length payload
    → process_packet packet
      ≡ (if get_or dst 0 0 == 0xfd then transport packet else udp payload src dst true)
unfolding process_packet
read_long packet src dst payload v n l f s d p h = ground arith

abbrev long : ℕ → ℕ → Bytes → Bytes → Bytes → Bytes
long t u src dst payload = 0x60 ∷ 0 ∷ 0 ∷ 0 ∷ t ∷ u ∷ 17 ∷ 64 ∷ (src ++ (dst ++ payload))

read_ipv6 :
    (t u : ℕ) (src dst payload : Bytes)
    → length src ≡ 16
    → length dst ≡ 16
    → 8 ≤ length payload
    → process_packet (long t u src dst payload) ≡ (
        if get_or dst 0 0 == 0xfd
        then transport (long t u src dst payload)
        else udp payload src dst true)
read_ipv6 t u src dst payload hs hd h =
    read_long (long t u src dst payload) src dst payload refl refl
      (omega (arith, length-append src (dst ++ payload), length-append dst payload))
      ((let e = get_or-append 0 src (dst ++ payload) in
        ap (λ (m : ℕ). get_or (src ++ (dst ++ payload)) m 0) {x = 16} {y = length src + 0}
          (omega arith)
        ∙ e
        ∙ get_or-append_first dst payload hd))
      (take_exact 16 src (dst ++ payload) hs)
      (ap (take 16) (drop_exact 16 src (dst ++ payload) hs) ∙ take_exact 16 dst payload hd)
      (rw append_assoc at
        (drop_exact 32 (src ++ dst) payload (omega (arith, length-append src dst))))
      h

-- An IPv4 address of four bytes.
pub data IsFour : Bytes → Type 0 where
  four : (a b c d : ℕ) → IsFour (a ∷ b ∷ c ∷ d ∷ [])

pub length-IsFour : (bs : Bytes) → length bs ≡ 4 → IsFour bs
length-IsFour [] e = absurd (omega (arith, e))
length-IsFour (a ∷ []) e = absurd (omega (arith, e))
length-IsFour (a ∷ (b ∷ [])) e = absurd (omega (arith, e))
length-IsFour (a ∷ (b ∷ (c ∷ []))) e = absurd (omega (arith, e))
length-IsFour (a ∷ (b ∷ (c ∷ (d ∷ [])))) e = four a b c d
length-IsFour (a ∷ (b ∷ (c ∷ (d ∷ (x ∷ bs))))) e = absurd (omega (arith, e))

pub read_four :
    (src dst payload : Bytes)
    → IsFour src
    → IsFour dst
    → 8 ≤ length payload
    → (packet : Bytes) × (build_ipv4_packet src dst 17 payload ≡ done packet)
      × (process_packet packet ≡ udp payload src dst false)
read_four _ _ payload (four a b c d) (four a' b' c' d') h = read_ipv4 a b c d a' b' c' d' payload h

to16-sixteen : (ip : Bytes) → length ip ≡ 16 → to16 ip ≡ some ip
unfolding to16
to16-sixteen ip h = ground arith

-- A UDP packet that is built is read back with its payload and its addresses: as IPv4 always, and as
-- IPv6 unless the destination begins with 0xfd, when it is a packet for a transport. The payload has
-- the eight bytes of a UDP header at least.
pub process_packet-build :
    (src dst src6 dst6 payload : Bytes)
    → length src ≡ 4
    → length dst ≡ 4
    → length src6 ≡ 16
    → length dst6 ≡ 16
    → 8 ≤ length payload
    → ((packet : Bytes) × (build_ipv4_packet src dst 17 payload ≡ done packet)
        × (process_packet packet ≡ udp payload src dst false))
      × (process_packet (build_ipv6_packet src6 dst6 17 payload) ≡ (
          if get_or dst6 0 0 == 0xfd
          then transport (build_ipv6_packet src6 dst6 17 payload)
          else udp payload src6 dst6 true))
process_packet-build src dst src6 dst6 payload a b a6 b6 h = (
  read_four src dst payload (length-IsFour src a) (length-IsFour dst b) h,
  unfold build_ipv6_packet in
      rw (to16-sixteen src6 a6, to16-sixteen dst6 b6) (read_ipv6 _ _ src6 dst6 payload a6 b6 h),
)

-- ===== src/Packet.antt =====
-- internal/stack/stack.go: the IP packets that the stack builds, and the header checksum.
pub mod Checksum
use dnn_daemon.Common.{
  ℕ, zero, suc, ◌+◌, ◌*◌, ◌-◌, ◌/◌, ◌%◌, [], ◌∷◌, ◌++◌, ltb, if◌then◌else◌, length,
}
use dnn_daemon.Common.Bytes.{Bytes}
use dnn_daemon.Common.Outcome.{Outcome, done, panic, ◌>>=◌}
use dnn_daemon.Net.{to4, to16, word, four_bytes, sixteen_bytes}

-- The loop over the words of the header, in 32 bits. Reading a word past an odd byte panics.
unfoldable pub sum_words : ℕ → Bytes → Outcome ℕ
sum_words sum [] = done sum
sum_words sum (b ∷ []) = panic
sum_words sum (hi ∷ (lo ∷ rest)) = sum_words ((sum + (hi * 256 + lo)) % 0x100000000) rest

-- The loop that adds the carries, by the rounds left.
unfoldable pub fold_carries : ℕ → ℕ → ℕ
fold_carries zero sum = sum
fold_carries (suc fuel) sum =
    let rest = fold_carries fuel (sum % 0x10000 + sum / 0x10000) in
    if ltb 0xffff sum then rest else sum

-- `^uint16(sum)`
abbrev pub complement : ℕ → ℕ
complement sum = 0xffff - sum % 0x10000

unfoldable pub ipv4_checksum : Bytes → Outcome ℕ
unfolding sum_words fold_carries
ipv4_checksum header = do sum ← sum_words 0 header; done (complement (fold_carries 2 sum))

-- Version and length, service, total length, identification, flags, time to live, protocol, checksum,
-- and the addresses.
abbrev pub ipv4_header : ℕ → ℕ → Bytes → Bytes → ℕ → Bytes
ipv4_header total_len protocol src_ip dst_ip checksum =
    0x45
    ∷ 0
    ∷ (word total_len
        ++ (0
            ∷ 0
            ∷ 0x40
            ∷ 0
            ∷ 64
            ∷ protocol
            ∷ (word checksum ++ (four_bytes (to4 src_ip) ++ four_bytes (to4 dst_ip)))))

unfoldable pub build_ipv4_packet : Bytes → Bytes → ℕ → Bytes → Outcome Bytes
build_ipv4_packet src_ip dst_ip protocol payload = do
  checksum ← ipv4_checksum (ipv4_header (20 + length payload) protocol src_ip dst_ip 0)
  done (ipv4_header (20 + length payload) protocol src_ip dst_ip checksum ++ payload)

unfoldable pub build_ipv6_packet : Bytes → Bytes → ℕ → Bytes → Bytes
build_ipv6_packet src_ip dst_ip next_header payload =
    0x60
    ∷ 0
    ∷ 0
    ∷ 0
    ∷ (word (length payload)
        ++ (next_header
            ∷ 64
            ∷ (sixteen_bytes (to16 src_ip) ++ (sixteen_bytes (to16 dst_ip) ++ payload))))

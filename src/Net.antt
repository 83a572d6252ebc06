-- ===== src/Net.antt =====
-- The parts of Go's packages net and encoding/binary that the daemon calls: an address is its bytes, a
-- word of 16 bits two bytes, the high one first.
use dnn_daemon.Common.{
  ℕ, ◌+◌, ◌*◌, ◌/◌, ◌%◌, ◌&&◌, Option, none, some, [], ◌∷◌, ◌==◌, if◌then◌else◌, length, take, drop,
  get_or,
}
use dnn_daemon.Common.Bytes.{Bytes, equal}

-- `net.IP.To4`
unfoldable pub to4 : Bytes → Option Bytes
unfolding equal
to4 ip =
    if length ip == 4
    then some ip
    else if length ip == 16
        && equal (take 12 ip) (0 ∷ 0 ∷ 0 ∷ 0 ∷ 0 ∷ 0 ∷ 0 ∷ 0 ∷ 0 ∷ 0 ∷ 0xff ∷ 0xff ∷ [])
    then some (drop 12 ip)
    else none

-- `net.IP.To16`
unfoldable pub to16 : Bytes → Option Bytes
to16 ip =
    if length ip == 4
    then some (0 ∷ 0 ∷ 0 ∷ 0 ∷ 0 ∷ 0 ∷ 0 ∷ 0 ∷ 0 ∷ 0 ∷ 0xff ∷ 0xff ∷ ip)
    else if length ip == 16
    then some ip
    else none

-- `binary.BigEndian.Uint16(b[at:at+2])`, where the caller has tested the length
abbrev pub word_at : Bytes → ℕ → ℕ
word_at b at = get_or b at 0 * 256 + get_or b (at + 1) 0

-- What `binary.BigEndian.PutUint16` writes of `uint16(v)`
abbrev pub word : ℕ → Bytes
word v = v / 256 % 256 ∷ v % 256 ∷ []

-- What `copy` leaves in four, or in sixteen, zero bytes: a nil address copies nothing.
abbrev pub four_bytes : Option Bytes → Bytes
four_bytes none = 0 ∷ 0 ∷ 0 ∷ 0 ∷ []
four_bytes (some ip) = ip

abbrev pub sixteen_bytes : Option Bytes → Bytes
sixteen_bytes none = 0 ∷ 0 ∷ 0 ∷ 0 ∷ 0 ∷ 0 ∷ 0 ∷ 0 ∷ 0 ∷ 0 ∷ 0 ∷ 0 ∷ 0 ∷ 0 ∷ 0 ∷ 0 ∷ []
sixteen_bytes (some ip) = ip

-- ===== src/Tun/Darwin.antt =====
-- internal/tun/tun_darwin.go: Read, Write and Close, with the four bytes that utun puts before a packet.
use dnn_daemon.Common.{
  ℕ, ◌+◌, ◌-◌, ◌/◌, ◌≤◌, ◌≡◌, refl, false, Option, none, some, ◌∷◌, ◌++◌, ltb, ◌==◌, if◌then◌else◌,
  length, take, drop, is_nil, get_or, arith, take_whole, Bool, not, ◌&&◌,
}
use dnn_daemon.Common.Bytes.{Bytes}
use dnn_daemon.Net.{word}
use dnn_daemon.Tun.{
  Device, close, Received, received, read_closed, read_failed, short_read, Sent, sent, write_closed,
  write_failed, file_read,
}
use dnn_daemon.Tun.Linux

-- `copy(buf, fullBuf[4:n])`, with what the file gave
abbrev unframed : ℕ → Option Bytes → Received
unframed room none = read_failed
unframed room (some got) =
    if ltb (length got) 4 then short_read else received (take room (drop 4 got))

-- By the room in the buffer and the next packet of the file.
unfoldable pub read : Device → ℕ → Option Bytes → Received
read t room packet = if t.closed then read_closed else unframed room (file_read (room + 4) packet)

-- AF_INET or AF_INET6 of macOS, by the version of the packet
unfoldable pub family : Bytes → ℕ
family buf =
    if is_nil buf
    then 0
    else if get_or buf 0 0 / 16 == 4
    then 2
    else if get_or buf 0 0 / 16 == 6
    then 30
    else 0

abbrev pub frame : Bytes → Bytes
frame buf = 0 ∷ 0 ∷ (word (family buf) ++ buf)

abbrev taken : Bytes → Option ℕ → Sent
taken full_buf none = write_failed full_buf
taken full_buf (some n) = sent (n - 4) full_buf

-- By the number of bytes that the file takes; `none` is its error.
unfoldable pub write : Device → Bytes → Option ℕ → Sent
write t buf took = if t.closed then write_closed else taken (frame buf) took

abbrev is_ip : ℕ → Bytes → Bool
is_ip version buf = not (is_nil buf) && get_or buf 0 0 / 16 == version

unframed-frame :
    (room : ℕ) (buf : Bytes)
    → length buf ≤ room
    → unframed room (file_read (room + 4) (some (frame buf))) ≡ received buf
unframed-frame room buf fits =
    let long : ltb (length (frame buf)) 4 ≡ false = ground arith in
    rw (take_whole (room + 4) (frame buf) (omega (arith, fits)), long, take_whole room buf fits)
      refl

-- A packet that one device hands to its file is read back whole by another with room for it, and is
-- handed over behind three zeros and a byte for its version: 2 for IPv4, 30 for IPv6 and 0 for any other. A device that is closed reads
-- and writes nothing, on Linux too.
read-write :
    (t u : Device) (buf : Bytes) (room : ℕ) (packet : Option Bytes) (took : Option ℕ)
    → t.closed ≡ false
    → u.closed ≡ false
    → length buf ≤ room
    → (write t buf (some (length buf + 4)) ≡ sent (length buf) (frame buf))
      × (read u room (some (frame buf)) ≡ received buf)
      × (frame buf ≡ 0 ∷ 0 ∷ 0 ∷ (if is_ip 4 buf then 2 else if is_ip 6 buf then 30 else 0) ∷ buf)
      × (read (close t) room packet ≡ read_closed)
      × (write (close t) buf took ≡ write_closed)
      × (Linux.read (close t) room packet ≡ read_closed)
      × (Linux.write (close t) buf took ≡ write_closed)
unfolding read write family Linux.read Linux.write
read-write t u buf room packet took a b fits =
    let count : length buf + 4 - 4 ≡ length buf = omega arith in
    (rw (a, count) refl, rw b (unframed-frame room buf fits), ground arith, refl, refl, refl, refl)

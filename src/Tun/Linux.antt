-- ===== src/Tun/Linux.antt =====
-- internal/tun/tun_linux.go: Read, Write and Close.
use dnn_daemon.Common.{ℕ, Option, none, some, if◌then◌else◌}
use dnn_daemon.Common.Bytes.{Bytes}
use dnn_daemon.Tun.{
  Device, Received, received, read_closed, read_failed, Sent, sent, write_closed, write_failed,
  file_read,
}

abbrev given : Option Bytes → Received
given none = read_failed
given (some bytes) = received bytes

-- By the room in the buffer and the next packet of the file.
unfoldable pub read : Device → ℕ → Option Bytes → Received
read t room packet = if t.closed then read_closed else given (file_read room packet)

abbrev taken : Bytes → Option ℕ → Sent
taken buf none = write_failed buf
taken buf (some n) = sent n buf

-- By the number of bytes that the file takes; `none` is its error.
unfoldable pub write : Device → Bytes → Option ℕ → Sent
write t buf took = if t.closed then write_closed else taken buf took

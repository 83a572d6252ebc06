-- ===== src/Tun.antt =====
-- internal/tun: what a device of Linux or macOS is between its calls. The devices are in the modules of their
-- systems, and the routing of DNS servers of Windows in Routing, with Servers, Address and Scan below it.
-- Making a device, and the commands of the system, are I/O.
pub mod Linux
pub mod Darwin
pub mod Windows
pub mod Scan
pub mod Address
pub mod Servers
pub mod Routing
pub mod Routed
use dnn_daemon.Common.{ℕ, Bool, true, Option, none, some, take}
use dnn_daemon.Common.Bytes.{Bytes}

-- `t.closed`; the file of a device that is closed is nil.
pub record Device : Type 0 where
  pub closed : Bool

abbrev pub close : Device → Device
close t = record { closed = true }

-- What `Read` returns: the bytes it leaves in the buffer, or an error, that of the file or its own.
pub data Received : Type 0 where
  received : Bytes → Received
  read_closed read_failed short_read : Received

-- What `Write` returns, and the bytes that it hands to the file.
pub data Sent : Type 0 where
  sent : ℕ → (handed : Bytes) → Sent
  write_closed : Sent
  write_failed : (handed : Bytes) → Sent

-- What `file.Read` gives for a buffer of so many bytes: as much of the next packet as it holds; `none`
-- is an error.
abbrev pub file_read : ℕ → Option Bytes → Option Bytes
file_read room none = none
file_read room (some packet) = some (take room packet)

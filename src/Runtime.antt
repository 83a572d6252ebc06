-- ===== src/Runtime.antt =====
-- What the daemon takes from outside its own source and this library does not compute: Go's Unicode
-- tables, SHA-256, the text form of an IP address, and the conversion of floats. The laws are documented behaviour: a SHA-256
-- digest has 32 bytes, and two 16-byte addresses with one text form are the same address.
use dnn_daemon.Common.{ℕ, ◌≡◌, Option, length}
use dnn_daemon.Common.Bytes.{Bytes}
use dnn_daemon.Common.Int.{ℤ}

pub record Runtime : Type 0 where
  -- `strings.ToLower` and `strings.TrimSpace` on text that has a byte outside ASCII.
  pub lower_runes : Bytes → Bytes
  pub trim_runes : Bytes → Bytes
  -- `sha256.Sum256`
  pub sum256 : Bytes → Bytes
  pub length-sum256 : (message : Bytes) → length (sum256 message) ≡ 32
  -- `net.IP.String` and `net.ParseIP`
  pub ip_string : Bytes → Bytes
  pub ip_string-injective :
      (a b : Bytes) → length a ≡ 16 → length b ≡ 16 → ip_string a ≡ ip_string b → a ≡ b
  pub parse_ip : Bytes → Option Bytes
  -- The conversion `int(f)` of a float64, which is given by its bits.
  pub int_of_float : ℕ → ℤ

-- ===== src/Mapper/Ops.antt =====
-- The calls that change the cache, as a sequence in any order.
use dnn_daemon.Common.{Bool, [], ◌∷◌, List, Option}
use dnn_daemon.Common.Bytes.{Bytes}
use dnn_daemon.Common.Int.{ℤ}
use dnn_daemon.Common.Table.{Table}
use dnn_daemon.Runtime.{Runtime}
use dnn_daemon.Mapper.{Cache, register, register_with_ip_and_subdomains, set_cert_verified}

pub data Op : Type 0 where
  add_name : Bytes → Op
  add_resolution : Bytes → Bytes → ℤ → Bytes → Option (Table Bytes) → Op
  add_verdict : Bytes → Bool → Bytes → Op

module _ ⦃r : Runtime⦄ where
  unfoldable pub apply : Cache → Op → Cache
  apply c (add_name name) = (register c name).0
  apply c (add_resolution name ip port pem subdomains) =
      register_with_ip_and_subdomains c name ip port pem subdomains
  apply c (add_verdict name verified cert_error) = set_cert_verified c name verified cert_error

  unfoldable pub run : Cache → List Op → Cache
  unfolding apply
  run c [] = c
  run c (op ∷ ops) = run (apply c op) ops

  -- A property that every call keeps holds after every sequence of calls.
  pub run_inv {ℓ} :
      (P : Cache → Type ℓ)
      → ((c : Cache) (op : Op) → P c → P (apply c op))
      → (ops : List Op) (c : Cache) → P c
      → P (run c ops)
  unfolding run
  run_inv P keep [] c h = h
  run_inv P keep (op ∷ ops) c h = run_inv P keep ops (apply c op) (keep c op h)

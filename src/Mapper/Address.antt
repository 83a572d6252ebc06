-- ===== src/Mapper/Address.antt =====
-- The addresses of `NpubToIPv6`.
use dnn_daemon.Common.{◌≡◌, refl, true, length, arith, length-take}
use dnn_daemon.Common.Bytes.{Bytes}
use dnn_daemon.Runtime.{Runtime}
use dnn_daemon.Text.{is_ascii}
use dnn_daemon.Text.Laws.{normalize_idempotent}
use dnn_daemon.Mapper.{is_dnn_address, normalize, npub_to_ipv6}

module _ ⦃r : Runtime⦄ where
  pub length-npub_to_ipv6 : (name : Bytes) → length (npub_to_ipv6 name) ≡ 16
  unfolding npub_to_ipv6
  length-npub_to_ipv6 name =
      omega (arith, length-take 15 (r.sum256 (normalize name)), r.length-sum256 (normalize name))

  -- The address of a name has sixteen bytes and lies in fd00::/8.
  pub npub_to_ipv6-is_dnn_address :
      (name : Bytes)
      → (length (npub_to_ipv6 name) ≡ 16) × (is_dnn_address (npub_to_ipv6 name) ≡ true)
  unfolding is_dnn_address
  npub_to_ipv6-is_dnn_address name =
      (length-npub_to_ipv6 name, rw (length-npub_to_ipv6 name) (unfold npub_to_ipv6 in refl))

  normalize-normalize :
      (name : Bytes) → is_ascii name ≡ true → normalize (normalize name) ≡ normalize name
  unfolding normalize
  normalize-normalize name h = normalize_idempotent name h

  -- An ASCII name and its normal form have one address.
  pub npub_to_ipv6-normalize :
      (name : Bytes) → is_ascii name ≡ true → npub_to_ipv6 (normalize name) ≡ npub_to_ipv6 name
  unfolding npub_to_ipv6
  npub_to_ipv6-normalize name h = rw (normalize-normalize name h)

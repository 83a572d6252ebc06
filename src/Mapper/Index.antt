-- ===== src/Mapper/Index.antt =====
-- The maps between names and addresses agree with `NpubToIPv6`, whatever calls were made.
use dnn_daemon.Common.{◌≡◌, sym, Bool, true, if◌then◌else◌, length, arith, List, Option, none, some}
use dnn_daemon.Common.Bytes.{Bytes, equal, equal→eq}
use dnn_daemon.Common.Table.{lookup, lookup-insert, lookup-insert_self}
use dnn_daemon.Runtime.{Runtime}
use dnn_daemon.Mapper.{
  Resolution, Cache, new_cache, is_dnn_address, normalize, npub_to_ipv6, register, lookup_by_ip,
  lookup_by_name, register_with_ip_and_subdomains, set_checked, set_cert_verified,
}
use dnn_daemon.Mapper.Address.{length-npub_to_ipv6, npub_to_ipv6-is_dnn_address}
use dnn_daemon.Mapper.Ops.{Op, add_name, add_resolution, add_verdict, apply, run, run_inv}

module _ ⦃r : Runtime⦄ where
  -- Each entry of either map belongs to the address that its name has.
  pub record IsIndexed (c : Cache) : Type 0 where
    pub by_ip :
        (key name : Bytes)
        → lookup key c.ip_to_name ≡ some name
        → key ≡ r.ip_string (npub_to_ipv6 name)
    pub by_name : (name ip : Bytes) → lookup name c.name_to_ip ≡ some ip → ip ≡ npub_to_ipv6 name

  register-IsIndexed : (c : Cache) (name : Bytes) → IsIndexed c → IsIndexed (register c name).0
  unfolding register
  register-IsIndexed c name i = record {
    by_ip = λ key found h. ground (
      arith,
      lookup-insert (r.ip_string (npub_to_ipv6 (normalize name))) key (normalize name) c.ip_to_name,
      equal→eq (r.ip_string (npub_to_ipv6 (normalize name))) key,
      i.by_ip key found,
    );
    by_name = λ found ip h. ground (
      arith,
      lookup-insert (normalize name) found (npub_to_ipv6 (normalize name)) c.name_to_ip,
      equal→eq (normalize name) found,
      i.by_name found ip,
    );
  }

  set_checked-IsIndexed :
      (c : Cache) (name : Bytes) (verified : Bool) (cert_error : Bytes) (o : Option Resolution)
      → IsIndexed c
      → IsIndexed (set_checked c name verified cert_error o)
  set_checked-IsIndexed c name verified cert_error none i = i
  set_checked-IsIndexed c name verified cert_error (some res) i = record {
    by_ip = i.by_ip;
    by_name = i.by_name;
  }

  apply-IsIndexed : (c : Cache) (op : Op) → IsIndexed c → IsIndexed (apply c op)
  unfolding apply register_with_ip_and_subdomains set_cert_verified
  apply-IsIndexed c (add_name name) i = register-IsIndexed c name i
  apply-IsIndexed c (add_resolution name ip port pem subdomains) i = record {
    by_ip = i.by_ip;
    by_name = i.by_name;
  }
  apply-IsIndexed c (add_verdict name verified cert_error) i =
      set_checked-IsIndexed c (normalize name) verified cert_error
        (lookup (normalize name) c.resolutions) i

  run-IsIndexed : (ops : List Op) → IsIndexed (run new_cache ops)
  unfolding lookup
  run-IsIndexed ops =
      run_inv IsIndexed apply-IsIndexed ops new_cache
        (record { by_ip = λ key name h. cc; by_name = λ name ip h. cc })

  -- After any calls on a new cache, the name that a sixteen-byte address leads to has that address.
  lookup_by_ip_sound :
      (ops : List Op) (ip name : Bytes)
      → length ip ≡ 16
      → lookup_by_ip (run new_cache ops) ip ≡ some name
      → npub_to_ipv6 name ≡ ip
  unfolding lookup_by_ip
  lookup_by_ip_sound ops ip name h k =
      r.ip_string-injective (npub_to_ipv6 name) ip (length-npub_to_ipv6 name) h
        (sym ((run-IsIndexed ops).by_ip (r.ip_string ip) name k))

  -- A registered name is found by its address and by any spelling with its normal form, and the
  -- address lies in fd00::/8; a name with another normal form keeps its address.
  pub lookup-register :
      (c : Cache) (name other : Bytes)
      → (lookup_by_ip (register c name).0 (register c name).1 ≡ some (normalize name))
        × (lookup_by_name (register c name).0 other ≡ (
            if equal (normalize name) (normalize other)
            then some (register c name).1
            else lookup_by_name c other))
        × (is_dnn_address (register c name).1 ≡ true)
  unfolding lookup_by_ip lookup_by_name register
  lookup-register c name other = (
    lookup-insert_self _ _ c.ip_to_name,
    lookup-insert (normalize name) (normalize other) _ c.name_to_ip,
    (npub_to_ipv6-is_dnn_address (normalize name)).1,
  )

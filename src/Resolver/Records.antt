-- ===== src/Resolver/Records.antt =====
-- Which records the addresses of `extractConnectionInfo` come from.
use dnn_daemon.Common.{
  ◌≡◌, ◌≢◌, refl, inl, inr, true, false, some, [], is_nil, arith, Bool-cases, is_nil→ne,
}
use dnn_daemon.Common.Bytes.{Bytes, codes, equal, equal→eq}
use dnn_daemon.Common.Int.{ℤ}
use dnn_daemon.Common.Table.{lookup, insert, lookup-insert}
use dnn_daemon.Runtime.{Runtime}
use dnn_daemon.Resolver.Json.{
  Json, null, bool, num, str, arr, obj, Items, nil, cons, Fields, get, as_array, as_number,
  string_or_empty,
}
use dnn_daemon.Resolver.Connection.{
  ConnectionInfo, record_ip, is_root, port_of, add_address, add_service, add_record, add_records,
  extract_connection_info,
}
use mathlib.Core.Path.{subst}

-- The object stands in the array.
pub data Among (rec : Fields) : Items → Type 0 where
  here : {items : Items} → Among rec (cons (obj rec) items)
  there : {item : Json} {items : Items} → Among rec items → Among rec (cons item items)

-- An A record of the name with the address, which is not empty.
pub record Declares (rec : Fields) (name ip : Bytes) : Type 0 where
  pub is_a : string_or_empty (get (codes "type") rec) ≡ codes "A"
  pub named : string_or_empty (get (codes "name") rec) ≡ name
  pub gives : record_ip rec ≡ ip
  pub nonempty : ip ≢ []

-- Each address of the result is that of an A record in the array: the root's, if it is not empty, of
-- a record for the root, and that of a subdomain of a record with its name.
pub record IsDeclared (items : Items) (info : ConnectionInfo) : Type 0 where
  pub root :
      info.ip ≢ []
      → (rec : Fields) × (name : Bytes) × Among rec items
        × (is_root name ≡ true)
        × Declares rec name info.ip
  pub subdomain :
      (name ip : Bytes)
      → lookup name info.subdomain_ips ≡ some ip
      → (rec : Fields) × Among rec items × (is_root name ≡ false) × Declares rec name ip

add_root :
    (items : Items) (info : ConnectionInfo) (rec : Fields) (name ip : Bytes)
    → Among rec items
    → is_root name ≡ true
    → Declares rec name ip
    → IsDeclared items info
    → IsDeclared items (record info { ip = ip })
add_root items info rec name ip m e d i = record {
  root = λ ne. (rec, name, m, e, d);
  subdomain = i.subdomain;
}

add_subdomain :
    (items : Items) (info : ConnectionInfo) (rec : Fields) (name ip : Bytes)
    → Among rec items
    → is_root name ≡ false
    → Declares rec name ip
    → IsDeclared items info
    → IsDeclared items (record info { subdomain_ips = insert name ip info.subdomain_ips })
add_subdomain items info rec name ip m e d i = record {
  root = i.root;
  subdomain = λ other at h. elim (Bool-cases (equal name other)) [
    | inl a ↦
        let same : name ≡ other = equal→eq name other a in
        let found : ip ≡ at = ground (arith, lookup-insert name other ip info.subdomain_ips) in
        subst (λ n. (rec' : Fields) × Among rec' items × (is_root n ≡ false) × Declares rec' n at)
          same
          (subst
            (λ x.
              (rec' : Fields) × Among rec' items × (is_root name ≡ false) × Declares rec' name x)
            found (rec, m, e, d))
    | inr a ↦ i.subdomain other at (ground (arith, lookup-insert name other ip info.subdomain_ips))
  ];
}

no_entry : {A : Type 0} {ip : Bytes} (name : Bytes) → lookup name [] ≡ some ip → A
unfolding lookup
no_entry name e = cc

module _ ⦃r : Runtime⦄ where
  add_address-IsDeclared :
      (items : Items) (info : ConnectionInfo) (rec : Fields)
      → Among rec items
      → string_or_empty (get (codes "type") rec) ≡ codes "A"
      → IsDeclared items info
      → IsDeclared items
          (add_address (string_or_empty (get (codes "name") rec)) (record_ip rec) info)
  unfolding add_address
  add_address-IsDeclared items info rec m k i = elim (Bool-cases (is_nil (record_ip rec))) [
    | inl a ↦ rw a i
    | inr a ↦
        let d : Declares rec (string_or_empty (get (codes "name") rec)) (record_ip rec) = record {
          is_a = k;
          named = refl;
          gives = refl;
          nonempty = is_nil→ne (record_ip rec) a;
        } in
        elim (Bool-cases (is_root (string_or_empty (get (codes "name") rec)))) [
          | inl b ↦ rw (a, b) (add_root items info rec _ (record_ip rec) m b d i)
          | inr b ↦ rw (a, b) (add_subdomain items info rec _ (record_ip rec) m b d i)
        ]
  ]

  add_service-IsDeclared :
      (items : Items) (info : ConnectionInfo) (name : Bytes) (port : ℤ)
      → IsDeclared items info
      → IsDeclared items (add_service name port info)
  unfolding add_service
  add_service-IsDeclared items info name port i =
      elim (Bool-cases (equal name (codes "_http._tcp"))) [
        | inl a ↦ rw a (record { root = i.root; subdomain = i.subdomain })
        | inr a ↦ elim (Bool-cases (equal name (codes "_https._tcp"))) [
          | inl b ↦ rw (a, b) (record { root = i.root; subdomain = i.subdomain })
          | inr b ↦ rw (a, b) i
        ]
      ]

  add_record-IsDeclared :
      (items : Items) (info : ConnectionInfo) (rec : Fields)
      → Among rec items
      → IsDeclared items info
      → IsDeclared items (add_record info (some rec))
  add_record-IsDeclared items info rec m i =
      elim (Bool-cases (equal (string_or_empty (get (codes "type") rec)) (codes "A"))) [
        | inl a ↦
            unfold add_record in
            rw a (
              add_address-IsDeclared items info rec m
                (equal→eq (string_or_empty (get (codes "type") rec)) (codes "A") a) i)
        | inr a ↦
            elim (Bool-cases (equal (string_or_empty (get (codes "type") rec)) (codes "SRV"))) [
              | inl b ↦
                  unfold add_record in
                  rw (a, b)
                    (add_service-IsDeclared items info (string_or_empty (get (codes "name") rec))
                      (port_of (as_number (get (codes "port") rec))) i)
              | inr b ↦ unfold add_record in rw (a, b) i
            ]
      ]

  add_records-IsDeclared :
      (all items : Items) (info : ConnectionInfo)
      → ((rec : Fields) → Among rec items → Among rec all)
      → IsDeclared all info
      → IsDeclared all (add_records info items)
  unfolding add_records add_record
  add_records-IsDeclared all nil info sub i = i
  add_records-IsDeclared all (cons (obj rec) items) info sub i =
      add_records-IsDeclared all items (add_record info (some rec)) (λ x m. sub x (there m))
        (add_record-IsDeclared all info rec (sub rec here) i)
  add_records-IsDeclared all (cons null items) info sub i =
      add_records-IsDeclared all items info (λ x m. sub x (there m)) i
  add_records-IsDeclared all (cons (bool _) items) info sub i =
      add_records-IsDeclared all items info (λ x m. sub x (there m)) i
  add_records-IsDeclared all (cons (num _) items) info sub i =
      add_records-IsDeclared all items info (λ x m. sub x (there m)) i
  add_records-IsDeclared all (cons (str _) items) info sub i =
      add_records-IsDeclared all items info (λ x m. sub x (there m)) i
  add_records-IsDeclared all (cons (arr _) items) info sub i =
      add_records-IsDeclared all items info (λ x m. sub x (there m)) i

  -- Where the connection has an array of records, each address taken from it is that of an A record
  -- in it: a root address that is not empty is that of a record for the root, and a subdomain's that
  -- of a record with its name; a subdomain is not named "@", and its address is not empty.
  pub extract_connection_info-IsDeclared :
      (conn : Fields) (items : Items)
      → as_array (get (codes "records") conn) ≡ some items
      → IsDeclared items (extract_connection_info conn)
  unfolding extract_connection_info
  extract_connection_info-IsDeclared conn items h = rw h (
      add_records-IsDeclared items items _ (λ x m. m)
        (record { root = λ ne. absurd (ne refl); subdomain = λ name ip e. no_entry name e }))

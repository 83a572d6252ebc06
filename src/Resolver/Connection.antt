-- ===== src/Resolver/Connection.antt =====
-- What `resolver.go` reads from a connection event: addresses, ports, transports and certificate.
use dnn_daemon.Common.{ℕ, Bool, ◌||◌, Option, none, some, List, [], if◌then◌else◌, is_nil}
use dnn_daemon.Common.Bytes.{Bytes, codes, equal}
use dnn_daemon.Common.Int.{ℤ, pos}
use dnn_daemon.Common.Table.{Table, insert}
use dnn_daemon.Runtime.{Runtime}
use dnn_daemon.Resolver.Json.{
  Json, str, Items, nil, cons, Fields, get, as_array, as_object, as_number, string_or_empty,
  strings,
}

pub record CertInfo : Type 0 where
  pub pem : Bytes
  pub signature : Bytes
  pub expires : ℤ

pub record Transports : Type 0 where
  pub relay : List Bytes
  pub tollgate : Bytes

pub record TransportInfo : Type 0 where
  pub transports : Transports
  pub ipv6 : Bytes
  pub npubs : List Bytes

-- The results of `extractConnectionInfo`.
pub record ConnectionInfo : Type 0 where
  pub ip : Bytes
  pub http_port : ℤ
  pub https_port : ℤ
  pub subdomain_ips : Table Bytes

abbrev first_string : Option Json → Option Items → Bytes
first_string value (some (cons (str s) _)) = s
first_string value (some (cons _ _)) = []
first_string value _ = string_or_empty value

-- The address of an A record: the first of "values", if there are any, else "value".
unfoldable pub record_ip : Fields → Bytes
unfolding get
record_ip rec = first_string (get (codes "value") rec) (as_array (get (codes "values") rec))

abbrev pub is_root : Bytes → Bool
is_root name = equal name (codes "@") || is_nil name

unfoldable pub add_address : Bytes → Bytes → ConnectionInfo → ConnectionInfo
add_address name ip info =
    if is_nil ip
    then info
    else if is_root name
    then record info { ip = ip }
    else record info { subdomain_ips = insert name ip info.subdomain_ips }

module _ ⦃r : Runtime⦄ where
  -- `port, _ := record["port"].(float64)`, converted
  abbrev pub port_of : Option ℕ → ℤ
  port_of none = pos 0
  port_of (some bits) = r.int_of_float bits

  unfoldable pub add_service : Bytes → ℤ → ConnectionInfo → ConnectionInfo
  add_service name port info =
      if equal name (codes "_http._tcp")
      then record info { http_port = port }
      else if equal name (codes "_https._tcp")
      then record info { https_port = port }
      else info

  -- One round of the loop over the records.
  unfoldable pub add_record : ConnectionInfo → Option Fields → ConnectionInfo
  unfolding add_address add_service record_ip
  add_record info none = info
  add_record info (some rec) =
      let kind = string_or_empty (get (codes "type") rec) in
      let name = string_or_empty (get (codes "name") rec) in
      if equal kind (codes "A")
      then add_address name (record_ip rec) info
      else if equal kind (codes "SRV")
      then add_service name (port_of (as_number (get (codes "port") rec))) info
      else info

  unfoldable pub add_records : ConnectionInfo → Items → ConnectionInfo
  add_records info nil = info
  add_records info (cons item items) = add_records (add_record info (as_object (some item))) items

  abbrev info_of : Option Items → ConnectionInfo
  info_of none = record { ip = []; http_port = pos 0; https_port = pos 0; subdomain_ips = [] }
  info_of (some items) =
      add_records (record { ip = []; http_port = pos 80; https_port = pos 443; subdomain_ips = [] })
        items

  unfoldable pub extract_connection_info : Fields → ConnectionInfo
  extract_connection_info conn = info_of (as_array (get (codes "records") conn))

  abbrev expires_of : Option ℕ → ℤ
  expires_of none = pos 0
  expires_of (some bits) = r.int_of_float bits

  -- `none` is the nil pointer.
  unfoldable pub parse_cert_data : Fields → Option CertInfo
  parse_cert_data fields =
      let pem = string_or_empty (get (codes "pem") fields) in
      if is_nil pem
      then none
      else some (record {
        pem = pem;
        signature = string_or_empty (get (codes "cert_signature") fields);
        expires = expires_of (as_number (get (codes "expires") fields));
      })

  abbrev cert_of : Option Fields → Option CertInfo
  cert_of none = none
  cert_of (some fields) = parse_cert_data fields

  unfoldable pub extract_cert : Fields → Option CertInfo
  extract_cert conn = cert_of (as_object (get (codes "cert") conn))

abbrev strings_of : Option Items → List Bytes
strings_of none = []
strings_of (some items) = strings items

abbrev transports_of : Option Fields → Transports
transports_of none = record { relay = []; tollgate = [] }
transports_of (some fields) = record {
  relay = strings_of (as_array (get (codes "relay") fields));
  tollgate = string_or_empty (get (codes "tollgate") fields);
}

unfoldable pub extract_transport_info : Fields → TransportInfo
extract_transport_info conn = record {
  transports = transports_of (as_object (get (codes "transports") conn));
  ipv6 = string_or_empty (get (codes "interception_ipv6") conn);
  npubs = strings_of (as_array (get (codes "npub") conn));
}

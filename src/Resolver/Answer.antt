-- ===== src/Resolver/Answer.antt =====
-- internal/resolver/resolver.go: the answer of one node. The HTTP client and Go's JSON decoder are
-- parameters.
use dnn_daemon.Common.{
  ℕ, Bool, true, false, not, ◌||◌, Option, none, some, List, [], ◌++◌, ◌==◌, if◌then◌else◌, is_nil,
}
use dnn_daemon.Common.Bytes.{Bytes, codes, equal}
use dnn_daemon.Common.Int.{ℤ}
use dnn_daemon.Common.Table.{Table}
use dnn_daemon.Resolver.Json.{Fields}
use dnn_daemon.Resolver.Connection.{
  CertInfo, Transports, ConnectionInfo, TransportInfo, extract_connection_info,
  extract_transport_info, extract_cert,
}
use dnn_daemon.Runtime.{Runtime}

pub record Event : Type 0 where
  pub id : Bytes
  pub pub_key : Bytes
  pub sig : Bytes
  pub created_at : ℤ
  pub kind : ℤ
  pub content : Bytes
  pub tags : List (List Bytes)

pub record Resolution : Type 0 where
  pub pubkey : Bytes
  pub name : Bytes
  pub ip : Bytes
  pub port : ℤ
  pub http_port : ℤ
  pub cert : Option CertInfo
  pub connection : Fields
  pub resolved_at : ℕ
  pub subdomain_ips : Table Bytes
  pub transports : Transports
  pub interception_ipv6 : Bytes
  pub npubs : List Bytes

unfoldable pub has_transports : Resolution → Bool
has_transports res =
    not (is_nil res.transports.relay) || equal res.transports.tollgate (codes "use")

pub data NodeError : Type 0 where
  request_failed not_found bad_json : NodeError
  bad_status : ℕ → NodeError

-- `resolveResult`
pub record ResolveResult : Type 0 where
  pub resolution : Option Resolution
  pub conn_event : Option Event
  pub domain_found : Bool
  pub node_url : Bytes
  pub err : Option NodeError

-- The slot of a node that has not answered when the time is up.
abbrev pub no_answer : ResolveResult
no_answer = record {
  resolution = none;
  conn_event = none;
  domain_found = false;
  node_url = [];
  err = none;
}

-- The decoded body of a node's answer.
pub record RawResponse : Type 0 where
  pub pubkey : Bytes
  pub name : Bytes
  pub connection : Fields
  pub domain_found : Option Bool
  pub connection_event_raw : Option Event

module _ ⦃r : Runtime⦄ where
  abbrev resolution_of : ℕ → RawResponse → ConnectionInfo → TransportInfo → Resolution
  resolution_of now raw info transport = record {
    pubkey = raw.pubkey;
    name = raw.name;
    ip = info.ip;
    port = info.https_port;
    http_port = info.http_port;
    cert = extract_cert raw.connection;
    connection = raw.connection;
    resolved_at = now;
    subdomain_ips = info.subdomain_ips;
    transports = transport.transports;
    interception_ipv6 = transport.ipv6;
    npubs = transport.npubs;
  }

  abbrev failed : Bytes → NodeError → ResolveResult
  failed node_url e = record {
    resolution = none;
    conn_event = none;
    domain_found = false;
    node_url = node_url;
    err = some e;
  }

  abbrev answered : ℕ → Bytes → Option RawResponse → ResolveResult
  answered now node_url none = failed node_url bad_json
  answered now node_url (some raw) = record {
    resolution = some (
        resolution_of now raw (extract_connection_info raw.connection)
          (extract_transport_info raw.connection));
    conn_event = raw.connection_event_raw;
    domain_found = elim raw.domain_found [ none ↦ true | some found ↦ found ];
    node_url = node_url;
    err = none;
  }

  abbrev of_response : (Bytes → Option RawResponse) → ℕ → Bytes → Option (ℕ × Bytes) → ResolveResult
  of_response decode now node_url none = failed node_url request_failed
  of_response decode now node_url (some (status, body)) =
      if status == 404
      then failed node_url not_found
      else if not (status == 200)
      then failed node_url (bad_status status)
      else answered now node_url (decode body)

  -- `get` is the HTTP client, with `none` for an error.
  unfoldable pub resolve_from_node :
      (Bytes → Option (ℕ × Bytes))
      → (Bytes → Option RawResponse)
      → ℕ
      → Bytes
      → Bytes
      → ResolveResult
  resolve_from_node get decode now node_url dnn_name =
      of_response decode now node_url (get (node_url ++ (codes "/dnn/resolve/" ++ dnn_name)))

-- ===== src/HttpsProxy.antt =====
-- internal/httpsproxy/proxy.go: where a connection is sent, its verification, and the pool of
-- connections. TLS, the resolver and `fmt.Sprintf` of an address are parameters. The copying of
-- bytes is not modelled.
pub mod Listeners
pub mod Header
pub mod Verdicts
use dnn_daemon.Common.{
  ℕ, ◌+◌, Bool, true, false, not, ◌&&◌, Option, none, some, List, [], ◌∷◌, ◌++◌, ltb, leb,
  if◌then◌else◌, is_nil,
}
use dnn_daemon.Common.Bytes.{Bytes, codes, equal}
use dnn_daemon.Common.Int.{ℤ, pos, is_literal}
use dnn_daemon.Common.Outcome.{Outcome, done, panic, ◌>>=◌}
use dnn_daemon.Common.Table.{Table, lookup, insert, remove}
use dnn_daemon.Runtime.{Runtime}
use dnn_daemon.Text.{to_lower, split}
use dnn_daemon.Detector.{get_tld}
use dnn_daemon.Mapper.{Resolution, Cache, fresh_resolution, get_resolution, set_cert_verified}
use dnn_daemon.CertVerify.{
  Certificate, Failure, no_declared_cert, cert_mismatch, no_server_cert, Verification, verify_cert,
}
use dnn_daemon.Resolver.Answer as Answer
use dnn_daemon.Dns.{pem_of, https_port}

-- An upstream TLS connection, by the leaf certificate of the server, as PEM, if it sent one.
pub record Conn : Type 0 where
  pub id : ℕ
  pub leaf : Option Bytes

abbrev pub Pool : Type 0
Pool = Table Conn

-- `err.Error()` of the errors of `VerifyCert`
abbrev failure_text : Option Failure → Bytes
failure_text none = []
failure_text (some no_declared_cert) = codes "no certificate declared in DNN connection event"
failure_text (some cert_mismatch) = codes "server certificate does not match declared certificate"
failure_text (some no_server_cert) =
    codes "invalid certificate format: no server certificate provided"

-- The loop over the parts of the server name: the subdomain and the parent name, both empty if it ends
-- without a match. `first` is `parts[0]` and `prev` is `parts[i-1]`.
unfoldable pub locate : ℕ → Bytes → Bytes → Bytes → Bytes → List Bytes → Bytes × Bytes
unfolding equal
locate i first prev tld server_name [] = ([], [])
locate i first prev tld server_name (part ∷ parts) =
    let rest = locate (i + 1) first part tld server_name parts in
    if equal part tld && ltb 0 i
    then (if leb 2 i then (first, prev ++ (b'.' ∷ tld)) else ([], server_name))
    else rest

abbrev pub first_part : List Bytes → Bytes
first_part [] = []
first_part (part ∷ parts) = part

abbrev or_whole : Bytes → Bytes × Bytes → Bytes × Bytes
or_whole server_name (subdomain, parent) =
    (subdomain, (if is_nil parent then server_name else parent))

-- How the handling of a connection ends.
pub data Session : Type 0 where
  no_sni not_resolved not_connected no_certificate : Session
  -- the bytes are copied to this connection, which is closed then
  proxied : Conn → Session

module _ ⦃r : Runtime⦄ where
  -- The subdomain and the parent name.
  unfoldable pub names_of : Bytes → Bytes × Bytes
  names_of server_name =
      let parts = split (to_lower server_name) b'.' in
      or_whole server_name (locate 0 (first_part parts) [] (get_tld server_name) server_name parts)

  abbrev subdomain_ip : Bytes → Bytes → Option (Table Bytes) → Bytes
  subdomain_ip ip subdomain none = ip
  subdomain_ip ip subdomain (some ips) = elim (lookup subdomain ips) [
    | none ↦ ip
    | some sub_ip ↦ sub_ip
  ]

  unfoldable pub target_ip : Bytes → Resolution → Bytes
  target_ip subdomain res =
      if not (is_nil subdomain) then subdomain_ip res.ip subdomain res.subdomain_ips else res.ip

  -- The resolution made where the cache has none, which is not stored.
  abbrev pub resolved_now : Answer.Resolution → Resolution
  resolved_now res = fresh_resolution res.ip (pos 443) (pem_of res.cert) (some res.subdomain_ips)

  abbrev pub store_verdict : Cache → Bytes → Verification → Cache
  store_verdict c parent_name v =
      if not v.valid
      then set_cert_verified c parent_name false (failure_text v.error)
      else set_cert_verified c parent_name true []

  module _ (resolve : Bytes → Outcome (Option Answer.Resolution)) (usable : Conn → Bool)
      (address : Bytes → ℤ → Bytes) (dial : Bytes → Bytes → Option Conn)
      (parse : Bytes → Option Certificate) where
    abbrev pub dialled : Pool → Option Conn → Pool × Option (Conn × Bool)
    dialled pool none = (pool, none)
    dialled pool (some conn) = (pool, some (conn, false))

    abbrev pub pooled_or_dialled : Pool → Bytes → Bytes → Option Conn → Pool × Option (Conn × Bool)
    pooled_or_dialled pool addr server_name none = dialled pool (dial addr server_name)
    pooled_or_dialled pool addr server_name (some conn) =
        if usable conn
        then (remove addr pool, some (conn, true))
        else dialled (remove addr pool) (dial addr server_name)

    -- The pool afterwards, and the connection with the word whether it comes from the pool.
    unfoldable pub get_pooled_conn : Pool → Bytes → Bytes → Pool × Option (Conn × Bool)
    get_pooled_conn pool addr server_name =
        pooled_or_dialled pool addr server_name (lookup addr pool)

    -- Nothing calls `returnPooledConn`.
    unfoldable pub return_pooled_conn : Pool → Bytes → Conn → Pool
    return_pooled_conn pool addr conn = insert addr conn pool

    -- The check of a new connection, and the end.
    abbrev pub checked_leaf : Cache → Bytes → Bytes → Bytes → Conn → Option Bytes → Cache × Session
    checked_leaf c server_name parent_name declared_pem conn none = (c, no_certificate)
    checked_leaf c server_name parent_name declared_pem conn (some leaf) = (
      store_verdict c parent_name (verify_cert parse declared_pem leaf server_name),
      proxied conn,
    )

    abbrev pub after_connect :
        Cache → Bytes → Bytes → Bytes → Pool × Option (Conn × Bool) → Cache × Pool × Session
    after_connect c server_name parent_name declared_pem (pool, none) = (c, pool, not_connected)
    after_connect c server_name parent_name declared_pem (pool, some (conn, true)) =
        (c, pool, proxied conn)
    after_connect c server_name parent_name declared_pem (pool, some (conn, false)) =
        let (c', session) = checked_leaf c server_name parent_name declared_pem conn conn.leaf in
        (c', pool, session)

    abbrev pub connect_with :
        Cache → Pool → Bytes → Bytes → Bytes → Resolution → Cache × Pool × Session
    connect_with c pool server_name subdomain parent_name res =
        after_connect c server_name parent_name res.declared_cert_pem (
          get_pooled_conn pool (address (target_ip subdomain res) (https_port res.port))
            server_name)

    abbrev pub connect_resolved :
        Cache → Pool → Bytes → Bytes → Bytes → Option Answer.Resolution → Cache × Pool × Session
    connect_resolved c pool server_name subdomain parent_name none = (c, pool, not_resolved)
    connect_resolved c pool server_name subdomain parent_name (some res) =
        connect_with c pool server_name subdomain parent_name (resolved_now res)

    abbrev pub connect_cached :
        Cache → Pool → Bytes → Bytes → Bytes → Option Resolution → Outcome (Cache × Pool × Session)
    connect_cached c pool server_name subdomain parent_name (some res) =
        done (connect_with c pool server_name subdomain parent_name res)
    connect_cached c pool server_name subdomain parent_name none = do
      found ← resolve parent_name
      done (connect_resolved c pool server_name subdomain parent_name found)

    -- `handleHTTPS` after a good handshake with the client, by the server name it gave.
    unfoldable pub handle_https : Cache → Pool → Bytes → Outcome (Cache × Pool × Session)
    handle_https c pool server_name =
        if is_nil server_name
        then done (c, pool, no_sni)
        else connect_cached c pool server_name (names_of server_name).0 (names_of server_name).1
            (get_resolution c (names_of server_name).1)

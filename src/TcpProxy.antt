-- ===== src/TcpProxy.antt =====
-- internal/proxy/tcp.go: where a connection to a DNN address is sent, with the proxy's own cache of
-- resolutions. The resolver and the clock are arguments. The sockets and the copying are not modelled;
-- the check of the certificate is in Verify.
pub mod Lifetime
pub mod Verify
use dnn_daemon.Common.Outcome.{Outcome, done, panic, ◌>>=◌}
use dnn_daemon.Common.{
  ℕ, ◌+◌, Bool, true, false, ◌||◌, Option, none, some, List, [], ltb, if◌then◌else◌,
}
use dnn_daemon.Common.Bytes.{Bytes}
use dnn_daemon.Common.Int.{ℤ, pos, is_literal, equal_int}
use dnn_daemon.Common.Table.{Table, lookup, insert}
use dnn_daemon.Runtime.{Runtime}
use dnn_daemon.Mapper.{Cache, lookup_by_ip}
use dnn_daemon.Resolver.Answer.{Resolution}

pub record Proxy : Type 0 where
  pub res_cache : Table Resolution
  pub res_cache_ttl : ℕ

abbrev pub new_proxy : ℕ → Proxy
new_proxy ttl = record { res_cache = []; res_cache_ttl = ttl }

-- Where the connection goes, or why it is closed.
pub data Target : Type 0 where
  plain tls : Bytes → ℤ → Target
  no_mapping not_resolved : Target

-- What is cached, if `time.Since(cached.ResolvedAt) < p.resCacheTTL`.
abbrev pub unexpired : ℕ → ℕ → Option Resolution → Option Resolution
unexpired now ttl none = none
unexpired now ttl (some res) = if ltb now (res.resolved_at + ttl) then some res else none

abbrev pub store : Proxy → Bytes → Option Resolution → Proxy × Option Resolution
store p name none = (p, none)
store p name (some res) = (record p { res_cache = insert name res p.res_cache }, some res)

abbrev pub cached_or_resolved :
    Proxy
    → Bytes
    → Outcome (Option Resolution)
    → Option Resolution
    → Outcome (Proxy × Option Resolution)
cached_or_resolved p name resolved (some res) = done (p, some res)
cached_or_resolved p name resolved none = do found ← resolved; done (store p name found)

unfoldable pub get_resolution :
    (Bytes → Outcome (Option Resolution)) → ℕ → Proxy → Bytes → Outcome (Proxy × Option Resolution)
get_resolution resolve now p dnn_name =
    cached_or_resolved p dnn_name (resolve dnn_name)
      (unexpired now p.res_cache_ttl (lookup dnn_name p.res_cache))

abbrev pub target_at : ℤ → Option Resolution → Target
target_at dst_port none = not_resolved
target_at dst_port (some res) =
    if is_literal dst_port 80 || equal_int dst_port res.http_port
    then plain res.ip res.http_port
    else tls res.ip res.port

abbrev pub connect_to : ℤ → Outcome (Proxy × Option Resolution) → Outcome (Proxy × Target)
connect_to dst_port outcome = do (p, found) ← outcome; done (p, target_at dst_port found)

module _ ⦃r : Runtime⦄ where
  unfoldable pub handle_connection :
      (Bytes → Outcome (Option Resolution))
      → ℕ
      → Cache
      → Proxy
      → Bytes
      → ℤ
      → Outcome (Proxy × Target)
  handle_connection resolve now c p dst_ip dst_port = elim (lookup_by_ip c dst_ip) [
    | none ↦ done (p, no_mapping)
    | some dnn_name ↦ connect_to dst_port (get_resolution resolve now p dnn_name)
  ]

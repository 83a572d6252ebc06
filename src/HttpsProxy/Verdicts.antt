-- ===== src/HttpsProxy/Verdicts.antt =====
-- What the handling of a connection writes into the cache.
use dnn_daemon.Common.{◌≡◌, Bool, Option, none, some, []}
use dnn_daemon.Common.Bytes.{Bytes}
use dnn_daemon.Common.Int.{ℤ}
use dnn_daemon.Common.Outcome.{Outcome, done}
use dnn_daemon.Runtime.{Runtime}
use dnn_daemon.Mapper.{Resolution, Cache, get_resolution, has_declared_cert}
use dnn_daemon.CertVerify.{Certificate, verify_cert}
use dnn_daemon.Resolver.Answer as Answer
use dnn_daemon.HttpsProxy.{Conn, Pool, names_of, store_verdict}

module _ ⦃r : Runtime⦄ (resolve : Bytes → Outcome (Option Answer.Resolution)) (usable : Conn → Bool)
    (address : Bytes → ℤ → Bytes) (dial : Bytes → Bytes → Option Conn)
    (parse : Bytes → Option Certificate) where
  -- What is known of a connection that is proxied: the server showed a certificate, nothing is pooled,
  -- and the cache trusts the parent name exactly when that certificate agrees with the declared one; but
  -- where the cache had no resolution for it, the node gave one, and nothing is written.
  pub record IsRecorded (server_name : Bytes) (c c' : Cache) (pool' : Pool) (conn : Conn)
      : Type 0 where
    pub leaf : Bytes
    pub shown : conn.leaf ≡ some leaf
    pub unpooled : pool' ≡ []
    pub trust :
        (res : Resolution)
        → get_resolution c (names_of server_name).1 ≡ some res
        → has_declared_cert c' (names_of server_name).1
          ≡ (verify_cert parse res.declared_cert_pem leaf server_name).valid
    pub lost :
        get_resolution c (names_of server_name).1 ≡ none
        → (c' ≡ c)
          × ((res : Answer.Resolution) × (resolve (names_of server_name).1 ≡ done (some res)))

  -- The connection was new, and its certificate was checked against this declared one.
  record Checked (server_name parent declared : Bytes) (c c' : Cache) (pool' : Pool) (conn : Conn)
      : Type 0 where
    leaf : Bytes
    shown : conn.leaf ≡ some leaf
    unpooled : pool' ≡ []
    stored : store_verdict c parent (verify_cert parse declared leaf server_name) ≡ c'

-- ===== src/HttpsProxy/Listeners.antt =====
-- internal/httpsproxy/proxy.go: Start, Stop and acceptLoop, over which of the addresses can be listened on. The
-- connections that are handled, for which Stop waits, are in HttpsProxy.
use dnn_daemon.Common.{◌≡◌, Bool, true, false, not, ◌||◌, [], if◌then◌else◌, arith}
use dnn_daemon.Common.Outcome.{Outcome, done, panic}
use dnn_daemon.HttpsProxy.{Pool}

pub record Listeners : Type 0 where
  pub https : Bool
  pub http : Bool
  pub ipv6 : Bool
  pub pool : Pool
  -- whether the stop channel is closed
  pub is_stopped : Bool

-- Which of the addresses can be listened on.
pub record Ports : Type 0 where
  pub https_free : Bool
  pub http_free : Bool
  pub ipv6_free : Bool

-- The state and whether Start succeeds: the listener for IPv6 may fail.
unfoldable pub start : Ports → Listeners → Listeners × Bool
start p l =
    if not p.https_free
    then (l, false)
    else if not p.http_free
    then (record l { https = true }, false)
    else (record l { https = true; http = true; ipv6 = p.ipv6_free || l.ipv6 }, true)

-- Closing a channel that is closed panics.
unfoldable pub stop : Listeners → Outcome Listeners
stop l =
    if l.is_stopped
    then panic
    else done (record { https = false; http = false; ipv6 = false; pool = []; is_stopped = true })

-- What Accept gives.
pub data Accepted : Type 0 where
  connection failure : Accepted

-- One turn of the loop over a listener: it handles a connection, goes on after an error, or returns.
pub data Turn : Type 0 where
  handles_https handles_http goes_on returns : Turn

unfoldable pub accept_turn : Listeners → Bool → Accepted → Turn
accept_turn l is_https connection = if is_https then handles_https else handles_http
accept_turn l is_https failure = if l.is_stopped then returns else goes_on

abbrev is_open : Listeners → Bool
is_open l = l.https || l.http || l.ipv6

-- After Stop nothing listens, whatever Start did before, and a loop whose Accept fails then returns; a second
-- Stop panics.
stop-start :
    (p : Ports) (l t : Listeners) (is_https : Bool)
    → stop (start p l).0 ≡ done t
    → (is_open t ≡ false) × (accept_turn t is_https failure ≡ returns) × (stop t ≡ panic)
unfolding start stop accept_turn
stop-start p l t is_https h = (ground (arith, h), ground (arith, h), ground (arith, h))

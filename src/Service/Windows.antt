-- ===== src/Service/Windows.antt =====
-- internal/service/windows.go: Execute, as what it starts, reports and stops, by which steps succeed and the
-- requests of the service manager.
use dnn_daemon.Common.{
  ◌≡◌, refl, Bool, true, false, not, ◌&&◌, ◌||◌, List, [], ◌∷◌, if◌then◌else◌, arith,
}

-- The parts that run beside the service itself.
pub data Part : Type 0 where
  peer_discovery node_updates dns_capture https_proxy : Part

pub data State : Type 0 where
  start_pending running stop_pending current_status : State

pub data Effect : Type 0 where
  start stop : Part → Effect
  report : State → Effect

pub data Request : Type 0 where
  interrogate stop_request shutdown unexpected : Request

pub record Steps : Type 0 where
  pub makes_capture : Bool
  pub starts_capture : Bool
  pub loads_ca : Bool

-- The loop over the requests, with what follows it.
unfoldable pub serve : List Request → List Effect → List Effect
serve [] rest = rest
serve (interrogate ∷ requests) rest = report current_status ∷ serve requests rest
serve (stop_request ∷ requests) rest = rest
serve (shutdown ∷ requests) rest = rest
serve (unexpected ∷ requests) rest = serve requests rest

-- The proxy is stopped when it was made, also when its start failed.
abbrev stop_all : Steps → List Effect
stop_all s =
    report stop_pending
    ∷ stop node_updates
    ∷ stop peer_discovery
    ∷ stop dns_capture
    ∷ (if s.loads_ca then stop https_proxy ∷ [] else [])

abbrev serving : Steps → List Request → List Effect
serving s requests = report running ∷ serve requests (stop_all s)

abbrev with_capture : Steps → List Request → List Effect
with_capture s requests =
    if not s.makes_capture
    then report stop_pending ∷ []
    else if not s.starts_capture
    then report stop_pending ∷ []
    else start dns_capture
      ∷ (if s.loads_ca then start https_proxy ∷ serving s requests else serving s requests)

unfoldable pub execute : Steps → List Request → List Effect
unfolding serve
execute s requests =
    report start_pending ∷ start peer_discovery ∷ start node_updates ∷ with_capture s requests

abbrev same : Part → Part → Bool
same peer_discovery peer_discovery = true
same node_updates node_updates = true
same dns_capture dns_capture = true
same https_proxy https_proxy = true
same _ _ = false

-- Whether a part runs after these effects, by whether it did before.
unfoldable pub runs : Part → Bool → List Effect → Bool
runs p before [] = before
runs p before (start q ∷ effects) = runs p (same p q || before) effects
runs p before (stop q ∷ effects) = runs p (not (same p q) && before) effects
runs p before (report s ∷ effects) = runs p before effects

abbrev is_early : Part → Bool
is_early peer_discovery = true
is_early node_updates = true
is_early _ = false

runs-serve :
    (p : Part) (before : Bool) (requests : List Request) (rest : List Effect)
    → runs p before (serve requests rest) ≡ runs p before rest
unfolding runs serve
runs-serve p before [] rest = refl
runs-serve p before (interrogate ∷ requests) rest = runs-serve p before requests rest
runs-serve p before (stop_request ∷ requests) rest = refl
runs-serve p before (shutdown ∷ requests) rest = refl
runs-serve p before (unexpected ∷ requests) rest = runs-serve p before requests rest

runs-serving :
    (p : Part) (before : Bool) (s : Steps) (requests : List Request)
    → runs p before (serving s requests) ≡ runs p before (stop_all s)
unfolding runs
runs-serving p before s requests = runs-serve p before requests (stop_all s)

-- When the service ends, on whatever requests, a part still runs exactly when it is the discovery of peers
-- or the update of the nodes and the capture of DNS could not be made or started.
pub runs-execute :
    (p : Part) (s : Steps) (requests : List Request)
    → runs p false (execute s requests) ≡ (is_early p && not (s.makes_capture && s.starts_capture))
unfolding runs execute
runs-execute peer_discovery s requests = ground (
  arith,
  runs-serving peer_discovery true s requests,
  runs-serving peer_discovery false s requests,
)
runs-execute node_updates s requests =
    ground
      (arith, runs-serving node_updates true s requests, runs-serving node_updates false s requests)
runs-execute dns_capture s requests =
    ground
      (arith, runs-serving dns_capture true s requests, runs-serving dns_capture false s requests)
runs-execute https_proxy s requests =
    ground
      (arith, runs-serving https_proxy true s requests, runs-serving https_proxy false s requests)

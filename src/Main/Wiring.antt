-- ===== src/Main/Wiring.antt =====
-- cmd/dnn-daemon/main.go: runForeground as far as it connects the parts: the peers that are found become the
-- nodes of the resolver. A refresh of the pool and a tick of five minutes come in any order.
use dnn_daemon.Common.{
  append-nil, inr, sym, ap, ◌∙◌, ◌⊎◌, ◌≤◌, ◌<◌, length, arith, ◌++◌, ◌≡◌, refl, false, Option, none,
  some, List, [], ◌∷◌,
}
use dnn_daemon.Common.Bytes.{Bytes}
use dnn_daemon.Runtime.{Runtime}
use dnn_daemon.Config.{Config, default_config}
use dnn_daemon.PeerDiscovery.{
  Network, Discovery, get_nodes, refresh_pool, is_seed_node, max_pool_size,
}
use mathlib.Core.Path.{subst}
use dnn_daemon.Resolver.Sets.{update_nodes_bounds}
use dnn_daemon.PeerDiscovery.Pool.{refresh_pool-IsHealthy, Every, reject_none}
use dnn_daemon.Resolver.{Resolver, update_nodes}

pub record Daemon : Type 0 where
  pub discovery : Discovery
  pub resolver : Resolver

-- `cfg, err := config.Load(cfgPath)`
abbrev or_default : Option Config → Config
or_default none = default_config
or_default (some cfg) = cfg

-- `resolver.New`
unfoldable pub new_resolver : List Bytes → Resolver
new_resolver nodes = record { nodes = nodes; current_node = 0 }

-- `peerdiscovery.New`
unfoldable pub new_discovery : List Bytes → Discovery
new_discovery seed_nodes = record { seed_nodes = seed_nodes; pool = []; seen = [] }

-- The parts as they are made, by what is loaded.
unfoldable pub start : Option Config → Daemon
unfolding new_resolver new_discovery
start loaded =
    let cfg = or_default loaded in
    record { discovery = new_discovery cfg.nodes; resolver = new_resolver cfg.nodes }

pub data Event : Type 0 where
  -- with what the network answers during the refresh
  refresh : Network → Event
  tick : Event

module _ ⦃r : Runtime⦄ where
  unfoldable pub step : Daemon → Event → Daemon
  unfolding refresh_pool get_nodes update_nodes
  step d (refresh net) = record d { discovery = refresh_pool net d.discovery }
  step d tick = record d { resolver = update_nodes d.resolver (get_nodes d.discovery) }

  unfoldable pub run : Daemon → List Event → Daemon
  unfolding step
  run d [] = d
  run d (e ∷ events) = run (step d e) events

  -- Nodes that were discovered: at most 21, and none of them a configured one.
  abbrev AreFound : List Bytes → List Bytes → Type 0
  AreFound nodes found =
      (length found ≤ max_pool_size) × Every (λ node. is_seed_node nodes node ≡ false) found

  pub record IsWired (nodes : List Bytes) (d : Daemon) : Type 0 where
    pub seeds : d.discovery.seed_nodes ≡ nodes
    pub pooled : AreFound nodes d.discovery.pool
    pub found : List Bytes
    pub discovered : AreFound nodes found
    pub resolves : d.resolver.nodes ≡ nodes ++ found
    pub current :
        (d.resolver.current_node < length d.resolver.nodes) ⊎ (d.resolver.current_node ≡ 0)

  start-IsWired : (loaded : Option Config) → IsWired (or_default loaded).nodes (start loaded)
  unfolding start new_resolver new_discovery
  start-IsWired loaded = record {
    seeds = refl;
    pooled = (omega arith, tt);
    found = [];
    discovered = (omega arith, tt);
    resolves = sym (append-nil (or_default loaded).nodes);
    current = inr refl;
  }

  refreshed : (net : Network) (d : Discovery) → (refresh_pool net d).seed_nodes ≡ d.seed_nodes
  unfolding refresh_pool
  refreshed net d = refl

  handed :
      (nodes : List Bytes) (d : Discovery)
      → d.seed_nodes ≡ nodes
      → Every (λ node. is_seed_node nodes node ≡ false) d.pool
      → get_nodes d ≡ nodes ++ d.pool
  unfolding get_nodes
  handed nodes d e h = rw e (ap (◌++◌ nodes) (reject_none (is_seed_node nodes) d.pool h))

  step-IsWired :
      (nodes : List Bytes) (d : Daemon) (e : Event) → IsWired nodes d → IsWired nodes (step d e)
  unfolding step
  step-IsWired nodes d (refresh net) w =
      let healthy = refresh_pool-IsHealthy net d.discovery in
      record {
        seeds = refreshed net d.discovery ∙ w.seeds;
        pooled =
            subst (λ (ns : List Bytes). AreFound ns (refresh_pool net d.discovery).pool) w.seeds
              (healthy.bounded, healthy.no_seed);
        found = w.found;
        discovered = w.discovered;
        resolves = w.resolves;
        current = w.current;
      }
  step-IsWired nodes d tick w =
      let all = get_nodes d.discovery in
      let (same, bounds) = update_nodes_bounds d.resolver all in
      record {
        seeds = w.seeds;
        pooled = w.pooled;
        found = d.discovery.pool;
        discovered = w.pooled;
        resolves = same ∙ handed nodes d.discovery w.seeds w.pooled.1;
        current = rw same bounds;
      }

  run-IsWired :
      (nodes : List Bytes) (d : Daemon) (events : List Event)
      → IsWired nodes d
      → IsWired nodes (run d events)
  unfolding run
  run-IsWired nodes d [] w = w
  run-IsWired nodes d (e ∷ events) w =
      run-IsWired nodes (step d e) events (step-IsWired nodes d e w)

  -- Whatever is loaded, and whatever the network answers in however many refreshes and ticks, the nodes of
  -- the resolver are the configured ones, or the default ones when no configuration is loaded, in their
  -- order, and after them at most 21 others, none of them a configured one; its current node is within its
  -- list or is the first; and the discovery keeps the same seeds and such a pool.
  pub run-start :
      (loaded : Option Config) (events : List Event)
      → IsWired (or_default loaded).nodes (run (start loaded) events)
  run-start loaded events =
      run-IsWired (or_default loaded).nodes (start loaded) events (start-IsWired loaded)

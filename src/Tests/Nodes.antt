-- ===== src/Tests/Nodes.antt =====
-- Nodes: the choice among their answers, and the pool.
use dnn_daemon.Common.Outcome.{panic}
use dnn_daemon.Common.{
  ℕ, ◌≡◌, inl, refl, Bool, true, Option, none, some, List, [], ◌∷◌, if◌then◌else◌, arith,
}
use dnn_daemon.Common.Bytes.{Bytes, codes, equal}
use dnn_daemon.Common.Int.{pos}
use dnn_daemon.Resolver.{
  Resolver, pick_best_result, resolve, query_nodes_parallel, judge, collect, choose, newest,
  check_pubkeys, try_sets,
}
use dnn_daemon.Resolver.Answer.{Event, Resolution, ResolveResult, no_answer}
use dnn_daemon.Resolver.Json.{end}
use dnn_daemon.Resolver.Freshest.{IsFreshest, pick_best_result-IsFreshest}
use dnn_daemon.Resolver.Panic.{short_id_panics}
use dnn_daemon.Resolver.Sets.{FromSet, resolve-FromSet}
use dnn_daemon.Tests.Sample.{sample_runtime}
use dnn_daemon.PeerDiscovery.{
  Response, Network, Discovery, refresh_pool, elem, reject, normalize_url, is_seed_node,
  health_check, fetch_peers, crawl_node, visit, crawl,
}
use dnn_daemon.PeerDiscovery.Pool.{IsHealthy, refresh_pool-IsHealthy}
use dnn_daemon.Tests.Sample.{sample_runtime, opened_text}

abbrev pub sample : Resolution
sample = record {
  pubkey = codes "k1";
  name = codes "nabandonzooa";
  ip = codes "192.0.2.7";
  port = pos 443;
  http_port = pos 80;
  cert = none;
  connection = end;
  resolved_at = 7;
  subdomain_ips = [];
  transports = record { relay = []; tollgate = [] };
  interception_ipv6 = [];
  npubs = [];
}

abbrev signed_by : Bytes → Bytes → ℕ → Event
signed_by key id at = record {
  id = id;
  pub_key = key;
  sig = codes "s";
  created_at = pos at;
  kind = pos 0;
  content = [];
  tags = [];
}

abbrev answer_with : Event → ResolveResult
answer_with event = record {
  resolution = some sample;
  conn_event = some event;
  domain_found = true;
  node_url = codes "u";
  err = none;
}

-- Only the key "k1" signs.
abbrev k1_signs : Event → Bool
k1_signs event = equal event.pub_key (codes "k1")

abbrev reply : Bytes → Option ResolveResult
reply node =
    if equal node (codes "a")
    then some (answer_with (signed_by (codes "k1") (codes "id1") 5))
    else if equal node (codes "b")
    then some (answer_with (signed_by (codes "k1") (codes "id2") 9))
    else none

abbrev nodes : List Bytes
nodes = codes "c" ∷ codes "d" ∷ codes "e" ∷ codes "a" ∷ codes "b" ∷ []

abbrev answers : List ResolveResult
answers =
    no_answer
    ∷ answer_with (signed_by (codes "k1") (codes "id1") 5)
    ∷ answer_with (signed_by (codes "k1") (codes "id2") 9)
    ∷ []

pick_best_result-IsFreshest_example : IsFreshest k1_signs answers sample
pick_best_result-IsFreshest_example =
    pick_best_result-IsFreshest k1_signs answers sample
      (unfold pick_best_result collect judge choose newest check_pubkeys equal in refl)

abbrev forged : Event
forged = signed_by (codes "k2") (codes "id") 5

short_id_panics_example : pick_best_result k1_signs (answer_with forged ∷ answers) ≡ panic
short_id_panics_example =
    short_id_panics k1_signs (answer_with forged ∷ answers) (answer_with forged) sample forged
      (inl refl) refl refl refl (unfold equal in refl) (omega arith)

resolve-FromSet_example : FromSet k1_signs reply nodes sample
resolve-FromSet_example = resolve-FromSet k1_signs reply nodes sample (
    unfold resolve try_sets query_nodes_parallel pick_best_result collect judge choose newest
      check_pubkeys equal in
    refl)

abbrev resolver : Resolver
resolver = record { nodes = nodes; current_node = 4 }

abbrev up : Option Response
up = some (record { status = 200; body = some (codes "list") })

-- "a" and "b" are up, and "a" names "b/", "B" and "c" as its peers.
abbrev net : Network
net = record {
  get = λ url.
      if equal url (codes "a/dnn/health")
      then up
      else if equal url (codes "b/dnn/health")
      then up
      else if equal url (codes "a/dnn/peers")
      then up
      else none;
  decode_list = λ body. some (codes "b/" ∷ codes "B" ∷ codes "c" ∷ []);
  decode_object = λ body. none;
}

abbrev discovery : Discovery
discovery = record { seed_nodes = codes "A/" ∷ codes "a" ∷ []; pool = codes "old" ∷ []; seen = [] }

refresh_pool-IsHealthy_example :
    IsHealthy net (codes "A/" ∷ codes "a" ∷ []) (refresh_pool net discovery).pool
refresh_pool-IsHealthy_example = refresh_pool-IsHealthy net discovery

pool_found :
    (refresh_pool net (record { seed_nodes = codes "a" ∷ []; pool = []; seen = [] })).pool
    ≡ codes "b/" ∷ []
unfolding refresh_pool crawl visit health_check crawl_node fetch_peers reject elem normalize_url
    is_seed_node opened_text
pool_found = refl

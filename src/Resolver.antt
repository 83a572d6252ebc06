-- ===== src/Resolver.antt =====
-- internal/resolver/resolver.go: the answers of DNN nodes, and the choice among them. The HTTP client,
-- Go's JSON decoder, the clock, the shuffle of the nodes and go-nostr's signature check are
-- parameters. A slice out of range panics, so a function that may do so returns an `Outcome`.
pub mod Json
pub mod Connection
pub mod Answer
pub mod Records
pub mod Pick
pub mod Freshest
pub mod Panic
pub mod Sets
use dnn_daemon.Common.Outcome.{Outcome, done, panic, ◌>>=◌}
use dnn_daemon.Common.{
  ℕ, zero, suc, Bool, true, false, not, ◌&&◌, ◌||◌, Option, none, some, List, [], ◌∷◌, ◌++◌, map,
  ltb, leb, ◌==◌, if◌then◌else◌, length, take, drop, is_nil,
}
use dnn_daemon.Common.Bytes.{Bytes, codes, equal}
use dnn_daemon.Common.Int.{ℤ, pos, ltb_int}
use dnn_daemon.Common.Table.{Table}
use Json.{Fields}
use Connection.{
  CertInfo, Transports, ConnectionInfo, TransportInfo, extract_connection_info,
  extract_transport_info, extract_cert,
}
use dnn_daemon.Runtime.{Runtime}
use Answer.{Event, Resolution, NodeError, ResolveResult, no_answer}

pub record Resolver : Type 0 where
  pub nodes : List Bytes
  pub current_node : ℕ

unfoldable pub update_nodes : Resolver → List Bytes → Resolver
update_nodes rs nodes = record {
  nodes = nodes;
  current_node = if leb (length nodes) rs.current_node then 0 else rs.current_node;
}

abbrev pub slot : Option ResolveResult → ResolveResult
slot none = no_answer
slot (some res) = res

-- `reply` is what a node has answered when the time is up, if anything.
unfoldable pub query_nodes_parallel :
    (Bytes → Option ResolveResult) → List Bytes → List ResolveResult
query_nodes_parallel reply nodes = map (λ node. slot (reply node)) nodes

-- `validResult`
pub record Valid : Type 0 where
  pub resolution : Resolution
  pub created_at : ℤ
  pub pubkey : Bytes
  pub node_url : Bytes
  pub domain_found : Bool

pub data Judgement : Type 0 where
  skip crash : Judgement
  keep : Valid → Judgement

pub data Consistency : Type 0 where
  consistent mismatch crash : Consistency

-- The choice of the newest response, `best` being the newest so far.
unfoldable pub newest : Valid → List Valid → Valid
newest best [] = best
newest best (v ∷ vs) = newest (if ltb_int best.created_at v.created_at then v else best) vs

-- The test of the public keys. The message about a mismatch takes 16 bytes of either.
unfoldable pub check_pubkeys : Bytes → List Valid → Consistency
check_pubkeys ref [] = consistent
check_pubkeys ref (v ∷ vs) =
    let rest = check_pubkeys ref vs in
    if not (is_nil v.pubkey) && not (is_nil ref) && not (equal v.pubkey ref)
    then (if ltb (length v.pubkey) 16 || ltb (length ref) 16 then Consistency.crash else mismatch)
    else rest

abbrev pub choose_from : Consistency → Valid → Outcome (Option Resolution)
choose_from Consistency.crash best = panic
choose_from mismatch best = done none
choose_from consistent best = done (if not best.domain_found then none else some best.resolution)

unfoldable pub choose : Outcome (List Valid) → Outcome (Option Resolution)
unfolding newest check_pubkeys
choose panic = panic
choose (done []) = done none
choose (done (v ∷ vs)) = choose_from (check_pubkeys v.pubkey vs) (newest v vs)

abbrev pub add_judged : Judgement → Outcome (List Valid) → Outcome (List Valid)
add_judged skip rest = rest
add_judged Judgement.crash rest = panic
add_judged (keep v) panic = panic
add_judged (keep v) (done vs) = done (v ∷ vs)

abbrev pub or_next :
    Outcome (Option Resolution) → Outcome (Option Resolution) → Outcome (Option Resolution)
or_next panic next = panic
or_next (done none) next = next
or_next (done (some best)) next = done (some best)

module _ (check_signature : Event → Bool) where
  abbrev judge_resolved : ResolveResult → Resolution → Option Event → Judgement
  judge_resolved res resolution none = keep (record {
    resolution = resolution;
    created_at = pos 0;
    pubkey = resolution.pubkey;
    node_url = res.node_url;
    domain_found = res.domain_found;
  })
  judge_resolved res resolution (some event) =
      if not (check_signature event)
      then (if ltb (length event.id) 16 then Judgement.crash else skip)
      else keep (record {
        resolution = resolution;
        created_at = event.created_at;
        pubkey = event.pub_key;
        node_url = res.node_url;
        domain_found = res.domain_found;
      })

  abbrev judge_answer : ResolveResult → Option NodeError → Option Resolution → Judgement
  judge_answer res (some _) resolution = skip
  judge_answer res none none = skip
  judge_answer res none (some resolution) = judge_resolved res resolution res.conn_event

  -- One round of the loop over the results: the message about a bad signature takes 16 bytes of the ID.
  unfoldable pub judge : ResolveResult → Judgement
  judge res = judge_answer res res.err res.resolution

  unfoldable pub collect : List ResolveResult → Outcome (List Valid)
  collect [] = done []
  collect (res ∷ results) = add_judged (judge res) (collect results)

  unfoldable pub pick_best_result : List ResolveResult → Outcome (Option Resolution)
  pick_best_result results = choose (collect results)

  -- The loop over the sets, by the sets left and the nodes not yet asked.
  unfoldable pub try_sets :
      (Bytes → Option ResolveResult) → ℕ → List Bytes → Outcome (Option Resolution)
  try_sets reply zero nodes = done none
  try_sets reply (suc k) [] = done none
  try_sets reply (suc k) (node ∷ nodes) =
      or_next (pick_best_result (query_nodes_parallel reply (take 3 (node ∷ nodes))))
        (try_sets reply k (drop 3 (node ∷ nodes)))

  -- `Resolve` on the shuffled nodes: `none` is `ErrAllNodesFailed`.
  unfoldable pub resolve : (Bytes → Option ResolveResult) → List Bytes → Outcome (Option Resolution)
  unfolding try_sets
  resolve reply nodes = try_sets reply 3 nodes

-- `HealthCheck`, on the status that a node answers.
unfoldable pub health_check : (Bytes → Option (ℕ × Bytes)) → Bytes → Bool
health_check get node_url = elim (get (node_url ++ codes "/dnn/resolve/n1.1")) [
  | none ↦ false
  | some (status, _) ↦ status == 200 || status == 404
]

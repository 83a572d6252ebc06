-- ===== src/PeerDiscovery.antt =====
-- internal/peerdiscovery/peerdiscovery.go: the pool of healthy nodes. The network is a parameter: what
-- each URL answers during one refresh, and how Go's JSON package reads a body. A refresh runs as one
-- step; the locks are not modelled.
pub mod Pool
pub mod Loop
use dnn_daemon.Common.{
  ℕ, zero, suc, Bool, true, false, not, ◌&&◌, ◌||◌, Option, none, some, List, [], ◌∷◌, ◌++◌, ltb,
  ◌==◌, if◌then◌else◌, length,
}
use dnn_daemon.Common.Bytes.{Bytes, codes, equal}
use dnn_daemon.Runtime.{Runtime}
use dnn_daemon.Text.{to_lower, trim_space, trim_suffix}

-- `body` is `none` when reading it fails.
pub record Response : Type 0 where
  pub status : ℕ
  pub body : Option Bytes

pub record Network : Type 0 where
  -- `client.Get`: `none` is an error
  pub get : Bytes → Option Response
  -- `json.Unmarshal` into a list of strings, and into an object with a field "peers"
  pub decode_list : Bytes → Option (List Bytes)
  pub decode_object : Bytes → Option (List Bytes)

pub record Discovery : Type 0 where
  pub seed_nodes : List Bytes
  pub pool : List Bytes
  -- the keys of the map `seen`
  pub seen : List Bytes

abbrev pub max_pool_size : ℕ
max_pool_size = 21

unfoldable pub elem : Bytes → List Bytes → Bool
elem x [] = false
elem x (y ∷ ys) = equal y x || elem x ys

-- The nodes that fail a test, in order.
unfoldable pub reject : (Bytes → Bool) → List Bytes → List Bytes
reject p [] = []
reject p (x ∷ xs) = let rest = reject p xs in if not (p x) then x ∷ rest else rest

-- What one round of the loop does with the node taken from the queue.
pub data Visit : Type 0 where
  -- the pool is full: the loop's condition fails
  full : Visit
  -- seen before, or not healthy
  skipped : (seen : List Bytes) → Visit
  crawled : (seen pool peers : List Bytes) → Visit

module _ ⦃r : Runtime⦄ where
  unfoldable pub normalize_url : Bytes → Bytes
  normalize_url url = to_lower (trim_suffix (trim_space url) (b'/' ∷ []))

  unfoldable pub is_seed_node : List Bytes → Bytes → Bool
  is_seed_node [] node = false
  is_seed_node (seed ∷ seeds) node =
      equal (normalize_url seed) (normalize_url node) || is_seed_node seeds node

  unfoldable pub get_nodes : Discovery → List Bytes
  unfolding reject
  get_nodes d = d.seed_nodes ++ reject (is_seed_node d.seed_nodes) d.pool

  module _ (net : Network) where
    abbrev is_ok : Option Response → Bool
    is_ok none = false
    is_ok (some resp) = resp.status == 200

    abbrev endpoint : Bytes → Bytes → Bytes
    endpoint node path = trim_suffix node (b'/' ∷ []) ++ path

    unfoldable pub health_check : Bytes → Bool
    health_check node =
        if is_ok (net.get (endpoint node (codes "/dnn/health")))
        then true
        else is_ok (net.get (endpoint node (codes "/dnn/resolve/nabtaabove")))

    abbrev decoded_object : Option (List Bytes) → List Bytes
    decoded_object none = []
    decoded_object (some peers) = peers

    abbrev decoded : Bytes → Option (List Bytes) → List Bytes
    decoded body none = decoded_object (net.decode_object body)
    decoded body (some peers) = peers

    abbrev peers_of_body : Option Bytes → List Bytes
    peers_of_body none = []
    peers_of_body (some body) = decoded body (net.decode_list body)

    abbrev peers_of : Option Response → List Bytes
    peers_of none = []
    peers_of (some resp) = if not (resp.status == 200) then [] else peers_of_body resp.body

    unfoldable pub fetch_peers : Bytes → Bytes → List Bytes
    fetch_peers node path = peers_of (net.get (endpoint node path))

    unfoldable pub crawl_node : Bytes → List Bytes
    unfolding fetch_peers
    crawl_node node =
        fetch_peers node (codes "/dnn/peers") ++ fetch_peers node (codes "/dnn/discovered-peers")

    unfoldable pub visit : List Bytes → Bytes → List Bytes → List Bytes → Visit
    visit seeds node seen pool =
        if not (ltb (length pool) max_pool_size)
        then full
        else if elem (normalize_url node) seen
        then skipped seen
        else if not (health_check node)
        then skipped (normalize_url node ∷ seen)
        else crawled (normalize_url node ∷ seen)
            (if not (is_seed_node seeds node) && ltb (length pool) max_pool_size
              then pool ++ node ∷ []
              else pool)
            (reject (λ peer. elem (normalize_url peer) (normalize_url node ∷ seen))
              (crawl_node node))

    -- The loop, by the crawls that are left before `crawled > 50` ends it, and by the queue. The
    -- result is the new pool and the nodes seen.
    unfoldable pub crawl :
        List Bytes → ℕ → List Bytes → List Bytes → List Bytes → List Bytes × List Bytes
    crawl seeds budget [] seen pool = (pool, seen)
    crawl seeds zero (node ∷ queue) seen pool = elim (visit seeds node seen pool) [
      | full ↦ (pool, seen)
      | skipped seen' ↦ crawl seeds zero queue seen' pool
      | crawled seen' pool' peers ↦ (pool', seen')
    ]
    crawl seeds (suc budget) (node ∷ queue) seen pool = elim (visit seeds node seen pool) [
      | full ↦ (pool, seen)
      | skipped seen' ↦ crawl seeds (suc budget) queue seen' pool
      | crawled seen' pool' peers ↦ crawl seeds budget (queue ++ peers) seen' pool'
    ]

    unfoldable pub refresh_pool : Discovery → Discovery
    refresh_pool d =
        let (pool', seen') = crawl d.seed_nodes 50 (d.seed_nodes ++ d.pool) [] [] in
        record d { pool = pool'; seen = seen' }

-- ===== src/PeerDiscovery/Pool.antt =====
-- The pool that a refresh leaves behind.
use dnn_daemon.Common.{
  ℕ, zero, suc, ◌≤◌, ◌<◌, ◌≡◌, refl, ap, ◌⊎◌, inl, inr, Bool, true, false, [], ◌∷◌, ◌++◌, ltb,
  length, arith, Bool-cases, length-append, ◌||◌, List, ltb→lt, map,
}
use dnn_daemon.Common.Bytes.{Bytes, equal, equal_iff}
use dnn_daemon.Runtime.{Runtime}
use dnn_daemon.PeerDiscovery.{
  Network, Discovery, max_pool_size, elem, reject, Visit, full, skipped, crawled, normalize_url,
  is_seed_node, get_nodes, health_check, visit, crawl, refresh_pool,
}

abbrev pub Every {ℓ} : (Bytes → Type ℓ) → List Bytes → Type ℓ
Every P [] = Unit
Every P (x ∷ xs) = P x × Every P xs

-- No text stands twice in the list.
abbrev pub Distinct : List Bytes → Type 0
Distinct [] = Unit {0}
Distinct (x ∷ xs) = (elem x xs ≡ false) × Distinct xs

Every-append {ℓ} :
    (P : Bytes → Type ℓ) (xs : List Bytes) {x : Bytes} → Every P xs → P x → Every P (xs ++ x ∷ [])
Every-append P [] h p = (p, tt)
Every-append P (y ∷ ys) h p = (h.0, Every-append P ys h.1 p)

elem-append :
    (u : Bytes) (xs : List Bytes) (x : Bytes) → elem u (xs ++ x ∷ []) ≡ (elem u xs || equal x u)
unfolding elem
elem-append u [] x = ground arith
elem-append u (y ∷ ys) x = ground (arith, elem-append u ys x)

Distinct-append :
    (xs : List Bytes) (x : Bytes) → Distinct xs → elem x xs ≡ false → Distinct (xs ++ x ∷ [])
unfolding elem
Distinct-append [] x d h = (refl, tt)
Distinct-append (y ∷ ys) x d h = (
  ground (arith, elem-append y ys x, equal_iff x y, equal_iff y x),
  Distinct-append ys x d.1 (ground arith),
)

map-append-one :
    (f : Bytes → Bytes) (xs : List Bytes) (x : Bytes) → map f (xs ++ x ∷ []) ≡ map f xs ++ f x ∷ []
map-append-one f [] x = refl
map-append-one f (y ∷ ys) x = ap (◌∷◌ (f y)) (map-append-one f ys x)

Visit-cases :
    (v : Visit)
    → (v ≡ full)
      ⊎ (((seen' : List Bytes) × (v ≡ skipped seen'))
          ⊎ ((seen' pool' peers : List Bytes) × (v ≡ crawled seen' pool' peers)))
Visit-cases full = inl refl
Visit-cases (skipped s) = inr (inl (s, refl))
Visit-cases (crawled s p q) = inr (inr (s, p, q, refl))

module _ ⦃r : Runtime⦄ (net : Network) (seeds : List Bytes) where
  -- A pool as a refresh leaves it: within its bound, of healthy nodes that are no seeds, and with no
  -- node twice, in whatever spelling.
  pub record IsHealthy (pool : List Bytes) : Type 0 where
    pub bounded : length pool ≤ max_pool_size
    pub no_seed : Every (λ node. is_seed_node seeds node ≡ false) pool
    pub answers : Every (λ node. health_check net node ≡ true) pool
    pub distinct : Distinct (map normalize_url pool)

  -- The loop's invariant: besides, every node of the pool is marked as seen.
  record Inv (seen pool : List Bytes) : Type 0 where
    healthy : IsHealthy pool
    marked : (u : Bytes) → elem u (map normalize_url pool) ≡ true → elem u seen ≡ true

  mark_more : {seen pool : List Bytes} (u : Bytes) → Inv seen pool → Inv (u ∷ seen) pool
  unfolding elem
  mark_more u i = record { healthy = i.healthy; marked = λ v h. ground (arith, i.marked v h) }

  add_node :
      {seen pool : List Bytes} (node : Bytes)
      → Inv seen pool
      → elem (normalize_url node) seen ≡ false
      → length pool < max_pool_size
      → is_seed_node seeds node ≡ false
      → health_check net node ≡ true
      → Inv (normalize_url node ∷ seen) (pool ++ node ∷ [])
  unfolding elem
  add_node {seen} {pool} node i new room no_seed up = record {
    healthy = record {
      bounded = omega (arith, length-append pool (node ∷ []));
      no_seed = Every-append _ pool i.healthy.no_seed no_seed;
      answers = Every-append _ pool i.healthy.answers up;
      distinct = rw (map-append-one normalize_url pool node) (
          Distinct-append (map normalize_url pool) (normalize_url node) i.healthy.distinct
            (ground (arith, i.marked (normalize_url node))));
    };
    marked = λ u h. ground (
      arith,
      i.marked u,
      elem-append u (map normalize_url pool) (normalize_url node),
      ap (elem u) (map-append-one normalize_url pool node),
    );
  }

  abbrev VisitInv : List Bytes → Visit → Type 0
  VisitInv pool full = Unit
  VisitInv pool (skipped seen') = Inv seen' pool
  VisitInv pool (crawled seen' pool' peers) = Inv seen' pool'

  visit-Inv :
      (node : Bytes) (seen pool : List Bytes)
      → Inv seen pool
      → VisitInv pool (visit net seeds node seen pool)
  unfolding visit
  visit-Inv node seen pool i = elim (Bool-cases (ltb (length pool) max_pool_size)) [
    | inr a ↦ rw a tt
    | inl a ↦ elim (Bool-cases (elem (normalize_url node) seen)) [
      | inl b ↦ rw (a, b) i
      | inr b ↦ elim (Bool-cases (health_check net node)) [
        | inr c ↦ rw (a, b, c) (mark_more (normalize_url node) i)
        | inl c ↦ elim (Bool-cases (is_seed_node seeds node)) [
          | inl d ↦ rw (a, b, c, d) (mark_more (normalize_url node) i)
          | inr d ↦ rw (a, b, c, d) (add_node node i b (ltb→lt _ _ a) d c)
        ]
      ]
    ]
  ]

  crawl-Inv :
      (budget : ℕ) (queue seen pool : List Bytes)
      → Inv seen pool
      → IsHealthy (crawl net seeds budget queue seen pool).0
  unfolding crawl
  crawl-Inv budget [] seen pool i = i.healthy
  crawl-Inv zero (node ∷ queue) seen pool i =
      let v = visit-Inv node seen pool i in
      elim (Visit-cases (visit net seeds node seen pool)) [
        | inl e ↦ rw (e, crawl) i.healthy
        | inr (inl (seen', e)) ↦ rw (e, crawl) (crawl-Inv zero queue seen' pool (rw e at v))
        | inr (inr (seen', pool', peers, e)) ↦
            let kept : Inv seen' pool' = rw e at v in rw (e, crawl) kept.healthy
      ]
  crawl-Inv (suc budget) (node ∷ queue) seen pool i =
      let v = visit-Inv node seen pool i in
      elim (Visit-cases (visit net seeds node seen pool)) [
        | inl e ↦ rw (e, crawl) i.healthy
        | inr (inl (seen', e)) ↦ rw (e, crawl) (crawl-Inv (suc budget) queue seen' pool (rw e at v))
        | inr (inr (seen', pool', peers, e)) ↦
            rw (e, crawl) (crawl-Inv budget (queue ++ peers) seen' pool' (rw e at v))
      ]

pub reject_none :
    (p : Bytes → Bool) (xs : List Bytes) → Every (λ x. p x ≡ false) xs → reject p xs ≡ xs
unfolding reject
reject_none p [] h = refl
reject_none p (x ∷ xs) h = ground (arith, reject_none p xs, h.0, h.1)

module _ ⦃r : Runtime⦄ (net : Network) where
  -- After a refresh, whatever the pool was before, it has at most 21 nodes, each of them answers the
  -- health check and is no seed, and no two of them are the same after `normalizeURL`.
  pub refresh_pool-IsHealthy :
      (d : Discovery) → IsHealthy net d.seed_nodes (refresh_pool net d).pool
  unfolding refresh_pool
  refresh_pool-IsHealthy d = crawl-Inv net d.seed_nodes 50 (d.seed_nodes ++ d.pool) [] [] (record {
    healthy = record { bounded = omega arith; no_seed = tt; answers = tt; distinct = tt };
    marked = λ u h. unfold elem in h;
  })

  -- The nodes handed to the resolver after a refresh are the seeds, in their order, and then the pool.
  get_nodes-refresh_pool :
      (d : Discovery) → get_nodes (refresh_pool net d) ≡ d.seed_nodes ++ (refresh_pool net d).pool
  get_nodes-refresh_pool d =
      let h = (refresh_pool-IsHealthy d).no_seed in
      unfold get_nodes refresh_pool in
      ap (λ nodes. d.seed_nodes ++ nodes)
        (reject_none (is_seed_node d.seed_nodes) (refresh_pool net d).pool h)

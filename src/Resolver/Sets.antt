-- ===== src/Resolver/Sets.antt =====
-- `Resolve` over the sets of nodes.
use dnn_daemon.Common.Outcome.{Outcome, done, panic}
use dnn_daemon.Common.{
  ℕ, zero, suc, ◌≤◌, ◌<◌, ◌≡◌, refl, ◌⊎◌, inl, inr, Bool, [], ◌∷◌, length, take, drop, arith,
  length-take, List, Option, none, some,
}
use dnn_daemon.Common.Bytes.{Bytes}
use dnn_daemon.Resolver.{
  or_next, Resolver, update_nodes, pick_best_result, query_nodes_parallel, try_sets, resolve,
}
use dnn_daemon.Resolver.Answer.{Event, Resolution, ResolveResult}
use dnn_daemon.Resolver.Pick.{In}
use dnn_daemon.Resolver.Freshest.{IsFreshest, pick_best_result-IsFreshest}

In-take : (n : ℕ) (xs : List Bytes) (x : Bytes) → In x (take n xs) → In x xs
In-take zero xs x m = absurd m
In-take (suc n) [] x m = absurd m
In-take (suc n) (y ∷ ys) x (inl e) = inl e
In-take (suc n) (y ∷ ys) x (inr m) = inr (In-take n ys x m)

In-drop : (n : ℕ) (xs : List Bytes) (x : Bytes) → In x (drop n xs) → In x xs
In-drop zero xs x m = m
In-drop (suc n) [] x m = m
In-drop (suc n) (y ∷ ys) x m = inr (In-drop n ys x m)

module _ (check_signature : Event → Bool) (reply : Bytes → Option ResolveResult) where
  -- A set of at most three of the nodes, whose answers have this resolution for the freshest.
  pub record FromSet (nodes : List Bytes) (resolution : Resolution) : Type 0 where
    pub asked : List Bytes
    pub few : length asked ≤ 3
    pub among : (node : Bytes) → In node asked → In node nodes
    pub freshest : IsFreshest check_signature (query_nodes_parallel reply asked) resolution

  next-cases :
      (first rest : Outcome (Option Resolution)) {resolution : Resolution}
      → or_next first rest ≡ done (some resolution)
      → (first ≡ done (some resolution)) ⊎ (rest ≡ done (some resolution))
  next-cases panic rest h = cc
  next-cases (done none) rest h = inr h
  next-cases (done (some best)) rest h = inl h

  try_sets-FromSet :
      (k : ℕ) (nodes : List Bytes) (resolution : Resolution)
      → try_sets check_signature reply k nodes ≡ done (some resolution)
      → FromSet nodes resolution
  unfolding try_sets
  try_sets-FromSet zero nodes resolution h = cc
  try_sets-FromSet (suc k) [] resolution h = cc
  try_sets-FromSet (suc k) (node ∷ nodes) resolution h =
      elim (next-cases
        (pick_best_result check_signature (query_nodes_parallel reply (take 3 (node ∷ nodes))))
        (try_sets check_signature reply k (drop 3 (node ∷ nodes))) h) [
          | inl e ↦ record {
            asked = take 3 (node ∷ nodes);
            few = omega (arith, length-take 3 (node ∷ nodes));
            among = λ x m. In-take 3 (node ∷ nodes) x m;
            freshest =
                pick_best_result-IsFreshest check_signature
                  (query_nodes_parallel reply (take 3 (node ∷ nodes))) resolution e;
          }
          | inr e ↦
              let later = try_sets-FromSet k (drop 3 (node ∷ nodes)) resolution e in
              record {
                asked = later.asked;
                few = later.few;
                among = λ x m. In-drop 3 (node ∷ nodes) x (later.among x m);
                freshest = later.freshest;
              }
        ]

  -- Only the first nine nodes of the shuffled list matter.
  resolve-take :
      (nodes : List Bytes)
      → resolve check_signature reply nodes ≡ resolve check_signature reply (take 9 nodes)
  unfolding resolve
  resolve-take [] = refl
  resolve-take (a ∷ []) = refl
  resolve-take (a ∷ (b ∷ [])) = refl
  resolve-take (a ∷ (b ∷ (c ∷ []))) = refl
  resolve-take (a ∷ (b ∷ (c ∷ (d ∷ [])))) = refl
  resolve-take (a ∷ (b ∷ (c ∷ (d ∷ (e ∷ []))))) = refl
  resolve-take (a ∷ (b ∷ (c ∷ (d ∷ (e ∷ (f ∷ [])))))) = refl
  resolve-take (a ∷ (b ∷ (c ∷ (d ∷ (e ∷ (f ∷ (g ∷ []))))))) = refl
  resolve-take (a ∷ (b ∷ (c ∷ (d ∷ (e ∷ (f ∷ (g ∷ (h ∷ [])))))))) = refl
  resolve-take (a ∷ (b ∷ (c ∷ (d ∷ (e ∷ (f ∷ (g ∷ (h ∷ (i ∷ rest))))))))) = refl

  -- A resolution that `Resolve` returns is the freshest answer of some set of at most three of its
  -- nodes.
  pub resolve-FromSet :
      (nodes : List Bytes) (resolution : Resolution)
      → resolve check_signature reply nodes ≡ done (some resolution)
      → FromSet nodes resolution
  unfolding resolve
  resolve-FromSet nodes resolution h = try_sets-FromSet 3 nodes resolution h

-- The index of the current node stays within the list of nodes, or is zero.
pub update_nodes_bounds :
    (rs : Resolver) (nodes : List Bytes)
    → ((update_nodes rs nodes).nodes ≡ nodes)
      × (((update_nodes rs nodes).current_node < length nodes)
          ⊎ ((update_nodes rs nodes).current_node ≡ 0))
unfolding update_nodes
update_nodes_bounds rs nodes = (refl, ground arith)

-- ===== src/Resolver/Pick.antt =====
-- `pickBestResult` keeps the usable answers and takes the newest of them.
use dnn_daemon.Common.Outcome.{Outcome, done, panic, done-injective}
use dnn_daemon.Common.{
  ◌≡◌, refl, sym, ap, ◌∙◌, ◌⊎◌, inl, inr, Bool, true, false, [], ◌∷◌, arith, Bool-cases,
  Option-cases, List, none, some,
}
use dnn_daemon.Common.Int.{pos}
use mathlib.Core.Path.{subst}
use dnn_daemon.Common.Int.{ltb_int, ◌≤ℤ◌, ≤ℤ_of_ltb, ≤ℤ_of_ltb_true, ≤ℤ_trans, ≤ℤ_refl}
use dnn_daemon.Resolver.{add_judged, Valid, Judgement, skip, keep, newest, judge, collect}
use dnn_daemon.Resolver.Answer.{Event, ResolveResult}

abbrev pub In : {A : Type 0} → A → List A → Type 0
In x [] = ⊥
In x (y ∷ ys) = (x ≡ y) ⊎ In x ys

-- A usable answer of a node, and what is kept of it: a resolution with a signed event whose signature
-- holds, or a resolution with no event, as old as can be.
pub data Usable (check_signature : Event → Bool) (res : ResolveResult) (v : Valid) : Type 0 where
  signed :
      (event : Event)
      → res.err ≡ none
      → res.resolution ≡ some v.resolution
      → res.conn_event ≡ some event
      → check_signature event ≡ true
      → v.created_at ≡ event.created_at
      → v.pubkey ≡ event.pub_key
      → v.node_url ≡ res.node_url
      → v.domain_found ≡ res.domain_found
      → Usable check_signature res v
  unsigned :
      res.err ≡ none
      → res.resolution ≡ some v.resolution
      → res.conn_event ≡ none
      → v.created_at ≡ pos 0
      → v.pubkey ≡ v.resolution.pubkey
      → v.node_url ≡ res.node_url
      → v.domain_found ≡ res.domain_found
      → Usable check_signature res v

In-second : (x y : Valid) (vs : List Valid) (v : Valid) → In x (y ∷ vs) → In x (y ∷ (v ∷ vs))
In-second x y vs v (inl e) = inl e
In-second x y vs v (inr m) = inr (inr m)

newest-newer :
    (best v : Valid) (vs : List Valid)
    → ltb_int best.created_at v.created_at ≡ true
    → newest best (v ∷ vs) ≡ newest v vs
unfolding newest
newest-newer best v vs h = rw (h, newest)

newest-older :
    (best v : Valid) (vs : List Valid)
    → ltb_int best.created_at v.created_at ≡ false
    → newest best (v ∷ vs) ≡ newest best vs
unfolding newest
newest-older best v vs h = rw (h, newest)

pub newest-In : (best : Valid) (vs : List Valid) → In (newest best vs) (best ∷ vs)
newest-In best [] = inl (unfold newest in refl)
newest-In best (v ∷ vs) = elim (Bool-cases (ltb_int best.created_at v.created_at)) [
  | inl a ↦
      subst (λ x. In x (best ∷ (v ∷ vs))) (sym (newest-newer best v vs a)) (inr (newest-In v vs))
  | inr a ↦
      subst (λ x. In x (best ∷ (v ∷ vs))) (sym (newest-older best v vs a))
        (In-second _ best vs v (newest-In best vs))
]

newest-ge-best : (best : Valid) (vs : List Valid) → best.created_at ≤ℤ (newest best vs).created_at
newest-ge-best best [] = unfold newest in ≤ℤ_refl best.created_at
newest-ge-best best (v ∷ vs) = elim (Bool-cases (ltb_int best.created_at v.created_at)) [
  | inl a ↦ rw (newest-newer best v vs a) (
      ≤ℤ_trans best.created_at v.created_at (newest v vs).created_at
        (≤ℤ_of_ltb_true best.created_at v.created_at a) (newest-ge-best v vs))
  | inr a ↦ rw (newest-older best v vs a) (newest-ge-best best vs)
]

pub newest-ge :
    (best : Valid) (vs : List Valid) (w : Valid)
    → In w (best ∷ vs)
    → w.created_at ≤ℤ (newest best vs).created_at
newest-ge best vs w (inl e) = rw e (newest-ge-best best vs)
newest-ge best [] w (inr m) = absurd m
newest-ge best (v ∷ vs) w (inr m) = elim (Bool-cases (ltb_int best.created_at v.created_at)) [
  | inl a ↦ rw (newest-newer best v vs a) (newest-ge v vs w m)
  | inr a ↦ rw (newest-older best v vs a) (elim m [
    | inl e ↦ rw e (
        ≤ℤ_trans v.created_at best.created_at (newest best vs).created_at
          (≤ℤ_of_ltb v.created_at best.created_at a) (newest-ge-best best vs))
    | inr m' ↦ newest-ge best vs w (inr m')
  ])
]

pub collect-cases :
    (j : Judgement) (rest : Outcome (List Valid)) {vs : List Valid}
    → add_judged j rest ≡ done vs
    → ((j ≡ skip) × (rest ≡ done vs))
      ⊎ ((w : Valid) × (ws : List Valid) × (j ≡ keep w) × (rest ≡ done ws) × (vs ≡ w ∷ ws))
collect-cases skip rest h = inl (refl, h)
collect-cases Judgement.crash rest h = cc
collect-cases (keep w) panic h = cc
collect-cases (keep w) (done ws) h = inr (w, ws, refl, refl, cc)

module _ (check_signature : Event → Bool) where
  pub judge-Usable :
      (res : ResolveResult) (v : Valid)
      → judge check_signature res ≡ keep v
      → Usable check_signature res v
  unfolding judge
  judge-Usable res v h = elim (Option-cases res.err) [
    | inr (why, e) ↦ ground arith
    | inl e ↦ elim (Option-cases res.resolution) [
      | inl f ↦ ground arith
      | inr (resolution, f) ↦ elim (Option-cases res.conn_event) [
        | inl g ↦
            unsigned e (ground arith) g (ground arith) (ground arith) (ground arith) (ground arith)
        | inr (event, g) ↦
            signed event e (ground arith) g (ground arith) (ground arith) (ground arith)
              (ground arith) (ground arith)
      ]
    ]
  ]

  pub Usable-judge :
      (res : ResolveResult) (v : Valid)
      → Usable check_signature res v
      → judge check_signature res ≡ keep v
  unfolding judge
  Usable-judge res v (signed event a b c d e f g h) = ground arith
  Usable-judge res v (unsigned a b c d e f g) = ground arith

  -- What `collect` keeps is usable.
  pub collect_sound :
      (results : List ResolveResult) (vs : List Valid) (v : Valid)
      → collect check_signature results ≡ done vs
      → In v vs
      → (res : ResolveResult) × In res results × Usable check_signature res v
  unfolding collect
  collect_sound [] vs v h m = absurd (subst (In v) (done-injective (sym h)) m)
  collect_sound (res ∷ results) vs v h m =
      elim (collect-cases (judge check_signature res) (collect check_signature results) h) [
        | inl (e, k) ↦ let (found, n, u) = collect_sound results vs v k m in (found, inr n, u)
        | inr (w, ws, e, k, f) ↦ elim (subst (In v) f m) [
          | inl g ↦ (res, inl refl, judge-Usable res v (e ∙ ap keep (sym g)))
          | inr m' ↦ let (found, n, u) = collect_sound results ws v k m' in (found, inr n, u)
        ]
      ]

  -- Nothing usable is lost.
  pub collect_complete :
      (results : List ResolveResult) (vs : List Valid) (res : ResolveResult) (v : Valid)
      → collect check_signature results ≡ done vs
      → In res results
      → Usable check_signature res v
      → In v vs
  unfolding collect
  collect_complete [] vs res v h m u = absurd m
  collect_complete (other ∷ results) vs res v h m u =
      elim (collect-cases (judge check_signature other) (collect check_signature results) h) [
        | inl (e, k) ↦ elim m [
          | inl g ↦ cc (e, Usable-judge res v u, ap (judge check_signature) g)
          | inr m' ↦ collect_complete results vs res v k m' u
        ]
        | inr (w, ws, e, k, f) ↦ elim m [
          | inl g ↦
              let same : v ≡ w = cc (e, Usable-judge res v u, ap (judge check_signature) g) in
              subst (In v) (sym f) (inl same)
          | inr m' ↦ subst (In v) (sym f) (inr (collect_complete results ws res v k m' u))
        ]
      ]

-- ===== src/Resolver/Freshest.antt =====
-- What `pickBestResult` returns, on each of its branches.
use dnn_daemon.Common.Outcome.{Outcome, done, panic}
use dnn_daemon.Common.{
  is_nil→eq, ◌≡◌, refl, sym, ap, ◌∙◌, ◌⊎◌, inl, inr, Bool, true, false, [], ◌∷◌, is_nil, arith,
  Bool-cases, ◌&&◌, not, List, some,
}
use dnn_daemon.Common.Bytes.{Bytes, equal, equal→eq}
use dnn_daemon.Common.Int.{◌≤ℤ◌}
use dnn_daemon.Resolver.{
  Valid, skip, keep, Consistency, consistent, mismatch, newest, check_pubkeys, choose, choose_from,
  judge, collect, pick_best_result,
}
use dnn_daemon.Resolver.Answer.{Event, Resolution, ResolveResult}
use mathlib.Core.Path.{subst}
use dnn_daemon.Resolver.Pick.{
  In, Usable, newest-In, newest-ge, collect-cases, judge-Usable, Usable-judge, collect_sound,
  collect_complete,
}

abbrev disagrees : Bytes → Valid → Bool
disagrees ref v = not (is_nil v.pubkey) && not (is_nil ref) && not (equal v.pubkey ref)

check_pubkeys-step :
    (ref : Bytes) (v : Valid) (vs : List Valid)
    → check_pubkeys ref (v ∷ vs) ≡ consistent
    → (disagrees ref v ≡ false) × (check_pubkeys ref vs ≡ consistent)
unfolding check_pubkeys
check_pubkeys-step ref v vs h = ground arith

abbrev pub Agrees : Bytes → Valid → Type 0
Agrees ref v = (v.pubkey ≡ []) ⊎ ((ref ≡ []) ⊎ (v.pubkey ≡ ref))

disagrees-Agrees : (ref : Bytes) (v : Valid) → disagrees ref v ≡ false → Agrees ref v
disagrees-Agrees ref v h = elim (Bool-cases (is_nil v.pubkey)) [
  | inl a ↦ inl (is_nil→eq v.pubkey a)
  | inr a ↦ elim (Bool-cases (is_nil ref)) [
    | inl b ↦ inr (inl (is_nil→eq ref b))
    | inr b ↦ inr (inr (equal→eq v.pubkey ref (ground arith)))
  ]
]

module _ (check_signature : Event → Bool) where
  -- `v` is what is kept of the first usable answer.
  pub data First (v : Valid) : List ResolveResult → Type 0 where
    here :
        {res : ResolveResult} {results : List ResolveResult}
        → Usable check_signature res v
        → First v (res ∷ results)
    later :
        {res : ResolveResult} {results : List ResolveResult}
        → ((w : Valid) → ¬ Usable check_signature res w)
        → First v results
        → First v (res ∷ results)

  -- `v` is kept of an answer, and no usable answer is newer.
  pub record IsNewest (results : List ResolveResult) (v : Valid) : Type 0 where
    pub source : ResolveResult
    pub member : In source results
    pub usable : Usable check_signature source v
    pub newest_of :
        (res : ResolveResult) (w : Valid)
        → In res results
        → Usable check_signature res w
        → w.created_at ≤ℤ v.created_at

  -- The resolution of a newest answer, which says that the domain was found; and each usable answer
  -- agrees with the first on the public key, as far as both have one.
  pub record IsFreshest (results : List ResolveResult) (resolution : Resolution) : Type 0 where
    pub kept : Valid
    pub first : Valid
    pub newest_kept : IsNewest results kept
    pub found : kept.domain_found ≡ true
    pub is_kept : kept.resolution ≡ resolution
    pub is_first : First first results
    pub agree :
        (res : ResolveResult) (w : Valid)
        → In res results
        → Usable check_signature res w
        → Agrees first.pubkey w

  skip-unusable :
      (res : ResolveResult)
      → judge check_signature res ≡ skip
      → (w : Valid) → ¬ Usable check_signature res w
  skip-unusable res h w u = cc (h, Usable-judge check_signature res w u)

  collect-First :
      (results : List ResolveResult) (v : Valid) (vs : List Valid)
      → collect check_signature results ≡ done (v ∷ vs)
      → First v results
  unfolding collect
  collect-First [] v vs h = cc
  collect-First (res ∷ results) v vs h =
      elim (collect-cases (judge check_signature res) (collect check_signature results) h) [
        | inl (e, k) ↦ later (skip-unusable res e) (collect-First results v vs k)
        | inr (w, ws, e, k, f) ↦
            let same : v ≡ w = cc in
            here (judge-Usable check_signature res v (e ∙ ap keep (sym same)))
      ]

  IsNewest-newest :
      (results : List ResolveResult) (v : Valid) (vs : List Valid)
      → collect check_signature results ≡ done (v ∷ vs)
      → IsNewest results (newest v vs)
  IsNewest-newest results v vs h =
      let (res, m, u) =
        collect_sound check_signature results (v ∷ vs) (newest v vs) h (newest-In v vs) in
      record {
        source = res;
        member = m;
        usable = u;
        newest_of = λ res' w m' u'.
            newest-ge v vs w (collect_complete check_signature results (v ∷ vs) res' w h m' u');
      }

  consistent-Agrees :
      (ref : Bytes) (vs : List Valid)
      → check_pubkeys ref vs ≡ consistent
      → (w : Valid) → In w vs
      → Agrees ref w
  consistent-Agrees ref [] h w m = absurd m
  consistent-Agrees ref (v ∷ vs) h w (inl e) =
      subst (λ x. Agrees ref x) (sym e) (disagrees-Agrees ref v (check_pubkeys-step ref v vs h).0)
  consistent-Agrees ref (v ∷ vs) h w (inr m) =
      consistent-Agrees ref vs (check_pubkeys-step ref v vs h).1 w m

  check_pubkeys-Agrees :
      (v : Valid) (vs : List Valid)
      → check_pubkeys v.pubkey vs ≡ consistent
      → (w : Valid) → In w (v ∷ vs)
      → Agrees v.pubkey w
  check_pubkeys-Agrees v vs c w (inl e) = inr (inr (ap (λ (x : Valid). x.pubkey) e))
  check_pubkeys-Agrees v vs c w (inr m) = consistent-Agrees v.pubkey vs c w m

  choose-cases :
      (c : Consistency) (best : Valid) {resolution : Resolution}
      → choose_from c best ≡ done (some resolution)
      → (c ≡ consistent) × (best.domain_found ≡ true) × (best.resolution ≡ resolution)
  choose-cases Consistency.crash best h = cc
  choose-cases mismatch best h = cc
  choose-cases consistent best h = (refl, ground arith, ground arith)

  chosen :
      (results : List ResolveResult) (resolution : Resolution) (kept : Outcome (List Valid))
      → collect check_signature results ≡ kept
      → choose kept ≡ done (some resolution)
      → IsFreshest results resolution
  unfolding choose
  chosen results resolution panic e h = cc
  chosen results resolution (done []) e h = cc
  chosen results resolution (done (v ∷ vs)) e h =
      let (c, found, k) = choose-cases (check_pubkeys v.pubkey vs) (newest v vs) h in
      record {
        kept = newest v vs;
        first = v;
        newest_kept = IsNewest-newest results v vs e;
        found = found;
        is_kept = k;
        is_first = collect-First results v vs e;
        agree = λ res w m u.
            check_pubkeys-Agrees v vs c w
              (collect_complete check_signature results (v ∷ vs) res w e m u);
      }

  -- A resolution that is returned is that of a usable answer which says that the domain was found, and
  -- no usable answer is newer; and each usable answer has the public key of the first usable one, unless
  -- one of the two has none.
  pub pick_best_result-IsFreshest :
      (results : List ResolveResult) (resolution : Resolution)
      → pick_best_result check_signature results ≡ done (some resolution)
      → IsFreshest results resolution
  unfolding pick_best_result
  pick_best_result-IsFreshest results resolution h =
      chosen results resolution (collect check_signature results) refl h

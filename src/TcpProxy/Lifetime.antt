-- ===== src/TcpProxy/Lifetime.antt =====
-- How long the proxy's cache answers, and for which name.
use dnn_daemon.Common.Outcome.{Outcome, done, panic, done-injective}
use dnn_daemon.Common.{
  ℕ, ◌+◌, ◌<◌, ◌≡◌, refl, ap, ◌∙◌, true, Option, none, some, inl, inr, arith, Option-cases, ltb,
}
use dnn_daemon.Common.Bytes.{Bytes}
use dnn_daemon.Common.Int.{ℤ}
use dnn_daemon.Common.Table.{lookup, insert, lookup-insert_self}
use dnn_daemon.Runtime.{Runtime}
use dnn_daemon.Mapper.{Cache, normalize, register}
use dnn_daemon.Mapper.Index.{lookup-register}
use dnn_daemon.Resolver.Answer.{Resolution}
use mathlib.Core.Option.{some_inj}
use mathlib.Core.Path.{subst}
use dnn_daemon.TcpProxy.{
  Proxy, unexpired, store, cached_or_resolved, get_resolution, connect_to, handle_connection,
}

unexpired-held :
    (now ttl : ℕ) (held : Option Resolution) (res : Resolution)
    → unexpired now ttl held ≡ some res
    → held ≡ some res
unexpired-held now ttl none res h = cc
unexpired-held now ttl (some cached) res h = ground arith

-- What a call leaves in the cache, where it gives a resolution: that one, with the lifetime as it was.
abbrev Cached : Bytes → Proxy → Proxy → Resolution → Type 0
Cached name p p' res = (lookup name p'.res_cache ≡ some res) × (p'.res_cache_ttl ≡ p.res_cache_ttl)

store-Cached :
    (name : Bytes) (p p' : Proxy) (res : Resolution) (found : Option Resolution)
    → store p name found ≡ (p', some res)
    → Cached name p p' res
store-Cached name p p' res none h = cc (ap (λ (q : Proxy × Option Resolution). q.1) h)
store-Cached name p p' res (some new) h =
    let e = some_inj.0 (ap (λ (q : Proxy × Option Resolution). q.1) h) in
    let stored = ap (λ (q : Proxy × Option Resolution). q.0) h in
    subst (λ q. Cached name p q res) stored
      (subst (λ x. Cached name p (record p { res_cache = insert name new p.res_cache }) x) e
        (lookup-insert_self name new p.res_cache, refl))

resolved-Cached :
    (name : Bytes) (p p' : Proxy) (res : Resolution) (resolved : Outcome (Option Resolution))
    → cached_or_resolved p name resolved none ≡ done (p', some res)
    → Cached name p p' res
resolved-Cached name p p' res panic h = cc
resolved-Cached name p p' res (done found) h = store-Cached name p p' res found (done-injective h)

get_resolution-Cached :
    (resolve : Bytes → Outcome (Option Resolution)) (now : ℕ) (p p' : Proxy) (name : Bytes)
    (res : Resolution)
    → get_resolution resolve now p name ≡ done (p', some res)
    → Cached name p p' res
unfolding get_resolution
get_resolution-Cached resolve now p p' name res h =
    elim (Option-cases (unexpired now p.res_cache_ttl (lookup name p.res_cache))) [
      | inl e ↦ resolved-Cached name p p' res (resolve name) (rw e at h)
      | inr (cached, e) ↦
          let same : ◌≡◌ {A = Outcome (Proxy × Option Resolution)} (done (p, some cached))
              (done (p', some res)) =
            rw e at h in
          let pair = done-injective same in
          let f = some_inj.0 (ap (λ (q : Proxy × Option Resolution). q.1) pair) in
          subst (λ q. Cached name p q res) (ap (λ (q : Proxy × Option Resolution). q.0) pair)
            (
              unexpired-held now p.res_cache_ttl (lookup name p.res_cache) cached e ∙ ap some f,
              refl,
            )
    ]

-- A resolution that the proxy was given is given again, and the cache left as it is, without asking
-- the resolver, until its lifetime has passed since it was made.
pub get_resolution-again :
    (resolve resolve' : Bytes → Outcome (Option Resolution)) (now now' : ℕ) (p p' : Proxy)
    (name : Bytes) (res : Resolution)
    → get_resolution resolve now p name ≡ done (p', some res)
    → now' < res.resolved_at + p.res_cache_ttl
    → get_resolution resolve' now' p' name ≡ done (p', some res)
get_resolution-again resolve resolve' now now' p p' name res h t =
    let (held, same) = get_resolution-Cached resolve now p p' name res h in
    let young : ltb now' (res.resolved_at + p'.res_cache_ttl) ≡ true = ground arith in
    unfold get_resolution in rw (held, young)

module _ ⦃r : Runtime⦄ where
  -- A connection to the address that was handed out for a name is sent to what the name, in its
  -- normal form, resolves to.
  handle_connection-register :
      (resolve : Bytes → Outcome (Option Resolution)) (now : ℕ) (c : Cache) (p : Proxy)
      (name : Bytes) (dst_port : ℤ)
      → handle_connection resolve now (register c name).0 p (register c name).1 dst_port
        ≡ connect_to dst_port (get_resolution resolve now p (normalize name))
  unfolding handle_connection get_resolution
  handle_connection-register resolve now c p name dst_port =
      rw ((lookup-register c name name).0, handle_connection)

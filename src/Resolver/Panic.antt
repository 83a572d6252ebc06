-- ===== src/Resolver/Panic.antt =====
-- When `pickBestResult` panics.
use dnn_daemon.Common.Outcome.{panic}
use dnn_daemon.Common.{
  ◌<◌, ◌≡◌, refl, inl, inr, Bool, true, false, [], ◌∷◌, ltb, length, arith, List, none, some,
}
use dnn_daemon.Resolver.{Judgement, skip, keep, choose, judge, collect, pick_best_result}
use dnn_daemon.Resolver.Answer.{Event, Resolution, ResolveResult}
use mathlib.Core.Path.{subst}
use dnn_daemon.Resolver.{add_judged}
use dnn_daemon.Resolver.Pick.{In}

add-panic : (j : Judgement) → add_judged j panic ≡ panic
add-panic skip = refl
add-panic Judgement.crash = refl
add-panic (keep v) = refl

module _ (check_signature : Event → Bool) where
  crash-panics :
      (results : List ResolveResult) (res : ResolveResult)
      → In res results
      → judge check_signature res ≡ Judgement.crash
      → collect check_signature results ≡ panic
  unfolding collect
  crash-panics [] res m h = absurd m
  crash-panics (other ∷ results) res (inl e) h =
      let k : judge check_signature other ≡ Judgement.crash =
        subst (λ x. judge check_signature x ≡ Judgement.crash) e h in
      rw (k, collect)
  crash-panics (other ∷ results) res (inr m) h =
      rw (crash-panics results res m h, collect) (add-panic (judge check_signature other))

  judge-crash :
      (res : ResolveResult) (resolution : Resolution) (event : Event)
      → res.err ≡ none
      → res.resolution ≡ some resolution
      → res.conn_event ≡ some event
      → check_signature event ≡ false
      → length event.id < 16
      → judge check_signature res ≡ Judgement.crash
  unfolding judge
  judge-crash res resolution event a b c d e =
      let short : ltb (length event.id) 16 ≡ true = ground arith in rw (a, b, c, d, short)

  -- An answer that comes with a signature that does not hold and an ID of less than 16 bytes makes
  -- the choice panic, whatever the other nodes answer.
  pub short_id_panics :
      (results : List ResolveResult) (res : ResolveResult) (resolution : Resolution) (event : Event)
      → In res results
      → res.err ≡ none
      → res.resolution ≡ some resolution
      → res.conn_event ≡ some event
      → check_signature event ≡ false
      → length event.id < 16
      → pick_best_result check_signature results ≡ panic
  unfolding pick_best_result choose
  short_id_panics results res resolution event m a b c d e =
      rw (crash-panics results res m (judge-crash res resolution event a b c d e))

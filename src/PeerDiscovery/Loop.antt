-- ===== src/PeerDiscovery/Loop.antt =====
-- internal/peerdiscovery/peerdiscovery.go: Start, Stop and refreshLoop around the refresh of the pool. A refresh
-- is one step; a loop that waits sees the stop channel closed before its next tick.
use dnn_daemon.Common.{
  arith, false, refl, ◌⊎◌, inl, inr, Bool-cases, ℕ, ◌+◌, ◌≡◌, Bool, true, ◌||◌, List, [], ◌∷◌, ◌==◌,
  if◌then◌else◌,
}
use dnn_daemon.Common.Outcome.{Outcome, done, panic, ◌>>=◌}
use dnn_daemon.Runtime.{Runtime}
use dnn_daemon.PeerDiscovery.{Network, Discovery, refresh_pool}

pub record Running : Type 0 where
  pub discovery : Discovery
  -- the loops that run, and whether the stop channel is closed
  pub loops : ℕ
  pub is_stopped : Bool

module _ ⦃r : Runtime⦄ where
  -- A loop that starts after Stop returns at once.
  unfoldable pub start : Network → Running → Running
  unfolding refresh_pool
  start net s = record s {
    discovery = refresh_pool net s.discovery;
    loops = if s.is_stopped then s.loops else s.loops + 1;
  }

  -- A tick of one of the loops.
  unfoldable pub refresh_loop : Network → Running → Running
  unfolding refresh_pool
  refresh_loop net s =
      if s.loops == 0 || s.is_stopped
      then s
      else record s { discovery = refresh_pool net s.discovery }

-- Closing a channel that is closed panics. Stop waits for the loops.
unfoldable pub stop : Running → Outcome Running
stop s = if s.is_stopped then panic else done (record s { loops = 0; is_stopped = true })

pub data Event : Type 0 where
  start_event tick_event : Network → Event
  stop_event : Event

module _ ⦃r : Runtime⦄ where
  unfoldable pub step : Running → Event → Outcome Running
  unfolding start refresh_loop stop
  step s (start_event net) = done (start net s)
  step s (tick_event net) = done (refresh_loop net s)
  step s stop_event = stop s

  unfoldable pub run : Running → List Event → Outcome Running
  unfolding step
  run s [] = done s
  run s (e ∷ events) = step s e >>= (λ t. run t events)

  -- When the channel is closed no loop runs.
  abbrev pub Ended : Running → Type 0
  Ended s = (s.is_stopped ≡ false) ⊎ (s.loops ≡ 0)

  abbrev pub EndsWell : Outcome Running → Type 0
  EndsWell (done s) = Ended s
  EndsWell panic = Unit {0}

  step-EndsWell : (s : Running) (e : Event) → Ended s → EndsWell (step s e)
  unfolding step start refresh_loop stop
  step-EndsWell s (start_event net) h = ground arith
  step-EndsWell s (tick_event net) h = ground arith
  step-EndsWell s stop_event h = elim (Bool-cases s.is_stopped) [
    | inl e ↦ rw e tt
    | inr e ↦ rw e (inr refl)
  ]

  then-EndsWell :
      (o : Outcome Running) (rest : Running → Outcome Running)
      → ((t : Running) → Ended t → EndsWell (rest t))
      → EndsWell o
      → EndsWell (o >>= rest)
  then-EndsWell (done t) rest keep h = keep t h
  then-EndsWell panic rest keep h = tt

  -- In every run no loop runs once the channel is closed.
  run-EndsWell : (s : Running) (events : List Event) → Ended s → EndsWell (run s events)
  unfolding run
  run-EndsWell s [] h = h
  run-EndsWell s (e ∷ events) h =
      then-EndsWell (step s e) (λ t. run t events) (λ t k. run-EndsWell t events k)
        (step-EndsWell s e h)

  -- Stop panics when it was called before.
  stop-stop : (s t : Running) → stop s ≡ done t → stop t ≡ panic
  unfolding stop
  stop-stop s t h = ground (arith, h)

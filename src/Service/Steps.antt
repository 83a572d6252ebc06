-- ===== src/Service/Steps.antt =====
-- Steps of an installation, one after the other: those that are taken, and whether all succeed that must.
use dnn_daemon.Common.{Bool, false, List, [], ◌∷◌, if◌then◌else◌}

module _ {ℓ} {A : Type ℓ} where
  -- A step whose error ends the installation.
  abbrev pub and_then : (A → Bool) → A → List A × Bool → List A × Bool
  and_then succeeds s (steps, ok) = if succeeds s then (s ∷ steps, ok) else (s ∷ [], false)

  -- A step whose error is only shown.
  abbrev pub and_anyway : A → List A × Bool → List A × Bool
  and_anyway s (steps, ok) = (s ∷ steps, ok)

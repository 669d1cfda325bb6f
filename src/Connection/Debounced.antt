-- ===== src/Connection/Debounced.antt =====
-- The timers of the resizes in Terminal.tsx.
use terminal_hub.Common.{ℕ, ◌≡◌, false, Option, none, some, List, [], ◌∷◌, ◌⊎◌}
use terminal_hub.Connection.Resize.{Surface}

-- the one timer that may be pending is that of the last call of the observer
abbrev IsPending : Option ℕ → List ℕ → Type 0
IsPending none timers = timers ≡ []
IsPending (some i) timers = (timers ≡ []) ⊎ (timers ≡ i ∷ [])

abbrev IsOne : Surface → Type 0
IsOne s = IsPending s.resize_timeout s.pending

-- nothing is left that could call the terminal
abbrev IsStill : Surface → Surface → Type 0
IsStill s t =
    (t.pending ≡ []) × (t.initial_fit ≡ false) × (t.observing ≡ false) × (t.calls ≡ s.calls)

-- ===== src/Drainer.antt =====
-- internal/shutdown/drainer.go: the drainer. Its calls take no lock, so an event is one atomic action
-- of a call, and a sequence of events is an interleaving of calls. The count and the wait group
-- change together, and are one number here; an action that cannot happen now gives `none`.
pub mod Races
mod Tests
use codeai.Base.{
  ℕ, zero, suc, Bool, true, false, List, [], ◌∷◌, Option, none, some, if◌then◌else◌, ◌==◌,
}

-- `entering` is the number of calls of `Add` that saw the channel open and have not counted yet, and
-- `waited` tells that a `Wait` returned nil.
pub record Drainer : Type 0 where
  pub count : ℕ
  pub done : Bool
  pub entering : ℕ
  pub waited : Bool

unfoldable pub new_drainer : Drainer
new_drainer = record { count = 0; done = false; entering = 0; waited = false }

-- `looks` and `counts` are the two actions of an `Add` that is let in, and `refuses` is one that is
-- not. `waits` is a `Wait` that finds no operation in flight.
pub data Event : Type 0 where
  looks refuses counts finishes starts_drain waits : Event

unfoldable pub step : Drainer → Event → Option Drainer
step d looks = if d.done then none else some (record d { entering = suc d.entering })
step d refuses = if d.done then some d else none
step d counts = elim d.entering [
  | zero ↦ none
  | suc n ↦ some (record d { entering = n; count = suc d.count })
]
step d finishes = elim d.count [ zero ↦ none | suc n ↦ some (record d { count = n }) ]
step d starts_drain = some (record d { done = true })
step d waits = if d.count == 0 then some (record d { waited = true }) else none

-- A sequence of events, if all of them can happen.
unfoldable pub run : Drainer → List Event → Option Drainer
run d [] = some d
run d (e ∷ es) = elim (step d e) [ none ↦ none | some d' ↦ run d' es ]

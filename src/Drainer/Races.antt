-- ===== src/Drainer/Races.antt =====
-- Interleavings of the calls of a drainer of internal/shutdown/drainer.go.
use codeai.Base.{
  ℕ, zero, suc, ◌≡◌, ◌≤◌, refl, ap, Bool, true, false, List, [], ◌∷◌, Option, none, some, arith,
  if◌then◌else◌, ◌==◌,
}
use codeai.Drainer.{
  Drainer, Event, looks, refuses, counts, finishes, starts_drain, waits, step, run,
}

-- Draining, with no call of `Add` half way.
pub record IsQuiet (d : Drainer) : Type 0 where
  pub draining : d.done ≡ true
  pub none_entering : d.entering ≡ 0

-- Quiet again, with no more operations than before, where the events can happen.
abbrev pub Shrinks : Drainer → Option Drainer → Type 0
Shrinks d none = Unit
Shrinks d (some d') = IsQuiet d' × (d'.count ≤ d.count)

step-Shrinks : (d : Drainer) (e : Event) → IsQuiet d → Shrinks d (step d e)
unfolding step
step-Shrinks d looks q = rw (q.draining) tt
step-Shrinks d refuses q = go d.done
  where
    go : (b : Bool) → Shrinks d (if b then some d else none)
    go true = (q, omega arith)
    go false = tt
step-Shrinks d counts q = rw (q.none_entering) tt
step-Shrinks d finishes q = go d.count refl
  where
    go : (n : ℕ) → d.count ≡ n → Shrinks d (step d finishes)
    go zero e = rw (e, step) tt
    go (suc n) e =
        rw (e, step)
          (record { draining = q.draining; none_entering = q.none_entering }, omega (arith, e))
step-Shrinks d starts_drain q =
    (record { draining = refl; none_entering = q.none_entering }, omega arith)
step-Shrinks d waits q = go (d.count == 0)
  where
    go : (b : Bool) → Shrinks d (if b then some (record d { waited = true }) else none)
    go true = (record { draining = q.draining; none_entering = q.none_entering }, omega arith)
    go false = tt

-- Once a drainer drains and no Add is half way, any interleaving of calls that can happen leaves it
-- so, and the number of operations in flight does not grow.
pub run-Shrinks : (d : Drainer) (es : List Event) → IsQuiet d → Shrinks d (run d es)
unfolding run
run-Shrinks d [] q = (q, omega arith)
run-Shrinks d (e ∷ es) q = go (step d e) (step-Shrinks d e q) (λ d' r. run-Shrinks d' es r)
  where
    then_le :
        (d' : Drainer) → d'.count ≤ d.count → (o : Option Drainer) → Shrinks d' o → Shrinks d o
    then_le d' h none s = tt
    then_le d' h (some d'') s = (s.0, omega (arith, h, s.1))

    go :
        (o : Option Drainer)
        → Shrinks d o
        → ((d' : Drainer) → IsQuiet d' → Shrinks d' (run d' es))
        → Shrinks d (elim o [ none ↦ none | some d' ↦ run d' es ])
    go none s ih = tt
    go (some d') s ih = then_le d' s.1 (run d' es) (ih d' s.0)

-- From any drainer that does not drain and has nothing in flight, this can happen: an Add sees the
-- channel open, the drain starts, a Wait returns nil, and then the Add counts its operation, which
-- is in flight after the wait.
pub late_entry :
    (d : Drainer)
    → d.done ≡ false
    → d.count ≡ 0
    → (d' : Drainer) × (run d (looks ∷ starts_drain ∷ waits ∷ counts ∷ []) ≡ some d')
      × (d'.waited ≡ true)
      × (d'.count ≡ 1)
unfolding run step
late_entry d undrained idle = (
  record d { done = true; waited = true; count = suc d.count },
  rw (undrained, idle) refl,
  refl,
  ap suc idle,
)

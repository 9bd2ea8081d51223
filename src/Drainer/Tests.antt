-- ===== src/Drainer/Tests.antt =====
-- The drainer of internal/shutdown/drainer.go on concrete interleavings.
use codeai.Base.{◌≡◌, refl, true, false, [], ◌∷◌, some}
use codeai.Drainer.{
  Drainer, looks, refuses, counts, finishes, starts_drain, waits, new_drainer, step, run,
}
use codeai.Drainer.Races.{late_entry}

abbrev draining : Drainer
draining = record { count = 2; done = true; entering = 0; waited = false }

finishes_both :
    run draining (finishes ∷ refuses ∷ finishes ∷ waits ∷ [])
    ≡ some (record draining { count = 0; waited = true })
unfolding run step
finishes_both = refl

late_entry_example :
    (d : Drainer) × (run new_drainer (looks ∷ starts_drain ∷ waits ∷ counts ∷ []) ≡ some d)
    × (d.waited ≡ true)
    × (d.count ≡ 1)
unfolding new_drainer
late_entry_example = late_entry new_drainer refl refl

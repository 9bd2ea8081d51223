-- ===== src/Health/Tests.antt =====
-- The health registry of internal/health/registry.go at concrete checks.
use codeai.Base.{In, ◌≡◌, refl, ◌↔◌, inl, inr, false, [], ◌∷◌}
use codeai.Health.{
  degraded, unhealthy, critical, warning, Checker, Registry, new_registry, register, started,
  run_checks, enter_all, enter, merge,
}
use codeai.Health.Overall.{Fails, run_checks-unhealthy_iff}

abbrev database : Checker
database = record { name = "database"; severity = critical; status = unhealthy }

abbrev memory : Checker
memory = record { name = "memory"; severity = warning; status = unhealthy }

abbrev registry : Registry
registry = register (register new_registry database) memory

degrades : (run_checks (memory ∷ [])).overall ≡ degraded
unfolding run_checks enter_all enter merge
degrades = refl

-- Both checks of a full pass, in the other order.
swapped : (c : Checker) → In c (memory ∷ database ∷ []) ↔ In c (started false registry.checkers)
unfolding register new_registry started
swapped c = (
  (λ i. elim i [ inl m ↦ inr (inl m) | inr (inl d) ↦ inl d | inr (inr never) ↦ absurd never ]),
  (λ i. elim i [ inl d ↦ inr (inl d) | inr (inl m) ↦ inl m | inr (inr never) ↦ absurd never ]),
)

run_checks-unhealthy_iff_example :
    ((run_checks (memory ∷ database ∷ [])).overall ≡ unhealthy)
    ↔ ((c : Checker) × In c registry.checkers × Fails c)
run_checks-unhealthy_iff_example =
    run_checks-unhealthy_iff registry false (memory ∷ database ∷ []) swapped

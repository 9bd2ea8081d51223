-- ===== src/Health/Overall.antt =====
-- The overall status of internal/health/registry.go, in any order in which the checks end.
use codeai.Base.{
  In, ◌≡◌, refl, sym, ◌↔◌, ◌⊎◌, inl, inr, Bool, true, false, not, ◌&&◌, List, [], ◌∷◌, Bool-cases,
  arith, subst,
}
use codeai.Health.{
  Status, healthy, degraded, unhealthy, Severity, critical, warning, Checker, Response, Registry,
  is_critical, started, merge, enter, enter_all, run_checks,
}

-- A critical check that failed.
abbrev pub Fails : Checker → Type 0
Fails c = (c.severity ≡ critical) × (c.status ≡ unhealthy)

abbrev pub IsHealthy : Checker → Type 0
IsHealthy c = c.status ≡ healthy

merge-unhealthy_iff :
    (start : Status) (severity : Severity) (status : Status)
    → ((merge start severity status ≡ unhealthy)
        ↔ ((start ≡ unhealthy) ⊎ ((severity ≡ critical) × (status ≡ unhealthy))))
unfolding merge
merge-unhealthy_iff start critical unhealthy = ((λ e. inr (refl, refl)), (λ h. refl))
merge-unhealthy_iff start warning unhealthy = ground arith
merge-unhealthy_iff start severity degraded = ground arith
merge-unhealthy_iff start severity healthy = ground arith

merge-healthy_iff :
    (start : Status) (severity : Severity) (status : Status)
    → ((merge start severity status ≡ healthy) ↔ ((start ≡ healthy) × (status ≡ healthy)))
unfolding merge
merge-healthy_iff start critical unhealthy = ground arith
merge-healthy_iff start warning unhealthy = ground arith
merge-healthy_iff start severity degraded = ground arith
merge-healthy_iff start severity healthy = ground arith

-- The overall status after more outcomes, by what is among them.
record FromOutcomes (start : Response) (ended : List Checker) (r : Response) : Type 0 where
  unhealthy_iff :
      (r.overall ≡ unhealthy)
      ↔ ((start.overall ≡ unhealthy) ⊎ ((c : Checker) × In c ended × Fails c))
  healthy_iff :
      (r.overall ≡ healthy)
      ↔ ((start.overall ≡ healthy) × ((c : Checker) → In c ended → IsHealthy c))

enter_all-FromOutcomes :
    (start : Response) (ended : List Checker) → FromOutcomes start ended (enter_all start ended)
unfolding enter_all enter
enter_all-FromOutcomes start [] = record {
  unhealthy_iff = ((λ e. inl e), (λ h. elim h [ inl e ↦ e | inr (c, i, f) ↦ absurd i ]));
  healthy_iff = ((λ e. (e, (λ c i. absurd i))), (λ h. h.0));
}
enter_all-FromOutcomes start (c ∷ cs) =
    let ih = enter_all-FromOutcomes (enter start c) cs in
    let bad = merge-unhealthy_iff start.overall c.severity c.status in
    let good = merge-healthy_iff start.overall c.severity c.status in
    record {
      unhealthy_iff = (
        (λ e. elim (ih.unhealthy_iff.0 e) [
          | inl now ↦ elim (bad.0 now) [ inl before ↦ inl before | inr f ↦ inr (c, inl refl, f) ]
          | inr (d, i, f) ↦ inr (d, inr i, f)
        ]),
        (λ h. ih.unhealthy_iff.1 (elim h [
          | inl before ↦ inl (bad.1 (inl before))
          | inr (d, inl same, f) ↦ inl (bad.1 (inr (subst Fails same f)))
          | inr (d, inr i, f) ↦ inr (d, i, f)
        ])),
      );
      healthy_iff = (
        (λ e.
            let (now, rest) = ih.healthy_iff.0 e in
            let (before, this) = good.0 now in
            (
              before,
              (λ d i. elim i [
                | inl same ↦ subst IsHealthy (sym same) this
                | inr later ↦ rest d later
              ]),
            )),
        (λ h. ih.healthy_iff.1 (good.1 (h.0, h.1 c (inl refl)), (λ d i. h.1 d (inr i)))),
      );
    }

-- How the checks that ended decide the status of the response.
pub record IsOverall (ended : List Checker) (r : Response) : Type 0 where
  pub unhealthy_iff : (r.overall ≡ unhealthy) ↔ ((c : Checker) × In c ended × Fails c)
  pub healthy_iff : (r.overall ≡ healthy) ↔ ((c : Checker) → In c ended → IsHealthy c)

-- Of the checks that ended, in whatever order, the response is unhealthy exactly if a critical one
-- gave unhealthy, and healthy exactly if all of them gave healthy.
pub run_checks-IsOverall : (ended : List Checker) → IsOverall ended (run_checks ended)
unfolding run_checks
run_checks-IsOverall ended =
    let all = enter_all-FromOutcomes (record { overall = healthy; checks = [] }) ended in
    record {
      unhealthy_iff = (
        (λ e. elim (all.unhealthy_iff.0 e) [ inl h ↦ cc h | inr f ↦ f ]),
        (λ f. all.unhealthy_iff.1 (inr f)),
      );
      healthy_iff = ((λ e. (all.healthy_iff.0 e).1), (λ h. all.healthy_iff.1 (refl, h)));
    }

-- A critical checker is started if and only if it is registered.
started-In :
    (critical_only : Bool) (c : Checker) (cs : List Checker)
    → c.severity ≡ critical
    → (In c (started critical_only cs) ↔ In c cs)
unfolding started
started-In critical_only c [] h = ((λ i. i), (λ i. i))
started-In critical_only c (d ∷ ds) h =
    let ih = started-In critical_only c ds h in
    elim (Bool-cases (critical_only && not (is_critical d.severity))) [
      | inl skipped ↦ rw skipped (
        (λ i. inr (ih.0 i)),
        (λ i. elim i [
          | inl same ↦ absurd (not_skipped critical_only (h' same) skipped)
          | inr later ↦ ih.1 later
        ]),
      )
      | inr kept ↦ rw kept (
        (λ i. elim i [ inl same ↦ inl same | inr later ↦ inr (ih.0 later) ]),
        (λ i. elim i [ inl same ↦ inl same | inr later ↦ inr (ih.1 later) ]),
      )
    ]
  where
    h' : c ≡ d → d.severity ≡ critical
    h' same = subst (λ (x : Checker). x.severity ≡ critical) same h

    not_skipped : (b : Bool) → d.severity ≡ critical → ¬ (b && not (is_critical d.severity) ≡ true)
    not_skipped true e s = cc (rw e at s)
    not_skipped false e s = cc s

-- Whether all checks run or only the critical ones, and in whatever order they end, the response of
-- a registry is unhealthy exactly if one of its critical checkers gives unhealthy.
pub run_checks-unhealthy_iff :
    (r : Registry) (critical_only : Bool) (ended : List Checker)
    → ((c : Checker) → In c ended ↔ In c (started critical_only r.checkers))
    → ((run_checks ended).overall ≡ unhealthy) ↔ ((c : Checker) × In c r.checkers × Fails c)
run_checks-unhealthy_iff r critical_only ended same =
    let overall = (run_checks-IsOverall ended).unhealthy_iff in
    (
      (λ e.
          let (c, i, f) = overall.0 e in
          (c, (started-In critical_only c r.checkers f.0).0 ((same c).0 i), f)),
      (λ (c, i, f). overall.1 (c, (same c).1 ((started-In critical_only c r.checkers f.0).1 i), f)),
    )

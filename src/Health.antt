-- ===== src/Health.antt =====
-- internal/health/registry.go: the registry of health checks. The checks run concurrently and enter
-- their results under a mutex, so a list of outcomes is in the order in which they took it. What a
-- check finds is the checker's own; times and the version are left out.
pub mod Overall
mod Tests
use codeai.Base.{
  String, Bool, true, false, not, ◌&&◌, List, [], ◌∷◌, ◌++◌, Option, none, some, if◌then◌else◌,
}
use codeai.Base.Dict.{Dict, insert}

pub data Status : Type 0 where
  healthy degraded unhealthy : Status

pub data Severity : Type 0 where
  critical warning : Severity

-- A checker with the status that its check gives.
pub record Checker : Type 0 where
  pub name : String
  pub severity : Severity
  pub status : Status

pub record Registry : Type 0 where
  pub checkers : List Checker

pub record Response : Type 0 where
  pub overall : Status
  pub checks : Dict Status

unfoldable pub new_registry : Registry
new_registry = record { checkers = [] }

unfoldable pub register : Registry → Checker → Registry
register r c = record { checkers = r.checkers ++ c ∷ [] }

abbrev pub is_critical : Severity → Bool
is_critical critical = true
is_critical warning = false

-- The checkers that the loop does not skip.
unfoldable pub started : Bool → List Checker → List Checker
started critical_only [] = []
started critical_only (c ∷ cs) =
    let rest = started critical_only cs in
    if critical_only && not (is_critical c.severity) then rest else c ∷ rest

-- The update of the overall status by one result.
unfoldable pub merge : Status → Severity → Status → Status
merge overall critical unhealthy = unhealthy
merge healthy warning unhealthy = degraded
merge degraded warning unhealthy = degraded
merge unhealthy warning unhealthy = unhealthy
merge healthy severity degraded = degraded
merge degraded severity degraded = degraded
merge unhealthy severity degraded = unhealthy
merge overall severity healthy = overall

unfoldable pub enter : Response → Checker → Response
unfolding merge
enter r c = record {
  overall = merge r.overall c.severity c.status;
  checks = insert c.name c.status r.checks;
}

unfoldable pub enter_all : Response → List Checker → Response
enter_all r [] = r
enter_all r (c ∷ cs) = enter_all (enter r c) cs

-- `runChecks`, when the checks that were started end in the order of a list.
unfoldable pub run_checks : List Checker → Response
run_checks ended = enter_all (record { overall = healthy; checks = [] }) ended

unfoldable pub liveness : Registry → Status
liveness r = healthy

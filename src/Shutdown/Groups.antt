-- ===== src/Shutdown/Groups.antt =====
-- The groups of hooks in internal/shutdown/manager.go, and what a shutdown runs.
use mathlib.Core.List.{Perm}
use codeai.Base.{
  ℕ, ◌≡◌, refl, ap, subst, sym, ◌∙◌, true, false, List, [], ◌∷◌, ◌++◌, map, All, All-append, Option,
  none, some, if◌then◌else◌, Bool-cases, inl, inr, append_assoc, length,
}
use codeai.Query.Consumed.{if_elim}
use codeai.Query.Ast.{ℤ}
use codeai.Shutdown.{
  Hook, greater, same, group_rest, group_by_priority, sort_hooks, Run, ShutdownError,
  with_timeout_and_panic_recovery, failed_hook, hook_errors, execute_groups, execute_hooks, Manager,
  shutdown, state_shutdown, HookError,
}
use codeai.Shutdown.Reports.{Adds, hook_errors-Adds}
use codeai.Shutdown.Order.{
  AtLeast, greater_of_AtLeast, greater_of_same, same-eq, IsSorted, sort_hooks-IsSorted,
  sort_hooks-perm, All-map,
}

abbrev pub all_hooks : List (List Hook) → List Hook
all_hooks [] = []
all_hooks (g ∷ gs) = g ++ all_hooks gs

-- Groups of one priority each, greater than all priorities behind.
abbrev pub IsGrouped : List (List Hook) → Type 0
IsGrouped [] = Unit
IsGrouped (g ∷ gs) =
    ((p : ℤ) × All (λ h. h.priority ≡ p) g × All (λ k. greater p k.priority ≡ true) (all_hooks gs))
    × IsGrouped gs

group_rest-all :
    (group : List Hook) (p : ℤ) (hs : List Hook) → all_hooks (group_rest group p hs) ≡ group ++ hs
unfolding group_rest
group_rest-all group p [] = refl
group_rest-all group p (h ∷ hs) =
    if_elim (λ gs. all_hooks gs ≡ group ++ h ∷ hs) (same h.priority p)
      (λ e. group_rest-all (group ++ h ∷ []) p hs ∙ append_assoc group (h ∷ []) hs)
      (λ e. ap (λ l. group ++ l) (group_rest-all (h ∷ []) h.priority hs))

group_rest-IsGrouped :
    (group : List Hook) (p : ℤ) (hs : List Hook)
    → All (λ h. h.priority ≡ p) group
    → All (λ k. AtLeast p k.priority) hs
    → IsSorted hs
    → IsGrouped (group_rest group p hs)
unfolding group_rest
group_rest-IsGrouped group p [] a l s = ((p, a, tt), tt)
group_rest-IsGrouped group p (h ∷ hs) a l s =
    if_elim IsGrouped (same h.priority p)
      (λ e.
        group_rest-IsGrouped (group ++ h ∷ []) p hs
          (All-append (λ k. k.priority ≡ p) group (h ∷ []) a (same-eq h.priority p e, tt)) l.1 s.1)
      (λ e.
        let below = greater_of_same p h.priority l.0 e in
        let behind =
          subst (All (λ k. greater p k.priority ≡ true))
            (sym (group_rest-all (h ∷ []) h.priority hs))
            (
              below,
              All-map (λ k least. greater_of_AtLeast p h.priority k.priority below least) hs s.0,
            ) in
        ((p, a, behind), group_rest-IsGrouped (h ∷ []) h.priority hs (refl, tt) s.0 s.1))

group_by_priority-all : (hs : List Hook) → all_hooks (group_by_priority hs) ≡ hs
unfolding group_by_priority
group_by_priority-all [] = refl
group_by_priority-all (h ∷ hs) = group_rest-all (h ∷ []) h.priority hs

group_by_priority-IsGrouped : (hs : List Hook) → IsSorted hs → IsGrouped (group_by_priority hs)
unfolding group_by_priority
group_by_priority-IsGrouped [] s = tt
group_by_priority-IsGrouped (h ∷ hs) s =
    group_rest-IsGrouped (h ∷ []) h.priority hs (refl, tt) s.0 s.1

-- The groups that a shutdown of `m` goes through are these hooks, grouped.
sorted_groups :
    (hs : List Hook)
    → let gs = group_by_priority (sort_hooks hs) in Perm (all_hooks gs) hs × IsGrouped gs
sorted_groups hs = (
  subst (λ l. Perm l hs) (sym (group_by_priority-all (sort_hooks hs))) (sort_hooks-perm hs),
  group_by_priority-IsGrouped (sort_hooks hs) (sort_hooks-IsSorted hs),
)

module _ (run : Run) where
  -- The groups that are skipped.
  unfoldable skipped : List (List Hook) → List (List Hook)
  skipped [] = []
  skipped (g ∷ gs) = let more = skipped gs in if run.expired (length gs) then gs else more

  ran-skipped : (gs : List (List Hook)) → (execute_groups run gs).0 ++ skipped gs ≡ gs
  unfolding execute_groups skipped
  ran-skipped [] = refl
  ran-skipped (g ∷ gs) = elim (Bool-cases (run.expired (length gs))) [
    | inl e ↦ rw e
    | inr e ↦ rw e (ap (◌∷◌ g) (ran-skipped gs))
  ]

  failed_hook-append :
      (h : Hook) (e : Option HookError) (errors more : List ShutdownError)
      → failed_hook h e (errors ++ more) ≡ failed_hook h e errors ++ more
  failed_hook-append h none errors more = refl
  failed_hook-append h (some e) errors more = refl

  hook_errors-append :
      (hs ks : List Hook) → hook_errors run (hs ++ ks) ≡ hook_errors run hs ++ hook_errors run ks
  unfolding hook_errors
  hook_errors-append [] ks = refl
  hook_errors-append (h ∷ hs) ks =
      let out = with_timeout_and_panic_recovery h.name (run.selected h) in
      ap (failed_hook h out) (hook_errors-append hs ks)
      ∙ failed_hook-append h out (hook_errors run hs) (hook_errors run ks)

  -- In time, all groups run.
  execute_groups_complete :
      (gs : List (List Hook))
      → ((n : ℕ) → run.expired n ≡ false)
      → execute_groups run gs ≡ (gs, hook_errors run (all_hooks (map run.ended gs)))
  unfolding execute_groups hook_errors
  execute_groups_complete [] in_time = refl
  execute_groups_complete (g ∷ gs) in_time =
      let behind = execute_groups_complete gs in_time in
      rw (in_time (length gs)) (
        ap (λ r. (g ∷ r.0, hook_errors run (run.ended g) ++ r.1)) behind
        ∙ ap (λ errors. (g ∷ gs, errors))
            (sym (hook_errors-append (run.ended g) (all_hooks (map run.ended gs)))))

  -- The first Shutdown of a manager, whatever the hooks and the context do, runs hooks in groups,
  -- so that these and groups that it skips, one after another, have each registered hook once, each
  -- group has hooks of one priority, and that is greater than all priorities in the groups behind.
  -- In the end the state is that of shutdown, and the channel is closed.
  pub shutdown_orderly :
      (m : Manager)
      → m.shutdown_once ≡ false
      → let (after, ran) = shutdown run m in
        (rest : List (List Hook)) × Perm (all_hooks (ran ++ rest)) m.hooks
        × IsGrouped (ran ++ rest)
        × (after.state ≡ state_shutdown)
        × (after.is_done ≡ true)
  unfolding shutdown execute_hooks
  shutdown_orderly m first =
      let gs = group_by_priority (sort_hooks m.hooks) in
      let all_groups = sorted_groups m.hooks in
      rw first (
        skipped gs,
        subst (λ l. Perm (all_hooks l) m.hooks) (sym (ran-skipped gs)) all_groups.0,
        subst IsGrouped (sym (ran-skipped gs)) all_groups.1,
        refl,
        refl,
      )

  -- If the context of the whole is not done behind any group, then the first Shutdown runs each
  -- registered hook once, the errors that it adds are, under the name of the hook, the error that a
  -- hook returns, its panic, that it runs out of time, or that its context is cancelled, and none
  -- for a hook that returns nil, group by group and within a group in the order in which the hooks
  -- end, and another Shutdown behind it changes nothing and runs none.
  pub shutdown_complete :
      (m : Manager)
      → m.shutdown_once ≡ false
      → ((n : ℕ) → run.expired n ≡ false)
      → let (after, ran) = shutdown run m in
        (added : List ShutdownError) × Perm (all_hooks ran) m.hooks
        × Adds run (all_hooks (map run.ended ran)) added
        × (after.errors ≡ m.errors ++ added)
        × ((again : Run) → shutdown again after ≡ (after, []))
  unfolding shutdown execute_hooks
  shutdown_complete m first in_time =
      let gs = group_by_priority (sort_hooks m.hooks) in
      let whole = execute_groups_complete gs in_time in
      let added = hook_errors run (all_hooks (map run.ended gs)) in
      rw first (
        rw whole (
          added,
          (sorted_groups m.hooks).0,
          hook_errors-Adds run (all_hooks (map run.ended gs)),
          refl,
          λ again. refl,
        ))

-- ===== src/Shutdown/Tests.antt =====
-- Runs of internal/shutdown on a manager with three hooks.
use mathlib.Core.List.{Perm}
use codeai.Base.{◌≡◌, refl, true, false, List, [], ◌++◌, map, none, some}
use codeai.Query.Ast.{pos}
use codeai.Shutdown.{
  Hook, Manager, Run, Config, returned, new_manager, register, register_hook, shutdown,
  state_shutdown,
}
use codeai.Shutdown.{ShutdownError}
use codeai.Shutdown.Reports.{Adds}
use codeai.Shutdown.Groups.{all_hooks, IsGrouped, shutdown_orderly, shutdown_complete}

abbrev config : Config
config = record {
  overall_timeout = pos 0;
  per_hook_timeout = pos 0;
  drain_timeout = pos 0;
  slow_hook_threshold = pos 0;
}

abbrev manager : Manager
manager =
    register "metrics" (pos 50) 1
      (register "server" (pos 90) 2 (register "cache" (pos 50) 3 (new_manager config)))

abbrev in_time : Run
in_time = record { selected = λ h. returned (some h.fn); ended = λ hs. hs; expired = λ n. false }

abbrev late : Run
late = record { selected = λ h. returned none; ended = λ hs. hs; expired = λ n. true }

first_time : manager.shutdown_once ≡ false
unfolding new_manager register register_hook
first_time = refl

shutdown_orderly_example :
    let (after, ran) = shutdown late manager in
    (rest : List (List Hook)) × Perm (all_hooks (ran ++ rest)) manager.hooks
    × IsGrouped (ran ++ rest)
    × (after.state ≡ state_shutdown)
    × (after.is_done ≡ true)
shutdown_orderly_example = shutdown_orderly late manager first_time

shutdown_complete_example :
    let (after, ran) = shutdown in_time manager in
    (added : List ShutdownError) × Perm (all_hooks ran) manager.hooks
    × Adds in_time (all_hooks (map in_time.ended ran)) added
    × (after.errors ≡ manager.errors ++ added)
    × ((again : Run) → shutdown again after ≡ (after, []))
shutdown_complete_example = shutdown_complete in_time manager first_time (λ n. refl)

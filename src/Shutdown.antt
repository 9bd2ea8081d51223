-- ===== src/Shutdown.antt =====
-- internal/shutdown/manager.go, hook.go, config.go and timeout.go: the manager. The hooks of one priority run at
-- once, so what they give, the order in which they end and the readings of the context are arguments.
pub mod Order
pub mod Reports
pub mod Groups
mod Tests
use codeai.Base.{
  ℕ, zero, suc, ◌*◌, ◌^◌, Bool, true, false, List, [], ◌∷◌, ◌++◌, Option, none, some, String, leb,
  ltb, ◌==◌, length, if◌then◌else◌,
}
use codeai.Query.Ast.{ℤ, pos, negsuc}

pub data State : Type 0 where
  state_running state_shutting_down state_shutdown : State

abbrev pub to_string : State → String
to_string state_running = "running"
to_string state_shutting_down = "shutting_down"
to_string state_shutdown = "shutdown"

abbrev pub second : ℕ
second = 10 ^ 9

pub record Config : Type 0 where
  pub overall_timeout : ℤ
  pub per_hook_timeout : ℤ
  pub drain_timeout : ℤ
  pub slow_hook_threshold : ℤ

abbrev pub default_config : Config
default_config = record {
  overall_timeout = pos (30 * second);
  per_hook_timeout = pos (10 * second);
  drain_timeout = pos (10 * second);
  slow_hook_threshold = pos (5 * second);
}

abbrev pub or_default : ℤ → ℕ → ℤ
or_default (negsuc n) seconds = pos (seconds * second)
or_default (pos n) seconds = if n == 0 then pos (seconds * second) else pos n

unfoldable pub validate : Config → Config
validate c = record {
  overall_timeout = or_default c.overall_timeout 30;
  per_hook_timeout = or_default c.per_hook_timeout 10;
  drain_timeout = or_default c.drain_timeout 10;
  slow_hook_threshold = or_default c.slow_hook_threshold 5;
}

-- A hook, whose function is named by a number.
pub record Hook : Type 0 where
  pub name : String
  pub priority : ℤ
  pub fn : ℕ

-- Why a context is done.
pub data ContextError : Type 0 where
  deadline_exceeded canceled : ContextError

pub data HookError : Type 0 where
  returned_error : ℕ → HookError
  panic_error timeout_error : String → HookError
  context_error : ContextError → HookError

-- What the select of a hook gets first: the end of its function, or of the context.
pub data Selected : Type 0 where
  returned : Option ℕ → Selected
  panicked : Selected
  done : ContextError → Selected

abbrev pub returned_of : Option ℕ → Option HookError
returned_of none = none
returned_of (some e) = some (returned_error e)

unfoldable pub with_timeout_and_panic_recovery : String → Selected → Option HookError
with_timeout_and_panic_recovery name (returned e) = returned_of e
with_timeout_and_panic_recovery name panicked = some (panic_error name)
with_timeout_and_panic_recovery name (done deadline_exceeded) = some (timeout_error name)
with_timeout_and_panic_recovery name (done canceled) = some (context_error canceled)

pub data ShutdownError : Type 0 where
  hook_failed : String → HookError → ShutdownError
  overall_timeout_exceeded : ShutdownError

pub record Manager : Type 0 where
  pub config : Config
  pub hooks : List Hook
  pub state : State
  pub shutdown_once : Bool
  pub is_done : Bool
  pub errors : List ShutdownError

unfoldable pub new_manager : Config → Manager
new_manager c = record {
  config = validate c;
  hooks = [];
  state = state_running;
  shutdown_once = false;
  is_done = false;
  errors = [];
}

unfoldable pub register_hook : Hook → Manager → Manager
register_hook h m = record m { hooks = m.hooks ++ h ∷ [] }

unfoldable pub register : String → ℤ → ℕ → Manager → Manager
register name priority fn m = register_hook (record { name = name; priority = priority; fn = fn }) m

-- `Clear` of the registry.
abbrev pub clear : Manager → Manager
clear m = record m { hooks = [] }

abbrev pub hook_count : Manager → ℕ
hook_count m = length m.hooks

-- `a > b`
unfoldable pub greater : ℤ → ℤ → Bool
greater (pos a) (pos b) = ltb b a
greater (pos a) (negsuc b) = true
greater (negsuc a) (pos b) = false
greater (negsuc a) (negsuc b) = ltb a b

abbrev pub same : ℤ → ℤ → Bool
same (pos a) (pos b) = a == b
same (negsuc a) (negsuc b) = a == b
same _ _ = false

-- `sort.Slice` by priority. It may leave hooks of one priority in any order; here it is that of `hooks`.
unfoldable pub insert_hook : Hook → List Hook → List Hook
insert_hook h [] = h ∷ []
insert_hook h (k ∷ ks) =
    let further = k ∷ insert_hook h ks in
    if greater k.priority h.priority then further else h ∷ k ∷ ks

unfoldable pub sort_hooks : List Hook → List Hook
sort_hooks [] = []
sort_hooks (h ∷ hs) = insert_hook h (sort_hooks hs)

-- The loop on the hooks behind a first one. `group` has the hooks of the current group.
unfoldable pub group_rest : List Hook → ℤ → List Hook → List (List Hook)
group_rest group priority [] = group ∷ []
group_rest group priority (h ∷ hs) =
    let within = group_rest (group ++ h ∷ []) priority hs in
    let behind = group ∷ group_rest (h ∷ []) h.priority hs in
    if same h.priority priority then within else behind

unfoldable pub group_by_priority : List Hook → List (List Hook)
group_by_priority [] = []
group_by_priority (h ∷ hs) = group_rest (h ∷ []) h.priority hs

-- What a run of the hooks meets: what each select gets, the order in which the hooks of a group end, and
-- whether the context is done behind a group, with so many groups to come.
pub record Run : Type 0 where
  pub selected : Hook → Selected
  pub ended : List Hook → List Hook
  pub expired : ℕ → Bool

abbrev pub failed_hook : Hook → Option HookError → List ShutdownError → List ShutdownError
failed_hook h none errors = errors
failed_hook h (some e) errors = hook_failed h.name e ∷ errors

-- The errors that hooks add, in the order in which they end.
unfoldable pub hook_errors : Run → List Hook → List ShutdownError
hook_errors run [] = []
hook_errors run (h ∷ hs) =
    failed_hook h (with_timeout_and_panic_recovery h.name (run.selected h)) (hook_errors run hs)

-- The groups that ran, and the errors.
unfoldable pub execute_groups : Run → List (List Hook) → List (List Hook) × List ShutdownError
execute_groups run [] = ([], [])
execute_groups run (g ∷ gs) =
    let (ran, errors) = execute_groups run gs in
    let own = hook_errors run (run.ended g) in
    if run.expired (length gs)
    then (g ∷ [], own ++ overall_timeout_exceeded ∷ [])
    else (g ∷ ran, own ++ errors)

unfoldable pub execute_hooks : Run → Manager → List (List Hook) × List ShutdownError
execute_hooks run m = execute_groups run (group_by_priority (sort_hooks m.hooks))

-- Hooks run in the state of shutting down.
abbrev pub begin : Manager → Manager
begin m = record m { state = state_shutting_down; shutdown_once = true }

abbrev pub finish : Manager → List ShutdownError → Manager
finish m errors = record m { state = state_shutdown; is_done = true; errors = m.errors ++ errors }

-- The first call of `Shutdown` runs the hooks, and a later one changes nothing.
unfoldable pub shutdown : Run → Manager → Manager × List (List Hook)
shutdown run m =
    let (ran, errors) = execute_hooks run (begin m) in
    if m.shutdown_once then (m, []) else (finish (begin m) errors, ran)

abbrev pub is_shutting_down : Manager → Bool
is_shutting_down m = elim m.state [ state_shutting_down ↦ true | _ ↦ false ]

abbrev pub is_shutdown : Manager → Bool
is_shutdown m = elim m.state [ state_shutdown ↦ true | _ ↦ false ]

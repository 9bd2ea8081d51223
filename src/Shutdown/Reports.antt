-- ===== src/Shutdown/Reports.antt =====
-- What hooks of internal/shutdown report, by timeout.go and manager.go.
use codeai.Base.{String, ℕ, List, [], ◌∷◌, Option, none, some}
use codeai.Shutdown.{
  Hook, deadline_exceeded, canceled, HookError, returned_error, panic_error, timeout_error,
  context_error, Selected, returned, panicked, done, ShutdownError, hook_failed, Run, failed_hook,
  with_timeout_and_panic_recovery, hook_errors,
}

-- What one hook reports, by what its select gets: nothing, the error that it returned, its panic, that
-- it ran out of time, or that its context was cancelled.
pub data Reports : String → Selected → Option HookError → Type 0 where
  no_error : {name : String} → Reports name (returned none) none
  error : {name : String} {e : ℕ} → Reports name (returned (some e)) (some (returned_error e))
  panic : {name : String} → Reports name panicked (some (panic_error name))
  out_of_time : {name : String} → Reports name (done deadline_exceeded) (some (timeout_error name))
  cancellation : {name : String} → Reports name (done canceled) (some (context_error canceled))

hook-Reports :
    (name : String) (out : Selected) → Reports name out (with_timeout_and_panic_recovery name out)
unfolding with_timeout_and_panic_recovery
hook-Reports name (returned none) = no_error
hook-Reports name (returned (some e)) = error
hook-Reports name panicked = panic
hook-Reports name (done deadline_exceeded) = out_of_time
hook-Reports name (done canceled) = cancellation

module _ (run : Run) where
  -- Hooks that end in this order add these errors, each under the name of its hook.
  pub data Adds : List Hook → List ShutdownError → Type 0 where
    at_end : Adds [] []
    clean :
        {h : Hook} {hs : List Hook} {errors : List ShutdownError}
        → Reports h.name (run.selected h) none
        → Adds hs errors
        → Adds (h ∷ hs) errors
    reported :
        {h : Hook} {hs : List Hook} {e : HookError} {errors : List ShutdownError}
        → Reports h.name (run.selected h) (some e)
        → Adds hs errors
        → Adds (h ∷ hs) (hook_failed h.name e ∷ errors)

  pub hook_errors-Adds : (hs : List Hook) → Adds hs (hook_errors run hs)
  unfolding hook_errors
  hook_errors-Adds [] = at_end
  hook_errors-Adds (h ∷ hs) =
      go (with_timeout_and_panic_recovery h.name (run.selected h))
        (hook-Reports h.name (run.selected h)) (hook_errors-Adds hs)
    where
      go :
          (out : Option HookError)
          → Reports h.name (run.selected h) out
          → Adds hs (hook_errors run hs)
          → Adds (h ∷ hs) (failed_hook h out (hook_errors run hs))
      go none r rest = clean r rest
      go (some e) r rest = reported r rest

-- ===== src/WorkerController/Pausing.antt =====
-- core/test-worker/src/worker/worker-controller.ts: the state of a pause and the breakpoints.
use testring.Common.{◌++◌, Bool, true, false, ◌≡◌, refl, String, if◌then◌else◌, arith}
use testring.Breakpoints.{
  Breakpoint, absent, pending, broken, add_breakpoint, resolve_breakpoint, break_stack,
  is_breakpoint_active,
}
use testring.WorkerController.{
  threw, unsuccessful, Ending, Completion, flushed, execute_test, release_test_execution,
  on_breakpoints, evaluate_code, complete_execution_failed, complete_execution_successfully, skip,
  pending_field, test_settled, WorkerController, Command, ◌then◌, update_field, activate_pause_mode,
  set_run_till_next_execution_mode, release_pause_mode,
}
use testring.WorkerController.{passed, broken_stack, successful}
use testring.WorkerController.World.{
  World, Step, Reach, start, executes, settles, flushes, evaluates, releases, pauses, tills_next,
  resumes, here, next,
}

-- A breakpoint is waited at as long as the state says so; one that was broken stays.
abbrev pub agrees : Bool → Breakpoint → Bool
agrees true absent = false
agrees true pending = true
agrees true broken = true
agrees false absent = true
agrees false pending = false
agrees false broken = true

abbrev pub IsPaired : WorkerController → Type 0
IsPaired c =
    (agrees c.execution_state.paused c.breakpoints.before ≡ true)
    × (agrees c.execution_state.paused_til_next c.breakpoints.after ≡ true)

abbrev Keeps : Command → Type 0
Keeps f = (c : WorkerController) → IsPaired c → IsPaired (f c).1

then-Keeps : (f g : Command) → Keeps f → Keeps g → Keeps (f then g)
unfolding ◌then◌
then-Keeps f g keeps keeps' c h = keeps' (f c).1 (keeps c h)

if-Keeps : (b : Bool) (f g : Command) → Keeps f → Keeps g → Keeps (if b then f else g)
if-Keeps true f g keeps keeps' = keeps
if-Keeps false f g keeps keeps' = keeps'

activate_pause_mode-Keeps : Keeps activate_pause_mode
unfolding activate_pause_mode ◌then◌ update_field add_breakpoint
activate_pause_mode-Keeps c h = ground arith

release_pause_mode-Keeps : Keeps release_pause_mode
unfolding release_pause_mode ◌then◌ update_field resolve_breakpoint
release_pause_mode-Keeps c h = ground arith

set_run_till_next_execution_mode-Keeps : Keeps set_run_till_next_execution_mode
unfolding set_run_till_next_execution_mode ◌then◌ update_field resolve_breakpoint add_breakpoint
    is_breakpoint_active
set_run_till_next_execution_mode-Keeps c h = ground arith

break_stack-Keeps : Keeps (on_breakpoints break_stack)
unfolding break_stack
break_stack-Keeps c h = ground arith

set_pending-Keeps : (b : Bool) → Keeps (update_field pending_field b)
unfolding update_field
set_pending-Keeps b c h = ground arith

complete_execution_successfully-Keeps : Keeps complete_execution_successfully
unfolding complete_execution_successfully
complete_execution_successfully-Keeps = then-Keeps _ _ release_pause_mode-Keeps (λ c h. h)

complete_execution_failed-Keeps : (error : String) → Keeps (complete_execution_failed error)
unfolding complete_execution_failed
complete_execution_failed-Keeps error = then-Keeps _ _ release_pause_mode-Keeps (λ c h. h)

release_test_execution-Keeps : Keeps release_test_execution
unfolding release_test_execution
release_test_execution-Keeps c =
    if-Keeps c.execution_state.pending _ _
      (then-Keeps _ _ break_stack-Keeps complete_execution_successfully-Keeps)
      complete_execution_successfully-Keeps c

skip-Keeps : Keeps skip
skip-Keeps c h = h

execute_test-Keeps : (wait : Bool) → Keeps (execute_test wait)
unfolding execute_test
execute_test-Keeps wait =
    then-Keeps _ _ (λ c h. h)
      (then-Keeps _ _ (if-Keeps wait _ _ (λ c h. h) skip-Keeps)
        (then-Keeps _ _ (set_pending-Keeps true) (λ c h. h)))

test_settled-Keeps : (wait : Bool) (ending : Ending) → Keeps (test_settled wait ending)
unfolding test_settled
test_settled-Keeps wait passed =
    then-Keeps _ _ (set_pending-Keeps false)
      (if-Keeps wait _ _ skip-Keeps complete_execution_successfully-Keeps)
test_settled-Keeps wait broken_stack =
    if-Keeps wait _ _ skip-Keeps complete_execution_successfully-Keeps
test_settled-Keeps wait (threw error) =
    if-Keeps wait _ _ skip-Keeps (complete_execution_failed-Keeps error)

flushed-Keeps : (completion : Completion) → Keeps (flushed completion)
unfolding flushed
flushed-Keeps successful c h = h
flushed-Keeps (unsuccessful error) c h = h

evaluate_code-Keeps : (path content : String) → Keeps (evaluate_code path content)
unfolding evaluate_code
evaluate_code-Keeps path content =
    then-Keeps _ _ (set_pending-Keeps true) (then-Keeps _ _ (λ c h. h) (set_pending-Keeps false))

step-IsPaired : {w v : World} → Step w v → IsPaired w.controller → IsPaired v.controller
step-IsPaired {w} (executes wait) = execute_test-Keeps wait w.controller
step-IsPaired {w} (settles wait ending before behind at) =
    test_settled-Keeps wait ending (record w.controller { running = before ++ behind })
step-IsPaired {w} (flushes completion before behind at) =
    flushed-Keeps completion (record w.controller { flushing = before ++ behind })
step-IsPaired {w} (evaluates path content on) = evaluate_code-Keeps path content w.controller
step-IsPaired {w} (releases on) = release_test_execution-Keeps w.controller
step-IsPaired {w} (pauses on) = activate_pause_mode-Keeps w.controller
step-IsPaired {w} (tills_next on) = set_run_till_next_execution_mode-Keeps w.controller
step-IsPaired {w} (resumes on) = release_pause_mode-Keeps w.controller

-- Whatever messages a controller gets, and whatever its tests do: the breakpoint before an
-- instruction is there whenever the state says that the test is paused, the one after an instruction
-- whenever it says that the test runs to the next one, and a breakpoint that tests wait at is there
-- only then.
pub Reach-IsPaired : {w : World} → Reach start w → IsPaired w.controller
Reach-IsPaired here = (refl, refl)
Reach-IsPaired (next r s) = step-IsPaired s (Reach-IsPaired r)

-- ===== src/WorkerController/Tests.antt =====
-- core/test-worker/src/worker/worker-controller.ts: a test that is held, paused, broken off and
-- released.
use testring.Common.{◌+◌, true, none, [], ◌∷◌, ◌≡◌, refl}
use testring.Breakpoints.{add_breakpoint, resolve_breakpoint, break_stack}
use testring.WorkerController.{
  broken_stack, ◌then◌, update_field, execute_test, activate_pause_mode, release_test_execution,
  test_settled, complete_execution_successfully, release_pause_mode,
}
use testring.WorkerController.World.{
  reports_by_itself, World, Reach, start, after, executes, pauses, releases, settles, here, next,
}
use testring.WorkerController.Shown.{IsShown, Reach-IsShown}
use testring.WorkerController.Pausing.{IsPaired, Reach-IsPaired}
use testring.WorkerController.Reports.{IsReported, Reach-IsReported}
use testring.WorkerController.RunTest.{
  run_test_file, run_test_file_misses_end, started, finished, waits,
}

-- A test that waits for its release, and is paused.
abbrev held : World
held = record (after (execute_test true) start.controller start) {
  asked = start.asked + reports_by_itself true;
}

abbrev paused_world : World
paused_world = after activate_pause_mode held.controller held

-- It is released while it still runs, and throws.
abbrev released_world : World
released_world = record (after release_test_execution paused_world.controller paused_world) {
  asked = paused_world.asked + 1;
}

abbrev settled_world : World
settled_world =
    after (test_settled true broken_stack) (record released_world.controller { running = [] })
      released_world

paused_reached : Reach start paused_world
unfolding execute_test ◌then◌ update_field
paused_reached = next (next here (executes true)) (pauses refl)

settled_reached : Reach start settled_world
unfolding execute_test ◌then◌ update_field activate_pause_mode release_test_execution break_stack
    complete_execution_successfully release_pause_mode add_breakpoint resolve_breakpoint
settled_reached = next (next paused_reached (releases refl)) (settles true broken_stack [] [] refl)

still_pending : settled_world.controller.execution_state.pending ≡ true
unfolding execute_test ◌then◌ update_field activate_pause_mode release_test_execution break_stack
    complete_execution_successfully release_pause_mode test_settled add_breakpoint
    resolve_breakpoint
still_pending = refl

Reach-IsShown_example : IsShown settled_world
Reach-IsShown_example = Reach-IsShown settled_reached

Reach-IsPaired_example : IsPaired settled_world.controller
Reach-IsPaired_example = Reach-IsPaired settled_reached

Reach-IsReported_example : IsReported settled_world
Reach-IsReported_example = Reach-IsReported settled_reached

run_test_file_misses_end_example :
    (run_test_file (λ e. e) (started ∷ finished ∷ []) none []).result ≡ waits
run_test_file_misses_end_example =
    run_test_file_misses_end (λ e. e) (started ∷ finished ∷ []) [] refl refl

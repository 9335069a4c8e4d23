-- ===== src/WorkerController/World.antt =====
-- core/test-worker/src/worker/worker-controller.ts: the handlers of the messages to a controller, and
-- what it waits for, in any order.
use testring.Common.{ℕ, ◌+◌, Bool, true, false, String, List, [], ◌∷◌, ◌++◌, ◌≡◌}
use testring.WorkerController.{
  WorkerController, Event, Ending, Completion, create, Command, execute_test, test_settled, flushed,
  evaluate_code, release_test_execution, activate_pause_mode, set_run_till_next_execution_mode,
  release_pause_mode,
}

-- A controller, what it has sent, and how often it was asked for the report of a test.
pub record World : Type 0 where
  pub controller : WorkerController
  pub events : List Event
  pub asked : ℕ

abbrev pub start : World
start = record { controller = create; events = []; asked = 0 }

-- What a command makes of a world, from the controller `c`.
abbrev pub after : Command → WorkerController → World → World
after f c w = let (events, d) = f c in record w { controller = d; events = w.events ++ events }

-- A test without `waitForRelease` is to be reported.
abbrev pub reports_by_itself : Bool → ℕ
reports_by_itself false = 1
reports_by_itself true = 0

pub data Step (w : World) : World → Type 0 where
  executes :
      (wait_for_release : Bool)
      → Step w (record (after (execute_test wait_for_release) w.controller w) {
        asked = w.asked + reports_by_itself wait_for_release;
      })
  settles :
      (wait_for_release : Bool) (ending : Ending) (before behind : List Bool)
      → w.controller.running ≡ before ++ wait_for_release ∷ behind
      → Step w (
          after
            (test_settled wait_for_release ending)
            (record w.controller { running = before ++ behind })
            w)
  flushes :
      (completion : Completion) (before behind : List Completion)
      → w.controller.flushing ≡ before ++ completion ∷ behind
      → Step w (after (flushed completion) (record w.controller { flushing = before ++ behind }) w)
  evaluates :
      (path content : String)
      → w.controller.is_devtools_initialized ≡ true
      → Step w (after (evaluate_code path content) w.controller w)
  releases :
      w.controller.is_devtools_initialized ≡ true
      → Step w (record (after release_test_execution w.controller w) { asked = w.asked + 1 })
  pauses :
      w.controller.is_devtools_initialized ≡ true
      → Step w (after activate_pause_mode w.controller w)
  tills_next :
      w.controller.is_devtools_initialized ≡ true
      → Step w (after set_run_till_next_execution_mode w.controller w)
  resumes :
      w.controller.is_devtools_initialized ≡ true → Step w (after release_pause_mode w.controller w)

pub data Reach (w : World) : World → Type 0 where
  here : Reach w w
  next : {u v : World} → Reach w u → Step u v → Reach w v

-- ===== src/WorkerController.antt =====
-- core/test-worker/src/worker/worker-controller.ts, the class `WorkerController`. The breakpoints are
-- those of the process, which nothing else adds or resolves. A call that awaits the test, or the
-- callbacks after it, is an entry of the controller, and goes on when that has settled. That a
-- broadcast throws is left out.
pub mod World
pub mod Shown
pub mod Pausing
pub mod Reports
mod Pending
pub mod RunTest
mod Tests
use testring.Common.{
  if◌then◌else◌, ℕ, Bool, true, false, Option, none, some, String, List, [], ◌∷◌, ◌++◌, map,
}
use testring.Breakpoints.{
  AsyncBreakpoints, BreakpointsTypes, create as no_breakpoints, add_breakpoint, resolve_breakpoint,
  break_stack, is_breakpoint_active, before_instruction, after_instruction,
}
use testring.Breakpoints.{Event as BreakpointsEvent}

infixr 5 ◌then◌
-- `ITestControllerExecutionState`
pub record ExecutionState : Type 0 where
  pub paused : Bool
  pub paused_til_next : Bool
  pub pending : Bool

pub data StateField : Type 0 where
  paused_field paused_til_next_field pending_field : StateField

-- How a test ends: it passes, a breakpoint throws, or it throws another error.
pub data Ending : Type 0 where
  passed broken_stack : Ending
  threw : String → Ending

-- What goes on when the callbacks after a run have settled.
pub data Completion : Type 0 where
  successful : Completion
  unsuccessful : String → Completion

pub record WorkerController : Type 0 where
  pub execution_state : ExecutionState
  pub is_devtools_initialized : Bool
  pub breakpoints : AsyncBreakpoints
  -- `waitForRelease` of each call that awaits its test
  pub running : List Bool
  pub flushing : List Completion

abbrev pub create : WorkerController
create = record {
  execution_state = record { paused = false; paused_til_next = false; pending = false };
  is_devtools_initialized = false;
  breakpoints = no_breakpoints;
  running = [];
  flushing = [];
}

-- The messages that the controller sends, and what it asks of others.
pub data Event : Type 0 where
  register update_execution_state : ExecutionState → Event
  unregister : Option ExecutionState → Event
  execution_complete : Completion → Event
  breakpoint : BreakpointsEvent → Event
  flush_after_run_callbacks clear_cache : Event
  evaluate_script : String → String → Event

abbrev pub Command : Type 0
Command = WorkerController → List Event × WorkerController

abbrev pub skip : Command
skip c = ([], c)

pub ◌then◌ : Command → Command → Command
(f then g) c = let (events, d) = f c in let (events', e) = g d in (events ++ events', e)

abbrev pub tell : (ExecutionState → Event) → Command
tell event c = (event c.execution_state ∷ [], c)

abbrev pub field_of : StateField → ExecutionState → Bool
field_of paused_field s = s.paused
field_of paused_til_next_field s = s.paused_til_next
field_of pending_field s = s.pending

abbrev pub put_field : StateField → Bool → ExecutionState → ExecutionState
put_field paused_field b s = record s { paused = b }
put_field paused_til_next_field b s = record s { paused_til_next = b }
put_field pending_field b s = record s { pending = b }

abbrev pub same : Bool → Bool → Bool
same true b = b
same false true = false
same false false = true

pub update_field : StateField → Bool → Command
update_field field state c =
    if same (field_of field c.execution_state) state
    then ([], c)
    else let s = put_field field state c.execution_state in
      (update_execution_state s ∷ [], record c { execution_state = s })

-- An operation of the breakpoints.
abbrev pub on_breakpoints : (AsyncBreakpoints → List BreakpointsEvent × AsyncBreakpoints) → Command
on_breakpoints f c =
    let (events, b) = f c.breakpoints in (map breakpoint events, record c { breakpoints = b })

abbrev pub add : BreakpointsTypes → Command
add type = on_breakpoints (λ b. ([], add_breakpoint type b))

abbrev pub resolve : BreakpointsTypes → Command
resolve type = on_breakpoints (resolve_breakpoint type)

abbrev pub resolve_active : BreakpointsTypes → Command
resolve_active type c = if is_breakpoint_active type c.breakpoints then resolve type c else ([], c)

pub activate_pause_mode : Command
activate_pause_mode = update_field paused_field true then add before_instruction

pub set_run_till_next_execution_mode : Command
set_run_till_next_execution_mode =
    update_field paused_field false
    then resolve_active before_instruction
    then update_field paused_til_next_field true
    then resolve_active after_instruction
    then add after_instruction

pub release_pause_mode : Command
release_pause_mode =
    update_field paused_field false
    then update_field paused_til_next_field false
    then resolve before_instruction
    then resolve after_instruction

-- `flushAfterRunCallbacks`, whose promise `completion` waits for.
abbrev pub flush : Completion → Command
flush completion c =
    (flush_after_run_callbacks ∷ [], record c { flushing = completion ∷ c.flushing })

pub complete_execution_successfully : Command
complete_execution_successfully = release_pause_mode then flush successful

pub complete_execution_failed : String → Command
complete_execution_failed error = release_pause_mode then flush (unsuccessful error)

-- The rest of the two, when the callbacks have run or one has thrown.
pub flushed : Completion → Command
flushed successful c = (clear_cache ∷ unregister none ∷ execution_complete successful ∷ [], c)
flushed (unsuccessful error) c = (
  execution_complete (unsuccessful error) ∷ clear_cache ∷ unregister (some c.execution_state) ∷ [],
  c,
)

pub release_test_execution : Command
release_test_execution c =
    (if c.execution_state.pending
        then on_breakpoints break_stack
        then complete_execution_successfully
        else complete_execution_successfully)
      c

abbrev pub set_devtool_listeners : Command
set_devtool_listeners c = ([], record c { is_devtools_initialized = true })

abbrev pub run_test : Bool → Command
run_test wait_for_release c = ([], record c { running = wait_for_release ∷ c.running })

-- `executeTest`, until it awaits the test.
pub execute_test : Bool → Command
execute_test wait_for_release =
    tell register
    then (if wait_for_release then set_devtool_listeners else skip)
    then update_field pending_field true
    then run_test wait_for_release

abbrev pub on_error : Ending → Command
on_error passed = skip
on_error broken_stack = complete_execution_successfully
on_error (threw error) = complete_execution_failed error

-- The rest of `executeTest`.
pub test_settled : Bool → Ending → Command
test_settled wait_for_release passed =
    update_field pending_field false
    then (if wait_for_release then skip else complete_execution_successfully)
test_settled wait_for_release broken_stack =
    if wait_for_release then skip else on_error broken_stack
test_settled wait_for_release (threw error) =
    if wait_for_release then skip else on_error (threw error)

abbrev pub evaluate : String → String → Command
evaluate path content c = (evaluate_script path content ∷ [], c)

pub evaluate_code : String → String → Command
evaluate_code path content =
    update_field pending_field true then evaluate path content then update_field pending_field false

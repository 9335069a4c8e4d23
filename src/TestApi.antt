-- ===== src/TestApi.antt =====
-- core/api/src/test-api-controller.ts, the class `TestAPIController`, and `run` of core/api/src/run.ts.
-- A callback is known by its number and registers no other one; `error_of` is what it throws, if it
-- throws. A breakpoint that a flush waits at has been resolved, or else broken.
pub mod Flushing
mod Tests
use testring.Common.{
  ℕ, Bool, true, false, Option, none, some, String, List, [], ◌∷◌, ◌++◌, if◌then◌else◌,
}
use testring.WorkerController.RunTest.{TestEvent, started, finished, failed}

-- The parameters are known by a name.
pub record TestApiController : Type 0 where
  pub test_id : String
  pub test_parameters : String
  pub environment_parameters : String
  pub before_run_callbacks : List ℕ
  pub after_run_callbacks : List ℕ

pub data Flushed : Type 0 where
  completed stack_broken : Flushed
  callback_threw : String → Flushed

-- A flush: the callbacks that it calls, how it ends, and the callbacks that are left.
pub record Flush : Type 0 where
  pub called : List ℕ
  pub result : Flushed
  pub callbacks : List ℕ

unfoldable pub set_test_id : String → TestApiController → TestApiController
set_test_id id c = record c { test_id = id }

unfoldable pub set_test_parameters : String → TestApiController → TestApiController
set_test_parameters parameters c = record c { test_parameters = parameters }

unfoldable pub set_environment_parameters : String → TestApiController → TestApiController
set_environment_parameters parameters c = record c { environment_parameters = parameters }

unfoldable pub register_before_run_callback : ℕ → TestApiController → TestApiController
register_before_run_callback callback c = record c {
  before_run_callbacks = c.before_run_callbacks ++ callback ∷ [];
}

abbrev pub register_after_run_callback : ℕ → TestApiController → TestApiController
register_after_run_callback callback c = record c {
  after_run_callbacks = c.after_run_callbacks ++ callback ∷ [];
}

module _ (error_of : ℕ → Option String) where
  abbrev called_first : Option String → ℕ → List ℕ × Option String → List ℕ × Option String
  called_first none callback (called, error) = (callback ∷ called, error)
  called_first (some e) callback rest = (callback ∷ [], some e)

  -- The loop over the callbacks: those that it calls, and what one of them throws.
  pub call_each : List ℕ → List ℕ × Option String
  call_each [] = ([], none)
  call_each (callback ∷ callbacks) = called_first (error_of callback) callback (call_each callbacks)

  abbrev pub flushed : List ℕ → Bool → List ℕ × Option String → Flush
  flushed callbacks broken_after (called, some e) = record {
    called = called;
    result = callback_threw e;
    callbacks = callbacks;
  }
  flushed callbacks broken_after (called, none) = record {
    called = called;
    result = (if broken_after then stack_broken else completed);
    callbacks = [];
  }

  -- Whether the breakpoints before and after the callbacks are broken.
  pub flush_callbacks : (broken_before broken_after : Bool) → List ℕ → Flush
  unfolding call_each
  flush_callbacks broken_before broken_after callbacks =
      let run = flushed callbacks broken_after (call_each callbacks) in
      if broken_before
      then record { called = []; result = stack_broken; callbacks = callbacks }
      else run

  pub flush_before_run_callbacks :
      (broken_before broken_after : Bool) → TestApiController → Flush × TestApiController
  unfolding flush_callbacks
  flush_before_run_callbacks broken_before broken_after c =
      let flush = flush_callbacks broken_before broken_after c.before_run_callbacks in
      (flush, record c { before_run_callbacks = flush.callbacks })

  pub flush_after_run_callbacks :
      (broken_before broken_after : Bool) → TestApiController → Flush × TestApiController
  unfolding flush_callbacks
  flush_after_run_callbacks broken_before broken_after c =
      let flush = flush_callbacks broken_before broken_after c.after_run_callbacks in
      (flush, record c { after_run_callbacks = flush.callbacks })

-- What the tests of a run throw, one after the other.
abbrev pub first_error : List (Option String) → Option String
first_error [] = none
first_error (none ∷ tests) = first_error tests
first_error (some e ∷ tests) = some e

abbrev pub error_in : Flushed → List (Option String) → Option String
error_in completed tests = first_error tests
error_in stack_broken tests = some "Break stack"
error_in (callback_threw e) tests = some e

abbrev pub ending : (String → String) → Option String → TestEvent
ending restructure none = finished
ending restructure (some e) = failed (restructure e)

-- `run`, whose end of the context is the callback `ends`: the event that it emits at last, after
-- `started`, and the controller that it leaves.
pub run :
    (restructure : String → String) (error_of : ℕ → Option String)
    (broken_before broken_after : Bool)
    → ℕ
    → List (Option String)
    → TestApiController
    → TestEvent × TestApiController
unfolding flush_before_run_callbacks
run restructure error_of broken_before broken_after ends tests c =
    let (flush, d) =
      flush_before_run_callbacks error_of broken_before broken_after
        (register_after_run_callback ends c) in
    (ending restructure (error_in flush.result tests), d)

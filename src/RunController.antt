-- ===== src/RunController.antt =====
-- core/test-run-controller/src/test-run-controller.ts, the class `TestRunController`. What plugins and
-- workers answer is an argument: a hook answers, throws or never settles, and so does the kill of a
-- worker after a timeout; a worker's run resolves, rejects or is silent. Times are milliseconds from
-- the start of a run.
pub mod Loops
pub mod Attempts
pub mod Workers
pub mod Bound
pub mod Completion
pub mod Ending
pub mod Local
pub mod Prepared
pub mod Results
mod Tests
use testring.Common.{
  ℕ, zero, suc, ◌+◌, Bool, true, false, not, ◌&&◌, Option, none, some, String, List, [], ◌∷◌, ◌++◌,
  map, ltb, leb, nat_eq, length, replicate, if◌then◌else◌,
}
use testring.Queue
use testring.Queue.{Queue}

pub data WorkerLimit : Type 0 where
  local : WorkerLimit
  number : ℕ → WorkerLimit
  other : WorkerLimit

pub data Screenshots : Type 0 where
  enable after_error disable : Screenshots

pub record Config : Type 0 where
  pub worker_limit : WorkerLimit
  pub restart_worker : Bool
  pub bail : Bool
  pub retry_count : Option ℕ
  pub test_timeout : ℕ
  pub screenshots : Screenshots

-- The part of `ITestQueuedTestRunData` that depends on the item.
pub record RunData : Type 0 where
  pub screenshots_enabled : Bool
  pub is_retry_run : Bool

-- The errors that a run can end with: what was thrown, and the errors that the class makes itself.
pub data Failure : Type 0 where
  error : String → Failure
  timeout_exceeded : ℕ → Failure
  invalid_worker_limit : Failure

pub record QueuedTest : Type 0 where
  pub test : String
  pub retry_count : ℕ
  pub retry_errors : List Failure
  pub test_timeout : Option ℕ
  pub run_data : Option RunData

-- What a hook answers; it may also never settle.
pub data Answer {ℓ} (A : Type ℓ) : Type ℓ where
  ok : A → Answer A
  threw : Failure → Answer A
  hangs : Answer A

pub data Run : Type 0 where
  resolved : ℕ → Run
  rejected : ℕ → Failure → Run
  silent : Run

-- All that the environment does in one call of `executeWorker`: its hooks in the order in which they
-- are called, `failed_test` being the hook `afterTest` of a failed test, and the kill of the worker
-- after a timeout.
pub record Attempt : Type 0 where
  pub should_not_start : Answer Bool
  pub before_test : Answer (Unit {0})
  pub run : Run
  pub after_test : Answer (Unit {0})
  pub kill : Answer (Unit {0})
  pub should_not_retry : Answer Bool
  pub before_test_retry : Answer (Unit {0})
  pub failed_test : Answer (Unit {0})

-- What is done, in order: the hooks, a run of a worker, its kill, and the two changes of the state,
-- a push to the queue and one to the errors.
pub data Event : Type 0 where
  should_not_start should_not_retry before_test executed : QueuedTest → Event
  after_test : QueuedTest → Option Failure → Event
  before_test_retry : QueuedTest → Failure → Event
  killed : Event
  enqueued : QueuedTest → Event
  recorded : Failure → Event

-- An async function that does these things and then returns, throws or waits for ever.
abbrev pub M : Type 0 → Type 0
M A = List Event × Answer A

infixl 5 ◌>>=◌ ◌>>◌
abbrev pub ◌>>=◌ : {A B : Type 0} → M A → (A → M B) → M B
(events, ok a) >>= k = let (later, answer) = k a in (events ++ later, answer)
(events, threw e) >>= k = (events, threw e)
(events, hangs) >>= k = (events, hangs)

abbrev pub ◌>>◌ : {B : Type 0} → M (Unit {0}) → M B → M B
m >> k = m >>= λ _. k

abbrev call : {A : Type 0} → Event → Answer A → M A
call event answer = (event ∷ [], answer)

abbrev emit : Event → M (Unit {0})
emit event = (event ∷ [], ok tt)

-- `||` of two numbers.
abbrev pub or_number : Option ℕ → ℕ → ℕ
or_number none d = d
or_number (some n) d = if nat_eq n 0 then d else n

pub prepare_test : String → QueuedTest
prepare_test test = record {
  test = test;
  retry_count = 0;
  retry_errors = [];
  test_timeout = none;
  run_data = none;
}

screenshots_enabled_for : Screenshots → Bool → Bool
screenshots_enabled_for enable is_retry_run = true
screenshots_enabled_for after_error is_retry_run = is_retry_run
screenshots_enabled_for disable is_retry_run = false

pub get_queue_item_with_run_data : Config → QueuedTest → QueuedTest
unfolding screenshots_enabled_for
get_queue_item_with_run_data config item =
    let is_retry_run = ltb 0 item.retry_count in
    record item {
      run_data = some (record {
        screenshots_enabled = screenshots_enabled_for config.screenshots is_retry_run;
        is_retry_run = is_retry_run;
      });
    }

-- `modifier_queue` is what the hook `beforeRun` makes of the list that it is given.
pub prepare_tests :
    Config → (List QueuedTest → Option (List QueuedTest)) → List String → Queue QueuedTest
prepare_tests config modifier_queue test_files =
    let given = modifier_queue (map prepare_test test_files) in
    Queue.create (
      some
        (elim given [ none ↦ [] | some items ↦ map (get_queue_item_with_run_data config) items ]))

-- The outcome of the race between the run and the timer: `none` where neither ever settles.
pub data Race : Type 0 where
  passed : Race
  failed : Failure → Race
  timed_out : ℕ → Race

-- The timer is set only for a positive timeout, and wins against a run that is not yet settled then.
pub race : ℕ → Run → Option Race
race timeout (resolved at) =
    if ltb 0 timeout && leb timeout at then some (timed_out timeout) else some passed
race timeout (rejected at e) =
    if ltb 0 timeout && leb timeout at then some (timed_out timeout) else some (failed e)
race timeout silent = if ltb 0 timeout then some (timed_out timeout) else none

-- How the `try` block of `executeWorker` ends.
pub data Tried : Type 0 where
  finished : Tried
  caught : (by_timeout : Bool) → Failure → Tried

tried_after : List Event → QueuedTest → Answer (Unit {0}) → Option (List Event × Tried)
tried_after events item (ok _) = some (events ++ after_test item none ∷ [], finished)
tried_after events item (threw e) = some (events ++ after_test item none ∷ [], caught false e)
tried_after events item hangs = none

tried_run : List Event → QueuedTest → Attempt → Option Race → Option (List Event × Tried)
unfolding tried_after
tried_run events item a none = none
tried_run events item a (some passed) = tried_after events item a.after_test
tried_run events item a (some (failed e)) = some (events, caught false e)
tried_run events item a (some (timed_out t)) = some (events, caught true (timeout_exceeded t))

tried_before : Config → QueuedTest → Attempt → Answer (Unit {0}) → Option (List Event × Tried)
unfolding tried_run
tried_before config item a (threw e) =
    some (should_not_start item ∷ before_test item ∷ [], caught false e)
tried_before config item a hangs = none
tried_before config item a (ok _) =
    tried_run (should_not_start item ∷ before_test item ∷ executed item ∷ []) item a
      (race (or_number item.test_timeout config.test_timeout) a.run)

tried_start : Config → QueuedTest → Attempt → Answer Bool → Option (List Event × Tried)
unfolding tried_before
tried_start config item a (threw e) = some (should_not_start item ∷ [], caught false e)
tried_start config item a hangs = none
tried_start config item a (ok true) = some (should_not_start item ∷ [], finished)
tried_start config item a (ok false) = tried_before config item a a.before_test

abbrev pub retry_limit : Config → ℕ
retry_limit config = or_number config.retry_count 0

-- The item that a retry puts in the queue.
abbrev pub retry_of : Config → QueuedTest → QueuedTest
retry_of config item =
    get_queue_item_with_run_data config (record item { retry_count = item.retry_count + 1 })

retry_or_record : Config → Attempt → Failure → QueuedTest → Bool → M (Unit {0})
retry_or_record config a e item no_retry =
    let retried =
      emit (enqueued (retry_of config item))
      >> call (before_test_retry item e) a.before_test_retry in
    let given_up = emit (recorded e) >> call (after_test item (some e)) a.failed_test in
    if not no_retry && ltb item.retry_count (retry_limit config) then retried else given_up

-- Ends in `throw error`, in what the hook throws before it, or not at all.
bail_out : Attempt → Failure → QueuedTest → M (Unit {0})
bail_out a e item = do call (after_test item (some e)) a.failed_test; ([], threw e)

pub on_test_failed : Config → Attempt → Failure → QueuedTest → M (Unit {0})
unfolding retry_or_record bail_out
on_test_failed config a e item =
    let decided =
      call (should_not_retry item) a.should_not_retry >>= retry_or_record config a e item in
    if config.bail then bail_out a e item else decided

abbrev pub kill_if : Bool → Answer (Unit {0}) → M (Unit {0})
kill_if true answer = call killed answer
kill_if false answer = ([], ok tt)

-- The `catch` block.
conclude : Config → Attempt → QueuedTest → Option (List Event × Tried) → Option (M (Unit {0}))
conclude config a item none = none
conclude config a item (some (events, finished)) = some (events, ok tt)
conclude config a item (some (events, caught by_timeout e)) =
    let blamed = record item { retry_errors = item.retry_errors ++ e ∷ [] } in
    let (later, answer) = kill_if by_timeout a.kill >> on_test_failed config a e blamed in
    some (events ++ later, answer)

-- `executeWorker` behind its `queue.shift`: `none` if its `try` block never ends, which leaves the
-- state as it was.
pub execute_item : Config → Attempt → QueuedTest → Option (M (Unit {0}))
unfolding conclude tried_start
execute_item config a item = conclude config a item (tried_start config item a a.should_not_start)

-- What the events change.
abbrev pub pushed : List Event → List QueuedTest
pushed [] = []
pushed (enqueued item ∷ events) = item ∷ pushed events
pushed (_ ∷ events) = pushed events

abbrev pub failures : List Event → List Failure
failures [] = []
failures (recorded e ∷ events) = e ∷ failures events
failures (_ ∷ events) = failures events

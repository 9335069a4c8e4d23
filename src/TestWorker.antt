-- ===== src/TestWorker.antt =====
-- core/test-worker/src/test-worker-instance.ts: the class TestWorkerInstance, the parent's end of a
-- worker. Executions and processes are numbered; a test that is executed settles the promise of its
-- execution, and only the first settling of a promise counts.
pub mod Compile
pub mod World
pub mod Accounted
pub mod Sequence
pub mod Heard
pub mod Killing
mod Tests
use testring.Common.{
  any, if◌then◌else◌, ℕ, Bool, true, false, not, Option, none, some, List, [], ◌∷◌, ◌++◌, nat_eq,
  keep,
}

-- `queuedWorker`: null, or a promise, which stays where it is when it is rejected.
pub data Queued : Type 0 where
  no_queue creating failed : Queued

pub data TestStatus : Type 0 where
  idle done failing : TestStatus

-- What a step makes known: a settled promise of an execution or of a kill, and what it asks others.
pub data Event : Type 0 where
  resolved rejected : ℕ → Event
  kill_rejected : Event
  process_killed : ℕ → Event
  files_released : Event

-- The two functions that end an execution are known by its number. `listeners` are the executions
-- whose handler of the completion message is registered, and `watched` the processes with handlers
-- of their exit and their errors.
pub record Instance : Type 0 where
  pub local_worker : Bool
  pub success : Option ℕ
  pub abort : Option ℕ
  pub worker : Option ℕ
  pub queued : Queued
  pub listeners : List ℕ
  pub watched : List ℕ

unfoldable pub create : Bool → Instance
create local_worker = record {
  local_worker = local_worker;
  success = none;
  abort = none;
  worker = none;
  queued = no_queue;
  listeners = [];
  watched = [];
}

-- What a call has left to do at an `await`: for the queued worker, for the payload, for the answer
-- to the message, and the kill that waits for the queued worker, for its delay, or for the exit.
pub data Task : Type 0 where
  awaiting_worker preparing sending : ℕ → Task
  awaiting_queue delayed_kill : Task
  killing : ℕ → Task

pub record Outcome : Type 0 where
  pub instance_after : Instance
  pub tasks : List Task
  pub events : List Event

abbrev pub quiet : Instance → Outcome
quiet i = record { instance_after = i; tasks = []; events = [] }

abbrev queue_worker : ℕ → Instance → Outcome
queue_worker n i = record (quiet (record i { queued = creating })) {
  tasks = awaiting_worker n ∷ [];
}

abbrev pub use_worker : ℕ → Option ℕ → Instance → Outcome
use_worker n none i = queue_worker n i
use_worker n (some w) i = record (quiet i) { tasks = preparing n ∷ [] }

-- `initWorker`, for execution `n`.
abbrev pub init_worker : ℕ → Queued → Instance → Outcome
init_worker n creating i = record (quiet i) { tasks = awaiting_worker n ∷ [] }
init_worker n failed i = record (quiet i) { events = rejected n ∷ [] }
init_worker n no_queue i = if i.local_worker then queue_worker n i else use_worker n i.worker i

-- `execute`, up to its first `await`.
pub execute : ℕ → Instance → Outcome
execute n i = init_worker n i.queued i

-- The worker `w` was made: the end of `createWorker` or of `createLocalWorker`, and the `then`.
pub created : ℕ → Instance → Instance
created w i = record i {
  watched = (if i.local_worker then i.watched else w ∷ i.watched);
  worker = some w;
  queued = no_queue;
}

-- The fork failed.
pub creation_failed : Instance → Instance
creation_failed i = record i { queued = failed }

-- `getExecutionPayload` answered, and the test is sent; `false` is its error.
pub send_test : ℕ → Bool → Instance → Outcome
send_test n false i = record (quiet i) { events = rejected n ∷ [] }
send_test n true i =
    record (quiet
      (record i { listeners = i.listeners ++ n ∷ []; success = some n; abort = some n })) {
        tasks = sending n ∷ [];
      }

-- The message was taken, or sending it failed.
pub test_sent : ℕ → Bool → Instance → Outcome
test_sent n true i = quiet i
test_sent n false i = record (quiet i) { events = rejected n ∷ [] }

abbrev pub complete_one : TestStatus → ℕ → List Event
complete_one done n = resolved n ∷ []
complete_one failing n = rejected n ∷ []
complete_one idle n = []

pub complete_each : TestStatus → List ℕ → List Event
complete_each status [] = []
complete_each status (n ∷ ns) = complete_one status n ++ complete_each status ns

-- The completion message reaches every handler, each of which hears one message.
pub complete : TestStatus → Instance → Outcome
complete status i =
    if any (λ _. true) i.listeners
    then record (quiet (record i { listeners = []; success = none; abort = none })) {
      events = complete_each status i.listeners;
    }
    else quiet i

abbrev pub without : ℕ → List ℕ → List ℕ
without n ns = keep (λ m. not (nat_eq m n)) ns

-- `clearWorkerHandlers`
abbrev pub clear_handlers : Option ℕ → Instance → Instance
clear_handlers none i = i
clear_handlers (some w) i = record i { watched = without w i.watched }

abbrev pub end_execution : (ℕ → Event) → Option ℕ → Instance → Outcome
end_execution how none i = quiet i
end_execution how (some n) i =
    record (quiet (record i { listeners = without n i.listeners; success = none; abort = none })) {
      events = how n ∷ [];
    }

abbrev pub released : Outcome → Outcome
released o = record o { events = files_released ∷ o.events }

-- `workerExitHandler` and `workerErrorHandler`.
pub worker_exit : Instance → Outcome
worker_exit i =
    released (end_execution rejected i.abort (record (clear_handlers i.worker i) { worker = none }))

pub worker_error : Instance → Outcome
worker_error i = released (end_execution rejected i.abort i)

abbrev pub kill_worker : Option ℕ → Instance → Outcome
kill_worker none i = quiet i
kill_worker (some w) i = record {
  instance_after = clear_handlers (some w) i;
  tasks = killing w ∷ [];
  events = process_killed w ∷ [];
}

abbrev pub kill_queued : Queued → Instance → Outcome
kill_queued creating i = record (quiet i) { tasks = awaiting_queue ∷ [] }
kill_queued failed i = record (quiet i) { events = kill_rejected ∷ [] }
kill_queued no_queue i = kill_worker i.worker i

-- `kill`, up to its first `await`; the call after the delay is the same.
pub kill : Instance → Outcome
kill i = kill_queued i.queued i

-- The rest of `kill` once the process is gone.
pub killed : Instance → Outcome
killed i = end_execution resolved i.success (record i { worker = none })

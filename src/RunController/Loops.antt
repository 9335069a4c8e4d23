-- ===== src/RunController/Loops.antt =====
-- core/test-run-controller/src/test-run-controller.ts: the loops of the workers, and the run.
use testring.Common.{
  ℕ, ◌+◌, ◌≡◌, Bool, true, false, Option, none, some, List, [], ◌∷◌, ◌++◌, ltb, nat_eq, replicate,
  if◌then◌else◌,
}
use testring.Queue
use testring.Queue.{Queue}
use testring.RunController.{
  Config, WorkerLimit, local, number, other, QueuedTest, Failure, Answer, ok, threw, hangs, Attempt,
  Event, execute_item, pushed, failures,
}

pub record RunState : Type 0 where
  pub queue : Queue QueuedTest
  pub errors : List Failure

unfoldable pub change : List Event → RunState → RunState
change events s = record {
  queue = Queue.push (pushed events) s.queue;
  errors = s.errors ++ failures events;
}

-- `executeWorker` as a whole: the state it leaves, and whether it threw.
abbrev pub Loop : Type 0
Loop = RunState × Answer (Unit {0})

unfoldable pub execute_worker_on :
    Config → Attempt → RunState → Option QueuedTest × Queue QueuedTest → Option Loop
execute_worker_on config a s (none, rest) = some (record s { queue = rest }, ok tt)
execute_worker_on config a s (some item, rest) = elim (execute_item config a item) [
  | none ↦ none
  | some (events, answer) ↦ some (change events (record s { queue = rest }), answer)
]

unfoldable pub execute_worker : Config → Attempt → RunState → Option Loop
unfolding execute_worker_on
execute_worker config a s = execute_worker_on config a s (Queue.shift s.queue)

-- The loop of `runLocalWorker`. The list holds what the environment does in the rounds, and the result
-- is `none` if that list is too short, or if a round never ends.
unfoldable pub run_local_worker : Config → List Attempt → RunState → Option Loop
run_local_worker config [] s = if nat_eq (Queue.size s.queue) 0 then some (s, ok tt) else none
run_local_worker config (a ∷ later) s =
    let round : Option Loop = elim (execute_worker config a s) [
      | none ↦ none
      | some (s', ok _) ↦ run_local_worker config later s'
      | some (s', threw e) ↦ some (s', threw e)
      | some (s', hangs) ↦ none
    ] in
    if nat_eq (Queue.size s.queue) 0 then some (s, ok tt) else round

-- What `executeQueue` does behind `shouldNotExecute`.
pub data Plan : Type 0 where
  locally : Plan
  by_children : ℕ → Plan
  refused : Plan

unfoldable pub plan : WorkerLimit → ℕ → Plan
plan local length = locally
plan (number limit) length =
    if ltb 0 limit then by_children (if ltb limit length then limit else length) else refused
plan other length = refused

abbrev pub Result : Type 0
Result = Answer (Option (List Failure))

unfoldable pub errors_or_null : List Failure → Result
errors_or_null [] = ok none
errors_or_null (e ∷ errors) = ok (some (e ∷ errors))

unfoldable pub caught_run : (Option Failure → Answer (Unit {0})) → Failure → List Failure → Result
unfolding errors_or_null
caught_run after_run e errors = elim (after_run (some e)) [
  | ok _ ↦ errors_or_null (errors ++ e ∷ [])
  | threw e' ↦ threw e'
  | hangs ↦ hangs
]

-- The end of `executeQueue`, with the hook `afterRun`.
unfoldable pub close_queue :
    (Option Failure → Answer (Unit {0})) → List Failure → Answer (Unit {0}) → Result
unfolding caught_run errors_or_null
close_queue after_run errors (threw e) = caught_run after_run e errors
close_queue after_run errors hangs = hangs
close_queue after_run errors (ok _) = elim (after_run none) [
  | ok _ ↦ errors_or_null errors
  | threw e ↦ caught_run after_run e errors
  | hangs ↦ hangs
]

-- A run with one worker of the same process.
execute_locally : Config → (Option Failure → Answer (Unit {0})) → Option Loop → Option Result
unfolding close_queue
execute_locally config after_run none = none
execute_locally config after_run (some (s, answer)) = some (close_queue after_run s.errors answer)

unfoldable pub execute_queue_locally :
    Config
    → Answer Bool
    → List Attempt
    → (Option Failure → Answer (Unit {0}))
    → RunState
    → Option Result
unfolding execute_locally
execute_queue_locally config (threw e) attempts after_run s = some (threw e)
execute_queue_locally config hangs attempts after_run s = none
execute_queue_locally config (ok true) attempts after_run s = some (ok none)
execute_queue_locally config (ok false) attempts after_run s =
    execute_locally config after_run (run_local_worker config attempts s)

-- A worker of `runChildWorkers`: at the head of its loop, with a test, behind the loop, stopped by an
-- error, or waiting for ever.
pub data Phase : Type 0 where
  ready : Phase
  busy : QueuedTest → Phase
  stopped : Phase
  crashed : Failure → Phase
  stuck : Phase

-- The state that the workers share, what each does, the tests that will not run again, and the number
-- of attempts made.
pub record World : Type 0 where
  pub queue : Queue QueuedTest
  pub errors : List Failure
  pub workers : List Phase
  pub closed : List QueuedTest
  pub attempts : ℕ

unfoldable pub start : ℕ → Queue QueuedTest → World
start limit queue = record {
  queue = queue;
  errors = [];
  workers = replicate limit ready;
  closed = [];
  attempts = 0;
}

abbrev pub phase_after : Answer (Unit {0}) → Phase
phase_after (ok _) = ready
phase_after (threw e) = crashed e
phase_after hangs = stuck

-- A test is closed when its attempt puts nothing back.
abbrev pub closing : QueuedTest → List QueuedTest → List QueuedTest
closing item [] = item ∷ []
closing item (retry ∷ retries) = []

-- The awaits of the workers interleave at will; between two of them a worker changes the shared state
-- once at most: it takes a test, or it puts one back or adds an error.
pub data Step (config : Config) (w : World) : World → Type 0 where
  takes :
      (before behind : List Phase) (item : QueuedTest) (rest : Queue QueuedTest)
      → w.workers ≡ before ++ ready ∷ behind
      → Queue.shift w.queue ≡ (some item, rest)
      → Step config w (record w { queue = rest; workers = before ++ busy item ∷ behind })
  stops :
      (before behind : List Phase)
      → w.workers ≡ before ++ ready ∷ behind
      → Queue.size w.queue ≡ 0
      → Step config w (record w { workers = before ++ stopped ∷ behind })
  concludes :
      (before behind : List Phase) (item : QueuedTest) (a : Attempt) (events : List Event)
      (answer : Answer (Unit {0}))
      → w.workers ≡ before ++ busy item ∷ behind
      → execute_item config a item ≡ some (events, answer)
      → Step config w (record {
        queue = Queue.push (pushed events) w.queue;
        errors = w.errors ++ failures events;
        workers = before ++ phase_after answer ∷ behind;
        closed = w.closed ++ closing item (pushed events);
        attempts = w.attempts + 1;
      })

pub data Reach (config : Config) (w : World) : World → Type 0 where
  here : Reach config w w
  next : {u v : World} → Reach config w u → Step config u v → Reach config w v

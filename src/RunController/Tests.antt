-- ===== src/RunController/Tests.antt =====
-- core/test-run-controller/src/test-run-controller.ts on one test that fails once and passes at its
-- retry.
use testring.Common.{
  ℕ, suc, ◌+◌, ◌*◌, ◌≤◌, ◌≡◌, refl, true, false, Option, none, some, List, [], ◌∷◌, String, arith,
  if◌then◌else◌, ◌==◌,
}
use testring.Queue
use testring.Queue.{Queue}
use testring.RunController.{
  before_test_retry, enqueued, should_not_retry, executed, before_test, should_not_start, Config,
  QueuedTest, Failure, error, Answer, ok, Attempt, Event, number, after_error, resolved, rejected,
  silent, execute_item, prepare_tests, prepare_test, get_queue_item_with_run_data, race,
  on_test_failed, retry_limit,
}
use testring.RunController.Loops.{
  World, takes, stops, concludes, Reach, here, next, start, Phase, ready, stopped, run_local_worker,
  by_children, refused, plan,
}
use testring.RunController.Workers.{accounted, of_test, total, Reach-accounted}
use testring.RunController.Bound.{Reach-attempts}
use testring.RunController.Completion.{Reach-complete}
use testring.RunController.Ending.{IsDone, IsLive}
use testring.RunController.Local.{run_local_worker-IsDone}

abbrev config : Config
config = record {
  worker_limit = number 1;
  restart_worker = false;
  bail = false;
  retry_count = some 1;
  test_timeout = 100;
  screenshots = after_error;
}

abbrev passing : Attempt
passing = record {
  should_not_start = ok false;
  before_test = ok tt;
  run = resolved 5;
  after_test = ok tt;
  kill = ok tt;
  should_not_retry = ok false;
  before_test_retry = ok tt;
  failed_test = ok tt;
}

abbrev failing : Attempt
failing = record passing { run = rejected 5 (error "boom") }

abbrev hanging : Attempt
hanging = record passing { run = silent }

abbrev first : QueuedTest
first = record {
  test = "a";
  retry_count = 0;
  retry_errors = [];
  test_timeout = none;
  run_data = some (record { screenshots_enabled = false; is_retry_run = false });
}

abbrev again : QueuedTest
again = record {
  test = "a";
  retry_count = 1;
  retry_errors = error "boom" ∷ [];
  test_timeout = none;
  run_data = some (record { screenshots_enabled = true; is_retry_run = true });
}

abbrev empty : List QueuedTest
empty = []

abbrev queue : List QueuedTest → Queue QueuedTest
queue items = record { array = items }

abbrev world : List QueuedTest → Phase → List QueuedTest → ℕ → World
world items worker closed attempts = record {
  queue = queue items;
  errors = [];
  workers = worker ∷ [];
  closed = closed;
  attempts = attempts;
}

reached : Reach config (start 1 (queue (first ∷ []))) (world [] stopped (again ∷ []) 2)
unfolding start execute_item get_queue_item_with_run_data race on_test_failed Queue.shift Queue.push
    Queue.size
reached =
    next
      (next
        (next
          (next (next here (takes [] [] first (queue []) refl refl))
            (concludes [] [] first failing _ _ refl refl))
          (takes [] [] again (queue []) refl refl))
        (concludes [] [] again passing _ _ refl refl))
      (stops [] [] refl refl)

computed :
    (prepare_tests config some ("a" ∷ []) ≡ queue (first ∷ []))
    × (plan (number 3) 2 ≡ by_children 2)
    × (plan (number 0) 2 ≡ refused)
    × (race 100 silent ≡ race 100 (resolved 100))
unfolding prepare_tests prepare_test get_queue_item_with_run_data Queue.create plan race
computed = (refl, refl, refl, refl)

abbrev blamed : QueuedTest
blamed = record first { retry_errors = error "boom" ∷ [] }

abbrev failing_events : List Event × Answer (Unit {0})
failing_events = (
  should_not_start first
      ∷ before_test first
      ∷ executed first
      ∷ should_not_retry blamed
      ∷ enqueued again
      ∷ before_test_retry blamed (error "boom")
      ∷ [],
  ok tt,
)

failed_attempt : execute_item config failing first ≡ some failing_events
unfolding execute_item get_queue_item_with_run_data race on_test_failed
failed_attempt = refl

abbrev one : String → ℕ
one test = if test == "a" then 1 else 0

Reach-accounted_example :
    accounted (of_test one) (world [] stopped (again ∷ []) 2) ≡ total (of_test one) (first ∷ [])
Reach-accounted_example =
    Reach-accounted one config 1 (queue (first ∷ [])) (world [] stopped (again ∷ []) 2) reached

Reach-attempts_example : 2 + (0 + 0) ≤ Queue.size (queue (first ∷ [])) * suc (retry_limit config)
Reach-attempts_example =
    Reach-attempts config 1 (queue (first ∷ [])) (world [] stopped (again ∷ []) 2) reached

Reach-complete_example :
    (empty ≡ [])
    × ((f : String → ℕ) → total (of_test f) (again ∷ []) ≡ total (of_test f) (first ∷ []))
Reach-complete_example =
    Reach-complete config 1 (queue (first ∷ [])) (world [] stopped (again ∷ []) 2) (omega arith)
      reached (refl, tt)

hanging-IsLive : IsLive hanging
hanging-IsLive = (tt, tt, tt, tt, tt, tt, tt)

run_local_worker-IsDone_example : IsDone (
    run_local_worker config
      (hanging ∷ hanging ∷ [])
      (record { queue = queue (first ∷ []); errors = [] }))
run_local_worker-IsDone_example =
    run_local_worker-IsDone config (hanging ∷ hanging ∷ [])
      (record { queue = queue (first ∷ []); errors = [] }) (omega arith)
      (hanging-IsLive, (hanging-IsLive, tt)) (omega arith)

prepared_run :
    Reach config (start 1 (prepare_tests config some ("a" ∷ []))) (world (again ∷ []) ready [] 1)
unfolding start execute_item prepare_tests prepare_test get_queue_item_with_run_data race
    on_test_failed Queue.create Queue.shift Queue.push
prepared_run =
    next (next here (takes [] [] first (queue []) refl refl))
      (concludes [] [] first failing _ _ refl refl)

abbrev after_run : Option Failure → Answer (Unit {0})
after_run e = ok tt

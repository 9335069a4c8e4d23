-- ===== src/RunController/Local.antt =====
-- core/test-run-controller/src/test-run-controller.ts: the loop of the local worker.
use testring.Common.{
  All, subst, ℕ, suc, ◌+◌, ◌≤◌, ◌<◌, ◌≡◌, refl, Option, none, some, List, [], ◌∷◌, length, arith,
}
use testring.Queue
use testring.Queue.{Queue}
use testring.RunController.{
  Config, QueuedTest, Failure, Answer, ok, threw, hangs, Attempt, Event, execute_item, pushed,
}
use testring.RunController.Attempts.{execute_item-Effect}
use testring.RunController.Loops.{
  RunState, Loop, change, execute_worker_on, execute_worker, run_local_worker,
}
use testring.RunController.Workers.{total, total-append}
use testring.RunController.Bound.{potential, pushed-potential}
use testring.RunController.Ending.{IsDone, Settles, IsLive, Ends, execute_item-Ends}

-- A round over a queue that is not empty lowers what the queue still holds.
abbrev IsLower : Config → ℕ → Option Loop → Type 0
IsLower config n none = ⊥
IsLower config n (some (s, answer)) = Settles answer × (total (potential config) s.queue.array < n)

changed-IsLower :
    (config : Config) (a : Attempt) (s : RunState) (item : QueuedTest) (items : List QueuedTest)
    (o : Option (List Event × Answer (Unit {0})))
    → Ends o
    → execute_item config a item ≡ o
    → IsLower config
        (potential config item + total (potential config) items)
        (execute_worker_on config a s (some item, record { array = items }))
unfolding execute_worker_on change Queue.push
changed-IsLower config a s item items none d e = absurd d
changed-IsLower config a s item items (some (events, answer)) d e =
    rw (e, IsLower)
      (
        d,
        omega (
          arith,
          total-append (potential config) items (pushed events),
          pushed-potential config item events (execute_item-Effect config a item events answer e),
        ),
      )

abbrev on : List QueuedTest → List Failure → RunState
on items errors = record { queue = record { array = items }; errors = errors }

execute_worker-IsLower :
    (config : Config) (a : Attempt) (item : QueuedTest) (items : List QueuedTest)
    (errors : List Failure)
    → 0 < config.test_timeout
    → IsLive a
    → IsLower config
        (potential config item + total (potential config) items)
        (execute_worker config a (on (item ∷ items) errors))
unfolding execute_worker Queue.shift
execute_worker-IsLower config a item items errors h l =
    changed-IsLower config a (on (item ∷ items) errors) item items _
      (execute_item-Ends config a item h l) refl

-- The loop from a round on, by what the round did.
round-IsDone :
    (config : Config) (n : ℕ) (a : Attempt) (later : List Attempt) (s : RunState) (o : Option Loop)
    → IsLower config n o
    → ((s' : RunState) → o ≡ some (s', ok tt) → IsDone (run_local_worker config later s'))
    → execute_worker config a s ≡ o
    → IsDone (run_local_worker config (a ∷ later) s)
unfolding run_local_worker
round-IsDone config n a later s none d k e = absurd d
round-IsDone config n a later s (some (s', hangs)) d k e = absurd d.0
round-IsDone config n a later s (some (s', threw f)) d k e = rw e (ground arith)
round-IsDone config n a later s (some (s', ok _)) d k e = rw e (ground (arith, k s' refl))

lower_enough :
    (config : Config) (n m : ℕ) (s : RunState) (o : Option Loop)
    → o ≡ some (s, ok tt)
    → IsLower config n o
    → n ≤ suc m
    → total (potential config) s.queue.array ≤ m
lower_enough config n m s o e h enough = omega (arith, (subst (IsLower config n) e h).1, enough)

local_total :
    (config : Config) (attempts : List Attempt) (items : List QueuedTest) (errors : List Failure)
    → 0 < config.test_timeout
    → All IsLive attempts
    → total (potential config) items ≤ length attempts
    → IsDone (run_local_worker config attempts (on items errors))
unfolding run_local_worker Queue.size
local_total config [] [] errors h l enough = tt
local_total config [] (item ∷ items) errors h l enough = ground arith
local_total config (a ∷ later) [] errors h l enough = tt
local_total config (a ∷ later) (item ∷ items) errors h (live, l) enough =
    let lower = execute_worker-IsLower config a item items errors h live in
    round-IsDone config _ a later (on (item ∷ items) errors) _ lower
      (λ s' e.
        local_total config later s'.queue.array s'.errors h l
          (lower_enough config _ (length later) s' _ e lower enough))
      refl

-- If the configuration sets a test timeout and, in every attempt, each hook and the kill of the worker
-- settle, with an answer or an error, then the loop of `runLocalWorker` ends, also where a run of the
-- worker is silent for ever: it takes no more rounds than the tests of its queue have attempts left.
pub run_local_worker-IsDone :
    (config : Config) (attempts : List Attempt) (s : RunState)
    → 0 < config.test_timeout
    → All IsLive attempts
    → total (potential config) s.queue.array ≤ length attempts
    → IsDone (run_local_worker config attempts s)
run_local_worker-IsDone config attempts s h live enough =
    local_total config attempts s.queue.array s.errors h live enough

-- ===== src/RunController/Bound.antt =====
-- core/test-run-controller/src/test-run-controller.ts: how often a test runs.
use testring.Common.{ℕ, suc, ◌+◌, ◌-◌, ◌*◌, ◌≤◌, inl, inr, List, [], ◌∷◌, length, arith}
use testring.Queue
use testring.Queue.{Queue}
use testring.RunController.{
  Config, QueuedTest, Event, pushed, retry_limit, get_queue_item_with_run_data,
}
use testring.RunController.Attempts.{Effect, execute_item-Effect}
use testring.RunController.Loops.{
  ready, busy, stopped, World, Step, takes, stops, concludes, Reach, here, next, start,
}
use testring.RunController.Workers.{
  total, held, total-append, total-held, total-held_after, shift-total, push-array, held-start,
}

-- The attempts that a queued test can still use.
abbrev pub potential : Config → QueuedTest → ℕ
potential config item = suc (retry_limit config - item.retry_count)

pub pushed-potential :
    (config : Config) (item : QueuedTest) (events : List Event)
    → Effect config item events
    → total (potential config) (pushed events) + 1 ≤ potential config item
unfolding get_queue_item_with_run_data
pushed-potential config item events (inl (p, _)) = rw p (omega arith)
pushed-potential config item events (inr (inl ((errors, p), _, lt))) = rw p (omega arith)
pushed-potential config item events (inr (inr (p, _))) = rw p (omega arith)

-- The attempts that were made and those that can still be made.
abbrev pub spent : Config → World → ℕ
spent config w =
    w.attempts
    + (total (potential config) w.queue.array + total (potential config) (held w.workers))

step-spent : (config : Config) (w w' : World) → Step config w w' → spent config w' ≤ spent config w
step-spent config w _ (takes before behind item rest e s) =
    let m = potential config in
    rw e (
      omega (
        arith,
        total-held m before behind ready,
        total-held m before behind (busy item),
        shift-total m w.queue rest item s,
      ))
step-spent config w _ (stops before behind e _) =
    let m = potential config in
    rw e (omega (arith, total-held m before behind ready, total-held m before behind stopped))
step-spent config w _ (concludes before behind item a events answer e h) =
    let m = potential config in
    rw (e, push-array (pushed events) w.queue)
      (omega (
        arith,
        total-held m before behind (busy item),
        total-held_after m before behind answer,
        total-append m w.queue.array (pushed events),
        pushed-potential config item events (execute_item-Effect config a item events answer h),
      ))

Reach-spent :
    (config : Config) (limit : ℕ) (queue : Queue QueuedTest) (w : World)
    → Reach config (start limit queue) w
    → spent config w ≤ total (potential config) queue.array
unfolding start
Reach-spent config limit queue _ here = rw (held-start limit) (omega arith)
Reach-spent config limit queue v (next {u} r s) =
    omega (arith, step-spent config u v s, Reach-spent config limit queue u r)

pub total-le_limit :
    (config : Config) (items : List QueuedTest)
    → total (potential config) items ≤ length items * suc (retry_limit config)
total-le_limit config [] = omega arith
total-le_limit config (item ∷ items) = let rest = total-le_limit config items in omega (arith, rest)

-- A run makes at most `retryCount + 1` attempts for each of the tests that it started with, and after
-- each step the attempts made and those that the tests queued or held can still use are within that
-- bound.
pub Reach-attempts :
    (config : Config) (limit : ℕ) (queue : Queue QueuedTest) (w : World)
    → Reach config (start limit queue) w
    → w.attempts
        + (total (potential config) w.queue.array + total (potential config) (held w.workers))
      ≤ Queue.size queue * suc (retry_limit config)
unfolding Queue.size
Reach-attempts config limit queue w r =
    omega (arith, Reach-spent config limit queue w r, total-le_limit config queue.array)

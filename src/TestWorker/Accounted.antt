-- ===== src/TestWorker/Accounted.antt =====
-- core/test-worker/src/test-worker-instance.ts: what becomes of each execution.
use testring.Common.{
  ◌∙◌, subst, sym, nat_eq_iff, inl, inr, Bool-cases, ℕ, Bool, true, false, Option, none, some, List,
  [], ◌∷◌, ◌++◌, ◌≡◌, ◌≢◌, map, any, any-append, nat_eq, ◌||◌, ◌&&◌, refl, arith,
}
use testring.TestWorker.{
  Instance, Event, Task, Outcome, TestStatus, send_test, test_sent, complete, worker_exit,
  worker_error, killed, awaiting_worker, preparing, sending, awaiting_queue, delayed_kill, killing,
  resolved, rejected, kill_rejected, files_released, process_killed, idle, done, failing, creating,
  complete_each, end_execution, clear_handlers, Queued, no_queue, failed, init_worker, kill_queued,
  kill_worker, use_worker,
}
use testring.TestWorker.World.{World, after, wake, give_up, left}

-- An event that settles execution `n`.
abbrev pub settles : ℕ → Event → Bool
settles n (resolved m) = nat_eq n m
settles n (rejected m) = nat_eq n m
settles n kill_rejected = false
settles n (process_killed w) = false
settles n files_released = false

-- A task on the way to the test of execution `n`.
abbrev pub concerns : ℕ → Task → Bool
concerns n (awaiting_worker m) = nat_eq n m
concerns n (preparing m) = nat_eq n m
concerns n (sending m) = false
concerns n awaiting_queue = false
concerns n delayed_kill = false
concerns n (killing w) = false

abbrev is_just : ℕ → Option ℕ → Bool
is_just n none = false
is_just n (some m) = nat_eq n m

-- Execution `n` is the one that an exit or a kill ends, and its handler hears of a completion.
abbrev pub has_test : ℕ → Instance → Bool
has_test n i = is_just n i.abort && (is_just n i.success && any (nat_eq n) i.listeners)

-- Settled, on the way, or with the test sent.
abbrev pub is_accounted : ℕ → World → Bool
is_accounted n w = any (settles n) w.events || (any (concerns n) w.tasks || has_test n w.inst)

any-complete_each :
    (n : ℕ) (status : TestStatus) (ns : List ℕ)
    → status ≢ idle
    → any (settles n) (complete_each status ns) ≡ any (nat_eq n) ns
unfolding complete_each
any-complete_each n status [] h = refl
any-complete_each n done (k ∷ ns) h = ground (arith, any-complete_each n done ns h)
any-complete_each n failing (k ∷ ns) h = ground (arith, any-complete_each n failing ns h)
any-complete_each n idle (k ∷ ns) h = absurd (h refl)

pub any-wake :
    (n : ℕ) (tasks : List Task) → any (concerns n) (map wake tasks) ≡ any (concerns n) tasks
any-wake n [] = refl
any-wake n (awaiting_worker m ∷ tasks) = ground (arith, any-wake n tasks)
any-wake n (preparing m ∷ tasks) = ground (arith, any-wake n tasks)
any-wake n (sending m ∷ tasks) = any-wake n tasks
any-wake n (awaiting_queue ∷ tasks) = any-wake n tasks
any-wake n (delayed_kill ∷ tasks) = any-wake n tasks
any-wake n (killing w ∷ tasks) = any-wake n tasks

pub any-give_up :
    (n : ℕ) (tasks : List Task)
    → (any (settles n) (give_up tasks) || any (concerns n) (left tasks)) ≡ any (concerns n) tasks
unfolding give_up left
any-give_up n [] = refl
any-give_up n (awaiting_worker m ∷ tasks) = ground (arith, any-give_up n tasks)
any-give_up n (preparing m ∷ tasks) = ground (arith, any-give_up n tasks)
any-give_up n (sending m ∷ tasks) = any-give_up n tasks
any-give_up n (awaiting_queue ∷ tasks) = any-give_up n tasks
any-give_up n (delayed_kill ∷ tasks) = any-give_up n tasks
any-give_up n (killing w ∷ tasks) = any-give_up n tasks

-- What an outcome of the instance has of execution `n`.
abbrev pub accounts : ℕ → Outcome → Bool
accounts n o = any (settles n) o.events || (any (concerns n) o.tasks || has_test n o.instance_after)

-- An operation that drops no execution whose test was sent.
abbrev pub KeepsListed : ℕ → Instance → Outcome → Type 0
KeepsListed n i o = has_test n i ≡ true → accounts n o ≡ true

end_rejected :
    (n : ℕ) (running : Option ℕ) (i : Instance)
    → is_just n running ≡ true
    → any (settles n) (end_execution rejected running i).events ≡ true
end_rejected n none i h = absurd (ground arith)
end_rejected n (some m) i h = ground arith

end_resolved :
    (n : ℕ) (running : Option ℕ) (i : Instance)
    → is_just n running ≡ true
    → any (settles n) (end_execution resolved running i).events ≡ true
end_resolved n none i h = absurd (ground arith)
end_resolved n (some m) i h = ground arith

has_test-parts :
    (n : ℕ) (i : Instance)
    → has_test n i ≡ true
    → (is_just n i.abort ≡ true)
      × (is_just n i.success ≡ true)
      × (any (nat_eq n) i.listeners ≡ true)
has_test-parts n i h = ground arith

pub worker_exit-settles :
    (n : ℕ) (i : Instance) → has_test n i ≡ true → any (settles n) (worker_exit i).events ≡ true
unfolding worker_exit
worker_exit-settles n i h =
    end_rejected n i.abort (record (clear_handlers i.worker i) { worker = none })
      (has_test-parts n i h).0

pub worker_error-settles :
    (n : ℕ) (i : Instance) → has_test n i ≡ true → any (settles n) (worker_error i).events ≡ true
unfolding worker_error
worker_error-settles n i h = end_rejected n i.abort i (has_test-parts n i h).0

pub killed-settles :
    (n : ℕ) (i : Instance) → has_test n i ≡ true → any (settles n) (killed i).events ≡ true
unfolding killed
killed-settles n i h =
    end_resolved n i.success (record i { worker = none }) (has_test-parts n i h).1

any_listener : (n : ℕ) (ns : List ℕ) → any (nat_eq n) ns ≡ true → any (λ _. true) ns ≡ true
any_listener n [] h = h
any_listener n (k ∷ ns) h = refl

pub complete-settles :
    (n : ℕ) (status : TestStatus) (i : Instance)
    → status ≢ idle
    → has_test n i ≡ true
    → any (settles n) (complete status i).events ≡ true
unfolding complete
complete-settles n status i answers h =
    let listed = (has_test-parts n i h).2 in
    rw (any_listener n i.listeners listed) (any-complete_each n status i.listeners answers ∙ listed)

kill_worker-KeepsListed : (n : ℕ) (w : Option ℕ) (i : Instance) → KeepsListed n i (kill_worker w i)
kill_worker-KeepsListed n none i h = ground arith
kill_worker-KeepsListed n (some w) i h = ground arith

pub kill-KeepsListed : (n : ℕ) (q : Queued) (i : Instance) → KeepsListed n i (kill_queued q i)
kill-KeepsListed n no_queue i h = kill_worker-KeepsListed n i.worker i h
kill-KeepsListed n creating i h = ground arith
kill-KeepsListed n failed i h = ground arith

use_worker-accounts :
    (n : ℕ) (w : Option ℕ) (i : Instance)
    → (accounts n (use_worker n w i) ≡ true)
      × ((use_worker n w i).instance_after.listeners ≡ i.listeners)
use_worker-accounts n none i = ground arith
use_worker-accounts n (some w) i = ground arith

pub init_worker-accounts :
    (n : ℕ) (q : Queued) (i : Instance)
    → (accounts n (init_worker n q i) ≡ true)
      × ((init_worker n q i).instance_after.listeners ≡ i.listeners)
init_worker-accounts n creating i = ground arith
init_worker-accounts n failed i = ground arith
init_worker-accounts n no_queue i =
    ground (arith, use_worker-accounts n i.worker i, use_worker-accounts n none i)

pub send_test-accounts :
    (n : ℕ) (well : Bool) (i : Instance) → accounts n (send_test n well i) ≡ true
unfolding send_test
send_test-accounts n true i = ground (arith, any-append (nat_eq n) i.listeners (n ∷ []))
send_test-accounts n false i = ground arith

pub test_sent-KeepsListed :
    (n m : ℕ) (well : Bool) (i : Instance) → KeepsListed n i (test_sent m well i)
unfolding test_sent
test_sent-KeepsListed n m true i h = ground arith
test_sent-KeepsListed n m false i h = ground arith

pub after-accounted :
    (n : ℕ) (o : Outcome) (others : List Task) (w : World)
    → KeepsListed n w.inst o
    → (any (concerns n) w.tasks ≡ true → (any (concerns n) others || accounts n o) ≡ true)
    → is_accounted n w ≡ true
    → is_accounted n (after o others w) ≡ true
after-accounted n o others w kept waits h = ground (
  arith,
  any-append (settles n) w.events o.events,
  any-append (concerns n) others o.tasks,
  kept,
  waits,
)

pub or_left : (a b : Bool) → a ≡ true → (a || b) ≡ true
or_left a b h = ground arith

pub or_right : (a b : Bool) → b ≡ true → (a || b) ≡ true
or_right a b h = ground arith

-- A task that concerns no execution is taken off.
pub without_task :
    (n : ℕ) (t : Task) (before behind : List Task) (o : Outcome)
    → concerns n t ≡ false
    → any (concerns n) (before ++ t ∷ behind) ≡ true
    → (any (concerns n) (before ++ behind) || accounts n o) ≡ true
without_task n t before behind o none_of h =
    ground
      (arith, any-append (concerns n) before (t ∷ behind), any-append (concerns n) before behind)

pub prepared_task :
    (n m : ℕ) (before behind : List Task) (o : Outcome)
    → accounts m o ≡ true
    → any (concerns n) (before ++ preparing m ∷ behind) ≡ true
    → (any (concerns n) (before ++ behind) || accounts n o) ≡ true
prepared_task n m before behind o settled h = elim (Bool-cases (nat_eq n m)) [
  | inl same ↦
      subst (λ k. (any (concerns k) (before ++ behind) || accounts k o) ≡ true)
        (sym ((nat_eq_iff n m).0 same))
        (or_right (any (concerns m) (before ++ behind)) (accounts m o) settled)
  | inr other ↦ ground (
    arith,
    any-append (concerns n) before (preparing m ∷ behind),
    any-append (concerns n) before behind,
  )
]

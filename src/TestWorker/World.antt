-- ===== src/TestWorker/World.antt =====
-- core/test-worker/src/test-worker-instance.ts: calls of `execute` and `kill`, and what the processes
-- of an instance do, in any order.
use testring.Common.{ℕ, ◌+◌, Bool, true, List, [], ◌∷◌, ◌++◌, ◌≡◌, ◌≢◌, map, any, nat_eq}
use testring.TestWorker.{
  Instance, Event, Task, Outcome, TestStatus, create, execute, created, creation_failed, send_test,
  test_sent, complete, worker_exit, worker_error, kill, killed, awaiting_worker, preparing, sending,
  awaiting_queue, delayed_kill, killing, rejected, kill_rejected, idle, creating,
}

-- An instance, the tasks that wait, the number of executions, and what was made known.
pub record World : Type 0 where
  pub inst : Instance
  pub tasks : List Task
  pub started : ℕ
  pub events : List Event

abbrev pub start : Bool → World
start local_worker = record { inst = create local_worker; tasks = []; started = 0; events = [] }

-- The queued worker is there.
abbrev pub wake : Task → Task
wake (awaiting_worker n) = preparing n
wake awaiting_queue = delayed_kill
wake (preparing n) = preparing n
wake (sending n) = sending n
wake delayed_kill = delayed_kill
wake (killing w) = killing w

-- The queued worker failed: what waited for it is rejected.
unfoldable pub give_up : List Task → List Event
give_up [] = []
give_up (awaiting_worker n ∷ tasks) = rejected n ∷ give_up tasks
give_up (awaiting_queue ∷ tasks) = kill_rejected ∷ give_up tasks
give_up (preparing n ∷ tasks) = give_up tasks
give_up (sending n ∷ tasks) = give_up tasks
give_up (delayed_kill ∷ tasks) = give_up tasks
give_up (killing w ∷ tasks) = give_up tasks

unfoldable pub left : List Task → List Task
left [] = []
left (awaiting_worker n ∷ tasks) = left tasks
left (awaiting_queue ∷ tasks) = left tasks
left (preparing n ∷ tasks) = preparing n ∷ left tasks
left (sending n ∷ tasks) = sending n ∷ left tasks
left (delayed_kill ∷ tasks) = delayed_kill ∷ left tasks
left (killing w ∷ tasks) = killing w ∷ left tasks

-- What a step makes of a world whose other tasks are `others`.
abbrev pub after : Outcome → List Task → World → World
after o others w = record w {
  inst = o.instance_after;
  tasks = others ++ o.tasks;
  events = w.events ++ o.events;
}

pub data Step (w : World) : World → Type 0 where
  executes :
      Step w (record (after (execute w.started w.inst) w.tasks w) { started = w.started + 1 })
  kills : Step w (after (kill w.inst) w.tasks w)
  creates :
      (process : ℕ)
      → w.inst.queued ≡ creating
      → Step w (record w { inst = created process w.inst; tasks = map wake w.tasks })
  fails :
      w.inst.queued ≡ creating
      → Step w (record w {
        inst = creation_failed w.inst;
        tasks = left w.tasks;
        events = w.events ++ give_up w.tasks;
      })
  prepares :
      (n : ℕ) (well : Bool) (before behind : List Task)
      → w.tasks ≡ before ++ preparing n ∷ behind
      → Step w (after (send_test n well w.inst) (before ++ behind) w)
  sends :
      (n : ℕ) (well : Bool) (before behind : List Task)
      → w.tasks ≡ before ++ sending n ∷ behind
      → Step w (after (test_sent n well w.inst) (before ++ behind) w)
  completes :
      (status : TestStatus) → status ≢ idle → Step w (after (complete status w.inst) w.tasks w)
  exits :
      (process : ℕ)
      → any (nat_eq process) w.inst.watched ≡ true
      → Step w (after (worker_exit w.inst) w.tasks w)
  errs :
      (process : ℕ)
      → any (nat_eq process) w.inst.watched ≡ true
      → Step w (after (worker_error w.inst) w.tasks w)
  goes_on_killing :
      (before behind : List Task)
      → w.tasks ≡ before ++ delayed_kill ∷ behind
      → Step w (after (kill w.inst) (before ++ behind) w)
  dies :
      (process : ℕ) (before behind : List Task)
      → w.tasks ≡ before ++ killing process ∷ behind
      → Step w (after (killed w.inst) (before ++ behind) w)

pub data Reach (w : World) : World → Type 0 where
  here : Reach w w
  next : {u v : World} → Reach w u → Step u v → Reach w v

-- ===== src/TestWorker/Killing.antt =====
-- core/test-worker/src/test-worker-instance.ts: the end of a process and what is running on it.
use testring.Common.{
  ap, sym, ℕ, Bool, true, false, Option, none, some, [], ◌∷◌, ◌≡◌, refl, arith, ◌∙◌,
}
use testring.TestWorker.{
  without, use_worker, files_released, kill_worker, create, Instance, Event, Queued, quiet, execute,
  created, creation_failed, send_test, test_sent, complete, worker_exit, worker_error, kill, killed,
  preparing, killing, resolved, rejected, kill_rejected, no_queue, failed, creating, end_execution,
  clear_handlers, init_worker, kill_queued,
}
use testring.TestWorker.World.{
  World, Step, Reach, start, here, next, executes, kills, creates, fails, prepares, sends,
  completes, exits, errs, goes_on_killing, dies,
}

clear_handlers-listeners_kept :
    (w : Option ℕ) (i : Instance) → (clear_handlers w i).listeners ≡ i.listeners
clear_handlers-listeners_kept none i = refl
clear_handlers-listeners_kept (some w) i = refl

-- What a step does to the queued worker and to the two functions that end an execution.
abbrev IsPaired : Instance → Type 0
IsPaired i = i.success ≡ i.abort

end_execution-IsPaired :
    (how : ℕ → Event) (running : Option ℕ) (i : Instance)
    → IsPaired i
    → IsPaired (end_execution how running i).instance_after
end_execution-IsPaired how none i h = h
end_execution-IsPaired how (some n) i h = refl

clear_handlers-IsPaired : (w : Option ℕ) (i : Instance) → IsPaired i → IsPaired (clear_handlers w i)
clear_handlers-IsPaired none i h = h
clear_handlers-IsPaired (some w) i h = h

use_worker-IsPaired :
    (n : ℕ) (w : Option ℕ) (i : Instance) → IsPaired i → IsPaired (use_worker n w i).instance_after
use_worker-IsPaired n none i h = h
use_worker-IsPaired n (some w) i h = h

init_worker-IsPaired :
    (n : ℕ) (q : Queued) (i : Instance) → IsPaired i → IsPaired (init_worker n q i).instance_after
init_worker-IsPaired n creating i h = h
init_worker-IsPaired n failed i h = h
init_worker-IsPaired n no_queue i h = ground (arith, use_worker-IsPaired n i.worker i)

kill_worker-IsPaired :
    (w : Option ℕ) (i : Instance) → IsPaired i → IsPaired (kill_worker w i).instance_after
kill_worker-IsPaired none i h = h
kill_worker-IsPaired (some w) i h = h

kill-IsPaired : (q : Queued) (i : Instance) → IsPaired i → IsPaired (kill_queued q i).instance_after
kill-IsPaired no_queue i h = kill_worker-IsPaired i.worker i h
kill-IsPaired creating i h = h
kill-IsPaired failed i h = h

Step-IsPaired : {w v : World} → Step w v → IsPaired w.inst → IsPaired v.inst
unfolding execute kill created creation_failed send_test test_sent complete worker_exit worker_error
    killed
Step-IsPaired {w} executes h = init_worker-IsPaired w.started w.inst.queued w.inst h
Step-IsPaired {w} kills h = kill-IsPaired w.inst.queued w.inst h
Step-IsPaired (creates process e) h = h
Step-IsPaired (fails e) h = h
Step-IsPaired (prepares n true before behind e) h = refl
Step-IsPaired (prepares n false before behind e) h = h
Step-IsPaired (sends n true before behind e) h = h
Step-IsPaired (sends n false before behind e) h = h
Step-IsPaired (completes status answers) h = ground arith
Step-IsPaired {w} (exits process watched) h =
    end_execution-IsPaired rejected w.inst.abort
      (record (clear_handlers w.inst.worker w.inst) { worker = none })
      (clear_handlers-IsPaired w.inst.worker w.inst h)
Step-IsPaired {w} (errs process watched) h = end_execution-IsPaired rejected w.inst.abort w.inst h
Step-IsPaired {w} (goes_on_killing before behind e) h = kill-IsPaired w.inst.queued w.inst h
Step-IsPaired {w} (dies process before behind e) h =
    end_execution-IsPaired resolved w.inst.success (record w.inst { worker = none }) h

Reach-IsPaired : (local_worker : Bool) {w : World} → Reach (start local_worker) w → IsPaired w.inst
unfolding create
Reach-IsPaired local_worker here = refl
Reach-IsPaired local_worker (next r s) = Step-IsPaired s (Reach-IsPaired local_worker r)

-- Whenever an execution runs, the unexpected exit of its process rejects it, and the end of a kill
-- resolves it; either way nothing runs afterwards, no worker is left, and its handler is removed.
pub exit-or-kill :
    (local_worker : Bool) {w : World} {n : ℕ}
    → Reach (start local_worker) w
    → w.inst.success ≡ some n
    → let gone = worker_exit w.inst in
      let dead = killed w.inst in
      (gone.events ≡ files_released ∷ rejected n ∷ [])
      × (dead.events ≡ resolved n ∷ [])
      × (gone.instance_after.abort ≡ none)
      × (dead.instance_after.abort ≡ none)
      × (gone.instance_after.worker ≡ none)
      × (dead.instance_after.worker ≡ none)
      × (gone.instance_after.listeners ≡ without n w.inst.listeners)
      × (dead.instance_after.listeners ≡ without n w.inst.listeners)
unfolding worker_exit killed
exit-or-kill local_worker {w} {n} r runs =
    let paired = Reach-IsPaired local_worker r in
    let aborts : w.inst.abort ≡ some n = sym paired ∙ runs in
    rw (aborts, runs)
      (
        refl,
        refl,
        refl,
        refl,
        refl,
        refl,
        ap (without n) (clear_handlers-listeners_kept w.inst.worker _),
        refl,
      )

-- An execution that is asked for while a kill waits for the exit of the process is sent to that
-- process, and when the process is gone, it is resolved as if its test had passed.
pub execute-kill :
    (i : Instance) (n w : ℕ)
    → i.local_worker ≡ false
    → i.queued ≡ no_queue
    → i.worker ≡ some w
    → let dying = kill i in
      let asked = execute n dying.instance_after in
      let sent = send_test n true asked.instance_after in
      (dying.tasks ≡ killing w ∷ [])
      × (asked.tasks ≡ preparing n ∷ [])
      × ((killed sent.instance_after).events ≡ resolved n ∷ [])
unfolding execute kill killed send_test
execute-kill i n w remote idle_queue has = ground arith

end_execution-queued :
    (how : ℕ → Event) (running : Option ℕ) (i : Instance)
    → (end_execution how running i).instance_after.queued ≡ i.queued
end_execution-queued how none i = refl
end_execution-queued how (some n) i = refl

clear_handlers-queued : (w : Option ℕ) (i : Instance) → (clear_handlers w i).queued ≡ i.queued
clear_handlers-queued none i = refl
clear_handlers-queued (some w) i = refl

init_worker-failed :
    (n : ℕ) (q : Queued) (i : Instance)
    → q ≡ failed
    → init_worker n q i ≡ record (quiet i) { events = rejected n ∷ [] }
init_worker-failed n no_queue i h = cc
init_worker-failed n creating i h = cc
init_worker-failed n failed i h = refl

kill-failed :
    (q : Queued) (i : Instance)
    → q ≡ failed
    → kill_queued q i ≡ record (quiet i) { events = kill_rejected ∷ [] }
kill-failed no_queue i h = cc
kill-failed creating i h = cc
kill-failed failed i h = refl

Step-failed : {w v : World} → Step w v → w.inst.queued ≡ failed → v.inst.queued ≡ failed
unfolding execute kill created creation_failed send_test test_sent complete worker_exit worker_error
    killed
Step-failed {w} executes h = rw (init_worker-failed w.started w.inst.queued w.inst h) h
Step-failed {w} kills h = rw (kill-failed w.inst.queued w.inst h) h
Step-failed (creates process e) h = absurd (cc)
Step-failed (fails e) h = refl
Step-failed (prepares n true before behind e) h = h
Step-failed (prepares n false before behind e) h = h
Step-failed (sends n true before behind e) h = h
Step-failed (sends n false before behind e) h = h
Step-failed (completes status answers) h = ground arith
Step-failed {w} (exits process watched) h =
    end_execution-queued rejected w.inst.abort
      (record (clear_handlers w.inst.worker w.inst) { worker = none })
    ∙ clear_handlers-queued w.inst.worker w.inst
    ∙ h
Step-failed {w} (errs process watched) h = end_execution-queued rejected w.inst.abort w.inst ∙ h
Step-failed {w} (goes_on_killing before behind e) h = rw (kill-failed w.inst.queued w.inst h) h
Step-failed {w} (dies process before behind e) h =
    end_execution-queued resolved w.inst.success (record w.inst { worker = none }) ∙ h

Reach-failed : {w v : World} → w.inst.queued ≡ failed → Reach w v → v.inst.queued ≡ failed
Reach-failed h here = h
Reach-failed h (next r s) = Step-failed s (Reach-failed h r)

-- Once the worker of an instance failed to start, it is never tried again: from then on, after any
-- further calls and events, every execution is rejected at once and so is every kill.
pub Reach-rejects :
    {w v : World}
    → w.inst.queued ≡ failed
    → Reach w v
    → (n : ℕ)
    → (execute n v.inst ≡ record (quiet v.inst) { events = rejected n ∷ [] })
      × (kill v.inst ≡ record (quiet v.inst) { events = kill_rejected ∷ [] })
unfolding execute kill
Reach-rejects {v} h r n =
    let f = Reach-failed h r in
    (init_worker-failed n v.inst.queued v.inst f, kill-failed v.inst.queued v.inst f)

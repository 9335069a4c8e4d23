-- ===== src/TestWorker/Sequence.antt =====
-- core/test-worker/src/test-worker-instance.ts: executions that come one after the other.
use testring.Common.{
  if◌then◌else◌, ◌∙◌, ◌⊎◌, none, some, Option, sym, subst, nat_eq_iff, inl, inr, Bool-cases, ℕ, suc,
  ◌+◌, ◌<◌, Bool, true, false, List, ◌∷◌, ◌++◌, ◌≡◌, any, any-append, refl, arith,
}
use testring.TestWorker.{
  Instance, Task, Outcome, TestStatus, Event, Queued, creating, failed, no_queue, use_worker,
  init_worker, kill_queued, kill_worker, end_execution, resolved, rejected, execute, kill, created,
  creation_failed, send_test, test_sent, complete, worker_exit, worker_error, killed, preparing,
  sending, delayed_kill, killing,
}
use testring.TestWorker.World.{
  World, Step, start, after, give_up, left, executes, kills, creates, fails, prepares, sends,
  completes, exits, errs, goes_on_killing, dies,
}
use testring.TestWorker.Accounted.{settles, concerns, any-wake, any-give_up, or_left}

-- No execution is on the way to its test, and every one that was started is settled.
abbrev pub IsIdle : World → Type 0
IsIdle w =
    (k : ℕ) → (any (concerns k) w.tasks ≡ false) × (k < w.started → any (settles k) w.events ≡ true)

-- Any steps in which an execution starts only while the instance is idle.
pub data OneByOne (w : World) : World → Type 0 where
  starts : OneByOne w w
  goes : {u v : World} → OneByOne w u → Step u v → (v.started ≡ u.started) ⊎ IsIdle u → OneByOne w v

-- Only the last execution is on the way; those before it are settled.
abbrev pub IsLast : World → Type 0
IsLast w =
    (k : ℕ)
    → (any (concerns k) w.tasks ≡ true → suc k ≡ w.started)
      × (suc k < w.started → any (settles k) w.events ≡ true)

IsLast-same :
    (w v : World)
    → v.started ≡ w.started
    → ((k : ℕ) → any (concerns k) v.tasks ≡ true → any (concerns k) w.tasks ≡ true)
    → ((k : ℕ) → any (settles k) w.events ≡ true → any (settles k) v.events ≡ true)
    → IsLast w
    → IsLast v
IsLast-same w v same fewer more q k =
    (λ c. (q k).0 (fewer k c) ∙ sym same, λ l. more k ((q k).1 (subst (λ z. suc k < z) same l)))

fewer_tasks :
    (k : ℕ) (t : Task) (before behind : List Task)
    → any (concerns k) (before ++ behind) ≡ true
    → any (concerns k) (before ++ t ∷ behind) ≡ true
fewer_tasks k t before behind h =
    ground
      (arith, any-append (concerns k) before behind, any-append (concerns k) before (t ∷ behind))

use_worker-tasks :
    (n k : ℕ) (w : Option ℕ) (i : Instance)
    → any (concerns k) (use_worker n w i).tasks ≡ true
    → k ≡ n
use_worker-tasks n k none i h = (nat_eq_iff k n).0 (ground (arith, h))
use_worker-tasks n k (some w) i h = (nat_eq_iff k n).0 (ground (arith, h))

remote_or_local :
    (n k : ℕ) (local_worker : Bool) (i : Instance)
    → any (concerns k) (if local_worker then use_worker n none i else use_worker n i.worker i).tasks
      ≡ true
    → k ≡ n
remote_or_local n k true i h = use_worker-tasks n k none i h
remote_or_local n k false i h = use_worker-tasks n k i.worker i h

init_worker-tasks :
    (n k : ℕ) (q : Queued) (i : Instance)
    → any (concerns k) (init_worker n q i).tasks ≡ true
    → k ≡ n
init_worker-tasks n k creating i h = (nat_eq_iff k n).0 (ground (arith, h))
init_worker-tasks n k failed i h = absurd (ground (arith, h))
init_worker-tasks n k no_queue i h = remote_or_local n k i.local_worker i h

kill-tasks : (k : ℕ) (q : Queued) (i : Instance) → any (concerns k) (kill_queued q i).tasks ≡ false
kill-tasks k creating i = refl
kill-tasks k failed i = refl
kill-tasks k no_queue i = elim i.worker as (λ w. any (concerns k) (kill_worker w i).tasks ≡ false) [
  | none ↦ refl
  | some w ↦ refl
]

send_test-tasks :
    (n k : ℕ) (well : Bool) (i : Instance) → any (concerns k) (send_test n well i).tasks ≡ false
unfolding send_test
send_test-tasks n k true i = refl
send_test-tasks n k false i = refl

test_sent-tasks :
    (n k : ℕ) (well : Bool) (i : Instance) → any (concerns k) (test_sent n well i).tasks ≡ false
unfolding test_sent
test_sent-tasks n k true i = refl
test_sent-tasks n k false i = refl

end-tasks :
    (k : ℕ) (how : ℕ → Event) (running : Option ℕ) (i : Instance)
    → any (concerns k) (end_execution how running i).tasks ≡ false
end-tasks k how none i = refl
end-tasks k how (some n) i = refl

complete-tasks :
    (k : ℕ) (status : TestStatus) (i : Instance)
    → any (concerns k) (complete status i).tasks ≡ false
unfolding complete
complete-tasks k status i = elim (Bool-cases (any (λ _. true) i.listeners)) [
  | inl some_hear ↦ rw some_hear refl
  | inr none_hear ↦ rw none_hear refl
]

-- A step that answers with `o` and leaves the tasks `others`.
IsLast-after :
    (w : World) (o : Outcome) (others : List Task)
    → ((k : ℕ) → any (concerns k) o.tasks ≡ false)
    → ((k : ℕ) → any (concerns k) others ≡ true → any (concerns k) w.tasks ≡ true)
    → IsLast w
    → IsLast (after o others w)
IsLast-after w o others none_of fewer =
    IsLast-same w (after o others w) refl
      (λ k c. fewer k (ground (arith, any-append (concerns k) others o.tasks, none_of k, c)))
      (λ k c. any-append (settles k) w.events o.events ∙ or_left _ _ c)

fewer_left :
    (k : ℕ) (tasks : List Task)
    → any (concerns k) (left tasks) ≡ true
    → any (concerns k) tasks ≡ true
fewer_left k tasks h = ground (arith, any-give_up k tasks, h)

IsLast-execute :
    (w : World)
    → IsIdle w
    → IsLast (record (after (execute w.started w.inst) w.tasks w) { started = w.started + 1 })
unfolding execute
IsLast-execute w idle k = (
  λ c.
      let e = init_worker-tasks w.started k w.inst.queued w.inst (
        ground (
          arith,
          any-append (concerns k) w.tasks (init_worker w.started w.inst.queued w.inst).tasks,
          (idle k).0,
          c,
        )) in
      ground (arith, e),
  λ l.
      any-append (settles k) w.events (init_worker w.started w.inst.queued w.inst).events
      ∙ or_left _ _ ((idle k).1 (ground (arith, l))),
)

IsLast-Step : {w v : World} → Step w v → (v.started ≡ w.started) ⊎ IsIdle w → IsLast w → IsLast v
unfolding kill created creation_failed worker_exit worker_error killed
IsLast-Step {w} executes (inl same) q = absurd (ground (arith, same))
IsLast-Step {w} executes (inr idle) q = IsLast-execute w idle
IsLast-Step {w} kills a q =
    IsLast-after w (kill w.inst) w.tasks (λ k. kill-tasks k w.inst.queued w.inst) (λ k c. c) q
IsLast-Step {w} {v} (creates process e) a q =
    IsLast-same w v refl (λ k c. sym (any-wake k w.tasks) ∙ c) (λ k c. c) q
IsLast-Step {w} {v} (fails e) a q =
    IsLast-same w v refl (λ k c. fewer_left k w.tasks c)
      (λ k c. any-append (settles k) w.events (give_up w.tasks) ∙ or_left _ _ c) q
IsLast-Step {w} (prepares m well before behind e) a q =
    IsLast-after w (send_test m well w.inst) (before ++ behind)
      (λ k. send_test-tasks m k well w.inst)
      (λ k c. rw e (fewer_tasks k (preparing m) before behind c)) q
IsLast-Step {w} (sends m well before behind e) a q =
    IsLast-after w (test_sent m well w.inst) (before ++ behind)
      (λ k. test_sent-tasks m k well w.inst)
      (λ k c. rw e (fewer_tasks k (sending m) before behind c)) q
IsLast-Step {w} (completes status answers) a q =
    IsLast-after w (complete status w.inst) w.tasks (λ k. complete-tasks k status w.inst) (λ k c. c)
      q
IsLast-Step {w} (exits process watched) a q =
    IsLast-after w (worker_exit w.inst) w.tasks (λ k. end-tasks k rejected w.inst.abort _)
      (λ k c. c) q
IsLast-Step {w} (errs process watched) a q =
    IsLast-after w (worker_error w.inst) w.tasks (λ k. end-tasks k rejected w.inst.abort w.inst)
      (λ k c. c) q
IsLast-Step {w} (goes_on_killing before behind e) a q =
    IsLast-after w (kill w.inst) (before ++ behind) (λ k. kill-tasks k w.inst.queued w.inst)
      (λ k c. rw e (fewer_tasks k delayed_kill before behind c)) q
IsLast-Step {w} (dies process before behind e) a q =
    IsLast-after w (killed w.inst) (before ++ behind) (λ k. end-tasks k resolved w.inst.success _)
      (λ k c. rw e (fewer_tasks k (killing process) before behind c)) q

pub OneByOne-IsLast : (local_worker : Bool) {w : World} → OneByOne (start local_worker) w → IsLast w
OneByOne-IsLast local_worker starts =
    λ k. (λ c. absurd (ground (arith, c)), λ l. absurd (ground (arith, l)))
OneByOne-IsLast local_worker (goes r s a) = IsLast-Step s a (OneByOne-IsLast local_worker r)

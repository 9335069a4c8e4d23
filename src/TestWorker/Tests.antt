-- ===== src/TestWorker/Tests.antt =====
-- core/test-worker/src/test-worker-instance.ts: executions on processes that start, answer and exit.
use testring.Common.{
  ◌⊎◌, inl, inr, arith, true, false, Option, none, some, String, [], ◌∷◌, ◌≡◌, refl,
}
use Prim.Native.String.{◌++◌ as concat}
use testring.TestWorker.{
  sending, failing, complete_each, Instance, create, execute, send_test, kill, killed, worker_exit,
  created, complete, failed, no_queue, quiet, resolved, rejected, kill_rejected, files_released,
  killing, preparing, without,
}
use testring.TestWorker.World.{World, Reach, start, here, next, executes, creates, prepares}
use testring.TestWorker.Sequence.{IsIdle, OneByOne, starts, goes}
use testring.TestWorker.Heard.{Hears, OneByOne-Hears}
use testring.TestWorker.Killing.{exit-or-kill, execute-kill, Reach-rejects}
use testring.TestWorker.Compile.{compile_source, compile_all, compile_source-compile}

-- One execution, whose process 7 has started and has the test.
abbrev busy : Instance
busy = record {
  local_worker = false;
  success = some 0;
  abort = some 0;
  worker = some 7;
  queued = no_queue;
  listeners = 0 ∷ [];
  watched = 7 ∷ [];
}

abbrev running : World
running = record { inst = busy; tasks = sending 0 ∷ []; started = 1; events = [] }

running_reached : Reach (start false) running
unfolding execute create created send_test
running_reached = next (next (next here executes) (creates 7 refl)) (prepares 0 true [] [] refl)

-- The one execution is started while nothing is.
before_first : IsIdle (start false)
unfolding create
before_first k = (refl, λ l. absurd (omega arith))

running_alone : OneByOne (start false) running
unfolding execute create created send_test
running_alone =
    goes (goes (goes starts executes (inr before_first)) (creates 7 refl) (inl refl))
      (prepares 0 true [] [] refl) (inl refl)

OneByOne-Hears_example : (false ≡ true) ⊎ ((false ≡ true) ⊎ Hears 0 busy)
OneByOne-Hears_example = OneByOne-Hears false running_alone 0 (omega arith)

exit-or-kill_example :
    let gone = worker_exit busy in
    let dead = killed busy in
    (gone.events ≡ files_released ∷ rejected 0 ∷ [])
    × (dead.events ≡ resolved 0 ∷ [])
    × (gone.instance_after.abort ≡ none)
    × (dead.instance_after.abort ≡ none)
    × (gone.instance_after.worker ≡ none)
    × (dead.instance_after.worker ≡ none)
    × (gone.instance_after.listeners ≡ without 0 (0 ∷ []))
    × (dead.instance_after.listeners ≡ without 0 (0 ∷ []))
exit-or-kill_example = exit-or-kill false running_reached refl

-- The test fails, and then its process is killed.
after_answer : (complete failing busy).events ≡ rejected 0 ∷ []
unfolding complete complete_each
after_answer = refl

abbrev idle_instance : Instance
idle_instance = record busy { success = none; abort = none; listeners = [] }

execute-kill_example :
    let dying = kill idle_instance in
    let asked = execute 1 dying.instance_after in
    let sent = send_test 1 true asked.instance_after in
    (dying.tasks ≡ killing 7 ∷ [])
    × (asked.tasks ≡ preparing 1 ∷ [])
    × ((killed sent.instance_after).events ≡ resolved 1 ∷ [])
execute-kill_example = execute-kill idle_instance 1 7 refl refl refl

-- A fork that failed.
abbrev no_fork : World
no_fork = record {
  inst = record (create false) { queued = failed };
  tasks = [];
  started = 1;
  events = rejected 0 ∷ [];
}

Reach-rejects_example :
    (execute 1 no_fork.inst ≡ record (quiet no_fork.inst) { events = rejected 1 ∷ [] })
    × (kill no_fork.inst ≡ record (quiet no_fork.inst) { events = kill_rejected ∷ [] })
Reach-rejects_example = Reach-rejects {w = no_fork} refl here 1

-- A compiler that looks at the source only, and one that prints the name.
abbrev plain : String → String → Option String
plain source filename = some (concat "js:" source)

abbrev naming : String → String → Option String
naming source filename = some (concat filename source)

compile_source-compile_example :
    (compile_source plain "x" "b.ts" (compile_all plain (("x", "a.ts") ∷ ("y", "c.ts") ∷ []) [])).0
    ≡ plain "x" "b.ts"
compile_source-compile_example =
    compile_source-compile plain (λ source one other. refl) (("x", "a.ts") ∷ ("y", "c.ts") ∷ []) "x"
      "b.ts"

-- ===== src/StoreServer/World.antt =====
-- core/fs-store/src/fs-store-server.ts: a server with the tasks that wait and the responses that it
-- sent. Messages come at any time, and any task that can go on may go on next.
use testring.Common.{map, ℕ, Bool, Option, String, List, [], ◌∷◌, ◌++◌, ◌≡◌, nat_eq, if◌then◌else◌}
use testring.StoreServer.{
  Server, Outcome, Request, Task, Action, create, init, Sent, requested, granted, waiting, acquired,
  releasing, queued_release, released,
}
use testring.StoreServer.Tasks.{Answer, on_request, on_release, on_clean, resume}

pub record World : Type 0 where
  pub server : Server
  pub tasks : List Task
  pub sent : List Sent

abbrev pub start : ℕ → World
start thread_count = record { server = (init (create thread_count)).1; tasks = []; sent = [] }

-- The task that awaits the promise `n` goes on with its value.
pub settle_one : ℕ → Bool → Task → Task
settle_one n allow (waiting m action item file) =
    if nat_eq m n then acquired allow action item file else waiting m action item file
settle_one n allow (requested worker_id m name) = requested worker_id m name
settle_one n allow (granted action item file) = granted action item file
settle_one n allow (acquired a action item file) = acquired a action item file
settle_one n allow (releasing worker_id m name) = releasing worker_id m name
settle_one n allow (queued_release action item file) = queued_release action item file
settle_one n allow (released action item file) = released action item file

unfoldable pub settle : List (ℕ × Bool) → List Task → List Task
unfolding settle_one
settle [] tasks = tasks
settle ((n, allow) ∷ more) tasks = settle more (map (settle_one n allow) tasks)

-- What a step makes of a world whose other tasks are `others`.
abbrev pub after : Outcome → List Task → List Sent → World
after o others sent = record {
  server = o.server;
  tasks = settle o.settled (others ++ o.tasks);
  sent = sent ++ o.sent;
}

module _ (temp_path : String → String) where
  pub data Step (w : World) : World → Type 0 where
    asks :
        (unique : String) (worker_id : Option String) (m : Request)
        → Step w (after (on_request unique worker_id m w.server) w.tasks w.sent)
    gives_back :
        (worker_id : Option String) (m : Request)
        → Step w (after (on_release worker_id m w.server) w.tasks w.sent)
    cleans :
        (worker_id : Option String) (action : Option Action)
        → Step w (after (on_clean worker_id action w.server) w.tasks w.sent)
    goes_on :
        (found : Answer) (task : Task) (before behind : List Task)
        → w.tasks ≡ before ++ task ∷ behind
        → Step w (after (resume temp_path found task w.server) (before ++ behind) w.sent)

  pub data Reach (w : World) : World → Type 0 where
    here : Reach w w
    next : {u v : World} → Reach w u → Step u v → Reach w v

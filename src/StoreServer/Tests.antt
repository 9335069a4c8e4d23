-- ===== src/StoreServer/Tests.antt =====
-- core/fs-store/src/fs-store-server.ts: a server with one file and two workers.
use testring.Common.{true, none, some, String, [], ◌∷◌, ◌≡◌, refl}
use testring.Common.Dict.{get}
use testring.FilePermission
use testring.FilePermission.{hook_access, try_access, Item}
use testring.Common.Dict
use testring.Queue
use testring.MultiLock
use testring.LockPool.{notify, release_removed, acquire_action}
use testring.LockPool
use Prim.Native.String.{◌++◌ as concat}
use testring.FilePermission.Call.{step}
use testring.StoreServer.{
  Entry, step, put, apply_call, Server, Request, Task, Action, create, init, send, access, lock,
  release, requested, done, sent_to, find,
}
use testring.StoreServer.Tasks.{Answer, nothing, full_path, resume, on_request, on_release}
use testring.StoreServer.World.{settle, World, Reach, start, after, here, next, asks}
use testring.StoreServer.Replies.{lock-Answers, lock_answer, resolver_of}

abbrev temp : String → String
temp name = concat "/tmp/" name

abbrev ask : Action → String → Request
ask action id = record { request_id = id; action = action; file_name = some "a.txt"; ext = none }

abbrev file : String
file = "/tmp/a.txt"

-- The first task goes on.
resumed : Answer → World → World
unfolding resume settle init create apply_call find put step try_access hook_access
    FilePermission.release_access LockPool.acquire LockPool.release LockPool.release_pool
    LockPool.create get Dict.set Dict.has Dict.remove Dict.add Dict.delete FilePermission.create
    Queue.shift Queue.push Queue.create Queue.extract MultiLock.acquire MultiLock.create
    MultiLock.release send notify release_removed acquire_action
resumed found w = elim w.tasks [
  | [] ↦ w
  | task ∷ others ↦ after (resume temp found task w.server) others w.sent
]

asked : String → Request → World → World
unfolding on_request
asked worker_id m w = after (on_request "id" (some worker_id) m w.server) w.tasks w.sent

given_back : String → Request → World → World
unfolding on_release
given_back worker_id m w = after (on_release (some worker_id) m w.server) w.tasks w.sent

-- Ann has access to the file.
has_access : World
unfolding asked resumed
has_access =
    resumed nothing (resumed nothing (resumed nothing (asked "ann" (ask access "1") (start 2))))

access_answered :
    (has_access.tasks ≡ [])
    × (has_access.sent
        ≡ sent_to "ann"
            (record { request_id = "1"; full_path = file; action = access; status = done })
          ∷ [])
unfolding has_access
access_answered = (refl, refl)

-- Ben's request waits for the file; then Ann gives it back.
both_ask : World
unfolding resumed asked
both_ask = resumed nothing (asked "ben" (ask access "2") has_access)

back_to_ben : World
unfolding resumed given_back
back_to_ben = resumed nothing (
    resumed nothing (
      resumed nothing
        (resumed nothing (resumed nothing (given_back "ann" (ask access "1") both_ask)))))

handed_over :
    (both_ask.tasks ≡ [])
    × (back_to_ben.tasks ≡ [])
    × (back_to_ben.sent
        ≡ sent_to "ann"
            (record { request_id = "1"; full_path = file; action = access; status = done })
          ∷ sent_to "ann"
              (record { request_id = "1"; full_path = file; action = release; status = done })
          ∷ sent_to "ben"
              (record { request_id = "2"; full_path = file; action = access; status = done })
          ∷ [])
unfolding both_ask back_to_ben has_access
handed_over = (refl, refl, refl)

-- Ann asks for a lock, and its task is all that a server has to do.
abbrev lock_task : Task
lock_task = requested "ann" (ask lock "1") "a.txt"

abbrev lock_asked : World
lock_asked = after (on_request "id" (some "ann") (ask lock "1") (start 2).server) [] []

lock_asked_reached : Reach temp (start 2) lock_asked
lock_asked_reached = next here (asks "id" (some "ann") (ask lock "1"))

lock-Answers_example :
    ((resume temp nothing lock_task lock_asked.server).tasks ≡ [])
    × ((resume temp nothing lock_task lock_asked.server).sent
        ≡ lock_answer "ann" (ask lock "1") file (resolver_of file lock_asked.server) ∷ [])
unfolding full_path
lock-Answers_example =
    lock-Answers temp 2 lock_asked_reached nothing "ann" (ask lock "1") "a.txt" refl refl

abbrev ben_item : Item
ben_item = record { worker_id = "ben"; request_id = "2" }

-- The file, which Ann has and Ben waits for.
abbrev busy : Entry
busy = record {
  resolver = record (FilePermission.create file) {
    accessing = true;
    access_queue = record { array = ben_item ∷ [] };
  };
  callbacks = [];
}

abbrev busy_server : Server
busy_server = record (create 2) {
  files = (file, busy) ∷ [];
  in_work = ("ben", ("2", (access, file)) ∷ []) ∷ [];
}

-- ===== src/StoreServer.antt =====
-- core/fs-store/src/fs-store-server.ts: the class FSStoreServer, whose files are each kept by a
-- FilePermissionResolver beside the clean-up callbacks of what it granted, and whose pool is a
-- LockPool. The path of a file is joined to the temporary directory by `temp_path`.
pub mod Tasks
pub mod World
pub mod Parts
pub mod Replies
mod Tests
use testring.Common.{
  ◌==◌, ◌||◌, truthy, false, not, if◌then◌else◌, true, ℕ, Bool, Option, none, some, String, List,
  [], ◌∷◌, ◌++◌,
}
use testring.Common.Dict.{Dict, get, set, keys}
use testring.FilePermission
use testring.FilePermission.{FilePermissionResolver, Item}
use testring.FilePermission.Call.{releases_unlink, releases_access, unlocks, Call, step}
use testring.LockPool
use testring.LockPool.{LockPool}

pub data Action : Type 0 where
  access lock unlink release : Action

pub data ServerState : Type 0 where
  new init_started initialized : ServerState

-- The texts of `status`.
pub data Status : Type 0 where
  done no_file_name_for_unlink impossible_to_lock impossible_to_access no_access : Status
  invalid_full_path no_exist : Status

pub record Request : Type 0 where
  pub request_id : String
  pub action : Action
  pub file_name : Option String
  pub ext : Option String

pub record Response : Type 0 where
  pub request_id : String
  pub full_path : String
  pub action : Action
  pub status : Status

-- How a response goes out.
pub data Sent : Type 0 where
  broadcast : Response → Sent
  sent_to : String → Response → Sent

-- `DW_ID`, for a message of the main process.
abbrev pub dw_id : String
dw_id = "*"

unfoldable pub send : String → Response → Sent
send worker_id response =
    if not (truthy worker_id) || worker_id == dw_id
    then broadcast response
    else sent_to worker_id response

-- A file: its resolver, and the clean-up callbacks by worker and request. A callback is the call of
-- the resolver that it makes.
pub record Entry : Type 0 where
  pub resolver : FilePermissionResolver
  pub callbacks : Dict (Dict Call)

pub record Server : Type 0 where
  pub state : ServerState
  pub pool : LockPool
  pub files : Dict Entry
  pub in_work : Dict (Dict (Action × String))
  pub used_files : List String

-- The constructor, before `init`.
unfoldable pub create : ℕ → Server
create thread_count = record {
  state = new;
  pool = LockPool.create thread_count;
  files = [];
  in_work = [];
  used_files = [];
}

abbrev init_new : ServerState → Server → Bool × Server
init_new new s = (true, record s { state = initialized })
init_new init_started s = (false, s)
init_new initialized s = (false, s)

-- Whether the listeners were registered; a second call does nothing.
pub init : Server → Bool × Server
init s = init_new s.state s

unfoldable pub get_name_list : Server → List String
get_name_list s = keys s.files

abbrev entries {ℓ} : {V : Type ℓ} → Option (Dict V) → Dict V
entries none = []
entries (some d) = d

-- `record[outer] = record[outer] || {}; record[outer][inner] = value`
pub put {ℓ} : {V : Type ℓ} → String → String → V → Dict (Dict V) → Dict (Dict V)
put outer inner v d = set outer (set inner v (entries (get outer d))) d

-- `record[outer] && record[outer][inner]`
pub find {ℓ} : {V : Type ℓ} → String → String → Dict (Dict V) → Option V
find outer inner d = get inner (entries (get outer d))

-- A task is what an asynchronous call has left to do at an `await`.
pub data Task : Type 0 where
  requested : String → Request → String → Task
  granted : Action → Item → String → Task
  waiting : ℕ → Action → Item → String → Task
  acquired : Bool → Action → Item → String → Task
  releasing : String → Request → String → Task
  queued_release : Action → Item → String → Task
  released : Action → Item → String → Task

-- What a step leaves: the server, the tasks that it starts, the responses that it sends, in order,
-- and the promises of the pool that it settles.
pub record Outcome : Type 0 where
  pub server : Server
  pub tasks : List Task
  pub sent : List Sent
  pub settled : List (ℕ × Bool)

abbrev pub quiet : Server → Outcome
quiet s = record { server = s; tasks = []; sent = []; settled = [] }

abbrev pub answer : String → Response → Server → Outcome
answer worker_id response s = record {
  server = s;
  tasks = [];
  sent = send worker_id response ∷ [];
  settled = [];
}

-- One step, and then another on the server that it leaves.
abbrev pub then_do : Outcome → (Server → Outcome) → Outcome
then_do o f =
    let p = f o.server in
    record {
      server = p.server;
      tasks = o.tasks ++ p.tasks;
      sent = o.sent ++ p.sent;
      settled = o.settled ++ p.settled;
    }

abbrev with_callback : String → Item → Call → Option Entry → Server → Server
with_callback path item call none s = s
with_callback path item call (some e) s = record s {
  files =
      set path (record e { callbacks = put item.worker_id item.request_id call e.callbacks })
        s.files;
}

-- `releaseCBRec[workerId][requestId] = releaseCb`
pub set_callback : String → Item → Call → Server → Server
unfolding put
set_callback path item call s = with_callback path item call (get path s.files) s

abbrev response : Action → Item → String → Status → Response
response action item path status = record {
  request_id = item.request_id;
  full_path = path;
  action = action;
  status = status;
}

-- What the callbacks of the requests do when their file is granted: a lock is answered at once, the
-- others ask for the queue first. The hooks of the resolver have no plugins here.
abbrev pub handle_event : String → FilePermission.Event → Server → Outcome
handle_event path (FilePermission.lock_granted item status) s =
    answer item.worker_id (response lock item path done) (set_callback path item (unlocks item) s)
handle_event path (FilePermission.access_granted item) s =
    record (quiet (set_callback path item (releases_access item) s)) {
      tasks = granted access item path ∷ [];
    }
handle_event path (FilePermission.unlink_granted item status) s =
    record (quiet (set_callback path item (releases_unlink item) s)) {
      tasks = granted unlink item path ∷ [];
    }
handle_event path (FilePermission.fired hook item) s = quiet s
handle_event path (FilePermission.fired_clean hook worker_id) s = quiet s

pub handle_events : String → List FilePermission.Event → Server → Outcome
unfolding set_callback
handle_events path [] s = quiet s
handle_events path (event ∷ events) s =
    then_do (handle_event path event s) (handle_events path events)

abbrev with_resolver : String → Option Entry → FilePermissionResolver → Server → Server
with_resolver path none f s = s
with_resolver path (some e) f s = record s { files = set path (record e { resolver = f }) s.files }

-- A call of the resolver of a file, with what its callbacks do.
pub apply_result : String → List FilePermission.Event × FilePermissionResolver → Server → Outcome
unfolding handle_events
apply_result path (events, f) s =
    handle_events path events (with_resolver path (get path s.files) f s)

abbrev apply_to : String → Call → Option Entry → Server → Outcome
apply_to path call none s = quiet s
apply_to path call (some e) s = apply_result path (step call e.resolver) s

pub apply_call : String → Call → Server → Outcome
unfolding apply_result
apply_call path call s = apply_to path call (get path s.files) s

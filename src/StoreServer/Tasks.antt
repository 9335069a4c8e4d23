-- ===== src/StoreServer/Tasks.antt =====
-- core/fs-store/src/fs-store-server.ts: the handlers of the three messages, and what RequestAction
-- and ReleaseAction do between one `await` and the next.
use testring.Common.{
  if◌then◌else◌, Bool, true, false, Option, none, some, String, List, [], ◌∷◌, ◌==◌, truthy, named,
  not, ◌||◌,
}
use testring.Common.Dict.{Dict, get, set, keys, add, remove, is_some}
use testring.FilePermission
use testring.FilePermission.{FilePermissionResolver, Item}
use testring.FilePermission.Call.{cleans_unlink, cleans_lock, unlocks, cleans_access, Call}
use testring.LockPool
use Prim.Native.String.{◌++◌ as concat}
use testring.StoreServer.{
  no_access, access, lock, unlink, release, queued_release, releasing, impossible_to_access,
  no_exist, done, granted, invalid_full_path, impossible_to_lock, waiting, Entry, apply_result,
  find, apply_call, acquired, put, requested, then_do, no_file_name_for_unlink, released, dw_id,
  Server, Outcome, Request, Response, Task, Action, Status, quiet, answer,
}

-- What the hooks that name a file answer: a path, nothing, or an error.
pub data Answer : Type 0 where
  path : String → Answer
  nothing : Answer
  threw : Answer

abbrev pub or_default : String → Option String → String
or_default d none = d
or_default d (some s) = s

abbrev start_request : String → Request → String → Server → Outcome
start_request worker_id m name s = record (quiet s) {
  tasks = requested (if truthy worker_id then worker_id else dw_id) m name ∷ [];
}

abbrev pub unnamed_request : String → String → Request → Action → Server → Outcome
unnamed_request unique worker_id m unlink s =
    answer worker_id
      (record {
        request_id = m.request_id;
        full_path = "";
        action = unlink;
        status = no_file_name_for_unlink;
      })
      s
unnamed_request unique worker_id m other s =
    start_request worker_id m (concat unique (concat "_." (or_default "tmp" m.ext))) s

abbrev pub named_request : String → String → Request → Option String → Server → Outcome
named_request unique worker_id m none s = unnamed_request unique worker_id m m.action s
named_request unique worker_id m (some name) s = start_request worker_id m name s

-- The handler of a request; `unique` is what `generateUniqId` gives.
unfoldable pub on_request : String → Option String → Request → Server → Outcome
on_request unique worker_id m s =
    named_request unique (or_default dw_id worker_id) m (named m.file_name) s

abbrev pub named_release : String → Request → Option String → Server → Outcome
named_release worker_id m none s =
    answer worker_id
      (record {
        request_id = m.request_id;
        full_path = "";
        action = release;
        status = invalid_full_path;
      })
      s
named_release worker_id m (some name) s = record (quiet s) {
  tasks = releasing worker_id m name ∷ [];
}

-- The handler of a release, which is ReleaseAction up to its first `await`.
unfoldable pub on_release : Option String → Request → Server → Outcome
on_release worker_id m s = named_release (or_default dw_id worker_id) m (named m.file_name) s

abbrev pub clean_calls : Option Action → String → List Call
clean_calls none worker_id =
    cleans_access (some worker_id)
    ∷ cleans_lock (some worker_id)
    ∷ cleans_unlink (some worker_id)
    ∷ []
clean_calls (some access) worker_id = cleans_access (some worker_id) ∷ []
clean_calls (some lock) worker_id = cleans_lock (some worker_id) ∷ []
clean_calls (some unlink) worker_id = cleans_unlink (some worker_id) ∷ []
clean_calls (some release) worker_id = []

unfoldable pub apply_each : String → List Call → Server → Outcome
unfolding apply_call
apply_each file [] s = quiet s
apply_each file (call ∷ calls) s = then_do (apply_call file call s) (apply_each file calls)

unfoldable pub clean_each : List Call → List String → Server → Outcome
unfolding apply_each
clean_each calls [] s = quiet s
clean_each calls (file ∷ files) s = then_do (apply_each file calls s) (clean_each calls files)

-- The handler of a clean, which is ClearAction.
unfoldable pub on_clean : Option String → Option Action → Server → Outcome
unfolding clean_each
on_clean worker_id action s =
    clean_each (clean_calls action (or_default dw_id worker_id)) (keys s.files) s

module _ (temp_path : String → String) where
  -- `generateUniqFullPath`, where `none` is the error of a hook.
  unfoldable pub full_path : Answer → String → Option String
  full_path (path file) name =
      some (if not (truthy file) || file == name then temp_path name else file)
  full_path nothing name = some (temp_path name)
  full_path threw name = none

unfoldable pub use_file : String → Server → Server
use_file file s = record s { used_files = add file s.used_files }

abbrev ensure_file : String → Option Entry → Server → Server
ensure_file file (some e) s = s
ensure_file file none s = record s {
  files = set file (record { resolver = FilePermission.create file; callbacks = [] }) s.files;
  used_files = remove file s.used_files;
}

unfoldable pub ensure_permission_queue : Action → Item → String → Server → Server
unfolding put
ensure_permission_queue action item file s =
    let t = ensure_file file (get file s.files) s in
    record t { in_work = put item.worker_id item.request_id (action, file) t.in_work }

abbrev with_own : String → Item → Entry → Option (Dict Call) → Server → Server
with_own file item e (some own) s = s
with_own file item e none s = record s {
  files = set file (record e { callbacks = set item.worker_id [] e.callbacks }) s.files;
}

abbrev with_record : String → Item → Option Entry → Server → Server
with_record file item none s = s
with_record file item (some e) s = with_own file item e (get item.worker_id e.callbacks) s

unfoldable pub ensure_clean_up_cb_record : Item → String → Server → Server
ensure_clean_up_cb_record item file s = with_record file item (get file s.files) s

abbrev pub refusal : Action → Item → String → Status → Bool → Server → Outcome
refusal action item file status true s = quiet s
refusal action item file status false s =
    answer item.worker_id
      (record { request_id = item.request_id; full_path = file; action = action; status = status })
      s

abbrev pub granting :
    Action
    → Item
    → String
    → Status
    → Bool × List FilePermission.Event × FilePermissionResolver
    → Server
    → Outcome
granting action item file status (can, events, f) s =
    then_do (apply_result file (events, f) s) (refusal action item file status can)

unfoldable pub dispatch : Action → Item → String → FilePermissionResolver → Server → Outcome
unfolding apply_result
dispatch lock item file f s =
    granting lock item file impossible_to_lock (FilePermission.lock item f) s
dispatch access item file f s =
    granting access item file impossible_to_access (FilePermission.hook_access item f) s
dispatch unlink item file f s = apply_result file (FilePermission.hook_unlink item f) s
dispatch release item file f s = quiet s

abbrev pub dispatch_entry : Action → Item → String → Option Entry → Server → Outcome
dispatch_entry action item file none s = quiet s
dispatch_entry action item file (some e) s = dispatch action item file e.resolver s

-- RequestAction once the path is known.
unfoldable pub request_action : String → Request → String → Server → Outcome
unfolding ensure_permission_queue ensure_clean_up_cb_record dispatch use_file
request_action worker_id m file s =
    let item : Item = record { worker_id = worker_id; request_id = m.request_id } in
    let t =
      ensure_clean_up_cb_record item file
        (ensure_permission_queue m.action item file (use_file file s)) in
    dispatch_entry m.action item file (get file t.files) t

abbrev acquiring : Action → Item → String → LockPool.Reply → List Task
acquiring action item file LockPool.rejected = []
acquiring action item file LockPool.resolved = acquired true action item file ∷ []
acquiring action item file (LockPool.pending n) = waiting n action item file ∷ []

-- The callback of an access or an unlink asks the pool. A rejected request is left there.
unfoldable pub acquire_permission : Action → Item → String → Server → Outcome
acquire_permission action item file s =
    let (reply, pool) = LockPool.acquire item.worker_id (some item.request_id) s.pool in
    record (quiet (record s { pool = pool })) { tasks = acquiring action item file reply }

-- And answers when it has the lock.
unfoldable pub answer_acquired : Bool → Action → Item → String → Server → Outcome
unfolding put
answer_acquired allowed action item file s =
    answer item.worker_id
      (record {
        request_id = item.request_id;
        full_path = file;
        action = action;
        status = (if allowed then done else no_access);
      })
      (record s { in_work = put item.worker_id item.request_id (action, file) s.in_work })

abbrev pub release_response : Item → String → Status → Response
release_response item file status = record {
  request_id = item.request_id;
  full_path = file;
  action = release;
  status = status;
}

abbrev pub clean_up : String → Option Call → Server → Outcome
clean_up file none s = quiet s
clean_up file (some call) s = apply_call file call s

abbrev pub callback_of : Item → Option Entry → Option Call
callback_of item none = none
callback_of item (some e) = find item.worker_id item.request_id e.callbacks

-- The end of ReleaseAction for an access or an unlink.
unfoldable pub finish_release : Item → String → Server → Outcome
unfolding find apply_call
finish_release item file s =
    then_do (answer item.worker_id (release_response item file done) s)
      (clean_up file (callback_of item (get file s.files)))

abbrev pub is_async : Action → Bool
is_async access = true
is_async unlink = true
is_async lock = false
is_async release = false

-- A release of an access or an unlink: of a request in work, the pool is asked first.
unfoldable pub release_async : Action → Item → String → Server → Outcome
unfolding put find finish_release
release_async action item file s =
    let in_progress = is_some (find item.worker_id item.request_id s.in_work) in
    let t = record s { in_work = put item.worker_id item.request_id (action, file) s.in_work } in
    if in_progress
    then record (quiet t) { tasks = queued_release action item file ∷ [] }
    else finish_release item file t

abbrev call_or : Option Call → Call → Call
call_or none call = call
call_or (some found) call = found

unfoldable pub release_lock : Item → String → Server → Outcome
unfolding find apply_call
release_lock item file s =
    then_do (apply_call file (call_or (callback_of item (get file s.files)) (unlocks item)) s)
      (answer item.worker_id (release_response item file done))

abbrev release_sync : Action → Item → String → Server → Outcome
release_sync lock item file s = release_lock item file s
release_sync other item file s = quiet s

abbrev pub release_entry : Action → Item → String → Option Entry → Server → Outcome
release_entry action item file none s =
    answer item.worker_id (release_response item file no_exist) s
release_entry action item file (some e) s =
    if is_async action then release_async action item file s else release_sync action item file s

-- ReleaseAction once the path is known.
unfoldable pub release_action : Action → Item → String → Server → Outcome
unfolding release_async release_lock
release_action action item file s = release_entry action item file (get file s.files) s

unfoldable pub release_permission : Action → Item → String → Server → Outcome
release_permission action item file s =
    let (freed, settled, pool) = LockPool.release item.worker_id (some item.request_id) s.pool in
    record (quiet (record s { pool = pool })) {
      tasks = released action item file ∷ [];
      settled = settled;
    }

module _ (temp_path : String → String) where
  abbrev pub requested_path : String → Request → Option String → Server → Outcome
  requested_path worker_id m none s = quiet s
  requested_path worker_id m (some file) s = request_action worker_id m file s

  -- Where the hook fails, the name itself stands for the path.
  abbrev pub released_path : Action → Item → String → Option String → Server → Outcome
  released_path action item name none s = release_action action item name s
  released_path action item name (some file) s = release_action action item file (use_file file s)

  -- A task that goes on; `found` is what the hooks that name a file answer, where it asks them.
  unfoldable pub resume : Answer → Task → Server → Outcome
  unfolding full_path use_file request_action acquire_permission answer_acquired release_action
      release_permission finish_release
  resume found (requested worker_id m name) s =
      requested_path worker_id m (full_path temp_path found name) s
  resume found (granted action item file) s = acquire_permission action item file s
  resume found (waiting n action item file) s = record (quiet s) {
    tasks = waiting n action item file ∷ [];
  }
  resume found (acquired allowed action item file) s = answer_acquired allowed action item file s
  resume found (releasing worker_id m name) s =
      released_path m.action (record { worker_id = worker_id; request_id = m.request_id }) name
        (full_path temp_path found name) s
  resume found (queued_release action item file) s = release_permission action item file s
  resume found (released action item file) s = finish_release item file s

-- ===== src/StoreServer/Replies.antt =====
-- core/fs-store/src/fs-store-server.ts: what a lock is answered, and a release that comes early.
use testring.Common.{
  ◌⊎◌, ℕ, Option, none, some, String, [], ◌∷◌, ◌≡◌, if◌then◌else◌, refl, inl, inr, Bool-cases,
  Option-cases, ◌∙◌, eq_refl,
}
use testring.Common.Dict.{Dict, get, set, get-set}
use testring.FilePermission
use testring.FilePermission.{FilePermissionResolver, Item, is_deleted}
use testring.FilePermission.Limit.{limit, step-limit, lock_unlimited}
use testring.LockPool
use testring.MultiLock
use testring.StoreServer.{
  quiet, put, find, queued_release, released, Server, Request, Action, Entry, Sent, send, access,
  lock, unlink, requested, done, impossible_to_lock, handle_events, apply_result,
}
use testring.StoreServer.Tasks.{
  release_action, release_response, release_async, release_permission, finish_release, Answer,
  full_path, resume, request_action, ensure_permission_queue, ensure_clean_up_cb_record, use_file,
  dispatch,
}
use testring.StoreServer.World.{World, Reach, start}
use testring.StoreServer.Parts.{IsComposed, Called, none_yet, once_more, Reach-IsComposed}

Called-limit : {f g : FilePermissionResolver} → Called f g → limit g ≡ limit f
Called-limit none_yet = refl
Called-limit (once_more {g} call c) = step-limit call g ∙ Called-limit c

-- The resolver that a request for a file finds: its own, or a new one.
abbrev pub resolver_in : String → Option Entry → FilePermissionResolver
resolver_in file none = FilePermission.create file
resolver_in file (some e) = e.resolver

abbrev pub resolver_of : String → Server → FilePermissionResolver
resolver_of file s = resolver_in file (get file s.files)

abbrev HasResolver : String → Server → FilePermissionResolver → Type 0
HasResolver file s f = (e : Entry) × (get file s.files ≡ some e) × (e.resolver ≡ f)

get-set_self : (file : String) (e : Entry) (m : Dict Entry) → get file (set file e m) ≡ some e
get-set_self file e m = rw (get-set, eq_refl file) refl

ensure_permission_queue-resolver :
    (action : Action) (item : Item) (file : String) (s : Server)
    → HasResolver file (ensure_permission_queue action item file s) (resolver_of file s)
unfolding ensure_permission_queue
ensure_permission_queue-resolver action item file s = elim (Option-cases (get file s.files)) [
  | inr (e, h) ↦ rw h (e, h, refl)
  | inl h ↦ rw h (
    record { resolver = FilePermission.create file; callbacks = [] },
    get-set_self file _ s.files,
    refl,
  )
]

ensure_clean_up_cb_record-resolver :
    (item : Item) (file : String) (s : Server) {f : FilePermissionResolver}
    → HasResolver file s f
    → HasResolver file (ensure_clean_up_cb_record item file s) f
unfolding ensure_clean_up_cb_record
ensure_clean_up_cb_record-resolver item file s (e, h, k) =
    elim (Option-cases (get item.worker_id e.callbacks)) [
      | inr (own, o) ↦ rw (h, o) (e, h, k)
      | inl o ↦
          rw (h, o)
            (
              record e { callbacks = set item.worker_id [] e.callbacks },
              get-set_self file _ s.files,
              k,
            )
    ]

-- The answer to a lock.
abbrev pub lock_answer : String → Request → String → FilePermissionResolver → Sent
lock_answer worker_id m file f = send worker_id (record {
  request_id = m.request_id;
  full_path = file;
  action = lock;
  status = (if is_deleted f then impossible_to_lock else done);
})

dispatch-lock :
    (worker_id : String) (m : Request) (file : String) (f : FilePermissionResolver) (s : Server)
    → limit f ≡ 0
    → ((dispatch lock (record { worker_id = worker_id; request_id = m.request_id }) file f s).tasks
        ≡ [])
      × ((dispatch lock (record { worker_id = worker_id; request_id = m.request_id }) file f s).sent
          ≡ lock_answer worker_id m file f ∷ [])
unfolding dispatch apply_result handle_events
dispatch-lock worker_id m file f s h =
    let item : Item = record { worker_id = worker_id; request_id = m.request_id } in
    let (can, events) = lock_unlimited item f h in
    elim (Bool-cases (is_deleted f)) [
      | inl gone ↦ rw (can, events, gone) (refl, refl)
      | inr there ↦ rw (can, events, there) (refl, refl)
    ]

request_action-lock :
    (worker_id : String) (m : Request) (file : String) (s : Server)
    → m.action ≡ lock
    → limit (resolver_of file s) ≡ 0
    → ((request_action worker_id m file s).tasks ≡ [])
      × ((request_action worker_id m file s).sent
          ≡ lock_answer worker_id m file (resolver_of file s) ∷ [])
unfolding request_action use_file
request_action-lock worker_id m file s is_lock no_limit =
    let item : Item = record { worker_id = worker_id; request_id = m.request_id } in
    let asked = ensure_permission_queue m.action item file (use_file file s) in
    let (e, found, same) =
      ensure_clean_up_cb_record-resolver item file asked
        (ensure_permission_queue-resolver m.action item file (use_file file s)) in
    rw (found, same) (unlocked (ensure_clean_up_cb_record item file asked))
  where
    unlocked :
        (t : Server)
        → ((dispatch m.action
              (record { worker_id = worker_id; request_id = m.request_id })
              file
              (resolver_of file s)
              t).tasks
            ≡ [])
          × ((dispatch m.action
                (record { worker_id = worker_id; request_id = m.request_id })
                file
                (resolver_of file s)
                t).sent
              ≡ lock_answer worker_id m file (resolver_of file s) ∷ [])
    unlocked t = rw is_lock (dispatch-lock worker_id m file (resolver_of file s) t no_limit)

resolver_of-limit :
    (file : String) (s : Server) {n : ℕ} → IsComposed n s → limit (resolver_of file s) ≡ 0
unfolding FilePermission.create MultiLock.create
resolver_of-limit file s c = elim (Option-cases (get file s.files)) [
  | inl h ↦ rw h refl
  | inr (e, h) ↦ rw h (Called-limit (c.files_reached file e h))
]

-- In every state of a server, once the path of a request for a lock is known, it is answered at
-- once and with one response: it is granted, unless the file was deleted or is being deleted.
-- Nothing is left to do for it.
pub lock-Answers :
    (temp_path : String → String) (thread_count : ℕ) {w : World}
    → Reach temp_path (start thread_count) w
    → (found : Answer) (worker_id : String) (m : Request) (name : String) {file : String}
    → m.action ≡ lock
    → full_path temp_path found name ≡ some file
    → ((resume temp_path found (requested worker_id m name) w.server).tasks ≡ [])
      × ((resume temp_path found (requested worker_id m name) w.server).sent
          ≡ lock_answer worker_id m file (resolver_of file w.server) ∷ [])
unfolding resume
lock-Answers temp_path thread_count {w} r found worker_id m name {file} is_lock named_file =
    let (c, _) = Reach-IsComposed temp_path thread_count r in
    rw named_file
      (request_action-lock worker_id m file w.server is_lock (resolver_of-limit file w.server c))

release_action-in_work :
    (item : Item) (action : Action) (file : String) (s : Server) (e : Entry)
    {work : Action × String}
    → (action ≡ access) ⊎ (action ≡ unlink)
    → get file s.files ≡ some e
    → find item.worker_id item.request_id s.in_work ≡ some work
    → release_action action item file s
      ≡ record (quiet
          (record s { in_work = put item.worker_id item.request_id (action, file) s.in_work })) {
            tasks = queued_release action item file ∷ [];
          }
unfolding release_action release_async
release_action-in_work item action file s e (inl a) has working = rw (has, a, working) refl
release_action-in_work item action file s e (inr u) has working = rw (has, u, working) refl

-- A release of an access or an unlink that is in work and has not been granted is answered like one
-- that has: the pool is asked to release a lock of the worker, the one answer says that all went
-- well, and the files stay as they were.
release_early :
    (temp_path : String → String) (found : Answer) (item : Item) (action : Action) (file : String)
    (s : Server) (e : Entry) {work : Action × String}
    → (action ≡ access) ⊎ (action ≡ unlink)
    → get file s.files ≡ some e
    → find item.worker_id item.request_id s.in_work ≡ some work
    → find item.worker_id item.request_id e.callbacks ≡ none
    → let asked = release_action action item file s in
      let freed = resume temp_path found (queued_release action item file) asked.server in
      let ended = resume temp_path found (released action item file) freed.server in
      (asked.tasks ≡ queued_release action item file ∷ [])
      × (freed.tasks ≡ released action item file ∷ [])
      × (freed.server.pool ≡ (LockPool.release item.worker_id (some item.request_id) s.pool).2)
      × (ended.sent ≡ send item.worker_id (release_response item file done) ∷ [])
      × (ended.server.files ≡ s.files)
unfolding resume release_permission finish_release
release_early temp_path found item action file s e kind has working none_given =
    rw (release_action-in_work item action file s e kind has working)
      (refl, refl, refl, rw (has, none_given) refl, rw (has, none_given) refl)

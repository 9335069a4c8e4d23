-- ===== src/StoreServer/Parts.antt =====
-- core/fs-store/src/fs-store-server.ts: what the server does to its pool and to the resolvers of its
-- files.
use testring.Common.{
  named, ℕ, Bool, true, false, Option, none, some, String, List, [], ◌∷◌, ◌≡◌, inl, inr, Bool-cases,
  Option-cases, subst, eq_iff, ◌==◌,
}
use testring.Common.Dict.{is_some, Dict, get, set, get-set, keys}
use testring.FilePermission
use testring.FilePermission.{FilePermissionResolver, Item}
use testring.FilePermission.Call.{Call, step, locks, accesses, unlinks}
use testring.LockPool
use testring.LockPool.Cleaning
use testring.StoreServer.{
  dw_id, released, queued_release, releasing, acquired, waiting, granted, requested, find,
  impossible_to_access, put, impossible_to_lock, Status, Server, Request, Task, Action, create,
  init, Entry, set_callback, handle_event, handle_events, apply_result, apply_call, access, lock,
  unlink, release,
}
use testring.StoreServer.World.{cleans}
use testring.StoreServer.Tasks.{
  or_default, clean_calls, path, nothing, threw, path, full_path, release_permission,
  answer_acquired, acquire_permission, refusal, use_file, release_entry, apply_each,
  ensure_permission_queue, finish_release, release_lock, release_async, clean_up,
  ensure_clean_up_cb_record, dispatch, clean_each, release_action, request_action, Answer,
  on_request, on_release, on_clean, resume,
}
use testring.LockPool.Invariant.{IsValid}
use testring.StoreServer.Tasks.{named_request, unnamed_request, named_release}
use testring.StoreServer.World.{goes_on, here, next}
use testring.StoreServer.World.{gives_back, asks, World, Step, Reach, start}

-- A resolver that came about by calls of its operations.
pub data Called (f : FilePermissionResolver) : FilePermissionResolver → Type 0 where
  none_yet : Called f f
  once_more : {g : FilePermissionResolver} (call : Call) → Called f g → Called f (step call g).1

-- A pool that came about by `acquire` and `release`, and by no `clean`.
pub data Pooled (p : LockPool.LockPool) : LockPool.LockPool → Type 0 where
  as_new : Pooled p p
  acquires :
      {q : LockPool.LockPool} (w : String) (r : Option String)
      → Pooled p q
      → Pooled p (LockPool.acquire w r q).1
  releases :
      {q : LockPool.LockPool} (w : String) (r : Option String)
      → Pooled p q
      → Pooled p (LockPool.release w r q).2

Pooled-Reach : {p q : LockPool.LockPool} → Pooled p q → LockPool.Cleaning.Reach p q
Pooled-Reach as_new = LockPool.Cleaning.here
Pooled-Reach (acquires w r h) =
    LockPool.Cleaning.next (Pooled-Reach h) (LockPool.Cleaning.acquires w r)
Pooled-Reach (releases w r h) =
    LockPool.Cleaning.next (Pooled-Reach h) (LockPool.Cleaning.releases w r)

abbrev Files : Dict Entry → Type 0
Files m =
    (file : String) (e : Entry)
    → get file m ≡ some e
    → Called (FilePermission.create file) e.resolver

set-Files :
    (file : String) (e : Entry) (m : Dict Entry)
    → Files m
    → Called (FilePermission.create file) e.resolver
    → Files (set file e m)
set-Files file e m all c other found h = elim (Bool-cases (file == other)) [
  | inl same ↦
      let at : some e ≡ some found = rw (get-set, same) at h in
      subst (λ x. Called (FilePermission.create x) found.resolver) ((eq_iff file other).0 same)
        (subst (λ (x : Entry). Called (FilePermission.create file) x.resolver) {x = e} {y = found}
          (cc) c)
  | inr differ ↦ all other found (rw (get-set, differ) at h)
]

-- The pool and the resolvers of a server are what their own operations make of new ones.
pub record IsComposed (n : ℕ) (s : Server) : Type 0 where
  pub pool_reached : Pooled (LockPool.create n) s.pool
  pub files_reached : Files s.files

module _ {n : ℕ} where
  set_callback-IsComposed :
      (file : String) (item : Item) (call : Call) (s : Server)
      → IsComposed n s
      → IsComposed n (set_callback file item call s)
  unfolding set_callback
  set_callback-IsComposed file item call s c = elim (Option-cases (get file s.files)) [
    | inl e ↦ rw e c
    | inr (entry, e) ↦ rw e (record {
      pool_reached = c.pool_reached;
      files_reached = set-Files file _ s.files c.files_reached (c.files_reached file entry e);
    })
  ]

  handle_event-IsComposed :
      (file : String) (event : FilePermission.Event) (s : Server)
      → IsComposed n s
      → IsComposed n (handle_event file event s).server
  handle_event-IsComposed file (FilePermission.lock_granted item status) s c =
      set_callback-IsComposed file item _ s c
  handle_event-IsComposed file (FilePermission.access_granted item) s c =
      set_callback-IsComposed file item _ s c
  handle_event-IsComposed file (FilePermission.unlink_granted item status) s c =
      set_callback-IsComposed file item _ s c
  handle_event-IsComposed file (FilePermission.fired hook item) s c = c
  handle_event-IsComposed file (FilePermission.fired_clean hook worker_id) s c = c

  handle_events-IsComposed :
      (file : String) (events : List FilePermission.Event) (s : Server)
      → IsComposed n s
      → IsComposed n (handle_events file events s).server
  unfolding handle_events
  handle_events-IsComposed file [] s c = c
  handle_events-IsComposed file (event ∷ events) s c =
      handle_events-IsComposed file events (handle_event file event s).server
        (handle_event-IsComposed file event s c)

  -- The result of any call on the resolver of a file is taken over with its events.
  apply_result-IsComposed :
      (file : String) (call : Call) (e : Entry) (s : Server)
      → get file s.files ≡ some e
      → IsComposed n s
      → IsComposed n (apply_result file (step call e.resolver) s).server
  unfolding apply_result
  apply_result-IsComposed file call e s found c = rw found (
      handle_events-IsComposed file (step call e.resolver).0 _ (record {
        pool_reached = c.pool_reached;
        files_reached =
            set-Files file _ s.files c.files_reached
              (once_more call (c.files_reached file e found));
      }))

  apply_call-IsComposed :
      (file : String) (call : Call) (s : Server)
      → IsComposed n s
      → IsComposed n (apply_call file call s).server
  unfolding apply_call
  apply_call-IsComposed file call s c = elim (Option-cases (get file s.files)) [
    | inl e ↦ rw e c
    | inr (entry, e) ↦ rw e (apply_result-IsComposed file call entry s e c)
  ]

  apply_each-IsComposed :
      (file : String) (calls : List Call) (s : Server)
      → IsComposed n s
      → IsComposed n (apply_each file calls s).server
  unfolding apply_each
  apply_each-IsComposed file [] s c = c
  apply_each-IsComposed file (call ∷ calls) s c =
      apply_each-IsComposed file calls (apply_call file call s).server
        (apply_call-IsComposed file call s c)

  clean_each-IsComposed :
      (calls : List Call) (files : List String) (s : Server)
      → IsComposed n s
      → IsComposed n (clean_each calls files s).server
  unfolding clean_each
  clean_each-IsComposed calls [] s c = c
  clean_each-IsComposed calls (file ∷ files) s c =
      clean_each-IsComposed calls files (apply_each file calls s).server
        (apply_each-IsComposed file calls s c)

  ensure_permission_queue-IsComposed :
      (action : Action) (item : Item) (file : String) (s : Server)
      → IsComposed n s
      → IsComposed n (ensure_permission_queue action item file s)
  unfolding ensure_permission_queue
  ensure_permission_queue-IsComposed action item file s c = elim (Option-cases (get file s.files)) [
    | inr (entry, e) ↦
        rw e (record { pool_reached = c.pool_reached; files_reached = c.files_reached })
    | inl e ↦ rw e (record {
      pool_reached = c.pool_reached;
      files_reached = set-Files file _ s.files c.files_reached none_yet;
    })
  ]

  ensure_clean_up_cb_record-IsComposed :
      (item : Item) (file : String) (s : Server)
      → IsComposed n s
      → IsComposed n (ensure_clean_up_cb_record item file s)
  unfolding ensure_clean_up_cb_record
  ensure_clean_up_cb_record-IsComposed item file s c = elim (Option-cases (get file s.files)) [
    | inl e ↦ rw e c
    | inr (entry, e) ↦ elim (Option-cases (get item.worker_id entry.callbacks)) [
      | inr (known, k) ↦ rw (e, k) c
      | inl k ↦
          rw (e, k)
            (record {
              pool_reached = c.pool_reached;
              files_reached =
                  set-Files file _ s.files c.files_reached (c.files_reached file entry e);
            })
    ]
  ]

  refusal-IsComposed :
      (action : Action) (item : Item) (file : String) (status : Status) (can : Bool) (s : Server)
      → IsComposed n s
      → IsComposed n (refusal action item file status can s).server
  refusal-IsComposed action item file status true s c = c
  refusal-IsComposed action item file status false s c = c

  dispatch-IsComposed :
      (action : Action) (item : Item) (file : String) (e : Entry) (s : Server)
      → get file s.files ≡ some e
      → IsComposed n s
      → IsComposed n (dispatch action item file e.resolver s).server
  unfolding dispatch step
  dispatch-IsComposed lock item file e s found c =
      refusal-IsComposed lock item file impossible_to_lock (FilePermission.lock item e.resolver).0 _
        (apply_result-IsComposed file (locks item) e s found c)
  dispatch-IsComposed access item file e s found c =
      refusal-IsComposed access item file impossible_to_access
        (FilePermission.hook_access item e.resolver).0 _
        (apply_result-IsComposed file (accesses item) e s found c)
  dispatch-IsComposed unlink item file e s found c =
      apply_result-IsComposed file (unlinks item) e s found c
  dispatch-IsComposed release item file e s found c = c

  request_action-IsComposed :
      (worker_id : String) (m : Request) (file : String) (s : Server)
      → IsComposed n s
      → IsComposed n (request_action worker_id m file s).server
  unfolding request_action use_file
  request_action-IsComposed worker_id m file s c =
      let item : Item = record { worker_id = worker_id; request_id = m.request_id } in
      let t =
        ensure_clean_up_cb_record item file
          (ensure_permission_queue m.action item file (use_file file s)) in
      let d : IsComposed n t = ensure_clean_up_cb_record-IsComposed item file _ (
        ensure_permission_queue-IsComposed m.action item file (use_file file s)
          (record { pool_reached = c.pool_reached; files_reached = c.files_reached })) in
      elim (Option-cases (get file t.files)) [
        | inl e ↦ rw e d
        | inr (entry, e) ↦ rw e (dispatch-IsComposed m.action item file entry t e d)
      ]

  clean_up-IsComposed :
      (file : String) (call : Option Call) (s : Server)
      → IsComposed n s
      → IsComposed n (clean_up file call s).server
  clean_up-IsComposed file none s c = c
  clean_up-IsComposed file (some call) s c = apply_call-IsComposed file call s c

  finish_release-IsComposed :
      (item : Item) (file : String) (s : Server)
      → IsComposed n s
      → IsComposed n (finish_release item file s).server
  unfolding finish_release
  finish_release-IsComposed item file s c = clean_up-IsComposed file _ s c

  release_async-IsComposed :
      (action : Action) (item : Item) (file : String) (s : Server)
      → IsComposed n s
      → IsComposed n (release_async action item file s).server
  unfolding release_async
  release_async-IsComposed action item file s c =
      let t : Server = record s {
        in_work = put item.worker_id item.request_id (action, file) s.in_work;
      } in
      let d : IsComposed n t = record {
        pool_reached = c.pool_reached;
        files_reached = c.files_reached;
      } in
      elim (Bool-cases (is_some (find item.worker_id item.request_id s.in_work))) [
        | inl e ↦ rw e d
        | inr e ↦ rw e (finish_release-IsComposed item file t d)
      ]

  release_lock-IsComposed :
      (item : Item) (file : String) (s : Server)
      → IsComposed n s
      → IsComposed n (release_lock item file s).server
  unfolding release_lock
  release_lock-IsComposed item file s c = apply_call-IsComposed file _ s c

  release_entry-IsComposed :
      (action : Action) (item : Item) (file : String) (entry : Option Entry) (s : Server)
      → IsComposed n s
      → IsComposed n (release_entry action item file entry s).server
  release_entry-IsComposed action item file none s c = c
  release_entry-IsComposed access item file (some e) s c =
      release_async-IsComposed access item file s c
  release_entry-IsComposed unlink item file (some e) s c =
      release_async-IsComposed unlink item file s c
  release_entry-IsComposed lock item file (some e) s c = release_lock-IsComposed item file s c
  release_entry-IsComposed release item file (some e) s c = c

  release_action-IsComposed :
      (action : Action) (item : Item) (file : String) (s : Server)
      → IsComposed n s
      → IsComposed n (release_action action item file s).server
  unfolding release_action
  release_action-IsComposed action item file s c =
      release_entry-IsComposed action item file (get file s.files) s c

  pool_step :
      {s : Server} (pool : LockPool.LockPool)
      → IsComposed n s
      → Pooled (LockPool.create n) pool
      → IsComposed n (record s { pool = pool })
  pool_step pool c h = record { pool_reached = h; files_reached = c.files_reached }

  module _ (temp_path : String → String) where
    resume-IsComposed :
        (found : Answer) (task : Task) (s : Server)
        → IsComposed n s
        → IsComposed n (resume temp_path found task s).server
    unfolding resume acquire_permission answer_acquired release_permission use_file full_path
    resume-IsComposed (path file) (requested worker_id m name) s c =
        request_action-IsComposed worker_id m _ s c
    resume-IsComposed nothing (requested worker_id m name) s c =
        request_action-IsComposed worker_id m _ s c
    resume-IsComposed threw (requested worker_id m name) s c = c
    resume-IsComposed found (granted action item file) s c =
        pool_step _ c (acquires item.worker_id (some item.request_id) c.pool_reached)
    resume-IsComposed found (waiting k action item file) s c = c
    resume-IsComposed found (acquired allowed action item file) s c = record {
      pool_reached = c.pool_reached;
      files_reached = c.files_reached;
    }
    resume-IsComposed (path file) (releasing worker_id m name) s c =
        release_action-IsComposed m.action _ _ _
          (record { pool_reached = c.pool_reached; files_reached = c.files_reached })
    resume-IsComposed nothing (releasing worker_id m name) s c =
        release_action-IsComposed m.action _ _ _
          (record { pool_reached = c.pool_reached; files_reached = c.files_reached })
    resume-IsComposed threw (releasing worker_id m name) s c =
        release_action-IsComposed m.action _ name s c
    resume-IsComposed found (queued_release action item file) s c =
        pool_step _ c (releases item.worker_id (some item.request_id) c.pool_reached)
    resume-IsComposed found (released action item file) s c =
        finish_release-IsComposed item file s c

    unnamed_request-IsComposed :
        (unique worker_id : String) (m : Request) (action : Action) (s : Server)
        → IsComposed n s
        → IsComposed n (unnamed_request unique worker_id m action s).server
    unnamed_request-IsComposed unique worker_id m access s c = c
    unnamed_request-IsComposed unique worker_id m lock s c = c
    unnamed_request-IsComposed unique worker_id m unlink s c = c
    unnamed_request-IsComposed unique worker_id m release s c = c

    named_request-IsComposed :
        (unique worker_id : String) (m : Request) (name : Option String) (s : Server)
        → IsComposed n s
        → IsComposed n (named_request unique worker_id m name s).server
    named_request-IsComposed unique worker_id m none s c =
        unnamed_request-IsComposed unique worker_id m m.action s c
    named_request-IsComposed unique worker_id m (some name) s c = c

    named_release-IsComposed :
        (worker_id : String) (m : Request) (name : Option String) (s : Server)
        → IsComposed n s
        → IsComposed n (named_release worker_id m name s).server
    named_release-IsComposed worker_id m none s c = c
    named_release-IsComposed worker_id m (some name) s c = c

    Step-IsComposed :
        {w v : World} → Step temp_path w v → IsComposed n w.server → IsComposed n v.server
    unfolding on_request on_release on_clean
    Step-IsComposed {w} (asks unique worker_id m) c =
        named_request-IsComposed unique (or_default dw_id worker_id) m (named m.file_name) w.server
          c
    Step-IsComposed {w} (gives_back worker_id m) c =
        named_release-IsComposed (or_default dw_id worker_id) m (named m.file_name) w.server c
    Step-IsComposed {w} (cleans worker_id action) c =
        clean_each-IsComposed (clean_calls action (or_default dw_id worker_id))
          (keys w.server.files) w.server c
    Step-IsComposed {w} (goes_on found task before behind at) c =
        resume-IsComposed found task w.server c

    Reach-keeps :
        {w v : World} → IsComposed n w.server → Reach temp_path w v → IsComposed n v.server
    Reach-keeps c here = c
    Reach-keeps c (next r s) = Step-IsComposed s (Reach-keeps c r)

no_file :
    (file : String) (e : Entry)
    → get file [] ≡ some e
    → Called (FilePermission.create file) e.resolver
unfolding get
no_file file e h = cc

pub Reach-IsComposed :
    (temp_path : String → String) (thread_count : ℕ) {w : World}
    → Reach temp_path (start thread_count) w
    → IsComposed thread_count w.server × IsValid w.server.pool
unfolding create init
Reach-IsComposed temp_path thread_count r =
    let new_server : IsComposed thread_count (init (create thread_count)).1 = record {
      pool_reached = as_new;
      files_reached = λ file e h. no_file file e h;
    } in
    let c = Reach-keeps temp_path new_server r in
    (c, LockPool.Cleaning.Reach-IsValid thread_count (Pooled-Reach c.pool_reached))

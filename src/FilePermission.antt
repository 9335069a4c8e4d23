-- ===== src/FilePermission.antt =====
-- core/fs-store/src/utils/FilePermissionResolver.ts. An operation returns the hooks that it fires and
-- the callbacks that it calls, in order, with the new state. The clean-up callback that a grant hands
-- out is an operation of its own: `unlock`, `release_access` and `release_unlink`. A callback calls
-- nothing of the resolver before it returns, as those of fs-store-server.ts.
pub mod Call
pub mod Access
pub mod Limit
pub mod Going
pub mod Locks
pub mod Unlink
mod Tests
use testring.Common.{
  ℕ, Bool, true, false, not, ◌&&◌, Option, none, some, String, List, [], ◌∷◌, ◌++◌, leb, ltb,
  nat_eq, named, if◌then◌else◌, ◌==◌,
}
use testring.Queue
use testring.Queue.{Queue}
use testring.MultiLock
use testring.MultiLock.{MultiLock}

pub data ActionState : Type 0 where
  locked access free deleting deleted : ActionState

-- The number of a value of the enum, by which `>=` and `>` compare.
abbrev pub rank : ActionState → ℕ
rank locked = 0
rank access = 1
rank free = 2
rank deleting = 3
rank deleted = 4

-- An entry of the queues, whose callback is known by its worker and request.
pub record Item : Type 0 where
  pub worker_id : String
  pub request_id : String

pub data Hook : Type 0 where
  on_lock on_unlock on_access on_access_release on_unlink on_unlink_release : Hook

pub data Event : Type 0 where
  fired : Hook → Item → Event
  fired_clean : Hook → Option String → Event
  lock_granted : Item → ActionState → Event
  access_granted : Item → Event
  unlink_granted : Item → ActionState → Event

pub record FilePermissionResolver : Type 0 where
  pub data_id : String
  pub access_queue : Queue Item
  pub accessing : Bool
  pub multi_lock : MultiLock
  pub del : Queue Item
  pub state : ActionState

unfoldable pub create : String → FilePermissionResolver
create data_id = record {
  data_id = data_id;
  access_queue = Queue.create none;
  accessing = false;
  multi_lock = MultiLock.create 0;
  del = Queue.create none;
  state = free;
}

abbrev pub lock_size : FilePermissionResolver → ℕ
lock_size f = MultiLock.get_size none f.multi_lock

-- `getAccessQueueLength`: how many access now, and how many wait.
pub get_access_queue_length : FilePermissionResolver → ℕ × ℕ
get_access_queue_length f = (if f.accessing then 1 else 0, Queue.size f.access_queue)

pub get_unlink_queue_length : FilePermissionResolver → ℕ
get_unlink_queue_length f = Queue.size f.del

abbrev pub can_be_deleted : FilePermissionResolver → Bool
can_be_deleted f = leb (rank free) (rank f.state)

abbrev pub is_deleted : FilePermissionResolver → Bool
is_deleted f = ltb (rank free) (rank f.state)

delete_first :
    FilePermissionResolver → Option Item × Queue Item → Bool × List Event × FilePermissionResolver
delete_first f (none, rest) = (false, [], record f { del = rest })
delete_first f (some item, rest) =
    let state = if is_deleted f then f.state else deleting in
    (
      true,
      fired on_unlink item ∷ unlink_granted item state ∷ [],
      record f { del = rest; state = state },
    )

pub try_delete : FilePermissionResolver → Bool × List Event × FilePermissionResolver
unfolding delete_first
try_delete f = if can_be_deleted f then delete_first f (Queue.shift f.del) else (false, [], f)

-- `chkEmpty` returns `true` on every path.
pub chk_empty : FilePermissionResolver → List Event × FilePermissionResolver
chk_empty f =
    let (_, events, freed) = try_delete (record f { state = free }) in
    if nat_eq (lock_size f) 0 && nat_eq (Queue.size f.access_queue) 0
    then (if f.accessing then ([], record f { state = access }) else (events, freed))
    else if nat_eq (lock_size f) 0
    then ([], f)
    else ([], record f { state = locked })

access_first :
    FilePermissionResolver → Option Item × Queue Item → List Event × FilePermissionResolver
access_first f (none, rest) = chk_empty (record f { access_queue = rest })
access_first f (some item, rest) = (
  fired on_access item ∷ access_granted item ∷ [],
  record f { access_queue = rest; accessing = true },
)

unfoldable pub try_access : FilePermissionResolver → Bool × List Event × FilePermissionResolver
unfolding access_first
try_access f =
    if is_deleted f
    then (false, [], f)
    else if f.accessing
    then (true, [], f)
    else let (events, g) = access_first f (Queue.shift f.access_queue) in (true, events, g)

unfoldable pub lock : Item → FilePermissionResolver → Bool × List Event × FilePermissionResolver
lock item f =
    let (got, multi_lock) = MultiLock.acquire item.worker_id f.multi_lock in
    if is_deleted f
    then (false, [], f)
    else if got
    then (
      true,
      fired on_lock item ∷ lock_granted item locked ∷ [],
      record f { multi_lock = multi_lock; state = locked },
    )
    else (true, [], record f { multi_lock = multi_lock })

-- Also the clean-up callback of a lock.
pub unlock : Item → FilePermissionResolver → List Event × FilePermissionResolver
unlock item f =
    let (released, multi_lock) = MultiLock.release item.worker_id f.multi_lock in
    let (events, g) = chk_empty (record f { multi_lock = multi_lock }) in
    ((if released then fired on_unlock item ∷ [] else []) ++ events, g)

pub clean_lock : Option String → FilePermissionResolver → List Event × FilePermissionResolver
clean_lock worker_id f =
    let (events, g) =
      chk_empty (record f { multi_lock = MultiLock.clean (named worker_id) f.multi_lock }) in
    (fired_clean on_unlock (named worker_id) ∷ events, g)

unfoldable pub hook_access :
    Item → FilePermissionResolver → Bool × List Event × FilePermissionResolver
hook_access item f =
    if is_deleted f
    then (false, [], f)
    else try_access (record f { access_queue = Queue.push (item ∷ []) f.access_queue })

-- The clean-up callback of an access.
unfoldable pub release_access : Item → FilePermissionResolver → List Event × FilePermissionResolver
release_access item f =
    let (_, events, g) = try_access (record f { accessing = false }) in
    (events ++ fired on_access_release item ∷ [], g)

-- The test of `unhookAccess` and `unhookUnlink`: both parts differ.
abbrev pub differs : Item → Item → Bool
differs item other =
    not (other.worker_id == item.worker_id) && not (other.request_id == item.request_id)

pub unhook_access : Item → FilePermissionResolver → Bool × List Event × FilePermissionResolver
unhook_access item f =
    let (_, rest) = Queue.remove (λ other _. differs item other) f.access_queue in
    if is_deleted f then (false, [], f) else try_access (record f { access_queue = rest })

without : Option String → Queue Item → Queue Item
without none q = Queue.clean q
without (some worker_id) q = (Queue.remove (λ item _. item.worker_id == worker_id) q).1

pub clean_access : Option String → FilePermissionResolver → List Event × FilePermissionResolver
unfolding without
clean_access worker_id f = (
  fired_clean on_access_release (named worker_id) ∷ [],
  record f { access_queue = without (named worker_id) f.access_queue },
)

pub hook_unlink : Item → FilePermissionResolver → List Event × FilePermissionResolver
hook_unlink item f =
    let (_, events, g) = try_delete (record f { del = Queue.push (item ∷ []) f.del }) in (events, g)

-- The clean-up callback of an unlink.
pub release_unlink : Item → FilePermissionResolver → List Event × FilePermissionResolver
release_unlink item f =
    let (_, events, g) = try_delete (record f { state = deleted }) in
    (fired on_unlink_release item ∷ events, g)

pub unhook_unlink : Item → FilePermissionResolver → Bool × List Event × FilePermissionResolver
unhook_unlink item f =
    let (_, rest) = Queue.remove (λ other _. differs item other) f.del in
    try_access (record f { del = rest })

pub clean_unlink : Option String → FilePermissionResolver → List Event × FilePermissionResolver
unfolding without
clean_unlink worker_id f = (
  fired_clean on_unlink_release (named worker_id) ∷ [],
  record f { del = without (named worker_id) f.del },
)

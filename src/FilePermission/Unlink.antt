-- ===== src/FilePermission/Unlink.antt =====
-- core/fs-store/src/utils/FilePermissionResolver.ts: what the queue of unlinks guards, and what not.
use testring.Common.{◌≡◌, true, false, not, ◌||◌, [], ◌∷◌, arith, keep, keep_congr, inl, ◌==◌}
use testring.Queue
use testring.Queue.Laws.{remove-keep}
use testring.MultiLock
use testring.MultiLock.Invariant
use testring.MultiLock.Room.{release_empty, acquire_room}
use testring.FilePermission.{
  FilePermissionResolver, Item, locked, free, deleting, deleted, lock_size, is_deleted, try_delete,
  chk_empty, try_access, lock, unlock, hook_access, unhook_access, hook_unlink, differs, fired,
  unlink_granted, access_granted, on_unlink, on_access,
}

-- An access does not keep the file from being deleted. On a free resolver that nobody uses, an
-- access is granted and the state stays `free`; an unlink that comes next is granted at once, while
-- the access goes on.
unlink_during_access :
    (item other : Item) (f : FilePermissionResolver)
    → f.state ≡ free
    → f.accessing ≡ false
    → f.access_queue.array ≡ []
    → f.del.array ≡ []
    → let (_, events, g) = hook_access item f in
      let (events', h) = hook_unlink other g in
      (events ≡ fired on_access item ∷ access_granted item ∷ [])
      × (events' ≡ fired on_unlink other ∷ unlink_granted other deleting ∷ [])
      × (h.accessing ≡ true)
unfolding hook_access try_access hook_unlink try_delete Queue.push Queue.shift
unlink_during_access item other f s a q d = ground arith

-- `unhookAccess` keeps the request that it is given and drops those of others: while somebody has
-- access, what stays in the queue are exactly the entries that share the worker or the request id.
unhook_access_keeps_own :
    (item : Item) (f : FilePermissionResolver)
    → is_deleted f ≡ false
    → f.accessing ≡ true
    → (unhook_access item f).2.access_queue.array
      ≡ keep
          (λ other. other.worker_id == item.worker_id || other.request_id == item.request_id)
          f.access_queue.array
unfolding unhook_access try_access
unhook_access_keeps_own item f d a = ground (
  arith,
  remove-keep (differs item) f.access_queue,
  keep_congr (λ x. not (differs item x))
      (λ x. x.worker_id == item.worker_id || x.request_id == item.request_id) f.access_queue.array
      (λ x. ground arith),
)

-- A file that was deleted becomes free again by any `unlock`: where no lock is held, nothing waits
-- and nobody has access, the call turns `deleted` into `free`, and the next lock is granted.
lock-unlock_deleted :
    (item other : Item) (f : FilePermissionResolver)
    → f.state ≡ deleted
    → lock_size f ≡ 0
    → f.accessing ≡ false
    → f.access_queue.array ≡ []
    → f.del.array ≡ []
    → Invariant.IsValid f.multi_lock
    → f.multi_lock.lock_limit ≡ 0
    → ((lock other f).0 ≡ false)
      × ((unlock item f).1.state ≡ free)
      × ((lock other (unlock item f).1).0 ≡ true)
      × ((lock other (unlock item f).1).2.state ≡ locked)
unfolding unlock chk_empty try_delete Queue.shift Queue.size lock MultiLock.get_size
lock-unlock_deleted item other f s z a q d v l = ground (
  arith,
  release_empty item.worker_id f.multi_lock v,
  acquire_room other.worker_id f.multi_lock (inl l),
)

-- ===== src/FilePermission/Limit.antt =====
-- core/fs-store/src/utils/FilePermissionResolver.ts: the limit of the locks of a file, and when a
-- lock is refused.
use testring.Common.{
  Option-cases, inl, inr, ◌≡◌, refl, false, not, Option, none, some, String, [], ◌∷◌, arith, named,
  if◌then◌else◌, ◌∙◌, ℕ,
}
use testring.MultiLock
use testring.MultiLock.{MultiLock}
use testring.Queue
use testring.Queue.{Queue}
use testring.FilePermission.{
  FilePermissionResolver, Item, Event, try_delete, chk_empty, access_first, try_access, lock,
  unlock, clean_lock, hook_access, release_access, unhook_access, clean_access, hook_unlink,
  release_unlink, unhook_unlink, clean_unlink, delete_first, differs, free, deleted, locked, fired,
  on_lock, lock_granted, is_deleted,
}
use testring.FilePermission.Call.{
  Call, locks, unlocks, accesses, releases_access, unhooks_access, unlinks, releases_unlink,
  unhooks_unlink, cleans_lock, cleans_access, cleans_unlink, step,
}

abbrev pub limit : FilePermissionResolver → ℕ
limit f = f.multi_lock.lock_limit

delete_first-limit :
    (f : FilePermissionResolver) (next : Option Item × Queue Item)
    → limit (delete_first f next).2 ≡ limit f
unfolding delete_first
delete_first-limit f (none, rest) = refl
delete_first-limit f (some item, rest) = refl

try_delete-limit : (f : FilePermissionResolver) → limit (try_delete f).2 ≡ limit f
unfolding try_delete
try_delete-limit f = ground (arith, delete_first-limit f (Queue.shift f.del))

chk_empty-limit : (f : FilePermissionResolver) → limit (chk_empty f).1 ≡ limit f
unfolding chk_empty
chk_empty-limit f = ground (arith, try_delete-limit (record f { state = free }))

access_first-limit :
    (f : FilePermissionResolver) (next : Option Item × Queue Item)
    → limit (access_first f next).1 ≡ limit f
unfolding access_first
access_first-limit f (none, rest) = chk_empty-limit (record f { access_queue = rest })
access_first-limit f (some item, rest) = refl

try_access-limit : (f : FilePermissionResolver) → limit (try_access f).2 ≡ limit f
unfolding try_access
try_access-limit f = ground (arith, access_first-limit f (Queue.shift f.access_queue))

acquire-limit : (id : String) (l : MultiLock) → (MultiLock.acquire id l).1.lock_limit ≡ l.lock_limit
unfolding MultiLock.acquire
acquire-limit id l = ground arith

release-limit : (id : String) (l : MultiLock) → (MultiLock.release id l).1.lock_limit ≡ l.lock_limit
unfolding MultiLock.release
release-limit id l = ground arith

clean-limit :
    (id : Option String) (l : MultiLock) → (MultiLock.clean id l).lock_limit ≡ l.lock_limit
unfolding MultiLock.clean
clean-limit id l = elim (Option-cases (named id)) [ inl e ↦ rw e refl | inr (w, e) ↦ rw e refl ]

pub step-limit : (c : Call) (f : FilePermissionResolver) → limit (step c f).1 ≡ limit f
unfolding step lock unlock clean_lock hook_access release_access unhook_access clean_access
    hook_unlink release_unlink unhook_unlink clean_unlink
step-limit (locks item) f = ground (arith, acquire-limit item.worker_id f.multi_lock)
step-limit (unlocks item) f =
    let g : FilePermissionResolver = record f {
      multi_lock = (MultiLock.release item.worker_id f.multi_lock).1;
    } in
    chk_empty-limit g ∙ release-limit item.worker_id f.multi_lock
step-limit (accesses item) f =
    ground
      (arith, try_access-limit (record f { access_queue = Queue.push (item ∷ []) f.access_queue }))
step-limit (releases_access item) f = try_access-limit (record f { accessing = false })
step-limit (unhooks_access item) f =
    let rest = (Queue.remove (λ other _. differs item other) f.access_queue).1 in
    ground (arith, try_access-limit (record f { access_queue = rest }))
step-limit (unlinks item) f = try_delete-limit (record f { del = Queue.push (item ∷ []) f.del })
step-limit (releases_unlink item) f = try_delete-limit (record f { state = deleted })
step-limit (unhooks_unlink item) f =
    let rest = (Queue.remove (λ other _. differs item other) f.del).1 in
    try_access-limit (record f { del = rest })
step-limit (cleans_lock w) f =
    chk_empty-limit (record f { multi_lock = MultiLock.clean (named w) f.multi_lock })
    ∙ clean-limit (named w) f.multi_lock
step-limit (cleans_access w) f = refl
step-limit (cleans_unlink w) f = refl

abbrev is_lock_grant : Item → Event
is_lock_grant item = lock_granted item locked

-- With no limit on its locks, a file that was not deleted is locked at once.
pub lock_unlimited :
    (item : Item) (f : FilePermissionResolver)
    → limit f ≡ 0
    → ((lock item f).0 ≡ not (is_deleted f))
      × ((lock item f).1
          ≡ (if is_deleted f then [] else fired on_lock item ∷ is_lock_grant item ∷ []))
unfolding lock MultiLock.acquire
lock_unlimited item f h = ground arith

-- ===== src/FilePermission/Tests.antt =====
-- core/fs-store/src/utils/FilePermissionResolver.ts on one file and three agents.
use testring.Common.{◌≡◌, refl, ◌<◌, true, false, some, [], ◌∷◌, arith, any, ◌≢◌, inl}
use testring.Common.Dict.{get, set, delete}
use testring.Queue
use testring.MultiLock
use testring.MultiLock.Invariant
use testring.FilePermission.{
  FilePermissionResolver, Item, locked, free, deleted, lock_size, create, try_delete, chk_empty,
  try_access, lock, unlock, clean_lock, hook_access, release_access, unhook_access, clean_access,
  hook_unlink, release_unlink, unhook_unlink, clean_unlink, fired, access_granted, on_access,
  on_access_release, get_access_queue_length, get_unlink_queue_length,
}
use testring.FilePermission.Call.{accesses, releases_access, locks, unlinks, step, grants_unlink}
use testring.FilePermission.Access
use testring.FilePermission.Access.{World, start, after, IsExclusive, Reach-IsExclusive}
use testring.FilePermission.Locks
use testring.FilePermission.Locks.{Reach-Protects}

resolver : Unit {0}
unfolding create try_delete chk_empty try_access lock unlock clean_lock hook_access release_access
    unhook_access clean_access hook_unlink release_unlink unhook_unlink clean_unlink
    get_access_queue_length get_unlink_queue_length step Queue.create Queue.push Queue.shift
    Queue.remove Queue.size MultiLock.create MultiLock.acquire MultiLock.release MultiLock.clean
    MultiLock.get_size get set delete
resolver = tt

abbrev ann : Item
ann = record { worker_id = "w1"; request_id = "r1" }

abbrev bob : Item
bob = record { worker_id = "w2"; request_id = "r2" }

abbrev fresh : FilePermissionResolver
fresh = record {
  data_id = "f";
  access_queue = record { array = [] };
  accessing = false;
  multi_lock = record { lock_hash = []; lock_length = 0; lock_limit = 0 };
  del = record { array = [] };
  state = free;
}

abbrev busy : FilePermissionResolver
busy = record fresh { accessing = true; access_queue = record { array = bob ∷ [] } }

runs :
    (create "f" ≡ fresh)
    × ((hook_access ann fresh).1 ≡ fired on_access ann ∷ access_granted ann ∷ [])
    × ((release_access ann busy).0
        ≡ fired on_access bob ∷ access_granted bob ∷ fired on_access_release ann ∷ [])
    × ((lock ann fresh).2.state ≡ locked)
    × ((hook_unlink bob (lock ann fresh).2).0 ≡ [])
    × (any grants_unlink (unlock ann (hook_unlink bob (lock ann fresh).2).1).0 ≡ true)
    × (get_access_queue_length busy ≡ (1, 1))
    × (get_unlink_queue_length (hook_unlink bob (lock ann fresh).2).1 ≡ 1)
    × ((unhook_access bob busy).2.access_queue.array ≡ bob ∷ [])
    × ((clean_access (some "w2") busy).1 ≡ record fresh { accessing = true })
unfolding resolver
runs = (refl, refl, refl, refl, refl, refl, refl, refl, refl, refl)

not_ended : (item other : Item) → accesses item ≢ releases_access other
not_ended item other = λ e. cc

history : Access.Reach (start "f") (after (step (accesses ann) (create "f")) [])
history = Access.Reach.next Access.Reach.here (Access.Step.calls (accesses ann) (not_ended ann))

Reach-IsExclusive_example : IsExclusive (after (step (accesses ann) (create "f")) [])
Reach-IsExclusive_example = Reach-IsExclusive "f" history

lock_history : Locks.Reach (create "f") 0 (step (locks ann) (create "f")).1
unfolding resolver
lock_history = Locks.Reach.next Locks.Reach.here (locks ann) tt

still_locked : 0 < lock_size (step (unlinks bob) (step (locks ann) (create "f")).1).1
unfolding resolver
still_locked = omega arith

Reach-Protects_example :
    any grants_unlink (step (unlinks bob) (step (locks ann) (create "f")).1).0 ≡ false
Reach-Protects_example = (Reach-Protects "f" (unlinks bob) lock_history tt still_locked).1

abbrev gone : FilePermissionResolver
gone = record fresh { state = deleted }

gone_lock-IsValid : Invariant.IsValid gone.multi_lock
gone_lock-IsValid = record { unique = tt; positive = tt; counted = refl; limited = inl refl }

gone_size : lock_size gone ≡ 0
unfolding resolver
gone_size = refl

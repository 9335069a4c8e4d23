-- ===== src/FilePermission/Locks.antt =====
-- core/fs-store/src/utils/FilePermissionResolver.ts: locks and unlinks.
use testring.Common.{
  ◌++◌, if◌then◌else◌, ℕ, ◌+◌, ◌-◌, List, count, ◌<◌, ◌≡◌, refl, ◌⊎◌, inl, inr, true, false, Option,
  none, some, String, [], ◌∷◌, arith, any, named, any-append,
}
use testring.Queue
use testring.Queue.{Queue}
use testring.MultiLock
use testring.MultiLock.Room.{acquire-false}
use testring.FilePermission.{
  on_unlock, Event, FilePermissionResolver, Item, locked, free, deleted, lock_size, is_deleted,
  create, try_delete, chk_empty, access_first, try_access, lock, unlock, clean_lock, hook_access,
  release_access, unhook_access, clean_access, hook_unlink, release_unlink, unhook_unlink,
  clean_unlink, delete_first, differs, fired, on_access_release,
}
use testring.FilePermission.Call.{
  Call, locks, unlocks, accesses, releases_access, unhooks_access, unlinks, releases_unlink,
  unhooks_unlink, cleans_lock, cleans_access, cleans_unlink, step, grants_unlink,
}
use testring.FilePermission.Access.{Outcome}
use testring.FilePermission.Going.{
  Goes, stays-Goes, try_delete-Goes, chk_empty-Goes, try_access-Goes, lock-Goes, behind_events,
  before_events, still_gone, hook_access-Goes, unhook_access-Goes,
}

-- While a lock is held the state says so.
abbrev pub IsProtected : FilePermissionResolver → Type 0
IsProtected f = (lock_size f ≡ 0) ⊎ (f.state ≡ locked)

-- Protection is kept, and an unlink is granted only with no lock held.
abbrev pub Protects : Outcome → Type 0
Protects (events, g) = IsProtected g × ((any grants_unlink events ≡ false) ⊎ (lock_size g ≡ 0))

delete_first-Protects :
    (f : FilePermissionResolver) (next : Option Item × Queue Item)
    → lock_size f ≡ 0
    → Protects ((delete_first f next).1, (delete_first f next).2)
unfolding delete_first
delete_first-Protects f (none, rest) z = (inl z, inr z)
delete_first-Protects f (some item, rest) z = (inl z, inr z)

try_delete-Protects :
    (f : FilePermissionResolver) → IsProtected f → Protects ((try_delete f).1, (try_delete f).2)
unfolding try_delete
try_delete-Protects f p = ground (arith, delete_first-Protects f (Queue.shift f.del))

chk_empty-Protects : (f : FilePermissionResolver) → Protects (chk_empty f)
unfolding chk_empty
chk_empty-Protects f = ground (arith, try_delete-Protects (record f { state = free }))

access_first-Protects :
    (f : FilePermissionResolver) (next : Option Item × Queue Item)
    → IsProtected f
    → Protects (access_first f next)
unfolding access_first
access_first-Protects f (none, rest) p = chk_empty-Protects (record f { access_queue = rest })
access_first-Protects f (some item, rest) p = (p, inl refl)

try_access-Protects :
    (f : FilePermissionResolver) → IsProtected f → Protects ((try_access f).1, (try_access f).2)
unfolding try_access
try_access-Protects f p = ground (arith, access_first-Protects f (Queue.shift f.access_queue))

lock-Protects :
    (item : Item) (f : FilePermissionResolver)
    → IsProtected f
    → Protects ((lock item f).1, (lock item f).2)
unfolding lock
lock-Protects item f p = ground (arith, acquire-false item.worker_id f.multi_lock)

unlock-Protects : (item : Item) (f : FilePermissionResolver) → Protects (unlock item f)
unfolding unlock
unlock-Protects item f =
    let g : FilePermissionResolver = record f {
      multi_lock = (MultiLock.release item.worker_id f.multi_lock).1;
    } in
    ground (arith, chk_empty-Protects g)

release_access-Protects :
    (item : Item) (f : FilePermissionResolver) → IsProtected f → Protects (release_access item f)
unfolding release_access
release_access-Protects item f p =
    let g : FilePermissionResolver = record f { accessing = false } in
    ground (
      arith,
      any-append grants_unlink (try_access g).1 (fired on_access_release item ∷ []),
      try_access-Protects g p,
    )

-- The clean-up callback of an unlink finds the file going or gone.
abbrev IsGoing : Call → FilePermissionResolver → Type 0
IsGoing (releases_unlink item) f = is_deleted f ≡ true
IsGoing _ f = Unit

step-Protects :
    (c : Call) (f : FilePermissionResolver) → IsGoing c f → IsProtected f → Protects (step c f)
unfolding step hook_access unhook_access clean_access hook_unlink release_unlink unhook_unlink
    clean_unlink clean_lock
step-Protects (locks item) f r p = lock-Protects item f p
step-Protects (unlocks item) f r p = unlock-Protects item f
step-Protects (accesses item) f r p =
    let q = Queue.push (item ∷ []) f.access_queue in
    ground (arith, try_access-Protects (record f { access_queue = q }) p)
step-Protects (releases_access item) f r p = release_access-Protects item f p
step-Protects (unhooks_access item) f r p =
    let q = (Queue.remove (λ other _. differs item other) f.access_queue).1 in
    ground (arith, try_access-Protects (record f { access_queue = q }) p)
step-Protects (unlinks item) f r p =
    try_delete-Protects (record f { del = Queue.push (item ∷ []) f.del }) p
step-Protects (releases_unlink item) f r p =
    try_delete-Protects (record f { state = deleted }) (ground arith)
step-Protects (unhooks_unlink item) f r p =
    try_access-Protects (record f { del = (Queue.remove (λ other _. differs item other) f.del).1 })
      p
step-Protects (cleans_lock w) f r p =
    chk_empty-Protects (record f { multi_lock = MultiLock.clean (named w) f.multi_lock })
step-Protects (cleans_access w) f r p = (p, inl refl)
step-Protects (cleans_unlink w) f r p = (p, inl refl)

-- What the callers of a resolver see to, when `going` unlinks were granted to them whose clean-up
-- callback has not been called: an unlock gives back a lock, so that one is held; a clean-up callback
-- of an unlink belongs to a granted one; and the locks are not cleaned while a granted unlink goes on.
abbrev IsProper : ℕ → Call → FilePermissionResolver → Type 0
IsProper going (unlocks item) f = 0 < lock_size f
IsProper going (releases_unlink item) f = 0 < going
IsProper going (cleans_lock w) f = going ≡ 0
IsProper going _ f = Unit

-- The granted unlinks that go on after a call.
abbrev going_after : ℕ → Call → List Event → ℕ
going_after going (releases_unlink item) events = (going - 1) + count grants_unlink events
going_after going _ events = going + count grants_unlink events

abbrev Remains : ℕ → FilePermissionResolver → Type 0
Remains going f = 0 < going → is_deleted f ≡ true

stay_granted :
    (going : ℕ) (f g : FilePermissionResolver) (events : List Event)
    → Remains going f
    → Goes (is_deleted f) (events, g)
    → Remains (going + count grants_unlink events) g
stay_granted going f g events h (inl d) k = d
stay_granted going f g events h (inr (none_granted, e)) k = ground (arith, h)

stay_free :
    (going : ℕ) (g : FilePermissionResolver) (events : List Event)
    → going ≡ 0
    → Goes false (events, g)
    → Remains (going + count grants_unlink events) g
stay_free going g events z (inl d) k = d
stay_free going g events z (inr (none_granted, e)) k = absurd (omega arith)

-- While a lock is held no unlink goes on.
locked_going :
    (going : ℕ) (f : FilePermissionResolver)
    → IsProtected f
    → Remains going f
    → 0 < lock_size f
    → going ≡ 0
locked_going going f p h held = ground (arith, h)

pub data Reach (f : FilePermissionResolver) : ℕ → FilePermissionResolver → Type 0 where
  here : Reach f 0 f
  next :
      {going : ℕ} {g : FilePermissionResolver}
      → Reach f going g
      → (c : Call) → IsProper going c g
      → Reach f (going_after going c (step c g).0) (step c g).1

-- A granted unlink that goes on finds the file going or gone after each proper call.
step-Remains :
    (going : ℕ) (c : Call) (f : FilePermissionResolver)
    → IsProper going c f
    → IsProtected f
    → Remains going f
    → Remains (going_after going c (step c f).0) (step c f).1
unfolding step clean_access hook_unlink release_unlink unhook_unlink clean_unlink clean_lock unlock
    release_access
step-Remains going (locks item) f r p h =
    stay_granted going f (lock item f).2 (lock item f).1 h (lock-Goes item f)
step-Remains going (unlocks item) f r p h =
    let l = MultiLock.release item.worker_id f.multi_lock in
    let o = chk_empty (record f { multi_lock = l.1 }) in
    let front : List Event = if l.0 then fired on_unlock item ∷ [] else [] in
    stay_free going o.1 (front ++ o.0) (locked_going going f p h r) (
      behind_events false front o.0 o.1 (ground arith)
        (chk_empty-Goes (record f { multi_lock = l.1 })))
step-Remains going (accesses item) f r p h =
    stay_granted going f (hook_access item f).2 (hook_access item f).1 h (hook_access-Goes item f)
step-Remains going (releases_access item) f r p h =
    let o = try_access (record f { accessing = false }) in
    stay_granted going f o.2 (o.1 ++ fired on_access_release item ∷ []) h (
      before_events (is_deleted f) o.1 (fired on_access_release item ∷ []) o.2 refl
        (try_access-Goes (record f { accessing = false })))
step-Remains going (unhooks_access item) f r p h =
    stay_granted going f (unhook_access item f).2 (unhook_access item f).1 h
      (unhook_access-Goes item f)
step-Remains going (unlinks item) f r p h =
    let o = try_delete (record f { del = Queue.push (item ∷ []) f.del }) in
    stay_granted going f o.2 o.1 h
      (try_delete-Goes (record f { del = Queue.push (item ∷ []) f.del }))
step-Remains going (releases_unlink item) f r p h =
    let o = try_delete (record f { state = deleted }) in
    λ k. still_gone (o.1, o.2) (try_delete-Goes (record f { state = deleted }))
step-Remains going (unhooks_unlink item) f r p h =
    let g = record f { del = (Queue.remove (λ other _. differs item other) f.del).1 } in
    stay_granted going f (try_access g).2 (try_access g).1 h (try_access-Goes g)
step-Remains going (cleans_lock w) f r p h =
    let o = chk_empty (record f { multi_lock = MultiLock.clean (named w) f.multi_lock }) in
    stay_free going o.1 o.0 r
      (chk_empty-Goes (record f { multi_lock = MultiLock.clean (named w) f.multi_lock }))
step-Remains going (cleans_access w) f r p h =
    stay_granted going f (clean_access w f).1 (clean_access w f).0 h
      (stays-Goes f (clean_access w f).1 refl)
step-Remains going (cleans_unlink w) f r p h =
    stay_granted going f (clean_unlink w f).1 (clean_unlink w f).0 h
      (stays-Goes f (clean_unlink w f).1 refl)

-- Proper calls find the file going where they have to.
IsProper-IsGoing :
    (going : ℕ) (c : Call) (f : FilePermissionResolver)
    → IsProper going c f
    → Remains going f
    → IsGoing c f
IsProper-IsGoing going (locks item) f r h = tt
IsProper-IsGoing going (unlocks item) f r h = tt
IsProper-IsGoing going (accesses item) f r h = tt
IsProper-IsGoing going (releases_access item) f r h = tt
IsProper-IsGoing going (unhooks_access item) f r h = tt
IsProper-IsGoing going (unlinks item) f r h = tt
IsProper-IsGoing going (releases_unlink item) f r h = h r
IsProper-IsGoing going (unhooks_unlink item) f r h = tt
IsProper-IsGoing going (cleans_lock w) f r h = tt
IsProper-IsGoing going (cleans_access w) f r h = tt
IsProper-IsGoing going (cleans_unlink w) f r h = tt

no_going : (f : FilePermissionResolver) → Remains 0 f
no_going f h = absurd (omega arith)

Reach-keeps :
    {f g : FilePermissionResolver} {going : ℕ}
    → IsProtected f
    → Reach f going g
    → IsProtected g × Remains going g
Reach-keeps {f} p here = (p, no_going f)
Reach-keeps p (next {going} {g} r c i) =
    let (q, h) = Reach-keeps p r in
    ((step-Protects c g (IsProper-IsGoing going c g i h) q).0, step-Remains going c g i q h)

create-IsProtected : (data_id : String) → IsProtected (create data_id)
unfolding create MultiLock.create MultiLock.get_size
create-IsProtected data_id = inl refl

-- No unlink is granted while a lock is held, if the callers give back locks only while one is held,
-- call the clean-up callback of an unlink once for each granted one and not before, and do not clean
-- the locks while a granted unlink goes on. After any such calls on a new resolver, a further one
-- leaves a state that is `locked` if a lock is held then, and in that case grants no unlink.
pub Reach-Protects :
    (data_id : String) {f : FilePermissionResolver} {going : ℕ} (c : Call)
    → Reach (create data_id) going f
    → IsProper going c f
    → 0 < lock_size (step c f).1
    → ((step c f).1.state ≡ locked) × (any grants_unlink (step c f).0 ≡ false)
Reach-Protects data_id {f} {going} c r i h =
    let (p, remains) = Reach-keeps (create-IsProtected data_id) r in
    ground (arith, step-Protects c f (IsProper-IsGoing going c f i remains) p)

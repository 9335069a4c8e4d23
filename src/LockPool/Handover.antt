-- ===== src/LockPool/Handover.antt =====
-- core/fs-store/src/utils/LockPool.ts: who gets a lock, and what a call answers.
use testring.Common.{
  eq_iff, ◌+◌, ◌≡◌, refl, ◌⊎◌, inl, inr, Bool, true, false, Option, none, some, String, List, [],
  ◌∷◌, ◌++◌, arith, keep, Bool-cases, named, ◌≢◌,
}
use testring.Common.Dict.{has, add}
use testring.Queue
use testring.Queue.{Queue}
use testring.MultiLock
use testring.MultiLock.Room.{
  IsFull, HasRoom, IsFull-cases, acquire_full, acquire_room, release-true,
}
use testring.LockPool.{
  LockPool, QueueItem, Reply, rejected, resolved, pending, promise, notify, acquire_action,
  acquire_fresh, acquire_named, acquire, is_of, serve_next, release_pool, release,
}
use testring.LockPool.Cases.{release_waiting, release_held}
use testring.LockPool.Invariant.{IsValid}

-- A worker that gives a lock back while others wait passes it to the item that has waited longest:
-- the release succeeds, that item's promise is resolved with `true` and no other is settled, the
-- item leaves the front of the queue, and the number of locks taken stays what it was.
pub release_serves_first :
    (w : String) (r : Option String) (p : LockPool) (x : QueueItem) (xs : List QueueItem)
    → IsValid p
    → p.request_que.array ≡ x ∷ xs
    → keep (is_of w r) p.request_que.array ≡ []
    → (MultiLock.release w p.pool_lock).0 ≡ true
    → let (answer, events, q) = release w r p in
      (answer ≡ true)
      × (events ≡ notify x.notifier true)
      × (q.request_que.array ≡ xs)
      × (q.pool_lock.lock_length ≡ p.pool_lock.lock_length)
unfolding release_pool serve_next Queue.shift
release_serves_first w r p x xs v e none_of held =
    let gone = release-true w p.pool_lock v.lock held in
    let a =
      acquire_room x.worker_id (MultiLock.release w p.pool_lock).1
        (ground (arith, v.lock.limited, v.busy)) in
    rw (release_held w r p none_of, release_pool, held, e, serve_next, a.0)
      (refl, refl, ground arith, ground (arith, gone.0, a.1))

-- Whether `acquire` refuses the request: its id is not empty, and was used before.
abbrev pub is_repeated : Option String → LockPool → Bool
is_repeated none p = false
is_repeated (some r) p = has r p.requests

-- The promise is resolved at once: one more lock is taken, and the queue is as before.
abbrev pub IsGranted : LockPool → Reply → LockPool → Type 0
IsGranted p reply q =
    (reply ≡ resolved)
    × HasRoom p.pool_lock
    × (q.request_que ≡ p.request_que)
    × (q.pool_lock.lock_length ≡ p.pool_lock.lock_length + 1)

-- The promise stays open: its item waits at the end of the queue, and the locks are as before.
abbrev pub IsQueued : String → Option String → LockPool → Reply → LockPool → Type 0
IsQueued w r p reply q =
    (reply ≡ pending p.calls)
    × IsFull p.pool_lock
    × (q.request_que.array
        ≡ p.request_que.array
          ++ record { worker_id = w; request_id = r; notifier = promise p.calls } ∷ [])
    × (q.pool_lock ≡ p.pool_lock)

acquire_fresh_answers :
    (w : String) (r : Option String) (p : LockPool)
    → let (reply, q) = acquire_fresh w r p in IsGranted p reply q ⊎ IsQueued w r p reply q
unfolding acquire_fresh acquire_action Queue.push
acquire_fresh_answers w r p = elim (IsFull-cases p.pool_lock) [
  | inl full ↦ rw (acquire_full w p.pool_lock full) (inr (refl, full, refl, refl))
  | inr room ↦ let a = acquire_room w p.pool_lock room in rw a.0 (inl (refl, room, refl, a.1))
]

abbrev pub Answers : Bool → String → Option String → LockPool → Reply → LockPool → Type 0
Answers true w r p reply q = (reply ≡ rejected) × (q ≡ p)
Answers false w r p reply q = IsGranted p reply q ⊎ IsQueued w r p reply q

acquire_named-Answers :
    (w : String) (r name : Option String) (p : LockPool)
    → let (reply, q) = acquire_named w r name p in Answers (is_repeated name p) w r p reply q
unfolding acquire_named
acquire_named-Answers w r none p = acquire_fresh_answers w r p
acquire_named-Answers w r (some s) p = elim (Bool-cases (has s p.requests)) [
  | inl old ↦ rw old (refl, refl)
  | inr new ↦ rw new (acquire_fresh_answers w r (record p { requests = add s p.requests }))
]

-- What `acquire` answers is decided by the pool alone. A repeated id is refused, and nothing
-- changes. Else the promise is resolved at once if there is room, which takes one lock and leaves
-- the queue; and if there is none it stays open, its item waits at the end of the queue, and no lock
-- is taken.
acquire-Answers :
    (w : String) (r : Option String) (p : LockPool)
    → let (reply, q) = acquire w r p in Answers (is_repeated (named r) p) w r p reply q
unfolding acquire
acquire-Answers w r p = acquire_named-Answers w r (named r) p

-- A request that is given up while it waits is refused and leaves the queue, takes no lock from
-- anyone, and is not forgotten: a later `acquire` under its id is rejected, whichever worker makes
-- it.
acquire-release_waiting :
    (w w' s : String) (p : LockPool) (x : QueueItem) (ys : List QueueItem)
    → s ≢ ""
    → has s p.requests ≡ true
    → keep (is_of w (some s)) p.request_que.array ≡ x ∷ ys
    → let (answer, events, q) = release w (some s) p in
      (answer ≡ true)
      × (events ≡ notify x.notifier false)
      × (q.pool_lock ≡ p.pool_lock)
      × ((acquire w' (some s) q).0 ≡ rejected)
unfolding acquire acquire_named
acquire-release_waiting w w' s p x ys h old e =
    rw (release_waiting w (some s) p x ys e) (refl, refl, refl, ground (arith, eq_iff s ""))

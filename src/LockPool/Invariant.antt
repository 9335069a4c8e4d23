-- ===== src/LockPool/Invariant.antt =====
-- core/fs-store/src/utils/LockPool.ts: the requests that wait, and the room of the pool.
use testring.Common.{
  ℕ, ◌+◌, ◌<◌, ◌≡◌, refl, ◌⊎◌, inl, inr, not, Option, none, some, String, List, [], ◌∷◌, arith,
  Bool-cases, named, keep, List-cases, keep-nil,
}
use testring.Common.Dict.{has, add}
use testring.Queue
use testring.Queue.{Queue}
use testring.MultiLock
use testring.MultiLock.{MultiLock}
use testring.MultiLock.Invariant
use testring.MultiLock.Room.{
  IsFull, IsFull-cases, acquire_full, acquire_room, release-true, release-false,
}
use testring.LockPool.Cases.{release_waiting, release_held}
use testring.LockPool.{
  LockPool, QueueItem, Notifier, create, acquire_action, acquire_named, acquire, is_of, serve_next,
  release_pool, release, promise,
}

pub record IsValid (p : LockPool) : Type 0 where
  pub lock : Invariant.IsValid p.pool_lock
  pub busy : (p.request_que.array ≡ []) ⊎ IsFull p.pool_lock

pub create-IsValid : (n : ℕ) → IsValid (create n)
unfolding create Queue.create
create-IsValid n = record { lock = Invariant.create-IsValid n; busy = inl refl }

acquire_action-IsValid :
    (w : String) (r : Option String) (n : Notifier) (p : LockPool)
    → IsValid p
    → IsValid (acquire_action w r n p).1
unfolding acquire_action
acquire_action-IsValid w r n p v = elim (IsFull-cases p.pool_lock) [
  | inl full ↦ rw (acquire_full w p.pool_lock full) (record { lock = v.lock; busy = inr full })
  | inr room ↦
      let a = acquire_room w p.pool_lock room in
      rw a.0 (record { lock = Invariant.acquire-IsValid w p.pool_lock v.lock; busy = ground arith })
]

acquire_named-IsValid :
    (w : String) (r name : Option String) (p : LockPool)
    → IsValid p
    → IsValid (acquire_named w r name p).1
unfolding acquire_named
acquire_named-IsValid w r none p v =
    let q = acquire_action-IsValid w r (promise p.calls) p v in
    record { lock = q.lock; busy = q.busy }
acquire_named-IsValid w r (some s) p v = elim (Bool-cases (has s p.requests)) [
  | inl old ↦ rw old v
  | inr new ↦
      let p' : LockPool = record p { requests = add s p.requests } in
      let q =
        acquire_action-IsValid w r (promise p.calls) p' (record { lock = v.lock; busy = v.busy }) in
      rw new (record { lock = q.lock; busy = q.busy })
]

pub acquire-IsValid :
    (w : String) (r : Option String) (p : LockPool) → IsValid p → IsValid (acquire w r p).1
unfolding acquire
acquire-IsValid w r p v = acquire_named-IsValid w r (named r) p v

-- With one lock to spare, the item that waits first gets it, and the pool is as full as before.
serve_next-IsValid :
    (xs : List QueueItem) (p : LockPool)
    → p.request_que.array ≡ xs
    → Invariant.IsValid p.pool_lock
    → (xs ≡ [])
      ⊎ ((0 < p.pool_lock.lock_limit) × (p.pool_lock.lock_length + 1 ≡ p.pool_lock.lock_limit))
    → IsValid (serve_next p).1
unfolding serve_next Queue.shift
serve_next-IsValid [] p e v h = rw (e, serve_next) (record { lock = v; busy = inl (ground arith) })
serve_next-IsValid (x ∷ xs) p e v h =
    let a = acquire_room x.worker_id p.pool_lock (ground arith) in
    rw (e, serve_next, a.0)
      (record { lock = Invariant.acquire-IsValid x.worker_id p.pool_lock v; busy = ground arith })

release_pool-IsValid :
    (w : String) (r : Option String) (p : LockPool) → IsValid p → IsValid (release_pool w r p).2
unfolding release_pool
release_pool-IsValid w r p v = elim (Bool-cases (MultiLock.release w p.pool_lock).0) [
  | inr e ↦ rw (e, release-false w p.pool_lock e) v
  | inl e ↦
      let lock = (MultiLock.release w p.pool_lock).1 in
      let gone = release-true w p.pool_lock v.lock e in
      let served =
        serve_next-IsValid p.request_que.array (record p { pool_lock = lock }) refl
          (Invariant.release-IsValid w p.pool_lock v.lock) (ground (arith, v.lock.limited)) in
      rw e (record { lock = served.lock; busy = served.busy })
]

pub release-IsValid :
    (w : String) (r : Option String) (p : LockPool) → IsValid p → IsValid (release w r p).2
release-IsValid w r p v = elim (List-cases (keep (is_of w r) p.request_que.array)) [
  | inl e ↦ rw (release_held w r p e) (release_pool-IsValid w r p v)
  | inr (x, ys, e) ↦ rw (release_waiting w r p x ys e) (record {
    lock = v.lock;
    busy = ground (arith, keep-nil (λ y. not (is_of w r y)) p.request_que.array);
  })
]

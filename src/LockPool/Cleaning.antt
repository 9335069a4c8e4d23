-- ===== src/LockPool/Cleaning.antt =====
-- core/fs-store/src/utils/LockPool.ts: histories of calls, and what `clean` does to them.
use testring.Common.{
  ℕ, ◌<◌, ◌≡◌, refl, inl, ◌≢◌, true, false, not, Option, none, some, String, List, [], ◌∷◌, arith,
  keep, named, eq_iff, ◌==◌,
}
use testring.Common.Dict.{get}
use testring.Queue.Laws.{extract-keep}
use testring.MultiLock
use testring.MultiLock.Invariant
use testring.MultiLock.Room.{HasRoom, clean_room}
use testring.LockPool.{LockPool, QueueItem, create, acquire, release, clean_by, clean, refuse_all}
use testring.LockPool.Invariant.{IsValid, create-IsValid, acquire-IsValid, release-IsValid}

-- One call of a pool's interface. A `clean` of all workers is a call like the others, that of one
-- worker stands apart.
pub data Step (p : LockPool) : LockPool → Type 0 where
  acquires : (w : String) (r : Option String) → Step p (acquire w r p).1
  releases : (w : String) (r : Option String) → Step p (release w r p).2
  cleans : (w : Option String) → named w ≡ none → Step p (clean w p).1

pub data Reach (p : LockPool) : LockPool → Type 0 where
  here : Reach p p
  next : {q r : LockPool} → Reach p q → Step q r → Reach p r

keep_none : {A : Type 0} (xs : List A) → keep (λ _. false) xs ≡ []
keep_none [] = refl
keep_none (x ∷ xs) = keep_none xs

clean_all-IsValid : (p : LockPool) → IsValid p → IsValid (clean_by none p).1
unfolding clean_by
clean_all-IsValid p v =
    rw (extract-keep (λ _. true) p.request_que, keep_none p.request_que.array)
      (record { lock = Invariant.clean-IsValid none p.pool_lock v.lock; busy = inl refl })

Step-IsValid : {p q : LockPool} → Step p q → IsValid p → IsValid q
unfolding clean
Step-IsValid {p} (acquires w r) v = acquire-IsValid w r p v
Step-IsValid {p} (releases w r) v = release-IsValid w r p v
Step-IsValid {p} (cleans w e) v = rw e (clean_all-IsValid p v)

Reach-keeps : {p q : LockPool} → IsValid p → Reach p q → IsValid q
Reach-keeps v here = v
Reach-keeps v (next r s) = Step-IsValid s (Reach-keeps v r)

-- After any history of `acquire`, `release` and `clean` of all workers on a new pool, the counts are
-- in order and within the limit, and nobody waits unless every lock is taken.
pub Reach-IsValid : (n : ℕ) {p : LockPool} → Reach (create n) p → IsValid p
Reach-IsValid n r = Reach-keeps (create-IsValid n) r

named_ne : (w : String) → w ≢ "" → named (some w) ≡ some w
named_ne w h = ground (arith, eq_iff w "")

-- `clean` of one worker refuses every item of that worker that waits, and keeps all other items in
-- their order. But it gives the freed locks to nobody: if the worker held a lock and others wait,
-- there is then room while they go on waiting, and no promise of theirs is settled.
clean_worker_stalls :
    (w : String) (p : LockPool) (x : QueueItem) (ys : List QueueItem)
    → IsValid p
    → w ≢ ""
    → 0 < MultiLock.count_of (get w p.pool_lock.lock_hash)
    → keep (λ y. not (y.worker_id == w)) p.request_que.array ≡ x ∷ ys
    → let (events, q) = clean (some w) p in
      (events ≡ refuse_all (keep (λ y. y.worker_id == w) p.request_que.array))
      × (q.request_que.array ≡ x ∷ ys)
      × HasRoom q.pool_lock
      × (¬ IsValid q)
unfolding clean clean_by
clean_worker_stalls w p x ys v h held e =
    let room = clean_room w p.pool_lock v.lock h held in
    rw (named_ne w h, extract-keep (λ y. y.worker_id == w) p.request_que)
      (refl, e, room, λ u. ground (arith, u.busy, room))

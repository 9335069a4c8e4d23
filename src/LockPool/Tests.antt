-- ===== src/LockPool/Tests.antt =====
-- core/fs-store/src/utils/LockPool.ts on a pool of one lock, with two requests waiting.
use testring.Common.{◌≡◌, refl, inr, ◌≢◌, true, false, none, some, String, [], ◌∷◌, arith, eq_iff}
use testring.Common.Dict.{get, set, delete, has, add, remove}
use testring.Queue
use testring.MultiLock
use testring.LockPool.{
  clean_by, release_pool, LockPool, QueueItem, promise, notify, rejected, resolved, pending, create,
  acquire, release, clean, get_state, refuse_all,
}
use testring.LockPool.Invariant.{IsValid}
use testring.LockPool.Handover.{release_serves_first}
use testring.LockPool.Cleaning.{Reach, here, next, acquires, releases, Reach-IsValid}

pool : Unit {0}
unfolding create acquire release release_pool clean clean_by get_state notify refuse_all
    Queue.create Queue.push Queue.shift Queue.extract Queue.size MultiLock.create MultiLock.acquire
    MultiLock.release MultiLock.clean MultiLock.get_size MultiLock.get_ids get set delete has add
    remove
pool = tt

abbrev second : QueueItem
second = record { worker_id = "w2"; request_id = some "r2"; notifier = promise 1 }

abbrev third : QueueItem
third = record { worker_id = "w3"; request_id = some "r3"; notifier = promise 2 }

-- Three workers ask for the only lock.
abbrev crowded : LockPool
crowded = record {
  pool_lock = record { lock_hash = ("w1", 1) ∷ []; lock_length = 1; lock_limit = 1 };
  request_que = record { array = second ∷ third ∷ [] };
  requests = "r1" ∷ "r2" ∷ "r3" ∷ [];
  calls = 3;
}

three_calls : LockPool
three_calls =
    (acquire "w3" (some "r3")
      (acquire "w2" (some "r2") (acquire "w1" (some "r1") (create 1)).1).1).1

three_calls-crowded : three_calls ≡ crowded
unfolding three_calls pool
three_calls-crowded = refl

replies :
    ((acquire "w1" (some "r1") (create 1)).0 ≡ resolved)
    × ((acquire "w1" (some "r1") crowded).0 ≡ rejected)
    × ((acquire "w1" (some "r4") crowded).0 ≡ pending 3)
    × ((release "w1" (some "r1") crowded).1 ≡ (1, true) ∷ [])
    × ((release "w3" (some "r3") crowded).1 ≡ (2, false) ∷ [])
    × ((clean none crowded).0 ≡ (1, false) ∷ (2, false) ∷ [])
    × ((get_state crowded).lock_queue_len ≡ 2)
unfolding pool
replies = (refl, refl, refl, refl, refl, refl, refl)

crowded-IsValid : IsValid crowded
unfolding get
crowded-IsValid = record {
  lock = record {
    unique = (refl, tt);
    positive = omega arith;
    counted = refl;
    limited = inr (omega arith);
  };
  busy = inr (omega arith, omega arith);
}

release_serves_first_example : (release "w1" (some "r1") crowded).1 ≡ (1, true) ∷ []
unfolding pool
release_serves_first_example =
    (release_serves_first "w1" (some "r1") crowded second (third ∷ []) crowded-IsValid refl refl
      refl).1

not_empty : ◌≢◌ {A = String} "r3" ""
not_empty = ground (arith, eq_iff "r3" "")

history : Reach (create 1) (release "w1" none (acquire "w1" (some "r1") (create 1)).1).2
history = next (next here (acquires "w1" (some "r1"))) (releases "w1" none)

Reach-IsValid_example : IsValid (release "w1" none (acquire "w1" (some "r1") (create 1)).1).2
Reach-IsValid_example = Reach-IsValid 1 history

named_worker : ◌≢◌ {A = String} "w1" ""
named_worker = ground (arith, eq_iff "w1" "")

-- ===== src/LockPool.antt =====
-- core/fs-store/src/utils/LockPool.ts, the class `LockPool`. A promise that `acquire` leaves open is
-- known by the number of its call; settling it is an event, in the order in which the code does it.
mod Cases
pub mod Invariant
pub mod Handover
pub mod Cleaning
mod Tests
use testring.Common.{
  ℕ, ◌+◌, Bool, true, false, not, ◌&&◌, Option, none, some, String, List, [], ◌∷◌, ◌++◌, truthy,
  named, if◌then◌else◌, ◌==◌,
}
use testring.Common.Dict.{Dict, has, add, remove}
use testring.Queue
use testring.Queue.{Queue}
use testring.MultiLock
use testring.MultiLock.{MultiLock}

-- What a queued item calls when it is answered: the `res` of the promise of call `n`, or the `then`
-- of an acquisition that `release` makes for a waiting item, which reports success whatever it gets.
pub data Notifier : Type 0 where
  promise : ℕ → Notifier
  chained : Notifier → Notifier

pub record QueueItem : Type 0 where
  pub worker_id : String
  pub request_id : Option String
  pub notifier : Notifier

-- A promise that is settled, with its value.
abbrev pub Event : Type 0
Event = ℕ × Bool

unfoldable pub notify : Notifier → Bool → List Event
notify (promise n) allow = (n, allow) ∷ []
notify (chained inner) allow = notify inner true

pub record LockPool : Type 0 where
  pub pool_lock : MultiLock
  pub request_que : Queue QueueItem
  pub requests : List String
  pub calls : ℕ

unfoldable pub create : ℕ → LockPool
create max_lock_count = record {
  pool_lock = MultiLock.create max_lock_count;
  request_que = Queue.create none;
  requests = [];
  calls = 0;
}

pub record PoolState : Type 0 where
  pub cur_locks : ℕ
  pub max_locks : ℕ
  pub lock_queue_len : ℕ
  pub locks : Dict ℕ

pub get_state : LockPool → PoolState
get_state p = record {
  cur_locks = MultiLock.get_size none p.pool_lock;
  max_locks = p.pool_lock.lock_limit;
  lock_queue_len = Queue.size p.request_que;
  locks = MultiLock.get_ids p.pool_lock;
}

pub data Reply : Type 0 where
  rejected : Reply
  resolved : Reply
  pending : ℕ → Reply

-- Whether the promise is resolved at once; else the item waits, and `notifier` is run on its answer.
unfoldable pub acquire_action : String → Option String → Notifier → LockPool → Bool × LockPool
acquire_action worker_id request_id notifier p =
    let (got, lock) = MultiLock.acquire worker_id p.pool_lock in
    if got
    then (true, record p { pool_lock = lock })
    else (false, record p { request_que = Queue.push (item ∷ []) p.request_que })
  where
    item : QueueItem
    item = record { worker_id = worker_id; request_id = request_id; notifier = notifier }

acquire_fresh : String → Option String → LockPool → Reply × LockPool
unfolding acquire_action
acquire_fresh worker_id request_id p =
    let (now, q) = acquire_action worker_id request_id (promise p.calls) p in
    (if now then resolved else pending p.calls, record q { calls = p.calls + 1 })

acquire_named : String → Option String → Option String → LockPool → Reply × LockPool
unfolding acquire_fresh
acquire_named worker_id request_id none p = acquire_fresh worker_id request_id p
acquire_named worker_id request_id (some r) p =
    if has r p.requests
    then (rejected, p)
    else acquire_fresh worker_id request_id (record p { requests = add r p.requests })

unfoldable pub acquire : String → Option String → LockPool → Reply × LockPool
unfolding acquire_named
acquire worker_id request_id p = acquire_named worker_id request_id (named request_id) p

-- `===` between two values of `string | undefined`.
abbrev pub same_id : Option String → Option String → Bool
same_id none none = true
same_id (some r) (some s) = r == s
same_id _ _ = false

abbrev pub is_of : String → Option String → QueueItem → Bool
is_of worker_id request_id item = item.worker_id == worker_id && same_id item.request_id request_id

-- The part of `release` that hands the lock to the item that has waited longest.
serve_next : LockPool → List Event × LockPool
unfolding acquire_action
serve_next p =
    let (first, rest) = Queue.shift p.request_que in
    elim first [
      | none ↦ ([], record p { request_que = rest })
      | some item ↦
          let q = record p { request_que = rest } in
          let (now, q') = acquire_action item.worker_id item.request_id (chained item.notifier) q in
          (if now then notify item.notifier true else [], q')
    ]

forget : Option String → List String → List String
forget none requests = requests
forget (some r) requests = remove r requests

unfoldable pub release_pool : String → Option String → LockPool → Bool × List Event × LockPool
unfolding serve_next forget
release_pool worker_id request_id p =
    let (released, lock) = MultiLock.release worker_id p.pool_lock in
    let (events, q) = serve_next (record p { pool_lock = lock }) in
    if released
    then (true, events, record q { requests = forget request_id q.requests })
    else (false, [], record p { pool_lock = lock })

-- `removed` is what was still waiting, `rest` the queue without it.
unfoldable pub release_removed :
    String
    → Option String
    → LockPool
    → List QueueItem × Queue QueueItem
    → Bool × List Event × LockPool
release_removed worker_id request_id p ([], rest) =
    release_pool worker_id request_id (record p { request_que = rest })
release_removed worker_id request_id p (r ∷ _, rest) =
    (true, notify r.notifier false, record p { request_que = rest })

unfoldable pub release : String → Option String → LockPool → Bool × List Event × LockPool
unfolding release_removed
release worker_id request_id p =
    release_removed worker_id request_id p
      (Queue.extract (λ item _. is_of worker_id request_id item) p.request_que)

pub refuse_all : List QueueItem → List Event
refuse_all [] = []
refuse_all (item ∷ items) = notify item.notifier false ++ refuse_all items

unfoldable pub clean_by : Option String → LockPool → List Event × LockPool
unfolding refuse_all
clean_by none p =
    let (removed, rest) = Queue.extract (λ _ _. true) p.request_que in
    (
      refuse_all removed,
      record p { pool_lock = MultiLock.clean none p.pool_lock; request_que = rest },
    )
clean_by (some worker_id) p =
    let (removed, rest) = Queue.extract (λ item _. item.worker_id == worker_id) p.request_que in
    (
      refuse_all removed,
      record p { pool_lock = MultiLock.clean (some worker_id) p.pool_lock; request_que = rest },
    )

unfoldable pub clean : Option String → LockPool → List Event × LockPool
unfolding clean_by
clean worker_id p = clean_by (named worker_id) p

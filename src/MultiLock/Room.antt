-- ===== src/MultiLock/Room.antt =====
-- core/utils/src/multi-lock.ts: what the holder of a lock needs to know of its limit.
use testring.Common.{eq_iff, some, ◌≢◌, ◌+◌, ◌≤◌, ◌<◌, ◌≡◌, ◌⊎◌, true, false, String, arith}
use testring.MultiLock.{get, count_of, clean, MultiLock, acquire, release}
use testring.MultiLock.Totals.{count_of-le-total}
use testring.MultiLock.Invariant.{IsValid}

abbrev pub IsFull : MultiLock → Type 0
IsFull l = (0 < l.lock_limit) × (l.lock_limit ≤ l.lock_length)

abbrev pub HasRoom : MultiLock → Type 0
HasRoom l = (l.lock_limit ≡ 0) ⊎ (l.lock_length < l.lock_limit)

pub IsFull-cases : (l : MultiLock) → IsFull l ⊎ HasRoom l
IsFull-cases l = grind arith

pub acquire_full : (id : String) (l : MultiLock) → IsFull l → acquire id l ≡ (false, l)
unfolding acquire
acquire_full id l h = ground arith

pub acquire_room :
    (id : String) (l : MultiLock)
    → HasRoom l
    → ((acquire id l).0 ≡ true)
      × ((acquire id l).1.lock_length ≡ l.lock_length + 1)
      × ((acquire id l).1.lock_limit ≡ l.lock_limit)
unfolding acquire
acquire_room id l h = ground arith

-- A release that succeeds takes one lock off the total, which was not 0.
pub release-true :
    (id : String) (l : MultiLock)
    → IsValid l
    → (release id l).0 ≡ true
    → ((release id l).1.lock_length + 1 ≡ l.lock_length)
      × ((release id l).1.lock_limit ≡ l.lock_limit)
unfolding release
release-true id l v h = ground (arith, v.counted, count_of-le-total id l.lock_hash)

pub release-false : (id : String) (l : MultiLock) → (release id l).0 ≡ false → (release id l).1 ≡ l
unfolding release
release-false id l h = ground arith

-- Cleaning an id that holds a lock makes room, where the total is within the limit.
pub clean_room :
    (id : String) (l : MultiLock)
    → IsValid l
    → id ≢ ""
    → 0 < count_of (get id l.lock_hash)
    → HasRoom (clean (some id) l)
unfolding clean
clean_room id l v h pos =
    ground (arith, eq_iff id "", v.counted, v.limited, count_of-le-total id l.lock_hash)

pub acquire-false : (id : String) (l : MultiLock) → (acquire id l).0 ≡ false → (acquire id l).1 ≡ l
unfolding acquire
acquire-false id l h = ground arith

-- With no lock taken, nothing can be released.
pub release_empty :
    (id : String) (l : MultiLock) → IsValid l → l.lock_length ≡ 0 → release id l ≡ (false, l)
unfolding release
release_empty id l v z = ground (arith, v.counted, count_of-le-total id l.lock_hash)

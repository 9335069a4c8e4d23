-- ===== src/MultiLock/Invariant.antt =====
-- core/utils/src/multi-lock.ts: the counts, their total and the limit.
use testring.Common.{
  ℕ, ◌+◌, ◌-◌, ◌≤◌, ◌≡◌, refl, ◌⊎◌, Option, none, some, String, arith, List, [], ◌∷◌, named,
}
use testring.Common.Dict.{get, values, IsUnique, set-IsUnique, delete-IsUnique}
use testring.MultiLock.Totals.{
  total, total-set, total-delete, IsPositive, set-IsPositive, delete-IsPositive, delete_each-keys,
}
use testring.MultiLock.{MultiLock, create, count_of, acquire, release, clean_by, clean}

pub record IsValid (l : MultiLock) : Type 0 where
  pub unique : IsUnique l.lock_hash
  pub positive : IsPositive l.lock_hash
  pub counted : l.lock_length ≡ total (values l.lock_hash)
  pub limited : (l.lock_limit ≡ 0) ⊎ (l.lock_length ≤ l.lock_limit)

pub create-IsValid : (limit : ℕ) → IsValid (create limit)
unfolding create
create-IsValid limit = record { unique = tt; positive = tt; counted = refl; limited = ground arith }

pub acquire-IsValid : (id : String) (l : MultiLock) → IsValid l → IsValid (acquire id l).1
unfolding acquire
acquire-IsValid id l v =
    let n = count_of (get id l.lock_hash) + 1 in
    ground (
      arith,
      set-IsUnique id n l.lock_hash v.unique,
      set-IsPositive id n l.lock_hash (omega arith) v.positive,
      total-set id n l.lock_hash,
    )

pub release-IsValid : (id : String) (l : MultiLock) → IsValid l → IsValid (release id l).1
unfolding release
release-IsValid id l v =
    let n = count_of (get id l.lock_hash) - 1 in
    ground (
      arith,
      set-IsUnique id n l.lock_hash v.unique,
      delete-IsUnique id l.lock_hash v.unique,
      set-IsPositive id n l.lock_hash,
      delete-IsPositive id l.lock_hash v.positive,
      total-set id n l.lock_hash,
      total-delete id l.lock_hash v.unique,
    )

clean_by-IsValid : (id : Option String) (l : MultiLock) → IsValid l → IsValid (clean_by id l)
unfolding clean_by
clean_by-IsValid (some id) l v = ground (
  arith,
  delete-IsUnique id l.lock_hash v.unique,
  delete-IsPositive id l.lock_hash v.positive,
  total-delete id l.lock_hash v.unique,
)
clean_by-IsValid none l v = ground (arith, delete_each-keys l.lock_hash v.unique)

pub clean-IsValid : (id : Option String) (l : MultiLock) → IsValid l → IsValid (clean id l)
unfolding clean
clean-IsValid id l v = clean_by-IsValid (named id) l v

-- A call of an operation that changes the lock.
pub data Call : Type 0 where
  acquires releases : String → Call
  cleans : Option String → Call

unfoldable pub step : MultiLock → Call → MultiLock
step l (acquires id) = (acquire id l).1
step l (releases id) = (release id l).1
step l (cleans id) = clean id l

unfoldable pub run : MultiLock → List Call → MultiLock
unfolding step
run l [] = l
run l (c ∷ cs) = run (step l c) cs

step-IsValid : (l : MultiLock) (c : Call) → IsValid l → IsValid (step l c)
unfolding step
step-IsValid l (acquires id) v = acquire-IsValid id l v
step-IsValid l (releases id) v = release-IsValid id l v
step-IsValid l (cleans id) v = clean-IsValid id l v

run_keeps : (l : MultiLock) (cs : List Call) → IsValid l → IsValid (run l cs)
unfolding run
run_keeps l [] v = v
run_keeps l (c ∷ cs) v = run_keeps (step l c) cs (step-IsValid l c v)

-- After any sequence of calls on a new lock the total is the sum of the counts of the ids, no id has
-- two entries or an entry of 0, and the total is within the limit if there is one.
pub run-IsValid : (limit : ℕ) (cs : List Call) → IsValid (run (create limit) cs)
run-IsValid limit cs = run_keeps (create limit) cs (create-IsValid limit)

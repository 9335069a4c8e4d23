-- ===== src/MultiLock.antt =====
-- core/utils/src/multi-lock.ts, the class `MultiLock`. A count is a natural number; for the
-- subtractions below see the invariant of `MultiLock.Invariant`.
mod Totals
pub mod Invariant
pub mod Laws
pub mod Room
mod Tests
use testring.Common.{
  ℕ, ◌+◌, ◌-◌, Bool, true, false, not, ◌&&◌, Option, none, some, String, List, [], ◌∷◌, leb, nat_eq,
  named, if◌then◌else◌,
}
use testring.Common.Dict.{Dict, get, set, delete, keys}

pub record MultiLock : Type 0 where
  pub lock_hash : Dict ℕ
  pub lock_length : ℕ
  pub lock_limit : ℕ

unfoldable pub create : ℕ → MultiLock
create lock_limit = record { lock_hash = []; lock_length = 0; lock_limit = lock_limit }

-- `this.lockHash.get(id) || 0`.
abbrev pub count_of : Option ℕ → ℕ
count_of none = 0
count_of (some n) = n

unfoldable pub acquire : String → MultiLock → Bool × MultiLock
acquire id l =
    if not (nat_eq l.lock_limit 0) && leb l.lock_limit l.lock_length then (false, l) else (
      true,
      record l {
        lock_hash = set id (count_of (get id l.lock_hash) + 1) l.lock_hash;
        lock_length = l.lock_length + 1;
      },
    )

-- `val` is falsy when the id has no entry, and when its entry is 0.
unfoldable pub release : String → MultiLock → Bool × MultiLock
release id l =
    let val = count_of (get id l.lock_hash) in
    if nat_eq val 0 then (false, l) else (
      true,
      record l {
        lock_hash = (if nat_eq val 1 then delete id l.lock_hash else set id (val - 1) l.lock_hash);
        lock_length = l.lock_length - 1;
      },
    )

-- The `forEach` that deletes each key of the map.
pub delete_each : List String → Dict ℕ → Dict ℕ
delete_each [] m = m
delete_each (k ∷ ks) m = delete_each ks (delete k m)

clean_by : Option String → MultiLock → MultiLock
unfolding delete_each
clean_by (some id) l = record l {
  lock_hash = delete id l.lock_hash;
  lock_length = l.lock_length - count_of (get id l.lock_hash);
}
clean_by none l = record l {
  lock_hash = delete_each (keys l.lock_hash) l.lock_hash;
  lock_length = 0;
}

unfoldable pub clean : Option String → MultiLock → MultiLock
unfolding clean_by
clean id l = clean_by (named id) l

size_by : Option String → MultiLock → ℕ
size_by (some id) l = count_of (get id l.lock_hash)
size_by none l = l.lock_length

unfoldable pub get_size : Option String → MultiLock → ℕ
unfolding size_by
get_size id l = size_by (named id) l

unfoldable pub get_ids : MultiLock → Dict ℕ
get_ids l = l.lock_hash

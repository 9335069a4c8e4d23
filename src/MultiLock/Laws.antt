-- ===== src/MultiLock/Laws.antt =====
-- core/utils/src/multi-lock.ts against a map from every id to its count, which forgets the order of
-- the entries and the absence of one.
use testring.Common.{
  ℕ, ◌+◌, ◌-◌, ◌≡◌, refl, ap, Bool, true, false, Option, none, some, String, arith, ◌||◌, eq_refl,
  ltb, nat_eq, named, if◌then◌else◌, eq_iff, ◌==◌,
}
use testring.Common.Dict.{get, set, get-set, get-delete}
use testring.MultiLock.{MultiLock, count_of, acquire, release, clean_by, clean}
use testring.MultiLock.Totals.{delete_each-keys}
use testring.MultiLock.Invariant.{IsValid, Call, acquires, releases, cleans, step}

-- What the callers of a lock can observe.
pub record View : Type 0 where
  pub held : String → ℕ
  pub taken : ℕ
  pub limit : ℕ

-- The lock stands for the view.
pub record Shows (l : MultiLock) (v : View) : Type 0 where
  pub counts : (j : String) → count_of (get j l.lock_hash) ≡ v.held j
  pub taken : l.lock_length ≡ v.taken
  pub limit : l.lock_limit ≡ v.limit

abbrev pub put : String → ℕ → (String → ℕ) → String → ℕ
put id n f j = if id == j then n else f j

-- Room for one more lock.
abbrev pub has_room : View → Bool
has_room v = nat_eq v.limit 0 || ltb v.taken v.limit

pub view_acquire : String → View → Bool × View
view_acquire id v =
    if has_room v
    then (true, record v { held = put id (v.held id + 1) v.held; taken = v.taken + 1 })
    else (false, v)

pub view_release : String → View → Bool × View
view_release id v =
    if ltb 0 (v.held id)
    then (true, record v { held = put id (v.held id - 1) v.held; taken = v.taken - 1 })
    else (false, v)

view_clean_by : Option String → View → View
view_clean_by (some id) v = record v { held = put id 0 v.held; taken = v.taken - v.held id }
view_clean_by none v = record v { held = λ _. 0; taken = 0 }

pub view_clean : Option String → View → View
unfolding view_clean_by
view_clean id v = view_clean_by (named id) v

module _ (id : String) (l : MultiLock) {v : View} (s : Shows l v) where
  acquire_answer : (acquire id l).0 ≡ (view_acquire id v).0
  unfolding acquire view_acquire
  acquire_answer = ground (arith, s.taken, s.limit)

  acquire-Shows : Shows (acquire id l).1 (view_acquire id v).1
  unfolding acquire view_acquire
  acquire-Shows =
      let n = count_of (get id l.lock_hash) + 1 in
      record {
        counts = λ j. ground (arith, s.counts j, s.counts id, get-set id j n l.lock_hash);
        taken = ground arith;
        limit = ground arith;
      }

  release_answer : (release id l).0 ≡ (view_release id v).0
  unfolding release view_release
  release_answer = ground (arith, s.counts id)

  release-Shows : Shows (release id l).1 (view_release id v).1
  unfolding release view_release
  release-Shows =
      let n = count_of (get id l.lock_hash) - 1 in
      record {
        counts = λ j. ground (
          arith,
          s.counts j,
          s.counts id,
          get-set id j n l.lock_hash,
          get-delete id j l.lock_hash,
        );
        taken = ground (arith, s.counts id);
        limit = ground (arith, s.counts id);
      }

clean_by-Shows :
    (id : Option String) (l : MultiLock) {v : View}
    → IsValid l
    → Shows l v
    → Shows (clean_by id l) (view_clean_by id v)
unfolding clean_by view_clean_by get
clean_by-Shows (some id) l v s = record {
  counts = λ j. ground (arith, s.counts j, get-delete id j l.lock_hash);
  taken = ground (arith, s.counts id);
  limit = s.limit;
}
clean_by-Shows none l v s = record {
  counts = λ j. rw (delete_each-keys l.lock_hash v.unique);
  taken = refl;
  limit = s.limit;
}

-- What a call returns, if it returns something.
pub answer : MultiLock → Call → Option Bool
answer l (acquires id) = some (acquire id l).0
answer l (releases id) = some (release id l).0
answer l (cleans id) = none

pub view_step : View → Call → Option Bool × View
view_step v (acquires id) = let (ok, w) = view_acquire id v in (some ok, w)
view_step v (releases id) = let (ok, w) = view_release id v in (some ok, w)
view_step v (cleans id) = (none, view_clean id v)

-- Every operation, on every branch, does to the counts, the total and its answer what the abstract
-- operation does: `acquire` adds one lock exactly when there is room, `release` takes one away
-- exactly when the id holds one, and `clean` drops the locks of one id or of all.
pub step-refines :
    (l : MultiLock) (v : View) (c : Call)
    → IsValid l
    → Shows l v
    → (answer l c ≡ (view_step v c).0) × Shows (step l c) (view_step v c).1
unfolding answer view_step step view_clean clean
step-refines l v (acquires id) h s = (ap some (acquire_answer id l s), acquire-Shows id l s)
step-refines l v (releases id) h s = (ap some (release_answer id l s), release-Shows id l s)
step-refines l v (cleans id) h s = (refl, clean_by-Shows (named id) l h s)

-- Releasing the lock that was just acquired succeeds, and gives back the count of every id, the
-- total and the limit of before.
release-acquire :
    (id j : String) (l : MultiLock)
    → (acquire id l).0 ≡ true
    → let back = release id (acquire id l).1 in
      (back.0 ≡ true)
      × (count_of (get j back.1.lock_hash) ≡ count_of (get j l.lock_hash))
      × (back.1.lock_length ≡ l.lock_length)
      × (back.1.lock_limit ≡ l.lock_limit)
unfolding acquire release
release-acquire id j l h =
    let n = count_of (get id l.lock_hash) in
    ground (
      arith,
      get-set id id (n + 1) l.lock_hash,
      get-set id j (n + 1) l.lock_hash,
      get-set id j (n + 1 - 1) (set id (n + 1) l.lock_hash),
      get-delete id j (set id (n + 1) l.lock_hash),
      eq_iff id j,
      eq_refl id,
    )

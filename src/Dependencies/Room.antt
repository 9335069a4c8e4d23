-- ===== src/Dependencies/Room.antt =====
-- core/dependencies-builder/src/index.ts: caches that grow.
use testring.Common.{
  ℕ, ◌≤◌, ◌<◌, ◌≡◌, true, false, not, String, List, [], ◌∷◌, arith, ◌==◌, eq_iff, count, any,
}
use testring.Common.Dict.{get, set, is_some, get-set}
use testring.Dependencies.{TreeNode, Cache}

-- The files that are not yet in the cache.
abbrev pub room : List String → Cache → ℕ
room files cache = count (λ f. not (is_some (get f cache))) files

-- No path leaves the cache.
abbrev pub Extends : Cache → Cache → Type 0
Extends cache cache' = (k : String) → is_some (get k cache) ≡ true → is_some (get k cache') ≡ true

pub set-Extends : (k : String) (n : TreeNode) (cache : Cache) → Extends cache (set k n cache)
set-Extends k n cache j h = rw (get-set k j n cache) (ground (arith, h))

pub set-has : (k : String) (n : TreeNode) (cache : Cache) → is_some (get k (set k n cache)) ≡ true
set-has k n cache = rw (get-set k k n cache) (ground (arith, eq_iff k k))

pub room-Extends : (files : List String) (c d : Cache) → Extends c d → room files d ≤ room files c
room-Extends [] c d e = omega arith
room-Extends (f ∷ files) c d e = ground (arith, e f, room-Extends files c d e)

-- A new file takes room.
pub room-set :
    (files : List String) (k : String) (n : TreeNode) (cache : Cache)
    → any (λ f. f == k) files ≡ true
    → is_some (get k cache) ≡ false
    → room files (set k n cache) < room files cache
room-set [] k n cache h g = ground arith
room-set (f ∷ files) k n cache h g = ground (
  arith,
  get-set k f n cache,
  eq_iff f k,
  eq_iff k f,
  room-set files k n cache,
  room-Extends files cache (set k n cache) (set-Extends k n cache),
)

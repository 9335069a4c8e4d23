-- ===== src/MultiLock/Totals.antt =====
-- Sums over a map of counts.
use testring.Common.{ℕ, ◌+◌, ◌≤◌, ◌<◌, ◌≡◌, refl, String, List, [], ◌∷◌, arith, eq_iff, All}
use testring.Common.Dict.{Dict, get, set, delete, keys, values, IsUnique, delete_fresh}
use testring.MultiLock.{count_of, delete_each}

abbrev pub total : List ℕ → ℕ
total [] = 0
total (n ∷ ns) = n + total ns

pub total-set :
    (id : String) (n : ℕ) (m : Dict ℕ)
    → total (values (set id n m)) + count_of (get id m) ≡ total (values m) + n
unfolding get set
total-set id n [] = omega arith
total-set id n ((j, k) ∷ m) = ground (arith, total-set id n m)

pub total-delete :
    (id : String) (m : Dict ℕ)
    → IsUnique m
    → total (values (delete id m)) + count_of (get id m) ≡ total (values m)
unfolding get delete
total-delete id [] u = omega arith
total-delete id ((j, k) ∷ m) (h, u) =
    ground (arith, eq_iff j id, total-delete id m u, delete_fresh id m)

pub count_of-le-total : (id : String) (m : Dict ℕ) → count_of (get id m) ≤ total (values m)
unfolding get
count_of-le-total id [] = omega arith
count_of-le-total id ((j, k) ∷ m) = ground (arith, count_of-le-total id m)

-- Every entry counts at least one lock.
abbrev pub IsPositive : Dict ℕ → Type 0
IsPositive m = All (λ n. 0 < n) (values m)

pub set-IsPositive :
    (id : String) (n : ℕ) (m : Dict ℕ) → 0 < n → IsPositive m → IsPositive (set id n m)
unfolding set
set-IsPositive id n [] h p = (h, tt)
set-IsPositive id n ((j, k) ∷ m) h (q, p) = ground (arith, set-IsPositive id n m h p)

pub delete-IsPositive : (id : String) (m : Dict ℕ) → IsPositive m → IsPositive (delete id m)
unfolding delete
delete-IsPositive id [] p = tt
delete-IsPositive id ((j, k) ∷ m) (q, p) = ground (arith, delete-IsPositive id m p)

delete_each_nil : (ks : List String) → delete_each ks [] ≡ []
unfolding delete_each delete
delete_each_nil [] = refl
delete_each_nil (k ∷ ks) = delete_each_nil ks

delete_each-cons :
    (ks : List String) (id : String) (n : ℕ) (m : Dict ℕ)
    → delete_each ks (delete id ((id, n) ∷ m)) ≡ delete_each ks (delete id m)
unfolding delete
delete_each-cons ks id n m = ground (arith, eq_iff id id)

-- Deleting each key of a map leaves nothing.
pub delete_each-keys : (m : Dict ℕ) → IsUnique m → delete_each (keys m) m ≡ []
unfolding delete_each
delete_each-keys [] u = refl
delete_each-keys ((id, n) ∷ m) (h, u) =
    ground (arith, delete_each-cons (keys m) id n m, delete_fresh id m h, delete_each-keys m u)

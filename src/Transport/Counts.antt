-- ===== src/Transport/Counts.antt =====
-- core/transport/src/direct-transport.ts: counts of promises, in events and in the table.
use testring.Common.{
  ℕ, suc, ◌+◌, ◌≡◌, refl, Bool, not, Option, none, some, String, List, [], ◌∷◌, ◌++◌, arith,
  if◌then◌else◌, eq_iff, nat_eq, count, keep, map,
}
use testring.Common.Dict.{Dict, get, set, delete, values, IsUnique, delete_fresh}
use testring.Transport.Direct.{sent, resolved, rejected, triggered, Event}

-- How often a call is resolved, and how often settled.
abbrev pub resolves : ℕ → List Event → ℕ
resolves c [] = 0
resolves c (resolved d ∷ events) = if nat_eq c d then suc (resolves c events) else resolves c events
resolves c (rejected d e ∷ events) = resolves c events
resolves c (sent child m ∷ events) = resolves c events
resolves c (triggered m p ∷ events) = resolves c events

abbrev pub settles : ℕ → List Event → ℕ
settles c [] = 0
settles c (resolved d ∷ events) = if nat_eq c d then suc (settles c events) else settles c events
settles c (rejected d e ∷ events) = if nat_eq c d then suc (settles c events) else settles c events
settles c (sent child m ∷ events) = settles c events
settles c (triggered m p ∷ events) = settles c events

pub resolves-append :
    (c : ℕ) (xs ys : List Event) → resolves c (xs ++ ys) ≡ resolves c xs + resolves c ys
resolves-append c [] ys = omega arith
resolves-append c (resolved d ∷ xs) ys = ground (arith, resolves-append c xs ys)
resolves-append c (rejected d e ∷ xs) ys = resolves-append c xs ys
resolves-append c (sent child m ∷ xs) ys = resolves-append c xs ys
resolves-append c (triggered m p ∷ xs) ys = resolves-append c xs ys

pub settles-append :
    (c : ℕ) (xs ys : List Event) → settles c (xs ++ ys) ≡ settles c xs + settles c ys
settles-append c [] ys = omega arith
settles-append c (resolved d ∷ xs) ys = ground (arith, settles-append c xs ys)
settles-append c (rejected d e ∷ xs) ys = ground (arith, settles-append c xs ys)
settles-append c (sent child m ∷ xs) ys = settles-append c xs ys
settles-append c (triggered m p ∷ xs) ys = settles-append c xs ys

-- The handlers of a call in the table.
abbrev pub entries : ℕ → Dict ℕ → ℕ
entries c m = count (nat_eq c) (values m)

abbrev pub one_if : Bool → ℕ
one_if b = if b then 1 else 0

abbrev pub entry_of : ℕ → Option ℕ → ℕ
entry_of c none = 0
entry_of c (some n) = one_if (nat_eq c n)

pub resolves-resolved : (c : ℕ) (ns : List ℕ) → resolves c (map resolved ns) ≡ count (nat_eq c) ns
resolves-resolved c [] = refl
resolves-resolved c (n ∷ ns) = ground (arith, resolves-resolved c ns)

pub settles-resolved : (c : ℕ) (ns : List ℕ) → settles c (map resolved ns) ≡ count (nat_eq c) ns
settles-resolved c [] = refl
settles-resolved c (n ∷ ns) = ground (arith, settles-resolved c ns)

pub entries-set :
    (c n : ℕ) (k : String) (m : Dict ℕ)
    → get k m ≡ none
    → entries c (set k n m) ≡ entries c m + one_if (nat_eq c n)
unfolding get set
entries-set c n k [] h = ground arith
entries-set c n k ((j, w) ∷ m) h = ground (arith, entries-set c n k m)

pub entries-delete :
    (c : ℕ) (k : String) (m : Dict ℕ)
    → IsUnique m
    → entries c (delete k m) + entry_of c (get k m) ≡ entries c m
unfolding get delete
entries-delete c k [] u = omega arith
entries-delete c k ((j, w) ∷ m) (h, u) =
    ground (arith, eq_iff j k, entries-delete c k m u, delete_fresh k m)

pub entries-keep :
    (c : ℕ) (p : String × ℕ → Bool) (m : Dict ℕ)
    → entries c (keep p m) + entries c (keep (λ e. not (p e)) m) ≡ entries c m
entries-keep c p [] = omega arith
entries-keep c p ((k, n) ∷ m) = ground (arith, entries-keep c p m)

pub get-keep :
    (k : String) (p : String × ℕ → Bool) (m : Dict ℕ) → get k m ≡ none → get k (keep p m) ≡ none
unfolding get
get-keep k p [] h = refl
get-keep k p ((j, n) ∷ m) h = ground (arith, get-keep k p m)

pub keep-IsUnique : (p : String × ℕ → Bool) (m : Dict ℕ) → IsUnique m → IsUnique (keep p m)
keep-IsUnique p [] u = tt
keep-IsUnique p ((k, n) ∷ m) (h, u) = ground (arith, get-keep k p m h, keep-IsUnique p m u)

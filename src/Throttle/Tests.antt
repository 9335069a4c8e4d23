-- ===== src/Throttle/Tests.antt =====
-- core/utils/src/throttle.ts on three calls within the limit.
use testring.Common.{ℕ, ◌≤◌, ◌≡◌, refl, none, some, String, [], ◌∷◌, arith}
use testring.Throttle.{Throttle, create, call, fire}
use testring.Throttle.Spacing.{Reach, here, calls, IsSpaced, IsHeld, Reach-IsSpaced}

abbrev waiting : Throttle String
waiting = record { last_func = some (105, "c"); last_ran = some 5 }

throttle_runs :
    ((call {A = String} 100 5 "a" create).0 ≡ some "a")
    × (call {A = String} 100 30 "c"
          (call {A = String} 100 20 "b" (call {A = String} 100 5 "a" create).1).1
        ≡ (none, waiting))
    × (fire 100 105 waiting ≡ (some "c", record { last_func = none; last_ran = some 105 }))
unfolding call fire
throttle_runs = (refl, refl, refl)

history : Reach String 100 30 ((5, "a") ∷ []) (some "c") waiting
unfolding call
history = calls 30 "c" (omega arith) (calls 20 "b" (omega arith) (calls 5 "a" (omega arith) here))

Reach-IsSpaced_example :
    IsSpaced {A = String} 100 ((5, "a") ∷ [])
    × IsHeld {A = String} (some "c") ((5, "a") ∷ []) waiting.last_func
    × ((later due : ℕ) (args : String)
        → 30 ≤ later
        → waiting.last_func ≡ some (due, args)
        → due ≤ later
        → (fire 100 later waiting).0 ≡ some args)
Reach-IsSpaced_example = Reach-IsSpaced 100 30 ((5, "a") ∷ []) (some "c") waiting history

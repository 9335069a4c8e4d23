-- ===== src/MultiLock/Tests.antt =====
-- core/utils/src/multi-lock.ts on small locks.
use testring.Common.{◌≡◌, refl, true, false, none, some, List, [], ◌∷◌, arith, inr}
use testring.Common.Dict.{get, set, delete}
use testring.MultiLock.{MultiLock, create, count_of, acquire, release, clean, get_size, get_ids}
use testring.MultiLock.Invariant.{IsValid, Call, acquires, releases, cleans, run, run-IsValid, step}
use testring.MultiLock.Laws.{View, Shows, step-refines, answer, view_step}

abbrev two_of_three : MultiLock
two_of_three = record { lock_hash = ("w1", 2) ∷ []; lock_length = 2; lock_limit = 3 }

abbrev full : MultiLock
full = record { lock_hash = ("w1", 2) ∷ ("w2", 1) ∷ []; lock_length = 3; lock_limit = 3 }

operations : Unit {0}
unfolding create acquire release clean get_size get_ids get set delete
operations = tt

all_operations :
    (acquire "w2" two_of_three ≡ (true, full))
    × (acquire "w2" full ≡ (false, full))
    × (release "w2" full ≡ (true, two_of_three))
    × (release "w3" full ≡ (false, full))
    × (clean (some "w2") full ≡ two_of_three)
    × (clean (some "") full ≡ create 3)
    × (get_size (some "w1") full ≡ 2)
    × (get_size none full ≡ 3)
    × (get_ids two_of_three ≡ ("w1", 2) ∷ [])
unfolding operations
all_operations = (refl, refl, refl, refl, refl, refl, refl, refl, refl)

abbrev calls : List Call
calls = acquires "w1" ∷ acquires "w2" ∷ releases "w1" ∷ cleans (some "w2") ∷ acquires "w3" ∷ []

run-IsValid_example : IsValid (run (create 2) calls)
run-IsValid_example = run-IsValid 2 calls

full-IsValid : IsValid full
unfolding get
full-IsValid = record {
  unique = (refl, (refl, tt));
  positive = omega arith;
  counted = refl;
  limited = inr (omega arith);
}

abbrev full_view : View
full_view = record { held = λ j. count_of (get j full.lock_hash); taken = 3; limit = 3 }

full-Shows : Shows full full_view
full-Shows = record { counts = λ j. refl; taken = refl; limit = refl }

step-refines_example :
    (answer full (releases "w1") ≡ (view_step full_view (releases "w1")).0)
    × Shows (step full (releases "w1")) (view_step full_view (releases "w1")).1
step-refines_example = step-refines full full_view (releases "w1") full-IsValid full-Shows

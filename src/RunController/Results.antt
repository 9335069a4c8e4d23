-- ===== src/RunController/Results.antt =====
-- core/test-run-controller/src/test-run-controller.ts: what a run returns, and the data of its tests.
use testring.Common.{◌≡◌, refl, ◌↔◌, Option, none, some, List, [], ◌∷◌, ◌++◌, arith}
use testring.RunController.{Failure, Answer, ok, threw, hangs}
use testring.RunController.Loops.{Result, errors_or_null, caught_run, close_queue}

abbrev pub IsNull : Result → Type 0
IsNull (ok none) = Unit
IsNull (ok (some errors)) = ⊥
IsNull (threw e) = ⊥
IsNull hangs = ⊥

abbrev pub IsOk : Answer (Unit {0}) → Type 0
IsOk (ok _) = Unit
IsOk (threw e) = ⊥
IsOk hangs = ⊥

errors_or_null-IsNull : (errors : List Failure) → IsNull (errors_or_null errors) ↔ (errors ≡ [])
unfolding errors_or_null
errors_or_null-IsNull [] = ground arith
errors_or_null-IsNull (e ∷ errors) = ground arith

errors_or_null-append :
    (errors : List Failure) (e : Failure) → ¬ IsNull (errors_or_null (errors ++ e ∷ []))
unfolding errors_or_null
errors_or_null-append [] e n = n
errors_or_null-append (f ∷ errors) e n = n

caught_run-IsNull :
    (after_run : Option Failure → Answer (Unit {0})) (e : Failure) (errors : List Failure)
    (r : Answer (Unit {0}))
    → after_run (some e) ≡ r
    → ¬ IsNull (caught_run after_run e errors)
unfolding caught_run
caught_run-IsNull after_run e errors (ok _) h = rw (IsNull, h) (errors_or_null-append errors e)
caught_run-IsNull after_run e errors (threw e') h = rw (IsNull, h) (λ n. n)
caught_run-IsNull after_run e errors hangs h = rw (IsNull, h) (λ n. n)

close_queue-IsNull_at :
    (after_run : Option Failure → Answer (Unit {0})) (errors : List Failure)
    (answer : Answer (Unit {0})) (r : Answer (Unit {0}))
    → after_run none ≡ r
    → IsNull (close_queue after_run errors answer) ↔ ((errors ≡ []) × IsOk answer × IsOk r)
unfolding close_queue
close_queue-IsNull_at after_run errors (threw e) r h =
    (λ n. absurd (caught_run-IsNull after_run e errors _ refl n), λ h. absurd h.1)
close_queue-IsNull_at after_run errors hangs r h = (λ n. absurd n, λ h. absurd h.1)
close_queue-IsNull_at after_run errors (ok _) hangs h =
    rw (IsNull, h) (λ n. absurd n, λ h. absurd h.2)
close_queue-IsNull_at after_run errors (ok _) (ok _) h =
    rw (IsNull, h) (ground (arith, errors_or_null-IsNull errors))
close_queue-IsNull_at after_run errors (ok _) (threw e) h =
    rw (IsNull, h) (ground (arith, caught_run-IsNull after_run e errors _ refl))

-- A run returns `null` exactly if no test's error was recorded, the workers' loops ended without an
-- error and the hook `afterRun` answered.
close_queue-IsNull :
    (after_run : Option Failure → Answer (Unit {0})) (errors : List Failure)
    (answer : Answer (Unit {0}))
    → IsNull (close_queue after_run errors answer)
      ↔ ((errors ≡ []) × IsOk answer × IsOk (after_run none))
close_queue-IsNull after_run errors answer = close_queue-IsNull_at after_run errors answer _ refl

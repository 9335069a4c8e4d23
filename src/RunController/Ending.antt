-- ===== src/RunController/Ending.antt =====
-- core/test-run-controller/src/test-run-controller.ts: when an attempt comes to its end.
use testring.Common.{
  not, ◌&&◌, ltb, if◌then◌else◌, ℕ, ◌<◌, Bool, true, false, Option, none, some, List, [], ◌∷◌,
  arith,
}
use testring.RunController.{
  recorded, enqueued, before_test_retry, should_not_retry, after_test, retry_of, executed,
  before_test, should_not_start, Config, QueuedTest, Failure, Answer, ok, threw, hangs, M, ◌>>=◌,
  kill_if, tried_after, on_test_failed, retry_or_record, bail_out, retry_limit, Attempt, Event,
  Tried, Race, Run, resolved, rejected, silent, execute_item, race, or_number, tried_run,
  tried_before, tried_start, conclude, finished, caught, passed, failed, timed_out,
}

-- There is a result.
abbrev pub IsDone {ℓ} : {A : Type ℓ} → Option A → Type 0
IsDone none = ⊥
IsDone (some a) = Unit

abbrev pub Settles : {A : Type 0} → Answer A → Type 0
Settles (ok a) = Unit
Settles (threw e) = Unit
Settles hangs = ⊥

-- No hook hangs, nor does the kill of the worker; its run may.
abbrev pub IsLive : Attempt → Type 0
IsLive a =
    Settles a.should_not_start
    × Settles a.before_test
    × Settles a.after_test
    × Settles a.kill
    × Settles a.should_not_retry
    × Settles a.before_test_retry
    × Settles a.failed_test

race-IsDone : (t : ℕ) (run : Run) → 0 < t → IsDone (race t run)
unfolding race
race-IsDone t (resolved at) h = ground arith
race-IsDone t (rejected at f) h = ground arith
race-IsDone t silent h = ground arith

or_number-positive : (o : Option ℕ) (d : ℕ) → 0 < d → 0 < or_number o d
or_number-positive none d h = h
or_number-positive (some n) d h = ground arith

tried_after-IsDone :
    (events : List Event) (item : QueuedTest) (answer : Answer (Unit {0}))
    → Settles answer
    → IsDone (tried_after events item answer)
unfolding tried_after
tried_after-IsDone events item (ok _) l = tt
tried_after-IsDone events item (threw e) l = tt
tried_after-IsDone events item hangs l = l

tried_run-IsDone :
    (events : List Event) (item : QueuedTest) (a : Attempt) (r : Option Race)
    → Settles a.after_test
    → IsDone r
    → IsDone (tried_run events item a r)
unfolding tried_run
tried_run-IsDone events item a none l h = absurd h
tried_run-IsDone events item a (some passed) l h = tried_after-IsDone events item a.after_test l
tried_run-IsDone events item a (some (failed e)) l h = tt
tried_run-IsDone events item a (some (timed_out t)) l h = tt

tried_before-IsDone :
    (config : Config) (item : QueuedTest) (a : Attempt) (answer : Answer (Unit {0}))
    → 0 < config.test_timeout
    → Settles a.after_test
    → Settles answer
    → IsDone (tried_before config item a answer)
unfolding tried_before
tried_before-IsDone config item a (threw e) h l k = tt
tried_before-IsDone config item a hangs h l k = k
tried_before-IsDone config item a (ok _) h l k =
    tried_run-IsDone (should_not_start item ∷ before_test item ∷ executed item ∷ []) item a _ l
      (race-IsDone _ a.run (or_number-positive item.test_timeout config.test_timeout h))

tried_start-IsDone :
    (config : Config) (item : QueuedTest) (a : Attempt) (answer : Answer Bool)
    → 0 < config.test_timeout
    → IsLive a
    → Settles answer
    → IsDone (tried_start config item a answer)
unfolding tried_start
tried_start-IsDone config item a (threw e) h l k = tt
tried_start-IsDone config item a hangs h l k = k
tried_start-IsDone config item a (ok true) h l k = tt
tried_start-IsDone config item a (ok false) h l k =
    tried_before-IsDone config item a a.before_test h l.2 l.1

then-Settles :
    {A B : Type 0} (m : M A) (k : A → M B)
    → Settles m.1
    → ((x : A) → Settles (k x).1)
    → Settles (m >>= k).1
then-Settles (events, ok x) k h l = l x
then-Settles (events, threw e) k h l = tt
then-Settles (events, hangs) k h l = h

if-Settles :
    {A : Type 0} (b : Bool) (m n : M A) → Settles m.1 → Settles n.1 → Settles (if b then m else n).1
if-Settles true m n h k = h
if-Settles false m n h k = k

bail_out-Settles :
    (a : Attempt) (e : Failure) (item : QueuedTest)
    → Settles a.failed_test
    → Settles (bail_out a e item).1
unfolding bail_out
bail_out-Settles a e item h =
    then-Settles (after_test item (some e) ∷ [], a.failed_test) (λ _. ([], threw e)) h (λ _. tt)

retry_or_record-Settles :
    (config : Config) (a : Attempt) (e : Failure) (item : QueuedTest) (no_retry : Bool)
    → Settles a.before_test_retry
    → Settles a.failed_test
    → Settles (retry_or_record config a e item no_retry).1
unfolding retry_or_record
retry_or_record-Settles config a e item no_retry again given_up =
    if-Settles (not no_retry && ltb item.retry_count (retry_limit config))
      (enqueued (retry_of config item) ∷ before_test_retry item e ∷ [], a.before_test_retry)
      (recorded e ∷ after_test item (some e) ∷ [], a.failed_test) again given_up

on_test_failed-Settles :
    (config : Config) (a : Attempt) (e : Failure) (item : QueuedTest)
    → IsLive a
    → Settles (on_test_failed config a e item).1
unfolding on_test_failed
on_test_failed-Settles config a e item (_, _, _, _, asked, again, given_up) =
    let decide = retry_or_record config a e item in
    let answered : M Bool = (should_not_retry item ∷ [], a.should_not_retry) in
    if-Settles config.bail (bail_out a e item) (answered >>= decide)
      (bail_out-Settles a e item given_up)
      (then-Settles answered decide asked
        (λ no_retry. retry_or_record-Settles config a e item no_retry again given_up))

kill_if-Settles :
    (by_timeout : Bool) (answer : Answer (Unit {0}))
    → Settles answer
    → Settles (kill_if by_timeout answer).1
kill_if-Settles true answer h = h
kill_if-Settles false answer h = tt

-- The function comes to its end.
abbrev pub Ends : Option (M (Unit {0})) → Type 0
Ends none = ⊥
Ends (some (events, answer)) = Settles answer

conclude-Ends :
    (config : Config) (a : Attempt) (item : QueuedTest) (o : Option (List Event × Tried))
    → IsLive a
    → IsDone o
    → Ends (conclude config a item o)
unfolding conclude
conclude-Ends config a item none l h = absurd h
conclude-Ends config a item (some (events, finished)) l h = tt
conclude-Ends config a item (some (events, caught by_timeout e)) l h =
    then-Settles (kill_if by_timeout a.kill) _ (kill_if-Settles by_timeout a.kill l.3)
      (λ _. on_test_failed-Settles config a e _ l)

-- With a timeout an attempt ends whose hooks settle, even if the worker is silent for ever.
pub execute_item-Ends :
    (config : Config) (a : Attempt) (item : QueuedTest)
    → 0 < config.test_timeout
    → IsLive a
    → Ends (execute_item config a item)
unfolding execute_item
execute_item-Ends config a item h l =
    conclude-Ends config a item _ l (tried_start-IsDone config item a a.should_not_start h l l.0)

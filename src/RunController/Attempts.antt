-- ===== src/RunController/Attempts.antt =====
-- core/test-run-controller/src/test-run-controller.ts: what one attempt at a test can do.
use testring.Common.{
  ◌&&◌, if◌then◌else◌, ltb, subst, subst, ◌<◌, ◌≡◌, refl, ap, ◌⊎◌, inl, inr, Bool, true, false, not,
  Option, none, some, List, [], ◌∷◌, ◌++◌, arith, Bool-cases,
}
use testring.RunController.{
  ◌>>=◌, ◌>>=◌, Config, QueuedTest, Failure, Answer, Attempt, Event, Tried, M, Race, ok, threw,
  hangs, kill_if, ◌>>◌, enqueued, recorded, killed, should_not_start, should_not_retry, before_test,
  executed, after_test, before_test_retry, finished, caught, passed, failed, timed_out, tried_after,
  tried_run, tried_before, tried_start, retry_limit, retry_of, retry_or_record, bail_out,
  on_test_failed, conclude, execute_item, pushed, failures,
}

pub pushed-append : (xs ys : List Event) → pushed (xs ++ ys) ≡ pushed xs ++ pushed ys
pushed-append [] ys = refl
pushed-append (enqueued item ∷ xs) ys = ap (◌∷◌ item) (pushed-append xs ys)
pushed-append (should_not_start item ∷ xs) ys = pushed-append xs ys
pushed-append (should_not_retry item ∷ xs) ys = pushed-append xs ys
pushed-append (before_test item ∷ xs) ys = pushed-append xs ys
pushed-append (executed item ∷ xs) ys = pushed-append xs ys
pushed-append (after_test item e ∷ xs) ys = pushed-append xs ys
pushed-append (before_test_retry item e ∷ xs) ys = pushed-append xs ys
pushed-append (killed ∷ xs) ys = pushed-append xs ys
pushed-append (recorded e ∷ xs) ys = pushed-append xs ys

pub failures-append : (xs ys : List Event) → failures (xs ++ ys) ≡ failures xs ++ failures ys
failures-append [] ys = refl
failures-append (recorded e ∷ xs) ys = ap (◌∷◌ e) (failures-append xs ys)
failures-append (should_not_start item ∷ xs) ys = failures-append xs ys
failures-append (should_not_retry item ∷ xs) ys = failures-append xs ys
failures-append (before_test item ∷ xs) ys = failures-append xs ys
failures-append (executed item ∷ xs) ys = failures-append xs ys
failures-append (after_test item e ∷ xs) ys = failures-append xs ys
failures-append (before_test_retry item e ∷ xs) ys = failures-append xs ys
failures-append (killed ∷ xs) ys = failures-append xs ys
failures-append (enqueued item ∷ xs) ys = failures-append xs ys

-- The state is left alone.
abbrev pub IsQuiet : List Event → Type 0
IsQuiet events = (pushed events ≡ []) × (failures events ≡ [])

-- The test goes back into the queue with one more retry on its count, which was below the limit.
abbrev pub IsRetry : Config → QueuedTest → List Event → Type 0
IsRetry config item events =
    ((errors : List Failure) × (pushed events
        ≡ retry_of config (record item { retry_errors = errors }) ∷ []))
    × (failures events ≡ [])
    × (item.retry_count < retry_limit config)

-- The test is given up, and its error is added to those of the run.
abbrev pub IsGivenUp : List Event → Type 0
IsGivenUp events = (pushed events ≡ []) × ((e : Failure) × (failures events ≡ e ∷ []))

abbrev pub Effect : Config → QueuedTest → List Event → Type 0
Effect config item events = IsQuiet events ⊎ IsRetry config item events ⊎ IsGivenUp events

bail_out-IsQuiet : (a : Attempt) (e : Failure) (item : QueuedTest) → IsQuiet (bail_out a e item).0
unfolding bail_out
bail_out-IsQuiet a e item = ground arith

retry_or_record-Effect :
    (config : Config) (a : Attempt) (e : Failure) (item : QueuedTest) (errors : List Failure)
    (no_retry : Bool)
    → Effect config item
        (retry_or_record config a e (record item { retry_errors = errors }) no_retry).0
unfolding retry_or_record
retry_or_record-Effect config a e item errors no_retry =
    elim (Bool-cases (not no_retry && ltb item.retry_count (retry_limit config))) [
      | inl again ↦ rw again (inr (inl ((errors, refl), refl, ground arith)))
      | inr last ↦ rw last (inr (inr (refl, (e, refl))))
    ]

-- Behind a hook that is only asked, the effect is that of what follows.
asked-Effect :
    (config : Config) (a : Attempt) (e : Failure) (item : QueuedTest) (errors : List Failure)
    (answer : Answer Bool)
    → let blamed : QueuedTest = record item { retry_errors = errors } in
      let asked : M Bool = (should_not_retry blamed ∷ [], answer) in
      Effect config item (asked >>= retry_or_record config a e blamed).0
asked-Effect config a e item errors (ok no_retry) =
    retry_or_record-Effect config a e item errors no_retry
asked-Effect config a e item errors (threw e') = inl (refl, refl)
asked-Effect config a e item errors hangs = inl (refl, refl)

if-Effect :
    (config : Config) (item : QueuedTest) (b : Bool) (m n : M (Unit {0}))
    → Effect config item m.0
    → Effect config item n.0
    → Effect config item (if b then m else n).0
if-Effect config item true m n h k = h
if-Effect config item false m n h k = k

on_test_failed-Effect :
    (config : Config) (a : Attempt) (e : Failure) (item : QueuedTest) (errors : List Failure)
    → Effect config item (on_test_failed config a e (record item { retry_errors = errors })).0
unfolding on_test_failed
on_test_failed-Effect config a e item errors =
    let blamed : QueuedTest = record item { retry_errors = errors } in
    if-Effect config item config.bail (bail_out a e blamed) _ (inl (bail_out-IsQuiet a e blamed))
      (asked-Effect config a e item errors a.should_not_retry)

-- The `try` block leaves the state alone, however it ends.
abbrev QuietTry : Option (List Event × Tried) → Type 0
QuietTry none = Unit
QuietTry (some (events, t)) = IsQuiet events

tried_after-QuietTry :
    (item : QueuedTest) (answer : Answer (Unit {0}))
    → QuietTry
        (tried_after (should_not_start item ∷ before_test item ∷ executed item ∷ []) item answer)
unfolding tried_after
tried_after-QuietTry item (ok _) = (refl, refl)
tried_after-QuietTry item (threw e) = (refl, refl)
tried_after-QuietTry item hangs = tt

tried_run-QuietTry :
    (item : QueuedTest) (a : Attempt) (r : Option Race)
    → QuietTry (tried_run (should_not_start item ∷ before_test item ∷ executed item ∷ []) item a r)
unfolding tried_run
tried_run-QuietTry item a none = tt
tried_run-QuietTry item a (some passed) = tried_after-QuietTry item a.after_test
tried_run-QuietTry item a (some (failed e)) = (refl, refl)
tried_run-QuietTry item a (some (timed_out t)) = (refl, refl)

tried_before-QuietTry :
    (config : Config) (item : QueuedTest) (a : Attempt) (answer : Answer (Unit {0}))
    → QuietTry (tried_before config item a answer)
unfolding tried_before
tried_before-QuietTry config item a (threw e) = (refl, refl)
tried_before-QuietTry config item a hangs = tt
tried_before-QuietTry config item a (ok _) = tried_run-QuietTry item a _

tried_start-QuietTry :
    (config : Config) (item : QueuedTest) (a : Attempt) (answer : Answer Bool)
    → QuietTry (tried_start config item a answer)
unfolding tried_start
tried_start-QuietTry config item a (threw e) = (refl, refl)
tried_start-QuietTry config item a hangs = tt
tried_start-QuietTry config item a (ok true) = (refl, refl)
tried_start-QuietTry config item a (ok false) = tried_before-QuietTry config item a a.before_test

Effect-append :
    (config : Config) (item : QueuedTest) (before events : List Event)
    → IsQuiet before
    → Effect config item events
    → Effect config item (before ++ events)
Effect-append config item before events (p, f) h =
    rw (pushed-append before events, failures-append before events, p, f) h

abbrev Concludes : Config → QueuedTest → Option (M (Unit {0})) → Type 0
Concludes config item none = Unit
Concludes config item (some (events, answer)) = Effect config item events

-- Behind the kill of the worker, too, the effect is that of what follows.
kill_if-Effect :
    (config : Config) (item : QueuedTest) (by_timeout : Bool) (answer : Answer (Unit {0}))
    (m : M (Unit {0}))
    → Effect config item m.0
    → Effect config item (kill_if by_timeout answer >> m).0
kill_if-Effect config item false answer m h = h
kill_if-Effect config item true (ok _) m h =
    Effect-append config item (killed ∷ []) m.0 (refl, refl) h
kill_if-Effect config item true (threw e) m h = inl (refl, refl)
kill_if-Effect config item true hangs m h = inl (refl, refl)

conclude-Concludes :
    (config : Config) (a : Attempt) (item : QueuedTest) (o : Option (List Event × Tried))
    → QuietTry o
    → Concludes config item (conclude config a item o)
unfolding conclude
conclude-Concludes config a item none q = tt
conclude-Concludes config a item (some (events, finished)) q = inl q
conclude-Concludes config a item (some (events, caught by_timeout e)) q =
    Effect-append config item events _ q (
      kill_if-Effect config item by_timeout a.kill _
        (on_test_failed-Effect config a e item (item.retry_errors ++ e ∷ [])))

-- Whatever the hooks and the worker do, an attempt that ends has one of three effects on the state:
-- none; the test goes back into the queue, its count of retries one higher and before that below the
-- limit; or one error is added to those of the run.
pub execute_item-Effect :
    (config : Config) (a : Attempt) (item : QueuedTest) (events : List Event)
    (answer : Answer (Unit {0}))
    → execute_item config a item ≡ some (events, answer)
    → Effect config item events
unfolding execute_item
execute_item-Effect config a item events answer h =
    subst (Concludes config item) h
      (conclude-Concludes config a item _ (tried_start-QuietTry config item a a.should_not_start))

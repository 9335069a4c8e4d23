-- ===== src/RunController/Workers.antt =====
-- core/test-run-controller/src/test-run-controller.ts: the tests that workers take and give back.
use testring.Common.{
  ℕ, zero, suc, ◌+◌, ◌≡◌, refl, ap, ◌∙◌, sym, inl, inr, Option, none, some, String, List, [], ◌∷◌,
  ◌++◌, replicate, arith,
}
use testring.Queue
use testring.Queue.{Queue}
use testring.RunController.{
  Config, QueuedTest, Answer, ok, threw, hangs, Event, pushed, get_queue_item_with_run_data,
}
use testring.RunController.Attempts.{Effect, execute_item-Effect}
use testring.RunController.Loops.{
  Phase, ready, busy, stopped, crashed, stuck, World, Step, takes, stops, concludes, Reach, here,
  next, start, phase_after, closing,
}

-- The sum of a measure over some tests.
abbrev pub total : (QueuedTest → ℕ) → List QueuedTest → ℕ
total f [] = 0
total f (item ∷ items) = f item + total f items

pub total-append :
    (f : QueuedTest → ℕ) (xs ys : List QueuedTest) → total f (xs ++ ys) ≡ total f xs + total f ys
total-append f [] ys = omega arith
total-append f (x ∷ xs) ys = omega (arith, total-append f xs ys)

-- The tests that the workers hold.
abbrev pub held : List Phase → List QueuedTest
held [] = []
held (busy item ∷ phases) = item ∷ held phases
held (ready ∷ phases) = held phases
held (stopped ∷ phases) = held phases
held (crashed e ∷ phases) = held phases
held (stuck ∷ phases) = held phases

pub held-append : (xs ys : List Phase) → held (xs ++ ys) ≡ held xs ++ held ys
held-append [] ys = refl
held-append (busy item ∷ xs) ys = ap (◌∷◌ item) (held-append xs ys)
held-append (ready ∷ xs) ys = held-append xs ys
held-append (stopped ∷ xs) ys = held-append xs ys
held-append (crashed e ∷ xs) ys = held-append xs ys
held-append (stuck ∷ xs) ys = held-append xs ys

pub held-start : (n : ℕ) → held (replicate n ready) ≡ []
held-start zero = refl
held-start (suc n) = held-start n

held-phase_after :
    (answer : Answer (Unit {0})) (xs : List Phase) → held (phase_after answer ∷ xs) ≡ held xs
held-phase_after (ok _) xs = refl
held-phase_after (threw e) xs = refl
held-phase_after hangs xs = refl

abbrev taken : (QueuedTest → ℕ) → Option QueuedTest × Queue QueuedTest → ℕ
taken f (none, rest) = total f rest.array
taken f (some item, rest) = f item + total f rest.array

shift_lem :
    (f : QueuedTest → ℕ) (xs : List QueuedTest)
    → taken f (Queue.shift (record { array = xs })) ≡ total f xs
unfolding Queue.shift
shift_lem f [] = refl
shift_lem f (x ∷ xs) = refl

pub shift-total :
    (f : QueuedTest → ℕ) (q rest : Queue QueuedTest) (item : QueuedTest)
    → Queue.shift q ≡ (some item, rest)
    → f item + total f rest.array ≡ total f q.array
shift-total f q rest item e = sym (ap (taken f) e) ∙ shift_lem f q.array

-- Replacing the phase of one worker changes what the workers hold by what that worker holds.
pub total-held :
    (f : QueuedTest → ℕ) (before behind : List Phase) (p : Phase)
    → total f (held (before ++ p ∷ behind))
      ≡ total f (held before) + (total f (held (p ∷ [])) + total f (held behind))
total-held f before behind p =
    rw (held-append before (p ∷ behind), held-append (p ∷ []) behind)
      (omega (
        arith,
        total-append f (held before) (held (p ∷ []) ++ held behind),
        total-append f (held (p ∷ [])) (held behind),
      ))

pub total-held_after :
    (f : QueuedTest → ℕ) (before behind : List Phase) (answer : Answer (Unit {0}))
    → total f (held (before ++ phase_after answer ∷ behind))
      ≡ total f (held before) + total f (held behind)
total-held_after f before behind answer =
    total-held f before behind (phase_after answer) ∙ rw (held-phase_after answer []) (omega arith)

-- What a measure says of all the tests of a run: queued, held and closed.
abbrev pub accounted : (QueuedTest → ℕ) → World → ℕ
accounted f w = total f w.queue.array + (total f (held w.workers) + total f w.closed)

abbrev pub of_test : (String → ℕ) → QueuedTest → ℕ
of_test f item = f item.test

-- An attempt closes its test or puts it back.
closing-of_test :
    (f : String → ℕ) (config : Config) (item : QueuedTest) (events : List Event)
    → Effect config item events
    → total (of_test f) (pushed events) + total (of_test f) (closing item (pushed events))
      ≡ f item.test
unfolding get_queue_item_with_run_data
closing-of_test f config item events (inl (p, _)) = rw p (omega arith)
closing-of_test f config item events (inr (inl ((errors, p), _, _))) = rw p (omega arith)
closing-of_test f config item events (inr (inr (p, _))) = rw p (omega arith)

pub push-array :
    (xs : List QueuedTest) (q : Queue QueuedTest) → (Queue.push xs q).array ≡ q.array ++ xs
unfolding Queue.push
push-array xs q = refl

step-accounted :
    (f : String → ℕ) (config : Config) (w w' : World)
    → Step config w w'
    → accounted (of_test f) w' ≡ accounted (of_test f) w
step-accounted f config w _ (takes before behind item rest e s) =
    let m = of_test f in
    rw e (
      omega (
        arith,
        total-held m before behind ready,
        total-held m before behind (busy item),
        shift-total m w.queue rest item s,
      ))
step-accounted f config w _ (stops before behind e _) =
    let m = of_test f in
    rw e (omega (arith, total-held m before behind ready, total-held m before behind stopped))
step-accounted f config w _ (concludes before behind item a events answer e h) =
    let m = of_test f in
    rw (e, push-array (pushed events) w.queue)
      (omega (
        arith,
        total-held m before behind (busy item),
        total-held_after m before behind answer,
        total-append m w.queue.array (pushed events),
        total-append m w.closed (closing item (pushed events)),
        closing-of_test f config item events (execute_item-Effect config a item events answer h),
      ))

accounted-start :
    (m : QueuedTest → ℕ) (limit : ℕ) (queue : Queue QueuedTest)
    → accounted m (start limit queue) ≡ total m queue.array
unfolding start
accounted-start m limit queue = rw (held-start limit) (omega arith)

-- No test is lost and none is doubled, however the workers interleave and whatever the hooks and the
-- runs do: for each measure of test files, its sum over the tests that are queued, held by a worker or
-- closed is its sum over the tests of the queue that the run started with.
pub Reach-accounted :
    (f : String → ℕ) (config : Config) (limit : ℕ) (queue : Queue QueuedTest) (w : World)
    → Reach config (start limit queue) w
    → accounted (of_test f) w ≡ total (of_test f) queue.array
Reach-accounted f config limit queue _ here = accounted-start (of_test f) limit queue
Reach-accounted f config limit queue v (next {u} r s) =
    step-accounted f config u v s ∙ Reach-accounted f config limit queue u r

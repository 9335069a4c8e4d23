-- ===== src/RunController/Prepared.antt =====
-- core/test-run-controller/src/test-run-controller.ts: the run data that a test is executed with.
use testring.Common.{
  ℕ, zero, suc, ◌≡◌, refl, sym, Option, none, some, List, [], ◌∷◌, ◌++◌, map, String, subst, All,
  All-append, replicate, inl, inr,
}
use testring.Queue
use testring.Queue.{Queue}
use testring.RunController.{
  prepare_test, Config, QueuedTest, Answer, ok, threw, hangs, Event, pushed,
  get_queue_item_with_run_data, prepare_tests,
}
use testring.RunController.Attempts.{Effect, execute_item-Effect}
use testring.RunController.Loops.{
  World, Step, takes, stops, concludes, Reach, here, next, start, Phase, ready, busy, stopped,
  crashed, stuck, phase_after,
}
use testring.RunController.Workers.{push-array}

-- The test carries the run data of its own count of retries.
abbrev pub IsPrepared : Config → QueuedTest → Type 0
IsPrepared config item = get_queue_item_with_run_data config item ≡ item

abbrev pub HoldsPrepared : Config → Phase → Type 0
HoldsPrepared config (busy item) = IsPrepared config item
HoldsPrepared config ready = Unit
HoldsPrepared config stopped = Unit
HoldsPrepared config (crashed e) = Unit
HoldsPrepared config stuck = Unit

get_queue_item_with_run_data-IsPrepared :
    (config : Config) (item : QueuedTest)
    → IsPrepared config (get_queue_item_with_run_data config item)
unfolding get_queue_item_with_run_data
get_queue_item_with_run_data-IsPrepared config item = refl

map-IsPrepared :
    (config : Config) (items : List QueuedTest)
    → All (IsPrepared config) (map (get_queue_item_with_run_data config) items)
map-IsPrepared config [] = tt
map-IsPrepared config (item ∷ items) =
    (get_queue_item_with_run_data-IsPrepared config item, map-IsPrepared config items)

given-IsPrepared :
    (config : Config) (given : Option (List QueuedTest))
    → All (IsPrepared config) (elim given as (λ _. List QueuedTest) [
      | none ↦ []
      | some items ↦ map (get_queue_item_with_run_data config) items
    ])
given-IsPrepared config none = tt
given-IsPrepared config (some items) = map-IsPrepared config items

prepare_tests-IsPrepared :
    (config : Config) (modifier_queue : List QueuedTest → Option (List QueuedTest))
    (files : List String)
    → All (IsPrepared config) (prepare_tests config modifier_queue files).array
unfolding prepare_tests Queue.create
prepare_tests-IsPrepared config modifier_queue files =
    given-IsPrepared config (modifier_queue (map prepare_test files))

All-split : {A : Type 0} (P : A → Type 0) (xs ys : List A) → All P (xs ++ ys) → All P xs × All P ys
All-split P [] ys h = (tt, h)
All-split P (x ∷ xs) ys (h, hs) = let (k, l) = All-split P xs ys hs in ((h, k), l)

pushed-IsPrepared :
    (config : Config) (item : QueuedTest) (events : List Event)
    → Effect config item events
    → All (IsPrepared config) (pushed events)
pushed-IsPrepared config item events (inl (p, _)) = rw p tt
pushed-IsPrepared config item events (inr (inl ((errors, p), _, _))) =
    rw p (get_queue_item_with_run_data-IsPrepared config _, tt)
pushed-IsPrepared config item events (inr (inr (p, _))) = rw p tt

abbrev AllPrepared : Config → World → Type 0
AllPrepared config w = All (IsPrepared config) w.queue.array × All (HoldsPrepared config) w.workers

replaced :
    (config : Config) (before behind workers : List Phase) (p q : Phase)
    → workers ≡ before ++ p ∷ behind
    → All (HoldsPrepared config) workers
    → HoldsPrepared config q
    → All (HoldsPrepared config) (before ++ q ∷ behind)
replaced config before behind workers p q e h k =
    let (front, (_, back)) =
      All-split (HoldsPrepared config) before (p ∷ behind)
        (subst (All (HoldsPrepared config)) e h) in
    All-append (HoldsPrepared config) before (q ∷ behind) front (k, back)

abbrev TakesPrepared : Config → Option QueuedTest × Queue QueuedTest → Type 0
TakesPrepared config (none, rest) = Unit
TakesPrepared config (some item, rest) = IsPrepared config item × All (IsPrepared config) rest.array

phase_after-HoldsPrepared :
    (config : Config) (answer : Answer (Unit {0})) → HoldsPrepared config (phase_after answer)
phase_after-HoldsPrepared config (ok _) = tt
phase_after-HoldsPrepared config (threw e) = tt
phase_after-HoldsPrepared config hangs = tt

shifted :
    (config : Config) (items : List QueuedTest) (rest : Queue QueuedTest) (item : QueuedTest)
    → Queue.shift (record { array = items }) ≡ (some item, rest)
    → All (IsPrepared config) items
    → IsPrepared config item × All (IsPrepared config) rest.array
unfolding Queue.shift
shifted config [] rest item e h = subst (TakesPrepared config) e tt
shifted config (x ∷ xs) rest item e h = subst (TakesPrepared config) e h

step-AllPrepared :
    (config : Config) (w w' : World)
    → Step config w w'
    → AllPrepared config w
    → AllPrepared config w'
step-AllPrepared config w _ (takes before behind item rest e s) (q, h) =
    let (k, l) = shifted config w.queue.array rest item s q in
    (l, replaced config before behind w.workers ready (busy item) e h k)
step-AllPrepared config w _ (stops before behind e _) (q, h) =
    (q, replaced config before behind w.workers ready stopped e h tt)
step-AllPrepared config w _ (concludes before behind item a events answer e s) (q, h) = (
  subst (All (IsPrepared config)) (sym (push-array (pushed events) w.queue)) (
      All-append (IsPrepared config) w.queue.array (pushed events) q
        (pushed-IsPrepared config item events (execute_item-Effect config a item events answer s))),
  replaced config before behind w.workers (busy item) (phase_after answer) e h
      (phase_after-HoldsPrepared config answer),
)

All-ready : (config : Config) (n : ℕ) → All (HoldsPrepared config) (replicate n ready)
All-ready config zero = tt
All-ready config (suc n) = (tt, All-ready config n)

-- Each test that a worker holds or will take carries the run data that belong to its own count of
-- retries: the first run of a test is not marked as a retry, every later one is, and the screenshots
-- are as the configuration has them for that run.
Reach-IsPrepared :
    (config : Config) (modifier_queue : List QueuedTest → Option (List QueuedTest))
    (files : List String) (limit : ℕ) (w : World)
    → Reach config (start limit (prepare_tests config modifier_queue files)) w
    → All (IsPrepared config) w.queue.array × All (HoldsPrepared config) w.workers
unfolding start
Reach-IsPrepared config modifier_queue files limit _ here =
    (prepare_tests-IsPrepared config modifier_queue files, All-ready config limit)
Reach-IsPrepared config modifier_queue files limit v (next {u} r s) =
    step-AllPrepared config u v s (Reach-IsPrepared config modifier_queue files limit u r)

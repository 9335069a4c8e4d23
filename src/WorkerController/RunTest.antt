-- ===== src/WorkerController/RunTest.antt =====
-- core/test-worker/src/worker/worker-controller.ts, `runTest`: the events of the bus while the file of
-- a test is executed and after it. `restructure` is `restructureError` of core/utils.
use testring.Common.{
  Bool, true, false, String, Option, none, some, List, [], ◌∷◌, ◌≡◌, refl, any, if◌then◌else◌,
  arith,
}

pub data TestEvent : Type 0 where
  started finished : TestEvent
  failed : String → TestEvent

pub data Result : Type 0 where
  waits resolved : Result
  rejected : String → Result

-- The promise of a run, and if its listeners are still on the bus.
pub record Run : Type 0 where
  pub result : Result
  pub listening : Bool

-- After the execution: the callbacks settle the promise.
pub wait_for_end : List TestEvent → Run
wait_for_end [] = record { result = waits; listening = true }
wait_for_end (started ∷ events) = wait_for_end events
wait_for_end (finished ∷ events) = record { result = resolved; listening = false }
wait_for_end (failed error ∷ events) = record { result = rejected error; listening = false }

abbrev pub is_started : TestEvent → Bool
is_started started = true
is_started finished = false
is_started (failed error) = false

abbrev pub is_end : TestEvent → Bool
is_end started = false
is_end finished = true
is_end (failed error) = true

-- `thrown` is what the execution of the file throws. An event during it calls a callback that is empty.
pub run_test_file : (String → String) → List TestEvent → Option String → List TestEvent → Run
unfolding wait_for_end
run_test_file restructure during (some error) later = record {
  result = rejected (restructure error);
  listening = true;
}
run_test_file restructure during none later =
    if any is_started during
    then wait_for_end later
    else record { result = resolved; listening = false }

wait_for_end-waits :
    (events : List TestEvent) → any is_end events ≡ false → (wait_for_end events).result ≡ waits
unfolding wait_for_end
wait_for_end-waits [] h = refl
wait_for_end-waits (started ∷ events) h = wait_for_end-waits events h
wait_for_end-waits (finished ∷ events) h = ground (arith, h)
wait_for_end-waits (failed error ∷ events) h = ground (arith, h)

-- A run that starts while its file is executed, as when the file exports the promise of the run, is
-- settled only by an end that comes after the execution. Where there is none, since it ended during
-- the execution, the controller waits for ever.
pub run_test_file_misses_end :
    (restructure : String → String) (during later : List TestEvent)
    → any is_started during ≡ true
    → any is_end later ≡ false
    → (run_test_file restructure during none later).result ≡ waits
unfolding run_test_file
run_test_file_misses_end restructure during later begun none_later =
    rw begun (wait_for_end-waits later none_later)

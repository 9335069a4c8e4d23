-- ===== src/TestApi/Tests.antt =====
-- core/api/src: three callbacks, the second of which throws, and a run that fails.
use testring.Common.{
  ℕ, false, Option, none, some, String, [], ◌∷◌, ◌≡◌, refl, if◌then◌else◌, nat_eq,
}
use testring.WorkerController.RunTest.{failed}
use testring.TestApi.{
  TestApiController, run, flush_callbacks, flush_before_run_callbacks, call_each, callback_threw,
}
use testring.TestApi.Flushing.{Flushes, flush_callbacks_lem}

abbrev error_of : ℕ → Option String
error_of callback = if nat_eq callback 2 then some "no" else none

flush_callbacks_lem_example :
    Flushes error_of (1 ∷ 2 ∷ 3 ∷ []) (flush_callbacks error_of false false (1 ∷ 2 ∷ 3 ∷ []))
flush_callbacks_lem_example = flush_callbacks_lem error_of false false (1 ∷ 2 ∷ 3 ∷ [])

stays_registered :
    flush_callbacks error_of false false (1 ∷ 2 ∷ 3 ∷ [])
    ≡ record { called = 1 ∷ 2 ∷ []; result = callback_threw "no"; callbacks = 1 ∷ 2 ∷ 3 ∷ [] }
unfolding flush_callbacks call_each
stays_registered = refl

abbrev api : TestApiController
api = record {
  test_id = "test";
  test_parameters = "{}";
  environment_parameters = "{}";
  before_run_callbacks = 1 ∷ [];
  after_run_callbacks = [];
}

second_test_fails :
    run (λ e. e) error_of false false 7 (none ∷ some "wrong" ∷ none ∷ []) api
    ≡ (failed "wrong", record api { before_run_callbacks = []; after_run_callbacks = 7 ∷ [] })
unfolding run flush_before_run_callbacks flush_callbacks call_each
second_test_fails = refl

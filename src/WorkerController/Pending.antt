-- ===== src/WorkerController/Pending.antt =====
-- core/test-worker/src/worker/worker-controller.ts: what a test that ends leaves pending.
use testring.Common.{Bool, false, ◌≡◌, arith, String}
use testring.WorkerController.{
  test_settled, WorkerController, passed, threw, broken_stack, ◌then◌, update_field,
  complete_execution_successfully, complete_execution_failed, release_pause_mode,
}

-- After a test that passes the state is not pending any more; after one that throws it is as it was,
-- so that it is still pending, with `waitForRelease` or without.
test_settled-pending :
    (wait : Bool) (error : String) (c : WorkerController)
    → ((test_settled wait passed c).1.execution_state.pending ≡ false)
      × ((test_settled wait (threw error) c).1.execution_state.pending ≡ c.execution_state.pending)
      × ((test_settled wait broken_stack c).1.execution_state.pending ≡ c.execution_state.pending)
unfolding test_settled ◌then◌ update_field complete_execution_successfully complete_execution_failed
    release_pause_mode
test_settled-pending wait error c = ground arith

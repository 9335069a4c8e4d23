-- ===== src/LoggerClient/Tests.antt =====
-- core/logger/src/abstract-logger-client.ts on a step that leaves another one open and throws.
use testring.Common.{◌≡◌, refl, none, some, [], ◌∷◌}
use testring.Stack
use testring.LoggerClient.{
  StepEntity, LoggerStack, LoggerClient, Callback, Method, create_log, build_entry, call_method,
  start_step, end_until, end_step, end_all_steps, call_step,
}

abbrev client : LoggerClient
client = record { prefix = none; marker = none }

abbrev outer : StepEntity
outer = record { step_id = "1"; message = "outer" }

abbrev left_open : StepEntity
left_open = record { step_id = "3"; message = "left open" }

abbrev throwing : Callback
throwing stack =
    (call_method client Method.info ("hi" ∷ []) stack ∷ [], left_open ∷ stack, some "boom")

abbrev two_steps : LoggerStack
two_steps = left_open ∷ outer ∷ []

client_runs :
    (end_until (some "outer") (left_open ∷ outer ∷ []) ≡ [])
    × (end_until none (left_open ∷ outer ∷ []) ≡ [])
    × (end_all_steps (left_open ∷ outer ∷ []) ≡ [])
    × ((call_step client "inner" throwing none "2" (outer ∷ [])).1 ≡ outer ∷ [])
    × (Stack.create (some two_steps) ≡ outer ∷ left_open ∷ [])
unfolding end_until end_all_steps call_step start_step end_step create_log build_entry Stack.create
client_runs = (refl, refl, refl, refl, refl)

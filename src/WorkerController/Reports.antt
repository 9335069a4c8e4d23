-- ===== src/WorkerController/Reports.antt =====
-- core/test-worker/src/worker/worker-controller.ts: how often a controller reports.
use testring.Common.{
  ℕ, ◌+◌, Bool, true, false, List, [], ◌∷◌, ◌++◌, ◌≡◌, refl, String, if◌then◌else◌, Bool-cases, inl,
  inr, arith, ap, ◌∙◌, count, count-append, length, length-append, not, map,
}
use testring.Breakpoints.{
  AsyncBreakpoints, BreakpointsTypes, resolve_breakpoint, break_stack, before_instruction,
  after_instruction, is_breakpoint_active, Event as BreakpointsEvent,
}
use testring.WorkerController.{
  Ending, flush, field_of, on_breakpoints, same, test_settled, run_test,
  complete_execution_successfully, complete_execution_failed, execute_test, release_test_execution,
  Completion, add, resolve_active, evaluate_code, flushed, skip, resolve, Event, WorkerController,
  Command, ◌then◌, update_field, activate_pause_mode, set_run_till_next_execution_mode,
  release_pause_mode, register, update_execution_state, unregister, execution_complete, breakpoint,
  flush_after_run_callbacks, clear_cache, evaluate_script, passed, broken_stack, threw, successful,
  unsuccessful, paused_field, paused_til_next_field, pending_field, StateField,
}
use testring.WorkerController.World.{
  World, Step, Reach, start, executes, settles, flushes, evaluates, releases, pauses, tills_next,
  resumes, here, next, reports_by_itself,
}

abbrev pub is_report : Event → Bool
is_report (execution_complete c) = true
is_report (register s) = false
is_report (update_execution_state s) = false
is_report (unregister s) = false
is_report (breakpoint e) = false
is_report flush_after_run_callbacks = false
is_report clear_cache = false
is_report (evaluate_script path content) = false

-- The reports that are still to come.
abbrev pub outstanding : WorkerController → ℕ
outstanding c = length c.flushing + count not c.running

-- A command that makes `n` more reports, or puts them off.
abbrev Adds : ℕ → Command → Type 0
Adds n f =
    (c : WorkerController) → count is_report (f c).0 + outstanding (f c).1 ≡ n + outstanding c

then-Adds : (n : ℕ) (f g : Command) → Adds 0 f → Adds n g → Adds n (f then g)
unfolding ◌then◌
then-Adds n f g adds adds' c =
    let h = count-append is_report (f c).0 (g (f c).1).0 in
    let h1 = adds c in let h2 = adds' (f c).1 in omega arith

if-Adds : (n : ℕ) (b : Bool) (f g : Command) → Adds n f → Adds n g → Adds n (if b then f else g)
if-Adds n true f g adds adds' = adds
if-Adds n false f g adds adds' = adds'

update_field-Adds : (field : StateField) (b : Bool) → Adds 0 (update_field field b)
unfolding update_field
update_field-Adds field b c = elim (Bool-cases (same (field_of field c.execution_state) b)) [
  | inl h ↦ rw h refl
  | inr h ↦ rw h refl
]

count-breakpoints : (es : List BreakpointsEvent) → count is_report (map breakpoint es) ≡ 0
count-breakpoints [] = refl
count-breakpoints (e ∷ es) = count-breakpoints es

on_breakpoints-Adds :
    (f : AsyncBreakpoints → List BreakpointsEvent × AsyncBreakpoints) → Adds 0 (on_breakpoints f)
on_breakpoints-Adds f c = rw (count-breakpoints (f c.breakpoints).0) refl

add-Adds : (type : BreakpointsTypes) → Adds 0 (add type)
add-Adds type c = refl

resolve-Adds : (type : BreakpointsTypes) → Adds 0 (resolve type)
resolve-Adds type = on_breakpoints-Adds (resolve_breakpoint type)

resolve_active-Adds : (type : BreakpointsTypes) → Adds 0 (resolve_active type)
resolve_active-Adds type c = elim (Bool-cases (is_breakpoint_active type c.breakpoints)) [
  | inl h ↦ rw h (resolve-Adds type c)
  | inr h ↦ rw h refl
]

activate_pause_mode-Adds : Adds 0 activate_pause_mode
unfolding activate_pause_mode
activate_pause_mode-Adds =
    then-Adds 0 _ _ (update_field-Adds paused_field true) (add-Adds before_instruction)

set_run_till_next_execution_mode-Adds : Adds 0 set_run_till_next_execution_mode
unfolding set_run_till_next_execution_mode
set_run_till_next_execution_mode-Adds = then-Adds 0 _ _ (update_field-Adds paused_field false) (
    then-Adds 0 _ _ (resolve_active-Adds before_instruction) (
      then-Adds 0 _ _ (update_field-Adds paused_til_next_field true)
        (then-Adds 0 _ _ (resolve_active-Adds after_instruction) (add-Adds after_instruction))))

release_pause_mode-Adds : Adds 0 release_pause_mode
unfolding release_pause_mode
release_pause_mode-Adds = then-Adds 0 _ _ (update_field-Adds paused_field false) (
    then-Adds 0 _ _ (update_field-Adds paused_til_next_field false)
      (then-Adds 0 _ _ (resolve-Adds before_instruction) (resolve-Adds after_instruction)))

flush-Adds : (completion : Completion) → Adds 1 (flush completion)
flush-Adds completion c = omega arith

complete_execution_successfully-Adds : Adds 1 complete_execution_successfully
unfolding complete_execution_successfully
complete_execution_successfully-Adds =
    then-Adds 1 _ _ release_pause_mode-Adds (flush-Adds successful)

complete_execution_failed-Adds : (error : String) → Adds 1 (complete_execution_failed error)
unfolding complete_execution_failed
complete_execution_failed-Adds error =
    then-Adds 1 _ _ release_pause_mode-Adds (flush-Adds (unsuccessful error))

release_test_execution-Adds : Adds 1 release_test_execution
unfolding release_test_execution
release_test_execution-Adds c =
    if-Adds 1 c.execution_state.pending _ _
      (then-Adds 1 _ _ (on_breakpoints-Adds break_stack) complete_execution_successfully-Adds)
      complete_execution_successfully-Adds c

run_test-Adds : (wait : Bool) → Adds (reports_by_itself wait) (run_test wait)
run_test-Adds true c = refl
run_test-Adds false c = omega arith

skip-Adds : Adds 0 skip
skip-Adds c = refl

execute_test-Adds : (wait : Bool) → Adds (reports_by_itself wait) (execute_test wait)
unfolding execute_test
execute_test-Adds wait =
    then-Adds _ _ _ (λ c. refl)
      (then-Adds _ _ _ (if-Adds 0 wait _ _ (λ c. refl) skip-Adds)
        (then-Adds _ _ _ (update_field-Adds pending_field true) (run_test-Adds wait)))

test_settled-Adds :
    (wait : Bool) (ending : Ending) → Adds (reports_by_itself wait) (test_settled wait ending)
unfolding test_settled
test_settled-Adds true passed = then-Adds 0 _ _ (update_field-Adds pending_field false) skip-Adds
test_settled-Adds false passed =
    then-Adds 1 _ _ (update_field-Adds pending_field false) complete_execution_successfully-Adds
test_settled-Adds true broken_stack = skip-Adds
test_settled-Adds false broken_stack = complete_execution_successfully-Adds
test_settled-Adds true (threw error) = skip-Adds
test_settled-Adds false (threw error) = complete_execution_failed-Adds error

flushed-Adds : (completion : Completion) → Adds 1 (flushed completion)
unfolding flushed
flushed-Adds successful c = refl
flushed-Adds (unsuccessful error) c = refl

evaluate_code-Adds : (path content : String) → Adds 0 (evaluate_code path content)
unfolding evaluate_code
evaluate_code-Adds path content =
    then-Adds 0 _ _ (update_field-Adds pending_field true)
      (then-Adds 0 _ _ (λ c. refl) (update_field-Adds pending_field false))

count-without :
    (wait : Bool) (before behind : List Bool)
    → count not (before ++ wait ∷ behind) ≡ reports_by_itself wait + count not (before ++ behind)
count-without wait before behind =
    let h = count-append not before (wait ∷ behind) in
    let h' = count-append not before behind in ground arith

length-without :
    (completion : Completion) (before behind : List Completion)
    → length (before ++ completion ∷ behind) ≡ 1 + length (before ++ behind)
length-without completion before behind =
    let h = length-append before (completion ∷ behind) in
    let h' = length-append before behind in omega arith

abbrev pub IsReported : World → Type 0
IsReported w = count is_report w.events + outstanding w.controller ≡ w.asked

after-reports :
    (n : ℕ) (f : Command) (c : WorkerController) (w : World)
    → Adds n f
    → count is_report (w.events ++ (f c).0) + outstanding (f c).1
      ≡ count is_report w.events + (n + outstanding c)
after-reports n f c w adds =
    let h = count-append is_report w.events (f c).0 in let h' = adds c in omega arith

step-IsReported : {w v : World} → Step w v → IsReported w → IsReported v
step-IsReported {w} (executes wait) h =
    let h' = after-reports _ (execute_test wait) w.controller w (execute_test-Adds wait) in
    omega arith
step-IsReported {w} (settles wait ending before behind at) h =
    let c = record w.controller { running = before ++ behind } in
    let h' = after-reports _ (test_settled wait ending) c w (test_settled-Adds wait ending) in
    let h'' = ap (count not) at ∙ count-without wait before behind in omega arith
step-IsReported {w} (flushes completion before behind at) h =
    let c = record w.controller { flushing = before ++ behind } in
    let h' = after-reports 1 (flushed completion) c w (flushed-Adds completion) in
    let h'' = ap length at ∙ length-without completion before behind in omega arith
step-IsReported {w} (evaluates path content on) h =
    let adds = evaluate_code-Adds path content in
    let h' = after-reports 0 (evaluate_code path content) w.controller w adds in omega arith
step-IsReported {w} (releases on) h =
    let h' = after-reports 1 release_test_execution w.controller w release_test_execution-Adds in
    omega arith
step-IsReported {w} (pauses on) h =
    let h' = after-reports 0 activate_pause_mode w.controller w activate_pause_mode-Adds in
    omega arith
step-IsReported {w} (tills_next on) h =
    let adds = set_run_till_next_execution_mode-Adds in
    let h' = after-reports 0 set_run_till_next_execution_mode w.controller w adds in omega arith
step-IsReported {w} (resumes on) h =
    let h' = after-reports 0 release_pause_mode w.controller w release_pause_mode-Adds in
    omega arith

-- Whatever messages a controller gets, and whatever its tests do: the reports of a completed
-- execution that it has sent, those that wait for the callbacks after a run, and the tests without
-- `waitForRelease` that still run, are together as many as it was asked for, by such a test or by a
-- release.
pub Reach-IsReported : {w : World} → Reach start w → IsReported w
Reach-IsReported here = refl
Reach-IsReported (next r s) = step-IsReported s (Reach-IsReported r)

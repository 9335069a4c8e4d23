-- ===== src/WorkerController/Shown.antt =====
-- core/test-worker/src/worker/worker-controller.ts: the state that the controller has sent.
use testring.Common.{
  none, some, arith, Bool, true, false, List, [], ◌∷◌, ◌++◌, ◌≡◌, String, refl, ◌≢◌, subst, map, ap,
  sym, if◌then◌else◌, Bool-cases, inl, inr,
}
use testring.Breakpoints.{
  is_breakpoint_active, AsyncBreakpoints, resolve_breakpoint, break_stack, before_instruction,
  after_instruction, BreakpointsTypes, Event as BreakpointsEvent,
}
use testring.WorkerController.{
  put_field, create, resolve, add, threw, unsuccessful, paused_til_next_field, Completion,
  paused_field, field_of, pending_field, Ending, on_breakpoints, same, evaluate_code, skip,
  release_test_execution, complete_execution_failed, set_run_till_next_execution_mode, test_settled,
  activate_pause_mode, complete_execution_successfully, flushed, execute_test, release_pause_mode,
  evaluate_script, flush_after_run_callbacks, clear_cache, successful, passed, broken_stack,
  execution_complete, unregister, update_execution_state, register, breakpoint, ExecutionState,
  Command, Event, WorkerController, StateField, ◌then◌, update_field, resolve_active,
}
use testring.WorkerController.World.{
  World, Step, Reach, start, after, executes, settles, flushes, evaluates, releases, pauses,
  tills_next, resumes, here, next,
}

-- One who has seen `s` sees `s'` at last, and is told of nothing that he has seen: what registers or
-- unregisters sends the state that he knows, and an update another one.
abbrev pub Told : ExecutionState → List Event → ExecutionState → Type 0
Told s [] s' = s ≡ s'
Told s (register t ∷ events) s' = (t ≡ s) × Told s events s'
Told s (update_execution_state t ∷ events) s' = (t ≢ s) × Told t events s'
Told s (unregister none ∷ events) s' = Told s events s'
Told s (unregister (some t) ∷ events) s' = (t ≡ s) × Told s events s'
Told s (execution_complete c ∷ events) s' = Told s events s'
Told s (breakpoint e ∷ events) s' = Told s events s'
Told s (flush_after_run_callbacks ∷ events) s' = Told s events s'
Told s (clear_cache ∷ events) s' = Told s events s'
Told s (evaluate_script path content ∷ events) s' = Told s events s'

Told-append :
    (s t u : ExecutionState) (es fs : List Event) → Told s es t → Told t fs u → Told s (es ++ fs) u
Told-append s t u [] fs h k = subst (λ v. Told v fs u) (sym h) k
Told-append s t u (register v ∷ es) fs (e, h) k = (e, Told-append s t u es fs h k)
Told-append s t u (update_execution_state v ∷ es) fs (e, h) k = (e, Told-append v t u es fs h k)
Told-append s t u (unregister none ∷ es) fs h k = Told-append s t u es fs h k
Told-append s t u (unregister (some v) ∷ es) fs (e, h) k = (e, Told-append s t u es fs h k)
Told-append s t u (execution_complete c ∷ es) fs h k = Told-append s t u es fs h k
Told-append s t u (breakpoint e ∷ es) fs h k = Told-append s t u es fs h k
Told-append s t u (flush_after_run_callbacks ∷ es) fs h k = Told-append s t u es fs h k
Told-append s t u (clear_cache ∷ es) fs h k = Told-append s t u es fs h k
Told-append s t u (evaluate_script path content ∷ es) fs h k = Told-append s t u es fs h k

-- What a command sends tells of the changes that it makes.
abbrev Shows : Command → Type 0
Shows f = (c : WorkerController) → Told c.execution_state (f c).0 (f c).1.execution_state

then-Shows : (f g : Command) → Shows f → Shows g → Shows (f then g)
unfolding ◌then◌
then-Shows f g shows shows' c =
    Told-append c.execution_state (f c).1.execution_state _ (f c).0 (g (f c).1).0 (shows c)
      (shows' (f c).1)

if-Shows : (b : Bool) (f g : Command) → Shows f → Shows g → Shows (if b then f else g)
if-Shows true f g shows shows' = shows
if-Shows false f g shows shows' = shows'

put_field-neq :
    (field : StateField) (b : Bool) (s : ExecutionState)
    → same (field_of field s) b ≡ false
    → put_field field b s ≢ s
put_field-neq paused_field b s h e = ground (arith, ap (λ u. u.paused) e, h)
put_field-neq paused_til_next_field b s h e = ground (arith, ap (λ u. u.paused_til_next) e, h)
put_field-neq pending_field b s h e = ground (arith, ap (λ u. u.pending) e, h)

update_field-Shows : (field : StateField) (b : Bool) → Shows (update_field field b)
unfolding update_field
update_field-Shows field b c = elim (Bool-cases (same (field_of field c.execution_state) b)) [
  | inl h ↦ rw h refl
  | inr h ↦ rw h (put_field-neq field b c.execution_state h, refl)
]

Told-breakpoints : (s : ExecutionState) (es : List BreakpointsEvent) → Told s (map breakpoint es) s
Told-breakpoints s [] = refl
Told-breakpoints s (e ∷ es) = Told-breakpoints s es

on_breakpoints-Shows :
    (f : AsyncBreakpoints → List BreakpointsEvent × AsyncBreakpoints) → Shows (on_breakpoints f)
on_breakpoints-Shows f c = Told-breakpoints c.execution_state (f c.breakpoints).0

resolve_active-Shows : (type : BreakpointsTypes) → Shows (resolve_active type)
resolve_active-Shows type c = elim (Bool-cases (is_breakpoint_active type c.breakpoints)) [
  | inl h ↦ rw h (on_breakpoints-Shows (resolve_breakpoint type) c)
  | inr h ↦ rw h refl
]

add-Shows : (type : BreakpointsTypes) → Shows (add type)
add-Shows type c = refl

resolve-Shows : (type : BreakpointsTypes) → Shows (resolve type)
resolve-Shows type = on_breakpoints-Shows (resolve_breakpoint type)

activate_pause_mode-Shows : Shows activate_pause_mode
unfolding activate_pause_mode
activate_pause_mode-Shows =
    then-Shows _ _ (update_field-Shows paused_field true) (add-Shows before_instruction)

set_run_till_next_execution_mode-Shows : Shows set_run_till_next_execution_mode
unfolding set_run_till_next_execution_mode
set_run_till_next_execution_mode-Shows = then-Shows _ _ (update_field-Shows paused_field false) (
    then-Shows _ _ (resolve_active-Shows before_instruction) (
      then-Shows _ _ (update_field-Shows paused_til_next_field true)
        (then-Shows _ _ (resolve_active-Shows after_instruction) (add-Shows after_instruction))))

release_pause_mode-Shows : Shows release_pause_mode
unfolding release_pause_mode
release_pause_mode-Shows = then-Shows _ _ (update_field-Shows paused_field false) (
    then-Shows _ _ (update_field-Shows paused_til_next_field false)
      (then-Shows _ _ (resolve-Shows before_instruction) (resolve-Shows after_instruction)))

complete_execution_successfully-Shows : Shows complete_execution_successfully
unfolding complete_execution_successfully
complete_execution_successfully-Shows = then-Shows _ _ release_pause_mode-Shows (λ c. refl)

complete_execution_failed-Shows : (error : String) → Shows (complete_execution_failed error)
unfolding complete_execution_failed
complete_execution_failed-Shows error = then-Shows _ _ release_pause_mode-Shows (λ c. refl)

skip-Shows : Shows skip
skip-Shows c = refl

flushed-Shows : (completion : Completion) → Shows (flushed completion)
unfolding flushed
flushed-Shows successful c = refl
flushed-Shows (unsuccessful error) c = (refl, refl)

release_test_execution-Shows : Shows release_test_execution
unfolding release_test_execution
release_test_execution-Shows c =
    if-Shows c.execution_state.pending _ _
      (then-Shows _ _ (on_breakpoints-Shows break_stack) complete_execution_successfully-Shows)
      complete_execution_successfully-Shows c

execute_test-Shows : (wait : Bool) → Shows (execute_test wait)
unfolding execute_test
execute_test-Shows wait =
    then-Shows _ _ (λ c. (refl, refl))
      (then-Shows _ _ (if-Shows wait _ _ (λ c. refl) skip-Shows)
        (then-Shows _ _ (update_field-Shows pending_field true) (λ c. refl)))

test_settled-Shows : (wait : Bool) (ending : Ending) → Shows (test_settled wait ending)
unfolding test_settled
test_settled-Shows wait passed =
    then-Shows _ _ (update_field-Shows pending_field false)
      (if-Shows wait _ _ skip-Shows complete_execution_successfully-Shows)
test_settled-Shows wait broken_stack =
    if-Shows wait _ _ skip-Shows complete_execution_successfully-Shows
test_settled-Shows wait (threw error) =
    if-Shows wait _ _ skip-Shows (complete_execution_failed-Shows error)

evaluate_code-Shows : (path content : String) → Shows (evaluate_code path content)
unfolding evaluate_code
evaluate_code-Shows path content =
    then-Shows _ _ (update_field-Shows pending_field true)
      (then-Shows _ _ (λ c. refl) (update_field-Shows pending_field false))

-- The events of the world tell of each change that led to the state of its controller, and of
-- nothing else.
abbrev pub IsShown : World → Type 0
IsShown w = Told create.execution_state w.events w.controller.execution_state

after-IsShown :
    (f : Command) (c : WorkerController) (w : World)
    → Shows f
    → c.execution_state ≡ w.controller.execution_state
    → IsShown w
    → IsShown (after f c w)
after-IsShown f c w shows same_state h =
    Told-append create.execution_state w.controller.execution_state _ w.events (f c).0 h
      (subst (λ s. Told s (f c).0 (f c).1.execution_state) same_state (shows c))

step-IsShown : {w v : World} → Step w v → IsShown w → IsShown v
step-IsShown {w} (executes wait) h =
    after-IsShown (execute_test wait) w.controller w (execute_test-Shows wait) refl h
step-IsShown {w} (settles wait ending before behind at) h =
    after-IsShown (test_settled wait ending) (record w.controller { running = before ++ behind }) w
      (test_settled-Shows wait ending) refl h
step-IsShown {w} (flushes completion before behind at) h =
    after-IsShown (flushed completion) (record w.controller { flushing = before ++ behind }) w
      (flushed-Shows completion) refl h
step-IsShown {w} (evaluates path content on) h =
    after-IsShown (evaluate_code path content) w.controller w (evaluate_code-Shows path content)
      refl h
step-IsShown {w} (releases on) h =
    after-IsShown release_test_execution w.controller w release_test_execution-Shows refl h
step-IsShown {w} (pauses on) h =
    after-IsShown activate_pause_mode w.controller w activate_pause_mode-Shows refl h
step-IsShown {w} (tills_next on) h =
    after-IsShown set_run_till_next_execution_mode w.controller w
      set_run_till_next_execution_mode-Shows refl h
step-IsShown {w} (resumes on) h =
    after-IsShown release_pause_mode w.controller w release_pause_mode-Shows refl h

-- Whatever messages a controller gets, and whatever its tests do: one who starts from the initial
-- state and follows the messages has the state of the controller at last. Each update sends another
-- state than the last one that was known, and a message that registers or unregisters with a state
-- sends the one that is known.
pub Reach-IsShown : {w : World} → Reach start w → IsShown w
Reach-IsShown here = refl
Reach-IsShown (next r s) = step-IsShown s (Reach-IsShown r)

-- ===== src/Breakpoints/Laws.antt =====
-- core/async-breakpoints/src/async-breakpoints.ts: histories of breakpoints.
use testring.Common.{◌≡◌, refl, ap, ◌∙◌, Bool, true, false, List, [], ◌∷◌, if◌then◌else◌, All}
use testring.Breakpoints.{
  BreakpointsTypes, before_instruction, after_instruction, Breakpoint, absent, pending, broken,
  AsyncBreakpoints, create, at, add_breakpoint, resolve_breakpoint, released, break_stack,
  broken_off, passes, waits, throws, wait_for_breakpoint,
}

pub data Op : Type 0 where
  adds resolves : BreakpointsTypes → Op
  breaks : Op

unfoldable pub step : Op → AsyncBreakpoints → AsyncBreakpoints
step (adds type) b = add_breakpoint type b
step (resolves type) b = (resolve_breakpoint type b).1
step breaks b = (break_stack b).1

-- A history, its last operation first.
unfoldable pub run : List Op → AsyncBreakpoints
run [] = create
run (op ∷ ops) = step op (run ops)

abbrev pub same : BreakpointsTypes → BreakpointsTypes → Bool
same before_instruction before_instruction = true
same after_instruction after_instruction = true
same before_instruction after_instruction = false
same after_instruction before_instruction = false

-- Whether the last operation on the type added it.
abbrev pub is_added : BreakpointsTypes → List Op → Bool
is_added type [] = false
is_added type (adds other ∷ ops) = if same type other then true else is_added type ops
is_added type (resolves other ∷ ops) = if same type other then false else is_added type ops
is_added type (breaks ∷ ops) = is_added type ops

abbrev pub IsCalm : Op → Type 0
IsCalm (adds type) = Unit
IsCalm (resolves type) = Unit
IsCalm breaks = ⊥

-- What a type should be in after a calm history.
abbrev pub expected : Bool → Breakpoint
expected true = pending
expected false = absent

abbrev calm : Bool → Bool → AsyncBreakpoints
calm b a = record { before = expected b; after = expected a }

adds_lem :
    (type : BreakpointsTypes) (b a : Bool)
    → add_breakpoint type (calm b a)
      ≡ calm
          (if same before_instruction type then true else b)
          (if same after_instruction type then true else a)
unfolding add_breakpoint
adds_lem before_instruction true a = refl
adds_lem before_instruction false a = refl
adds_lem after_instruction b true = refl
adds_lem after_instruction b false = refl

resolves_lem :
    (type : BreakpointsTypes) (b a : Bool)
    → (resolve_breakpoint type (calm b a)).1
      ≡ calm
          (if same before_instruction type then false else b)
          (if same after_instruction type then false else a)
unfolding resolve_breakpoint released
resolves_lem before_instruction true a = refl
resolves_lem before_instruction false a = refl
resolves_lem after_instruction b true = refl
resolves_lem after_instruction b false = refl

run_calm :
    (ops : List Op)
    → All IsCalm ops
    → run ops ≡ calm (is_added before_instruction ops) (is_added after_instruction ops)
unfolding run step
run_calm [] h = refl
run_calm (adds type ∷ ops) (h, hs) = rw (run_calm ops hs) (adds_lem type _ _)
run_calm (resolves type ∷ ops) (h, hs) = rw (run_calm ops hs) (resolves_lem type _ _)
run_calm (breaks ∷ ops) (h, hs) = absurd h

wait_calm :
    (type : BreakpointsTypes) (b a : Bool)
    → let c = (if same before_instruction type then b else a) in
      wait_for_breakpoint type (calm b a) ≡ (c, (if c then waits else passes))
unfolding wait_for_breakpoint
wait_calm before_instruction true a = refl
wait_calm before_instruction false a = refl
wait_calm after_instruction b true = refl
wait_calm after_instruction b false = refl

-- A breakpoint is waited for exactly as long as it was added and not resolved since, whatever is done
-- with the other one: in a history without `breakStack` it is pending if the last operation on its type
-- added it, and otherwise waiting for it passes at once.
run-wait :
    (type : BreakpointsTypes) (ops : List Op)
    → All IsCalm ops
    → wait_for_breakpoint type (run ops)
      ≡ (is_added type ops, (if is_added type ops then waits else passes))
run-wait before_instruction ops h = rw (run_calm ops h) (wait_calm before_instruction _ _)
run-wait after_instruction ops h = rw (run_calm ops h) (wait_calm after_instruction _ _)

-- Some further operations, the first one first.
pub then_run : AsyncBreakpoints → List Op → AsyncBreakpoints
then_run b [] = b
then_run b (op ∷ ops) = then_run (step op b) ops

stays_before :
    (op : Op) (other : Breakpoint)
    → at before_instruction (step op (record { before = broken; after = other })) ≡ broken
unfolding step add_breakpoint resolve_breakpoint released break_stack broken_off
stays_before (adds before_instruction) other = refl
stays_before (adds after_instruction) absent = refl
stays_before (adds after_instruction) pending = refl
stays_before (adds after_instruction) broken = refl
stays_before (resolves before_instruction) other = refl
stays_before (resolves after_instruction) absent = refl
stays_before (resolves after_instruction) pending = refl
stays_before (resolves after_instruction) broken = refl
stays_before breaks absent = refl
stays_before breaks pending = refl
stays_before breaks broken = refl

stays_after :
    (op : Op) (other : Breakpoint)
    → at after_instruction (step op (record { before = other; after = broken })) ≡ broken
unfolding step add_breakpoint resolve_breakpoint released break_stack broken_off
stays_after (adds before_instruction) absent = refl
stays_after (adds before_instruction) pending = refl
stays_after (adds before_instruction) broken = refl
stays_after (adds after_instruction) other = refl
stays_after (resolves before_instruction) absent = refl
stays_after (resolves before_instruction) pending = refl
stays_after (resolves before_instruction) broken = refl
stays_after (resolves after_instruction) other = refl
stays_after breaks absent = refl
stays_after breaks pending = refl
stays_after breaks broken = refl

broken_stays :
    (type : BreakpointsTypes) (op : Op) (b : AsyncBreakpoints)
    → at type b ≡ broken
    → at type (step op b) ≡ broken
broken_stays before_instruction op b h =
    ap (λ x. at before_instruction (step op (record b { before = x }))) h ∙ stays_before op b.after
broken_stays after_instruction op b h =
    ap (λ x. at after_instruction (step op (record b { after = x }))) h ∙ stays_after op b.before

then_run_broken :
    (type : BreakpointsTypes) (ops : List Op) (b : AsyncBreakpoints)
    → at type b ≡ broken
    → at type (then_run b ops) ≡ broken
unfolding then_run
then_run_broken type [] b h = h
then_run_broken type (op ∷ ops) b h =
    then_run_broken type ops (step op b) (broken_stays type op b h)

off_before :
    (other : Breakpoint)
    → (break_stack (record { before = pending; after = other })).1.before ≡ broken
unfolding break_stack broken_off
off_before absent = refl
off_before pending = refl
off_before broken = refl

off_after :
    (other : Breakpoint)
    → (break_stack (record { before = other; after = pending })).1.after ≡ broken
unfolding break_stack broken_off
off_after absent = refl
off_after pending = refl
off_after broken = refl

broken_off_lem :
    (type : BreakpointsTypes) (b : AsyncBreakpoints)
    → at type b ≡ pending
    → at type (break_stack b).1 ≡ broken
broken_off_lem before_instruction b h =
    ap (λ x. (break_stack (record b { before = x })).1.before) h ∙ off_before b.after
broken_off_lem after_instruction b h =
    ap (λ x. (break_stack (record b { after = x })).1.after) h ∙ off_after b.before

-- `breakStack` spoils a pending breakpoint for ever: whatever is added, resolved or broken afterwards,
-- it counts as active, and each wait for it throws.
break_stack_spoils :
    (type : BreakpointsTypes) (b : AsyncBreakpoints) (ops : List Op)
    → at type b ≡ pending
    → wait_for_breakpoint type (then_run (break_stack b).1 ops) ≡ (true, throws)
unfolding wait_for_breakpoint
break_stack_spoils type b ops h =
    rw (then_run_broken type ops (break_stack b).1 (broken_off_lem type b h)) refl

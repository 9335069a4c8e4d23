-- ===== src/Breakpoints/Tests.antt =====
-- core/async-breakpoints/src/async-breakpoints.ts: a debugger that steps, and one that stops.
use testring.Common.{◌≡◌, refl, true, [], ◌∷◌}
use testring.Breakpoints.{
  before_instruction, absent, pending, AsyncBreakpoints, create, resolved, rejected,
  is_breakpoint_active, add_breakpoint, resolve_breakpoint, break_stack,
}

abbrev paused : AsyncBreakpoints
paused = record { before = pending; after = absent }

breakpoints_run :
    (add_breakpoint before_instruction create ≡ paused)
    × (is_breakpoint_active before_instruction paused ≡ true)
    × (resolve_breakpoint before_instruction paused ≡ (resolved before_instruction ∷ [], create))
    × ((break_stack paused).0 ≡ rejected before_instruction ∷ [])
unfolding add_breakpoint is_breakpoint_active resolve_breakpoint break_stack
breakpoints_run = (refl, refl, refl, refl)

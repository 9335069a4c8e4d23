-- ===== src/Breakpoints.antt =====
-- core/async-breakpoints/src/async-breakpoints.ts, the class `AsyncBreakpoints`. The promise of a
-- breakpoint is what has become of it, and its two handlers are subscribed as long as it is pending.
-- The callback of a wait leaves the breakpoints alone.
pub mod Laws
mod Tests
use testring.Common.{Bool, true, false, List, [], ◌∷◌, ◌++◌, if◌then◌else◌}

pub data BreakpointsTypes : Type 0 where
  before_instruction after_instruction : BreakpointsTypes

-- An entry of the map `breakpoints`: none, one whose promise is pending, or one whose promise was
-- rejected with a `BreakStackError`.
pub data Breakpoint : Type 0 where
  absent pending broken : Breakpoint

pub record AsyncBreakpoints : Type 0 where
  pub before : Breakpoint
  pub after : Breakpoint

abbrev pub create : AsyncBreakpoints
create = record { before = absent; after = absent }

abbrev pub at : BreakpointsTypes → AsyncBreakpoints → Breakpoint
at before_instruction b = b.before
at after_instruction b = b.after

abbrev pub put : BreakpointsTypes → Breakpoint → AsyncBreakpoints → AsyncBreakpoints
put before_instruction p b = record b { before = p }
put after_instruction p b = record b { after = p }

pub data Event : Type 0 where
  resolved : BreakpointsTypes → Event
  rejected : BreakpointsTypes → Event

-- `breakpoints.has`.
abbrev pub is_there : Breakpoint → Bool
is_there absent = false
is_there pending = true
is_there broken = true

unfoldable pub is_breakpoint_active : BreakpointsTypes → AsyncBreakpoints → Bool
is_breakpoint_active type b = is_there (at type b)

unfoldable pub add_breakpoint : BreakpointsTypes → AsyncBreakpoints → AsyncBreakpoints
add_breakpoint type b = if is_there (at type b) then b else put type pending b

-- The release handler of the type, if it is subscribed.
released : BreakpointsTypes → Breakpoint → AsyncBreakpoints → List Event × AsyncBreakpoints
released type pending b = (resolved type ∷ [], put type absent b)
released type absent b = ([], b)
released type broken b = ([], b)

unfoldable pub resolve_breakpoint :
    BreakpointsTypes → AsyncBreakpoints → List Event × AsyncBreakpoints
unfolding released
resolve_breakpoint type b = released type (at type b) b

-- The break handler of the type, if it is subscribed. The entry stays in the map.
broken_off : BreakpointsTypes → Breakpoint → AsyncBreakpoints → List Event × AsyncBreakpoints
broken_off type pending b = (rejected type ∷ [], put type broken b)
broken_off type absent b = ([], b)
broken_off type broken b = ([], b)

-- Both types; the handlers of a breakpoint that was added later are called later, which no state shows.
unfoldable pub break_stack : AsyncBreakpoints → List Event × AsyncBreakpoints
unfolding broken_off
break_stack b =
    let (events, c) = broken_off before_instruction b.before b in
    let (events', d) = broken_off after_instruction c.after c in (events ++ events', d)

-- What `waitForBreakpoint` does: the argument of its callback, and if it then passes, waits or throws.
pub data Wait : Type 0 where
  passes waits throws : Wait

abbrev pub wait_on : Breakpoint → Bool × Wait
wait_on absent = (false, passes)
wait_on pending = (true, waits)
wait_on broken = (true, throws)

pub wait_for_breakpoint : BreakpointsTypes → AsyncBreakpoints → Bool × Wait
wait_for_breakpoint type b = wait_on (at type b)

-- ===== src/Transport/History.antt =====
-- core/transport/src/direct-transport.ts: the promises over all calls and events.
use Prim.Native.String.{◌++◌ as concat}
use text.Mathlib.TextPositions.{starts_with-append}
use testring.Common.{
  true, not, keep, refl, ℕ, ◌+◌, ◌≤◌, ◌≡◌, ◌⊎◌, Option, none, some, String, List, [], ◌++◌, arith,
}
use testring.Transport.Settling.{of_process, handle_child_close_lem}
use testring.Common.Dict.{values, get, IsUnique}
use testring.Serialize.{Store, Value}
use testring.Transport.{Message, normalize}
use testring.Transport.Direct.{
  is_message_from_process, DirectTransport, Event, Error, Outcome, create, create_message_uid, send,
  on_sent, register_child, handle_child_close, handle_child_message,
}
use testring.Transport.Counts.{
  resolves-resolved, resolves, settles, entries, resolves-append, settles-append,
}
use testring.Transport.Promises.{
  issued, Keeps, on_sent-Keeps, register_child-Keeps, handle_child_close-Keeps,
  handle_normalized-Keeps, send-Keeps,
}

-- What a transport is called with: by its owner, by `child.send` when it has sent, and by its children.
pub data Call : Type 0 where
  sends : (process_id type : String) (store : Store) (v : Value) (uniq_id : String) → Call
  notifies : (uid : String) (call : ℕ) (error : Option Error) → Call
  registers : (process_id : String) (child : ℕ) → Call
  closes : (process_id : String) → Call
  receives : (message : Option Message) (process_id : String) → Call

unfoldable pub run : Call → DirectTransport → Outcome
run (sends process_id type store v uniq_id) d = send process_id type store v uniq_id d
run (notifies uid call error) d = on_sent uid call error d
run (registers process_id child) d = ([], (register_child process_id child d).1)
run (closes process_id) d = handle_child_close process_id d
run (receives message process_id) d = handle_child_message message process_id d

-- A new message id is not in the table, and the callback of a send knows the id of its own call.
abbrev pub IsAllowed : Call → DirectTransport → Type 0
IsAllowed (sends process_id type store v uniq_id) d =
    get (create_message_uid process_id uniq_id) d.response_handlers ≡ none
IsAllowed (notifies uid call error) d =
    (get uid d.response_handlers ≡ some call) ⊎ (get uid d.response_handlers ≡ none)
IsAllowed (registers process_id child) d = Unit
IsAllowed (closes process_id) d = Unit
IsAllowed (receives message process_id) d = Unit

pub data Reach : List Event → DirectTransport → Type 0 where
  here : Reach [] create
  next :
      {events : List Event} {d : DirectTransport}
      → Reach events d
      → (c : Call) → IsAllowed c d
      → Reach (events ++ (run c d).0) (run c d).1

run-Keeps :
    (c : Call) (d : DirectTransport)
    → IsAllowed c d
    → IsUnique d.response_handlers
    → Keeps d (run c d)
unfolding run handle_child_message
run-Keeps (sends process_id type store v uniq_id) d a u =
    send-Keeps process_id type store v uniq_id d u a
run-Keeps (notifies uid call error) d a u = on_sent-Keeps uid call error d u a
run-Keeps (registers process_id child) d a u = register_child-Keeps process_id child d u
run-Keeps (closes process_id) d a u = handle_child_close-Keeps process_id d u
run-Keeps (receives message process_id) d a u =
    handle_normalized-Keeps (normalize message) process_id d u

Reach-IsUnique :
    {events : List Event} {d : DirectTransport} → Reach events d → IsUnique d.response_handlers
Reach-IsUnique here = tt
Reach-IsUnique (next {events} {d} r c a) = (run-Keeps c d a (Reach-IsUnique r)).0

-- The counts of a promise.
Reach-counts :
    {events : List Event} {d : DirectTransport}
    → Reach events d
    → (c : ℕ)
    → (resolves c events + entries c d.response_handlers ≤ issued c d.calls)
      × (issued c d.calls ≤ settles c events + entries c d.response_handlers)
Reach-counts here c = ground arith
Reach-counts (next {events} {d} r k a) c =
    let (least, most) = (run-Keeps k d a (Reach-IsUnique r)).1 c in
    let (l, m) = Reach-counts r c in
    omega (arith, resolves-append c events (run k d).0, settles-append c events (run k d).0)

-- What the exit of a child does to the promise of a call.
abbrev pub Closes : ℕ → String → DirectTransport → Type 0
Closes c process_id d =
    let o = handle_child_close process_id d in
    (resolves c o.0 ≡ entries c (keep (of_process process_id) d.response_handlers))
    × (entries c o.1.response_handlers
        ≡ entries c (keep (λ e. not (of_process process_id e)) d.response_handlers))

close-Closes :
    (c : ℕ) (process_id : String) (d : DirectTransport)
    → IsUnique d.response_handlers
    → Closes c process_id d
close-Closes c process_id d u =
    rw (handle_child_close_lem process_id d u)
      (resolves-resolved c (values (keep (of_process process_id) d.response_handlers)), refl)

-- In every history of a transport a promise is resolved at most once, and not before its call; and
-- each call of `send` that was made has been resolved or rejected, or its handler is in the table. The
-- exit of a child, whenever it comes, resolves exactly the promises in the table whose message ids
-- begin with the id of the child, takes them and no others from the table, and the ids that `send`
-- makes for the child begin so. The history has new message ids, as `generateUniqId` makes them.
pub Reach-Settles :
    {events : List Event} {d : DirectTransport}
    → Reach events d
    → (c : ℕ) (process_id uniq_id : String)
    → (resolves c events + entries c d.response_handlers ≤ issued c d.calls)
      × (issued c d.calls ≤ settles c events + entries c d.response_handlers)
      × Closes c process_id d
      × (is_message_from_process process_id (create_message_uid process_id uniq_id) ≡ true)
Reach-Settles {d = d} r c process_id uniq_id =
    let (least, most) = Reach-counts r c in
    (
      least,
      most,
      close-Closes c process_id d (Reach-IsUnique r),
      starts_with-append process_id (concat "|" uniq_id),
    )

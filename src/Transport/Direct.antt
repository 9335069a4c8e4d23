-- ===== src/Transport/Direct.antt =====
-- core/transport/src/direct-transport.ts, the class `DirectTransport`. A child is known by a number, and
-- so is the promise of a call of `send`. The part of a message id that `generateUniqId` makes is an
-- argument.
use Prim.Native.String.{◌++◌ as concat}
use text.Mathlib.Text.{starts_with}
use testring.Common.{ℕ, ◌+◌, Bool, Option, none, some, String, List, [], ◌∷◌, if◌then◌else◌, ◌==◌}
use testring.Common.Dict.{Dict, get, set, delete, keys}
use testring.Serialize.{Serial, Store, Value, serialize, Tree, string}
use testring.Transport.{Message, Received, message_response, normalize}

pub data Error : Type 0 where
  not_found : (process_id : String) → Error
  already_exists : (process_id : String) → Error
  send_error : String → Error

pub data Event : Type 0 where
  sent : (child : ℕ) → Message → Event
  resolved : (call : ℕ) → Event
  rejected : (call : ℕ) → Error → Event
  triggered : Received → (process_id : String) → Event

-- `calls` is the number of calls of `send` so far.
pub record DirectTransport : Type 0 where
  pub child_registry : Dict ℕ
  pub response_handlers : Dict ℕ
  pub calls : ℕ

abbrev pub Outcome : Type 0
Outcome = List Event × DirectTransport

abbrev pub create : DirectTransport
create = record { child_registry = []; response_handlers = []; calls = 0 }

abbrev pub create_message_uid : String → String → String
create_message_uid process_id uniq_id = concat process_id (concat "|" uniq_id)

abbrev pub is_message_from_process : String → String → Bool
is_message_from_process process_id message_uid = starts_with message_uid process_id

unfoldable pub get_processes_list : DirectTransport → List String
get_processes_list d = keys d.child_registry

-- The promise of a call whose payload cannot be serialised stays open; there is no such payload.
unfoldable pub send_serialized : ℕ → String → String → Option Serial → DirectTransport → Outcome
send_serialized child type uid none d = ([], record d { calls = d.calls + 1 })
send_serialized child type uid (some payload) d = (
  sent child (record { type = some type; payload = payload; uid = some uid }) ∷ [],
  record d { response_handlers = set uid d.calls d.response_handlers; calls = d.calls + 1 },
)

unfoldable pub send_to :
    Option ℕ → String → String → String → Option Serial → DirectTransport → Outcome
unfolding send_serialized
send_to none process_id type uniq_id payload d =
    (rejected d.calls (not_found process_id) ∷ [], record d { calls = d.calls + 1 })
send_to (some child) process_id type uniq_id payload d =
    send_serialized child type (create_message_uid process_id uniq_id) payload d

unfoldable pub send : String → String → Store → Value → String → DirectTransport → Outcome
unfolding send_to
send process_id type store v uniq_id d =
    send_to (get process_id d.child_registry) process_id type uniq_id (serialize store v) d

-- The callback of `child.send`. A promise that is settled already does not hear of it.
unfoldable pub on_sent : String → ℕ → Option Error → DirectTransport → Outcome
on_sent uid call none d = ([], d)
on_sent uid call (some e) d =
    (rejected call e ∷ [], record d { response_handlers = delete uid d.response_handlers })

unfoldable pub register : Option ℕ → String → ℕ → DirectTransport → Option Error × DirectTransport
register none process_id child d =
    (none, record d { child_registry = set process_id child d.child_registry })
register (some other) process_id child d = (some (already_exists process_id), d)

unfoldable pub register_child : String → ℕ → DirectTransport → Option Error × DirectTransport
unfolding register
register_child process_id child d = register (get process_id d.child_registry) process_id child d

-- The loop of `handleChildClose` over a copy of the table.
unfoldable pub close_each : String → Dict ℕ → Dict ℕ → List Event × Dict ℕ
close_each process_id [] handlers = ([], handlers)
close_each process_id ((message_uid, call) ∷ copy) handlers =
    let (events, left) = close_each process_id copy (delete message_uid handlers) in
    let passed = close_each process_id copy handlers in
    if is_message_from_process process_id message_uid
    then (resolved call ∷ events, left)
    else passed

unfoldable pub handle_child_close : String → DirectTransport → Outcome
unfolding close_each
handle_child_close process_id d =
    let (events, left) = close_each process_id d.response_handlers d.response_handlers in
    (
      events,
      record d { child_registry = delete process_id d.child_registry; response_handlers = left },
    )

unfoldable pub answered : String → Option ℕ → DirectTransport → Outcome
answered uid none d = ([], d)
answered uid (some call) d =
    (resolved call ∷ [], record d { response_handlers = delete uid d.response_handlers })

-- A response whose payload is no text finds no handler.
unfoldable pub handle_message_response : Tree → DirectTransport → Outcome
unfolding answered
handle_message_response (Tree.plain (string uid)) d = answered uid (get uid d.response_handlers) d
handle_message_response _ d = ([], d)

unfoldable pub handle_normalized : Option Received → String → DirectTransport → Outcome
unfolding handle_message_response
handle_normalized none process_id d = ([], d)
handle_normalized (some message) process_id d =
    let answer = handle_message_response message.payload d in
    if message.type == message_response then answer else (triggered message process_id ∷ [], d)

unfoldable pub handle_child_message : Option Message → String → DirectTransport → Outcome
unfolding handle_normalized
handle_child_message message process_id d = handle_normalized (normalize message) process_id d

-- ===== src/Transport/Promises.antt =====
-- core/transport/src/direct-transport.ts: how often each promise is settled.
use testring.Common.{
  ℕ, ◌+◌, ◌≤◌, ◌≡◌, refl, ap, ◌⊎◌, inl, inr, Bool, true, false, not, Option, none, some, String, [],
  ◌∷◌, arith, ◌==◌, if◌then◌else◌, ltb, keep,
}
use testring.Common.Dict.{get, delete, values, IsUnique, set-IsUnique, delete-IsUnique}
use testring.Serialize.{Serial, Store, Value, Tree, undefined, null, boolean, number, string}
use testring.Serialize.Termination.{serialize_total}
use testring.Transport.{Received, message_response}
use testring.Transport.Direct.{
  DirectTransport, create_message_uid, send_serialized, send_to, send, answered,
  handle_message_response, handle_normalized, resolved, triggered, Error, on_sent, register,
  register_child, handle_child_close, Outcome,
}
use testring.Transport.Settling.{of_process, handle_child_close_lem}
use testring.Transport.Counts.{
  resolves, settles, entries, entry_of, resolves-resolved, settles-resolved, entries-set,
  entries-delete, entries-keep, keep-IsUnique,
}

-- 1 for a call that has been made.
abbrev pub issued : ℕ → ℕ → ℕ
issued c n = if ltb c n then 1 else 0

-- What an outcome does for the promise of a call.
abbrev pub Delta : ℕ → DirectTransport → Outcome → Type 0
Delta c d (events, d') =
    (resolves c events + entries c d'.response_handlers + issued c d.calls
      ≤ entries c d.response_handlers + issued c d'.calls)
    × (entries c d.response_handlers + issued c d'.calls
        ≤ settles c events + entries c d'.response_handlers + issued c d.calls)

abbrev pub Keeps : DirectTransport → Outcome → Type 0
Keeps d o = IsUnique o.1.response_handlers × ((c : ℕ) → Delta c d o)

same-Keeps :
    (d d' : DirectTransport)
    → d'.response_handlers ≡ d.response_handlers
    → d'.calls ≡ d.calls
    → IsUnique d.response_handlers
    → Keeps d ([], d')
same-Keeps d d' h k u = rw (h, k) (u, λ c. omega arith)

-- The table loses a handler whose call is settled by the event.
resolve-Keeps :
    (uid : String) (call : ℕ) (d : DirectTransport)
    → IsUnique d.response_handlers
    → get uid d.response_handlers ≡ some call
    → Keeps d (resolved call ∷ [], record d { response_handlers = delete uid d.response_handlers })
resolve-Keeps uid call d u h = (
  delete-IsUnique uid d.response_handlers u,
  λ c. ground (arith, entries-delete c uid d.response_handlers u, ap (entry_of c) h),
)

pub on_sent-Keeps :
    (uid : String) (call : ℕ) (e : Option Error) (d : DirectTransport)
    → IsUnique d.response_handlers
    → (get uid d.response_handlers ≡ some call) ⊎ (get uid d.response_handlers ≡ none)
    → Keeps d (on_sent uid call e d)
unfolding on_sent
on_sent-Keeps uid call none d u h = same-Keeps d d refl refl u
on_sent-Keeps uid call (some e) d u (inl h) = (
  delete-IsUnique uid d.response_handlers u,
  λ c. ground (arith, entries-delete c uid d.response_handlers u, ap (entry_of c) h),
)
on_sent-Keeps uid call (some e) d u (inr h) = (
  delete-IsUnique uid d.response_handlers u,
  λ c. ground (arith, entries-delete c uid d.response_handlers u, ap (entry_of c) h),
)

register-Keeps :
    (other : Option ℕ) (process_id : String) (child : ℕ) (d : DirectTransport)
    → IsUnique d.response_handlers
    → Keeps d ([], (register other process_id child d).1)
unfolding register
register-Keeps none process_id child d u = (u, λ c. omega arith)
register-Keeps (some other) process_id child d u = (u, λ c. omega arith)

pub register_child-Keeps :
    (process_id : String) (child : ℕ) (d : DirectTransport)
    → IsUnique d.response_handlers
    → Keeps d ([], (register_child process_id child d).1)
unfolding register_child
register_child-Keeps process_id child d u =
    register-Keeps (get process_id d.child_registry) process_id child d u

pub handle_child_close-Keeps :
    (process_id : String) (d : DirectTransport)
    → IsUnique d.response_handlers
    → Keeps d (handle_child_close process_id d)
handle_child_close-Keeps process_id d u =
    let p = of_process process_id in
    let m = d.response_handlers in
    rw (handle_child_close_lem process_id d u) (
      keep-IsUnique (λ e. not (p e)) m u,
      λ c. omega (
        arith,
        entries-keep c p m,
        resolves-resolved c (values (keep p m)),
        settles-resolved c (values (keep p m)),
      ),
    )

answered-Keeps :
    (uid : String) (d : DirectTransport) (o : Option ℕ)
    → IsUnique d.response_handlers
    → get uid d.response_handlers ≡ o
    → Keeps d (answered uid o d)
unfolding answered
answered-Keeps uid d none u h = same-Keeps d d refl refl u
answered-Keeps uid d (some call) u h = resolve-Keeps uid call d u h

handle_message_response-Keeps :
    (payload : Tree) (d : DirectTransport)
    → IsUnique d.response_handlers
    → Keeps d (handle_message_response payload d)
unfolding handle_message_response
handle_message_response-Keeps (Tree.plain (string uid)) d u =
    answered-Keeps uid d (get uid d.response_handlers) u refl
handle_message_response-Keeps (Tree.plain undefined) d u = same-Keeps d d refl refl u
handle_message_response-Keeps (Tree.plain null) d u = same-Keeps d d refl refl u
handle_message_response-Keeps (Tree.plain (boolean b)) d u = same-Keeps d d refl refl u
handle_message_response-Keeps (Tree.plain (number n)) d u = same-Keeps d d refl refl u
handle_message_response-Keeps (Tree.error name message stack) d u = same-Keeps d d refl refl u
handle_message_response-Keeps (Tree.buffer_from text) d u = same-Keeps d d refl refl u
handle_message_response-Keeps (Tree.date time) d u = same-Keeps d d refl refl u
handle_message_response-Keeps (Tree.array ts) d u = same-Keeps d d refl refl u
handle_message_response-Keeps (Tree.object fs) d u = same-Keeps d d refl refl u
handle_message_response-Keeps (Tree.new_function body arguments) d u = same-Keeps d d refl refl u
handle_message_response-Keeps (Tree.unknown key) d u = same-Keeps d d refl refl u

if-Keeps :
    (d : DirectTransport) (b : Bool) (o p : Outcome)
    → Keeps d o
    → Keeps d p
    → Keeps d (if b then o else p)
if-Keeps d true o p h k = h
if-Keeps d false o p h k = k

pub handle_normalized-Keeps :
    (message : Option Received) (process_id : String) (d : DirectTransport)
    → IsUnique d.response_handlers
    → Keeps d (handle_normalized message process_id d)
unfolding handle_normalized
handle_normalized-Keeps none process_id d u = same-Keeps d d refl refl u
handle_normalized-Keeps (some message) process_id d u =
    if-Keeps d (message.type == message_response) _ (triggered message process_id ∷ [], d)
      (handle_message_response-Keeps message.payload d u) (u, λ c. omega arith)

send_to-Keeps :
    (o : Option ℕ) (process_id type uniq_id : String) (s : Serial) (d : DirectTransport)
    → IsUnique d.response_handlers
    → get (create_message_uid process_id uniq_id) d.response_handlers ≡ none
    → Keeps d (send_to o process_id type uniq_id (some s) d)
unfolding send_to send_serialized
send_to-Keeps none process_id type uniq_id s d u h = (u, λ c. ground arith)
send_to-Keeps (some child) process_id type uniq_id s d u h =
    let uid = create_message_uid process_id uniq_id in
    (
      set-IsUnique uid d.calls d.response_handlers u,
      λ c. ground (arith, entries-set c d.calls uid d.response_handlers h),
    )

pub send-Keeps :
    (process_id type : String) (store : Store) (v : Value) (uniq_id : String) (d : DirectTransport)
    → IsUnique d.response_handlers
    → get (create_message_uid process_id uniq_id) d.response_handlers ≡ none
    → Keeps d (send process_id type store v uniq_id d)
unfolding send
send-Keeps process_id type store v uniq_id d u h =
    let (s, e) = serialize_total store v in
    rw e (send_to-Keeps (get process_id d.child_registry) process_id type uniq_id s d u h)

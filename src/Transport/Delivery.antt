-- ===== src/Transport/Delivery.antt =====
-- core/transport/src: a message from a process to its child and back.
use text.Mathlib.TextPositions.{eq_refl}
use testring.Common.{ℕ, ◌+◌, ◌≡◌, refl, ap, ◌∙◌, true, none, some, String, [], ◌∷◌, arith}
use testring.Common.Dict.{Dict, get, set, delete}
use testring.Serialize.{Serial, Store, Value, Seen, serialize, Tree, deserialize}
use testring.Serialize.RoundTrip.{Denotes, deserialize-serialize}
use testring.Transport.{Message, message_response, normalize}
use testring.Transport.Direct.{
  DirectTransport, create_message_uid, send_serialized, send_to, send, answered,
  handle_message_response, handle_normalized, handle_child_message, sent, resolved,
}
use testring.Transport.Broadcast.{
  handle_root_process_message, posted, triggered, respond, uid_of, send_message,
}

get-set_self : (k : String) (n : ℕ) (m : Dict ℕ) → get k (set k n m) ≡ some n
unfolding get set
get-set_self k n [] = rw (eq_refl k) refl
get-set_self k n ((j, w) ∷ m) = ground (arith, get-set_self k n m)

delete-set_fresh : (k : String) (n : ℕ) (m : Dict ℕ) → get k m ≡ none → delete k (set k n m) ≡ m
unfolding get set delete
delete-set_fresh k n [] h = rw (eq_refl k) refl
delete-set_fresh k n ((j, w) ∷ m) h = ground (arith, delete-set_fresh k n m)

send-some :
    (process_id type uniq_id : String) (store : Store) (v : Value) (d : DirectTransport) (child : ℕ)
    (s : Serial)
    → get process_id d.child_registry ≡ some child
    → serialize store v ≡ some s
    → send process_id type store v uniq_id d
      ≡ send_serialized child type (create_message_uid process_id uniq_id) (some s) d
unfolding send send_to
send-some process_id type uniq_id store v d child s r e = rw (r, e) refl

answer_some :
    (uid : String) (call : ℕ) (process_id : String) (d : DirectTransport)
    → get uid d.response_handlers ≡ some call
    → handle_child_message
        (some (record {
          type = some message_response;
          payload = Serial.plain (testring.Serialize.string uid);
          uid = none;
        }))
        process_id
        d
      ≡ answered uid (some call) d
unfolding handle_child_message handle_normalized handle_message_response normalize deserialize
answer_some uid call process_id d h = rw h refl

child_handles :
    (type uid : String) (s : Serial) (t : Tree)
    → deserialize s ≡ t
    → handle_root_process_message
        (some (record { type = some type; payload = s; uid = some uid }))
        (record { can_send = true })
      ≡ triggered (record { type = type; payload = t })
        ∷ posted (record {
          type = some message_response;
          payload = Serial.plain (testring.Serialize.string uid);
          uid = none;
        })
        ∷ []
unfolding handle_root_process_message respond uid_of send_message normalize
child_handles type uid s t p = rw p refl

-- A message reaches its child and is answered: `send` to a registered child passes it one message, for
-- which the child calls its listeners with the type and with the value that was sent, if it has no
-- object twice, only errors of the standard kinds, and no buffers and functions, and posts one response; that response resolves
-- the promise of this call and of no other, and leaves the table of handlers as it was before. The id
-- of the message must be new, as `generateUniqId` makes it.
pub send-answered :
    (store : Store) (v : Value) (t : Tree) (seen : Seen) (process_id type uniq_id : String)
    (d : DirectTransport) (child : ℕ)
    → Denotes store v [] t seen
    → get process_id d.child_registry ≡ some child
    → get (create_message_uid process_id uniq_id) d.response_handlers ≡ none
    → (message : Message) × (response : Message) × (d' : DirectTransport) × (send process_id type
          store v uniq_id d
        ≡ (sent child message ∷ [], d'))
      × (handle_root_process_message (some message) (record { can_send = true })
          ≡ triggered (record { type = type; payload = t }) ∷ posted response ∷ [])
      × (handle_child_message (some response) process_id d'
          ≡ (resolved d.calls ∷ [], record d { calls = d.calls + 1 }))
unfolding send_serialized answered
send-answered store v t seen process_id type uniq_id d child h r f =
    let (s, e, p) = deserialize-serialize store v h in
    let uid = create_message_uid process_id uniq_id in
    let d' : DirectTransport = record d {
      response_handlers = set uid d.calls d.response_handlers;
      calls = d.calls + 1;
    } in
    (
      record { type = some type; payload = s; uid = some uid },
      record {
        type = some message_response;
        payload = Serial.plain (testring.Serialize.string uid);
        uid = none;
      },
      d',
      send-some process_id type uniq_id store v d child s r e,
      child_handles type uid s t p,
      answer_some uid d.calls process_id d' (get-set_self uid d.calls d.response_handlers)
          ∙ ap
              (λ m.
                (resolved d.calls ∷ [], record d { response_handlers = m; calls = d.calls + 1 }))
              (delete-set_fresh uid d.calls d.response_handlers f),
    )

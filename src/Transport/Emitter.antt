-- ===== src/Transport/Emitter.antt =====
-- core/transport/src/transport.ts, the class `Transport`: its listeners, which it keeps in an
-- `EventEmitter` of Node, a list of listeners in the order in which they were added. A listener is
-- known by a number, its callback does not change the list, and what two other transports do is in
-- their files.
pub mod Laws
use testring.Common.{
  ℕ, ◌+◌, Bool, true, false, not, ◌&&◌, Option, none, some, String, List, [], ◌∷◌, ◌++◌,
  if◌then◌else◌, ◌==◌, nat_eq, keep,
}
use testring.Serialize.{Store, Value, Tree}
use testring.Transport.{Received}
use testring.Transport.Broadcast
use testring.Transport.Broadcast.{BroadcastTransport}

-- How a listener was added: by `on`, `once` or `onceFrom`.
pub data Kind : Type 0 where
  always : Kind
  once : Kind
  once_from : (process_id : String) → Kind

pub record Listener : Type 0 where
  pub id : ℕ
  pub type : String
  pub kind : Kind

-- `next_id` numbers the listeners.
pub record Transport : Type 0 where
  pub emitter : List Listener
  pub next_id : ℕ
  pub broadcast_to_local : Bool

-- A callback is given the payload and, unless it was added by `onceFrom`, the process.
pub data Called : Type 0 where
  called : ℕ → Tree → Option String → Called

add_listener : String → Kind → Transport → ℕ × Transport
add_listener type kind t =
    let listener : Listener = record { id = t.next_id; type = type; kind = kind } in
    (t.next_id, record t { emitter = t.emitter ++ listener ∷ []; next_id = t.next_id + 1 })

unfoldable pub on : String → Transport → ℕ × Transport
unfolding add_listener
on type t = add_listener type always t

unfoldable pub on_once : String → Transport → ℕ × Transport
unfolding add_listener
on_once type t = add_listener type once t

unfoldable pub on_once_from : String → String → Transport → ℕ × Transport
unfolding add_listener
on_once_from process_id type t = add_listener type (once_from process_id) t

-- The function that `on`, `once` and `onceFrom` return.
unfoldable pub remove_listener : ℕ → Transport → Transport
remove_listener id t = record t {
  emitter = keep (λ listener. not (nat_eq listener.id id)) t.emitter;
}

abbrev pub is_source : String → Option String → Bool
is_source process_id none = false
is_source process_id (some source) = process_id == source

-- What one listener of the type does: what it calls, and if it stays.
pub hear : Listener → Tree → Option String → List Called × Bool
hear listener payload source = elim listener.kind [
  | always ↦ (called listener.id payload source ∷ [], true)
  | once ↦ (called listener.id payload source ∷ [], false)
  | once_from process_id ↦
      if is_source process_id source
      then (called listener.id payload none ∷ [], false)
      else ([], true)
]

emit_each : String → Tree → Option String → List Listener → List Called × List Listener
unfolding hear
emit_each type payload source [] = ([], [])
emit_each type payload source (listener ∷ listeners) =
    let (calls, stay) = emit_each type payload source listeners in
    let (own, stays) = hear listener payload source in
    if listener.type == type
    then (own ++ calls, (if stays then listener ∷ stay else stay))
    else (calls, listener ∷ stay)

pub trigger_listeners : Received → Option String → Transport → List Called × Transport
unfolding emit_each
trigger_listeners message process_id t =
    let (calls, stay) = emit_each message.type message.payload process_id t.emitter in
    (calls, record t { emitter = stay })

-- ===== src/Transport/Tests.antt =====
-- core/transport/src with two children, whose ids begin alike.
use testring.Common.{◌+◌, ◌≤◌, ◌≡◌, refl, true, false, none, some, List, [], ◌∷◌, ◌++◌}
use testring.Common.Dict.{IsUnique, get, set, delete}
use testring.Serialize.{atom, number, Tree}
use testring.Serialize.RoundTrip.{Denotes}
use testring.Transport.{Message, Received}
use testring.Transport.Direct.{
  is_message_from_process, create_message_uid, DirectTransport, Event, create, resolved, rejected,
  sent, send, send_to, register, register_child, handle_child_close, close_each, get_processes_list,
  handle_child_message, not_found, already_exists,
}
use testring.Transport.Broadcast
use testring.Transport.Broadcast.{handle_root_process_message}
use testring.Transport.Counts.{resolves, settles, entries}
use testring.Transport.Promises.{issued}
use testring.Transport.History.{Reach, here, next, sends, registers, run, Closes, Reach-Settles}
use testring.Transport.Delivery.{send-answered}
use testring.Transport.Emitter.{
  Listener, always, once, once_from, called, trigger_listeners, on, on_once, on_once_from,
  remove_listener,
}
use testring.Transport.Emitter

abbrev two_children : DirectTransport
two_children = record {
  child_registry = ("worker-1", 1) ∷ ("worker-12", 2) ∷ [];
  response_handlers = ("worker-12|x", 0) ∷ [];
  calls = 1;
}

transport_runs :
    (get_processes_list two_children ≡ "worker-1" ∷ "worker-12" ∷ [])
    × ((register_child "worker-1" 3 two_children).0 ≡ some (already_exists "worker-1"))
    × ((send "worker-3" "t" [] (atom (number 5)) "y" two_children).0
        ≡ rejected 1 (not_found "worker-3") ∷ [])
    × ((handle_child_close "worker-1" two_children).0 ≡ resolved 0 ∷ [])
unfolding get_processes_list register_child register send send_to get set delete handle_child_close
    close_each
transport_runs = (refl, refl, refl, refl)

five : Denotes [] (atom (number 5)) [] (Tree.plain (number 5)) []
five = Denotes.plain

child_is_known : get "worker-1" two_children.child_registry ≡ some 1
unfolding get
child_is_known = refl

id_is_new : get "worker-1|y" two_children.response_handlers ≡ none
unfolding get
id_is_new = refl

send-answered_example :
    (message : Message) × (response : Message) × (d' : DirectTransport) × (send "worker-1" "t" []
        (atom (number 5))
        "y"
        two_children
      ≡ (sent 1 message ∷ [], d'))
    × (handle_root_process_message (some message) (record { can_send = true })
        ≡ Broadcast.triggered (record { type = "t"; payload = Tree.plain (number 5) })
          ∷ Broadcast.posted response
          ∷ [])
    × (handle_child_message (some response) "worker-1" d'
        ≡ (resolved 1 ∷ [], record two_children { calls = 2 }))
send-answered_example =
    send-answered [] (atom (number 5)) (Tree.plain (number 5)) [] "worker-1" "t" "y" two_children 1
      five child_is_known id_is_new

table-IsUnique : IsUnique two_children.response_handlers
unfolding get
table-IsUnique = (refl, tt)

waits : get "worker-12|x" two_children.response_handlers ≡ some 0
unfolding get
waits = refl

abbrev opened : DirectTransport
opened = (run (registers "worker-1" 1) create).1

abbrev asked : DirectTransport
asked = (run (sends "worker-1" "t" [] (atom (number 5)) "y") opened).1

new_id : get "worker-1|y" opened.response_handlers ≡ none
unfolding run register_child register get
new_id = refl

abbrev all_events : List Event
all_events =
    ([] ++ (run (registers "worker-1" 1) create).0)
    ++ (run (sends "worker-1" "t" [] (atom (number 5)) "y") opened).0

history : Reach all_events asked
history =
    next (next here (registers "worker-1" 1) tt) (sends "worker-1" "t" [] (atom (number 5)) "y")
      new_id

Reach-Settles_example :
    (resolves 0 (all_events) + entries 0 asked.response_handlers ≤ issued 0 asked.calls)
    × (issued 0 asked.calls ≤ settles 0 (all_events) + entries 0 asked.response_handlers)
    × Closes 0 "worker-1" asked
    × (is_message_from_process "worker-1" (create_message_uid "worker-1" "x") ≡ true)
Reach-Settles_example = Reach-Settles history 0 "worker-1" "x"

abbrev listening : Emitter.Transport
listening = record {
  emitter =
      record { id = 0; type = "t"; kind = always }
      ∷ record { id = 1; type = "t"; kind = once_from "worker-1" }
      ∷ record { id = 2; type = "t"; kind = once }
      ∷ [];
  next_id = 3;
  broadcast_to_local = false;
}

abbrev hello : Received
hello = record { type = "t"; payload = Tree.plain (number 5) }

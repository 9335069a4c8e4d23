-- ===== src/Transport/Broadcast.antt =====
-- core/transport/src/broadcast-transport.ts, the class `BroadcastTransport`: the end of a child.
use testring.Common.{Bool, Option, none, some, String, List, [], ◌∷◌, if◌then◌else◌}
use testring.Serialize.{Serial, Store, Value, serialize, Tree, plain, string, undefined}
use testring.Transport.{Message, Received, message_response, normalize}

-- `can_send` says if the root process has a function `send`.
pub record BroadcastTransport : Type 0 where
  pub can_send : Bool

pub data Event : Type 0 where
  posted : Message → Event
  triggered : Received → Event

unfoldable pub send_message : Message → BroadcastTransport → List Event
send_message message b = if b.can_send then posted message ∷ [] else []

-- Nothing is sent of a payload that cannot be serialised; there is no such payload.
broadcast_serialized : String → Option Serial → BroadcastTransport → List Event
unfolding send_message
broadcast_serialized type none b = []
broadcast_serialized type (some payload) b =
    send_message (record { type = some type; payload = payload; uid = none }) b

unfoldable pub broadcast : String → Store → Value → BroadcastTransport → List Event
unfolding broadcast_serialized
broadcast type store v b = broadcast_serialized type (serialize store v) b

abbrev pub broadcast_local : String → Tree → List Event
broadcast_local type payload = triggered (record { type = type; payload = payload }) ∷ []

abbrev pub plain_uid : Option String → Serial
plain_uid none = plain undefined
plain_uid (some uid) = plain (string uid)

unfoldable pub respond : Option Received → Option String → BroadcastTransport → List Event
unfolding send_message
respond none uid b = []
respond (some message) uid b =
    triggered message
    ∷ send_message (record { type = some message_response; payload = plain_uid uid; uid = none }) b

unfoldable pub uid_of : Option Message → Option String
uid_of none = none
uid_of (some message) = message.uid

unfoldable pub handle_root_process_message : Option Message → BroadcastTransport → List Event
unfolding respond uid_of
handle_root_process_message message b = respond (normalize message) (uid_of message) b

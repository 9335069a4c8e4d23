-- ===== src/Transport.antt =====
-- core/transport/src: the messages between a process and its children.
pub mod Direct
pub mod Broadcast
pub mod Emitter
pub mod Settling
pub mod Counts
pub mod Promises
pub mod Closing
pub mod History
pub mod Delivery
mod Tests
use testring.Common.{Option, none, some, String, Bool, true, false}
use testring.Serialize.{Serial, Tree, deserialize}

-- A `type` of `none` is one that is not a string.
pub record Message : Type 0 where
  pub type : Option String
  pub payload : Serial
  pub uid : Option String

-- A message whose payload has been read.
pub record Received : Type 0 where
  pub type : String
  pub payload : Tree

abbrev pub message_response : String
message_response = "_messageResponse_"

-- The start that both ends make with a message that is there: `none` where the message is not handled.
-- The payload is read by `deserialize`, which leaves alone a payload without a `$key`.
pub normalize : Option Message → Option Received
normalize none = none
normalize (some message) = elim message.type [
  | none ↦ none
  | some type ↦ some (record { type = type; payload = deserialize message.payload })
]

-- ===== src/LoggerClient.antt =====
-- core/logger/src/abstract-logger-client.ts, the class `AbstractLoggerClient`. Loggers that `withPrefix`
-- and `withMarker` make share one stack of steps, which is passed along here; the id of a step, which
-- `generateUniqId` makes, is an argument, and the time of an entry is left out.
pub mod Steps
mod Tests
use testring.Common.{
  ℕ, Bool, true, false, Option, none, some, String, List, [], ◌∷◌, ◌++◌, if◌then◌else◌, ◌==◌,
}
use testring.Stack
use testring.Logger.{LogLevel}

pub data LogType : Type 0 where
  log info warning error debug step screenshot file media success : LogType

pub data StepType : Type 0 where
  log info debug warning error success : StepType

pub record StepEntity : Type 0 where
  pub step_id : String
  pub message : String

abbrev pub LoggerStack : Type 0
LoggerStack = List StepEntity

pub record Entry : Type 0 where
  pub type : LogType
  pub log_level : LogLevel
  pub content : List String
  pub step_uid : Option String
  pub step_type : Option StepType
  pub parent_step : Option String
  pub prefix : Option String
  pub marker : Option String

pub record LoggerClient : Type 0 where
  pub prefix : Option String
  pub marker : Option String

abbrev pub with_prefix : Option String → LoggerClient → LoggerClient
with_prefix prefix client = record client { prefix = prefix }

abbrev pub with_marker : Option String → LoggerClient → LoggerClient
with_marker marker client = record client { marker = marker }

abbrev pub id_of : Option StepEntity → Option String
id_of none = none
id_of (some s) = some s.step_id

abbrev pub get_current_step : LoggerStack → Option StepEntity
get_current_step stack = Stack.get_last_element 0 stack

abbrev pub get_previous_step : LoggerStack → Option StepEntity
get_previous_step stack = Stack.get_last_element 1 stack

abbrev pub is_step : LogType → Bool
is_step LogType.step = true
is_step _ = false

pub build_entry : LoggerClient → LogType → List String → LogLevel → StepType → LoggerStack → Entry
build_entry client log_type content log_level step_group_type stack =
    let current = id_of (get_current_step stack) in
    let previous = id_of (get_previous_step stack) in
    record {
      type = log_type;
      log_level = log_level;
      content = content;
      step_uid = (if is_step log_type then current else none);
      step_type = (if is_step log_type then some step_group_type else none);
      parent_step = (if is_step log_type then previous else current);
      prefix = client.prefix;
      marker = client.marker;
    }

-- `createLog`, whose default for the step type is `log`. The entry is what is broadcast.
pub create_log :
    LoggerClient → LogType → LogLevel → List String → Option StepType → LoggerStack → Entry
create_log client type log_level content none stack =
    build_entry client type content log_level StepType.log stack
create_log client type log_level content (some step_type) stack =
    build_entry client type content log_level step_type stack

-- The methods that only log: `log`, `info`, `success`, `warn`, `error`, `debug`, `verbose`,
-- `screenshot`, `file` and `media`, with the type and the level of their entries.
pub data Method : Type 0 where
  log info success warn error debug verbose screenshot file media : Method

pub type_of : Method → LogType × LogLevel
type_of Method.log = (LogType.log, LogLevel.info)
type_of Method.info = (LogType.info, LogLevel.info)
type_of Method.success = (LogType.success, LogLevel.info)
type_of Method.warn = (LogType.warning, LogLevel.warning)
type_of Method.error = (LogType.error, LogLevel.error)
type_of Method.debug = (LogType.debug, LogLevel.debug)
type_of Method.verbose = (LogType.debug, LogLevel.verbose)
type_of Method.screenshot = (LogType.screenshot, LogLevel.info)
type_of Method.file = (LogType.file, LogLevel.info)
type_of Method.media = (LogType.media, LogLevel.info)

pub call_method : LoggerClient → Method → List String → LoggerStack → Entry
call_method client method args stack =
    let (type, log_level) = type_of method in create_log client type log_level args none stack

pub start_step :
    LoggerClient → String → Option StepType → (step_id : String) → LoggerStack → Entry × LoggerStack
start_step client message step_type step_id stack =
    let begun = Stack.push (record { step_id = step_id; message = message }) stack in
    (create_log client LogType.step LogLevel.info (message ∷ []) step_type begun, begun)

-- The loop of `endStep`: a step whose message is another one is ended as well.
pub end_until : Option String → LoggerStack → LoggerStack
end_until message [] = []
end_until none (s ∷ stack) = end_until none stack
end_until (some message) (s ∷ stack) =
    let rest = end_until (some message) stack in if message == s.message then stack else rest

pub end_step : LoggerClient → Option String → List String → LoggerStack → List Entry × LoggerStack
end_step client message [] stack = ([], end_until message stack)
end_step client message (m ∷ message_to_log) stack = (
  call_method client Method.info ("[step end]" ∷ m ∷ message_to_log) stack ∷ [],
  end_until message stack,
)

pub end_all_steps : LoggerStack → LoggerStack
end_all_steps [] = []
end_all_steps (s ∷ stack) = end_all_steps stack

-- What a callback logs, the steps that it leaves, and what it throws.
abbrev pub Callback : Type 0
Callback = LoggerStack → List Entry × LoggerStack × Option String

pub call_step : LoggerClient → String → Callback → Option StepType → (step_id : String) → Callback
call_step client message callback step_type step_id stack =
    let (entry, begun) = start_step client message step_type step_id stack in
    let (entries, left, caught_error) = callback begun in
    let (ended, rest) = end_step client (some message) [] left in
    (entry ∷ (entries ++ ended), rest, caught_error)

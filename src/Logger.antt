-- ===== src/Logger.antt =====
-- core/logger/src/logger-server.ts, the class `LoggerServer`. An entry of the log is its level and its
-- content; the text that `formatLog` makes of it is not modelled. What the hooks of plugins do while an
-- entry is logged is an argument, and entries can come in between.
pub mod Progress
pub mod Stall
mod Tests
use testring.Common.{
  ℕ, zero, suc, Bool, true, false, not, Option, none, some, String, List, [], ◌∷◌, ◌++◌, ltb,
  if◌then◌else◌, truthy, named,
}
use testring.Queue
use testring.Queue.{Queue}

pub data LogLevel : Type 0 where
  verbose debug info warning error silent : LogLevel

-- `LogLevelNumeric`.
abbrev pub numeric : LogLevel → ℕ
numeric verbose = 0
numeric debug = 1
numeric info = 2
numeric warning = 3
numeric error = 4
numeric silent = 5

pub record LogEntity : Type 0 where
  pub log_level : LogLevel
  pub content : String

-- `ILogQueue`: `process_id` is the `meta`, which is empty without it.
pub record LogItem : Type 0 where
  pub log_entity : LogEntity
  pub process_id : Option String

pub data LogQueueStatus : Type 0 where
  empty running : LogQueueStatus

pub record Config : Type 0 where
  pub silent : Bool
  pub log_level : LogLevel
  pub number_of_retries : ℕ
  pub should_skip : Bool

-- `current` is the item that `runQueue` has taken and whose hooks are still at work, with the retries
-- that are left for it.
pub record LoggerServer : Type 0 where
  pub queue : Queue LogItem
  pub status : LogQueueStatus
  pub current : Option (LogItem × ℕ)

abbrev pub create : LoggerServer
create = record { queue = record { array = [] }; status = empty; current = none }

-- What the plugins do with an item: the entry that `beforeLog` makes of it and if that is muted, or
-- where a hook throws.
pub data Hooks : Type 0 where
  before_log_throws : Hooks
  on_log_throws : (changed : LogEntity) (mute_stdout : Bool) → Hooks
  all_answer : (changed : LogEntity) (mute_stdout : Bool) → Hooks

pub data Event : Type 0 where
  wrote : LogEntity → Option String → Event
  on_log : LogEntity → Option String → Event
  on_error : Option String → Event
  threw : Event

taken : ℕ → LoggerServer → Option LogItem × Queue LogItem → LoggerServer
taken retry s (none, rest) = record { queue = rest; status = empty; current = none }
taken retry s (some item, rest) = record {
  queue = rest;
  status = running;
  current = some (item, retry);
}

-- `runQueue` up to its first `await`.
pub run_queue : ℕ → LoggerServer → LoggerServer
unfolding taken
run_queue retry s = taken retry s (Queue.shift s.queue)

abbrev pub is_running : LogQueueStatus → Bool
is_running empty = false
is_running running = true

pub log : Config → LogEntity → Option String → LoggerServer → LoggerServer
log config log_entity process_id s =
    let item : LogItem = record { log_entity = log_entity; process_id = named process_id } in
    let pushed : LoggerServer = record s { queue = Queue.push (item ∷ []) s.queue } in
    if config.silent
    then s
    else if ltb (numeric log_entity.log_level) (numeric config.log_level)
    then s
    else if is_running s.status
    then pushed
    else run_queue config.number_of_retries pushed

written : LogItem → Bool → List Event
written item mute_stdout = if mute_stdout then [] else wrote item.log_entity item.process_id ∷ []

-- The `catch` block behind the hook `onError`. After a throw nothing is taken from the queue.
pub failed : Config → LogItem → ℕ → LoggerServer → List Event × LoggerServer
failed config item (suc retry) s =
    ([], run_queue retry (record s { queue = Queue.push (item ∷ []) s.queue }))
failed config item zero s =
    if config.should_skip
    then ([], run_queue config.number_of_retries s)
    else (threw ∷ [], record s { current = none })

-- `error_throws` says if the hook `onError` throws.
pub caught : Config → LogItem → ℕ → Bool → LoggerServer → List Event × LoggerServer
unfolding failed
caught config item retry true s =
    (on_error item.process_id ∷ threw ∷ [], record s { current = none })
caught config item retry false s =
    let (events, s') = failed config item retry s in (on_error item.process_id ∷ events, s')

pub finish_item : Config → Hooks → Bool → LogItem → ℕ → LoggerServer → List Event × LoggerServer
unfolding written caught
finish_item config before_log_throws error_throws item retry s =
    caught config item retry error_throws s
finish_item config (on_log_throws changed mute) error_throws item retry s =
    let (events, s') = caught config item retry error_throws s in
    (written item mute ++ on_log changed item.process_id ∷ events, s')
finish_item config (all_answer changed mute) error_throws item retry s =
    (written item mute ++ on_log changed item.process_id ∷ [], run_queue config.number_of_retries s)

pub finish_current :
    Config → Hooks → Bool → Option (LogItem × ℕ) → LoggerServer → List Event × LoggerServer
unfolding finish_item
finish_current config hooks error_throws none s = ([], s)
finish_current config hooks error_throws (some (item, retry)) s =
    finish_item config hooks error_throws item retry s

-- The rest of `runQueue`, when the hooks have done their work.
pub finish : Config → Hooks → Bool → LoggerServer → List Event × LoggerServer
unfolding finish_current
finish config hooks error_throws s = finish_current config hooks error_throws s.current s

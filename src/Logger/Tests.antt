-- ===== src/Logger/Tests.antt =====
-- core/logger/src/logger-server.ts on two entries.
use testring.Common.{List, Bool, ◌≡◌, refl, false, some, [], ◌∷◌, ◌++◌}
use testring.Queue
use testring.Queue.{Queue}
use testring.Logger.{
  verbose, info, error, LogEntity, LogItem, running, Config, LoggerServer, create,
  before_log_throws, all_answer, wrote, on_log, on_error, threw, run_queue, log, finish,
}
use testring.Logger.Progress.{
  outputs, hooks_of, Reach, here, logs, finishes, held, IsLive, Reach-Logs,
}

abbrev config : Config
config = record { silent = false; log_level = info; number_of_retries = 1; should_skip = false }

abbrev hello : LogEntity
hello = record { log_level = info; content = "hello" }

abbrev bye : LogEntity
bye = record { log_level = error; content = "bye" }

abbrev detail : LogEntity
detail = record { log_level = verbose; content = "detail" }

abbrev item : LogEntity → LogItem
item e = record { log_entity = e; process_id = some "w1" }

abbrev first : LoggerServer
first = record { queue = record { array = [] }; status = running; current = some (item hello, 1) }

abbrev both : LoggerServer
both = record first { queue = record { array = item bye ∷ [] } }

logger_runs :
    (log config detail (some "w1") create ≡ create)
    × (log config hello (some "w1") create ≡ first)
    × (log config bye (some "w1") first ≡ both)
    × ((finish config (all_answer hello false) false both).0
        ≡ wrote hello (some "w1") ∷ on_log hello (some "w1") ∷ [])
    × ((finish config before_log_throws false (record first { current = some (item hello, 0) })).0
        ≡ on_error (some "w1") ∷ threw ∷ [])
unfolding log finish run_queue Queue.push Queue.shift
logger_runs = (refl, refl, refl, refl, refl)

abbrev unchanged : LogItem → LogEntity × Bool
unchanged i = (i.log_entity, false)

abbrev after_two : LoggerServer
after_two = log config bye (some "w1") (log config hello (some "w1") create)

history :
    Reach config unchanged
      (([] ++ item hello ∷ []) ++ item bye ∷ [])
      ([] ++ (finish config (hooks_of unchanged after_two.current hello) false after_two).0)
      (finish config (hooks_of unchanged after_two.current hello) false after_two).1
history = finishes hello false (logs bye (some "w1") (logs hello (some "w1") here))

Reach-Logs_example :
    let o = finish config (hooks_of unchanged after_two.current hello) false after_two in
    (logged : List LogItem) × ([] ++ o.0 ≡ outputs unchanged logged)
    × (logged ++ (held o.1.current ++ o.1.queue.array) ≡ item hello ∷ item bye ∷ [])
    × IsLive o.1
Reach-Logs_example = Reach-Logs history

abbrev last_try : LoggerServer
last_try = record first { current = some (item hello, 0) }

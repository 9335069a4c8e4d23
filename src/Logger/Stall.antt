-- ===== src/Logger/Stall.antt =====
-- core/logger/src/logger-server.ts: a plugin that throws.
use testring.Common.{
  ℕ, suc, ◌≡◌, refl, false, Option, none, some, String, List, [], ◌∷◌, ◌++◌, arith,
}
use testring.Queue
use testring.Queue.{Queue}
use testring.Logger.{
  LogEntity, LogItem, running, Config, LoggerServer, before_log_throws, run_queue, log, finish,
  finish_item, finish_current, taken, caught, failed,
}

-- Some entries that come, one after the other.
pub log_all : Config → List (LogEntity × Option String) → LoggerServer → LoggerServer
log_all config [] s = s
log_all config ((e, process_id) ∷ entries) s = log_all config entries (log config e process_id s)

-- Nothing is in work, and the status says that something is.
abbrev pub IsStalled : LoggerServer → Type 0
IsStalled s = (s.current ≡ none) × (s.status ≡ running)

log-IsStalled :
    (config : Config) (e : LogEntity) (process_id : Option String) (s : LoggerServer)
    → IsStalled s
    → IsStalled (log config e process_id s)
unfolding log
log-IsStalled config e process_id s (c, r) = rw r (ground arith)

log_all-IsStalled :
    (config : Config) (entries : List (LogEntity × Option String)) (s : LoggerServer)
    → IsStalled s
    → IsStalled (log_all config entries s)
unfolding log_all
log_all-IsStalled config [] s h = h
log_all-IsStalled config ((e, process_id) ∷ entries) s h =
    log_all-IsStalled config entries (log config e process_id s)
      (log-IsStalled config e process_id s h)

-- If a plugin throws at an item without retries left, and the server does not skip, then nothing is
-- logged any more: whatever entries come, none is taken into work, and the status stays as if one
-- were.
failure_stalls :
    (config : Config) (item : LogItem) (s : LoggerServer)
    (entries : List (LogEntity × Option String))
    → config.should_skip ≡ false
    → s.current ≡ some (item, 0)
    → s.status ≡ running
    → let s' = log_all config entries (finish config before_log_throws false s).1 in
      (s'.current ≡ none) × (s'.status ≡ running)
unfolding finish finish_current finish_item caught failed
failure_stalls config item s entries k c r =
    log_all-IsStalled config entries (finish config before_log_throws false s).1
      (rw (c, k) (refl, r))

-- A retry is taken from the wrong item: when a plugin throws at an item that has retries left while
-- another waits, the failed item goes behind all that wait, with no count of its own, and the next
-- item is run with the retries that the failed one had left.
retry_goes_to_next :
    (config : Config) (item other : LogItem) (rest : List LogItem) (retry : ℕ) (s : LoggerServer)
    → s.current ≡ some (item, suc retry)
    → s.queue ≡ record { array = other ∷ rest }
    → (finish config before_log_throws false s).1 ≡ record {
      queue = record { array = rest ++ item ∷ [] };
      status = running;
      current = some (other, retry);
    }
unfolding finish finish_current finish_item caught failed run_queue taken Queue.push Queue.shift
retry_goes_to_next config item other rest retry s c q = rw (c, q) refl

-- ===== src/Logger/Progress.antt =====
-- core/logger/src/logger-server.ts: the order in which entries are logged.
use testring.Common.{
  ℕ, ◌≡◌, refl, ap, ◌∙◌, sym, Bool, true, false, not, ◌&&◌, Option, none, some, String, List, [],
  ◌∷◌, ◌++◌, ltb, if◌then◌else◌, named, append_assoc, append-nil,
}
use testring.Queue
use testring.Queue.{Queue}
use testring.Logger.{
  Hooks, Event, wrote, on_log, written, LogEntity, LogItem, LogQueueStatus, empty, running, Config,
  LoggerServer, create, numeric, is_running, all_answer, run_queue, log, finish, finish_item,
  finish_current, taken,
}

abbrev pub accepts : Config → LogEntity → Bool
accepts config e = not config.silent && not (ltb (numeric e.log_level) (numeric config.log_level))

abbrev pub held : Option (LogItem × ℕ) → List LogItem
held none = []
held (some (item, retry)) = item ∷ []

-- The queue is empty when nothing is in work, and the status says if something is.
abbrev pub IsLive : LoggerServer → Type 0
IsLive s = elim s.current [
  | none ↦ (s.queue.array ≡ []) × (s.status ≡ empty)
  | some c ↦ s.status ≡ running
]

-- The events for some entries that are logged one after the other, where `before_log` gives what the
-- hook of that name makes of an entry, and if the entry is muted: a line on the standard output, unless
-- it is muted, and the hook `onLog`.
abbrev pub outputs : (LogItem → LogEntity × Bool) → List LogItem → List Event
outputs before_log [] = []
outputs before_log (item ∷ items) =
    (if (before_log item).1 then [] else wrote item.log_entity item.process_id ∷ [])
    ++ on_log (before_log item).0 item.process_id ∷ outputs before_log items

abbrev pub hooks_of : (LogItem → LogEntity × Bool) → Option (LogItem × ℕ) → LogEntity → Hooks
hooks_of before_log none e = all_answer e false
hooks_of before_log (some (item, retry)) e = all_answer (before_log item).0 (before_log item).1

-- The entries that were accepted, and the events, in a history in which the hooks answer.
pub data Reach (config : Config) (before_log : LogItem → LogEntity × Bool)
    : List LogItem → List Event → LoggerServer → Type 0 where
  here : Reach config before_log [] [] create
  logs :
      {accepted : List LogItem} {events : List Event} {s : LoggerServer} (e : LogEntity)
      (process_id : Option String)
      → Reach config before_log accepted events s
      → Reach config before_log
          (accepted
            ++ (if accepts config e
                then record { log_entity = e; process_id = named process_id } ∷ []
                else []))
          events
          (log config e process_id s)
  finishes :
      {accepted : List LogItem} {events : List Event} {s : LoggerServer} (e : LogEntity)
      (error_throws : Bool)
      → Reach config before_log accepted events s
      → Reach config before_log accepted
          (events ++ (finish config (hooks_of before_log s.current e) error_throws s).0)
          (finish config (hooks_of before_log s.current e) error_throws s).1

abbrev pub waiting : LoggerServer → List LogItem
waiting s = held s.current ++ s.queue.array

taken-waiting :
    (retry : ℕ) (s : LoggerServer) (xs : List LogItem)
    → waiting (taken retry s (Queue.shift (record { array = xs }))) ≡ xs
unfolding taken Queue.shift
taken-waiting retry s [] = refl
taken-waiting retry s (x ∷ xs) = refl

taken-IsLive :
    (retry : ℕ) (s : LoggerServer) (xs : List LogItem)
    → IsLive (taken retry s (Queue.shift (record { array = xs })))
unfolding taken Queue.shift
taken-IsLive retry s [] = (refl, refl)
taken-IsLive retry s (x ∷ xs) = refl

run_queue-waiting : (retry : ℕ) (s : LoggerServer) → waiting (run_queue retry s) ≡ s.queue.array
unfolding run_queue
run_queue-waiting retry s = taken-waiting retry s s.queue.array

run_queue-IsLive : (retry : ℕ) (s : LoggerServer) → IsLive (run_queue retry s)
unfolding run_queue
run_queue-IsLive retry s = taken-IsLive retry s s.queue.array

-- What a step must keep.
abbrev Logs : List LogItem → LoggerServer → Type 0
Logs items s = (waiting s ≡ items) × IsLive s

if-Logs :
    (a b : Bool) (s pushed : LoggerServer) (items extra : List LogItem)
    → Logs items s
    → Logs (items ++ extra) pushed
    → Logs
        (items ++ (if not a && not b then extra else []))
        (if a then s else if b then s else pushed)
if-Logs true b s pushed items extra h k = rw (append-nil items) h
if-Logs false true s pushed items extra h k = rw (append-nil items) h
if-Logs false false s pushed items extra h k = k

empty≢running : empty ≡ running → ⊥
empty≢running e = cc

pushed-Logs :
    (n : ℕ) (x : LogItem) (array : List LogItem) (status : LogQueueStatus)
    (current : Option (LogItem × ℕ))
    → let s : LoggerServer = record {
      queue = record { array = array };
      status = status;
      current = current;
    } in
      let pushed : LoggerServer = record s { queue = Queue.push (x ∷ []) s.queue } in
      IsLive s
      → Logs (waiting s ++ x ∷ []) (if is_running status then pushed else run_queue n pushed)
unfolding Queue.push
pushed-Logs n x array empty none live = (run_queue-waiting n _, run_queue-IsLive n _)
pushed-Logs n x array running none live = absurd (empty≢running (sym live.1))
pushed-Logs n x array running (some c) live = (refl, refl)
pushed-Logs n x array empty (some c) live = absurd (empty≢running live)

log-Logs :
    (config : Config) (e : LogEntity) (process_id : Option String) (queue : Queue LogItem)
    (status : LogQueueStatus) (current : Option (LogItem × ℕ))
    → let s : LoggerServer = record { queue = queue; status = status; current = current } in
      IsLive s
      → Logs
          (waiting s
            ++ (if accepts config e
                then record { log_entity = e; process_id = named process_id } ∷ []
                else []))
          (log config e process_id s)
unfolding log
log-Logs config e process_id queue status current live =
    let s : LoggerServer = record { queue = queue; status = status; current = current } in
    let x : LogItem = record { log_entity = e; process_id = named process_id } in
    if-Logs config.silent (ltb (numeric e.log_level) (numeric config.log_level)) s _ (waiting s)
      (x ∷ []) (refl, live) (pushed-Logs config.number_of_retries x queue.array status current live)

outputs-append :
    (before_log : LogItem → LogEntity × Bool) (xs ys : List LogItem)
    → outputs before_log (xs ++ ys) ≡ outputs before_log xs ++ outputs before_log ys
outputs-append before_log [] ys = refl
outputs-append before_log (x ∷ xs) ys =
    let line : List Event = if (before_log x).1 then [] else wrote x.log_entity x.process_id ∷ [] in
    ap (λ es. line ++ on_log (before_log x).0 x.process_id ∷ es) (outputs-append before_log xs ys)
    ∙ sym (append_assoc line (on_log (before_log x).0 x.process_id ∷ outputs before_log xs) _)

-- A finish logs what is held, and goes on with the queue.
finish-Logs :
    (config : Config) (before_log : LogItem → LogEntity × Bool) (e : LogEntity)
    (error_throws : Bool) (queue : Queue LogItem) (status : LogQueueStatus)
    (current : Option (LogItem × ℕ))
    → let s : LoggerServer = record { queue = queue; status = status; current = current } in
      let o = finish config (hooks_of before_log current e) error_throws s in
      IsLive s → Logs queue.array o.1 × (o.0 ≡ outputs before_log (held current))
unfolding finish finish_current finish_item written
finish-Logs config before_log e error_throws queue status none live = ((refl, live), refl)
finish-Logs config before_log e error_throws queue status (some (item, retry)) live = (
  (run_queue-waiting config.number_of_retries _, run_queue-IsLive config.number_of_retries _),
  refl,
)

-- While the hooks of plugins answer, the entries that pass the level filter are logged one by one, in
-- the order in which they came and each once: the events are those of some entries, each with its line
-- and its hook `onLog`, and these entries, the one in work and those in the queue are, in this order,
-- all that were accepted. If none is in work, the queue is empty.
pub Reach-Logs :
    {config : Config} {before_log : LogItem → LogEntity × Bool} {accepted : List LogItem}
    {events : List Event} {s : LoggerServer}
    → Reach config before_log accepted events s
    → (logged : List LogItem) × (events ≡ outputs before_log logged)
      × (logged ++ (held s.current ++ s.queue.array) ≡ accepted)
      × IsLive s
Reach-Logs here = ([], refl, refl, (refl, refl))
Reach-Logs {config} (logs {s = s} e process_id r) =
    let (logged, told, order, live) = Reach-Logs r in
    let x : LogItem = record { log_entity = e; process_id = named process_id } in
    let extra = if accepts config e then x ∷ [] else [] in
    let (w, l) = log-Logs config e process_id s.queue s.status s.current live in
    (
      logged,
      told,
      ap (◌++◌ logged) w
          ∙ sym (append_assoc logged (waiting s) extra)
          ∙ ap (λ xs. xs ++ extra) order,
      l,
    )
Reach-Logs {config} {before_log} (finishes {events = events} {s = s} e error_throws r) =
    let (logged, told, order, live) = Reach-Logs r in
    let ((w, l), o) =
      finish-Logs config before_log e error_throws s.queue s.status s.current live in
    (
      logged ++ held s.current,
      ap (λ es. es ++ (finish config (hooks_of before_log s.current e) error_throws s).0) told
          ∙ ap (◌++◌ (outputs before_log logged)) o
          ∙ sym (outputs-append before_log logged (held s.current)),
      append_assoc logged (held s.current) _
          ∙ ap (λ xs. logged ++ (held s.current ++ xs)) w
          ∙ order,
      l,
    )

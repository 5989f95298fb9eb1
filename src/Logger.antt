-- ===== src/Logger.antt =====
-- log/logger.h and log/logger.cc: callers push messages into a queue, and a thread writes them to a
-- file. A step is what one thread does while it holds the mutex, or between two such parts. Times
-- are in microseconds; the text of a date is a parameter.
pub mod Order
pub mod Idle
use dytech.Prelude.{ℕ, ◌+◌, ◌≡◌, Bool, true, false, ◌||◌, List, [], ◌∷◌, ◌++◌, Bytes, ltb, length}
use dytech.Text.{codes}

pub data LogLevel : Type 0 where
  info warning error fatal : LogLevel

-- `ToString(level)`.
unfoldable pub level_to_string : LogLevel → Bytes
level_to_string error = codes "Error"
level_to_string fatal = codes "Fatal"
level_to_string info = codes "Info"
level_to_string warning = codes "Warning"

-- `Log(log_level, log_msg)`: the message with the date in front.
unfoldable pub make_log : (ℕ → Bytes) → ℕ → LogLevel → Bytes → Bytes
unfolding level_to_string
make_log date now log_level log_msg =
    date now ++ (level_to_string log_level ++ (codes ":" ++ (log_msg ++ codes "\n")))

abbrev pub k_threshold : ℕ
k_threshold = 1000

abbrev pub k_refresh_threshold_duration : ℕ
k_refresh_threshold_duration = 3000

-- Where the writing thread stands: about to test its condition; in `wait`; past the swap; past the
-- writing, about to look at `done_`; returned.
pub data Writer : Type 0 where
  testing asleep writing flushed finished : Writer

-- `file` is what was written, and `pushed` records the messages in the order in which they came.
pub record Logger : Type 0 where
  pub queue : List Bytes
  pub writer_queue : List Bytes
  pub file : Bytes
  pub done : Bool
  pub last_flush : ℕ
  pub writer : Writer
  pub pushed : List Bytes

-- `Logger()` at the time `now`.
unfoldable pub make_logger : ℕ → Logger
make_logger now = record {
  queue = [];
  writer_queue = [];
  file = [];
  done = false;
  last_flush = now;
  writer = testing;
  pushed = [];
}

-- `PushLog`'s queue.
unfoldable pub push_log : Logger → Bytes → Logger
push_log s log = record s { queue = s.queue ++ log ∷ []; pushed = s.pushed ++ log ∷ [] }

-- `LogMsg`, up to the notification: the message is stamped and queued.
unfoldable pub log_msg : (ℕ → Bytes) → ℕ → Logger → LogLevel → Bytes → Logger
unfolding make_log push_log
log_msg date now s log_level msg = push_log s (make_log date now log_level msg)

-- Is it time to write, or are there many messages? The test of `PushLog`.
unfoldable pub should_notify : Logger → ℕ → Bool
should_notify s now =
    ltb (s.last_flush + k_refresh_threshold_duration) now || ltb k_threshold (length s.queue)

-- The condition of `LogWriting`.
unfoldable pub should_write : Logger → ℕ → Bool
should_write s now =
    s.done
    || (ltb k_threshold (length s.queue) || ltb (s.last_flush + k_refresh_threshold_duration) now)

-- `WriteLogs`.
unfoldable pub write_logs : Bytes → List Bytes → Bytes
write_logs file [] = file
write_logs file (log ∷ logs) = write_logs (file ++ log) logs

-- The steps; `now` is the time that the thread reads.
pub data Step : Logger → Logger → Type 0 where
  push : (s : Logger) (log : Bytes) → Step s (push_log s log)
  notify :
      (s : Logger) (now : ℕ)
      → s.writer ≡ asleep
      → should_notify s now ≡ true
      → Step s (record s { writer = testing })
  stop : (s : Logger) → Step s (record s { done = true })
  wake : (s : Logger) → s.writer ≡ asleep → Step s (record s { writer = testing })
  sleep :
      (s : Logger) (now : ℕ)
      → s.writer ≡ testing
      → should_write s now ≡ false
      → Step s (record s { writer = asleep })
  swap :
      (s : Logger) (now : ℕ) (log : Bytes) (logs : List Bytes)
      → s.writer ≡ testing
      → should_write s now ≡ true
      → s.queue ≡ log ∷ logs
      → Step s (record s { writer = writing; writer_queue = s.queue; queue = s.writer_queue })
  skip :
      (s : Logger) (now : ℕ)
      → s.writer ≡ testing
      → should_write s now ≡ true
      → s.queue ≡ []
      → Step s (record s { writer = flushed })
  write :
      (s : Logger) (now : ℕ)
      → s.writer ≡ writing
      → Step s (record s {
        writer = flushed;
        file = write_logs s.file s.writer_queue;
        last_flush = now;
        writer_queue = [];
      })
  finish :
      (s : Logger) → s.writer ≡ flushed → s.done ≡ true → Step s (record s { writer = finished })
  again :
      (s : Logger) → s.writer ≡ flushed → s.done ≡ false → Step s (record s { writer = testing })

pub data Reach (s : Logger) : Logger → Type 0 where
  here : Reach s s
  next : {t u : Logger} → Reach s t → Step t u → Reach s u

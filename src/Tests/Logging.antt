-- ===== src/Tests/Logging.antt =====
-- The logger at concrete inputs.
use dytech.Prelude.{ℕ, ◌≡◌, ◌≢◌, ◌≤◌, refl, true, [], ◌∷◌, ◌++◌, arith}
use dytech.Text.{codes}
use dytech.Logger.{
  Logger, make_logger, push_log, should_write, write_logs, writing, Step, Reach, here, next, push,
  swap, log_msg, warning, make_log, level_to_string,
}
use dytech.Logger.Order.{Reach-file}
use dytech.Logger.Idle.{idle-spins}

-- A message is being written, and another one has come.
abbrev draining : Logger
draining = record (make_logger 5) {
  queue = codes "b" ∷ [];
  writer_queue = codes "a" ∷ [];
  writer = writing;
  pushed = codes "a" ∷ codes "b" ∷ [];
}

draining-Reach : Reach (make_logger 5) draining
unfolding make_logger push_log should_write
draining-Reach =
    next (next (next here (push _ (codes "a"))) (swap _ 4000 (codes "a") [] refl refl refl))
      (push _ (codes "b"))

Reach-file_example :
    ([] ++ write_logs [] ((codes "a" ∷ []) ++ (codes "b" ∷ []))
      ≡ write_logs [] (codes "a" ∷ codes "b" ∷ []))
    × (draining.writer ≢ writing
        → draining.queue ≡ []
        → draining.file ≡ write_logs [] draining.pushed)
unfolding make_logger
Reach-file_example = Reach-file 5 draining-Reach

idle-spins_example :
    (t : Logger) × Step (make_logger 5) t
    × Step t (make_logger 5)
    × ((later : ℕ) → 4000 ≤ later → should_write (make_logger 5) later ≡ true)
unfolding make_logger
idle-spins_example = idle-spins (make_logger 5) 4000 refl refl refl (omega arith)

-- A message in a file, behind its date.
abbrev warned : Logger
warned = log_msg (λ now. codes "01-12-2023 00:00:07") 7 (make_logger 5) warning (codes "no index")

warned_text : write_logs [] warned.queue ≡ codes "01-12-2023 00:00:07Warning:no index\n"
unfolding log_msg make_log level_to_string push_log make_logger write_logs
warned_text = refl

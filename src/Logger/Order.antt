-- ===== src/Logger/Order.antt =====
-- The file has the messages in order.
use dytech.Prelude.{
  ℕ, ◌≡◌, ◌≢◌, refl, sym, ap, ◌∙◌, List, [], ◌∷◌, ◌++◌, Bytes, append_assoc, append-nil,
}
use dytech.Logger.{
  Logger, writing, Step, Reach, push_log, write_logs, make_logger, push, notify, stop, wake, sleep,
  swap, skip, write, finish, again, here, next,
}

-- The messages that were swapped out are held only while they are written, and the file, those and
-- the queue are what was pushed.
record IsSound (s : Logger) : Type 0 where
  held : s.writer ≢ writing → s.writer_queue ≡ []
  in_order : write_logs s.file (s.writer_queue ++ s.queue) ≡ write_logs [] s.pushed

write_logs-append :
    (file : Bytes) (xs ys : List Bytes)
    → write_logs file (xs ++ ys) ≡ write_logs (write_logs file xs) ys
unfolding write_logs
write_logs-append file [] ys = refl
write_logs-append file (x ∷ xs) ys = write_logs-append (file ++ x) xs ys

Step-IsSound : {s t : Logger} → Step s t → IsSound s → IsSound t
unfolding push_log
Step-IsSound (push s log) v = record {
  held = v.held;
  in_order =
      ap (write_logs s.file) (sym (append_assoc s.writer_queue s.queue (log ∷ [])))
      ∙ write_logs-append s.file (s.writer_queue ++ s.queue) (log ∷ [])
      ∙ ap (λ z. write_logs z (log ∷ [])) v.in_order
      ∙ sym (write_logs-append [] s.pushed (log ∷ []));
}
Step-IsSound (notify s now a h) v = record { held = λ n. v.held (λ e. cc); in_order = v.in_order }
Step-IsSound (stop s) v = record { held = v.held; in_order = v.in_order }
Step-IsSound (wake s a) v = record { held = λ n. v.held (λ e. cc); in_order = v.in_order }
Step-IsSound (sleep s now a h) v = record { held = λ n. v.held (λ e. cc); in_order = v.in_order }
Step-IsSound (swap s now log logs a h q) v = record {
  held = λ n. absurd (n refl);
  in_order =
      ap (λ z. write_logs s.file (s.queue ++ z)) (v.held (λ e. cc))
      ∙ ap (write_logs s.file) (append-nil s.queue)
      ∙ ap (λ z. write_logs s.file (z ++ s.queue)) (sym (v.held (λ e. cc)))
      ∙ v.in_order;
}
Step-IsSound (skip s now a h q) v = record { held = λ n. v.held (λ e. cc); in_order = v.in_order }
Step-IsSound (write s now a) v = record {
  held = λ n. refl;
  in_order = sym (write_logs-append s.file s.writer_queue s.queue) ∙ v.in_order;
}
Step-IsSound (finish s a d) v = record { held = λ n. v.held (λ e. cc); in_order = v.in_order }
Step-IsSound (again s a d) v = record { held = λ n. v.held (λ e. cc); in_order = v.in_order }

make_logger-IsSound : (now : ℕ) → IsSound (make_logger now)
unfolding make_logger
make_logger-IsSound now = record { held = λ n. refl; in_order = refl }

Reach-IsSound : {s t : Logger} → IsSound s → Reach s t → IsSound t
Reach-IsSound v here = v
Reach-IsSound v (next r st) = Step-IsSound st (Reach-IsSound v r)

write_logs-here :
    (file : Bytes) (logs : List Bytes) → write_logs file logs ≡ file ++ write_logs [] logs
unfolding write_logs
write_logs-here file [] = sym (append-nil file)
write_logs-here file (log ∷ logs) =
    write_logs-here (file ++ log) logs
    ∙ append_assoc file log (write_logs [] logs)
    ∙ ap (λ z. file ++ z) (sym (write_logs-here log logs))

-- Whatever the threads do, the file and what is still to be written are the messages that were
-- pushed, in order: none is doubled, overtaken or lost. Where nothing is queued, and the writing
-- thread is not between its swap and the end of the writing, the file has them all.
pub Reach-file :
    (now : ℕ) {s : Logger}
    → Reach (make_logger now) s
    → (s.file ++ write_logs [] (s.writer_queue ++ s.queue) ≡ write_logs [] s.pushed)
      × (s.writer ≢ writing → s.queue ≡ [] → s.file ≡ write_logs [] s.pushed)
unfolding write_logs
Reach-file now {s} r =
    let v = Reach-IsSound (make_logger-IsSound now) r in
    (
      sym (write_logs-here s.file (s.writer_queue ++ s.queue)) ∙ v.in_order,
      λ n e. ap (write_logs s.file) (sym (ap (λ z. z ++ s.queue) (v.held n) ∙ e)) ∙ v.in_order,
    )

-- ===== src/Logging/Recorder/Tests.antt =====
-- Small runs of the recorder.
use onesilo_node.Base.{ℕ, ◌≡◌, refl, List, [], ◌∷◌, some, Text, text}
use onesilo_node.Base.Int.{pos, negsuc}
use onesilo_node.Logging.Recorder.Ring.{write_each, last, number, lines_of, backlog-write_each}
use onesilo_node.Logging.Recorder.Stream.{
  StreamEvent, sends, receives, run, step, sent, fresh, Accounts, run_fresh-Accounts,
}
use onesilo_node.Logging.Recorder.{
  LogRecord, size_or, default_recorder_capacity, new_recorder, trim_newlines, write, backlog, send,
  try_send,
}

abbrev notice : ℕ → Text
notice n = n ∷ []

abbrev writes : List Text
writes = text "a" ∷ (10 ∷ []) ∷ (98 ∷ 10 ∷ 10 ∷ []) ∷ text "c" ∷ []

-- Three lines in a ring of two; the empty line is not recorded.
backlog_two :
    backlog (write_each notice writes (new_recorder (pos 2)))
    ≡ some (record { seq = 2; line = text "b" } ∷ record { seq = 3; line = text "c" } ∷ [])
unfolding backlog write_each write new_recorder trim_newlines
backlog_two = refl

backlog-write_each_example :
    backlog (write_each notice writes (new_recorder (negsuc 4)))
    ≡ some (last (size_or default_recorder_capacity (negsuc 4)) (number 0 (lines_of writes)))
backlog-write_each_example = backlog-write_each notice (negsuc 4) writes

abbrev rec : ℕ → LogRecord
rec n = record { seq = n; line = n ∷ [] }

abbrev events : List StreamEvent
events = sends (rec 1) ∷ sends (rec 2) ∷ sends (rec 3) ∷ receives ∷ sends (rec 4) ∷ receives ∷ []

-- A buffer of one: records 2 and 3 are dropped, the notice says so, and 4 does not fit behind it.
events-run : run notice events (fresh 1) ≡ record {
  sub = record { chan = []; buffer = 1; dropped = 1 };
  seen = rec 1 ∷ record { seq = 4; line = notice 2 } ∷ [];
}
unfolding run step send try_send
events-run = refl

run_fresh-Accounts_example : Accounts notice (sent events) (run notice events (fresh 1))
run_fresh-Accounts_example = run_fresh-Accounts notice events 1

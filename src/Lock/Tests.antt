-- ===== src/Lock/Tests.antt =====
-- The theorem of the loop of the lock at concrete rounds.
use claude_usage_tracker_win.Prelude.{ℕ, some, arith, ok}
use claude_usage_tracker_win.Lock.{Seen, missing, acquire_loop}
use claude_usage_tracker_win.Lock.Loop.{Ended, acquire_loop-Ended}
use claude_usage_tracker_win.Lock.Samples.{json, print, all_alive}

-- Another thread has the lock, and the clock goes on by one with each round.
abbrev busy_rounds : ℕ → Seen ℕ
busy_rounds i = record {
  entry = some (3, 1);
  created = ok tt;
  read = missing;
  mtime_age = 0;
  pid_alive = all_alive;
  now = i;
  reread = print 4 "t1";
}

acquire_loop-Ended_example :
    Ended json "todos.json.lock" 2 7 busy_rounds 2
      (acquire_loop json "todos.json.lock" 2 3 7 busy_rounds 0)
acquire_loop-Ended_example =
    acquire_loop-Ended json "todos.json.lock" 2 7 busy_rounds 2 (omega arith)

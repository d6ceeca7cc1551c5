-- ===== src/Board/Transact/Tests.antt =====
-- A transaction on a board of two tasks.
use claude_usage_tracker_win.Prelude.{ℕ, String, ◌≡◌, refl, some, [], ◌∷◌, Result, ok}
use claude_usage_tracker_win.Board.Todo.{TodoFile}
use claude_usage_tracker_win.Board.Samples.{sample_row}
use claude_usage_tracker_win.Board.Transact.{
  Disk, LoadOutcome, transact, transact_if, mutate_and_save, save_and_answer,
  load_for_write_versioned, file_or_refusal,
}
use claude_usage_tracker_win.Board.Transact.Refusal.{Earned, transact-Earned}

abbrev board : TodoFile ℕ ℕ
board = record { version = 3; todos = sample_row "a" 1 "t1" [] ∷ []; changes = [] }

abbrev disk : Disk ℕ ℕ
disk = record { acquire = ok tt; load = (LoadOutcome.loaded board, some 3); save = λ file. ok tt }

-- All tasks go.
abbrev clear : TodoFile ℕ ℕ → Result String (TodoFile ℕ ℕ × ℕ)
clear file = ok (record file { todos = [] }, 1)

cleared : (transact "todos.json" disk clear).1 ≡ some (record board { todos = [] })
unfolding transact transact_if mutate_and_save save_and_answer load_for_write_versioned
    file_or_refusal
cleared = refl

transact-Earned_example : Earned disk clear (record board { todos = [] })
transact-Earned_example =
    transact-Earned "todos.json" disk clear (record board { todos = [] }) cleared

-- ===== src/Board/Roles/Tests.antt =====
-- The migration of a plan that is a stub.
use claude_usage_tracker_win.Prelude.{ℕ, String, ◌≤◌, false, [], ◌∷◌}
use claude_usage_tracker_win.Board.Todo.{TodoFile}
use claude_usage_tracker_win.Board.Samples.{sample_row}
use claude_usage_tracker_win.Board.Refs.{Unicode}
use claude_usage_tracker_win.Board.Roles.{migrate_plan_roles}
use claude_usage_tracker_win.Board.Roles.Kept.{AllMoved, migrate_plan_roles-AllMoved}

abbrev no_letters : Unicode
no_letters = record { is_alphanumeric = λ c. false; to_lowercase = λ cs. cs }

abbrev drawn : ℕ → String
drawn k = "fresh"

abbrev old_board : TodoFile ℕ ℕ
old_board =
    let r = sample_row {V = ℕ} "a" 1 "t1" [] in
    record { version = 1; todos = record r { plan = "see .claude/phases/1" } ∷ []; changes = [] }

migrate_plan_roles-AllMoved_example :
    AllMoved old_board.todos (migrate_plan_roles no_letters drawn "t9" old_board).todos
    × (2 ≤ (migrate_plan_roles no_letters drawn "t9" old_board).version)
migrate_plan_roles-AllMoved_example = migrate_plan_roles-AllMoved no_letters drawn "t9" old_board

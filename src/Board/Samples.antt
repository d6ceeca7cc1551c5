-- ===== src/Board/Samples.antt =====
-- Rows of src-tauri/src/board/todos.rs to apply the theorems to.
use claude_usage_tracker_win.Prelude.{ℕ, String, false, none, List, []}
use claude_usage_tracker_win.Board.Todo.{Todo}

-- A row of the id, the number, the time of creation and the edges given, all else empty.
abbrev pub sample_row : {V : Type 0} → String → ℕ → String → List String → Todo V ℕ
sample_row id number created_at depends_on = record {
  id = id;
  number = number;
  subject = "";
  description = "";
  status = "backlog";
  status_history = [];
  priority = "";
  kind = "";
  change = false;
  change_id = none;
  scheduled_for = none;
  plan = "";
  project = none;
  from = none;
  comments = [];
  links = [];
  depends_on = depends_on;
  produces = [];
  spec = [];
  spec_answers = [];
  spec_seen = [];
  verify = "";
  retry_limit = none;
  on_issue = none;
  budget_usd = none;
  parallel_limit = none;
  outcome = "";
  outcome_reason = "";
  outcome_at = "";
  handoff = "";
  handoff_at = none;
  handout_at = none;
  imported_at = none;
  created_by = "";
  created_at = created_at;
  updated_at = "";
  ext = [];
  unknown = [];
}

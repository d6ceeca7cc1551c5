-- ===== src/Sessions/Compose/Tests.antt =====
-- Two blocks of one task, the second without sums.
use claude_usage_tracker_win.Prelude.{
  ℕ, ◌+◌, pos, ◌≡◌, refl, true, false, none, some, List, [], ◌∷◌, get_elem?, arith,
}
use claude_usage_tracker_win.Board.Todo.{TodoFile}
use claude_usage_tracker_win.Board.Samples.{sample_row}
use claude_usage_tracker_win.Board.Deps.{unwrap_or}
use claude_usage_tracker_win.Sessions.{TaskBlock}
use claude_usage_tracker_win.Sessions.Compose.{BlockTotals, compose, row_of, compose-rows}

abbrev board : TodoFile ℕ ℕ
board = record { version = 3; todos = sample_row "a" 5 "t1" [] ∷ []; changes = [] }

abbrev block : TaskBlock
block = record {
  task = "a";
  session = "s";
  from = "t1";
  to = "t2";
  explicit = true;
  source = "take";
  project = none;
}

abbrev zero_totals : BlockTotals ℕ
zero_totals = record {
  cost = 0;
  total_tokens = pos 0;
  messages = pos 0;
  tool_calls = pos 0;
  tool_errors = pos 0;
}

abbrev blocks : List TaskBlock
blocks = block ∷ record block { explicit = false } ∷ []

abbrev totals : List (BlockTotals ℕ)
totals = record zero_totals { cost = 7 } ∷ []

two_rows :
    let c = compose zero_totals blocks board totals in
    (get_elem? c.blocks 1
      ≡ some (
          row_of board
            (record block { explicit = false })
            (unwrap_or (get_elem? totals 1) zero_totals)))
    × (c.explicit_blocks + c.auto_blocks ≡ 2)
two_rows =
    compose-rows zero_totals blocks board totals 1 (record block { explicit = false }) (omega arith)
      refl

-- ===== src/Board/Graph/Tests.antt =====
-- The walk of a change's run at three rows.
use claude_usage_tracker_win.Prelude.{ℕ, ◌≡◌, ◌↔◌, refl, true, List, [], ◌∷◌, contains}
use claude_usage_tracker_win.Board.Todo.{Todo}
use claude_usage_tracker_win.Board.Samples.{sample_row}
use claude_usage_tracker_win.Board.Deps.{total_deps}
use claude_usage_tracker_win.Board.Import.{local_by_id}
use claude_usage_tracker_win.Board.Graph.{
  subtree_of, on_board, collect, push_unseen, edges_of, sort_ids, insert_id,
}
use claude_usage_tracker_win.Board.Graph.Walk.{Leads, subtree_of_iff}

abbrev rows : List (Todo ℕ ℕ)
rows =
    sample_row "c" 3 "t1" ("b" ∷ "gone" ∷ [])
    ∷ sample_row "b" 2 "t2" ("a" ∷ [])
    ∷ sample_row "a" 1 "t3" []
    ∷ sample_row "d" 4 "t4" []
    ∷ []

run_of_c : subtree_of rows "c" ≡ "a" ∷ "b" ∷ "c" ∷ []
unfolding subtree_of collect push_unseen edges_of sort_ids insert_id local_by_id total_deps
run_of_c = refl

subtree_of_iff_example :
    (contains "a" (subtree_of rows "c") ≡ true) ↔ (Leads rows "c" "a" × (on_board rows "a" ≡ true))
subtree_of_iff_example = subtree_of_iff rows "c" "a"

-- ===== src/Awake/Tests.antt =====
-- The theorem on the loop at three samples.
use claude_usage_tracker_win.Prelude.{ℕ, ◌≡◌, true, false, some, List, [], ◌∷◌}
use claude_usage_tracker_win.Awake.{Activity, run}
use claude_usage_tracker_win.Awake.Calls.{last_told, wanted, Alternates, run-last_told}

abbrev busy : Activity
busy = record { enabled = true; newest_transcript = some 5; open_run_steps = [] }

abbrev rounds : List (Activity × ℕ)
rounds = (busy, 6) ∷ (busy, 7) ∷ (record busy { enabled = false }, 8) ∷ []

run-last_told_example :
    (last_told false (run false rounds) ≡ wanted false rounds) × Alternates false (run false rounds)
run-last_told_example = run-last_told rounds

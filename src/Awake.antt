-- ===== src/Awake.antt =====
-- Keeping the machine awake, src-tauri/src/kernel/keep_awake.rs: the decision, and the loop that
-- tells the system about it. A time is a number of nanoseconds.
pub mod Calls
mod Tests
use claude_usage_tracker_win.Prelude.{
  ℕ, ◌+◌, ◌-◌, ◌*◌, ◌^◌, Bool, true, false, ◌&&◌, ◌||◌, Option, none, some, List, [], ◌∷◌, ◌++◌,
  any, ltb, leb, if◌then◌else◌, not,
}

abbrev pub transcript_activity_window : ℕ
transcript_activity_window = 10 * 60 * 10 ^ 9

abbrev pub run_step_activity_window : ℕ
run_step_activity_window = 2 * 60 * 60 * 10 ^ 9

pub record Activity : Type 0 where
  pub enabled : Bool
  pub newest_transcript : Option ℕ
  pub open_run_steps : List ℕ

-- `now.duration_since(at)` is an error for a time to come, which counts as recent.
unfoldable pub is_recent : ℕ → ℕ → ℕ → Bool
is_recent at now window = if leb at now then leb (now - at) window else true

-- `is_some_and`
unfoldable pub recent_transcript : Option ℕ → ℕ → Bool
recent_transcript none now = false
recent_transcript (some mtime) now = is_recent mtime now transcript_activity_window

unfoldable pub should_keep_awake : Activity → ℕ → Bool
should_keep_awake activity now =
    activity.enabled
    && (recent_transcript activity.newest_transcript now
        || any (λ start. is_recent start now run_step_activity_window) activity.open_run_steps)

-- `required != applied`
abbrev pub differs : Bool → Bool → Bool
differs true b = not b
differs false b = b

-- The calls of `set_system_required` in the rounds of `run`, each of a sample and its time.
unfoldable pub run : Bool → List (Activity × ℕ) → List Bool
run applied [] = []
run applied ((sample, now) ∷ rounds) =
    let required = should_keep_awake sample now in
    let told = required ∷ run required rounds in
    let untold = run applied rounds in if differs required applied then told else untold

-- ===== src/Alerts/Tests.antt =====
-- The theorems of the alerts at concrete readings. The stand-in for `f64` counts hundredths.
use claude_usage_tracker_win.Prelude.{
  digits, parse_u32, contains, ℕ, ◌+◌, ◌-◌, ◌*◌, ◌/◌, ◌%◌, ◌≤◌, String, ◌≡◌, refl, true, false,
  some, none, List, [], ◌∷◌, ◌++◌, ◌==◌, ltb, leb, if◌then◌else◌, length, split, ℤ, pos, negsuc,
  arith,
}
use claude_usage_tracker_win.Alerts.Config.{
  Float, IsOrdered, AppConfig, UsageTier, UsageData, default_config,
}
use claude_usage_tracker_win.Alerts.Lenient.{
  Value, object, array, number, nil, cons, member, empty, Reading, from_value_lenient,
}
use claude_usage_tracker_win.Alerts.Settings.{IsSound, IsSettled, from_value_lenient-IsSettled}
use claude_usage_tracker_win.Alerts.Levels.{parse_hm, in_quiet_hours, in_quiet_hours_clock}
use claude_usage_tracker_win.Alerts.Engine.{
  AlertEvent, TierState, AlertEngine, fresh_engine, reset_engine, limit,
}
use claude_usage_tracker_win.Alerts.Evaluate.{Chrono, evaluate, suppressed_now}
use claude_usage_tracker_win.Alerts.Pending.{ShownOf, evaluate-pending}
use claude_usage_tracker_win.Alerts.Tiers.{observe_all, observe_all-threshold, count, is_threshold}
use claude_usage_tracker_win.Alerts.First.{evaluate-reset_engine}

literal : String → ℕ
literal s =
    if s == "25.0"
    then 2500
    else if s == "50.0"
    then 5000
    else if s == "75.0"
    then 7500
    else if s == "100.0"
    then 10000
    else if s == "1.0"
    then 100
    else if s == "30.0"
    then 3000
    else 0

cents : ℤ → ℕ
cents (pos n) = n * 100
cents (negsuc n) = 0

abbrev float : Float ℕ
float = record {
  lt = ltb;
  le = leb;
  is_nan = λ x. false;
  sub = λ x y. x - y;
  div = λ x y. x * 100 / y;
  round = λ x. x;
  of_int = cents;
  literal = literal;
}

float-IsOrdered : IsOrdered float
unfolding literal
float-IsOrdered = record {
  asym = λ x y nx ny h. ground arith;
  below_least = λ x y z nx ny nz h k. ground arith;
  le_excludes = λ x y h. ground arith;
  default_low = refl;
  default_high = refl;
}

abbrev on : AppConfig ℕ
on = record (default_config float) {
  notifications_enabled = true;
  session_thresholds = 8000 ∷ 5000 ∷ 9000 ∷ [];
}

abbrev reading : ℕ → UsageTier ℕ
reading percent = record { percent_used = percent; reset_at = none; is_limited = false }

abbrev usage : UsageData ℕ
usage = record {
  five_hour = reading 6000;
  seven_day = reading 200;
  seven_day_opus = none;
  seven_day_sonnet = none;
  scoped_weekly = [];
  extra_usage = none;
  prepaid_balance = none;
  prepaid_currency = none;
}

abbrev chrono : Chrono
chrono = record { parse_rfc3339 = λ s. none }

twenty_three : parse_hm "23:00" ≡ 1380
unfolding parse_hm split parse_u32 digits
twenty_three = refl

eight : parse_hm "08:00" ≡ 480
unfolding parse_hm split parse_u32 digits
eight = refl

in_quiet_hours_clock_example :
    in_quiet_hours "23:00" "08:00" 60
    ≡ ltb
        ((60 + (1440 - parse_hm "23:00")) % 1440)
        ((parse_hm "08:00" + (1440 - parse_hm "23:00")) % 1440)
in_quiet_hours_clock_example =
    in_quiet_hours_clock "23:00" "08:00" 60 (rw twenty_three (omega arith)) (rw eight (omega arith))
      (omega arith)

night : in_quiet_hours "23:00" "08:00" 60 ≡ true
unfolding in_quiet_hours
night = rw (twenty_three, eight) refl

abbrev seen : TierState ℕ
seen = record { fired_level = 0; fired_limit = false; prev_percent = some 200 }

observe_all-threshold_example :
    let r = observe_all float "five_hour" on seen (reading 6000 ∷ reading 8500 ∷ []) in
    (count is_threshold r.1 + 0 ≤ r.0.fired_level) × (r.0.fired_level ≤ 3)
observe_all-threshold_example =
    observe_all-threshold float "five_hour" on seen 200 (reading 6000 ∷ reading 8500 ∷ []) refl
      (unfold literal in refl) (omega arith)

abbrev waiting : AlertEngine ℕ
waiting = record fresh_engine {
  pending = limit "five_hour" ∷ limit "seven_day" ∷ [];
  primed = true;
}

evaluate-pending_example :
    let r = evaluate float chrono usage on 600 none none false waiting in
    (suppressed_now float on 600 false ≡ true → r.1 ≡ [])
    × (suppressed_now float on 600 false ≡ false
        → (r.0.pending ≡ [])
          × (first shown : List (AlertEvent ℕ)) × ShownOf waiting.pending first
          × (r.1 ≡ first ++ shown))
    × (length r.0.pending ≤ 10)
evaluate-pending_example =
    evaluate-pending float chrono usage on 600 none none false waiting refl (omega arith)

evaluate-reset_engine_example :
    let r = evaluate float chrono usage on 600 none (some 500) false (reset_engine waiting) in
    (r.1 ≡ []) × (r.0.pending ≡ []) × (r.0.primed ≡ true)
evaluate-reset_engine_example =
    evaluate-reset_engine float chrono usage on 600 none (some 500) false waiting refl

abbrev reading_of : Reading ℕ ℕ
reading_of = record {
  to_string = λ n. "";
  as_f64 = λ n. some (n * 100);
  parse_f64 = λ s. none;
  is_finite = λ x. true;
  round_u64 = λ x. x / 100;
  to_ascii_lowercase = λ s. s;
}

reading_of-IsSound : IsSound float reading_of
reading_of-IsSound = record { finite_number = λ x h. refl; zero_number = refl; one_number = refl }

abbrev json : Value ℕ
json = object (
    member "session_thresholds" (array (cons (number 80) (cons (number 50) (cons (number 90) nil))))
      empty)

from_value_lenient-IsSettled_example :
    let cfg = from_value_lenient float reading_of json in
    IsSettled float cfg.session_thresholds
    × IsSettled float cfg.weekly_thresholds
    × (contains "idle_cache_gap" cfg.runtime_insight_kinds ≡ false)
from_value_lenient-IsSettled_example =
    from_value_lenient-IsSettled float reading_of reading_of-IsSound float-IsOrdered json

abbrev frugal : AppConfig ℕ
frugal = record on { daily_budget_enabled = true; daily_budget = 500 }

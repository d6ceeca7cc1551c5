-- ===== src/Alerts/Lenient.antt =====
-- `AppConfig::from_value_lenient` of src-tauri/src/analytics/alerts/config.rs: reading the settings
-- from JSON, where a field that is missing or of another type gives its default. `N` stands for the
-- numbers of serde_json.
use claude_usage_tracker_win.Prelude.{
  ℕ, String, Bool, true, false, not, ◌&&◌, Option, none, some, List, [], ◌∷◌, ◌==◌, contains,
  if◌then◌else◌, trim, Dict, get,
}
pub use claude_usage_tracker_win.Prelude.Json.{
  Value, null, boolean, number, string, array, object, Values, nil, cons, Members, empty, member,
  members,
}
use claude_usage_tracker_win.Alerts.Config.{
  Float, AppConfig, AlertTiers, AlertTypes, default_config, default_tiers, default_types,
  default_thresholds,
}
use claude_usage_tracker_win.Alerts.Levels.{sort3}

-- `to_string` and `as_f64` of a JSON number; of the standard library, `str::parse::<f64>`,
-- `f64::is_finite`, `f64::round` with the cast to `u64`, and `str::to_ascii_lowercase`.
pub record Reading (F N : Type 0) : Type 0 where
  pub to_string : N → String
  pub as_f64 : N → Option F
  pub parse_f64 : String → Option F
  pub is_finite : F → Bool
  pub round_u64 : F → ℕ
  pub to_ascii_lowercase : String → String

module _ {N : Type 0} where
  -- `v.as_object().unwrap_or(&empty)`
  abbrev pub as_object : Value N → Dict (Value N)
  as_object (object ms) = members ms
  as_object null = []
  as_object (boolean b) = []
  as_object (number n) = []
  as_object (string s) = []
  as_object (array vs) = []

  unfoldable pub lenient_opt_string : Option (Value N) → Option String
  lenient_opt_string (some (string s)) = if s == "" then none else some s
  lenient_opt_string v = none

  unfoldable pub texts : Values N → List String
  texts nil = []
  texts (cons (string s) vs) = (if s == "idle_cache_gap" then "cold_rewrites" else s) ∷ texts vs
  texts (cons v vs) = texts vs

  unfoldable pub lenient_string_list : Option (Value N) → List String → List String
  lenient_string_list (some (array vs)) d = texts vs
  lenient_string_list v d = d

abbrev pub or_else {ℓ} : {A : Type ℓ} → Option A → A → A
or_else none d = d
or_else (some x) d = x

module _ {F : Type 0} (f : Float F) where
  unfoldable pub three_sorted : List F → List F
  three_sorted (a ∷ b ∷ c ∷ rest) = let (lo, mid, hi) = sort3 f a b c in lo ∷ mid ∷ hi ∷ []
  three_sorted xs = default_thresholds f

module _ {F N : Type 0} (f : Float F) (r : Reading F N) where
  unfoldable pub lenient_string : Option (Value N) → String → String
  lenient_string (some (string s)) d = s
  lenient_string (some (number n)) d = r.to_string n
  lenient_string v d = d

  -- `.filter(|f| f.is_finite())`
  abbrev pub finite : Option F → Option F
  finite none = none
  finite (some x) = if r.is_finite x then some x else none

  unfoldable pub lenient_f64 : Option (Value N) → Option F
  lenient_f64 (some (number n)) = finite (r.as_f64 n)
  lenient_f64 (some (string s)) = finite (r.parse_f64 (trim s))
  lenient_f64 (some (boolean b)) = some (if b then f.literal "1.0" else f.literal "0.0")
  lenient_f64 v = none

  abbrev pub natural : Option F → ℕ → ℕ
  natural none d = d
  natural (some x) d = if f.le (f.literal "0.0") x then r.round_u64 x else d

  unfoldable pub lenient_u64 : Option (Value N) → ℕ → ℕ
  lenient_u64 v d = natural (lenient_f64 v) d

  abbrev pub word : String → Bool → Bool
  word s d =
      if contains s ("true" ∷ "1" ∷ "yes" ∷ "on" ∷ [])
      then true
      else if contains s ("false" ∷ "0" ∷ "no" ∷ "off" ∷ "" ∷ [])
      then false
      else d

  -- `f != 0.0`
  abbrev pub nonzero : Option F → Bool → Bool
  nonzero none d = d
  nonzero (some x) d = not (f.le x (f.literal "0.0") && f.le (f.literal "0.0") x)

  unfoldable pub lenient_bool : Option (Value N) → Bool → Bool
  lenient_bool (some (boolean b)) d = b
  lenient_bool (some (string s)) d = word (r.to_ascii_lowercase (trim s)) d
  lenient_bool (some (number n)) d = nonzero (r.as_f64 n) d
  lenient_bool v d = d

  abbrev pub keep_some : Option F → List F → List F
  keep_some none xs = xs
  keep_some (some x) xs = x ∷ xs

  unfoldable pub numbers : Values N → List F
  numbers nil = []
  numbers (cons v vs) = keep_some (lenient_f64 (some v)) (numbers vs)

  abbrev pub array_numbers : Option (Value N) → List F
  array_numbers (some (array vs)) = numbers vs
  array_numbers v = []

  unfoldable pub lenient_thresholds : Option (Value N) → List F
  lenient_thresholds v = three_sorted f (array_numbers v)

  unfoldable pub lenient_tiers : Option (Value N) → AlertTiers
  lenient_tiers (some (object ms)) =
      let m = members ms in
      record {
        five_hour = lenient_bool (get m "five_hour") true;
        seven_day = lenient_bool (get m "seven_day") true;
        seven_day_opus = lenient_bool (get m "seven_day_opus") true;
        seven_day_sonnet = lenient_bool (get m "seven_day_sonnet") true;
        extra_usage = lenient_bool (get m "extra_usage") true;
      }
  lenient_tiers v = default_tiers

  unfoldable pub lenient_types : Option (Value N) → AlertTypes
  lenient_types (some (object ms)) =
      let m = members ms in
      record {
        threshold = lenient_bool (get m "threshold") true;
        reset = lenient_bool (get m "reset") true;
        forecast = lenient_bool (get m "forecast") true;
      }
  lenient_types v = default_types

  unfoldable pub from_value_lenient : Value N → AppConfig F
  from_value_lenient v =
      let d = default_config f in
      let g : String → Option (Value N) = get (as_object v) in
      record {
        session_key = trim (lenient_string (g "session_key") d.session_key);
        org_id = trim (lenient_string (g "org_id") d.org_id);
        refresh_interval = lenient_u64 (g "refresh_interval") d.refresh_interval;
        auto_start_session = lenient_bool (g "auto_start_session") d.auto_start_session;
        project_id = lenient_string (g "project_id") d.project_id;
        session_thresholds = lenient_thresholds (g "session_thresholds");
        weekly_thresholds = lenient_thresholds (g "weekly_thresholds");
        notifications_enabled = lenient_bool (g "notifications_enabled") d.notifications_enabled;
        forecast_minutes = or_else (lenient_f64 (g "forecast_minutes")) d.forecast_minutes;
        forecast_window_min = lenient_u64 (g "forecast_window_min") d.forecast_window_min;
        quiet_hours_enabled = lenient_bool (g "quiet_hours_enabled") d.quiet_hours_enabled;
        quiet_hours_start = lenient_string (g "quiet_hours_start") d.quiet_hours_start;
        quiet_hours_end = lenient_string (g "quiet_hours_end") d.quiet_hours_end;
        alert_tiers = lenient_tiers (g "alert_tiers");
        alert_types = lenient_types (g "alert_types");
        cc_analytics_enabled = lenient_bool (g "cc_analytics_enabled") d.cc_analytics_enabled;
        daily_budget_enabled = lenient_bool (g "daily_budget_enabled") d.daily_budget_enabled;
        daily_budget = or_else (lenient_f64 (g "daily_budget")) d.daily_budget;
        notifications_muted_until = lenient_opt_string (g "notifications_muted_until");
        todo_notifications_enabled =
            lenient_bool (g "todo_notifications_enabled") d.todo_notifications_enabled;
        service_status_enabled = lenient_bool (g "service_status_enabled") d.service_status_enabled;
        service_status_interval =
            lenient_u64 (g "service_status_interval") d.service_status_interval;
        service_status_notify = lenient_bool (g "service_status_notify") d.service_status_notify;
        memory_bloat_enabled = lenient_bool (g "memory_bloat_enabled") d.memory_bloat_enabled;
        runtime_insights_enabled =
            lenient_bool (g "runtime_insights_enabled") d.runtime_insights_enabled;
        runtime_insight_kinds =
            lenient_string_list (g "runtime_insight_kinds") d.runtime_insight_kinds;
        system_info_enabled = lenient_bool (g "system_info_enabled") d.system_info_enabled;
        goal_cost_per_hour_max = lenient_f64 (g "goal_cost_per_hour_max");
        goal_error_rate_max = lenient_f64 (g "goal_error_rate_max");
        corrections_enabled = lenient_bool (g "corrections_enabled") d.corrections_enabled;
        keep_awake_enabled = lenient_bool (g "keep_awake_enabled") d.keep_awake_enabled;
      }

-- ===== src/Alerts/Config.antt =====
-- src-tauri/src/analytics/alerts/config.rs: the settings, and the readings of usage.rs. `F` stands
-- for `f64`; what the code asks of it is the record `Float`.
use claude_usage_tracker_win.Prelude.{
  ℕ, String, Bool, true, false, Option, none, List, [], ◌∷◌, ℤ, ◌≡◌,
}

-- `literal` is the double that a literal of the source denotes, `of_int` a cast (`as f64`).
pub record Float (F : Type 0) : Type 0 where
  pub lt : F → F → Bool
  pub le : F → F → Bool
  pub is_nan : F → Bool
  pub sub : F → F → F
  pub div : F → F → F
  pub round : F → F
  pub of_int : ℤ → F
  pub literal : String → F

-- What IEEE 754 says of `<` and `<=` away from NaN.
pub record IsOrdered {F : Type 0} (f : Float F) : Type 0 where
  pub asym :
      (x y : F) → f.is_nan x ≡ false → f.is_nan y ≡ false → f.lt x y ≡ true → f.lt y x ≡ false
  pub below_least :
      (x y z : F)
      → f.is_nan x ≡ false
      → f.is_nan y ≡ false
      → f.is_nan z ≡ false
      → f.lt x y ≡ true
      → f.lt z y ≡ false
      → f.lt x z ≡ true
  pub le_excludes : (x y : F) → f.lt x y ≡ true → f.le y x ≡ false
  pub default_low : f.lt (f.literal "50.0") (f.literal "25.0") ≡ false
  pub default_high : f.lt (f.literal "75.0") (f.literal "50.0") ≡ false

pub record AlertTiers : Type 0 where
  pub five_hour : Bool
  pub seven_day : Bool
  pub seven_day_opus : Bool
  pub seven_day_sonnet : Bool
  pub extra_usage : Bool

pub record AlertTypes : Type 0 where
  pub threshold : Bool
  pub reset : Bool
  pub forecast : Bool

pub record AppConfig (F : Type 0) : Type 0 where
  pub session_key : String
  pub org_id : String
  pub refresh_interval : ℕ  -- u64
  pub auto_start_session : Bool
  pub project_id : String
  pub session_thresholds : List F
  pub weekly_thresholds : List F
  pub notifications_enabled : Bool
  pub forecast_minutes : F
  pub forecast_window_min : ℕ  -- u64
  pub quiet_hours_enabled : Bool
  pub quiet_hours_start : String
  pub quiet_hours_end : String
  pub alert_tiers : AlertTiers
  pub alert_types : AlertTypes
  pub cc_analytics_enabled : Bool
  pub daily_budget_enabled : Bool
  pub daily_budget : F
  pub notifications_muted_until : Option String
  pub todo_notifications_enabled : Bool
  pub service_status_enabled : Bool
  pub service_status_interval : ℕ  -- u64
  pub service_status_notify : Bool
  pub memory_bloat_enabled : Bool
  pub runtime_insights_enabled : Bool
  pub runtime_insight_kinds : List String
  pub system_info_enabled : Bool
  pub goal_cost_per_hour_max : Option F
  pub goal_error_rate_max : Option F
  pub corrections_enabled : Bool
  pub keep_awake_enabled : Bool

abbrev pub default_tiers : AlertTiers
default_tiers = record {
  five_hour = true;
  seven_day = true;
  seven_day_opus = true;
  seven_day_sonnet = true;
  extra_usage = true;
}

abbrev pub default_types : AlertTypes
default_types = record { threshold = true; reset = true; forecast = true }

abbrev pub default_thresholds : {F : Type 0} → Float F → List F
default_thresholds f = f.literal "25.0" ∷ f.literal "50.0" ∷ f.literal "75.0" ∷ []

-- `AppConfig::default`
abbrev pub default_config : {F : Type 0} → Float F → AppConfig F
default_config f = record {
  session_key = "";
  org_id = "";
  refresh_interval = 60;
  auto_start_session = false;
  project_id = "";
  session_thresholds = default_thresholds f;
  weekly_thresholds = default_thresholds f;
  notifications_enabled = false;
  forecast_minutes = f.literal "30.0";
  forecast_window_min = 60;
  quiet_hours_enabled = false;
  quiet_hours_start = "23:00";
  quiet_hours_end = "08:00";
  alert_tiers = default_tiers;
  alert_types = default_types;
  cc_analytics_enabled = false;
  daily_budget_enabled = false;
  daily_budget = f.literal "0.0";
  notifications_muted_until = none;
  todo_notifications_enabled = true;
  service_status_enabled = true;
  service_status_interval = 90;
  service_status_notify = true;
  memory_bloat_enabled = true;
  runtime_insights_enabled = false;
  runtime_insight_kinds = "long_session" ∷ "cold_rewrites" ∷ [];
  system_info_enabled = true;
  goal_cost_per_hour_max = none;
  goal_error_rate_max = none;
  corrections_enabled = false;
  keep_awake_enabled = false;
}

pub record UsageTier (F : Type 0) : Type 0 where
  pub percent_used : F
  pub reset_at : Option String
  pub is_limited : Bool

pub record ScopedTier (F : Type 0) : Type 0 where
  pub model : String
  pub percent_used : F
  pub reset_at : Option String
  pub is_limited : Bool

pub record ExtraUsage (F : Type 0) : Type 0 where
  pub used_credits : F
  pub monthly_limit : F
  pub utilization : F
  pub currency : String

pub record UsageData (F : Type 0) : Type 0 where
  pub five_hour : UsageTier F
  pub seven_day : UsageTier F
  pub seven_day_opus : Option (UsageTier F)
  pub seven_day_sonnet : Option (UsageTier F)
  pub scoped_weekly : List (ScopedTier F)
  pub extra_usage : Option (ExtraUsage F)
  pub prepaid_balance : Option F
  pub prepaid_currency : Option String

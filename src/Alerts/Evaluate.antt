-- ===== src/Alerts/Evaluate.antt =====
-- src-tauri/src/analytics/alerts/engine.rs: one pass of the engine, `evaluate`, with the forecast,
-- the budget and the tips about the active session. Timestamps are parsed by `Chrono`.
use claude_usage_tracker_win.Prelude.{
  ℕ, zero, suc, ◌-◌, ◌/◌, String, Bool, true, false, not, ◌&&◌, ◌||◌, Option, none, some, [], ◌∷◌,
  ◌==◌, ltb, leb, if◌then◌else◌, contains, ℤ, pos, negsuc,
}
use claude_usage_tracker_win.Alerts.Config.{Float, AppConfig, UsageTier, UsageData, ExtraUsage}
use claude_usage_tracker_win.Alerts.Levels.{in_quiet_hours}
use claude_usage_tracker_win.Alerts.Engine.{
  AlertEvent, forecast, budget, insight, text, int, number, ActiveSession, AlertEngine, Run,
  dispatch, flush_pending, eval_tier, at_limit,
}

-- `chrono::DateTime::parse_from_rfc3339`, as nanoseconds from the earliest instant.
pub record Chrono : Type 0 where
  pub parse_rfc3339 : String → Option ℕ

pub record UsageDelta (F : Type 0) : Type 0 where
  pub from_timestamp : String
  pub to_timestamp : String
  pub five_hour_delta : F
  pub seven_day_delta : F
  pub opus_delta : Option F
  pub sonnet_delta : Option F

-- `(to - from).num_milliseconds()`, towards zero
abbrev opposite : ℕ → ℤ
opposite zero = pos zero
opposite (suc n) = negsuc n

abbrev pub milliseconds : ℕ → ℕ → ℤ
milliseconds from to =
    if leb from to then pos ((to - from) / 1_000_000) else opposite ((from - to) / 1_000_000)

-- `x < n` of an `i64` and a constant that is not negative
abbrev pub int_below : ℤ → ℕ → Bool
int_below (pos m) n = ltb m n
int_below (negsuc m) n = true

abbrev pub same_text : Option String → String → Bool
same_text none s = false
same_text (some t) s = t == s

abbrev pub is_none {ℓ} : {A : Type ℓ} → Option A → Bool
is_none none = true
is_none (some x) = false

module _ {F : Type 0} (f : Float F) where
  unfoldable pub eval_long_session : ActiveSession F → Bool → Run F → Run F
  eval_long_session s suppressed (e, out) =
      if int_below s.messages 200
      then (e, out)
      else if same_text e.long_session_fired_for s.session_id
      then (e, out)
      else dispatch
          (insight "long_session" (("project", text s.project) ∷ ("messages", int s.messages) ∷ []))
          suppressed (record e { long_session_fired_for = some s.session_id }, out)

  -- A turn that read little from the cache and wrote much to it.
  abbrev pub is_cold : ActiveSession F → Bool
  is_cold s = int_below s.last_cache_read 5_000 && not (int_below s.last_cache_create 50_000)

  abbrev pub cold_rewrite : ActiveSession F → AlertEvent F
  cold_rewrite s = insight "cold_rewrites" (
      ("project", text s.project)
      ∷ ("cause", text (some (if f.lt (f.literal "15.0") s.gap_minutes then "idle" else "compact")))
      ∷ ("cost_usd", number s.rewrite_cost_usd)
      ∷ ("tokens", int s.last_cache_create)
      ∷ ("gap_minutes", number (f.round s.gap_minutes))
      ∷ [])

  unfoldable pub eval_cold_rewrite : ActiveSession F → Bool → Run F → Run F
  eval_cold_rewrite s suppressed (e, out) =
      let seen = record e { cold_last_ts = some s.last_ts } in
      if is_none e.cold_last_ts || same_text e.cold_last_ts s.last_ts
      then (seen, out)
      else if not s.has_prev
      then (seen, out)
      else if not (is_cold s)
      then (seen, out)
      else dispatch (cold_rewrite s) suppressed (seen, out)

  unfoldable pub eval_insights : AppConfig F → Bool → Run F → Run F
  eval_insights cfg suppressed (e, out) =
      if not cfg.runtime_insights_enabled then (e, out) else elim e.active_session [
        | none ↦ (e, out)
        | some s ↦
            let long =
              if contains "long_session" cfg.runtime_insight_kinds
              then eval_long_session s suppressed (e, out)
              else (e, out) in
            if contains "cold_rewrites" cfg.runtime_insight_kinds
            then eval_cold_rewrite s suppressed long
            else long
      ]

  unfoldable pub eval_budget : AppConfig F → Option F → Bool → Run F → Run F
  eval_budget cfg none suppressed (e, out) = (e, out)
  eval_budget cfg (some spent) suppressed (e, out) =
      if not cfg.daily_budget_enabled || f.le cfg.daily_budget (f.literal "0.0")
      then (e, out)
      else if f.lt spent cfg.daily_budget
      then (record e { fired_budget = false }, out)
      else if e.fired_budget
      then (e, out)
      else dispatch
          (budget spent cfg.daily_budget (if cfg.cc_analytics_enabled then "usd" else "pct"))
          suppressed (record e { fired_budget = true }, out)

  -- `eval_forecast` once both timestamps are read.
  unfoldable pub forecast_from :
      UsageTier F → AppConfig F → Bool → UsageDelta F → ℕ → ℕ → Run F → Run F
  forecast_from fh cfg suppressed delta from to (e, out) =
      let span_min = f.div (f.of_int (milliseconds from to)) (f.literal "60000.0") in
      let rate = f.div delta.five_hour_delta span_min in
      let eta = f.div (f.sub (f.literal "100.0") fh.percent_used) rate in
      if f.lt span_min (f.literal "10.0")
      then (e, out)
      else if f.lt rate (f.literal "0.05")
      then (e, out)
      else if f.le eta cfg.forecast_minutes
      then dispatch (forecast eta) suppressed (record e { fired_forecast = true }, out)
      else (e, out)

  unfoldable pub eval_forecast :
      Chrono → UsageTier F → AppConfig F → Bool → Option (UsageDelta F) → Run F → Run F
  eval_forecast chrono fh cfg suppressed none run = run
  eval_forecast chrono fh cfg suppressed (some delta) (e, out) =
      if e.fired_forecast || at_limit f fh
      then (e, out)
      else elim (chrono.parse_rfc3339 delta.from_timestamp) [
        | none ↦ (e, out)
        | some from ↦ elim (chrono.parse_rfc3339 delta.to_timestamp) [
          | none ↦ (e, out)
          | some to ↦ forecast_from fh cfg suppressed delta from to (e, out)
        ]
      ]

  abbrev pub synth_tier : Option (ExtraUsage F) → Option (UsageTier F)
  synth_tier none = none
  synth_tier (some eu) = some (record {
    percent_used = eu.utilization;
    reset_at = none;
    is_limited = f.le (f.literal "100.0") eu.utilization;
  })

  abbrev pub eval_tier_if :
      Bool → String → Option (UsageTier F) → AppConfig F → Bool → Run F → Run F
  eval_tier_if enabled key cur cfg suppressed run =
      if enabled then eval_tier f key cur cfg suppressed run else run

  unfoldable pub eval_tiers : UsageData F → AppConfig F → Bool → Run F → Run F
  eval_tiers usage cfg suppressed run =
      let on = cfg.alert_tiers in
      let run = eval_tier_if on.five_hour "five_hour" (some usage.five_hour) cfg suppressed run in
      let run = eval_tier_if on.seven_day "seven_day" (some usage.seven_day) cfg suppressed run in
      let run =
        eval_tier_if on.seven_day_opus "seven_day_opus" usage.seven_day_opus cfg suppressed run in
      let run =
        eval_tier_if on.seven_day_sonnet "seven_day_sonnet" usage.seven_day_sonnet cfg suppressed
          run in
      eval_tier_if on.extra_usage "extra_usage" (synth_tier usage.extra_usage) cfg suppressed run

  abbrev pub suppressed_now : AppConfig F → ℕ → Bool → Bool
  suppressed_now cfg now_min muted =
      (cfg.quiet_hours_enabled && in_quiet_hours cfg.quiet_hours_start cfg.quiet_hours_end now_min)
      || muted

  -- The rest of `evaluate` behind the tiers.
  unfoldable pub after_tiers :
      Chrono → UsageData F → AppConfig F → Bool → Option (UsageDelta F) → Option F → Run F → Run F
  after_tiers chrono usage cfg suppressed delta today_spent (e, out) =
      if not e.primed
      then (record e { primed = true }, out)
      else let forecasted =
          if cfg.alert_tiers.five_hour && cfg.alert_types.forecast
          then eval_forecast chrono usage.five_hour cfg suppressed delta (e, out)
          else (e, out) in
        eval_insights cfg suppressed (eval_budget cfg today_spent suppressed forecasted)

  unfoldable pub evaluate :
      Chrono
      → UsageData F
      → AppConfig F
      → ℕ
      → Option (UsageDelta F)
      → Option F
      → Bool
      → AlertEngine F
      → Run F
  evaluate chrono usage cfg now_min delta today_spent muted e =
      if not cfg.notifications_enabled
      then (e, [])
      else let suppressed = suppressed_now cfg now_min muted in
        after_tiers chrono usage cfg suppressed delta today_spent
          (eval_tiers usage cfg suppressed (flush_pending suppressed (e, [])))

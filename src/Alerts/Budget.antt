-- ===== src/Alerts/Budget.antt =====
-- The daily budget of src-tauri/src/analytics/alerts/engine.rs over the passes of a day.
use claude_usage_tracker_win.Prelude.{
  ◌≡◌, Bool, true, false, not, ◌&&◌, some, List, [], ◌∷◌, if◌then◌else◌, any,
}
use claude_usage_tracker_win.Alerts.Config.{Float, AppConfig}
use claude_usage_tracker_win.Alerts.Engine.{budget, AlertEvent, Run}
use claude_usage_tracker_win.Alerts.Evaluate.{eval_budget}

module _ {F : Type 0} (f : Float F) (cfg : AppConfig F) where
  -- The passes of a day, each with what was spent by then.
  pub spend : List F → Run F → Run F
  spend [] run = run
  spend (spent ∷ rest) run = spend rest (eval_budget f cfg (some spent) false run)

  abbrev pub over : F → Bool
  over spent = not (f.lt spent cfg.daily_budget)

  -- Once the budget is reached it stays reached.
  abbrev pub stays_over : List F → Bool
  stays_over [] = true
  stays_over (spent ∷ rest) =
      (if over spent then not (any (λ later. not (over later)) rest) else true) && stays_over rest

  abbrev alert : F → AlertEvent F
  alert spent = budget spent cfg.daily_budget (if cfg.cc_analytics_enabled then "usd" else "pct")

  -- The budget is enabled and above zero.
  record Active : Type 0 where
    enabled : cfg.daily_budget_enabled ≡ true
    positive : f.le cfg.daily_budget (f.literal "0.0") ≡ false

-- ===== src/Alerts/Engine.antt =====
-- src-tauri/src/analytics/alerts/engine.rs: the events, the state and the rules of one tier. A
-- function that changes the engine and the list of events to show takes and gives both (`Run`).
use claude_usage_tracker_win.Prelude.{
  ℕ, String, Bool, true, false, not, ◌&&◌, ◌||◌, Option, none, some, List, [], ◌∷◌, ◌++◌, ◌==◌, eqb,
  ltb, leb, if◌then◌else◌, length, Dict, get, insert, ℤ,
}
use claude_usage_tracker_win.Alerts.Config.{Float, AppConfig, UsageTier}
use claude_usage_tracker_win.Alerts.Levels.{normalize, tier_level, thresholds_for_tier}

-- The values of the object in an `Insight`, in the order of its keys.
pub data Param (F : Type 0) : Type 0 where
  text : Option String → Param F
  int : ℤ → Param F
  number : F → Param F

-- `AlertEvents` is the `Vec<AlertEvent>` of a `CatchUp`.
mutual
  pub data AlertEvent (F : Type 0) : Type 0 where
    threshold : String → F → AlertEvent F
    limit : String → AlertEvent F
    reset : String → AlertEvent F
    forecast : F → AlertEvent F
    budget : F → F → String → AlertEvent F
    catch_up : ℕ → AlertEvents F → AlertEvent F
    insight : String → List (String × Param F) → AlertEvent F

  pub data AlertEvents (F : Type 0) : Type 0 where
    nil : AlertEvents F
    cons : AlertEvent F → AlertEvents F → AlertEvents F

pub record ActiveSession (F : Type 0) : Type 0 where
  pub session_id : String
  pub project : Option String
  pub messages : ℤ  -- i64
  pub last_ts : String
  pub has_prev : Bool
  pub gap_minutes : F
  pub last_cache_read : ℤ  -- i64
  pub last_cache_create : ℤ  -- i64
  pub rewrite_cost_usd : F

-- The level is an `i8` that only ever holds 0 to 3.
pub record TierState (F : Type 0) : Type 0 where
  pub fired_level : ℕ
  pub fired_limit : Bool
  pub prev_percent : Option F

pub record AlertEngine (F : Type 0) : Type 0 where
  pub tiers : Dict (TierState F)
  pub fired_forecast : Bool
  pub fired_budget : Bool
  pub primed : Bool
  pub pending : List (AlertEvent F)
  pub active_session : Option (ActiveSession F)
  pub long_session_fired_for : Option String
  pub cold_last_ts : Option String

-- `TierState::default`, `AlertEngine::default`
abbrev pub fresh_tier : {F : Type 0} → TierState F
fresh_tier = record { fired_level = 0; fired_limit = false; prev_percent = none }

abbrev pub fresh_engine : {F : Type 0} → AlertEngine F
fresh_engine = record {
  tiers = [];
  fired_forecast = false;
  fired_budget = false;
  primed = false;
  pending = [];
  active_session = none;
  long_session_fired_for = none;
  cold_last_ts = none;
}

abbrev pub Run : Type 0 → Type 0
Run F = AlertEngine F × List (AlertEvent F)

-- What a reading of a tier makes of the tier's state.
pub record Verdict (F : Type 0) : Type 0 where
  pub state : TierState F
  pub event : Option (AlertEvent F)
  pub clear_forecast : Bool

module _ {F : Type 0} where
  -- `AlertEngine::reset`
  unfoldable pub reset_engine : AlertEngine F → AlertEngine F
  reset_engine e = record e {
    tiers = [];
    fired_forecast = false;
    fired_budget = false;
    primed = false;
    pending = [];
    active_session = none;
    long_session_fired_for = none;
    cold_last_ts = none;
  }

  unfoldable pub set_active_session : Option (ActiveSession F) → AlertEngine F → AlertEngine F
  set_active_session session e = record e { active_session = session }

  -- `if pending.len() > MAX_PENDING { pending.remove(0) }`
  abbrev pub tail : List (AlertEvent F) → List (AlertEvent F)
  tail [] = []
  tail (ev ∷ evs) = evs

  abbrev pub capped : List (AlertEvent F) → List (AlertEvent F)
  capped evs = if ltb 10 (length evs) then tail evs else evs

  unfoldable pub dispatch : AlertEvent F → Bool → Run F → Run F
  dispatch ev suppressed (e, out) =
      if suppressed
      then (record e { pending = capped (e.pending ++ ev ∷ []) }, out)
      else (e, out ++ ev ∷ [])

  abbrev pub events_of : List (AlertEvent F) → AlertEvents F
  events_of [] = nil
  events_of (ev ∷ evs) = cons ev (events_of evs)

  -- What is shown of the queue: its one event, or all of them as one.
  abbrev pub flushed : List (AlertEvent F) → List (AlertEvent F)
  flushed [] = []
  flushed (ev ∷ []) = ev ∷ []
  flushed (ev ∷ ev' ∷ evs) = catch_up (length (ev ∷ ev' ∷ evs)) (events_of (ev ∷ ev' ∷ evs)) ∷ []

  unfoldable pub flush_pending : Bool → Run F → Run F
  flush_pending suppressed (e, out) =
      if suppressed then (e, out) else (record e { pending = [] }, out ++ flushed e.pending)

  abbrev pub dispatch_some : Option (AlertEvent F) → Bool → Run F → Run F
  dispatch_some none suppressed run = run
  dispatch_some (some ev) suppressed run = dispatch ev suppressed run

  -- `norm[(level - 1) as usize]`
  abbrev pub nth_threshold : ℕ → F × F × F → F
  nth_threshold n (a, b, c) = if eqb n 1 then a else if eqb n 2 then b else c

module _ {F : Type 0} (f : Float F) where
  abbrev pub at_limit : UsageTier F → Bool
  at_limit cur = cur.is_limited || f.le (f.literal "100.0") cur.percent_used

  abbrev pub did_reset : F → UsageTier F → Bool
  did_reset prev cur = f.lt (f.literal "1.0") prev && f.le cur.percent_used (f.literal "1.0")

  -- `eval_tier` on the state of the tier, up to the dispatch.
  unfoldable pub prime : String → AppConfig F → TierState F → UsageTier F → Verdict F
  prime key cfg st cur = record {
    state = record {
      fired_level = tier_level f cur.percent_used (thresholds_for_tier f key cfg);
      fired_limit = if at_limit cur then true else st.fired_limit;
      prev_percent = some cur.percent_used;
    };
    event = none;
    clear_forecast = false;
  }

  unfoldable pub judge : String → AppConfig F → TierState F → F → UsageTier F → Verdict F
  judge key cfg st prev cur =
      let th = thresholds_for_tier f key cfg in
      let level = tier_level f cur.percent_used th in
      let seen = some cur.percent_used in
      if did_reset prev cur
      then record {
        state = record { fired_level = level; fired_limit = false; prev_percent = seen };
        event =
            if not (key == "extra_usage") && cfg.alert_types.reset then some (reset key) else none;
        clear_forecast = key == "five_hour";
      }
      else if at_limit cur && not st.fired_limit
      then record {
        state = record { fired_level = 3; fired_limit = true; prev_percent = seen };
        event = if cfg.alert_types.threshold then some (limit key) else none;
        clear_forecast = false;
      }
      else if ltb st.fired_level level
      then record {
        state = record { fired_level = level; fired_limit = st.fired_limit; prev_percent = seen };
        event =
            if cfg.alert_types.threshold && leb 1 level
            then some (threshold key (nth_threshold level (normalize f th)))
            else none;
        clear_forecast = false;
      }
      else record {
        state = record st { prev_percent = seen };
        event = none;
        clear_forecast = false;
      }

  unfoldable pub observe : String → AppConfig F → TierState F → UsageTier F → Verdict F
  observe key cfg st cur = elim st.prev_percent [
    | none ↦ prime key cfg st cur
    | some prev ↦ judge key cfg st prev cur
  ]

  -- `self.tiers.get(key).cloned().unwrap_or_default()`
  abbrev pub tier_state : AlertEngine F → String → TierState F
  tier_state e key = elim (get e.tiers key) [ none ↦ fresh_tier | some st ↦ st ]

  abbrev pub record_verdict : String → Verdict F → AlertEngine F → AlertEngine F
  record_verdict key v e = record e {
    tiers = insert e.tiers key v.state;
    fired_forecast = if v.clear_forecast then false else e.fired_forecast;
  }

  unfoldable pub eval_tier : String → Option (UsageTier F) → AppConfig F → Bool → Run F → Run F
  eval_tier key none cfg suppressed (e, out) = (e, out)
  eval_tier key (some cur) cfg suppressed (e, out) =
      let v = observe key cfg (tier_state e key) cur in
      dispatch_some v.event suppressed (record_verdict key v e, out)

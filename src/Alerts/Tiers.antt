-- ===== src/Alerts/Tiers.antt =====
-- What the readings of one tier give in the course of time (`eval_tier` of
-- src-tauri/src/analytics/alerts/engine.rs), and the first pass of an engine.
use claude_usage_tracker_win.Prelude.{
  ℕ, ◌≤◌, ◌+◌, String, ◌≡◌, ap, ◌∙◌, Bool, true, false, not, ◌&&◌, Option, none, some, List, [],
  ◌∷◌, ◌++◌, if◌then◌else◌, Option-cases, arith,
}
use claude_usage_tracker_win.Alerts.Config.{Float, IsOrdered, AppConfig, UsageTier}
use claude_usage_tracker_win.Alerts.Levels.{tier_level, thresholds_for_tier}
use claude_usage_tracker_win.Alerts.Engine.{
  AlertEvent, threshold, limit, reset, forecast, budget, catch_up, insight, TierState, Verdict,
  at_limit, did_reset, prime, judge, observe,
}

module _ {F : Type 0} where
  abbrev pub is_limit : AlertEvent F → Bool
  is_limit (limit key) = true
  is_limit (threshold key pct) = false
  is_limit (reset key) = false
  is_limit (forecast eta) = false
  is_limit (budget spent cap unit) = false
  is_limit (catch_up n evs) = false
  is_limit (insight name params) = false

  abbrev pub is_threshold : AlertEvent F → Bool
  is_threshold (threshold key pct) = true
  is_threshold (limit key) = false
  is_threshold (reset key) = false
  is_threshold (forecast eta) = false
  is_threshold (budget spent cap unit) = false
  is_threshold (catch_up n evs) = false
  is_threshold (insight name params) = false

  abbrev pub count : (AlertEvent F → Bool) → List (AlertEvent F) → ℕ
  count p [] = 0
  count p (ev ∷ evs) = (if p ev then 1 else 0) + count p evs

  abbrev pub event_list : Option (AlertEvent F) → List (AlertEvent F)
  event_list none = []
  event_list (some ev) = ev ∷ []

  count-append :
      (p : AlertEvent F → Bool) (evs evs' : List (AlertEvent F))
      → count p (evs ++ evs') ≡ count p evs + count p evs'
  count-append p [] evs' = ground arith
  count-append p (ev ∷ evs) evs' = ground (arith, count-append p evs evs')

module _ {F : Type 0} (f : Float F) (key : String) (cfg : AppConfig F) where
  -- The readings of one tier, one after the other: the state at the end and the alerts in between.
  pub observe_all : TierState F → List (UsageTier F) → TierState F × List (AlertEvent F)
  observe_all st [] = (st, [])
  observe_all st (cur ∷ rest) =
      let v = observe f key cfg st cur in
      let later = observe_all v.state rest in (later.0, event_list v.event ++ later.1)

  -- None of the readings is a reset.
  abbrev pub unbroken : F → List (UsageTier F) → Bool
  unbroken prev [] = true
  unbroken prev (cur ∷ rest) = not (did_reset f prev cur) && unbroken cur.percent_used rest

  tier_level_bound : (pct : F) (th : List F) → tier_level f pct th ≤ 3
  unfolding tier_level
  tier_level_bound pct th = ground arith

  observe_seen :
      (st : TierState F) (prev : F) (cur : UsageTier F)
      → st.prev_percent ≡ some prev
      → observe f key cfg st cur ≡ judge f key cfg st prev cur
  unfolding observe
  observe_seen st prev cur seen =
      ap (λ p. elim p [ none ↦ prime f key cfg st cur | some prev ↦ judge f key cfg st prev cur ])
        seen

  judge-prev_percent :
      (st : TierState F) (prev : F) (cur : UsageTier F)
      → (judge f key cfg st prev cur).state.prev_percent ≡ some cur.percent_used
  unfolding judge
  judge-prev_percent st prev cur = ground arith

  judge-threshold :
      (st : TierState F) (prev : F) (cur : UsageTier F)
      → did_reset f prev cur ≡ false
      → st.fired_level ≤ 3
      → let v = judge f key cfg st prev cur in
        (count is_threshold (event_list v.event) + st.fired_level ≤ v.state.fired_level)
        × (v.state.fired_level ≤ 3)
  unfolding judge
  judge-threshold st prev cur h low =
      ground (arith, tier_level_bound cur.percent_used (thresholds_for_tier f key cfg))

  -- Between two resets of a tier that has been seen before, its level never falls and each threshold
  -- alert raises it: with the level at most three there are at most three of them.
  pub observe_all-threshold :
      (st : TierState F) (prev : F) (readings : List (UsageTier F))
      → st.prev_percent ≡ some prev
      → unbroken prev readings ≡ true
      → st.fired_level ≤ 3
      → let r = observe_all st readings in
        (count is_threshold r.1 + st.fired_level ≤ r.0.fired_level) × (r.0.fired_level ≤ 3)
  unfolding observe_all
  observe_all-threshold st prev [] seen h low = (ground arith, low)
  observe_all-threshold st prev (cur ∷ rest) seen h low =
      let v = judge f key cfg st prev cur in
      simp (observe_seen st prev cur seen) (
        ground (
          arith,
          count-append is_threshold (event_list v.event) (observe_all v.state rest).1,
          judge-threshold st prev cur (ground arith) low,
          observe_all-threshold v.state cur.percent_used rest (judge-prev_percent st prev cur)
              (ground arith) (ground (arith, judge-threshold st prev cur (ground arith) low)),
        ))

module _ {F : Type 0} (f : Float F) where
  -- The reading is taken for a reset of a tier seen before.
  abbrev pub resets : TierState F → UsageTier F → Bool
  resets st cur = elim st.prev_percent [ none ↦ false | some prev ↦ did_reset f prev cur ]

  judge_steady :
      (key : String) (cfg : AppConfig F) (st : TierState F) (cur : UsageTier F)
      → did_reset f cur.percent_used cur ≡ false
      → (at_limit f cur ≡ true → st.fired_limit ≡ true)
      → tier_level f cur.percent_used (thresholds_for_tier f key cfg) ≤ st.fired_level
      → (judge f key cfg st cur.percent_used cur).event ≡ none
  unfolding judge
  judge_steady key cfg st cur same limited level = ground arith

  observe_settled :
      (key : String) (cfg : AppConfig F) (st : TierState F) (cur : UsageTier F)
      → at_limit f cur && resets st cur ≡ false
      → let v = observe f key cfg st cur in
        (v.state.prev_percent ≡ some cur.percent_used)
        × (at_limit f cur ≡ true → v.state.fired_limit ≡ true)
        × (tier_level f cur.percent_used (thresholds_for_tier f key cfg) ≤ v.state.fired_level)
  unfolding observe prime judge
  observe_settled key cfg st cur h = ground (
    arith,
    Option-cases st.prev_percent,
    tier_level_bound f key cfg cur.percent_used (thresholds_for_tier f key cfg),
  )

  -- A reading that comes again right after itself gives no alert, unless it was taken for a reset and
  -- is at the limit nevertheless.
  pub observe_again :
      IsOrdered f
      → (key : String) (cfg : AppConfig F) (st : TierState F) (cur : UsageTier F)
      → at_limit f cur && resets st cur ≡ false
      → (observe f key cfg (observe f key cfg st cur).state cur).event ≡ none
  observe_again o key cfg st cur h =
      let v = observe f key cfg st cur in
      let (seen, limited, level) = observe_settled key cfg st cur h in
      ap (λ (w : Verdict F). w.event) (observe_seen f key cfg v.state cur.percent_used cur seen)
      ∙ judge_steady key cfg v.state cur
          (ground (arith, o.le_excludes (f.literal "1.0") cur.percent_used)) limited level

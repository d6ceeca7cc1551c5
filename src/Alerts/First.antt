-- ===== src/Alerts/First.antt =====
-- The first pass of the engine of src-tauri/src/analytics/alerts/engine.rs.
use claude_usage_tracker_win.Prelude.{
  ℕ, String, ◌≡◌, refl, ap, ◌∙◌, Bool, true, false, Option, none, some, List, [], ◌∷◌, ◌==◌, All,
  Dict, get, get-insert, arith,
}
use claude_usage_tracker_win.Alerts.Config.{Float, AppConfig, UsageTier, UsageData}
use claude_usage_tracker_win.Alerts.Engine.{
  fresh_tier, AlertEvent, TierState, AlertEngine, Run, prime, observe, tier_state, eval_tier,
  reset_engine, flush_pending,
}
use claude_usage_tracker_win.Alerts.Evaluate.{
  Chrono, UsageDelta, evaluate, eval_tier_if, eval_tiers, synth_tier, suppressed_now, after_tiers,
}
use claude_usage_tracker_win.Alerts.Pending.{evaluate_enabled}

module _ {F : Type 0} (f : Float F) where
  observe_unseen :
      (key : String) (cur : UsageTier F) (cfg : AppConfig F) (e : AlertEngine F)
      → get e.tiers key ≡ none
      → observe f key cfg (tier_state f e key) cur ≡ prime f key cfg fresh_tier cur
  unfolding observe
  observe_unseen key cur cfg e new =
      ap (λ o. observe f key cfg (elim o [ none ↦ fresh_tier | some st ↦ st ]) cur) new

  -- A tier that was not seen before is noted, and nothing is shown or queued.
  eval_tier_first :
      (key : String) (cur : Option (UsageTier F)) (cfg : AppConfig F) (b : Bool) (e : AlertEngine F)
      (out : List (AlertEvent F))
      → get e.tiers key ≡ none
      → let r = eval_tier f key cur cfg b (e, out) in
        (r.1 ≡ out)
        × (r.0.pending ≡ e.pending)
        × (r.0.primed ≡ e.primed)
        × ((j : String) → (key == j) ≡ false → get r.0.tiers j ≡ get e.tiers j)
  unfolding eval_tier prime
  eval_tier_first key none cfg b e out new = (refl, refl, refl, λ j other. refl)
  eval_tier_first key (some cur) cfg b e out new =
      simp (observe_unseen key cur cfg e new)
        (refl, refl, refl, λ j other. get-insert e.tiers key j _ ∙ rw other)

  -- A pass that has shown and queued nothing, and has not noted the tiers listed.
  record Silent (keys : List String) (e : AlertEngine F) (r : Run F) : Type 0 where
    out : r.1 ≡ []
    pending : r.0.pending ≡ e.pending
    primed : r.0.primed ≡ e.primed
    unseen : All (λ key. get r.0.tiers key ≡ none) keys

  still_unseen :
      (ts ts' : Dict (TierState F)) (key : String)
      → ((j : String) → (key == j) ≡ false → get ts' j ≡ get ts j)
      → (keys : List String) → All (λ j. (key == j) ≡ false) keys
      → All (λ j. get ts j ≡ none) keys
      → All (λ j. get ts' j ≡ none) keys
  still_unseen ts ts' key kept [] other unseen = tt
  still_unseen ts ts' key kept (j ∷ keys) other unseen =
      (kept j other.0 ∙ unseen.0, still_unseen ts ts' key kept keys other.1 unseen.1)

  Silent-eval_tier_if :
      (on : Bool) (key : String) (keys : List String) (cur : Option (UsageTier F))
      (cfg : AppConfig F) (b : Bool) (e : AlertEngine F) (r : Run F)
      → All (λ j. (key == j) ≡ false) keys
      → Silent (key ∷ keys) e r
      → Silent keys e (eval_tier_if f on key cur cfg b r)
  Silent-eval_tier_if false key keys cur cfg b e r other s = record {
    out = s.out;
    pending = s.pending;
    primed = s.primed;
    unseen = s.unseen.1;
  }
  Silent-eval_tier_if true key keys cur cfg b e r other s =
      let (shown, queue, primed, kept) = eval_tier_first key cur cfg b r.0 r.1 s.unseen.0 in
      record {
        out = shown ∙ s.out;
        pending = queue ∙ s.pending;
        primed = primed ∙ s.primed;
        unseen = still_unseen _ _ key kept keys other s.unseen.1;
      }

  Silent-eval_tiers :
      (usage : UsageData F) (cfg : AppConfig F) (b : Bool) (e : AlertEngine F)
      → e.tiers ≡ []
      → Silent [] e (eval_tiers f usage cfg b (e, []))
  unfolding eval_tiers get
  Silent-eval_tiers usage cfg b e none_yet =
      let on = cfg.alert_tiers in
      let unknown : (key : String) → get e.tiers key ≡ none =
        λ key. ap (λ ts. get ts key) none_yet in
      let start : Silent
          ("five_hour" ∷ "seven_day" ∷ "seven_day_opus" ∷ "seven_day_sonnet" ∷ "extra_usage" ∷ []) e
          (e, []) =
        record {
          out = refl;
          pending = refl;
          primed = refl;
          unseen = (
            unknown "five_hour",
            (
              unknown "seven_day",
              (unknown "seven_day_opus", (unknown "seven_day_sonnet", (unknown "extra_usage", tt))),
            ),
          );
        } in
      Silent-eval_tier_if on.extra_usage "extra_usage" [] (synth_tier f usage.extra_usage) cfg b e _
        tt
        (Silent-eval_tier_if on.seven_day_sonnet "seven_day_sonnet" _ usage.seven_day_sonnet cfg b e
          _ (refl, tt)
          (Silent-eval_tier_if on.seven_day_opus "seven_day_opus" _ usage.seven_day_opus cfg b e _
            (refl, (refl, tt))
            (Silent-eval_tier_if on.seven_day "seven_day" _ (some usage.seven_day) cfg b e _
              (refl, (refl, (refl, tt)))
              (Silent-eval_tier_if on.five_hour "five_hour" _ (some usage.five_hour) cfg b e _
                (refl, (refl, (refl, (refl, tt)))) start))))

  flush_empty :
      (b : Bool) (e : AlertEngine F) → flush_pending b (reset_engine e, []) ≡ (reset_engine e, [])
  unfolding flush_pending reset_engine
  flush_empty true e = refl
  flush_empty false e = refl

  after_unprimed :
      (chrono : Chrono) (usage : UsageData F) (cfg : AppConfig F) (b : Bool)
      (delta : Option (UsageDelta F)) (spent : Option F) (r : Run F)
      → r.0.primed ≡ false
      → after_tiers f chrono usage cfg b delta spent r ≡ (record r.0 { primed = true }, r.1)
  unfolding after_tiers
  after_unprimed chrono usage cfg b delta spent r new = ground (arith, new)

  -- The first pass after a reset, with notifications on, shows nothing and queues nothing, whatever
  -- the readings, the budget and the session are.
  pub evaluate-reset_engine :
      (chrono : Chrono) (usage : UsageData F) (cfg : AppConfig F) (now_min : ℕ)
      (delta : Option (UsageDelta F)) (spent : Option F) (muted : Bool) (e : AlertEngine F)
      → cfg.notifications_enabled ≡ true
      → let r = evaluate f chrono usage cfg now_min delta spent muted (reset_engine e) in
        (r.1 ≡ []) × (r.0.pending ≡ []) × (r.0.primed ≡ true)
  unfolding reset_engine
  evaluate-reset_engine chrono usage cfg now_min delta spent muted e on =
      simp (evaluate_enabled f chrono usage cfg now_min delta spent muted (reset_engine e) on) (
        let b = suppressed_now f cfg now_min muted in
        let s = Silent-eval_tiers usage cfg b (reset_engine e) (unfold reset_engine in refl) in
        let r = eval_tiers f usage cfg b (reset_engine e, []) in
        simp (flush_empty b e) (
          simp
            (after_unprimed chrono usage cfg b delta spent r
              (s.primed ∙ unfold reset_engine in refl))
            (s.out, s.pending ∙ unfold reset_engine in refl, refl)))

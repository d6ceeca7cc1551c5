-- ===== src/Alerts/Pending.antt =====
-- The queue of src-tauri/src/analytics/alerts/engine.rs: what one pass holds back and what it shows.
use claude_usage_tracker_win.Prelude.{
  ℕ, ◌≤◌, String, ◌≡◌, refl, ap, sym, ◌∙◌, inl, inr, Bool, true, false, not, ◌&&◌, ◌||◌, Option,
  none, some, List, [], ◌∷◌, ◌++◌, if◌then◌else◌, length, length-append, contains, Option-cases,
  arith,
}
use mathlib.Core.List.{append-nil, append_assoc}
use claude_usage_tracker_win.Alerts.Config.{Float, AppConfig, UsageTier, UsageData}
use claude_usage_tracker_win.Alerts.Engine.{
  AlertEvent, AlertEvents, nil, cons, events_of, forecast, ActiveSession, AlertEngine, Run, capped,
  dispatch, flushed, flush_pending, observe, tier_state, record_verdict, eval_tier, at_limit,
}
use claude_usage_tracker_win.Alerts.Evaluate.{
  Chrono, UsageDelta, eval_long_session, eval_cold_rewrite, eval_insights, eval_budget,
  forecast_from, eval_forecast, eval_tier_if, eval_tiers, synth_tier, suppressed_now, after_tiers,
  evaluate, same_text, is_none, is_cold, cold_rewrite, milliseconds,
}

-- From one run to the next: while suppressed nothing is shown, otherwise nothing is queued; what was
-- shown stays; the queue stays within its bound.
pub record Keeps {F : Type 0} (suppressed : Bool) (r r' : Run F) : Type 0 where
  pub shown : List (AlertEvent F)
  pub more : r'.1 ≡ r.1 ++ shown
  pub silent : suppressed ≡ true → shown ≡ []
  pub held : suppressed ≡ false → r'.0.pending ≡ r.0.pending
  pub bounded : length r.0.pending ≤ 10 → length r'.0.pending ≤ 10

-- The events of a `CatchUp` as a list.
abbrev items_of : {F : Type 0} → AlertEvents F → List (AlertEvent F)
items_of nil = []
items_of (cons ev evs) = ev ∷ items_of evs

-- What is shown of a queue: nothing of an empty one, its event of one with one, and otherwise one
-- event with the number of the events and all of them in order.
pub data ShownOf {F : Type 0} : List (AlertEvent F) → List (AlertEvent F) → Type 0 where
  nothing : ShownOf [] []
  alone : (ev : AlertEvent F) → ShownOf (ev ∷ []) (ev ∷ [])
  together :
      (queue : List (AlertEvent F)) (items : AlertEvents F)
      → 2 ≤ length queue
      → items_of items ≡ queue
      → ShownOf queue (AlertEvent.catch_up (length queue) items ∷ [])

module _ {F : Type 0} where
  items_of-events_of : (queue : List (AlertEvent F)) → items_of (events_of queue) ≡ queue
  items_of-events_of [] = refl
  items_of-events_of (ev ∷ evs) = ap (λ (l : List (AlertEvent F)). ev ∷ l) (items_of-events_of evs)

  ShownOf-flushed : (queue : List (AlertEvent F)) → ShownOf queue (flushed queue)
  ShownOf-flushed [] = nothing
  ShownOf-flushed (ev ∷ []) = alone ev
  ShownOf-flushed (ev ∷ ev' ∷ evs) =
      together (ev ∷ ev' ∷ evs) (events_of (ev ∷ ev' ∷ evs)) (omega arith)
        (items_of-events_of (ev ∷ ev' ∷ evs))

  length-capped :
      (evs : List (AlertEvent F)) (ev : AlertEvent F)
      → length evs ≤ 10
      → length (capped (evs ++ ev ∷ [])) ≤ 10
  length-capped [] ev h = ground arith
  length-capped (e ∷ evs) ev h = ground (arith, length-append evs (ev ∷ []))

  Keeps-same :
      (b : Bool) (e e' : AlertEngine F) (out : List (AlertEvent F))
      → e'.pending ≡ e.pending
      → Keeps b (e, out) (e', out)
  Keeps-same b e e' out same = record {
    shown = [];
    more = sym (append-nil out);
    silent = λ h. refl;
    held = λ h. same;
    bounded = λ h. rw same h;
  }

  Keeps-trans : (b : Bool) (r s t : Run F) → Keeps b r s → Keeps b s t → Keeps b r t
  Keeps-trans b r s t k l = record {
    shown = k.shown ++ l.shown;
    more = rw (l.more, k.more) (append_assoc r.1 k.shown l.shown);
    silent = λ h. rw (k.silent h, l.silent h);
    held = λ h. l.held h ∙ k.held h;
    bounded = λ h. l.bounded (k.bounded h);
  }

  Keeps-dispatch :
      (b : Bool) (ev : AlertEvent F) (e e' : AlertEngine F) (out : List (AlertEvent F))
      → e'.pending ≡ e.pending
      → Keeps b (e, out) (dispatch ev b (e', out))
  unfolding dispatch
  Keeps-dispatch true ev e e' out same = record {
    shown = [];
    more = sym (append-nil out);
    silent = λ h. refl;
    held = λ h. absurd (ground arith);
    bounded = λ h. rw same (length-capped e.pending ev h);
  }
  Keeps-dispatch false ev e e' out same = record {
    shown = ev ∷ [];
    more = refl;
    silent = λ h. absurd (ground arith);
    held = λ h. same;
    bounded = λ h. rw same h;
  }

  -- A step that shows an event or not, on an engine with the same queue.
  Keeps-choice :
      (b c : Bool) (ev : AlertEvent F) (e e' e'' : AlertEngine F) (out : List (AlertEvent F))
      → e'.pending ≡ e.pending
      → e''.pending ≡ e.pending
      → Keeps b (e, out) (if c then (e', out) else dispatch ev b (e'', out))
  Keeps-choice b true ev e e' e'' out same same' = Keeps-same b e e' out same
  Keeps-choice b false ev e e' e'' out same same' = Keeps-dispatch b ev e e'' out same'

  -- Either of two runs that both keep it.
  Keeps-if :
      (b c : Bool) (r s t : Run F) → Keeps b r s → Keeps b r t → Keeps b r (if c then s else t)
  Keeps-if b true r s t k l = k
  Keeps-if b false r s t k l = l

  Keeps-elim :
      {A : Type 0} (b : Bool) (o : Option A) (r s : Run F) (k : A → Run F)
      → Keeps b r s
      → ((a : A) → Keeps b r (k a))
      → Keeps b r (elim o [ none ↦ s | some a ↦ k a ])
  Keeps-elim b none r s k h g = h
  Keeps-elim b (some a) r s k h g = g a

module _ {F : Type 0} (f : Float F) where
  Keeps-eval_tier :
      (key : String) (cur : Option (UsageTier F)) (cfg : AppConfig F) (b : Bool) (r : Run F)
      → Keeps b r (eval_tier f key cur cfg b r)
  unfolding eval_tier
  Keeps-eval_tier key none cfg b (e, out) = Keeps-same b e e out refl
  Keeps-eval_tier key (some cur) cfg b (e, out) =
      let v = observe f key cfg (tier_state f e key) cur in
      elim (Option-cases v.event) [
        | inl quiet ↦ rw quiet (Keeps-same b e (record_verdict f key v e) out refl)
        | inr (ev, loud) ↦ rw loud (Keeps-dispatch b ev e (record_verdict f key v e) out refl)
      ]

  Keeps-eval_tier_if :
      (on : Bool) (key : String) (cur : Option (UsageTier F)) (cfg : AppConfig F) (b : Bool)
      (r : Run F)
      → Keeps b r (eval_tier_if f on key cur cfg b r)
  Keeps-eval_tier_if true key cur cfg b r = Keeps-eval_tier key cur cfg b r
  Keeps-eval_tier_if false key cur cfg b (e, out) = Keeps-same b e e out refl

  Keeps-eval_tiers :
      (usage : UsageData F) (cfg : AppConfig F) (b : Bool) (r : Run F)
      → Keeps b r (eval_tiers f usage cfg b r)
  unfolding eval_tiers
  Keeps-eval_tiers usage cfg b r =
      Keeps-trans b _ _ _
        (Keeps-trans b _ _ _
          (Keeps-trans b _ _ _
            (Keeps-trans b _ _ _
              (Keeps-eval_tier_if cfg.alert_tiers.five_hour "five_hour" (some usage.five_hour) cfg b
                r)
              (Keeps-eval_tier_if cfg.alert_tiers.seven_day "seven_day" (some usage.seven_day) cfg b
                _))
            (Keeps-eval_tier_if cfg.alert_tiers.seven_day_opus "seven_day_opus" usage.seven_day_opus
              cfg b _))
          (Keeps-eval_tier_if cfg.alert_tiers.seven_day_sonnet "seven_day_sonnet"
            usage.seven_day_sonnet cfg b _))
        (Keeps-eval_tier_if cfg.alert_tiers.extra_usage "extra_usage"
          (synth_tier f usage.extra_usage) cfg b _)

  Keeps-eval_budget :
      (cfg : AppConfig F) (spent : Option F) (b : Bool) (r : Run F)
      → Keeps b r (eval_budget f cfg spent b r)
  unfolding eval_budget
  Keeps-eval_budget cfg none b (e, out) = Keeps-same b e e out refl
  Keeps-eval_budget cfg (some spent) b (e, out) = Keeps-if b _ _ _ _ (Keeps-same b e e out refl) (
      Keeps-if b _ _ _ _ (Keeps-same b e (record e { fired_budget = false }) out refl)
        (Keeps-choice b e.fired_budget _ e e (record e { fired_budget = true }) out refl refl))

  Keeps-eval_long_session :
      (s : ActiveSession F) (b : Bool) (r : Run F) → Keeps b r (eval_long_session f s b r)
  unfolding eval_long_session
  Keeps-eval_long_session s b (e, out) = Keeps-if b _ _ _ _ (Keeps-same b e e out refl) (
      Keeps-choice b _ _ e e (record e { long_session_fired_for = some s.session_id }) out refl
        refl)

  Keeps-eval_cold_rewrite :
      (s : ActiveSession F) (b : Bool) (r : Run F) → Keeps b r (eval_cold_rewrite f s b r)
  unfolding eval_cold_rewrite
  Keeps-eval_cold_rewrite s b (e, out) =
      let seen = record e { cold_last_ts = some s.last_ts } in
      let quiet = Keeps-same b e seen out refl in
      Keeps-if b (is_none e.cold_last_ts || same_text e.cold_last_ts s.last_ts) _ _ _ quiet (
        Keeps-if b (not s.has_prev) _ _ _ quiet
          (Keeps-choice b (not (is_cold f s)) (cold_rewrite f s) e seen seen out refl refl))

  Keeps-eval_insights :
      (cfg : AppConfig F) (b : Bool) (r : Run F) → Keeps b r (eval_insights f cfg b r)
  unfolding eval_insights
  Keeps-eval_insights cfg b (e, out) =
      let quiet = Keeps-same b e e out refl in
      Keeps-if b (not cfg.runtime_insights_enabled) _ _ _ quiet (
        Keeps-elim b e.active_session _ _ _ quiet λ s.
          let long =
            Keeps-if b (contains "long_session" cfg.runtime_insight_kinds) _ _ _
              (Keeps-eval_long_session s b (e, out)) quiet in
          Keeps-if b (contains "cold_rewrites" cfg.runtime_insight_kinds) _ _ _
            (Keeps-trans b _ _ _ long (Keeps-eval_cold_rewrite s b _)) long)

  Keeps-forecast_from :
      (fh : UsageTier F) (cfg : AppConfig F) (b : Bool) (delta : UsageDelta F) (from to : ℕ)
      (r : Run F)
      → Keeps b r (forecast_from f fh cfg b delta from to r)
  unfolding forecast_from
  Keeps-forecast_from fh cfg b delta from to (e, out) =
      let span_min = f.div (f.of_int (milliseconds from to)) (f.literal "60000.0") in
      let rate = f.div delta.five_hour_delta span_min in
      let eta = f.div (f.sub (f.literal "100.0") fh.percent_used) rate in
      let quiet = Keeps-same b e e out refl in
      Keeps-if b (f.lt span_min (f.literal "10.0")) _ _ _ quiet (
        Keeps-if b (f.lt rate (f.literal "0.05")) _ _ _ quiet (
          Keeps-if b (f.le eta cfg.forecast_minutes) _ _ _
            (Keeps-dispatch b (forecast eta) e (record e { fired_forecast = true }) out refl)
            quiet))

  Keeps-eval_forecast :
      (chrono : Chrono) (fh : UsageTier F) (cfg : AppConfig F) (b : Bool)
      (delta : Option (UsageDelta F)) (r : Run F)
      → Keeps b r (eval_forecast f chrono fh cfg b delta r)
  unfolding eval_forecast
  Keeps-eval_forecast chrono fh cfg b none (e, out) = Keeps-same b e e out refl
  Keeps-eval_forecast chrono fh cfg b (some delta) (e, out) =
      let quiet = Keeps-same b e e out refl in
      Keeps-if b (e.fired_forecast || at_limit f fh) _ _ _ quiet (
        Keeps-elim b (chrono.parse_rfc3339 delta.from_timestamp) _ _ _ quiet λ from.
          Keeps-elim b (chrono.parse_rfc3339 delta.to_timestamp) _ _ _ quiet
            λ to. Keeps-forecast_from fh cfg b delta from to (e, out))

  Keeps-after_tiers :
      (chrono : Chrono) (usage : UsageData F) (cfg : AppConfig F) (b : Bool)
      (delta : Option (UsageDelta F)) (spent : Option F) (r : Run F)
      → Keeps b r (after_tiers f chrono usage cfg b delta spent r)
  unfolding after_tiers
  Keeps-after_tiers chrono usage cfg b delta spent (e, out) =
      Keeps-if b _ _ _ _ (Keeps-same b e (record e { primed = true }) out refl) (
        Keeps-trans b _ _ _
          (Keeps-trans b _ _ _
            (Keeps-if b (cfg.alert_tiers.five_hour && cfg.alert_types.forecast) _ _ _
              (Keeps-eval_forecast chrono usage.five_hour cfg b delta (e, out))
              (Keeps-same b e e out refl))
            (Keeps-eval_budget cfg spent b _))
          (Keeps-eval_insights cfg b _))

  -- The part of `evaluate` behind the flush.
  evaluated :
      (chrono : Chrono) (usage : UsageData F) (cfg : AppConfig F) (b : Bool)
      (delta : Option (UsageDelta F)) (spent : Option F) (r : Run F)
      → Keeps b r (after_tiers f chrono usage cfg b delta spent (eval_tiers f usage cfg b r))
  evaluated chrono usage cfg b delta spent r =
      Keeps-trans b _ _ _ (Keeps-eval_tiers usage cfg b r)
        (Keeps-after_tiers chrono usage cfg b delta spent _)

  behind_flush :
      (chrono : Chrono) (usage : UsageData F) (cfg : AppConfig F) (b : Bool)
      (delta : Option (UsageDelta F)) (spent : Option F) (e : AlertEngine F)
      → length e.pending ≤ 10
      → let r =
          after_tiers f chrono usage cfg b delta spent
            (eval_tiers f usage cfg b (flush_pending b (e, []))) in
        (b ≡ true → r.1 ≡ [])
        × (b ≡ false
            → (r.0.pending ≡ [])
              × (first shown : List (AlertEvent F)) × ShownOf e.pending first
              × (r.1 ≡ first ++ shown))
        × (length r.0.pending ≤ 10)
  unfolding flush_pending
  behind_flush chrono usage cfg true delta spent e h =
      let k = evaluated chrono usage cfg true delta spent (e, []) in
      (λ u. k.more ∙ k.silent refl, λ no. absurd (ground arith), k.bounded h)
  behind_flush chrono usage cfg false delta spent e h =
      let k =
        evaluated chrono usage cfg false delta spent
          (record e { pending = [] }, flushed e.pending) in
      (
        λ no. absurd (ground arith),
        λ u. (k.held refl, flushed e.pending, k.shown, ShownOf-flushed e.pending, k.more),
        k.bounded (ground arith),
      )

  pub evaluate_enabled :
      (chrono : Chrono) (usage : UsageData F) (cfg : AppConfig F) (now_min : ℕ)
      (delta : Option (UsageDelta F)) (spent : Option F) (muted : Bool) (e : AlertEngine F)
      → cfg.notifications_enabled ≡ true
      → evaluate f chrono usage cfg now_min delta spent muted e ≡ (
          let b = suppressed_now f cfg now_min muted in
          after_tiers f chrono usage cfg b delta spent
            (eval_tiers f usage cfg b (flush_pending b (e, []))))
  unfolding evaluate
  evaluate_enabled chrono usage cfg now_min delta spent muted e on =
      let b = suppressed_now f cfg now_min muted in
      ap
        (λ c.
          if not c
          then (e, [])
          else after_tiers f chrono usage cfg b delta spent
              (eval_tiers f usage cfg b (flush_pending b (e, []))))
        on

  -- With notifications on, a pass in the quiet hours or under a snooze shows nothing; any other pass
  -- shows the queue first and leaves it empty: nothing of an empty queue, its event if it has one,
  -- and otherwise one event with the number of the events and all of them in order. The queue never gets longer than ten.
  pub evaluate-pending :
      (chrono : Chrono) (usage : UsageData F) (cfg : AppConfig F) (now_min : ℕ)
      (delta : Option (UsageDelta F)) (spent : Option F) (muted : Bool) (e : AlertEngine F)
      → cfg.notifications_enabled ≡ true
      → length e.pending ≤ 10
      → let r = evaluate f chrono usage cfg now_min delta spent muted e in
        (suppressed_now f cfg now_min muted ≡ true → r.1 ≡ [])
        × (suppressed_now f cfg now_min muted ≡ false
            → (r.0.pending ≡ [])
              × (first shown : List (AlertEvent F)) × ShownOf e.pending first
              × (r.1 ≡ first ++ shown))
        × (length r.0.pending ≤ 10)
  evaluate-pending chrono usage cfg now_min delta spent muted e on h =
      simp (evaluate_enabled chrono usage cfg now_min delta spent muted e on)
        (behind_flush chrono usage cfg (suppressed_now f cfg now_min muted) delta spent e h)

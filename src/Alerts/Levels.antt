-- ===== src/Alerts/Levels.antt =====
-- src-tauri/src/analytics/alerts/util.rs: the colour level of a reading and the quiet hours.
use claude_usage_tracker_win.Prelude.{
  parse_u32, ℕ, ◌+◌, ◌-◌, ◌*◌, ◌%◌, ◌<◌, String, ◌≡◌, Bool, true, false, ◌&&◌, ◌||◌, Option, none,
  some, List, [], ◌∷◌, ◌==◌, eqb, ltb, leb, u32, if◌then◌else◌, codes, split, All, arith,
}
use claude_usage_tracker_win.Alerts.Config.{Float, IsOrdered, AppConfig, default_thresholds}

module _ {F : Type 0} (f : Float F) where
  -- The stable sort of three, by a comparison that takes what is not ordered for equal.
  abbrev pub sort3 : F → F → F → F × F × F
  sort3 a b c =
      let (lo, hi) : F × F = if f.lt c b then (c, b) else (b, c) in
      if f.lt lo a then (if f.lt hi a then (lo, hi, a) else (lo, a, hi)) else (a, lo, hi)

  unfoldable pub normalize : List F → F × F × F
  normalize (a ∷ b ∷ c ∷ rest) = sort3 a b c
  normalize th = (f.literal "25.0", f.literal "50.0", f.literal "75.0")

  unfoldable pub tier_level : F → List F → ℕ
  tier_level pct th =
      let (a, b, c) = normalize th in
      if f.lt pct a then 0 else if f.lt pct b then 1 else if f.lt pct c then 2 else 3

  abbrev pub thresholds_for_tier : String → AppConfig F → List F
  thresholds_for_tier key cfg =
      if key == "five_hour" then cfg.session_thresholds else cfg.weekly_thresholds

-- `and_then(|x| x.parse().ok()).unwrap_or(0)`
abbrev number_or_zero : Option ℕ → ℕ
number_or_zero none = 0
number_or_zero (some n) = n

abbrev hour_and_minute : List String → ℕ
hour_and_minute [] = 0
hour_and_minute (h ∷ []) = u32 (number_or_zero (parse_u32 (codes h)) * 60)
hour_and_minute (h ∷ m ∷ rest) =
    u32 (number_or_zero (parse_u32 (codes h)) * 60 + number_or_zero (parse_u32 (codes m)))

unfoldable pub parse_hm : String → ℕ
parse_hm s = hour_and_minute (split b':' s)

unfoldable pub in_quiet_hours : String → String → ℕ → Bool
in_quiet_hours start end now_min =
    let s = parse_hm start in
    let e = parse_hm end in
    if eqb s e
    then false
    else if ltb s e
    then leb s now_min && ltb now_min e
    else leb s now_min || ltb now_min e

-- Of times of day, one is in the quiet hours exactly when walking forward around the clock from
-- their start reaches it before it reaches their end.
pub in_quiet_hours_clock :
    (start end : String) (now_min : ℕ)
    → parse_hm start < 1440
    → parse_hm end < 1440
    → now_min < 1440
    → in_quiet_hours start end now_min
      ≡ ltb
          ((now_min + (1440 - parse_hm start)) % 1440)
          ((parse_hm end + (1440 - parse_hm start)) % 1440)
unfolding in_quiet_hours
in_quiet_hours_clock start end now_min hs he hn = ground arith

module _ {F : Type 0} (f : Float F) where
  -- How many of the thresholds the reading is not below.
  abbrev pub reached : F → List F → ℕ
  reached pct [] = 0
  reached pct (t ∷ th) = (if f.lt pct t then 0 else 1) + reached pct th

  -- The first three of the thresholds, or the default ones where there are fewer.
  abbrev pub effective : List F → List F
  effective (a ∷ b ∷ c ∷ rest) = a ∷ b ∷ c ∷ []
  effective th = default_thresholds f

  Numbers : List F → Type 0
  Numbers th = All (λ t. f.is_nan t ≡ false) th

  -- Of three ascending thresholds, the test of each in turn counts those that are reached.
  ascending :
      (pct a b c : F)
      → (f.lt pct a ≡ true → f.lt pct b ≡ true)
      → (f.lt pct b ≡ true → f.lt pct c ≡ true)
      → (if f.lt pct a then 0 else if f.lt pct b then 1 else if f.lt pct c then 2 else 3)
        ≡ reached pct (a ∷ b ∷ c ∷ [])
  ascending pct a b c h k = ground arith

  default_level :
      IsOrdered f
      → (pct : F) → All (λ t. f.is_nan t ≡ false) (pct ∷ default_thresholds f)
      → (if f.lt pct (f.literal "25.0")
          then 0
          else if f.lt pct (f.literal "50.0")
          then 1
          else if f.lt pct (f.literal "75.0")
          then 2
          else 3)
        ≡ reached pct (default_thresholds f)
  default_level o pct (p, (low, (mid, (high, u)))) =
      ascending pct (f.literal "25.0") (f.literal "50.0") (f.literal "75.0")
        (λ l. o.below_least pct _ _ p low mid l o.default_low)
        (λ l. o.below_least pct _ _ p mid high l o.default_high)

  -- The colour level of a reading is the number of thresholds that it has reached, whatever their
  -- order, away from NaN.
  pub tier_level-reached :
      IsOrdered f
      → (pct : F) (th : List F) → All (λ t. f.is_nan t ≡ false) (pct ∷ effective th)
      → tier_level f pct th ≡ reached pct (effective th)
  unfolding tier_level normalize
  tier_level-reached o pct [] h = default_level o pct h
  tier_level-reached o pct (a ∷ []) h = default_level o pct h
  tier_level-reached o pct (a ∷ b ∷ []) h = default_level o pct h
  tier_level-reached o pct (a ∷ b ∷ c ∷ rest) (p, (na, (nb, (nc, u)))) = ground (
    arith,
    o.asym b c nb nc,
    o.asym c b nc nb,
    o.asym a b na nb,
    o.asym b a nb na,
    o.asym a c na nc,
    o.asym c a nc na,
    o.below_least pct a b p na nb,
    o.below_least pct a c p na nc,
    o.below_least pct b a p nb na,
    o.below_least pct b c p nb nc,
    o.below_least pct c a p nc na,
    o.below_least pct c b p nc nb,
  )

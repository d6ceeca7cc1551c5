-- ===== src/Alerts/Settings.antt =====
-- What holds of settings read by src-tauri/src/analytics/alerts/config.rs, whatever the JSON was.
use claude_usage_tracker_win.Prelude.{
  ◌≡◌, refl, String, true, false, inl, inr, Option, none, some, List, [], ◌∷◌, ◌==◌, contains, get,
  Bool-cases, Option-cases, All, trim, arith,
}
use claude_usage_tracker_win.Alerts.Config.{Float, IsOrdered}
use claude_usage_tracker_win.Alerts.Levels.{sort3, normalize}
use claude_usage_tracker_win.Alerts.Lenient.{
  Value, Values, string, boolean, number, array, object, null, nil, cons, Reading, as_object,
  finite, lenient_f64, numbers, array_numbers, three_sorted, lenient_thresholds, texts,
  lenient_string_list, from_value_lenient,
}

-- A finite number, and the two that stand for a Boolean, are not NaN.
pub record IsSound {F N : Type 0} (f : Float F) (r : Reading F N) : Type 0 where
  pub finite_number : (x : F) → r.is_finite x ≡ true → f.is_nan x ≡ false
  pub zero_number : f.is_nan (f.literal "0.0") ≡ false
  pub one_number : f.is_nan (f.literal "1.0") ≡ false

module _ {F : Type 0} (f : Float F) where
  -- Three thresholds in ascending order, which `normalize` gives back as they are.
  pub record IsSettled (th : List F) : Type 0 where
    pub low : F
    pub mid : F
    pub high : F
    pub three : th ≡ low ∷ mid ∷ high ∷ []
    pub low_mid : f.lt mid low ≡ false
    pub mid_high : f.lt high mid ≡ false
    pub normal : normalize f th ≡ (low, mid, high)

  settled : (a b c : F) → f.lt b a ≡ false → f.lt c b ≡ false → IsSettled (a ∷ b ∷ c ∷ [])
  unfolding normalize
  settled a b c h k = record {
    low = a;
    mid = b;
    high = c;
    three = refl;
    low_mid = h;
    mid_high = k;
    normal = rw (k, h);
  }

  three_sorted-IsSettled :
      IsOrdered f → (xs : List F) → All (λ x. f.is_nan x ≡ false) xs → IsSettled (three_sorted f xs)
  unfolding three_sorted
  three_sorted-IsSettled o [] h = settled _ _ _ o.default_low o.default_high
  three_sorted-IsSettled o (a ∷ []) h = settled _ _ _ o.default_low o.default_high
  three_sorted-IsSettled o (a ∷ b ∷ []) h = settled _ _ _ o.default_low o.default_high
  three_sorted-IsSettled o (a ∷ b ∷ c ∷ rest) (na, (nb, (nc, u))) =
      let (lo, mid, hi) = sort3 f a b c in
      settled lo mid hi
        (ground (
          arith,
          o.asym b c nb nc,
          o.asym c b nc nb,
          o.asym a b na nb,
          o.asym b a nb na,
          o.asym a c na nc,
          o.asym c a nc na,
        ))
        (ground (
          arith,
          o.asym b c nb nc,
          o.asym c b nc nb,
          o.asym a b na nb,
          o.asym b a nb na,
          o.asym a c na nc,
          o.asym c a nc na,
        ))

module _ {N : Type 0} where
  texts-migrated : (vs : Values N) → contains "idle_cache_gap" (texts vs) ≡ false
  unfolding texts
  texts-migrated nil = refl
  texts-migrated (cons (string s) vs) = elim (Bool-cases (s == "idle_cache_gap")) [
    | inl old ↦ rw old (texts-migrated vs)
    | inr new ↦ ground (arith, new, texts-migrated vs)
  ]
  texts-migrated (cons null vs) = texts-migrated vs
  texts-migrated (cons (boolean b) vs) = texts-migrated vs
  texts-migrated (cons (number n) vs) = texts-migrated vs
  texts-migrated (cons (array ws) vs) = texts-migrated vs
  texts-migrated (cons (object ms) vs) = texts-migrated vs

  list-migrated :
      (v : Option (Value N)) (d : List String)
      → contains "idle_cache_gap" d ≡ false
      → contains "idle_cache_gap" (lenient_string_list v d) ≡ false
  unfolding lenient_string_list
  list-migrated none d h = h
  list-migrated (some null) d h = h
  list-migrated (some (boolean b)) d h = h
  list-migrated (some (number n)) d h = h
  list-migrated (some (string s)) d h = h
  list-migrated (some (array vs)) d h = texts-migrated vs
  list-migrated (some (object ms)) d h = h

module _ {F N : Type 0} (f : Float F) (r : Reading F N) (sound : IsSound f r) where
  finite-number : (o : Option F) (x : F) → finite f r o ≡ some x → f.is_nan x ≡ false
  finite-number none x h = cc
  finite-number (some y) x h = ground (arith, sound.finite_number y)

  lenient_f64-number :
      (v : Option (Value N)) (x : F) → lenient_f64 f r v ≡ some x → f.is_nan x ≡ false
  unfolding lenient_f64
  lenient_f64-number (some (number n)) x h = finite-number (r.as_f64 n) x h
  lenient_f64-number (some (string s)) x h = finite-number (r.parse_f64 (trim s)) x h
  lenient_f64-number (some (boolean b)) x h =
      ground (arith, Bool-cases b, sound.zero_number, sound.one_number)
  lenient_f64-number none x h = cc
  lenient_f64-number (some null) x h = cc
  lenient_f64-number (some (array vs)) x h = cc
  lenient_f64-number (some (object ms)) x h = cc

  numbers-number : (vs : Values N) → All (λ x. f.is_nan x ≡ false) (numbers f r vs)
  unfolding numbers
  numbers-number nil = tt
  numbers-number (cons v vs) = elim (Option-cases (lenient_f64 f r (some v))) [
    | inl skip ↦ rw skip (numbers-number vs)
    | inr (x, kept) ↦ rw kept (lenient_f64-number (some v) x kept, numbers-number vs)
  ]

  array_numbers-number :
      (v : Option (Value N)) → All (λ x. f.is_nan x ≡ false) (array_numbers f r v)
  array_numbers-number none = tt
  array_numbers-number (some null) = tt
  array_numbers-number (some (boolean b)) = tt
  array_numbers-number (some (number n)) = tt
  array_numbers-number (some (string s)) = tt
  array_numbers-number (some (array vs)) = numbers-number vs
  array_numbers-number (some (object ms)) = tt

  -- Whatever the JSON, both lists of thresholds read from it are three numbers in ascending order,
  -- which the colour levels then use as they are, and the kinds of tips never contain the name from
  -- before the rename.
  pub from_value_lenient-IsSettled :
      IsOrdered f
      → (v : Value N)
      → let cfg = from_value_lenient f r v in
        IsSettled f cfg.session_thresholds
        × IsSettled f cfg.weekly_thresholds
        × (contains "idle_cache_gap" cfg.runtime_insight_kinds ≡ false)
  unfolding from_value_lenient lenient_thresholds
  from_value_lenient-IsSettled o v = (
    three_sorted-IsSettled f o _ (array_numbers-number (get (as_object v) "session_thresholds")),
    three_sorted-IsSettled f o _ (array_numbers-number (get (as_object v) "weekly_thresholds")),
    list-migrated (get (as_object v) "runtime_insight_kinds") _ refl,
  )

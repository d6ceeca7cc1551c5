-- ===== src/Sessions/Order.antt =====
-- The order of timestamps as texts, and the sort by it, for the blocks of
-- src-tauri/src/board/task_sessions.rs.
use claude_usage_tracker_win.Prelude.{
  ℕ, String, ◌≡◌, refl, true, false, List, [], ◌∷◌, codes, codes_lt, str_lt, arith,
}

codes_lt_asym : (a b : List ℕ) → codes_lt a b ≡ true → codes_lt b a ≡ false
codes_lt_asym [] [] h = refl
codes_lt_asym [] (y ∷ b) h = refl
codes_lt_asym (x ∷ a) [] h = ground arith
codes_lt_asym (x ∷ a) (y ∷ b) h = ground (arith, codes_lt_asym a b)

codes_le_trans :
    (a b c : List ℕ) → codes_lt b a ≡ false → codes_lt c b ≡ false → codes_lt c a ≡ false
codes_le_trans [] [] [] h k = refl
codes_le_trans [] [] (z ∷ c) h k = refl
codes_le_trans [] (y ∷ b) [] h k = refl
codes_le_trans [] (y ∷ b) (z ∷ c) h k = refl
codes_le_trans (x ∷ a) [] c h k = ground arith
codes_le_trans (x ∷ a) (y ∷ b) [] h k = ground arith
codes_le_trans (x ∷ a) (y ∷ b) (z ∷ c) h k = ground (arith, codes_le_trans a b c)

pub str_lt_asym : (s t : String) → str_lt s t ≡ true → str_lt t s ≡ false
unfolding str_lt
str_lt_asym s t h = codes_lt_asym (codes s) (codes t) h

pub str_le_refl : (s : String) → str_lt s s ≡ false
str_le_refl s = ground (arith, str_lt_asym s s)

pub str_le_trans : (s t u : String) → str_lt t s ≡ false → str_lt u t ≡ false → str_lt u s ≡ false
unfolding str_lt
str_le_trans s t u h k = codes_le_trans (codes s) (codes t) (codes u) h k

-- Each key is at least the one before it, the first at least `low`.
abbrev pub Ascending {ℓ} : {A : Type ℓ} → (A → String) → String → List A → Type 0
Ascending key low [] = Unit
Ascending key low (x ∷ xs) = (str_lt (key x) low ≡ false) × Ascending key (key x) xs

pub str_lt_empty : (s : String) → str_lt s "" ≡ false
unfolding str_lt
str_lt_empty String.[] = refl
str_lt_empty (String.◌∷◌ c s) = refl

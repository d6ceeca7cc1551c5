-- ===== src/Awake/Calls.antt =====
-- What the loop of src-tauri/src/kernel/keep_awake.rs tells the system.
use claude_usage_tracker_win.Prelude.{
  ℕ, ◌≡◌, refl, inl, inr, Bool, true, false, List, [], ◌∷◌, arith, not, Bool-cases,
}
use claude_usage_tracker_win.Awake.{Activity, should_keep_awake, run}

-- What the system was told last, `told` before the calls.
abbrev pub last_told : Bool → List Bool → Bool
last_told told [] = told
last_told told (c ∷ calls) = last_told c calls

-- What the last of the samples asks for.
abbrev pub wanted : Bool → List (Activity × ℕ) → Bool
wanted before [] = before
wanted before ((sample, now) ∷ rounds) = wanted (should_keep_awake sample now) rounds

-- Every call tells the other of the two.
abbrev pub Alternates : Bool → List Bool → Type 0
Alternates told [] = Unit
Alternates told (c ∷ calls) = (c ≡ not told) × Alternates c calls

run-told :
    (applied : Bool) (rounds : List (Activity × ℕ))
    → last_told applied (run applied rounds) ≡ wanted applied rounds
unfolding run
run-told applied [] = refl
run-told applied ((sample, now) ∷ rounds) = elim (Bool-cases (should_keep_awake sample now)) [
  | inl e ↦ ground (arith, e, run-told true rounds, run-told applied rounds)
  | inr e ↦ ground (arith, e, run-told false rounds, run-told applied rounds)
]

run-Alternates :
    (applied : Bool) (rounds : List (Activity × ℕ)) → Alternates applied (run applied rounds)
unfolding run
run-Alternates applied [] = tt
run-Alternates true ((sample, now) ∷ rounds) = elim (Bool-cases (should_keep_awake sample now)) [
  | inl e ↦ rw e (run-Alternates true rounds)
  | inr e ↦ rw e (refl, run-Alternates false rounds)
]
run-Alternates false ((sample, now) ∷ rounds) = elim (Bool-cases (should_keep_awake sample now)) [
  | inl e ↦ rw e (refl, run-Alternates true rounds)
  | inr e ↦ rw e (run-Alternates false rounds)
]

-- After any number of rounds the system was last told what the last sample asks for, and no call
-- said again what it knew.
pub run-last_told :
    (rounds : List (Activity × ℕ))
    → (last_told false (run false rounds) ≡ wanted false rounds)
      × Alternates false (run false rounds)
run-last_told rounds = (run-told false rounds, run-Alternates false rounds)

-- ===== src/Board/Import/Sorted.antt =====
-- The order in which `merge_import` of src-tauri/src/board/todos.rs takes the incoming rows.
use claude_usage_tracker_win.Prelude.{
  String, ℕ, ◌≡◌, ◌≢◌, refl, ◌∙◌, inl, inr, false, ◌||◌, List, [], ◌∷◌, All, any, arith, eq_iff,
  Bool-cases, if◌then◌else◌, suc, ◌≤◌, eqb,
}
use claude_usage_tracker_win.Board.Todo.{Todo}
use claude_usage_tracker_win.Board.Edit.{has_id}
use claude_usage_tracker_win.Board.Refs.{positive_numbers}
use claude_usage_tracker_win.Board.Numbers.Assign.{listed, Distinct}
use claude_usage_tracker_win.Board.Import.{insert_sorted, sorted, goes_before}
use claude_usage_tracker_win.Board.Import.Local.{Unknown, DistinctIds}

module _ {V F : Type 0} where
  any-insert_sorted :
      (id : String) (t : Todo V F) (ts : List (Todo V F))
      → any (has_id id) (insert_sorted t ts) ≡ has_id id t || any (has_id id) ts
  unfolding insert_sorted
  any-insert_sorted id t [] = refl
  any-insert_sorted id t (s ∷ ts) = ground (arith, any-insert_sorted id t ts)

  pub any-sorted :
      (id : String) (ts : List (Todo V F)) → any (has_id id) (sorted ts) ≡ any (has_id id) ts
  unfolding sorted
  any-sorted id [] = refl
  any-sorted id (t ∷ ts) = ground (arith, any-insert_sorted id t (sorted ts), any-sorted id ts)

  DistinctIds-insert_sorted :
      (t : Todo V F) (ts : List (Todo V F))
      → Unknown ts t.id
      → DistinctIds ts
      → DistinctIds (insert_sorted t ts)
  unfolding insert_sorted
  DistinctIds-insert_sorted t [] h d = (refl, tt)
  DistinctIds-insert_sorted t (s ∷ ts) h d = elim (Bool-cases (goes_before s t)) [
    | inl e ↦ rw e (
      ground (arith, eq_iff t.id s.id, eq_iff s.id t.id, any-insert_sorted s.id t ts),
      DistinctIds-insert_sorted t ts (ground arith) d.1,
    )
    | inr e ↦ rw e (h, d)
  ]

  pub DistinctIds-sorted : (ts : List (Todo V F)) → DistinctIds ts → DistinctIds (sorted ts)
  unfolding sorted
  DistinctIds-sorted [] d = tt
  DistinctIds-sorted (t ∷ ts) d =
      DistinctIds-insert_sorted t (sorted ts) (any-sorted t.id ts ∙ d.0) (DistinctIds-sorted ts d.1)

  module _ {ℓ} (P : Todo V F → Type ℓ) where
    All-insert_sorted :
        (t : Todo V F) (ts : List (Todo V F)) → All P (insert_sorted t ts) → P t × All P ts
    unfolding insert_sorted
    All-insert_sorted t [] h = h
    All-insert_sorted t (s ∷ ts) h = elim (Bool-cases (goes_before s t)) [
      | inl e ↦
          let k : P s × All P (insert_sorted t ts) = rw e at h in
          let (a, b) = All-insert_sorted t ts k.1 in (a, (k.0, b))
      | inr e ↦ rw e at h
    ]

    pub All-sorted : (ts : List (Todo V F)) → All P (sorted ts) → All P ts
    unfolding sorted
    All-sorted [] h = tt
    All-sorted (t ∷ ts) h = let (a, b) = All-insert_sorted t (sorted ts) h in (a, All-sorted ts b)

  listed-insert_sorted :
      (n : ℕ) (t : Todo V F) (ts : List (Todo V F))
      → listed n (positive_numbers (insert_sorted t ts)) ≡ listed n (positive_numbers (t ∷ ts))
  unfolding insert_sorted positive_numbers
  listed-insert_sorted n t [] = refl
  listed-insert_sorted n t (s ∷ ts) = ground (arith, listed-insert_sorted n t ts)

  module _ {ℓ} (P : Todo V F → Type ℓ) where
    insert_sorted-All :
        (t : Todo V F) (ts : List (Todo V F)) → P t → All P ts → All P (insert_sorted t ts)
    unfolding insert_sorted
    insert_sorted-All t [] p h = (p, tt)
    insert_sorted-All t (s ∷ ts) p h = elim (Bool-cases (goes_before s t)) [
      | inl e ↦ rw e (h.0, insert_sorted-All t ts p h.1)
      | inr e ↦ rw e (p, h)
    ]

    pub sorted-All : (ts : List (Todo V F)) → All P ts → All P (sorted ts)
    unfolding sorted
    sorted-All [] h = tt
    sorted-All (t ∷ ts) h = insert_sorted-All t (sorted ts) h.0 (sorted-All ts h.1)

  -- The positive numbers go up, and the rows without one come first.
  abbrev pub Ascending : ℕ → List (Todo V F) → Type 0
  Ascending low [] = Unit
  Ascending low (t ∷ ts) =
      (low ≤ t.number) × Ascending (if eqb t.number 0 then 0 else suc t.number) ts

  -- The numbers go up or stay.
  abbrev Rising : ℕ → List (Todo V F) → Type 0
  Rising low [] = Unit
  Rising low (t ∷ ts) = (low ≤ t.number) × Rising t.number ts

  Rising-insert_sorted :
      (low : ℕ) (t : Todo V F) (ts : List (Todo V F))
      → low ≤ t.number
      → Rising low ts
      → Rising low (insert_sorted t ts)
  unfolding insert_sorted
  Rising-insert_sorted low t [] h r = (h, tt)
  Rising-insert_sorted low t (s ∷ ts) h r = elim (Bool-cases (goes_before s t)) [
    | inl e ↦ rw e (r.0, Rising-insert_sorted s.number t ts (ground arith) r.1)
    | inr e ↦ rw e (h, (ground arith, r.1))
  ]

  Rising-sorted : (ts : List (Todo V F)) → Rising 0 (sorted ts)
  unfolding sorted
  Rising-sorted [] = tt
  Rising-sorted (t ∷ ts) = Rising-insert_sorted 0 t (sorted ts) (omega arith) (Rising-sorted ts)

  listed-sorted :
      (n : ℕ) (ts : List (Todo V F))
      → listed n (positive_numbers (sorted ts)) ≡ listed n (positive_numbers ts)
  unfolding sorted positive_numbers
  listed-sorted n [] = refl
  listed-sorted n (t ∷ ts) =
      ground (arith, listed-insert_sorted n t (sorted ts), listed-sorted n ts)

  Distinct-insert_sorted :
      (t : Todo V F) (ts : List (Todo V F))
      → Distinct (positive_numbers (t ∷ ts))
      → Distinct (positive_numbers (insert_sorted t ts))
  unfolding insert_sorted positive_numbers
  Distinct-insert_sorted t [] d = d
  Distinct-insert_sorted t (s ∷ ts) d =
      ground (arith, d, listed-insert_sorted s.number t ts, Distinct-insert_sorted t ts)

  Distinct-sorted :
      (ts : List (Todo V F))
      → Distinct (positive_numbers ts)
      → Distinct (positive_numbers (sorted ts))
  unfolding sorted positive_numbers
  Distinct-sorted [] d = d
  Distinct-sorted (t ∷ ts) d =
      Distinct-insert_sorted t (sorted ts)
        (ground (arith, d, listed-sorted t.number ts, Distinct-sorted ts))

  Rising-strict :
      (n : ℕ) (ts : List (Todo V F))
      → n ≢ 0
      → listed n (positive_numbers ts) ≡ false
      → Rising n ts
      → Rising (suc n) ts
  unfolding positive_numbers
  Rising-strict n [] pos h r = tt
  Rising-strict n (t ∷ ts) pos h r = (ground (arith, h, r.0), r.1)

  Rising-zero : (low : ℕ) (ts : List (Todo V F)) → Rising low ts → Rising 0 ts
  Rising-zero low [] r = tt
  Rising-zero low (t ∷ ts) r = (omega arith, r.1)

  Ascending-Rising :
      (low : ℕ) (ts : List (Todo V F))
      → Distinct (positive_numbers ts)
      → Rising low ts
      → Ascending low ts
  unfolding positive_numbers
  Ascending-Rising low [] d r = tt
  Ascending-Rising low (t ∷ ts) d r = elim (Bool-cases (eqb t.number 0)) [
    | inl e ↦ rw e (r.0, Ascending-Rising 0 ts (ground (arith, d)) (Rising-zero t.number ts r.1))
    | inr e ↦ rw e (
      r.0,
      Ascending-Rising (suc t.number) ts (ground (arith, d))
          (Rising-strict t.number ts (ground arith) (ground (arith, d)) r.1),
    )
  ]

  -- With distinct positive numbers the sorted rows' numbers go up.
  pub Ascending-sorted :
      (ts : List (Todo V F)) → Distinct (positive_numbers ts) → Ascending 0 (sorted ts)
  Ascending-sorted ts d = Ascending-Rising 0 (sorted ts) (Distinct-sorted ts d) (Rising-sorted ts)

-- ===== src/Board/Numbers/Assign.antt =====
-- Which rows `ensure_numbers` of src-tauri/src/board/todos.rs writes, and what it writes there.
use claude_usage_tracker_win.Prelude.{
  u32, ℕ, zero, suc, ◌+◌, ◌<◌, ◌^◌, ◌≡◌, refl, inl, inr, Bool, true, false, ◌||◌, Option, none,
  some, List, [], ◌∷◌, eqb, if◌then◌else◌, get_elem?, length, arith, Bool-cases,
}
use claude_usage_tracker_win.Board.Todo.{Todo}
use claude_usage_tracker_win.Board.Numbers.{
  unnumbered, older, insert_index, sort_indices, set_number, assign,
}

-- Where an index stands in a list of indices.
unfoldable pub position : ℕ → List ℕ → Option ℕ
position i [] = none
position i (x ∷ xs) =
    if eqb x i then some 0 else elim (position i xs) [ none ↦ none | some p ↦ some (suc p) ]

abbrev pub listed : ℕ → List ℕ → Bool
listed i [] = false
listed i (x ∷ xs) = eqb x i || listed i xs

abbrev pub Distinct : List ℕ → Type 0
Distinct [] = Unit
Distinct (x ∷ xs) = (listed x xs ≡ false) × Distinct xs

position-none : (i : ℕ) (xs : List ℕ) → listed i xs ≡ false → position i xs ≡ none
unfolding position
position-none i [] h = refl
position-none i (x ∷ xs) h = ground (arith, position-none i xs)

pub position-some :
    (i : ℕ) (xs : List ℕ)
    → listed i xs ≡ true
    → (p : ℕ) × (position i xs ≡ some p) × (p < length xs)
unfolding position
position-some i [] h = cc
position-some i (x ∷ xs) h = elim (Bool-cases (eqb x i)) [
  | inl e ↦ (0, rw e, omega arith)
  | inr e ↦
      let (p, at, below) = position-some i xs (ground arith) in (suc p, rw (e, at), omega arith)
]

pub position_injective :
    (i j p : ℕ) (xs : List ℕ) → position i xs ≡ some p → position j xs ≡ some p → i ≡ j
unfolding position
position_injective i j p [] h k = cc
position_injective i j zero (x ∷ xs) h k = ground arith
position_injective i j (suc p) (x ∷ xs) h k = ground (arith, position_injective i j p xs)

module _ {V F : Type 0} where
  listed-insert_index :
      (ts : List (Todo V F)) (i a : ℕ) (xs : List ℕ)
      → listed i (insert_index ts a xs) ≡ eqb a i || listed i xs
  unfolding insert_index
  listed-insert_index ts i a [] = refl
  listed-insert_index ts i a (x ∷ xs) = ground (arith, listed-insert_index ts i a xs)

  pub listed-sort_indices :
      (ts : List (Todo V F)) (i : ℕ) (xs : List ℕ) → listed i (sort_indices ts xs) ≡ listed i xs
  unfolding sort_indices
  listed-sort_indices ts i [] = refl
  listed-sort_indices ts i (x ∷ xs) =
      ground (arith, listed-insert_index ts i x (sort_indices ts xs), listed-sort_indices ts i xs)

  length-insert_index :
      (ts : List (Todo V F)) (a : ℕ) (xs : List ℕ) → length (insert_index ts a xs) ≡ suc (length xs)
  unfolding insert_index
  length-insert_index ts a [] = refl
  length-insert_index ts a (x ∷ xs) = ground (arith, length-insert_index ts a xs)

  pub length-sort_indices :
      (ts : List (Todo V F)) (xs : List ℕ) → length (sort_indices ts xs) ≡ length xs
  unfolding sort_indices
  length-sort_indices ts [] = refl
  length-sort_indices ts (x ∷ xs) =
      omega (arith, length-insert_index ts x (sort_indices ts xs), length-sort_indices ts xs)

  Distinct-insert_index :
      (ts : List (Todo V F)) (a : ℕ) (xs : List ℕ)
      → listed a xs ≡ false
      → Distinct xs
      → Distinct (insert_index ts a xs)
  unfolding insert_index
  Distinct-insert_index ts a [] h d = (refl, tt)
  Distinct-insert_index ts a (x ∷ xs) h d = elim (Bool-cases (older ts x a)) [
    | inl e ↦ rw e (
      ground (arith, listed-insert_index ts x a xs),
      Distinct-insert_index ts a xs (ground arith) d.1,
    )
    | inr e ↦ rw e (h, d)
  ]

  pub Distinct-sort_indices :
      (ts : List (Todo V F)) (xs : List ℕ) → Distinct xs → Distinct (sort_indices ts xs)
  unfolding sort_indices
  Distinct-sort_indices ts [] d = tt
  Distinct-sort_indices ts (x ∷ xs) d =
      Distinct-insert_index ts x (sort_indices ts xs)
        (ground (arith, listed-sort_indices ts x xs, d.0)) (Distinct-sort_indices ts xs d.1)

  -- What stands at an index after a write of `n` there.
  abbrev pub numbered : ℕ → Option (Todo V F) → Option (Todo V F)
  numbered n none = none
  numbered n (some t) = some (record t { number = n })

  abbrev pub renumbered : ℕ → Option ℕ → Option (Todo V F) → Option (Todo V F)
  renumbered next none row = row
  renumbered next (some p) row = numbered (next + p) row

  get_elem?-set_number :
      (ts : List (Todo V F)) (i j n : ℕ)
      → get_elem? (set_number ts i n) j
        ≡ (if eqb i j then numbered n (get_elem? ts j) else get_elem? ts j)
  unfolding set_number
  get_elem?-set_number [] i j n = ground arith
  get_elem?-set_number (t ∷ ts) zero zero n = refl
  get_elem?-set_number (t ∷ ts) zero (suc j) n = ground arith
  get_elem?-set_number (t ∷ ts) (suc i) zero n = ground arith
  get_elem?-set_number (t ∷ ts) (suc i) (suc j) n = ground (arith, get_elem?-set_number ts i j n)

  -- The row at a listed index gets the number of its turn; every other row stays.
  pub get_elem?-assign :
      (ts : List (Todo V F)) (next : ℕ) (idx : List ℕ) (j : ℕ)
      → Distinct idx
      → next + length idx < 2 ^ 32
      → get_elem? (assign ts next idx) j ≡ renumbered next (position j idx) (get_elem? ts j)
  unfolding assign position
  get_elem?-assign ts next [] j d h = refl
  get_elem?-assign ts next (i ∷ idx) j d h = ground (
    arith,
    get_elem?-assign (set_number ts i next) (u32 (next + 1)) idx j d.1,
    get_elem?-set_number ts i j next,
    position-none i idx d.0,
  )

  unnumbered_above : (k i : ℕ) (ts : List (Todo V F)) → i < k → listed i (unnumbered k ts) ≡ false
  unfolding unnumbered
  unnumbered_above k i [] h = refl
  unnumbered_above k i (t ∷ ts) h = ground (arith, unnumbered_above (suc k) i ts)

  pub Distinct-unnumbered : (k : ℕ) (ts : List (Todo V F)) → Distinct (unnumbered k ts)
  unfolding unnumbered
  Distinct-unnumbered k [] = tt
  Distinct-unnumbered k (t ∷ ts) = elim (Bool-cases (eqb t.number 0)) [
    | inl e ↦ rw e (unnumbered_above (suc k) k ts (omega arith), Distinct-unnumbered (suc k) ts)
    | inr e ↦ rw e (Distinct-unnumbered (suc k) ts)
  ]

  -- Exactly the rows with the number 0 are listed.
  pub listed-unnumbered :
      (k i : ℕ) (ts : List (Todo V F))
      → listed (k + i) (unnumbered k ts)
        ≡ elim (get_elem? ts i) [ none ↦ false | some t ↦ eqb t.number 0 ]
  unfolding unnumbered
  listed-unnumbered k i [] = refl
  listed-unnumbered k zero (t ∷ ts) = ground (arith, unnumbered_above (suc k) k ts)
  listed-unnumbered k (suc i) (t ∷ ts) = ground (arith, listed-unnumbered (suc k) i ts)

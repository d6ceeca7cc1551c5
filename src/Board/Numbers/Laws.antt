-- ===== src/Board/Numbers/Laws.antt =====
-- After `ensure_numbers` of src-tauri/src/board/todos.rs every row has a number of its own.
use claude_usage_tracker_win.Prelude.{
  ℕ, zero, suc, ◌+◌, ◌<◌, ◌≤◌, ◌^◌, ◌≡◌, ◌≢◌, refl, ◌∙◌, ap, ◌⊎◌, inl, inr, true, Option, none,
  some, List, [], ◌∷◌, eqb, get_elem?, length, arith, Bool-cases, Option-cases,
}
use claude_usage_tracker_win.Board.Todo.{Todo, TodoFile}
use claude_usage_tracker_win.Board.Edit.{max_of, max_number}
use claude_usage_tracker_win.Board.Numbers.{unnumbered, sort_indices, fill, ensure_numbers}
use claude_usage_tracker_win.Board.Numbers.Assign.{
  Distinct, position, position-some, position_injective, listed, listed-sort_indices,
  length-sort_indices, Distinct-sort_indices, renumbered, get_elem?-assign, Distinct-unnumbered,
  listed-unnumbered,
}

listed_of_position : (i : ℕ) (xs : List ℕ) (p : ℕ) → position i xs ≡ some p → listed i xs ≡ true
unfolding position
listed_of_position i [] p h = cc
listed_of_position i (x ∷ xs) zero h = ground (arith, listed_of_position i xs 0)
listed_of_position i (x ∷ xs) (suc p) h = ground (arith, listed_of_position i xs p)

module _ {V F : Type 0} where
  number-le-max_of :
      (ts : List (Todo V F)) (i : ℕ) (t : Todo V F) → get_elem? ts i ≡ some t → t.number ≤ max_of ts
  unfolding max_of
  number-le-max_of [] i t h = cc
  number-le-max_of (u ∷ ts) zero t h = ground arith
  number-le-max_of (u ∷ ts) (suc i) t h = ground (arith, number-le-max_of ts i t h)

  pub number-le-max_number :
      (file : TodoFile V F) (i : ℕ) (t : Todo V F)
      → get_elem? file.todos i ≡ some t
      → t.number ≤ max_number file
  unfolding max_number
  number-le-max_number file i t h = number-le-max_of file.todos i t h

  -- How many rows want a number, and that the `u32` counter does not wrap while they get theirs.
  abbrev pub wanting : TodoFile V F → ℕ
  wanting file = length (unnumbered 0 file.todos)

  abbrev pub HasRoom : TodoFile V F → Type 0
  HasRoom file = max_number file + wanting file + 1 < 2 ^ 32

  -- The turn of a row: its place among the rows without a number, oldest first.
  abbrev pub turn : TodoFile V F → ℕ → Option ℕ
  turn file i = position i (sort_indices file.todos (unnumbered 0 file.todos))

  fill-row :
      (file : TodoFile V F) (idx : List ℕ) (i : ℕ)
      → Distinct idx
      → max_number file + length idx + 1 < 2 ^ 32
      → get_elem? (fill file idx).0.todos i
        ≡ renumbered
            (max_number file + 1)
            (position i (sort_indices file.todos idx))
            (get_elem? file.todos i)
  unfolding fill sort_indices position
  fill-row file [] i d room = refl
  fill-row file (x ∷ xs) i d room = ground (
    arith,
    get_elem?-assign file.todos (max_number file + 1) (sort_indices file.todos (x ∷ xs)) i
        (Distinct-sort_indices file.todos (x ∷ xs) d)
        (omega (arith, length-sort_indices file.todos (x ∷ xs))),
  )

  ensure_numbers-row :
      (file : TodoFile V F) (i : ℕ)
      → HasRoom file
      → get_elem? (ensure_numbers file).0.todos i
        ≡ renumbered (max_number file + 1) (turn file i) (get_elem? file.todos i)
  unfolding ensure_numbers
  ensure_numbers-row file i room =
      fill-row file (unnumbered 0 file.todos) i (Distinct-unnumbered 0 file.todos) (omega arith)

  turn-none :
      (file : TodoFile V F) (i : ℕ) (t : Todo V F)
      → get_elem? file.todos i ≡ some t
      → t.number ≢ 0
      → turn file i ≡ none
  turn-none file i t h has = elim (Option-cases (turn file i)) [
    | inl none_there ↦ none_there
    | inr (p, at) ↦ absurd (
        ground (
          arith,
          listed_of_position i (sort_indices file.todos (unnumbered 0 file.todos)) p at,
          listed-sort_indices file.todos i (unnumbered 0 file.todos),
          listed-unnumbered 0 i file.todos,
        ))
  ]

  turn-some :
      (file : TodoFile V F) (i : ℕ) (t : Todo V F)
      → get_elem? file.todos i ≡ some t
      → t.number ≡ 0
      → (p : ℕ) × (turn file i ≡ some p) × (p < wanting file)
  turn-some file i t h has =
      let (p, at, below) = position-some i (sort_indices file.todos (unnumbered 0 file.todos)) (
        ground (
          arith,
          listed-sort_indices file.todos i (unnumbered 0 file.todos),
          listed-unnumbered 0 i file.todos,
        )) in
      (p, at, omega (arith, length-sort_indices file.todos (unnumbered 0 file.todos)))

  -- Where the counter does not wrap: `ensure_numbers` changes nothing of a row but its number, and
  -- that only where it was 0, to a number above every number that the board
  -- had, and at most as many above the largest as rows had none.
  pub ensure_numbers_fills :
      (file : TodoFile V F) (i : ℕ) (t : Todo V F)
      → HasRoom file
      → get_elem? file.todos i ≡ some t
      → (n : ℕ) × (get_elem? (ensure_numbers file).0.todos i ≡ some (record t { number = n }))
        × ((t.number ≢ 0 → n ≡ t.number)
            × (t.number ≡ 0 → (max_number file < n) × (n ≤ max_number file + wanting file)))
  ensure_numbers_fills file i t room h = elim (Bool-cases (eqb t.number 0)) [
    | inl e ↦
        let (p, at, below) = turn-some file i t h (ground arith) in
        (
          max_number file + 1 + p,
          ground (arith, ensure_numbers-row file i room),
          (ground arith, omega arith),
        )
    | inr e ↦ (
      t.number,
      ground (arith, ensure_numbers-row file i room, turn-none file i t h),
      (ground arith, ground arith),
    )
  ]

  -- No two rows share a number other than 0.
  abbrev pub NumbersDistinct : List (Todo V F) → Type 0
  NumbersDistinct ts =
      (i j : ℕ) (t u : Todo V F)
      → get_elem? ts i ≡ some t
      → get_elem? ts j ≡ some u
      → t.number ≡ u.number
      → t.number ≢ 0
      → i ≡ j

  -- The number of a row after `ensure_numbers`, by its turn.
  number_by_turn :
      (file : TodoFile V F) (i : ℕ) (u : Todo V F)
      → HasRoom file
      → get_elem? (ensure_numbers file).0.todos i ≡ some u
      → (t : Todo V F) × (get_elem? file.todos i ≡ some t)
        × (((turn file i ≡ none) × (u.number ≡ t.number) × (t.number ≤ max_number file))
            ⊎ ((p : ℕ) × (turn file i ≡ some p) × (u.number ≡ max_number file + 1 + p)))
  number_by_turn file i u room h = elim (Option-cases (turn file i)) [
    | inl out ↦
        let found : get_elem? file.todos i ≡ some u =
          ground (arith, ensure_numbers-row file i room) in
        (u, found, inl (out, refl, number-le-max_number file i u found))
    | inr (p, at) ↦ elim (Option-cases (get_elem? file.todos i)) [
      | inl gone ↦ absurd (ground (arith, ensure_numbers-row file i room))
      | inr (t, found) ↦ (t, found, inr (p, at, ground (arith, ensure_numbers-row file i room)))
    ]
  ]

  -- Where the counter does not wrap, a board whose numbers are distinct, rows without one left
  -- aside, has distinct numbers after `ensure_numbers` too.
  pub ensure_numbers-NumbersDistinct :
      (file : TodoFile V F)
      → HasRoom file
      → NumbersDistinct file.todos
      → NumbersDistinct (ensure_numbers file).0.todos
  ensure_numbers-NumbersDistinct file room d i j t u hi hj e pos =
      let (s, hs, either) = number_by_turn file i t room hi in
      let (v, hv, other) = number_by_turn file j u room hj in
      elim either [
        | inl (out, same, low) ↦ elim other [
          | inl (out', same', low') ↦ d i j s v hs hv (omega arith) (λ z. pos (omega arith))
          | inr (p, at, new) ↦ absurd (omega arith)
        ]
        | inr (p, at, new) ↦ elim other [
          | inl (out, same, low) ↦ absurd (omega arith)
          | inr (q, at', new') ↦
              position_injective i j p (sort_indices file.todos (unnumbered 0 file.todos)) at
                (at' ∙ ap some (omega arith))
        ]
      ]

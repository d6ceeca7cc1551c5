-- ===== src/Board/Numbers.antt =====
-- `ensure_numbers` of src-tauri/src/board/todos.rs: rows without a number get the next ones, oldest
-- row first. The `u32` counter wraps, as in a release build.
pub mod Assign
pub mod Laws
use claude_usage_tracker_win.Prelude.{
  u32, ℕ, zero, suc, ◌+◌, String, Bool, true, false, ◌&&◌, ◌||◌, Option, none, some, List, [], ◌∷◌,
  ◌==◌, eqb, if◌then◌else◌, get_elem?, str_lt,
}
use claude_usage_tracker_win.Board.Todo.{Todo, TodoFile}
use claude_usage_tracker_win.Board.Edit.{is_empty, max_number}

module _ {V F : Type 0} where
  -- The indices of the rows without a number, from the index of the first row of the list.
  unfoldable pub unnumbered : ℕ → List (Todo V F) → List ℕ
  unnumbered i [] = []
  unnumbered i (t ∷ ts) =
      let rest = unnumbered (suc i) ts in if eqb t.number 0 then i ∷ rest else rest

  -- `created_at`, then `id`. An index out of range would be a panic; none arises.
  unfoldable pub older : List (Todo V F) → ℕ → ℕ → Bool
  older ts a b = elim (get_elem? ts a) [
    | none ↦ false
    | some s ↦ elim (get_elem? ts b) [
      | none ↦ false
      | some t ↦
          str_lt s.created_at t.created_at || ((s.created_at == t.created_at) && str_lt s.id t.id)
    ]
  ]

  -- `sort_by` is stable: an index goes before the first one whose row is not older.
  unfoldable pub insert_index : List (Todo V F) → ℕ → List ℕ → List ℕ
  insert_index ts a [] = a ∷ []
  insert_index ts a (b ∷ bs) =
      let rest = insert_index ts a bs in if older ts b a then b ∷ rest else a ∷ b ∷ bs

  unfoldable pub sort_indices : List (Todo V F) → List ℕ → List ℕ
  sort_indices ts [] = []
  sort_indices ts (a ∷ as') = insert_index ts a (sort_indices ts as')

  unfoldable pub set_number : List (Todo V F) → ℕ → ℕ → List (Todo V F)
  set_number [] i n = []
  set_number (t ∷ ts) zero n = record t { number = n } ∷ ts
  set_number (t ∷ ts) (suc i) n = t ∷ set_number ts i n

  -- `for i in idx { todos[i].number = next; next += 1 }`
  unfoldable pub assign : List (Todo V F) → ℕ → List ℕ → List (Todo V F)
  assign ts next [] = ts
  assign ts next (i ∷ idx) = assign (set_number ts i next) (u32 (next + 1)) idx

  -- `ensure_numbers` from the list `idx` on.
  unfoldable pub fill : TodoFile V F → List ℕ → TodoFile V F × Bool
  fill file idx = if is_empty idx then (file, false) else (
    record file {
      todos = assign file.todos (u32 (max_number file + 1)) (sort_indices file.todos idx);
    },
    true,
  )

  unfoldable pub ensure_numbers : TodoFile V F → TodoFile V F × Bool
  ensure_numbers file = fill file (unnumbered 0 file.todos)

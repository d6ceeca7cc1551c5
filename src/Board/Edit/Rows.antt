-- ===== src/Board/Edit/Rows.antt =====
-- Which row each edit of src-tauri/src/board/todos.rs writes, by the row that a lookup then finds.
use claude_usage_tracker_win.Prelude.{
  String, ◌≡◌, refl, inl, inr, true, false, not, Option, some, none, List, [], ◌∷◌, ◌++◌, ◌==◌,
  eq_iff, if◌then◌else◌, retain, update_first, find, any, arith, Bool-cases,
}
use claude_usage_tracker_win.Board.Todo.{Todo, TodoFile}
use claude_usage_tracker_win.Board.Edit.{
  Json, has_id, find_todo, upsert, merge_row, new_row, delete, set_status, with_status,
}

module _ {V F : Type 0} where
  pub find-any :
      (ts : List (Todo V F)) (id : String)
      → any (has_id id) ts ≡ true
      → (t : Todo V F) × (find (has_id id) ts ≡ some t)
  find-any [] id h = cc
  find-any (t ∷ ts) id h = elim (Bool-cases (has_id id t)) [
    | inl e ↦ (t, rw e)
    | inr e ↦ let (u, found) = find-any ts id (ground arith) in (u, rw e found)
  ]

  pub find-any-none :
      (ts : List (Todo V F)) (id : String) → any (has_id id) ts ≡ false → find (has_id id) ts ≡ none
  find-any-none [] id h = refl
  find-any-none (t ∷ ts) id h = ground (arith, find-any-none ts id)

  pub any-find-some :
      (ts : List (Todo V F)) (id : String) (t : Todo V F)
      → find (has_id id) ts ≡ some t
      → (any (has_id id) ts ≡ true) × (t.id ≡ id)
  any-find-some [] id t h = cc
  any-find-some (u ∷ ts) id t h = ground (arith, eq_iff u.id id, any-find-some ts id t)

  -- The row with its id written by `f`.
  abbrev pub mapped : (Todo V F → Todo V F) → Option (Todo V F) → Option (Todo V F)
  mapped f none = none
  mapped f (some t) = some (f t)

  pub find-update_first :
      (ts : List (Todo V F)) (id j : String) (f : Todo V F → Todo V F)
      → ((t : Todo V F) → t.id ≡ id → (f t).id ≡ id)
      → find (has_id j) (update_first (has_id id) f ts)
        ≡ (if j == id then mapped f (find (has_id j) ts) else find (has_id j) ts)
  find-update_first [] id j f keep = ground arith
  find-update_first (t ∷ ts) id j f keep = ground (
    arith,
    keep t,
    eq_iff t.id id,
    eq_iff t.id j,
    eq_iff (f t).id j,
    eq_iff j id,
    find-update_first ts id j f keep,
  )

  find-concat :
      (ts : List (Todo V F)) (u : Todo V F) (j : String)
      → any (has_id u.id) ts ≡ false
      → find (has_id j) (ts ++ u ∷ []) ≡ (if j == u.id then some u else find (has_id j) ts)
  find-concat [] u j h = ground (arith, eq_iff u.id j, eq_iff j u.id)
  find-concat (t ∷ ts) u j h =
      ground (arith, eq_iff t.id j, eq_iff t.id u.id, eq_iff j u.id, find-concat ts u j)

  -- The row that `upsert` leaves under the given row's id.
  abbrev pub upserted_row : Json V → TodoFile V F → Todo V F → String → Option (Todo V F) → Todo V F
  upserted_row j file todo now none = new_row file todo now
  upserted_row j file todo now (some old) = merge_row j old todo now

  merge_row-id :
      (j : Json V) (old todo : Todo V F) (now : String) → (merge_row j old todo now).id ≡ todo.id
  unfolding merge_row
  merge_row-id j old todo now = refl

  new_row-id :
      (file : TodoFile V F) (todo : Todo V F) (now : String) → (new_row file todo now).id ≡ todo.id
  unfolding new_row
  new_row-id file todo now = refl

  -- After `upsert` a lookup of the given row's id finds the merge of that row into the one that was
  -- there, or the stamped row where there was none; a lookup of any other id finds what it found.
  pub find_todo-upsert :
      (j : Json V) (file : TodoFile V F) (todo : Todo V F) (now id : String)
      → find_todo (upsert j file todo now) id ≡ (
          if id == todo.id
          then some (upserted_row j file todo now (find_todo file todo.id))
          else find_todo file id)
  unfolding find_todo upsert
  find_todo-upsert j file todo now id = elim (Bool-cases (any (has_id todo.id) file.todos)) [
    | inl old ↦
        let (t, found) = find-any file.todos todo.id old in
        rw old (
          ground (
            arith,
            eq_iff id todo.id,
            found,
            find-update_first file.todos todo.id id (λ t. merge_row j t todo now)
                (λ t e. merge_row-id j t todo now),
          ))
    | inr new ↦ rw new (
        ground (
          arith,
          new_row-id file todo now,
          find-any-none file.todos todo.id new,
          find-concat file.todos (new_row file todo now) id,
        ))
  ]

  find-retain :
      (ts : List (Todo V F)) (id j : String)
      → find (has_id j) (retain (λ t. not (has_id id t)) ts)
        ≡ (if j == id then none else find (has_id j) ts)
  find-retain [] id j = ground arith
  find-retain (t ∷ ts) id j =
      ground (arith, eq_iff t.id id, eq_iff t.id j, eq_iff j id, find-retain ts id j)

  -- After `delete` no row of that id is found, and every other lookup finds what it found.
  pub find_todo-delete :
      (file : TodoFile V F) (id j : String)
      → find_todo (delete file id) j ≡ (if j == id then none else find_todo file j)
  unfolding find_todo delete
  find_todo-delete file id j = find-retain file.todos id j

  -- `set_status` answers whether the board has the row, and writes that row only.
  pub find_todo-set_status :
      (file : TodoFile V F) (id s now j : String)
      → (find_todo (set_status file id s now).0 j
          ≡ (if j == id then mapped (with_status s now) (find_todo file j) else find_todo file j))
        × ((set_status file id s now).1 ≡ any (has_id id) file.todos)
  unfolding find_todo set_status
  find_todo-set_status file id s now j = elim (Bool-cases (any (has_id id) file.todos)) [
    | inl old ↦ rw old (
      find-update_first file.todos id j (with_status s now) (λ t e. unfold with_status in e),
      refl,
    )
    | inr new ↦ rw new (ground (arith, eq_iff j id, find-any-none file.todos id new), refl)
  ]

-- ===== src/Board/Deps/Acyclic.antt =====
-- The edits of src-tauri/src/board/todos.rs keep the dependency graph free of cycles, and `add_dep`
-- refuses exactly what it is documented to refuse.
use claude_usage_tracker_win.Prelude.{
  String, ◌≡◌, inl, inr, ◌↔◌, false, some, ◌==◌, eq_iff, update_first, ok, arith, Bool-cases,
  Option-cases,
}
use claude_usage_tracker_win.Board.Todo.{Todo, TodoFile}
use claude_usage_tracker_win.Board.Edit.{
  Json, has_id, find_todo, delete, set_status, add_comment, remove_comment, upsert,
}
use claude_usage_tracker_win.Board.Deps.{
  deps_of, push_dep, add_dep, remove_dep, dep_reaches, board_of,
}
use claude_usage_tracker_win.Board.Deps.Search.{Edge, Reaches, dep_reaches_iff}
use claude_usage_tracker_win.Board.Deps.Edges.{
  Acyclic, Acyclic-mono, Acyclic-OneMore, OneMore-push_dep, drop_dep-fewer, deps_of-delete,
  deps_of-upsert, SameDeps, SameDeps-Acyclic, set_status-SameDeps, add_comment-SameDeps,
  remove_comment-SameDeps,
}

module _ {V F : Type 0} where
  -- What an accepted edge has passed.
  pub record Accepted (file : TodoFile V F) (from_id on_id : String) : Type 0 where
    pub apart : (from_id == on_id) ≡ false
    pub on : Todo V F
    pub on_found : find_todo file on_id ≡ some on
    pub from : Todo V F
    pub from_found : find_todo file from_id ≡ some from
    pub same_board : board_of from ≡ board_of on
    pub acyclic : ¬ Reaches file.todos on_id from_id

  -- What an accepted edge leaves: the edge is added to the first row of that id, if it is new.
  abbrev pub with_dep : TodoFile V F → String → String → String → TodoFile V F
  with_dep file from_id on_id now = record file {
    todos = update_first (has_id from_id) (push_dep on_id now) file.todos;
  }

  add_dep-Accepted :
      (file file' : TodoFile V F) (from_id on_id now : String)
      → add_dep file from_id on_id now ≡ ok file'
      → Accepted file from_id on_id × (file' ≡ with_dep file from_id on_id now)
  unfolding add_dep
  add_dep-Accepted file file' from_id on_id now h = elim (Option-cases (find_todo file on_id)) [
    | inl gone ↦ ground arith
    | inr (on, on_found) ↦ elim (Option-cases (find_todo file from_id)) [
      | inl gone ↦ ground arith
      | inr (from, from_found) ↦ (
        record {
          apart = ground arith;
          on = on;
          on_found = on_found;
          from = from;
          from_found = from_found;
          same_board = ground (arith, eq_iff (board_of from) (board_of on));
          acyclic = λ r. ground (arith, (dep_reaches_iff file on_id from_id).1 r);
        },
        ground arith,
      )
    ]
  ]

  Accepted-add_dep :
      (file : TodoFile V F) (from_id on_id now : String)
      → Accepted file from_id on_id
      → add_dep file from_id on_id now ≡ ok (with_dep file from_id on_id now)
  unfolding add_dep
  Accepted-add_dep file from_id on_id now a = elim (Bool-cases (dep_reaches file on_id from_id)) [
    | inl r ↦ absurd (a.acyclic ((dep_reaches_iff file on_id from_id).0 r))
    | inr r ↦ ground (
      arith,
      r,
      a.apart,
      a.on_found,
      a.from_found,
      a.same_board,
      eq_iff (board_of a.from) (board_of a.on),
    )
  ]

  -- `add_dep` accepts an edge exactly when its ends are two tasks that the board has, both of one
  -- project board, and the task depended on does not reach the dependent one along `depends_on`;
  -- the board is then the old one with the edge added to the dependent task's row.
  pub add_dep_accepts_iff :
      (file file' : TodoFile V F) (from_id on_id now : String)
      → (add_dep file from_id on_id now ≡ ok file')
        ↔ (Accepted file from_id on_id × (file' ≡ with_dep file from_id on_id now))
  add_dep_accepts_iff file file' from_id on_id now = (
    add_dep-Accepted file file' from_id on_id now,
    λ (a, e). rw e (Accepted-add_dep file from_id on_id now a),
  )

  -- On a board whose dependencies have no cycle, an edge that `add_dep` accepts closes none.
  pub add_dep-Acyclic :
      (file file' : TodoFile V F) (from_id on_id now : String)
      → Acyclic file.todos
      → add_dep file from_id on_id now ≡ ok file'
      → Acyclic file'.todos
  add_dep-Acyclic file file' from_id on_id now acyclic h =
      let (a, e) = add_dep-Accepted file file' from_id on_id now h in
      rw e (
        Acyclic-OneMore file.todos (with_dep file from_id on_id now).todos from_id on_id
          (OneMore-push_dep file.todos from_id on_id now) acyclic a.acyclic)

  -- The board's edits. `upsert` stores the edges that the row it is given carries: here those are
  -- the edges that the board has for that id, none for a new one.
  pub data Edit (file : TodoFile V F) (file' : TodoFile V F) : Type 0 where
    dep_added : (f o now : String) → add_dep file f o now ≡ ok file' → Edit file file'
    dep_removed : (f o now : String) → file' ≡ (remove_dep file f o now).0 → Edit file file'
    deleted : (id : String) → file' ≡ delete file id → Edit file file'
    status_set : (id s now : String) → file' ≡ (set_status file id s now).0 → Edit file file'
    commented :
        (fresh id author body now : String)
        → add_comment file fresh id author body now ≡ ok file'
        → Edit file file'
    uncommented : (id c now : String) → remove_comment file id c now ≡ ok file' → Edit file file'
    upserted :
        (j : Json V) (todo : Todo V F) (now : String)
        → todo.depends_on ≡ deps_of file.todos todo.id
        → file' ≡ upsert j file todo now
        → Edit file file'

  pub data Edits (file : TodoFile V F) : TodoFile V F → Type 0 where
    none_yet : Edits file file
    more : {f g : TodoFile V F} → Edits file f → Edit f g → Edits file g

  delete-fewer :
      (file : TodoFile V F) (id a b : String)
      → Edge (delete file id).todos a b
      → Edge file.todos a b
  unfolding delete
  delete-fewer file id a b e = ground (arith, deps_of-delete file.todos id a)

  upsert-SameDeps :
      (j : Json V) (file : TodoFile V F) (todo : Todo V F) (now : String)
      → todo.depends_on ≡ deps_of file.todos todo.id
      → SameDeps file (upsert j file todo now)
  upsert-SameDeps j file todo now same a =
      ground (arith, eq_iff a todo.id, deps_of-upsert j file todo now a)

  Edit-Acyclic :
      (file file' : TodoFile V F) → Edit file file' → Acyclic file.todos → Acyclic file'.todos
  Edit-Acyclic file file' (dep_added f o now e) acyclic =
      add_dep-Acyclic file file' f o now acyclic e
  Edit-Acyclic file file' (dep_removed f o now e) acyclic = rw e (
      unfold remove_dep in
      Acyclic-mono file.todos (remove_dep file f o now).0.todos (drop_dep-fewer file.todos f o now)
        acyclic)
  Edit-Acyclic file file' (deleted id e) acyclic =
      rw e (Acyclic-mono file.todos (delete file id).todos (delete-fewer file id) acyclic)
  Edit-Acyclic file file' (status_set id s now e) acyclic = rw e (
      SameDeps-Acyclic file (set_status file id s now).0 (set_status-SameDeps file id s now)
        acyclic)
  Edit-Acyclic file file' (commented fresh id author body now e) acyclic =
      SameDeps-Acyclic file file' (add_comment-SameDeps file file' fresh id author body now e)
        acyclic
  Edit-Acyclic file file' (uncommented id c now e) acyclic =
      SameDeps-Acyclic file file' (remove_comment-SameDeps file file' id c now e) acyclic
  Edit-Acyclic file file' (upserted j todo now same e) acyclic = rw e (
      SameDeps-Acyclic file (upsert j file todo now) (upsert-SameDeps j file todo now same) acyclic)

  -- From a board whose dependencies have no cycle no sequence of edits leads to one that has, where
  -- each row given to `upsert` names the dependencies that the board has for it.
  pub Edits-Acyclic :
      (file file' : TodoFile V F) → Edits file file' → Acyclic file.todos → Acyclic file'.todos
  Edits-Acyclic file file' none_yet acyclic = acyclic
  Edits-Acyclic file file' (more {f = f} edits edit) acyclic =
      Edit-Acyclic f file' edit (Edits-Acyclic file f edits acyclic)

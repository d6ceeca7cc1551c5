-- ===== src/Board/Deps/Added.antt =====
-- What `add_dep` of src-tauri/src/board/todos.rs accepts, and what it then writes into the board.
use claude_usage_tracker_win.Prelude.{
  String, ◌≡◌, ◌≢◌, refl, ◌↔◌, List, [], ◌∷◌, ◌++◌, ◌==◌, ◌&&◌, not, some, find, eq_iff,
  if◌then◌else◌, contains, update_first, ok, arith, inl, inr, ap, ◌∙◌, Bool-cases,
}
use claude_usage_tracker_win.Board.Todo.{Todo, TodoFile}
use claude_usage_tracker_win.Board.Edit.{has_id, find_todo}
use claude_usage_tracker_win.Board.Deps.{deps_of, push_dep, add_dep}
use claude_usage_tracker_win.Board.Deps.Acyclic.{Accepted, with_dep, add_dep_accepts_iff}

module _ {V F : Type 0} (from_id on_id now : String) where
  -- The rows before and after: the first row of the dependent's id has the new edge behind its old
  -- ones and the time of the edit, unless it had the edge; every other row is as it was.
  pub data EdgeRow : List (Todo V F) → List (Todo V F) → Type 0 where
    first :
        (t u : Todo V F) (ts : List (Todo V F))
        → t.id ≡ from_id
        → u ≡ (
            if contains on_id t.depends_on
            then t
            else record t { depends_on = t.depends_on ++ on_id ∷ []; updated_at = now })
        → EdgeRow (t ∷ ts) (u ∷ ts)
    later :
        (t : Todo V F) (ts us : List (Todo V F))
        → t.id ≢ from_id
        → EdgeRow ts us
        → EdgeRow (t ∷ ts) (t ∷ us)

  EdgeRow-update_first :
      (ts us : List (Todo V F))
      → EdgeRow ts us
      → us ≡ update_first (has_id from_id) (push_dep on_id now) ts
  EdgeRow-update_first _ _ (first t u ts same e) = ground (arith, eq_iff t.id from_id, same, e)
  EdgeRow-update_first _ _ (later t ts us other r) =
      ground (arith, eq_iff t.id from_id, other, EdgeRow-update_first ts us r)

  update_first-EdgeRow :
      (ts : List (Todo V F)) (t : Todo V F)
      → find (has_id from_id) ts ≡ some t
      → EdgeRow ts (update_first (has_id from_id) (push_dep on_id now) ts)
  update_first-EdgeRow [] t found = cc
  update_first-EdgeRow (u ∷ ts) t found = elim (Bool-cases (has_id from_id u)) [
    | inl e ↦ rw e (first u (push_dep on_id now u) ts ((eq_iff u.id from_id).0 e) refl)
    | inr e ↦ rw e (
        later u ts (update_first (has_id from_id) (push_dep on_id now) ts)
          (λ k. ground (arith, eq_iff u.id from_id, e, k))
          (update_first-EdgeRow ts t (ground (arith, e))))
  ]

  deps_of-update_first_push :
      (ts : List (Todo V F)) (t : Todo V F) (a : String)
      → find (has_id from_id) ts ≡ some t
      → deps_of (update_first (has_id from_id) (push_dep on_id now) ts) a ≡ (
          if a == from_id && not (contains on_id (deps_of ts from_id))
          then deps_of ts from_id ++ on_id ∷ []
          else deps_of ts a)
  unfolding deps_of
  deps_of-update_first_push [] t a found = cc
  deps_of-update_first_push (u ∷ ts) t a found = ground (
    arith,
    eq_iff u.id from_id,
    eq_iff u.id a,
    eq_iff a from_id,
    deps_of-update_first_push ts t a,
  )

  -- What an accepted edge does to the board, told apart from the code: the rows, all else of the
  -- file, and the edges of every task.
  pub record EdgeAdded (file file' : TodoFile V F) : Type 0 where
    pub rows : EdgeRow file.todos file'.todos
    pub rest : file' ≡ record file { todos = file'.todos }
    pub edges :
        (a : String)
        → deps_of file'.todos a ≡ (
            if a == from_id && not (contains on_id (deps_of file.todos from_id))
            then deps_of file.todos from_id ++ on_id ∷ []
            else deps_of file.todos a)

  with_dep-EdgeAdded :
      (file : TodoFile V F)
      → Accepted file from_id on_id
      → EdgeAdded file (with_dep file from_id on_id now)
  with_dep-EdgeAdded file a =
      let found : find (has_id from_id) file.todos ≡ some a.from =
        unfold find_todo in a.from_found in
      record {
        rows = update_first-EdgeRow file.todos a.from found;
        rest = refl;
        edges = λ b. deps_of-update_first_push file.todos a.from b found;
      }

  EdgeAdded-with_dep :
      (file file' : TodoFile V F) → EdgeAdded file file' → file' ≡ with_dep file from_id on_id now
  EdgeAdded-with_dep file file' e =
      e.rest
      ∙ ap (λ (ts : List (Todo V F)). record file { todos = ts })
          (EdgeRow-update_first file.todos file'.todos e.rows)

  -- `add_dep` accepts an edge exactly when its ends are two tasks that the board has, both of one
  -- project board, and the task depended on does not reach the dependent one along `depends_on`.
  -- The board is then the old one but for the first row of the dependent's id: if it lacked the
  -- edge, it has it behind its old ones, and the time of the edit. So the task has its old edges
  -- and the new one, and every other task the edges it had.
  pub add_dep-EdgeAdded :
      (file file' : TodoFile V F)
      → (add_dep file from_id on_id now ≡ ok file')
        ↔ (Accepted file from_id on_id × EdgeAdded file file')
  add_dep-EdgeAdded file file' = (
    λ h.
        let (a, e) = (add_dep_accepts_iff file file' from_id on_id now).0 h in
        (a, rw e (with_dep-EdgeAdded file a)),
    λ (a, e).
        (add_dep_accepts_iff file file' from_id on_id now).1 (a, EdgeAdded-with_dep file file' e),
  )

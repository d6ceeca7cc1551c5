-- ===== src/Board/Deps.antt =====
-- The dependency edges of the board (src-tauri/src/board/todos.rs): `board_of`, `dep_reaches`,
-- `add_dep` and `remove_dep`. The depth-first search keeps its stack as a list, top first, and runs
-- on fuel: every round pops one entry, and a task's edges are pushed only at its first visit, so
-- one round for each entry ever pushed and one more are enough (`visit_total` in the child Search).
pub mod Search
pub mod Edges
pub mod Acyclic
pub mod Added
use claude_usage_tracker_win.Prelude.{
  ℕ, zero, suc, ◌+◌, String, Bool, true, false, not, ◌&&◌, Option, none, some, List, [], ◌∷◌, ◌++◌,
  ◌==◌, eqb, if◌then◌else◌, length, any, find, retain, update_first, contains, Result, ok, err,
}
use claude_usage_tracker_win.Board.Todo.{Todo, TodoFile}
use claude_usage_tracker_win.Board.Edit.{has_id, find_todo, no_task}

-- `unwrap_or("")`, `unwrap_or(false)`
abbrev pub unwrap_or {ℓ} : {A : Type ℓ} → Option A → A → A
unwrap_or none d = d
unwrap_or (some x) d = x

-- `for d in ds { stack.push(d) }`
unfoldable pub push_all : List String → List String → List String
push_all [] stack = stack
push_all (d ∷ ds) stack = push_all ds (d ∷ stack)

module _ {V F : Type 0} where
  unfoldable pub board_of : Todo V F → String
  board_of t = unwrap_or t.project ""

  -- What the search pushes for `id`: the edges of the first row with that id, if there is one.
  unfoldable pub deps_of : List (Todo V F) → String → List String
  deps_of [] id = []
  deps_of (t ∷ ts) id = if has_id id t then t.depends_on else deps_of ts id

  unfoldable pub visit : ℕ → List (Todo V F) → String → List String → List String → Option Bool
  visit zero ts target stack seen = none
  visit (suc fuel) ts target [] seen = some false
  visit (suc fuel) ts target (id ∷ stack) seen =
      let skip = visit fuel ts target stack seen in
      let expand = visit fuel ts target (push_all (deps_of ts id) stack) (id ∷ seen) in
      if id == target then some true else if contains id seen then skip else expand

  unfoldable pub total_deps : List (Todo V F) → ℕ
  total_deps [] = 0
  total_deps (t ∷ ts) = length t.depends_on + total_deps ts

  unfoldable pub dep_reaches : TodoFile V F → String → String → Bool
  dep_reaches file start target =
      unwrap_or (visit (total_deps file.todos + 2) file.todos target (start ∷ []) []) false

  abbrev pub push_dep : String → String → Todo V F → Todo V F
  push_dep on_id now t =
      if contains on_id t.depends_on
      then t
      else record t { depends_on = t.depends_on ++ on_id ∷ []; updated_at = now }

  unfoldable pub add_dep : TodoFile V F → String → String → String → Result String (TodoFile V F)
  add_dep file from_id on_id now =
      if from_id == on_id
      then err "a task can't depend on itself"
      else elim (find_todo file on_id) [
        | none ↦ err (no_task on_id)
        | some on ↦ elim (find_todo file from_id) [
          | none ↦ err (no_task from_id)
          | some from ↦
              if not (board_of from == board_of on)
              then err "dependencies must stay within one project board"
              else if dep_reaches file on_id from_id
              then err "that dependency would create a cycle"
              else ok (record file {
                todos = update_first (has_id from_id) (push_dep on_id now) file.todos;
              })
        ]
      ]

  abbrev pub drop_dep : String → String → Todo V F → Todo V F
  drop_dep on_id now t =
      let kept = retain (λ d. not (d == on_id)) t.depends_on in
      record t {
        depends_on = kept;
        updated_at = if eqb (length kept) (length t.depends_on) then t.updated_at else now;
      }

  -- Whether the row's list of edges would get shorter.
  abbrev pub drops_dep : String → Option (Todo V F) → Bool
  drops_dep on_id none = false
  drops_dep on_id (some t) =
      not (eqb (length (retain (λ d. not (d == on_id)) t.depends_on)) (length t.depends_on))

  unfoldable pub remove_dep : TodoFile V F → String → String → String → TodoFile V F × Bool
  remove_dep file from_id on_id now = (
    record file { todos = update_first (has_id from_id) (drop_dep on_id now) file.todos },
    drops_dep on_id (find_todo file from_id),
  )

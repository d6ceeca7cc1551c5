-- ===== src/Board/Graph.antt =====
-- Which tasks a change's run is drawn with: `subtree` of src-tauri/src/board/graph.rs, with
-- `TodoFile::find_change` (todos.rs) and `resolve_task_ref` (task_sessions.rs). The walk keeps its
-- stack as a list, top first, and runs on fuel: one round for each entry ever pushed and one more
-- (`collect_total` in the child Walk). A hash set is a list; what the walk has found is sorted.
pub mod Walk
mod Tests
use Prim.Native.Char.{code}
use claude_usage_tracker_win.Prelude.{
  ℕ, zero, suc, ◌+◌, String, Bool, true, false, not, ◌&&◌, ◌||◌, Option, none, some, List, [], ◌∷◌,
  ◌==◌, eqb, ltb, if◌then◌else◌, contains, find, map, retain, str_lt, trim, codes, parse_u32,
}
use claude_usage_tracker_win.Board.Todo.{Todo, TodoFile, Change}
use claude_usage_tracker_win.Board.Edit.{has_id, change_members}
use claude_usage_tracker_win.Board.Deps.{total_deps}
use claude_usage_tracker_win.Board.Import.{local_by_id}

-- `trim_start_matches("t#")` and `trim_start_matches('#')`
unfoldable pub strip_t_hashes : String → String
strip_t_hashes String.[] = String.[]
strip_t_hashes (String.◌∷◌ c String.[]) = String.◌∷◌ c String.[]
strip_t_hashes (String.◌∷◌ c (String.◌∷◌ d s)) =
    let rest = strip_t_hashes s in
    if eqb (code c) b't' && eqb (code d) b'#' then rest else String.◌∷◌ c (String.◌∷◌ d s)

unfoldable pub strip_hashes : String → String
strip_hashes String.[] = String.[]
strip_hashes (String.◌∷◌ c s) =
    let rest = strip_hashes s in if eqb (code c) b'#' then rest else String.◌∷◌ c s

-- `trim_start_matches(['c', 'C'])`
unfoldable pub strip_cs : String → String
strip_cs String.[] = String.[]
strip_cs (String.◌∷◌ c s) =
    let rest = strip_cs s in if eqb (code c) b'c' || eqb (code c) b'C' then rest else String.◌∷◌ c s

-- `for d in ds { if !seen.contains(d) { stack.push(d) } }`
unfoldable pub push_unseen : List String → List String → List String → List String
push_unseen [] seen stack = stack
push_unseen (d ∷ ds) seen stack = push_unseen ds seen (if contains d seen then stack else d ∷ stack)

abbrev pub found : Option (List String) → List String
found none = []
found (some ids) = ids

module _ {V F : Type 0} where
  -- `map(|t| t.id.clone())`
  abbrev pub id_of : Option (Todo V F) → Option String
  id_of none = none
  id_of (some t) = some t.id

  abbrev pub with_number : List (Todo V F) → Option ℕ → Option String
  with_number ts none = none
  with_number ts (some n) = id_of (find (λ t. eqb t.number n) ts)

  unfoldable pub resolve_task_ref : TodoFile V F → String → Option String
  resolve_task_ref file task_ref = elim (find (has_id (trim task_ref)) file.todos) [
    | some t ↦ some t.id
    | none ↦
        with_number file.todos (parse_u32 (codes (strip_hashes (strip_t_hashes (trim task_ref)))))
  ]

  -- The tasks that the row of that id depends on; of several such rows the last counts.
  unfoldable pub edges_of : List (Todo V F) → String → List String
  edges_of ts id = elim (local_by_id ts id) [ none ↦ [] | some t ↦ t.depends_on ]

  unfoldable pub collect : ℕ → List (Todo V F) → List String → List String → Option (List String)
  collect zero ts stack seen = none
  collect (suc fuel) ts [] seen = some seen
  collect (suc fuel) ts (id ∷ stack) seen =
      let skip = collect fuel ts stack seen in
      let expand = collect fuel ts (push_unseen (edges_of ts id) (id ∷ seen) stack) (id ∷ seen) in
      if contains id seen then skip else expand

  -- Whether the board has a row of that id.
  abbrev pub on_board : List (Todo V F) → String → Bool
  on_board ts id = elim (local_by_id ts id) [ none ↦ false | some t ↦ true ]

  abbrev pub number_of : List (Todo V F) → String → ℕ
  number_of ts id = elim (local_by_id ts id) [ none ↦ 0 | some t ↦ t.number ]

  -- `sort_by_key` by the number and the id.
  unfoldable pub insert_id : List (Todo V F) → String → List String → List String
  insert_id ts a [] = a ∷ []
  insert_id ts a (b ∷ bs) =
      let rest = insert_id ts a bs in
      if ltb (number_of ts b) (number_of ts a)
        || (eqb (number_of ts b) (number_of ts a) && str_lt b a)
      then b ∷ rest
      else a ∷ b ∷ bs

  unfoldable pub sort_ids : List (Todo V F) → List String → List String
  sort_ids ts [] = []
  sort_ids ts (a ∷ as') = insert_id ts a (sort_ids ts as')

  -- The walk from a root.
  unfoldable pub subtree_of : List (Todo V F) → String → List String
  subtree_of ts root =
      sort_ids ts (retain (on_board ts) (found (collect (total_deps ts + 2) ts (root ∷ []) [])))

  abbrev pub change_numbered : List (Change V F) → Option ℕ → Option (Change V F)
  change_numbered cs none = none
  change_numbered cs (some n) = find (λ c. eqb c.number n) cs

  unfoldable pub find_change : TodoFile V F → String → Option (Change V F)
  find_change file change_ref = elim (find (λ c. c.id == trim change_ref) file.changes) [
    | some c ↦ some c
    | none ↦
        change_numbered file.changes
          (parse_u32 (codes (trim (strip_hashes (strip_cs (trim change_ref))))))
  ]

  abbrev pub subtree_or_none : List (Todo V F) → Option String → List String
  subtree_or_none ts none = []
  subtree_or_none ts (some root) = subtree_of ts root

  unfoldable pub subtree : TodoFile V F → String → List String
  subtree file change_ref = elim (find_change file change_ref) [
    | some change ↦ map (λ t. t.id) (change_members file change.id)
    | none ↦ subtree_or_none file.todos (resolve_task_ref file change_ref)
  ]

-- ===== src/Board/Import/Resolve.antt =====
-- The first pass of `merge_import` of src-tauri/src/board/todos.rs: which incoming tasks are on the
-- board already, and the id and the number that every other one gets.
use claude_usage_tracker_win.Prelude.{
  u32, ℕ, suc, ◌+◌, String, Bool, not, ◌&&◌, ◌||◌, Option, none, some, List, [], ◌∷◌, ◌==◌, eqb,
  ltb, if◌then◌else◌, any, str_lt, Dict, insert,
}
use claude_usage_tracker_win.Board.Todo.{Todo, TodoFile}
use claude_usage_tracker_win.Board.Edit.{has_id, max_number}
use claude_usage_tracker_win.Board.Numbers.Assign.{listed}
use claude_usage_tracker_win.Board.Refs.{NumberMap, positive_numbers}

-- An entry of `plan`.
pub record Planned (V F : Type 0) : Type 0 where
  pub src : Todo V F
  pub final_id : String
  pub final_number : ℕ  -- u32
  pub kind : String

-- What the first pass keeps: both maps, the numbers taken, the counter, the ids drawn so far.
pub record Resolving : Type 0 where
  pub id_map : Dict String
  pub number_map : NumberMap
  pub taken_numbers : List ℕ
  pub next_number : ℕ  -- u32
  pub drawn : ℕ
  pub unchanged : ℕ

-- `if t.number > 0 && n != t.number { number_map.insert(t.number, n) }`
abbrev pub note_number : NumberMap → ℕ → ℕ → NumberMap
note_number m old new = if not (eqb old 0) && not (eqb new old) then (old, new) ∷ m else m

abbrev pub kind_of : Bool → Bool → String
kind_of forked collides = if forked then "forked" else if collides then "renumbered" else "added"

module _ {V F : Type 0} where
  -- The order of the merge: by number, then by id; `sort_by` is stable.
  abbrev pub goes_before : Todo V F → Todo V F → Bool
  goes_before s t = ltb s.number t.number || (eqb s.number t.number && str_lt s.id t.id)

  unfoldable pub insert_sorted : Todo V F → List (Todo V F) → List (Todo V F)
  insert_sorted t [] = t ∷ []
  insert_sorted t (s ∷ ts) =
      let rest = insert_sorted t ts in if goes_before s t then s ∷ rest else t ∷ s ∷ ts

  unfoldable pub sorted : List (Todo V F) → List (Todo V F)
  sorted [] = []
  sorted (t ∷ ts) = insert_sorted t (sorted ts)

  -- `local_by_id.get(id)`: of several rows with that id the last.
  unfoldable pub local_by_id : List (Todo V F) → String → Option (Todo V F)
  local_by_id [] id = none
  local_by_id (t ∷ ts) id = elim (local_by_id ts id) [
    | some later ↦ some later
    | none ↦ if has_id id t then some t else none
  ]

  -- The local row that is the same version of the task.
  unfoldable pub same_version : List (Todo V F) → Todo V F → Option (Todo V F)
  same_version locals t = elim (local_by_id locals t.id) [
    | none ↦ none
    | some existing ↦ if existing.updated_at == t.updated_at then some existing else none
  ]

  unfoldable pub skip_unchanged : Resolving → Todo V F → Todo V F → Resolving
  skip_unchanged st t existing = record st {
    id_map = insert st.id_map t.id t.id;
    number_map = note_number st.number_map t.number existing.number;
    unchanged = suc st.unchanged;
  }

  abbrev pub collides : Resolving → Todo V F → Bool
  collides st t = eqb t.number 0 || listed t.number st.taken_numbers

  unfoldable pub plan_one :
      (new_id : ℕ → String) (locals : List (Todo V F)) → Resolving → Todo V F → Planned V F
  plan_one new_id locals st t =
      let forked = any (has_id t.id) locals in
      record {
        src = t;
        final_id = if forked then new_id st.drawn else t.id;
        final_number = if collides st t then st.next_number else t.number;
        kind = kind_of forked (collides st t);
      }

  unfoldable pub after_plan : List (Todo V F) → Resolving → Planned V F → Resolving
  after_plan locals st p = record st {
    id_map = insert st.id_map p.src.id p.final_id;
    number_map = note_number st.number_map p.src.number p.final_number;
    taken_numbers = p.final_number ∷ st.taken_numbers;
    next_number = if collides st p.src then u32 (st.next_number + 1) else st.next_number;
    drawn = if any (has_id p.src.id) locals then suc st.drawn else st.drawn;
  }

  -- The first pass, over the sorted rows.
  unfoldable pub resolve :
      (new_id : ℕ → String) (locals : List (Todo V F))
      → Resolving
      → List (Todo V F)
      → Resolving × List (Planned V F)
  resolve new_id locals st [] = (st, [])
  resolve new_id locals st (t ∷ ts) = elim (same_version locals t) [
    | some existing ↦ resolve new_id locals (skip_unchanged st t existing) ts
    | none ↦
        let p = plan_one new_id locals st t in
        let (st', ps) = resolve new_id locals (after_plan locals st p) ts in (st', p ∷ ps)
  ]

  abbrev pub start : TodoFile V F → Resolving
  start file = record {
    id_map = [];
    number_map = [];
    taken_numbers = positive_numbers file.todos;
    next_number = u32 (max_number file + 1);
    drawn = 0;
    unchanged = 0;
  }

-- ===== src/Board/Import.antt =====
-- `merge_import` of src-tauri/src/board/todos.rs: an exported board merged into the local one. Its
-- three passes are functions of their own: `resolve` (identity and numbers), `materialize_all` (the
-- new rows), `replay` (their dependencies through `add_dep`). `new_id` gives the ids that the
-- program draws, by the number of the draw; a hash set is a list, a hash map a list of entries.
mod Resolve
pub mod Counts
pub mod Acyclic
pub mod Local
pub mod Fresh
pub mod Sorted
pub mod Stamps
pub mod Twice
pub mod Restored
pub mod Idempotent
mod Tests
unfoldable pub use Resolve.*
use claude_usage_tracker_win.Prelude.{
  u32, ℕ, zero, suc, ◌+◌, ◌-◌, String, Bool, true, false, not, ◌&&◌, ◌||◌, Option, none, some, List,
  [], ◌∷◌, ◌++◌, ◌==◌, eqb, ltb, if◌then◌else◌, length, contains, retain, any, map, str_lt, Dict,
  get, insert, Result, ok, err,
}
use claude_usage_tracker_win.Board.Todo.{Todo, TodoFile, Comment}
use claude_usage_tracker_win.Board.Edit.{has_id, max_number}
use claude_usage_tracker_win.Board.Deps.{unwrap_or, add_dep}
use claude_usage_tracker_win.Board.Numbers.Assign.{listed}
use claude_usage_tracker_win.Board.Refs.{Unicode, NumberMap, remap_inline_refs, positive_numbers}

pub record ImportItem : Type 0 where
  pub subject : String
  pub kind : String
  pub from_number : ℕ  -- u32
  pub to_number : ℕ  -- u32

pub record ImportReport : Type 0 where
  pub added : ℕ
  pub renumbered : ℕ
  pub forked : ℕ
  pub unchanged : ℕ
  pub dropped_edges : ℕ
  pub rewritten_refs : ℕ
  pub backup : Option String
  pub total_after : ℕ
  pub items : List ImportItem

abbrev pub default_report : ImportReport
default_report = record {
  added = 0;
  renumbered = 0;
  forked = 0;
  unchanged = 0;
  dropped_edges = 0;
  rewritten_refs = 0;
  backup = none;
  total_after = 0;
  items = [];
}

-- A row of the second pass, with the edges held back and what the report counts.
pub record Materialized (V F : Type 0) : Type 0 where
  pub row : Todo V F
  pub wanted : List String
  pub moved : ℕ
  pub dropped : ℕ

-- `Vec::dedup`
unfoldable pub dedup : List String → List String
dedup [] = []
dedup (x ∷ []) = x ∷ []
dedup (x ∷ y ∷ xs) = let rest = dedup (y ∷ xs) in if x == y then rest else x ∷ rest

-- `id_map.get(id).cloned().unwrap_or(id)`
abbrev pub rewired : Dict String → String → String
rewired ids id = unwrap_or (get ids id) id

abbrev pub present : List String → List String → String → Bool
present final_ids local_ids id = contains id final_ids || contains id local_ids

module _ (u : Unicode) where
  unfoldable pub remap_comments : NumberMap → List Comment → List Comment × ℕ
  remap_comments m [] = ([], 0)
  remap_comments m (c ∷ cs) =
      let (body, n) = remap_inline_refs u c.body m in
      let (rest, k) = remap_comments m cs in (record c { body = body } ∷ rest, n + k)

-- The `issue` transition: where it leads now, and whether it was dropped.
abbrev pub rewired_issue :
    (ids : Dict String) (final_ids local_ids : List String) → Option String → Option String × ℕ
rewired_issue ids final_ids local_ids none = (none, 0)
rewired_issue ids final_ids local_ids (some target) =
    let mapped = rewired ids target in
    if present final_ids local_ids mapped then (some mapped, 0) else (none, 1)

-- The links onto the final ids, without those whose target is not on the merged board.
unfoldable pub rewired_links :
    (ids : Dict String) (final_ids local_ids : List String) → List String → List String
rewired_links ids final_ids local_ids links =
    dedup (retain (present final_ids local_ids) (map (rewired ids) links))

module _ {V F : Type 0} where
  -- What the report says of a task of the second pass.
  unfoldable pub report_one : ImportReport → Planned V F → Materialized V F → ImportReport
  report_one report p m = record report {
    forked = if p.kind == "forked" then suc report.forked else report.forked;
    renumbered =
        if p.kind == "forked"
        then report.renumbered
        else if p.kind == "renumbered"
        then suc report.renumbered
        else report.renumbered;
    added =
        if p.kind == "forked"
        then report.added
        else if p.kind == "renumbered"
        then report.added
        else suc report.added;
    rewritten_refs = report.rewritten_refs + m.moved;
    dropped_edges = report.dropped_edges + m.dropped;
    items =
        report.items
        ++ record {
          subject = m.row.subject;
          kind = p.kind;
          from_number = p.src.number;
          to_number = p.final_number;
        }
          ∷ [];
  }

module _ {V F : Type 0} (u : Unicode) where
  -- The second pass for one task.
  unfoldable pub materialize :
      (st : Resolving) (final_ids local_ids : List String) (now : String)
      → Planned V F
      → Materialized V F
  materialize st final_ids local_ids now p =
      let t = p.src in
      let desc = remap_inline_refs u t.description st.number_map in
      let plan = remap_inline_refs u t.plan st.number_map in
      let handoff = remap_inline_refs u t.handoff st.number_map in
      let comments = remap_comments u st.number_map t.comments in
      let links = rewired_links st.id_map final_ids local_ids t.links in
      let issue = rewired_issue st.id_map final_ids local_ids t.on_issue in
      record {
        row = record t {
          id = p.final_id;
          number = p.final_number;
          imported_at = some now;
          description = desc.0;
          plan = plan.0;
          handoff = handoff.0;
          comments = comments.0;
          links = links;
          on_issue = issue.0;
          depends_on = [];
        };
        wanted = map (rewired st.id_map) t.depends_on;
        moved = desc.1 + plan.1 + handoff.1 + comments.1;
        dropped = (length t.links - length links) + issue.1;
      }

  -- The new rows, the edges held back, and the report.
  unfoldable pub materialize_all :
      (st : Resolving) (final_ids local_ids : List String) (now : String)
      → ImportReport
      → List (Planned V F)
      → List (Todo V F) × List (String × List String) × ImportReport
  materialize_all st final_ids local_ids now report [] = ([], [], report)
  materialize_all st final_ids local_ids now report (p ∷ ps) =
      let m = materialize st final_ids local_ids now p in
      let (rows, deferred, report') =
        materialize_all st final_ids local_ids now (report_one report p m) ps in
      (m.row ∷ rows, (p.final_id, m.wanted) ∷ deferred, report')

module _ {V F : Type 0} where
  -- The third pass: the board, and how many edges `add_dep` refused.
  unfoldable pub replay_one : TodoFile V F → String → List String → String → TodoFile V F × ℕ
  replay_one file from_id [] now = (file, 0)
  replay_one file from_id (on_id ∷ wanted) now = elim (add_dep file from_id on_id now) [
    | ok file' ↦ replay_one file' from_id wanted now
    | err why ↦ let (file', n) = replay_one file from_id wanted now in (file', suc n)
  ]

  unfoldable pub replay : TodoFile V F → List (String × List String) → String → TodoFile V F × ℕ
  replay file [] now = (file, 0)
  replay file ((from_id, wanted) ∷ deferred) now =
      let (file', n) = replay_one file from_id wanted now in
      let (file'', k) = replay file' deferred now in (file'', n + k)

  -- `original`: the timestamps of the file, by final id.
  unfoldable pub originals : Dict String → Dict String → List (Todo V F) → Dict String
  originals ids acc [] = acc
  originals ids acc (t ∷ ts) = elim (get ids t.id) [
    | none ↦ originals ids acc ts
    | some final_id ↦ originals ids (insert acc final_id t.updated_at) ts
  ]

  unfoldable pub restore_row : Dict String → Todo V F → Todo V F
  restore_row original t = elim (get original t.id) [
    | none ↦ t
    | some at ↦ if at == "" then t else record t { updated_at = at }
  ]

module _ {V F : Type 0} (u : Unicode) (new_id : ℕ → String) where
  -- The first pass of the merge.
  unfoldable pub resolve_import : TodoFile V F → TodoFile V F → Resolving × List (Planned V F)
  resolve_import file incoming = resolve new_id file.todos (start file) (sorted incoming.todos)

  -- The second pass of the merge.
  unfoldable pub materialize_import :
      TodoFile V F
      → TodoFile V F
      → String
      → List (Todo V F) × List (String × List String) × ImportReport
  materialize_import file incoming now =
      let (st, plan) = resolve_import file incoming in
      materialize_all u st (map (λ p. p.final_id) plan) (map (λ t. t.id) file.todos) now
        (record default_report { unchanged = st.unchanged }) plan

  -- The board after the third pass, and the edges dropped there.
  unfoldable pub replay_import : TodoFile V F → TodoFile V F → String → TodoFile V F × ℕ
  replay_import file incoming now =
      let (rows, deferred, report) = materialize_import file incoming now in
      replay (record file { todos = file.todos ++ rows }) deferred now

  unfoldable pub merge_import : TodoFile V F → TodoFile V F → String → TodoFile V F × ImportReport
  merge_import file incoming now =
      let st = (resolve_import file incoming).0 in
      let report = (materialize_import file incoming now).2 in
      let (merged, dropped) = replay_import file incoming now in
      let original = originals st.id_map [] incoming.todos in
      let todos = map (restore_row original) merged.todos in
      (
        record merged { todos = todos },
        record report {
          dropped_edges = report.dropped_edges + dropped;
          total_after = length todos;
        },
      )

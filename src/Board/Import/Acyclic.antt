-- ===== src/Board/Import/Acyclic.antt =====
-- `merge_import` of src-tauri/src/board/todos.rs keeps the dependency graph free of cycles.
use claude_usage_tracker_win.Prelude.{
  ℕ, String, ◌≡◌, refl, inl, inr, List, [], ◌∷◌, ◌++◌, map, All, arith, Result-cases, get,
  Option-cases, Dict,
}
use claude_usage_tracker_win.Board.Todo.{Todo, TodoFile}
use claude_usage_tracker_win.Board.Deps.{add_dep, deps_of}
use claude_usage_tracker_win.Board.Deps.Edges.{Acyclic, SameDeps-Acyclic}
use claude_usage_tracker_win.Board.Deps.Acyclic.{add_dep-Acyclic}
use claude_usage_tracker_win.Board.Refs.{Unicode}
use claude_usage_tracker_win.Board.Import.{
  Planned, Resolving, ImportReport, materialize, report_one, materialize_all, replay_one, replay,
  originals, restore_row, resolve_import, materialize_import, replay_import, merge_import,
  default_report,
}

module _ {V F : Type 0} where
  abbrev NoDeps : List (Todo V F) → Type 0
  NoDeps rows = All (λ t. t.depends_on ≡ []) rows

  deps_of-NoDeps : (rows : List (Todo V F)) (a : String) → NoDeps rows → deps_of rows a ≡ []
  unfolding deps_of
  deps_of-NoDeps [] a h = refl
  deps_of-NoDeps (t ∷ rows) a h = ground (arith, h.0, deps_of-NoDeps rows a h.1)

  deps_of-new_rows :
      (ts rows : List (Todo V F)) (a : String) → NoDeps rows → deps_of (ts ++ rows) a ≡ deps_of ts a
  unfolding deps_of
  deps_of-new_rows [] rows a h = deps_of-NoDeps rows a h
  deps_of-new_rows (t ∷ ts) rows a h = ground (arith, deps_of-new_rows ts rows a h)

  materialize-no_deps :
      (u : Unicode) (st : Resolving) (finals locals : List String) (now : String) (p : Planned V F)
      → (materialize u st finals locals now p).row.depends_on ≡ []
  unfolding materialize
  materialize-no_deps u st finals locals now p = refl

  materialize_all-NoDeps :
      (u : Unicode) (st : Resolving) (finals locals : List String) (now : String) (r : ImportReport)
      (ps : List (Planned V F))
      → NoDeps (materialize_all u st finals locals now r ps).0
  unfolding materialize_all
  materialize_all-NoDeps u st finals locals now r [] = tt
  materialize_all-NoDeps u st finals locals now r (p ∷ ps) = (
    materialize-no_deps u st finals locals now p,
    materialize_all-NoDeps u st finals locals now
        (report_one r p (materialize u st finals locals now p)) ps,
  )

  replay_one-Acyclic :
      (file : TodoFile V F) (from_id : String) (wanted : List String) (now : String)
      → Acyclic file.todos
      → Acyclic (replay_one file from_id wanted now).0.todos
  unfolding replay_one
  replay_one-Acyclic file from_id [] now acyclic = acyclic
  replay_one-Acyclic file from_id (on_id ∷ wanted) now acyclic =
      elim (Result-cases (add_dep file from_id on_id now)) [
        | inl (file', e) ↦
            rw (e, replay_one)
              (replay_one-Acyclic file' from_id wanted now
                (add_dep-Acyclic file file' from_id on_id now acyclic e))
        | inr (why, e) ↦ rw (e, replay_one) (replay_one-Acyclic file from_id wanted now acyclic)
      ]

  replay-Acyclic :
      (file : TodoFile V F) (deferred : List (String × List String)) (now : String)
      → Acyclic file.todos
      → Acyclic (replay file deferred now).0.todos
  unfolding replay
  replay-Acyclic file [] now acyclic = acyclic
  replay-Acyclic file ((from_id, wanted) ∷ deferred) now acyclic =
      replay-Acyclic (replay_one file from_id wanted now).0 deferred now
        (replay_one-Acyclic file from_id wanted now acyclic)

  restore_row-keeps :
      (original : Dict String) (t : Todo V F)
      → ((restore_row original t).id ≡ t.id) × ((restore_row original t).depends_on ≡ t.depends_on)
  unfolding restore_row
  restore_row-keeps original t = elim (Option-cases (get original t.id)) [
    | inl e ↦ (ground (arith, e), ground (arith, e))
    | inr (at, e) ↦ (ground (arith, e), ground (arith, e))
  ]

  deps_of-restore :
      (original : Dict String) (ts : List (Todo V F)) (a : String)
      → deps_of (map (restore_row original) ts) a ≡ deps_of ts a
  unfolding deps_of
  deps_of-restore original [] a = refl
  deps_of-restore original (t ∷ ts) a =
      ground (arith, restore_row-keeps original t, deps_of-restore original ts a)

-- A local board whose dependencies have no cycle has none after the merge with any file, also one
-- whose own dependencies have cycles.
pub merge_import-Acyclic :
    {V F : Type 0} (u : Unicode) (new_id : ℕ → String) (file incoming : TodoFile V F) (now : String)
    → Acyclic file.todos
    → Acyclic (merge_import u new_id file incoming now).0.todos
unfolding merge_import replay_import materialize_import
merge_import-Acyclic u new_id file incoming now acyclic =
    let r = resolve_import u new_id file incoming in
    let m = materialize_import u new_id file incoming now in
    let appended = record file { todos = file.todos ++ m.0 } in
    let no_deps =
      materialize_all-NoDeps u r.0 (map (λ p. p.final_id) r.1) (map (λ t. t.id) file.todos) now
        (record default_report { unchanged = r.0.unchanged }) r.1 in
    SameDeps-Acyclic (replay appended m.1 now).0 (merge_import u new_id file incoming now).0
      (deps_of-restore (originals r.0.id_map [] incoming.todos) (replay appended m.1 now).0.todos)
      (replay-Acyclic appended m.1 now
        (SameDeps-Acyclic file appended (λ a. deps_of-new_rows file.todos m.0 a no_deps) acyclic))

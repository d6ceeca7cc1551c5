-- ===== src/Board/Import/Counts.antt =====
-- What the report of `merge_import` of src-tauri/src/board/todos.rs counts.
use claude_usage_tracker_win.Prelude.{
  ℕ, suc, ◌+◌, String, ◌≡◌, refl, inl, inr, Bool, List, [], ◌∷◌, ◌++◌, ◌∙◌, eq_iff, length, map,
  length-append, arith, ok, Option-cases, Result-cases, update_first,
}
use claude_usage_tracker_win.Board.Todo.{Todo, TodoFile}
use claude_usage_tracker_win.Board.Edit.{has_id}
use claude_usage_tracker_win.Board.Deps.{add_dep, push_dep}
use claude_usage_tracker_win.Board.Deps.Acyclic.{add_dep_accepts_iff}
use claude_usage_tracker_win.Board.Refs.{Unicode}
use claude_usage_tracker_win.Board.Import.{
  Planned, Resolving, Materialized, ImportReport, insert_sorted, sorted, same_version,
  skip_unchanged, plan_one, after_plan, resolve, materialize, report_one, materialize_all,
  replay_one, replay, originals, restore_row, resolve_import, materialize_import, replay_import,
  merge_import, start, default_report,
}

length-update_first :
    {V : Type 0} (p : V → Bool) (f : V → V) (xs : List V) → length (update_first p f xs) ≡ length xs
length-update_first p f [] = refl
length-update_first p f (x ∷ xs) = ground (arith, length-update_first p f xs)

length-map : {A B : Type 0} (f : A → B) (xs : List A) → length (map f xs) ≡ length xs
length-map f [] = refl
length-map f (x ∷ xs) = ground (arith, length-map f xs)

-- How many tasks the report has put on the board.
abbrev pub arrived : ImportReport → ℕ
arrived r = r.added + r.renumbered + r.forked

module _ {V F : Type 0} where
  length-insert_sorted :
      (t : Todo V F) (ts : List (Todo V F)) → length (insert_sorted t ts) ≡ suc (length ts)
  unfolding insert_sorted
  length-insert_sorted t [] = refl
  length-insert_sorted t (s ∷ ts) = ground (arith, length-insert_sorted t ts)

  pub length-sorted : (ts : List (Todo V F)) → length (sorted ts) ≡ length ts
  unfolding sorted
  length-sorted [] = refl
  length-sorted (t ∷ ts) = omega (arith, length-insert_sorted t (sorted ts), length-sorted ts)

  -- A row is skipped and counted, or planned.
  resolve-counts :
      (new_id : ℕ → String) (locals : List (Todo V F)) (st : Resolving) (ts : List (Todo V F))
      → (resolve new_id locals st ts).0.unchanged + length (resolve new_id locals st ts).1
        ≡ st.unchanged + length ts
  unfolding resolve skip_unchanged after_plan plan_one
  resolve-counts new_id locals st [] = refl
  resolve-counts new_id locals st (t ∷ ts) = elim (Option-cases (same_version locals t)) [
    | inl new ↦ ground (
      arith,
      resolve-counts new_id locals (after_plan locals st (plan_one new_id locals st t)) ts,
    )
    | inr (existing, same) ↦
        ground (arith, resolve-counts new_id locals (skip_unchanged st t existing) ts)
  ]

  report_one-arrived :
      (r : ImportReport) (p : Planned V F) (m : Materialized V F)
      → arrived (report_one r p m) ≡ suc (arrived r)
  unfolding report_one
  report_one-arrived r p m = ground (arith, eq_iff p.kind "forked", eq_iff p.kind "renumbered")

  report_one-unchanged :
      (r : ImportReport) (p : Planned V F) (m : Materialized V F)
      → (report_one r p m).unchanged ≡ r.unchanged
  unfolding report_one
  report_one-unchanged r p m = refl

  add_dep-length :
      (file file' : TodoFile V F) (from_id on_id now : String)
      → add_dep file from_id on_id now ≡ ok file'
      → length file'.todos ≡ length file.todos
  add_dep-length file file' from_id on_id now h =
      let (a, e) = (add_dep_accepts_iff file file' from_id on_id now).0 h in
      rw e (length-update_first (has_id from_id) (push_dep on_id now) file.todos)

  replay_one-length :
      (file : TodoFile V F) (from_id : String) (wanted : List String) (now : String)
      → length (replay_one file from_id wanted now).0.todos ≡ length file.todos
  unfolding replay_one
  replay_one-length file from_id [] now = refl
  replay_one-length file from_id (on_id ∷ wanted) now =
      elim (Result-cases (add_dep file from_id on_id now)) [
        | inl (file', e) ↦ ground (
          arith,
          replay_one-length file' from_id wanted now,
          add_dep-length file file' from_id on_id now e,
        )
        | inr (why, e) ↦ ground (arith, replay_one-length file from_id wanted now)
      ]

  replay-length :
      (file : TodoFile V F) (deferred : List (String × List String)) (now : String)
      → length (replay file deferred now).0.todos ≡ length file.todos
  unfolding replay
  replay-length file [] now = refl
  replay-length file ((from_id, wanted) ∷ deferred) now = ground (
    arith,
    replay-length (replay_one file from_id wanted now).0 deferred now,
    replay_one-length file from_id wanted now,
  )

  materialize_all-counts :
      (u : Unicode) (st : Resolving) (final_ids local_ids : List String) (now : String)
      (r : ImportReport) (ps : List (Planned V F))
      → let m = materialize_all u st final_ids local_ids now r ps in
        (arrived m.2 ≡ arrived r + length ps)
        × (m.2.unchanged ≡ r.unchanged)
        × (length m.0 ≡ length ps)
  unfolding materialize_all
  materialize_all-counts u st final_ids local_ids now r [] = (omega arith, refl, refl)
  materialize_all-counts u st final_ids local_ids now r (p ∷ ps) =
      let m = materialize u st final_ids local_ids now p in
      let (a, b, c) = materialize_all-counts u st final_ids local_ids now (report_one r p m) ps in
      (omega (arith, a, report_one-arrived r p m), b ∙ report_one-unchanged r p m, omega (arith, c))

-- Every incoming task is counted once: as added, as renumbered, as forked or as unchanged; and the
-- merged board has the local rows and one more for each task that is not unchanged.
pub merge_import-counts :
    {V F : Type 0} (u : Unicode) (new_id : ℕ → String) (file incoming : TodoFile V F) (now : String)
    → let (merged, report) = merge_import u new_id file incoming now in
      (report.added + report.renumbered + report.forked + report.unchanged ≡ length incoming.todos)
      × (length merged.todos ≡ length file.todos + report.added + report.renumbered + report.forked)
      × (report.total_after ≡ length merged.todos)
unfolding merge_import replay_import materialize_import resolve_import
merge_import-counts u new_id file incoming now =
    let r = resolve new_id file.todos (start file) (sorted incoming.todos) in
    let report = record default_report { unchanged = r.0.unchanged } in
    let finals = map (λ p. p.final_id) r.1 in
    let locals = map (λ t. t.id) file.todos in
    let m = materialize_all u r.0 finals locals now report r.1 in
    let (a, b, c) = materialize_all-counts u r.0 finals locals now report r.1 in
    let merged = record file { todos = file.todos ++ m.0 } in
    let original = originals r.0.id_map [] incoming.todos in
    let counted : r.0.unchanged + length r.1 ≡ length incoming.todos = omega (
      arith,
      resolve-counts new_id file.todos (start file) (sorted incoming.todos),
      length-sorted incoming.todos,
    ) in
    (
      omega (arith, a, b, counted),
      omega (
        arith,
        a,
        c,
        length-map (restore_row original) (replay merged m.1 now).0.todos,
        replay-length merged m.1 now,
        length-append file.todos m.0,
      ),
      refl,
    )

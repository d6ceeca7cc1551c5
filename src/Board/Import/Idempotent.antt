-- ===== src/Board/Import/Idempotent.antt =====
-- `merge_import` of src-tauri/src/board/todos.rs run again on the same file.

use claude_usage_tracker_win.Prelude.{
  ℕ, ◌+◌, String, ◌≡◌, refl, ◌∙◌, ap, inr, false, Bool, ◌||◌, some, List, [], ◌∷◌, ◌++◌, map, All,
  any, arith, get, Dict, ◌==◌, length,
}
use claude_usage_tracker_win.Board.Todo.{Todo, TodoFile}
use claude_usage_tracker_win.Board.Edit.{has_id}
use claude_usage_tracker_win.Board.Refs.{Unicode}
use claude_usage_tracker_win.Board.Import.{
  Resolving, materialize_all, replay, default_report, originals, restore_row, resolve_import,
  materialize_import, replay_import, merge_import, start, sorted, same_version, skip_unchanged,
  resolve,
}
use claude_usage_tracker_win.Board.Import.Counts.{length-sorted}
use claude_usage_tracker_win.Board.Import.Sorted.{
  any-sorted, DistinctIds-sorted, All-sorted, sorted-All,
}
use claude_usage_tracker_win.Board.Import.Local.{DistinctIds}
use claude_usage_tracker_win.Board.Import.Restored.{
  resolve-planned_ids, All-Known, restore-twice, restored-same_version,
}
use claude_usage_tracker_win.Board.Import.Twice.{
  Unforked, Known, Kept, resolve-Kept, originals-same, originals-at, any-append, any-replay,
  any-materialize_all,
}

module _ {V F : Type 0} where
  -- The board has the row in that version.
  abbrev Here : List (Todo V F) → Todo V F → Type 0
  Here locals t = (e : Todo V F) × (same_version locals t ≡ some e)

  All-Here :
      (o : Dict String) (us ts : List (Todo V F))
      → All (λ t. get o t.id ≡ some t.updated_at) ts
      → All (λ t. (t.updated_at == "") ≡ false) ts
      → All (Known us) ts
      → All (Here (map (restore_row o) us)) ts
  All-Here o us [] g h k = tt
  All-Here o us (t ∷ ts) g h k =
      (restored-same_version o us t g.0 h.0 k.0, All-Here o us ts g.1 h.1 k.1)

  All-Unforked : (locals ts : List (Todo V F)) → All (Here locals) ts → All (Unforked locals) ts
  All-Unforked locals [] h = tt
  All-Unforked locals (t ∷ ts) h = (inr h.0, All-Unforked locals ts h.1)

  resolve-Here :
      (new_id : ℕ → String) (locals : List (Todo V F)) (st : Resolving) (ts : List (Todo V F))
      → All (Here locals) ts
      → ((resolve new_id locals st ts).1 ≡ [])
        × ((resolve new_id locals st ts).0.unchanged ≡ st.unchanged + length ts)
  unfolding resolve skip_unchanged
  resolve-Here new_id locals st [] h = (refl, omega arith)
  resolve-Here new_id locals st (t ∷ ts) h =
      let (existing, e) = h.0 in
      let (a, b) = resolve-Here new_id locals (skip_unchanged st t existing) ts h.1 in
      (ground (arith, e, a), ground (arith, e, b))

  append-nil : (ts : List (Todo V F)) → ts ++ [] ≡ ts
  append-nil [] = refl
  append-nil (t ∷ ts) = ground (arith, append-nil ts)

module _ {V F : Type 0} (u : Unicode) (new_id : ℕ → String) where
  -- The timestamps that a merge puts back.
  abbrev stamps : TodoFile V F → TodoFile V F → Dict String
  stamps file incoming =
      originals (resolve_import u new_id file incoming).0.id_map [] incoming.todos

  -- The first import puts every task of the file on the board.
  replay_import-Known :
      (file incoming : TodoFile V F) (now : String)
      → All (Unforked file.todos) incoming.todos
      → All (Known (replay_import u new_id file incoming now).0.todos) incoming.todos
  unfolding replay_import materialize_import resolve_import
  replay_import-Known file incoming now h =
      let r = resolve new_id file.todos (start file) (sorted incoming.todos) in
      let ids = map (λ p. p.final_id) r.1 in
      let locals = map (λ t. t.id) file.todos in
      let report = record default_report { unchanged = r.0.unchanged } in
      let m = materialize_all u r.0 ids locals now report r.1 in
      All-Known incoming.todos (replay (record file { todos = file.todos ++ m.0 }) m.1 now).0.todos
        (λ id k.
          any-replay id (record file { todos = file.todos ++ m.0 }) m.1 now
          ∙ any-append id file.todos m.0
          ∙ ap (λ (b : Bool). any (has_id id) file.todos || b)
              (any-materialize_all id u r.0 ids locals now report r.1)
          ∙ resolve-planned_ids new_id file.todos (start file) (sorted incoming.todos) id
              (sorted-All (Unforked file.todos) incoming.todos h)
              (any-sorted id incoming.todos ∙ k))

  resolve_import-Kept :
      (file incoming : TodoFile V F)
      → All (Unforked file.todos) incoming.todos
      → DistinctIds incoming.todos
      → All (Kept (resolve_import u new_id file incoming).0.id_map) incoming.todos
  unfolding resolve_import
  resolve_import-Kept file incoming h d =
      let ids = (resolve new_id file.todos (start file) (sorted incoming.todos)).0.id_map in
      All-sorted (Kept ids) incoming.todos (
        resolve-Kept new_id file.todos (start file) (sorted incoming.todos)
          (sorted-All (Unforked file.todos) incoming.todos h) (DistinctIds-sorted incoming.todos d))

  -- A file whose tasks are all on the board in the same version.
  merge_import-Here :
      (file incoming : TodoFile V F) (now : String)
      → All (Here file.todos) incoming.todos
      → let (merged, report) = merge_import u new_id file incoming now in
        (merged.todos ≡ map (restore_row (stamps file incoming)) file.todos)
        × (report.unchanged ≡ length incoming.todos)
  unfolding merge_import replay_import materialize_import resolve_import materialize_all replay
  merge_import-Here file incoming now h =
      let (none_planned, counted) =
        resolve-Here new_id file.todos (start file) (sorted incoming.todos)
          (sorted-All (Here file.todos) incoming.todos h) in
      rw none_planned (
        ap (map (restore_row (stamps file incoming))) (append-nil file.todos),
        omega (arith, counted, length-sorted incoming.todos),
      )

-- An import of the same file again changes nothing, whatever the second run's clock and drawn ids
-- are: where the file has no id twice, every task of it has a timestamp, and each is new to the
-- local board or there in the same version, the second import leaves all rows as they are after
-- the first and counts every task of the file as unchanged.
pub merge_import-again :
    {V F : Type 0} (u : Unicode) (new_id new_id' : ℕ → String) (file incoming : TodoFile V F)
    (now now' : String)
    → DistinctIds incoming.todos
    → All (λ t. (t.updated_at == "") ≡ false) incoming.todos
    → All (Unforked file.todos) incoming.todos
    → let once = (merge_import u new_id file incoming now).0 in
      let (twice, report) = merge_import u new_id' once incoming now' in
      (twice.todos ≡ once.todos) × (report.unchanged ≡ length incoming.todos)
merge_import-again u new_id new_id' file incoming now now' d dated h =
    let once = (merge_import u new_id file incoming now).0 in
    let rows = (replay_import u new_id file incoming now).0.todos in
    let ids = (resolve_import u new_id file incoming).0.id_map in
    let ids' = (resolve_import u new_id' once incoming).0.id_map in
    let o = stamps u new_id file incoming in
    let kept = resolve_import-Kept u new_id file incoming h d in
    let here : All (Here once.todos) incoming.todos =
      unfold merge_import in
      All-Here o rows incoming.todos (originals-at ids [] incoming.todos kept d) dated
        (replay_import-Known u new_id file incoming now h) in
    let kept' =
      resolve_import-Kept u new_id' once incoming (All-Unforked once.todos incoming.todos here) d in
    let (same, counted) = merge_import-Here u new_id' once incoming now' here in
    (
      same
          ∙ ap (λ (o' : Dict String). map (restore_row o') once.todos)
              (originals-same ids' ids [] incoming.todos kept' kept)
          ∙ (unfold merge_import in restore-twice o rows),
      counted,
    )

-- ===== src/Board/Import/Local.antt =====
-- `merge_import` of src-tauri/src/board/todos.rs leaves every local row as it is.
use claude_usage_tracker_win.Prelude.{
  ℕ, String, ◌≡◌, refl, ◌∙◌, ap, inl, inr, false, List, [], ◌∷◌, ◌++◌, map, All, any, arith,
  Result-cases, Option-cases, Bool-cases, update_first,
}
use claude_usage_tracker_win.Board.Todo.{Todo, TodoFile}
use claude_usage_tracker_win.Board.Edit.{has_id}
use claude_usage_tracker_win.Board.Deps.{add_dep, push_dep}
use claude_usage_tracker_win.Board.Deps.Acyclic.{add_dep_accepts_iff}
use claude_usage_tracker_win.Board.Refs.{Unicode}
use claude_usage_tracker_win.Board.Import.{
  Planned, Resolving, ImportReport, materialize, report_one, materialize_all, replay_one, replay,
  resolve_import, materialize_import, replay_import, default_report, start, sorted, same_version,
  skip_unchanged, plan_one, after_plan, resolve,
}

module _ {V F : Type 0} where
  -- No row has that id.
  abbrev pub Unknown : List (Todo V F) → String → Type 0
  Unknown ts id = any (has_id id) ts ≡ false

  abbrev pub DistinctIds : List (Todo V F) → Type 0
  DistinctIds [] = Unit
  DistinctIds (t ∷ ts) = Unknown ts t.id × DistinctIds ts

  update_first-append :
      (id : String) (f : Todo V F → Todo V F) (ts us : List (Todo V F))
      → Unknown ts id
      → update_first (has_id id) f (ts ++ us) ≡ ts ++ update_first (has_id id) f us
  update_first-append id f [] us h = refl
  update_first-append id f (t ∷ ts) us h = ground (arith, update_first-append id f ts us)

  -- A board that has the rows `ts` and others behind them.
  abbrev pub Extends : List (Todo V F) → List (Todo V F) → Type 0
  Extends ts us = (rows : List (Todo V F)) × (us ≡ ts ++ rows)

  replay_one-Extends :
      (ts : List (Todo V F)) (file : TodoFile V F) (from_id : String) (wanted : List String)
      (now : String)
      → Unknown ts from_id
      → Extends ts file.todos
      → Extends ts (replay_one file from_id wanted now).0.todos
  unfolding replay_one
  replay_one-Extends ts file from_id [] now h x = x
  replay_one-Extends ts file from_id (on_id ∷ wanted) now h (rows, x) =
      elim (Result-cases (add_dep file from_id on_id now)) [
        | inl (file', e) ↦
            let (a, same) = (add_dep_accepts_iff file file' from_id on_id now).0 e in
            rw (e, replay_one)
              (replay_one-Extends ts file' from_id wanted now h (
                update_first (has_id from_id) (push_dep on_id now) rows,
                ap (λ f. f.todos) same
                    ∙ ap (update_first (has_id from_id) (push_dep on_id now)) x
                    ∙ update_first-append from_id (push_dep on_id now) ts rows h,
              ))
        | inr (why, e) ↦
            rw (e, replay_one) (replay_one-Extends ts file from_id wanted now h (rows, x))
      ]

  replay-Extends :
      (ts : List (Todo V F)) (file : TodoFile V F) (deferred : List (String × List String))
      (now : String)
      → All (λ d. Unknown ts d.0) deferred
      → Extends ts file.todos
      → Extends ts (replay file deferred now).0.todos
  unfolding replay
  replay-Extends ts file [] now h x = x
  replay-Extends ts file ((from_id, wanted) ∷ deferred) now h x =
      replay-Extends ts (replay_one file from_id wanted now).0 deferred now h.1
        (replay_one-Extends ts file from_id wanted now h.0 x)

  -- Ids drawn are new to the board.
  abbrev pub DrawsNew : (ℕ → String) → List (Todo V F) → Type 0
  DrawsNew new_id ts = (k : ℕ) → Unknown ts (new_id k)

  pub plan_one-Unknown :
      (new_id : ℕ → String) (locals : List (Todo V F)) (st : Resolving) (t : Todo V F)
      → DrawsNew new_id locals
      → Unknown locals (plan_one new_id locals st t).final_id
  unfolding plan_one
  plan_one-Unknown new_id locals st t new = elim (Bool-cases (any (has_id t.id) locals)) [
    | inl e ↦ rw e (new st.drawn)
    | inr e ↦ rw e e
  ]

  resolve-Unknown :
      (new_id : ℕ → String) (locals : List (Todo V F)) (st : Resolving) (ts : List (Todo V F))
      → DrawsNew new_id locals
      → All (λ p. Unknown locals p.final_id) (resolve new_id locals st ts).1
  unfolding resolve
  resolve-Unknown new_id locals st [] new = tt
  resolve-Unknown new_id locals st (t ∷ ts) new = elim (Option-cases (same_version locals t)) [
    | inl e ↦
        rw (e, resolve)
          (
            plan_one-Unknown new_id locals st t new,
            resolve-Unknown new_id locals (after_plan locals st (plan_one new_id locals st t)) ts
                new,
          )
    | inr (existing, e) ↦
        rw (e, resolve) (resolve-Unknown new_id locals (skip_unchanged st t existing) ts new)
  ]

  materialize_all-Unknown :
      (u : Unicode) (ts : List (Todo V F)) (st : Resolving) (finals locals : List String)
      (now : String) (r : ImportReport) (ps : List (Planned V F))
      → All (λ p. Unknown ts p.final_id) ps
      → All (λ d. Unknown ts d.0) (materialize_all u st finals locals now r ps).1
  unfolding materialize_all
  materialize_all-Unknown u ts st finals locals now r [] h = tt
  materialize_all-Unknown u ts st finals locals now r (p ∷ ps) h = (
    h.0,
    materialize_all-Unknown u ts st finals locals now
        (report_one r p (materialize u st finals locals now p)) ps h.1,
  )

  pub replay_import-Extends :
      (u : Unicode) (new_id : ℕ → String) (file incoming : TodoFile V F) (now : String)
      → DrawsNew new_id file.todos
      → Extends file.todos (replay_import u new_id file incoming now).0.todos
  unfolding replay_import materialize_import resolve_import
  replay_import-Extends u new_id file incoming now new =
      let r = resolve_import u new_id file incoming in
      let m = materialize_import u new_id file incoming now in
      replay-Extends file.todos (record file { todos = file.todos ++ m.0 }) m.1 now
        (materialize_all-Unknown u file.todos r.0 (map (λ p. p.final_id) r.1)
          (map (λ t. t.id) file.todos) now (record default_report { unchanged = r.0.unchanged }) r.1
          (resolve-Unknown new_id file.todos (start file) (sorted incoming.todos) new))
        (m.0, refl)

-- ===== src/Board/Import/Stamps.antt =====
-- The timestamps that `merge_import` of src-tauri/src/board/todos.rs puts back are, at an id that
-- the local board has, the local ones.
use mathlib.Core.Path.{subst}
use claude_usage_tracker_win.Prelude.{
  ℕ, String, ◌≡◌, refl, ◌∙◌, ap, sym, inl, inr, some, none, List, [], ◌∷◌, ◌++◌, map, All, arith,
  get, insert, get-insert, Option-cases, Dict, ◌==◌, eq_iff, eq_refl, if◌then◌else◌,
}
use claude_usage_tracker_win.Board.Todo.{Todo, TodoFile}
use claude_usage_tracker_win.Board.Refs.{Unicode}
use claude_usage_tracker_win.Board.Import.{
  Resolving, originals, restore_row, resolve_import, merge_import, start, sorted, local_by_id,
  same_version, skip_unchanged, plan_one, after_plan, resolve,
}
use claude_usage_tracker_win.Board.Import.Sorted.{DistinctIds-sorted, All-sorted}
use claude_usage_tracker_win.Board.Import.Local.{
  Unknown, DistinctIds, DrawsNew, Extends, replay_import-Extends, plan_one-Unknown,
}

module _ {V F : Type 0} where
  local_by_id-none : (ts : List (Todo V F)) (id : String) → Unknown ts id → local_by_id ts id ≡ none
  unfolding local_by_id
  local_by_id-none [] id h = refl
  local_by_id-none (t ∷ ts) id h = ground (arith, local_by_id-none ts id)

  module _ (new_id : ℕ → String) (locals : List (Todo V F)) where
    pub get-after_plan :
        (st : Resolving) (t : Todo V F) (id : String)
        → get (after_plan locals st (plan_one new_id locals st t)).id_map id
          ≡ (if t.id == id then some (plan_one new_id locals st t).final_id else get st.id_map id)
    unfolding after_plan plan_one
    get-after_plan st t id = get-insert st.id_map t.id id (plan_one new_id locals st t).final_id

    pub get-skip_unchanged :
        (st : Resolving) (t existing : Todo V F) (id : String)
        → get (skip_unchanged st t existing).id_map id
          ≡ (if t.id == id then some t.id else get st.id_map id)
    unfolding skip_unchanged
    get-skip_unchanged st t existing id = get-insert st.id_map t.id id t.id

    -- The map's entry of an id is made at its row.
    pub get-resolve :
        (st : Resolving) (ts : List (Todo V F)) (id : String)
        → Unknown ts id
        → get (resolve new_id locals st ts).0.id_map id ≡ get st.id_map id
    unfolding resolve
    get-resolve st [] id h = refl
    get-resolve st (t ∷ ts) id h = elim (Option-cases (same_version locals t)) [
      | inl e ↦ ground (
        arith,
        e,
        get-resolve (after_plan locals st (plan_one new_id locals st t)) ts id,
        get-after_plan st t id,
      )
      | inr (existing, e) ↦ ground (
        arith,
        e,
        get-resolve (skip_unchanged st t existing) ts id,
        get-skip_unchanged st t existing id,
      )
    ]

    -- At an id that the local board has, the map leads there only from the same version.
    abbrev Faithful : Dict String → Todo V F → Type 0
    Faithful ids t =
        (id : String) (s : Todo V F)
        → get ids t.id ≡ some id
        → local_by_id locals id ≡ some s
        → t.updated_at ≡ s.updated_at

    same_version-some :
        (t existing s : Todo V F)
        → same_version locals t ≡ some existing
        → local_by_id locals t.id ≡ some s
        → t.updated_at ≡ s.updated_at
    unfolding same_version
    same_version-some t existing s h k = ground (arith, eq_iff s.updated_at t.updated_at)

    pub resolve-planned :
        (st : Resolving) (t : Todo V F) (ts : List (Todo V F))
        → same_version locals t ≡ none
        → (resolve new_id locals st (t ∷ ts)).0
          ≡ (resolve new_id locals (after_plan locals st (plan_one new_id locals st t)) ts).0
    unfolding resolve
    resolve-planned st t ts e = ground (arith, e)

    pub resolve-skipped :
        (st : Resolving) (t existing : Todo V F) (ts : List (Todo V F))
        → same_version locals t ≡ some existing
        → (resolve new_id locals st (t ∷ ts)).0
          ≡ (resolve new_id locals (skip_unchanged st t existing) ts).0
    unfolding resolve
    resolve-skipped st t existing ts e = ground (arith, e)

    resolve-Faithful :
        (st : Resolving) (ts : List (Todo V F))
        → DrawsNew new_id locals
        → DistinctIds ts
        → All (Faithful (resolve new_id locals st ts).0.id_map) ts
    resolve-Faithful st [] new d = tt
    resolve-Faithful st (t ∷ ts) new d = elim (Option-cases (same_version locals t)) [
      | inl e ↦
          let p = plan_one new_id locals st t in
          let st' = after_plan locals st p in
          subst (λ (r : Resolving). All (Faithful r.id_map) (t ∷ ts))
            (sym (resolve-planned st t ts e))
            (
              λ id s at here. ground (
                arith,
                get-resolve st' ts t.id d.0,
                get-after_plan st t t.id,
                eq_refl t.id,
                plan_one-Unknown new_id locals st t new,
                local_by_id-none locals p.final_id,
                at,
                here,
              ),
              resolve-Faithful st' ts new d.1,
            )
      | inr (existing, e) ↦
          let st' = skip_unchanged st t existing in
          subst (λ (r : Resolving). All (Faithful r.id_map) (t ∷ ts))
            (sym (resolve-skipped st t existing ts e))
            (
              λ id s at here. same_version-some t existing s e (
                  ground (
                    arith,
                    get-resolve st' ts t.id d.0,
                    get-skip_unchanged st t existing t.id,
                    eq_refl t.id,
                    at,
                    here,
                  )),
              resolve-Faithful st' ts new d.1,
            )
    ]

    -- Every timestamp kept for an id that the local board has is the local one.
    abbrev Stamped : Dict String → Type 0
    Stamped acc =
        (id at : String) (s : Todo V F)
        → get acc id ≡ some at
        → local_by_id locals id ≡ some s
        → at ≡ s.updated_at

    originals-Stamped :
        (ids acc : Dict String) (ts : List (Todo V F))
        → All (Faithful ids) ts
        → Stamped acc
        → Stamped (originals ids acc ts)
    unfolding originals
    originals-Stamped ids acc [] f h = h
    originals-Stamped ids acc (t ∷ ts) f h = elim (Option-cases (get ids t.id)) [
      | inl e ↦ rw (e, originals) (originals-Stamped ids acc ts f.1 h)
      | inr (final_id, e) ↦
          rw (e, originals)
            (originals-Stamped ids (insert acc final_id t.updated_at) ts f.1 (λ id at s got here.
              ground (
                arith,
                get-insert acc final_id id t.updated_at,
                eq_iff final_id id,
                f.0 final_id s e,
                h id at s,
              )))
    ]

  local_by_id-head :
      (t : Todo V F) (ts : List (Todo V F)) → Unknown ts t.id → local_by_id (t ∷ ts) t.id ≡ some t
  unfolding local_by_id
  local_by_id-head t ts h = ground (arith, local_by_id-none ts t.id h, eq_refl t.id)

  local_by_id-tail :
      (t : Todo V F) (ts us : List (Todo V F))
      → All (λ s. local_by_id ts s.id ≡ some s) us
      → All (λ s. local_by_id (t ∷ ts) s.id ≡ some s) us
  unfolding local_by_id
  local_by_id-tail t ts [] h = tt
  local_by_id-tail t ts (s ∷ us) h = (ground (arith, h.0), local_by_id-tail t ts us h.1)

  -- With distinct ids every row is found by its id.
  local_by_id_self :
      (ts : List (Todo V F)) → DistinctIds ts → All (λ s. local_by_id ts s.id ≡ some s) ts
  local_by_id_self [] d = tt
  local_by_id_self (t ∷ ts) d =
      (local_by_id-head t ts d.0, local_by_id-tail t ts ts (local_by_id_self ts d.1))

  restore-same :
      (original : Dict String) (ts : List (Todo V F))
      → All (λ s. (at : String) → get original s.id ≡ some at → at ≡ s.updated_at) ts
      → map (restore_row original) ts ≡ ts
  unfolding restore_row
  restore-same original [] h = refl
  restore-same original (t ∷ ts) h = elim (Option-cases (get original t.id)) [
    | inl e ↦ ground (arith, e, restore-same original ts h.1)
    | inr (at, e) ↦ ground (arith, e, h.0 at e, restore-same original ts h.1)
  ]

  Stamped-local :
      (original : Dict String) (locals ts : List (Todo V F))
      → Stamped (λ k. "") locals original
      → All (λ s. local_by_id locals s.id ≡ some s) ts
      → All (λ s. (at : String) → get original s.id ≡ some at → at ≡ s.updated_at) ts
  Stamped-local original locals [] f h = tt
  Stamped-local original locals (s ∷ ts) f h =
      (λ at got. f s.id at s got h.0, Stamped-local original locals ts f h.1)

  pub map-append :
      (f : Todo V F → Todo V F) (xs ys : List (Todo V F)) → map f (xs ++ ys) ≡ map f xs ++ map f ys
  map-append f [] ys = refl
  map-append f (x ∷ xs) ys = ground (arith, map-append f xs ys)

-- Where the ids that are drawn are new to the local board, and neither it nor the file has an id
-- twice: the merged board is the local one, no row of it changed, with rows behind it.
pub merge_import-Extends :
    {V F : Type 0} (u : Unicode) (new_id : ℕ → String) (file incoming : TodoFile V F) (now : String)
    → DrawsNew new_id file.todos
    → DistinctIds file.todos
    → DistinctIds incoming.todos
    → Extends file.todos (merge_import u new_id file incoming now).0.todos
unfolding merge_import resolve_import
merge_import-Extends u new_id file incoming now new d d' =
    let st = (resolve_import u new_id file incoming).0 in
    let original = originals st.id_map [] incoming.todos in
    let (rows, e) = replay_import-Extends u new_id file incoming now new in
    let faithful =
      resolve-Faithful new_id file.todos (start file) (sorted incoming.todos) new
        (DistinctIds-sorted incoming.todos d') in
    let stamped =
      originals-Stamped new_id file.todos st.id_map [] incoming.todos
        (All-sorted (Faithful new_id file.todos st.id_map) incoming.todos faithful)
        (unfold get in λ id at s got here. cc) in
    let same =
      restore-same original file.todos
        (Stamped-local original file.todos file.todos stamped (local_by_id_self file.todos d)) in
    (
      map (restore_row original) rows,
      ap (map (restore_row original)) e
          ∙ map-append (restore_row original) file.todos rows
          ∙ ap (λ (ts : List (Todo _ _)). ts ++ map (restore_row original) rows) same,
    )

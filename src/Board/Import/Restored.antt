-- ===== src/Board/Import/Restored.antt =====
-- `merge_import` of src-tauri/src/board/todos.rs puts the file's tasks on the board in the file's version.

use claude_usage_tracker_win.Prelude.{
  ℕ, String, ◌≡◌, refl, ◌∙◌, inl, inr, true, false, ◌||◌, some, List, [], ◌∷◌, map, All, any, arith,
  get, Option-cases, Dict, ◌==◌, eq_iff, eq_refl, Bool-cases, contains,
}
use claude_usage_tracker_win.Board.Todo.{Todo}
use claude_usage_tracker_win.Board.Edit.{has_id}
use claude_usage_tracker_win.Board.Import.{
  Resolving, restore_row, local_by_id, same_version, skip_unchanged, plan_one, after_plan, resolve,
}
use claude_usage_tracker_win.Board.Import.Twice.{Unforked, Known, same_version-Known, plan_one-id}

module _ {V F : Type 0} where
  -- An id of the file is on the board or in the plan.
  pub resolve-planned_ids :
      (new_id : ℕ → String) (locals : List (Todo V F)) (st : Resolving) (ts : List (Todo V F))
      (id : String)
      → All (Unforked locals) ts
      → any (has_id id) ts ≡ true
      → any (has_id id) locals
          || contains id (map (λ p. p.final_id) (resolve new_id locals st ts).1)
        ≡ true
  unfolding resolve
  resolve-planned_ids new_id locals st [] id h k = cc
  resolve-planned_ids new_id locals st (t ∷ ts) id h k =
      elim (Option-cases (same_version locals t)) [
        | inl e ↦
            let st' = after_plan locals st (plan_one new_id locals st t) in
            ground (
              arith,
              e,
              h.0,
              k,
              eq_iff t.id id,
              plan_one-id new_id locals st t,
              resolve-planned_ids new_id locals st' ts id h.1,
            )
        | inr (existing, e) ↦ ground (
          arith,
          e,
          k,
          eq_iff t.id id,
          same_version-Known locals t existing e,
          resolve-planned_ids new_id locals (skip_unchanged st t existing) ts id h.1,
        )
      ]

  pub All-Known :
      (ts us : List (Todo V F))
      → ((id : String) → any (has_id id) ts ≡ true → any (has_id id) us ≡ true)
      → All (Known us) ts
  All-Known [] us f = tt
  All-Known (t ∷ ts) us f =
      (f t.id (ground (arith, eq_refl t.id)), All-Known ts us (λ id h. f id (ground (arith, h))))

  pub local_by_id-found :
      (ts : List (Todo V F)) (id : String)
      → any (has_id id) ts ≡ true
      → (r : Todo V F) × (local_by_id ts id ≡ some r)
  unfolding local_by_id
  local_by_id-found [] id h = cc
  local_by_id-found (t ∷ ts) id h = elim (Option-cases (local_by_id ts id)) [
    | inl e ↦ elim (Bool-cases (has_id id t)) [
      | inl here ↦ (t, ground (arith, e, here))
      | inr off ↦ absurd (ground (arith, local_by_id-found ts id (ground arith)))
    ]
    | inr (r, e) ↦ (r, ground (arith, e))
  ]

  restore_row-id : (o : Dict String) (t : Todo V F) → (restore_row o t).id ≡ t.id
  unfolding restore_row
  restore_row-id o t = elim (Option-cases (get o t.id)) [
    | inl e ↦ ground (arith, e)
    | inr (at, e) ↦ ground (arith, e)
  ]

  restore_row-stamp :
      (o : Dict String) (t : Todo V F) (at : String)
      → get o t.id ≡ some at
      → (at == "") ≡ false
      → (restore_row o t).updated_at ≡ at
  unfolding restore_row
  restore_row-stamp o t at e h = ground (arith, e, h)

  pub restore_row-twice :
      (o : Dict String) (t : Todo V F) → restore_row o (restore_row o t) ≡ restore_row o t
  unfolding restore_row
  restore_row-twice o t = elim (Option-cases (get o t.id)) [
    | inl e ↦ ground (arith, e)
    | inr (at, e) ↦ ground (arith, e)
  ]

  pub restore-twice :
      (o : Dict String) (ts : List (Todo V F))
      → map (restore_row o) (map (restore_row o) ts) ≡ map (restore_row o) ts
  restore-twice o [] = refl
  restore-twice o (t ∷ ts) = ground (arith, restore_row-twice o t, restore-twice o ts)

  any-restore :
      (id : String) (o : Dict String) (ts : List (Todo V F))
      → any (has_id id) (map (restore_row o) ts) ≡ any (has_id id) ts
  any-restore id o [] = refl
  any-restore id o (t ∷ ts) = ground (arith, restore_row-id o t, any-restore id o ts)

  local_by_id-restored :
      (o : Dict String) (ts : List (Todo V F)) (id at : String) (r : Todo V F)
      → get o id ≡ some at
      → (at == "") ≡ false
      → local_by_id (map (restore_row o) ts) id ≡ some r
      → r.updated_at ≡ at
  unfolding local_by_id
  local_by_id-restored o [] id at r g h k = cc
  local_by_id-restored o (t ∷ ts) id at r g h k =
      elim (Option-cases (local_by_id (map (restore_row o) ts) id)) [
        | inl e ↦
            ground (arith, e, k, g, h, eq_iff t.id id, restore_row-id o t, restore_row-stamp o t at)
        | inr (r', e) ↦ ground (arith, e, k, local_by_id-restored o ts id at r' g h e)
      ]

  pub restored-same_version :
      (o : Dict String) (ts : List (Todo V F)) (t : Todo V F)
      → get o t.id ≡ some t.updated_at
      → (t.updated_at == "") ≡ false
      → Known ts t
      → (e : Todo V F) × (same_version (map (restore_row o) ts) t ≡ some e)
  unfolding same_version
  restored-same_version o ts t g h k =
      let (r, e) = local_by_id-found (map (restore_row o) ts) t.id (any-restore t.id o ts ∙ k) in
      (
        r,
        ground (
          arith,
          e,
          eq_iff r.updated_at t.updated_at,
          local_by_id-restored o ts t.id t.updated_at r g h e,
        ),
      )

-- ===== src/Board/Import/Twice.antt =====
-- A second import of the same file by `merge_import` of src-tauri/src/board/todos.rs.
use mathlib.Core.Path.{subst}
use claude_usage_tracker_win.Prelude.{
  ℕ, String, ◌≡◌, refl, ◌∙◌, ap, sym, ◌⊎◌, inl, inr, true, Bool, ◌||◌, some, List, [], ◌∷◌, ◌++◌,
  map, All, any, arith, get, insert, get-insert, get-insert_self, Option-cases, Dict, eq_refl,
  contains, Result-cases, update_first,
}
use claude_usage_tracker_win.Board.Todo.{Todo, TodoFile}
use claude_usage_tracker_win.Board.Edit.{has_id}
use claude_usage_tracker_win.Board.Deps.{add_dep, push_dep}
use claude_usage_tracker_win.Board.Deps.Acyclic.{add_dep_accepts_iff}
use claude_usage_tracker_win.Board.Refs.{Unicode}
use claude_usage_tracker_win.Board.Import.{
  Planned, Resolving, ImportReport, materialize, report_one, materialize_all, replay_one, replay,
  originals, local_by_id, same_version, skip_unchanged, plan_one, after_plan, resolve,
}
use claude_usage_tracker_win.Board.Import.Local.{Unknown, DistinctIds}
use claude_usage_tracker_win.Board.Import.Stamps.{
  get-after_plan, get-skip_unchanged, get-resolve, resolve-planned, resolve-skipped,
}

module _ {V F : Type 0} where
  -- The file's task is new to the board, or the board has it in the same version.
  abbrev pub Unforked : List (Todo V F) → Todo V F → Type 0
  Unforked locals t = Unknown locals t.id ⊎ ((e : Todo V F) × (same_version locals t ≡ some e))

  pub plan_one-id :
      (new_id : ℕ → String) (locals : List (Todo V F)) (st : Resolving) (t : Todo V F)
      → Unknown locals t.id
      → (plan_one new_id locals st t).final_id ≡ t.id
  unfolding plan_one
  plan_one-id new_id locals st t h = ground (arith, h)

  -- The map keeps the id of such a task.
  abbrev pub Kept : Dict String → Todo V F → Type 0
  Kept ids t = get ids t.id ≡ some t.id

  pub resolve-Kept :
      (new_id : ℕ → String) (locals : List (Todo V F)) (st : Resolving) (ts : List (Todo V F))
      → All (Unforked locals) ts
      → DistinctIds ts
      → All (Kept (resolve new_id locals st ts).0.id_map) ts
  resolve-Kept new_id locals st [] h d = tt
  resolve-Kept new_id locals st (t ∷ ts) h d = elim (Option-cases (same_version locals t)) [
    | inl e ↦
        let p = plan_one new_id locals st t in
        let st' = after_plan locals st p in
        subst (λ (r : Resolving). All (Kept r.id_map) (t ∷ ts))
          (sym (resolve-planned new_id locals st t ts e))
          (
            ground (
              arith,
              get-resolve new_id locals st' ts t.id d.0,
              get-after_plan new_id locals st t t.id,
              eq_refl t.id,
              h.0,
              e,
              plan_one-id new_id locals st t,
            ),
            resolve-Kept new_id locals st' ts h.1 d.1,
          )
    | inr (existing, e) ↦
        let st' = skip_unchanged st t existing in
        subst (λ (r : Resolving). All (Kept r.id_map) (t ∷ ts))
          (sym (resolve-skipped new_id locals st t existing ts e))
          (
            ground (
              arith,
              get-resolve new_id locals st' ts t.id d.0,
              get-skip_unchanged new_id locals st t existing t.id,
              eq_refl t.id,
            ),
            resolve-Kept new_id locals st' ts h.1 d.1,
          )
  ]

  originals-Kept :
      (ids acc : Dict String) (t : Todo V F) (ts : List (Todo V F))
      → Kept ids t
      → originals ids acc (t ∷ ts) ≡ originals ids (insert acc t.id t.updated_at) ts
  unfolding originals
  originals-Kept ids acc t ts k = ground (arith, k)

  pub originals-same :
      (ids ids' acc : Dict String) (ts : List (Todo V F))
      → All (Kept ids) ts
      → All (Kept ids') ts
      → originals ids acc ts ≡ originals ids' acc ts
  unfolding originals
  originals-same ids ids' acc [] k k' = refl
  originals-same ids ids' acc (t ∷ ts) k k' =
      originals-Kept ids acc t ts k.0
      ∙ originals-same ids ids' (insert acc t.id t.updated_at) ts k.1 k'.1
      ∙ sym (originals-Kept ids' acc t ts k'.0)

  originals-Unknown :
      (ids acc : Dict String) (ts : List (Todo V F)) (id : String)
      → All (Kept ids) ts
      → Unknown ts id
      → get (originals ids acc ts) id ≡ get acc id
  unfolding originals
  originals-Unknown ids acc [] id k h = refl
  originals-Unknown ids acc (t ∷ ts) id k h =
      ap (λ (d : Dict String). get d id) (originals-Kept ids acc t ts k.0)
      ∙ originals-Unknown ids (insert acc t.id t.updated_at) ts id k.1 (ground arith)
      ∙ ground (arith, get-insert acc t.id id t.updated_at)

  pub originals-at :
      (ids acc : Dict String) (ts : List (Todo V F))
      → All (Kept ids) ts
      → DistinctIds ts
      → All (λ t. get (originals ids acc ts) t.id ≡ some t.updated_at) ts
  originals-at ids acc [] k d = tt
  originals-at ids acc (t ∷ ts) k d =
      let acc' = insert acc t.id t.updated_at in
      subst (λ (o : Dict String). All (λ s. get o s.id ≡ some s.updated_at) (t ∷ ts))
        (sym (originals-Kept ids acc t ts k.0))
        (
          originals-Unknown ids acc' ts t.id k.1 d.0 ∙ get-insert_self acc t.id t.updated_at,
          originals-at ids acc' ts k.1 d.1,
        )

  -- A row with that id is on the board: the ids that the passes put there.
  abbrev pub Known : List (Todo V F) → Todo V F → Type 0
  Known ts t = any (has_id t.id) ts ≡ true

  pub any-append :
      (id : String) (ts us : List (Todo V F))
      → any (has_id id) (ts ++ us) ≡ any (has_id id) ts || any (has_id id) us
  any-append id [] us = refl
  any-append id (t ∷ ts) us = ground (arith, any-append id ts us)

  any-update_first :
      (id : String) (p : Todo V F → Bool) (f : Todo V F → Todo V F) (ts : List (Todo V F))
      → ((t : Todo V F) → (f t).id ≡ t.id)
      → any (has_id id) (update_first p f ts) ≡ any (has_id id) ts
  any-update_first id p f [] h = refl
  any-update_first id p f (t ∷ ts) h = ground (arith, h t, any-update_first id p f ts h)

  push_dep-id : (on_id now : String) (t : Todo V F) → (push_dep on_id now t).id ≡ t.id
  push_dep-id on_id now t = ground arith

  any-replay_one :
      (id : String) (file : TodoFile V F) (from_id : String) (wanted : List String) (now : String)
      → any (has_id id) (replay_one file from_id wanted now).0.todos ≡ any (has_id id) file.todos
  unfolding replay_one
  any-replay_one id file from_id [] now = refl
  any-replay_one id file from_id (on_id ∷ wanted) now =
      elim (Result-cases (add_dep file from_id on_id now)) [
        | inl (file', e) ↦
            let (a, same) = (add_dep_accepts_iff file file' from_id on_id now).0 e in
            rw (e, replay_one)
              (any-replay_one id file' from_id wanted now
                ∙ ap (λ f. any (has_id id) f.todos) same
                ∙ any-update_first id (has_id from_id) (push_dep on_id now) file.todos
                    (push_dep-id on_id now))
        | inr (why, e) ↦ rw (e, replay_one) (any-replay_one id file from_id wanted now)
      ]

  pub any-replay :
      (id : String) (file : TodoFile V F) (deferred : List (String × List String)) (now : String)
      → any (has_id id) (replay file deferred now).0.todos ≡ any (has_id id) file.todos
  unfolding replay
  any-replay id file [] now = refl
  any-replay id file ((from_id, wanted) ∷ deferred) now =
      any-replay id (replay_one file from_id wanted now).0 deferred now
      ∙ any-replay_one id file from_id wanted now

  materialize-id :
      (u : Unicode) (st : Resolving) (ids locals : List String) (now : String) (p : Planned V F)
      → (materialize u st ids locals now p).row.id ≡ p.final_id
  unfolding materialize
  materialize-id u st ids locals now p = refl

  pub any-materialize_all :
      (id : String) (u : Unicode) (st : Resolving) (ids locals : List String) (now : String)
      (r : ImportReport) (ps : List (Planned V F))
      → any (has_id id) (materialize_all u st ids locals now r ps).0
        ≡ contains id (map (λ p. p.final_id) ps)
  unfolding materialize_all
  any-materialize_all id u st ids locals now r [] = refl
  any-materialize_all id u st ids locals now r (p ∷ ps) =
      let m = materialize u st ids locals now p in
      ground (
        arith,
        materialize-id u st ids locals now p,
        any-materialize_all id u st ids locals now (report_one r p m) ps,
      )

  pub local_by_id-known :
      (ts : List (Todo V F)) (id : String) (s : Todo V F)
      → local_by_id ts id ≡ some s
      → any (has_id id) ts ≡ true
  unfolding local_by_id
  local_by_id-known [] id s h = cc
  local_by_id-known (t ∷ ts) id s h = elim (Option-cases (local_by_id ts id)) [
    | inl e ↦ ground (arith, e)
    | inr (r, e) ↦ ground (arith, local_by_id-known ts id r e)
  ]

  pub same_version-Known :
      (ts : List (Todo V F)) (t existing : Todo V F)
      → same_version ts t ≡ some existing
      → Known ts t
  unfolding same_version
  same_version-Known ts t existing h = elim (Option-cases (local_by_id ts t.id)) [
    | inl e ↦ ground (arith, e)
    | inr (r, e) ↦ local_by_id-known ts t.id r e
  ]

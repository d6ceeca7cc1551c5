-- ===== src/Board/Edit/Members.antt =====
-- The members of a change and its derived status (src-tauri/src/board/todos.rs).
use mathlib.Core.List.{Perm}
use mathlib.Core.List.Perm
use mathlib.Core.Path.{ap₂, ◌∙◌}
use claude_usage_tracker_win.Prelude.{
  ℕ, String, ◌≡◌, refl, inl, inr, Bool, true, false, not, ◌||◌, ◌&&◌, List, [], ◌∷◌, ◌==◌, retain,
  any, str_lt, codes, codes_lt, arith, Bool-cases,
}
use claude_usage_tracker_win.Board.Todo.{Todo, TodoFile}
use claude_usage_tracker_win.Board.Edit.{
  is_empty, is_some_of, key_lt, insert_by_key, sort_by_key, change_members, change_open,
}

codes_lt_asym : (a b : List ℕ) → codes_lt a b ≡ true → codes_lt b a ≡ false
codes_lt_asym [] [] h = refl
codes_lt_asym [] (d ∷ ds) h = refl
codes_lt_asym (c ∷ cs) [] h = cc
codes_lt_asym (c ∷ cs) (d ∷ ds) h = ground (arith, codes_lt_asym cs ds)

pub str_lt_asym : (s t : String) → str_lt s t ≡ true → str_lt t s ≡ false
unfolding str_lt
str_lt_asym s t h = codes_lt_asym (codes s) (codes t) h

module _ {V F : Type 0} where
  key_lt_asym : (t u : Todo V F) → key_lt t u ≡ true → key_lt u t ≡ false
  key_lt_asym t u h = ground (arith, str_lt_asym t.id u.id)

  abbrev pub NotAfter : Todo V F → List (Todo V F) → Type 0
  NotAfter t [] = Unit
  NotAfter t (u ∷ ts) = key_lt u t ≡ false

  -- No row stands before one with a smaller number, or with the same number and a smaller id.
  abbrev pub IsSorted : List (Todo V F) → Type 0
  IsSorted [] = Unit
  IsSorted (t ∷ ts) = NotAfter t ts × IsSorted ts

  NotAfter-insert_by_key :
      (u t : Todo V F) (ts : List (Todo V F))
      → NotAfter u ts
      → key_lt t u ≡ false
      → NotAfter u (insert_by_key t ts)
  unfolding insert_by_key
  NotAfter-insert_by_key u t [] h k = k
  NotAfter-insert_by_key u t (v ∷ ts) h k = elim (Bool-cases (key_lt v t)) [
    | inl e ↦ rw e h
    | inr e ↦ rw e k
  ]

  insert_by_key-IsSorted :
      (t : Todo V F) (ts : List (Todo V F)) → IsSorted ts → IsSorted (insert_by_key t ts)
  unfolding insert_by_key
  insert_by_key-IsSorted t [] h = (tt, tt)
  insert_by_key-IsSorted t (u ∷ ts) h = elim (Bool-cases (key_lt u t)) [
    | inl e ↦
        rw e
          (NotAfter-insert_by_key u t ts h.0 (key_lt_asym u t e), insert_by_key-IsSorted t ts h.1)
    | inr e ↦ rw e (e, h)
  ]

  insert_by_key-perm : (t : Todo V F) (ts : List (Todo V F)) → Perm (insert_by_key t ts) (t ∷ ts)
  unfolding insert_by_key
  insert_by_key-perm t [] = Perm.refl _
  insert_by_key-perm t (u ∷ ts) = elim (Bool-cases (key_lt u t)) [
    | inl e ↦ rw e (Perm.trans (Perm.cons u (insert_by_key-perm t ts)) (Perm.swap t u ts))
    | inr e ↦ rw e (Perm.refl _)
  ]

  sort_by_key-IsSorted : (ts : List (Todo V F)) → IsSorted (sort_by_key ts)
  unfolding sort_by_key
  sort_by_key-IsSorted [] = tt
  sort_by_key-IsSorted (t ∷ ts) =
      insert_by_key-IsSorted t (sort_by_key ts) (sort_by_key-IsSorted ts)

  sort_by_key-perm : (ts : List (Todo V F)) → Perm (sort_by_key ts) ts
  unfolding sort_by_key
  sort_by_key-perm [] = Perm.refl _
  sort_by_key-perm (t ∷ ts) =
      Perm.trans (insert_by_key-perm t (sort_by_key ts)) (Perm.cons t (sort_by_key-perm ts))

  -- The members of a change are the rows that name it, each as often as the board has it, in the
  -- order of their numbers and then of their ids.
  pub change_members-IsSorted :
      (file : TodoFile V F) (change_id : String)
      → IsSorted (change_members file change_id)
        × Perm
            (change_members file change_id)
            (retain (λ t. is_some_of t.change_id change_id) file.todos)
  unfolding change_members
  change_members-IsSorted file change_id =
      let mine = retain (λ (t : Todo V F). is_some_of t.change_id change_id) file.todos in
      (sort_by_key-IsSorted mine, sort_by_key-perm mine)

  any-insert_by_key :
      (p : Todo V F → Bool) (t : Todo V F) (ts : List (Todo V F))
      → any p (insert_by_key t ts) ≡ p t || any p ts
  unfolding insert_by_key
  any-insert_by_key p t [] = refl
  any-insert_by_key p t (u ∷ ts) = ground (arith, any-insert_by_key p t ts)

  any-sort_by_key : (p : Todo V F → Bool) (ts : List (Todo V F)) → any p (sort_by_key ts) ≡ any p ts
  unfolding sort_by_key
  any-sort_by_key p [] = refl
  any-sort_by_key p (t ∷ ts) =
      ground (arith, any-insert_by_key p t (sort_by_key ts), any-sort_by_key p ts)

  any-retain :
      (p q : Todo V F → Bool) (ts : List (Todo V F))
      → any p (retain q ts) ≡ any (λ t. q t && p t) ts
  any-retain p q [] = refl
  any-retain p q (t ∷ ts) = ground (arith, any-retain p q ts)

  is_empty-retain :
      (q : Todo V F → Bool) (ts : List (Todo V F)) → is_empty (retain q ts) ≡ not (any q ts)
  is_empty-retain q [] = refl
  is_empty-retain q (t ∷ ts) = ground (arith, is_empty-retain q ts)

  is_empty-insert : (t : Todo V F) (ts : List (Todo V F)) → is_empty (insert_by_key t ts) ≡ false
  unfolding insert_by_key
  is_empty-insert t [] = refl
  is_empty-insert t (u ∷ ts) = ground (arith)

  is_empty-sort_by_key : (ts : List (Todo V F)) → is_empty (sort_by_key ts) ≡ is_empty ts
  unfolding sort_by_key
  is_empty-sort_by_key [] = refl
  is_empty-sort_by_key (t ∷ ts) = is_empty-insert t (sort_by_key ts)

  -- A change is open exactly when no row names it, or a row that names it is not done.
  pub change_open_lem :
      (file : TodoFile V F) (change_id : String)
      → change_open file change_id
        ≡ not (any (λ t. is_some_of t.change_id change_id) file.todos)
          || any (λ t. is_some_of t.change_id change_id && not (t.status == "done")) file.todos
  unfolding change_open change_members
  change_open_lem file change_id =
      let mine = retain (λ (t : Todo V F). is_some_of t.change_id change_id) file.todos in
      ap₂ ◌||◌
        (is_empty-sort_by_key mine
          ∙ is_empty-retain (λ t. is_some_of t.change_id change_id) file.todos)
        (any-sort_by_key (λ t. not (t.status == "done")) mine
          ∙ any-retain (λ t. not (t.status == "done")) (λ t. is_some_of t.change_id change_id)
              file.todos)

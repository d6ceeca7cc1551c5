-- ===== src/Board/Edit/Carried.antt =====
-- What `upsert` of src-tauri/src/board/todos.rs leaves in `ext` of a row.
use claude_usage_tracker_win.Prelude.{
  ◌≡◌, String, refl, inl, inr, false, Option, some, none, ◌==◌, eq_refl, arith, Option-cases, Dict,
  get, extend,
}
use claude_usage_tracker_win.Board.Todo.{Todo, TodoFile}
use claude_usage_tracker_win.Board.Edit.{Json, find_todo, upsert, merge_row, merge_ext}
use claude_usage_tracker_win.Board.Edit.Rows.{find_todo-upsert}
use claude_usage_tracker_win.Board.Edit.History.Ext.{
  KeysDistinct, merged, get-merge_ext, get-extend,
}

-- What is under a namespace of `ext` after an upsert, by what was stored there and what came in.
pub data Carried {V : Type 0} (j : Json V) (stored incoming after : Option V) : Type 0 where
  kept : incoming ≡ none → after ≡ stored → Carried j stored incoming after
  -- Not both sides hold an object.
  replaced :
      (v : V)
      → incoming ≡ some v
      → ((u : V) (a b : Dict V)
          → stored ≡ some u
          → j.as_object u ≡ some a
          → ¬ (j.as_object v ≡ some b))
      → after ≡ some v
      → Carried j stored incoming after
  joined :
      (u v w : V) (a b d : Dict V)
      → stored ≡ some u
      → j.as_object u ≡ some a
      → incoming ≡ some v
      → j.as_object v ≡ some b
      → after ≡ some w
      → j.as_object w ≡ some d
      → ((k : String) → get d k ≡ elim (get b k) [ none ↦ get a k | some x ↦ some x ])
      → Carried j stored incoming after

module _ {V : Type 0} (j : Json V) where
  merged-Carried :
      (stored : Option V) (v : V)
      → ((d : Dict V) → j.as_object (j.object d) ≡ some d)
      → ((b : Dict V) → j.as_object v ≡ some b → KeysDistinct b)
      → Carried j stored (some v) (some (merged j "process" stored v))
  merged-Carried none v round distinct =
      Carried.replaced v refl (λ u a b e k l. ground (arith, e)) refl
  merged-Carried (some u) v round distinct = elim (Option-cases (j.as_object u)) [
    | inl plain ↦
        rw (plain, merged)
          (Carried.replaced v refl (λ x a b e k l. ground (arith, e, k, plain)) refl)
    | inr (a, object) ↦ elim (Option-cases (j.as_object v)) [
      | inl plain ↦
          rw (object, plain, merged)
            (Carried.replaced v refl (λ x c b e k l. ground (arith, l, plain)) refl)
      | inr (b, both) ↦
          rw (object, both, merged)
            (Carried.joined u v (j.object (extend a b)) a b (extend a b) refl object refl both refl
              (round (extend a b)) (λ k. get-extend a b k (distinct b both)))
    ]
  ]

  merged-other :
      (ns : String) (stored : Option V) (v : V)
      → (ns == "process") ≡ false
      → merged j ns stored v ≡ v
  merged-other ns none v other = refl
  merged-other ns (some u) v other = elim (Option-cases (j.as_object u)) [
    | inl plain ↦ ground (arith, plain)
    | inr (a, object) ↦ elim (Option-cases (j.as_object v)) [
      | inl plain ↦ ground (arith, object, plain)
      | inr (b, both) ↦ ground (arith, object, both, other)
    ]
  ]

  merge_ext-Carried :
      (m incoming : Dict V)
      → ((d : Dict V) → j.as_object (j.object d) ≡ some d)
      → KeysDistinct incoming
      → ((v : V) (b : Dict V)
          → get incoming "process" ≡ some v
          → j.as_object v ≡ some b
          → KeysDistinct b)
      → Carried j
          (get m "process")
          (get incoming "process")
          (get (merge_ext j m incoming) "process")
  merge_ext-Carried m incoming round distinct inside =
      elim (Option-cases (get incoming "process")) [
        | inl absent ↦
            Carried.kept absent (rw (get-merge_ext j m incoming "process" distinct, absent) refl)
        | inr (v, here) ↦
            rw (get-merge_ext j m incoming "process" distinct, here)
              (merged-Carried (get m "process") v round (λ b k. inside v b here k))
      ]

  merge_ext-other :
      (m incoming : Dict V) (ns : String)
      → KeysDistinct incoming
      → (ns == "process") ≡ false
      → get (merge_ext j m incoming) ns
        ≡ elim (get incoming ns) [ none ↦ get m ns | some v ↦ some v ]
  merge_ext-other m incoming ns distinct other = elim (Option-cases (get incoming ns)) [
    | inl absent ↦ rw (get-merge_ext j m incoming ns distinct, absent) refl
    | inr (v, here) ↦
        ground
          (arith, get-merge_ext j m incoming ns distinct, here, merged-other ns (get m ns) v other)
  ]

  -- After an upsert over a stored row, what is under "process" in `ext` of the row found is what
  -- was stored, if none came in; if objects are stored and came in, an object in which a key has
  -- the value that came in, and a key that did not come in the stored one, so that what another
  -- program wrote there since the window read the row survives; and what came in otherwise. Under
  -- any other namespace it is what came in, or what was stored if none did.
  pub upsert-Carried :
      {F : Type 0} (file : TodoFile V F) (old todo : Todo V F) (now ns : String)
      → ((d : Dict V) → j.as_object (j.object d) ≡ some d)
      → KeysDistinct todo.ext
      → ((v : V) (b : Dict V)
          → get todo.ext "process" ≡ some v
          → j.as_object v ≡ some b
          → KeysDistinct b)
      → (ns == "process") ≡ false
      → find_todo file todo.id ≡ some old
      → (r : Todo V F) × (find_todo (upsert j file todo now) todo.id ≡ some r)
        × Carried j (get old.ext "process") (get todo.ext "process") (get r.ext "process")
        × (get r.ext ns ≡ elim (get todo.ext ns) [ none ↦ get old.ext ns | some v ↦ some v ])
  unfolding merge_row
  upsert-Carried file old todo now ns round distinct inside other found = (
    merge_row j old todo now,
    rw (find_todo-upsert j file todo now todo.id, found, eq_refl todo.id) refl,
    merge_ext-Carried old.ext todo.ext round distinct inside,
    merge_ext-other old.ext todo.ext ns distinct other,
  )

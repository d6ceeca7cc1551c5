-- ===== src/Board/Wire/Written.antt =====
-- What `v3_wire_value` of src-tauri/src/board/todos.rs writes is what `detect_issue` lets through.
use claude_usage_tracker_win.Prelude.{
  String, ◌≡◌, refl, ◌∙◌, ap, Bool, true, false, not, Option, none, some, List, [], ◌∷◌, contains,
  Dict, get, insert, get-insert, get-insert_self, arith, ◌==◌, eq_refl,
}
use claude_usage_tracker_win.Prelude.Json.{
  Value, null, boolean, number, string, array, object, Values, nil, cons, of_members,
  members-of_members,
}
use claude_usage_tracker_win.Board.Wire.{
  Wire, Issue, any_value, map_values, is_object, is_array, array_or_empty, has_process_and_legacy,
  has_mixed_process_forms, move_process_fields, in_array, move_in, normalize_version, check_version,
  check_changes, check_todos, check_value, detect_issue, v3_wire_value, current_version,
  todo_process_fields, change_process_fields,
}
use claude_usage_tracker_win.Board.Wire.Moved.{move_process_fields-unmixed}

module _ {N : Type 0} where
  any_value-unmixed :
      (fields : List String) (vs : Values N)
      → contains "ext" fields ≡ false
      → any_value
          (λ v. has_process_and_legacy v fields)
          (map_values (move_process_fields fields) vs)
        ≡ false
  any_value-unmixed fields nil apart = refl
  any_value-unmixed fields (cons v vs) apart =
      ground (arith, move_process_fields-unmixed fields v apart, any_value-unmixed fields vs apart)

  is_object-move_process_fields :
      (fields : List String) (v : Value N) → is_object (move_process_fields fields v) ≡ is_object v
  unfolding move_process_fields
  is_object-move_process_fields fields (object ms) = refl
  is_object-move_process_fields fields null = refl
  is_object-move_process_fields fields (boolean b) = refl
  is_object-move_process_fields fields (number n) = refl
  is_object-move_process_fields fields (string s) = refl
  is_object-move_process_fields fields (array vs) = refl

  objects-map_values :
      (fields : List String) (vs : Values N)
      → any_value (λ t. not (is_object t)) (map_values (move_process_fields fields) vs)
        ≡ any_value (λ t. not (is_object t)) vs
  objects-map_values fields nil = refl
  objects-map_values fields (cons v vs) =
      ground (arith, is_object-move_process_fields fields v, objects-map_values fields vs)

  insert-insert :
      (d : Dict (Value N)) (k : String) (v : Value N) → insert (insert d k v) k v ≡ insert d k v
  unfolding insert
  insert-insert [] k v = ground (arith, eq_refl k)
  insert-insert ((j, x) ∷ d) k v = ground (arith, eq_refl k, insert-insert d k v)

  -- The array under a key after the move, if there is one.
  get-move_in :
      (fields : List String) (key k : String) (d : Dict (Value N))
      → (key == k) ≡ false
      → get (move_in fields key d) k ≡ get d k
  unfolding move_in in_array
  get-move_in fields key k d h = go (get d key) refl
    where
      go :
          (o : Option (Value N))
          → get d key ≡ o
          → get (in_array (move_process_fields fields) key d o) k ≡ get d k
      go none e = refl
      go (some (array vs)) e =
          ground (
            arith,
            h,
            get-insert d key k (Value.array (map_values (move_process_fields fields) vs)),
          )
      go (some null) e = refl
      go (some (boolean b)) e = refl
      go (some (number n)) e = refl
      go (some (string s)) e = refl
      go (some (object ms)) e = refl

  abbrev pub array_or_missing : Option (Value N) → Bool
  array_or_missing none = true
  array_or_missing (some v) = is_array v

  -- The array under the key itself.
  in_array-same :
      (fields : List String) (key : String) (d : Dict (Value N)) (vs : Values N)
      → get d key ≡ some (Value.array vs)
      → get (move_in fields key d) key
        ≡ some (Value.array (map_values (move_process_fields fields) vs))
  unfolding move_in in_array
  in_array-same fields key d vs h =
      ground
        (arith, h, get-insert_self d key (Value.array (map_values (move_process_fields fields) vs)))

  move_in-array_or_missing :
      (fields : List String) (key : String) (d : Dict (Value N))
      → contains "ext" fields ≡ false
      → array_or_missing (get d key) ≡ true
      → (array_or_missing (get (move_in fields key d) key) ≡ true)
        × (any_value
              (λ v. has_process_and_legacy v fields)
              (array_or_empty (get (move_in fields key d) key))
            ≡ false)
  unfolding move_in in_array
  move_in-array_or_missing fields key d apart h = go (get d key) refl h
    where
      go :
          (o : Option (Value N))
          → get d key ≡ o
          → array_or_missing o ≡ true
          → (array_or_missing (get (in_array (move_process_fields fields) key d o) key) ≡ true)
            × (any_value
                  (λ v. has_process_and_legacy v fields)
                  (array_or_empty (get (in_array (move_process_fields fields) key d o) key))
                ≡ false)
      go none e k = (ground (arith, e), ground (arith, e))
      go (some (array vs)) e k =
          let same =
            get-insert_self d key (Value.array (map_values (move_process_fields fields) vs)) in
          (
            ap array_or_missing same,
            ap
                  (λ (o : Option (Value N)).
                    any_value (λ v. has_process_and_legacy v fields) (array_or_empty o))
                  same
                ∙ any_value-unmixed fields vs apart,
          )
      go (some null) e k = cc
      go (some (boolean b)) e k = cc
      go (some (number n)) e k = cc
      go (some (string s)) e k = cc
      go (some (object ms)) e k = cc

  has_mixed_process_forms-parts :
      (d : Dict (Value N)) (ts cs : Option (Value N))
      → get d "todos" ≡ ts
      → get d "changes" ≡ cs
      → any_value (λ v. has_process_and_legacy v todo_process_fields) (array_or_empty ts) ≡ false
      → any_value (λ v. has_process_and_legacy v change_process_fields) (array_or_empty cs) ≡ false
      → has_mixed_process_forms d ≡ false
  unfolding has_mixed_process_forms
  has_mixed_process_forms-parts d ts cs e e' h h' = ground (arith, e, e', h, h')

module _ {N F : Type 0} (w : Wire N F) where
  -- The object of a board: an array of objects under `todos`, under `changes` an array or nothing.
  pub record IsBoard (d : Dict (Value N)) : Type 0 where
    pub todos : Values N
    pub has_todos : get d "todos" ≡ some (Value.array todos)
    pub rows : any_value (λ t. not (is_object t)) todos ≡ false
    pub changes : array_or_missing (get d "changes") ≡ true

  -- What the checks ask for of an object.
  record Passes (d : Dict (Value N)) : Type 0 where
    todos : Values N
    has_todos : get d "todos" ≡ some (Value.array todos)
    rows : any_value (λ t. not (is_object t)) todos ≡ false
    changes : array_or_missing (get d "changes") ≡ true
    version : get d "version" ≡ some (Value.number (w.from_u32 current_version))
    unmixed : has_mixed_process_forms d ≡ false
    stamped : insert d "version" (Value.number (w.from_u32 current_version)) ≡ d

  v3_wire_value-Passes : (d : Dict (Value N)) → IsBoard d → Passes (v3_wire_value w d)
  unfolding v3_wire_value
  v3_wire_value-Passes d b =
      let n = Value.number (w.from_u32 current_version) in
      let one = move_in todo_process_fields "todos" d in
      let two = move_in change_process_fields "changes" one in
      let in_todos : get two "todos"
          ≡ some (Value.array (map_values (move_process_fields todo_process_fields) b.todos)) =
        get-move_in change_process_fields "changes" "todos" one refl
        ∙ in_array-same todo_process_fields "todos" d b.todos b.has_todos in
      let (kept, unmixed) = move_in-array_or_missing change_process_fields "changes" one refl (
        ap array_or_missing (get-move_in todo_process_fields "todos" "changes" d refl)
        ∙ b.changes) in
      record {
        todos = map_values (move_process_fields todo_process_fields) b.todos;
        has_todos = get-insert two "version" "todos" n ∙ in_todos;
        rows = objects-map_values todo_process_fields b.todos ∙ b.rows;
        changes = ap array_or_missing (get-insert two "version" "changes" n) ∙ kept;
        version = get-insert_self two "version" n;
        unmixed =
            has_mixed_process_forms-parts (v3_wire_value w d)
              (some (Value.array (map_values (move_process_fields todo_process_fields) b.todos)))
              (get two "changes") (get-insert two "version" "todos" n ∙ in_todos)
              (get-insert two "version" "changes" n)
              (any_value-unmixed todo_process_fields b.todos refl) unmixed;
        stamped = insert-insert two "version" n;
      }

  check_version-Passes :
      (d : Dict (Value N))
      → w.as_u64 (w.from_u32 current_version) ≡ some current_version
      → Passes d
      → check_version w d (normalize_version w (get d "version"))
        ≡ Issue.fine (Value.object (of_members d))
  unfolding check_version normalize_version
  check_version-Passes d same p = rw p.version (ground (arith, same, p.unmixed, p.stamped))

  check_changes-Passes :
      (d : Dict (Value N)) (o : Option (Value N))
      → array_or_missing o ≡ true
      → check_changes w d o ≡ check_version w d (normalize_version w (get d "version"))
  unfolding check_changes
  check_changes-Passes d none h = refl
  check_changes-Passes d (some v) h = ground (arith, h)

  check_todos-Passes :
      (d : Dict (Value N))
      → Passes d
      → check_todos w d (get d "todos") ≡ check_changes w d (get d "changes")
  unfolding check_todos
  check_todos-Passes d p = rw p.has_todos (ground (arith, p.rows))

  detect_issue-parsed :
      (raw : String) (v : Value N) → w.from_str raw ≡ some v → detect_issue w raw ≡ check_value w v
  unfolding detect_issue
  detect_issue-parsed raw v h = ground (arith, h)

  -- What is written for the object of a board, with an array of objects under `todos` and an array
  -- or nothing under `changes`, passes `detect_issue` and comes out of it as written, where
  -- `serde_json` reads back what it printed and takes 3 for a number of type `u64`. Whether the rows
  -- are of the schema of serde, which the load checks afterwards, is no part of this.
  pub detect_issue-v3_wire_value :
      (d : Dict (Value N)) (raw : String)
      → IsBoard d
      → w.from_str raw ≡ some (Value.object (of_members (v3_wire_value w d)))
      → w.as_u64 (w.from_u32 current_version) ≡ some current_version
      → detect_issue w raw ≡ Issue.fine (Value.object (of_members (v3_wire_value w d)))
  unfolding check_value
  detect_issue-v3_wire_value d raw b printed same =
      let out = v3_wire_value w d in
      let p = v3_wire_value-Passes d b in
      detect_issue-parsed raw (Value.object (of_members out)) printed
      ∙ ap (λ (m : Dict (Value N)). check_todos w m (get m "todos")) (members-of_members out)
      ∙ check_todos-Passes out p
      ∙ check_changes-Passes out (get out "changes") p.changes
      ∙ check_version-Passes out same p

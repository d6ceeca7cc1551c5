-- ===== src/Board/Wire.antt =====
-- The form of the board file, src-tauri/src/board/todos.rs: what `detect_issue` lets through before
-- the rows are read, and `v3_wire_value`, which moves the process fields of each row under
-- `ext.process` before the rows are written. `serde_json` reads and prints (`Wire`); its numbers are
-- of the type `N`, and `F` is `f64`.
pub mod Moved
pub mod Written
pub mod Hydrate
pub mod Hydrated
mod Tests
use claude_usage_tracker_win.Prelude.{
  u32, ℕ, ◌+◌, ◌-◌, ◌^◌, String, Bool, true, false, not, ◌&&◌, ◌||◌, Option, none, some, List, [],
  ◌∷◌, ltb, if◌then◌else◌, any, Dict, get, insert, remove,
}
use claude_usage_tracker_win.Prelude.Json.{
  Value, null, boolean, number, string, array, object, Values, nil, cons, Members, members,
  of_members,
}
use claude_usage_tracker_win.Board.Edit.{is_empty}

pub record Wire (N F : Type 0) : Type 0 where
  pub from_str : String → Option (Value N)
  pub as_u64 : N → Option ℕ
  pub as_f64 : N → Option F
  pub is_finite : F → Bool
  pub is_whole : F → Bool  -- `fract() == 0.0`
  pub is_nonnegative : F → Bool  -- `f >= 0.0`
  pub is_huge : F → Bool  -- `f >= u64::MAX as f64`
  pub to_u64 : F → ℕ  -- `f as u64`
  pub from_u32 : ℕ → N

abbrev pub current_version : ℕ
current_version = 3

abbrev pub todo_process_fields : List String
todo_process_fields =
    "produces" ∷ "verify" ∷ "retry_limit" ∷ "on_issue" ∷ "budget_usd" ∷ "parallel_limit" ∷ "outcome"
    ∷ "outcome_reason" ∷ "outcome_at" ∷ "handout_at" ∷ []

abbrev pub change_process_fields : List String
change_process_fields = "spec" ∷ "budget_usd" ∷ "parallel_limit" ∷ []

pub data Issue (N : Type 0) : Type 0 where
  fine : Value N → Issue N
  future_version : ℕ → Issue N
  unreadable : String → Issue N

abbrev pub is_some {ℓ} : {A : Type ℓ} → Option A → Bool
is_some none = false
is_some (some x) = true

module _ {N : Type 0} where
  abbrev pub is_object : Value N → Bool
  is_object (object ms) = true
  is_object null = false
  is_object (boolean b) = false
  is_object (number n) = false
  is_object (string s) = false
  is_object (array vs) = false

  abbrev pub is_array : Value N → Bool
  is_array (array vs) = true
  is_array null = false
  is_array (boolean b) = false
  is_array (number n) = false
  is_array (string s) = false
  is_array (object ms) = false

  -- The entries of a value that is an object, and no entries of any other.
  abbrev pub object_or_empty : Option (Value N) → Dict (Value N)
  object_or_empty (some (object ms)) = members ms
  object_or_empty (some null) = []
  object_or_empty (some (boolean b)) = []
  object_or_empty (some (number n)) = []
  object_or_empty (some (string s)) = []
  object_or_empty (some (array vs)) = []
  object_or_empty none = []

  -- The elements of a value that is an array, and none of any other.
  abbrev pub array_or_empty : Option (Value N) → Values N
  array_or_empty (some (array vs)) = vs
  array_or_empty (some null) = nil
  array_or_empty (some (boolean b)) = nil
  array_or_empty (some (number n)) = nil
  array_or_empty (some (string s)) = nil
  array_or_empty (some (object ms)) = nil
  array_or_empty none = nil

  abbrev pub any_value : (Value N → Bool) → Values N → Bool
  any_value p nil = false
  any_value p (cons v vs) = p v || any_value p vs

  abbrev pub map_values : (Value N → Value N) → Values N → Values N
  map_values f nil = nil
  map_values f (cons v vs) = cons (f v) (map_values f vs)

  unfoldable pub contains_key : Dict (Value N) → String → Bool
  contains_key d k = is_some (get d k)

  -- `obj["ext"]["process"]`, empty where it is no object: no field is in it then.
  abbrev pub process_of : Dict (Value N) → Dict (Value N)
  process_of obj = object_or_empty (get (object_or_empty (get obj "ext")) "process")

  unfoldable pub has_process_and_legacy : Value N → List String → Bool
  has_process_and_legacy value fields =
      let obj = object_or_empty (some value) in
      any (λ field. contains_key obj field && contains_key (process_of obj) field) fields

  unfoldable pub has_mixed_process_forms : Dict (Value N) → Bool
  has_mixed_process_forms board =
      any_value (λ todo. has_process_and_legacy todo todo_process_fields)
        (array_or_empty (get board "todos"))
      || any_value (λ change. has_process_and_legacy change change_process_fields)
          (array_or_empty (get board "changes"))

  -- `for field in fields { if let Some(v) = obj.remove(field) { process.insert(field, v) } }`
  unfoldable pub move_fields :
      List String → Dict (Value N) → Dict (Value N) → Dict (Value N) × Dict (Value N)
  move_fields [] obj process = (obj, process)
  move_fields (field ∷ fields) obj process = elim (get obj field) [
    | none ↦ move_fields fields obj process
    | some v ↦ move_fields fields (remove obj field) (insert process field v)
  ]

  -- `if !inner.is_empty() { outer.insert(key, Object(inner)) }`
  unfoldable pub insert_object : Dict (Value N) → String → Dict (Value N) → Dict (Value N)
  insert_object outer key inner =
      if is_empty inner then outer else insert outer key (Value.object (of_members inner))

  -- The entries of the object after the move.
  unfoldable pub moved : List String → Dict (Value N) → Dict (Value N)
  moved fields obj =
      let ext = object_or_empty (get obj "ext") in
      let process = object_or_empty (get ext "process") in
      let (obj', process') = move_fields fields (remove obj "ext") process in
      insert_object obj' "ext" (insert_object (remove ext "process") "process" process')

  unfoldable pub move_process_fields : List String → Value N → Value N
  move_process_fields fields (object ms) = Value.object (of_members (moved fields (members ms)))
  move_process_fields fields null = Value.null
  move_process_fields fields (boolean b) = Value.boolean b
  move_process_fields fields (number n) = Value.number n
  move_process_fields fields (string s) = Value.string s
  move_process_fields fields (array vs) = Value.array vs

  -- `if let Some(rows) = value.get_mut(key).and_then(as_array_mut) { for row in rows { … } }`
  unfoldable pub in_array :
      (Value N → Value N) → String → Dict (Value N) → Option (Value N) → Dict (Value N)
  in_array f key d (some (array vs)) = insert d key (Value.array (map_values f vs))
  in_array f key d (some null) = d
  in_array f key d (some (boolean b)) = d
  in_array f key d (some (number n)) = d
  in_array f key d (some (string s)) = d
  in_array f key d (some (object ms)) = d
  in_array f key d none = d

  unfoldable pub move_in : List String → String → Dict (Value N) → Dict (Value N)
  move_in fields key d = in_array (move_process_fields fields) key d (get d key)

module _ {N F : Type 0} (w : Wire N F) where
  unfoldable pub whole_version : Option F → ℕ
  whole_version none = 1
  whole_version (some f) =
      if w.is_finite f && w.is_whole f && w.is_nonnegative f
      then if w.is_huge f then 2 ^ 64 - 1 else w.to_u64 f
      else 1

  unfoldable pub normalize_version : Option (Value N) → ℕ
  normalize_version (some (number n)) = elim (w.as_u64 n) [
    | some i ↦ i
    | none ↦ whole_version (w.as_f64 n)
  ]
  normalize_version (some null) = 1
  normalize_version (some (boolean b)) = 1
  normalize_version (some (string s)) = 1
  normalize_version (some (array vs)) = 1
  normalize_version (some (object ms)) = 1
  normalize_version none = 1

  -- `detect_issue` from the look at the version on.
  unfoldable pub check_version : Dict (Value N) → ℕ → Issue N
  check_version obj version =
      if ltb current_version version
      then Issue.future_version version
      else if has_mixed_process_forms obj
      then Issue.unreadable "mixed-v2-v3-process-fields"
      else Issue.fine (
          Value.object
            (of_members (insert obj "version" (Value.number (w.from_u32 (u32 version))))))

  -- From the look at the changes on.
  unfoldable pub check_changes : Dict (Value N) → Option (Value N) → Issue N
  check_changes obj none = check_version obj (normalize_version (get obj "version"))
  check_changes obj (some v) =
      if is_array v
      then check_version obj (normalize_version (get obj "version"))
      else Issue.unreadable "changes-not-array"

  -- From the look at the rows on.
  unfoldable pub check_todos : Dict (Value N) → Option (Value N) → Issue N
  check_todos obj (some (array vs)) =
      if any_value (λ t. not (is_object t)) vs
      then Issue.unreadable "todo-not-object"
      else check_changes obj (get obj "changes")
  check_todos obj (some null) = Issue.unreadable "todos-not-array"
  check_todos obj (some (boolean b)) = Issue.unreadable "todos-not-array"
  check_todos obj (some (number n)) = Issue.unreadable "todos-not-array"
  check_todos obj (some (string s)) = Issue.unreadable "todos-not-array"
  check_todos obj (some (object ms)) = Issue.unreadable "todos-not-array"
  check_todos obj none = Issue.unreadable "todos-not-array"

  unfoldable pub check_value : Value N → Issue N
  check_value (object ms) = check_todos (members ms) (get (members ms) "todos")
  check_value null = Issue.unreadable "not-object"
  check_value (boolean b) = Issue.unreadable "not-object"
  check_value (number n) = Issue.unreadable "not-object"
  check_value (string s) = Issue.unreadable "not-object"
  check_value (array vs) = Issue.unreadable "not-object"

  unfoldable pub detect_issue : String → Issue N
  detect_issue raw = elim (w.from_str raw) [
    | none ↦ Issue.unreadable "not-json"
    | some parsed ↦ check_value parsed
  ]

  -- `v3_wire_value` of the object that `to_value` gives for a file.
  unfoldable pub v3_wire_value : Dict (Value N) → Dict (Value N)
  v3_wire_value d =
      insert (move_in change_process_fields "changes" (move_in todo_process_fields "todos" d))
        "version" (Value.number (w.from_u32 current_version))

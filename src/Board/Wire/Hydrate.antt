-- ===== src/Board/Wire/Hydrate.antt =====
-- `hydrate_v3_process_fields` of src-tauri/src/board/todos.rs: after a load the process fields move
-- from `ext.process` into the row, and what else is there stays.
use claude_usage_tracker_win.Prelude.{
  ℕ, ◌^◌, String, ◌≡◌, ◌∙◌, ap, false, Option, none, some, List, [], ◌∷◌, ltb, if◌then◌else◌,
  contains, Dict, get, insert, remove, get-insert, get-insert_self, get-remove, arith, ◌==◌, eq_iff,
  eq_refl, Bool-cases, inl, inr, map,
}
use claude_usage_tracker_win.Prelude.Json.{
  Value, null, boolean, number, string, array, object, Values, nil, cons, members, of_members,
  members-of_members,
}
use claude_usage_tracker_win.Board.Todo.{Todo, Change, TodoFile}
use claude_usage_tracker_win.Board.Edit.{is_empty}
use claude_usage_tracker_win.Board.Deps.{unwrap_or}
use claude_usage_tracker_win.Board.Wire.{
  Wire, object_or_empty, todo_process_fields, change_process_fields,
}
use claude_usage_tracker_win.Board.Wire.Moved.{or_option}

module _ {N : Type 0} where
  abbrev pub as_str : Value N → Option String
  as_str (string s) = some s
  as_str null = none
  as_str (boolean b) = none
  as_str (number n) = none
  as_str (array vs) = none
  as_str (object ms) = none

  -- `get(key).and_then(Value::as_str)`
  abbrev pub text_at : Dict (Value N) → String → Option String
  text_at d k = elim (get d k) [ none ↦ none | some v ↦ as_str v ]

  -- `filter_map(Value::as_str)`
  unfoldable pub strings : Values N → List String
  strings nil = []
  strings (cons v vs) = elim (as_str v) [ none ↦ strings vs | some s ↦ s ∷ strings vs ]

  abbrev pub as_strings : Value N → Option (List String)
  as_strings (array vs) = some (strings vs)
  as_strings null = none
  as_strings (boolean b) = none
  as_strings (number n) = none
  as_strings (string s) = none
  as_strings (object ms) = none

  abbrev pub strings_at : Dict (Value N) → String → Option (List String)
  strings_at d k = elim (get d k) [ none ↦ none | some v ↦ as_strings v ]

  abbrev pub as_number : Value N → Option N
  as_number (number n) = some n
  as_number null = none
  as_number (boolean b) = none
  as_number (string s) = none
  as_number (array vs) = none
  as_number (object ms) = none

  abbrev pub number_in : Dict (Value N) → String → Option N
  number_in d k = elim (get d k) [ none ↦ none | some v ↦ as_number v ]

  -- The entries of `process` that are no fields of the row.
  unfoldable pub unknown_fields : List String → Dict (Value N) → Dict (Value N)
  unknown_fields fields [] = []
  unknown_fields fields ((k, v) ∷ d) =
      let rest = unknown_fields fields d in if contains k fields then rest else (k, v) ∷ rest

  -- `if unknown.is_empty() { ext.remove("process") } else { ext.insert("process", unknown) }`
  unfoldable pub put_unknown : Dict (Value N) → Dict (Value N) → Dict (Value N)
  put_unknown ext unknown =
      if is_empty unknown
      then remove ext "process"
      else insert ext "process" (Value.object (of_members unknown))

-- `if let Some(v) = new { field = u32::try_from(v).ok() }`
unfoldable pub u32_or : Option ℕ → Option ℕ → Option ℕ
u32_or none old = old
u32_or (some n) old = if ltb n (2 ^ 32) then some n else none

module _ {N F : Type 0} (w : Wire N F) where
  abbrev pub u64_at : Dict (Value N) → String → Option ℕ
  u64_at d k = elim (number_in d k) [ none ↦ none | some n ↦ w.as_u64 n ]

  abbrev pub f64_at : Dict (Value N) → String → Option F
  f64_at d k = elim (number_in d k) [ none ↦ none | some n ↦ w.as_f64 n ]

  -- A row whose `ext.process` is the object `p`.
  unfoldable pub hydrate_todo : Dict (Value N) → Todo (Value N) F → Todo (Value N) F
  hydrate_todo p t = record t {
    produces = unwrap_or (strings_at p "produces") t.produces;
    verify = unwrap_or (text_at p "verify") t.verify;
    retry_limit = u32_or (u64_at p "retry_limit") t.retry_limit;
    on_issue = or_option (text_at p "on_issue") t.on_issue;
    budget_usd = or_option (f64_at p "budget_usd") t.budget_usd;
    parallel_limit = u32_or (u64_at p "parallel_limit") t.parallel_limit;
    outcome = unwrap_or (text_at p "outcome") t.outcome;
    outcome_reason = unwrap_or (text_at p "outcome_reason") t.outcome_reason;
    outcome_at = unwrap_or (text_at p "outcome_at") t.outcome_at;
    handout_at = or_option (text_at p "handout_at") t.handout_at;
    ext = put_unknown t.ext (unknown_fields todo_process_fields p);
  }

  unfoldable pub hydrate_change : Dict (Value N) → Change (Value N) F → Change (Value N) F
  hydrate_change p c = record c {
    spec = unwrap_or (strings_at p "spec") c.spec;
    budget_usd = or_option (f64_at p "budget_usd") c.budget_usd;
    parallel_limit = u32_or (u64_at p "parallel_limit") c.parallel_limit;
    ext = put_unknown c.ext (unknown_fields change_process_fields p);
  }

  -- `if let Some(Value::Object(process)) = row.ext.get("process")`
  unfoldable pub with_process : {A : Type 0} → Option (Value N) → (Dict (Value N) → A → A) → A → A
  with_process (some (object ms)) f x = f (members ms) x
  with_process (some null) f x = x
  with_process (some (boolean b)) f x = x
  with_process (some (number n)) f x = x
  with_process (some (string s)) f x = x
  with_process (some (array vs)) f x = x
  with_process none f x = x

  unfoldable pub hydrate_v3_process_fields : TodoFile (Value N) F → TodoFile (Value N) F
  hydrate_v3_process_fields file = record file {
    todos = map (λ t. with_process (get t.ext "process") hydrate_todo t) file.todos;
    changes = map (λ c. with_process (get c.ext "process") hydrate_change c) file.changes;
  }

module _ {N : Type 0} where
  pub get-unknown_fields :
      (fields : List String) (d : Dict (Value N)) (k : String)
      → get (unknown_fields fields d) k ≡ (if contains k fields then none else get d k)
  unfolding unknown_fields get
  get-unknown_fields fields [] k = ground arith
  get-unknown_fields fields ((j, v) ∷ d) k = elim (Bool-cases (j == k)) [
    | inl e ↦
        let same = ap (λ (s : String). contains s fields) ((eq_iff j k).0 e) in
        ground (arith, e, same, get-unknown_fields fields d k)
    | inr e ↦ ground (arith, e, get-unknown_fields fields d k)
  ]

  get-gone : (d : Dict (Value N)) (k : String) → get (remove d k) k ≡ none
  get-gone d k = ground (arith, get-remove d k k, eq_refl k)

  pub put_unknown-process :
      (ext unknown : Dict (Value N))
      → object_or_empty (get (put_unknown ext unknown) "process") ≡ unknown
  unfolding put_unknown
  put_unknown-process ext [] = ap object_or_empty (get-gone ext "process")
  put_unknown-process ext (e ∷ unknown) =
      ap object_or_empty (get-insert_self ext "process" (Value.object (of_members (e ∷ unknown))))
      ∙ members-of_members (e ∷ unknown)

  pub put_unknown-rest :
      (ext unknown : Dict (Value N)) (k : String)
      → ("process" == k) ≡ false
      → get (put_unknown ext unknown) k ≡ get ext k
  unfolding put_unknown
  put_unknown-rest ext [] k h = ground (arith, get-remove ext "process" k, h)
  put_unknown-rest ext (e ∷ unknown) k h =
      ground (arith, get-insert ext "process" k (Value.object (of_members (e ∷ unknown))), h)

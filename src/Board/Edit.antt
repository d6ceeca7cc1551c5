-- ===== src/Board/Edit.antt =====
-- The board's operations on one row (src-tauri/src/board/todos.rs): lookups, `upsert`, `delete`,
-- `set_status`, `add_comment`, `remove_comment`, and the rules for a change record.
pub mod Rows
pub mod Upserts
pub mod Carried
pub mod History
pub mod Members
use Prim.Native.String
use claude_usage_tracker_win.Prelude.{
  u32, ℕ, ◌+◌, ◌%◌, ◌^◌, String, Bool, true, false, not, ◌&&◌, ◌||◌, Option, none, some, List, [],
  ◌∷◌, ◌++◌, ◌==◌, eqb, ltb, leb, if◌then◌else◌, length, any, find, retain, update_first, is_blank,
  str_lt, contains, Dict, get, insert, extend, Result, ok, err,
}
use claude_usage_tracker_win.Board.Todo.{Todo, TodoFile, StatusChange, Comment}

-- What the code uses of `serde_json::Value`: whether it is the variant `Object`, with its map, and
-- that variant's constructor.
pub record Json {ℓ} (V : Type ℓ) : Type ℓ where
  pub as_object : V → Option (Dict V)
  pub object : Dict V → V

abbrev pub is_empty {ℓ} : {A : Type ℓ} → List A → Bool
is_empty [] = true
is_empty (x ∷ xs) = false

-- `if x.is_none() { x = old }`
abbrev pub or_else {ℓ} : {A : Type ℓ} → Option A → Option A → Option A
or_else none old = old
or_else (some x) old = some x

-- `if xs.is_empty() { xs = old }`, on a vector and on a text
abbrev pub or_list {ℓ} : {A : Type ℓ} → List A → List A → List A
or_list [] old = old
or_list (x ∷ xs) old = x ∷ xs

abbrev pub or_text : String → String → String
or_text s old = if s == "" then old else s

-- `format!("no task with id {id}")`
abbrev pub no_task : String → String
no_task id = String.◌++◌ "no task with id " id

abbrev pub statuses : List String
statuses = "backlog" ∷ "queue" ∷ "in_progress" ∷ "review" ∷ "done" ∷ []

abbrev pub priorities : List String
priorities = "high" ∷ "medium" ∷ "low" ∷ []

unfoldable pub is_valid_status : String → Bool
is_valid_status status = contains status statuses

unfoldable pub is_valid_priority : String → Bool
is_valid_priority priority = priority == "" || contains priority priorities

unfoldable pub canonical_status : String → String
canonical_status status = if is_valid_status status then status else "backlog"

-- `Option<&str> == Some(id)`
abbrev pub is_some_of : Option String → String → Bool
is_some_of none id = false
is_some_of (some c) id = c == id

abbrev pub max : ℕ → ℕ → ℕ
max a b = if leb a b then b else a

-- The loop of `upsert` over `todo.ext`: what both sides hold under "process" is merged key by
-- key, any other namespace is replaced.
unfoldable pub merge_namespace {ℓ} : {V : Type ℓ} → Json V → Dict V → String → V → Dict V
merge_namespace j merged ns incoming = elim (get merged ns) [
  | none ↦ insert merged ns incoming
  | some v ↦ elim (j.as_object v) [
    | none ↦ insert merged ns incoming
    | some stored ↦ elim (j.as_object incoming) [
      | none ↦ insert merged ns incoming
      | some fresh ↦
          if ns == "process"
          then insert merged ns (j.object (extend stored fresh))
          else insert merged ns incoming
    ]
  ]
]

unfoldable pub merge_ext {ℓ} : {V : Type ℓ} → Json V → Dict V → Dict V → Dict V
unfolding merge_namespace
merge_ext j merged [] = merged
merge_ext j merged ((ns, incoming) ∷ rest) = merge_ext j (merge_namespace j merged ns incoming) rest

module _ {V F : Type 0} where
  abbrev pub has_id : String → Todo V F → Bool
  has_id id t = t.id == id

  unfoldable pub find_todo : TodoFile V F → String → Option (Todo V F)
  find_todo file id = find (has_id id) file.todos

  -- `(number, id)` of one row before that of another
  abbrev pub key_lt : Todo V F → Todo V F → Bool
  key_lt a b = ltb a.number b.number || (eqb a.number b.number && str_lt a.id b.id)

  -- `sort_by_key` is stable: a row goes before the first one whose key is not smaller.
  unfoldable pub insert_by_key : Todo V F → List (Todo V F) → List (Todo V F)
  insert_by_key t [] = t ∷ []
  insert_by_key t (u ∷ ts) =
      let rest = insert_by_key t ts in if key_lt u t then u ∷ rest else t ∷ u ∷ ts

  unfoldable pub sort_by_key : List (Todo V F) → List (Todo V F)
  unfolding insert_by_key
  sort_by_key [] = []
  sort_by_key (t ∷ ts) = insert_by_key t (sort_by_key ts)

  unfoldable pub change_members : TodoFile V F → String → List (Todo V F)
  unfolding sort_by_key
  change_members file change_id =
      sort_by_key (retain (λ t. is_some_of t.change_id change_id) file.todos)

  unfoldable pub change_open : TodoFile V F → String → Bool
  change_open file change_id =
      let members = change_members file change_id in
      is_empty members || any (λ t. not (t.status == "done")) members

  -- `iter().map(|t| t.number).max().unwrap_or(0)`
  unfoldable pub max_of : List (Todo V F) → ℕ
  max_of [] = 0
  max_of (t ∷ ts) = max t.number (max_of ts)

  unfoldable pub max_number : TodoFile V F → ℕ
  unfolding max_of
  max_number file = max_of file.todos

  abbrev pub log_status : Todo V F → String → String → List StatusChange → List StatusChange
  log_status old status now history =
      if status == old.status then history else history ++ record { status = status; at = now } ∷ []

  -- The branch of `upsert` that replaces `existing`.
  unfoldable pub merge_row : Json V → Todo V F → Todo V F → String → Todo V F
  unfolding merge_ext
  merge_row j existing todo now = record todo {
    updated_at = now;
    created_at = or_text existing.created_at now;
    number = if eqb todo.number 0 then existing.number else todo.number;
    ext = merge_ext j existing.ext todo.ext;
    unknown = extend existing.unknown todo.unknown;
    from = or_else todo.from existing.from;
    produces = or_list todo.produces existing.produces;
    verify = or_text todo.verify existing.verify;
    retry_limit = or_else todo.retry_limit existing.retry_limit;
    on_issue = or_else todo.on_issue existing.on_issue;
    budget_usd = or_else todo.budget_usd existing.budget_usd;
    parallel_limit = or_else todo.parallel_limit existing.parallel_limit;
    spec = or_list todo.spec existing.spec;
    spec_answers = or_list todo.spec_answers existing.spec_answers;
    spec_seen = or_list todo.spec_seen existing.spec_seen;
    outcome = if todo.outcome == "" then existing.outcome else todo.outcome;
    outcome_reason = if todo.outcome == "" then existing.outcome_reason else todo.outcome_reason;
    outcome_at = if todo.outcome == "" then existing.outcome_at else todo.outcome_at;
    status_history =
        log_status existing todo.status now (or_list todo.status_history existing.status_history);
    handoff_at =
        if is_blank todo.handoff
        then none
        else if todo.handoff == existing.handoff
        then existing.handoff_at
        else some now;
    handout_at = or_else todo.handout_at existing.handout_at;
    comments = existing.comments;
  }

  -- The branch of `upsert` that appends: the stamps and the number of a new row.
  unfoldable pub new_row : TodoFile V F → Todo V F → String → Todo V F
  new_row file todo now = record todo {
    updated_at = now;
    created_at = or_text todo.created_at now;
    handoff_at = elim todo.handoff_at [
      | none ↦ if is_blank todo.handoff then none else some now
      | some at ↦ some at
    ];
    number = if eqb todo.number 0 then u32 (max_number file + 1) else todo.number;
  }

  unfoldable pub upsert : Json V → TodoFile V F → Todo V F → String → TodoFile V F
  unfolding merge_row new_row
  upsert j file todo now =
      if any (has_id todo.id) file.todos
      then record file {
        todos =
            update_first (has_id todo.id) (λ existing. merge_row j existing todo now) file.todos;
      }
      else record file { todos = file.todos ++ new_row file todo now ∷ [] }

  unfoldable pub delete : TodoFile V F → String → TodoFile V F
  delete file id = record file { todos = retain (λ t. not (has_id id t)) file.todos }

  unfoldable pub with_status : String → String → Todo V F → Todo V F
  with_status status now t = record t {
    status_history = log_status t status now t.status_history;
    status = status;
    updated_at = now;
  }

  unfoldable pub set_status : TodoFile V F → String → String → String → TodoFile V F × Bool
  unfolding with_status
  set_status file id status now =
      if any (has_id id) file.todos
      then (
        record file { todos = update_first (has_id id) (with_status status now) file.todos },
        true,
      )
      else (file, false)

  -- `new_id()` is the argument `fresh`.
  unfoldable pub with_comment : Comment → String → Todo V F → Todo V F
  with_comment comment now t = record t { comments = t.comments ++ comment ∷ []; updated_at = now }

  unfoldable pub add_comment :
      TodoFile V F → String → String → String → String → String → Result String (TodoFile V F)
  unfolding with_comment
  add_comment file fresh task_id author body now =
      let comment : Comment = record {
        id = fresh;
        author = author;
        body = body;
        created_at = now;
      } in
      if any (has_id task_id) file.todos
      then ok (record file {
        todos = update_first (has_id task_id) (with_comment comment now) file.todos;
      })
      else err (no_task task_id)

  unfoldable pub without_comment : String → String → Todo V F → Todo V F
  without_comment comment_id now t =
      let kept = retain (λ (c : Comment). not (c.id == comment_id)) t.comments in
      record t {
        comments = kept;
        updated_at = if eqb (length kept) (length t.comments) then t.updated_at else now;
      }

  unfoldable pub remove_comment :
      TodoFile V F → String → String → String → Result String (TodoFile V F)
  unfolding without_comment
  remove_comment file task_id comment_id now =
      if any (has_id task_id) file.todos
      then ok (record file {
        todos = update_first (has_id task_id) (without_comment comment_id now) file.todos;
      })
      else err (no_task task_id)

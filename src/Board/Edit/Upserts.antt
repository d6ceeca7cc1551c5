-- ===== src/Board/Edit/Upserts.antt =====
-- The row that `upsert` of src-tauri/src/board/todos.rs leaves, field by field.
use claude_usage_tracker_win.Prelude.{
  ℕ, ◌+◌, ◌%◌, ◌^◌, ◌≤◌, ◌≡◌, String, refl, ◌⊎◌, inl, inr, Option, some, none, List, [], ◌∷◌, ◌++◌,
  ◌==◌, eqb, if◌then◌else◌, is_blank, get_elem?, arith, Option-cases, extend, Bool-cases, zero, suc,
  leb,
}
use claude_usage_tracker_win.Board.Todo.{Todo, TodoFile}
use claude_usage_tracker_win.Board.Edit.{
  Json, find_todo, upsert, merge_row, new_row, max_of, max_number,
}
use claude_usage_tracker_win.Board.Edit.Rows.{find_todo-upsert}

-- The value that came in, or the stored one where it is the empty one.
abbrev pub text_kept : String → String → String
text_kept incoming stored = if incoming == "" then stored else incoming

abbrev pub option_kept {ℓ} : {A : Type ℓ} → Option A → Option A → Option A
option_kept none stored = stored
option_kept (some x) stored = some x

abbrev pub list_kept {ℓ} : {A : Type ℓ} → List A → List A → List A
list_kept [] stored = stored
list_kept (x ∷ xs) stored = x ∷ xs

module _ {V F : Type 0} where
  -- The row `r` after an upsert of `todo` at `now` over the stored row `old`.
  pub record MergedRow (old todo : Todo V F) (now : String) (r : Todo V F) : Type 0 where
    pub number : r.number ≡ (if eqb todo.number 0 then old.number else todo.number)
    pub created_at : r.created_at ≡ text_kept old.created_at now
    pub updated_at : r.updated_at ≡ now
    pub comments : r.comments ≡ old.comments
    pub from : r.from ≡ option_kept todo.from old.from
    pub produces : r.produces ≡ list_kept todo.produces old.produces
    pub verify : r.verify ≡ text_kept todo.verify old.verify
    pub retry_limit : r.retry_limit ≡ option_kept todo.retry_limit old.retry_limit
    pub on_issue : r.on_issue ≡ option_kept todo.on_issue old.on_issue
    pub budget_usd : r.budget_usd ≡ option_kept todo.budget_usd old.budget_usd
    pub parallel_limit : r.parallel_limit ≡ option_kept todo.parallel_limit old.parallel_limit
    pub spec : r.spec ≡ list_kept todo.spec old.spec
    pub spec_answers : r.spec_answers ≡ list_kept todo.spec_answers old.spec_answers
    pub spec_seen : r.spec_seen ≡ list_kept todo.spec_seen old.spec_seen
    pub outcome :
        ◌≡◌ {A = String × (String × String)}
          (r.outcome, (r.outcome_reason, r.outcome_at))
          (if todo.outcome == ""
            then (old.outcome, (old.outcome_reason, old.outcome_at))
            else (todo.outcome, (todo.outcome_reason, todo.outcome_at)))
    pub handoff_at : r.handoff_at ≡ (
        if is_blank todo.handoff
        then none
        else if todo.handoff == old.handoff
        then old.handoff_at
        else some now)
    pub handout_at : r.handout_at ≡ option_kept todo.handout_at old.handout_at
    pub status_history : r.status_history ≡ (
        if todo.status == old.status
        then list_kept todo.status_history old.status_history
        else list_kept todo.status_history old.status_history
          ++ record { status = todo.status; at = now } ∷ [])
    pub unknown : r.unknown ≡ extend old.unknown todo.unknown
    -- Every other field but `ext` is as it came in.
    pub given : r ≡ record todo {
      number = r.number;
      created_at = r.created_at;
      updated_at = r.updated_at;
      comments = r.comments;
      from = r.from;
      produces = r.produces;
      verify = r.verify;
      retry_limit = r.retry_limit;
      on_issue = r.on_issue;
      budget_usd = r.budget_usd;
      parallel_limit = r.parallel_limit;
      spec = r.spec;
      spec_answers = r.spec_answers;
      spec_seen = r.spec_seen;
      outcome = r.outcome;
      outcome_reason = r.outcome_reason;
      outcome_at = r.outcome_at;
      handoff_at = r.handoff_at;
      handout_at = r.handout_at;
      status_history = r.status_history;
      unknown = r.unknown;
      ext = r.ext;
    }

  -- `n` is the largest number of the rows, 0 if there is none.
  pub record IsHighest (ts : List (Todo V F)) (n : ℕ) : Type 0 where
    pub bound : (i : ℕ) (t : Todo V F) → get_elem? ts i ≡ some t → t.number ≤ n
    pub reached : (n ≡ 0) ⊎ ((i : ℕ) × (t : Todo V F) × (get_elem? ts i ≡ some t) × (t.number ≡ n))

  -- The row `r` after an upsert of `todo` at `now` where the board had no row of that id: its number
  -- is a `u32` and wraps.
  pub record StampedRow (ts : List (Todo V F)) (todo : Todo V F) (now : String) (r : Todo V F)
      : Type 0 where
    pub highest : ℕ
    pub is_highest : IsHighest ts highest
    pub number : r.number ≡ (if eqb todo.number 0 then (highest + 1) % 2 ^ 32 else todo.number)
    pub created_at : r.created_at ≡ text_kept todo.created_at now
    pub updated_at : r.updated_at ≡ now
    pub handoff_at :
        r.handoff_at
        ≡ option_kept todo.handoff_at (if is_blank todo.handoff then none else some now)
    -- Every other field is as it came in.
    pub given : r ≡ record todo {
      number = r.number;
      created_at = r.created_at;
      updated_at = r.updated_at;
      handoff_at = r.handoff_at;
    }

  -- The row that an upsert leaves, by what a lookup found before it.
  abbrev pub WrittenRow :
      Option (Todo V F) → List (Todo V F) → Todo V F → String → Todo V F → Type 0
  WrittenRow none ts todo now r = StampedRow ts todo now r
  WrittenRow (some old) ts todo now r = MergedRow old todo now r

  max_of-bound :
      (ts : List (Todo V F)) (i : ℕ) (t : Todo V F) → get_elem? ts i ≡ some t → t.number ≤ max_of ts
  unfolding max_of
  max_of-bound [] i t h = cc
  max_of-bound (u ∷ ts) zero t h = ground arith
  max_of-bound (u ∷ ts) (suc i) t h = ground (arith, max_of-bound ts i t h)

  max_of-reached :
      (ts : List (Todo V F))
      → (max_of ts ≡ 0)
        ⊎ ((i : ℕ) × (t : Todo V F) × (get_elem? ts i ≡ some t) × (t.number ≡ max_of ts))
  unfolding max_of
  max_of-reached [] = inl refl
  max_of-reached (u ∷ ts) = elim (Bool-cases (leb u.number (max_of ts))) [
    | inl low ↦ elim (max_of-reached ts) [
      | inl e ↦ inl (ground arith)
      | inr (i, t, at, e) ↦ inr (suc i, t, at, ground arith)
    ]
    | inr high ↦ inr (zero, u, refl, ground arith)
  ]

  merge_row-MergedRow :
      (j : Json V) (old todo : Todo V F) (now : String)
      → MergedRow old todo now (merge_row j old todo now)
  unfolding merge_row
  merge_row-MergedRow j old todo now = record {
    number = refl;
    created_at = ground arith;
    updated_at = refl;
    comments = refl;
    from = ground arith;
    produces = ground arith;
    verify = ground arith;
    retry_limit = ground arith;
    on_issue = ground arith;
    budget_usd = ground arith;
    parallel_limit = ground arith;
    spec = ground arith;
    spec_answers = ground arith;
    spec_seen = ground arith;
    outcome = ground arith;
    handoff_at = refl;
    handout_at = ground arith;
    status_history = ground arith;
    unknown = refl;
    given = refl;
  }

  new_row-StampedRow :
      (file : TodoFile V F) (todo : Todo V F) (now : String)
      → StampedRow file.todos todo now (new_row file todo now)
  unfolding new_row max_number
  new_row-StampedRow file todo now = record {
    highest = max_of file.todos;
    is_highest = record { bound = max_of-bound file.todos; reached = max_of-reached file.todos };
    number = refl;
    created_at = ground arith;
    updated_at = refl;
    handoff_at = ground arith;
    given = refl;
  }

  -- After `upsert` a lookup of the given row's id finds a row. Where there was one, the stored
  -- number is kept for a given 0, the time of creation and the comments are kept, the fields that
  -- other writers own are kept where they came in empty, the log of statuses, the outcome and the
  -- time of the handoff note follow their rules, and all else but `ext` is as given. Where there
  -- was none, a row without a number gets the one after the highest as a `u32`, missing times are
  -- stamped, and all else is as given. A lookup of any other id finds what it found.
  pub upsert-WrittenRow :
      (j : Json V) (file : TodoFile V F) (todo : Todo V F) (now : String)
      → (r : Todo V F) × WrittenRow (find_todo file todo.id) file.todos todo now r
        × ((id : String)
            → find_todo (upsert j file todo now) id
              ≡ (if id == todo.id then some r else find_todo file id))
  upsert-WrittenRow j file todo now = elim (Option-cases (find_todo file todo.id)) [
    | inl gone ↦ (
      new_row file todo now,
      rw gone (new_row-StampedRow file todo now),
      λ id. rw (find_todo-upsert j file todo now id, gone) refl,
    )
    | inr (old, found) ↦ (
      merge_row j old todo now,
      rw found (merge_row-MergedRow j old todo now),
      λ id. rw (find_todo-upsert j file todo now id, found) refl,
    )
  ]

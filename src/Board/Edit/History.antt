-- ===== src/Board/Edit/History.antt =====
-- What `upsert` and `set_status` of src-tauri/src/board/todos.rs keep of a row: its log of statuses,
-- its comments, its provenance, and what other writers put there.
pub mod Ext
use claude_usage_tracker_win.Prelude.{
  ℕ, suc, ◌+◌, String, ◌≡◌, ◌≢◌, refl, ◌⊎◌, inl, inr, Bool, true, false, not, ◌||◌, ◌&&◌, Option,
  some, none, List, [], ◌∷◌, ◌++◌, ◌==◌, eq_iff, eq_refl, eqb, if◌then◌else◌, retain, any, length,
  length-append, is_blank, arith, Bool-cases,
}
use claude_usage_tracker_win.Board.Todo.{Todo, TodoFile, Comment, StatusChange}
use claude_usage_tracker_win.Board.Edit.{
  Json, merge_row, new_row, with_status, with_comment, without_comment, log_status,
}

-- The last entry of the log, if there is one, is the status.
abbrev pub LastIs : List StatusChange → String → Type 0
LastIs [] s = Unit
LastIs (c ∷ []) s = c.status ≡ s
LastIs (c ∷ d ∷ cs) s = LastIs (d ∷ cs) s

LastIs-concat : (cs : List StatusChange) (c : StatusChange) → LastIs (cs ++ c ∷ []) c.status
LastIs-concat [] c = refl
LastIs-concat (b ∷ []) c = refl
LastIs-concat (b ∷ d ∷ cs) c = LastIs-concat (d ∷ cs) c

retain-concat :
    (cs : List Comment) (c : Comment)
    → any (λ (d : Comment). d.id == c.id) cs ≡ false
    → retain (λ (d : Comment). not (d.id == c.id)) (cs ++ c ∷ []) ≡ cs
retain-concat [] c h = ground (arith, eq_refl c.id)
retain-concat (d ∷ cs) c h = ground (arith, retain-concat cs c)

module _ {V F : Type 0} where
  -- The log agrees with the status column.
  abbrev pub LogAgrees : Todo V F → Type 0
  LogAgrees t = LastIs t.status_history t.status

  log_status-LastIs :
      (old : Todo V F) (s now : String)
      → LogAgrees old
      → LastIs (log_status old s now old.status_history) s
  log_status-LastIs old s now agrees = elim (Bool-cases (s == old.status)) [
    | inl same ↦ rw (same, (eq_iff s old.status).0 same) agrees
    | inr moved ↦ rw moved (LastIs-concat old.status_history (record { status = s; at = now }))
  ]

  -- A log that agrees with the status before a status change agrees with it after, and the change
  -- adds one entry, or none where the row had that status already.
  pub with_status-LogAgrees :
      (t : Todo V F) (s now : String)
      → LogAgrees t
      → LogAgrees (with_status s now t)
        × (length (with_status s now t).status_history
            ≡ length t.status_history + (if s == t.status then 0 else 1))
  unfolding with_status
  with_status-LogAgrees t s now agrees = (
    log_status-LastIs t s now agrees,
    ground (arith, length-append t.status_history (record { status = s; at = now } ∷ [])),
  )

  -- A log that agrees with the status agrees with it after an edit from the window too, which sends
  -- rows without a log.
  pub merge_row-LogAgrees :
      (j : Json V) (old todo : Todo V F) (now : String)
      → todo.status_history ≡ []
      → LogAgrees old
      → LogAgrees (merge_row j old todo now)
  unfolding merge_row
  merge_row-LogAgrees j old todo now bare agrees =
      rw bare (log_status-LastIs old todo.status now agrees)

  -- The stamp of a handoff note moves only with its text: blank text has no stamp, text that the
  -- edit leaves as it is keeps its stamp, other text is stamped now.
  pub merge_row-handoff :
      (j : Json V) (old todo : Todo V F) (now : String)
      → (is_blank todo.handoff ≡ true → (merge_row j old todo now).handoff_at ≡ none)
        × ((is_blank todo.handoff ≡ false
              → todo.handoff ≡ old.handoff
              → (merge_row j old todo now).handoff_at ≡ old.handoff_at)
            × (is_blank todo.handoff ≡ false
                → todo.handoff ≢ old.handoff
                → (merge_row j old todo now).handoff_at ≡ some now))
  unfolding merge_row
  merge_row-handoff j old todo now = (
    ground arith,
    (
      ground (arith, eq_iff todo.handoff old.handoff),
      ground (arith, eq_iff todo.handoff old.handoff),
    ),
  )

  -- The verdict of a check travels whole: after an edit the outcome, its reason and its time are all
  -- the given row's or all the stored row's, the stored row's where the given row has no outcome.
  pub merge_row-outcome :
      (j : Json V) (old todo : Todo V F) (now : String)
      → let r = merge_row j old todo now in
        ((todo.outcome ≢ "")
          × (r.outcome ≡ todo.outcome)
          × (r.outcome_reason ≡ todo.outcome_reason)
          × (r.outcome_at ≡ todo.outcome_at))
        ⊎ ((todo.outcome ≡ "")
            × (r.outcome ≡ old.outcome)
            × (r.outcome_reason ≡ old.outcome_reason)
            × (r.outcome_at ≡ old.outcome_at))
  unfolding merge_row
  merge_row-outcome j old todo now = elim (Bool-cases (todo.outcome == "")) [
    | inl e ↦ rw e (inr ((eq_iff todo.outcome "").0 e, refl, refl, refl))
    | inr e ↦ rw e (inl (ground (arith, eq_iff todo.outcome ""), refl, refl, refl))
  ]

  -- The comments of a row that has none with the new comment's id are back after that comment is
  -- added and removed again.
  pub without_comment-with_comment :
      (t : Todo V F) (c : Comment) (now later : String)
      → any (λ d. d.id == c.id) t.comments ≡ false
      → (without_comment c.id later (with_comment c now t)).comments ≡ t.comments
  unfolding without_comment with_comment
  without_comment-with_comment t c now later fresh = retain-concat t.comments c fresh

-- ===== src/Sessions/Laws.antt =====
-- What the blocks of src-tauri/src/board/task_sessions.rs are: one for each start, and within a
-- session one after the other.
use claude_usage_tracker_win.Prelude.{
  ℕ, suc, ◌+◌, String, ◌≡◌, refl, Bool, false, inl, inr, Option, none, some, List, [], ◌∷◌, ◌++◌,
  ◌==◌, length, length-append, str_lt, if◌then◌else◌, Dict, get, insert, Bool-cases, arith,
}
use claude_usage_tracker_win.Sessions.{
  TaskSessionEvent, TaskBlock, is_start, insert_by, sort_by, earlier, group, events_for, last_block,
  fold_session, end_of, session_blocks, all_blocks, block_before, blocks, open_block,
}
use claude_usage_tracker_win.Sessions.Order.{
  str_lt_empty, str_lt_asym, str_le_refl, str_le_trans, Ascending,
}

length-insert_by {ℓ} :
    {A : Type ℓ} (less : A → A → Bool) (x : A) (ys : List A)
    → length (insert_by less x ys) ≡ suc (length ys)
unfolding insert_by
length-insert_by less x [] = refl
length-insert_by less x (y ∷ ys) = ground (arith, length-insert_by less x ys)

length-sort_by {ℓ} :
    {A : Type ℓ} (less : A → A → Bool) (xs : List A) → length (sort_by less xs) ≡ length xs
unfolding sort_by
length-sort_by less [] = refl
length-sort_by less (x ∷ xs) =
    ground (arith, length-insert_by less x (sort_by less xs), length-sort_by less xs)

-- How many of the records are starts.
abbrev pub starts : List TaskSessionEvent → ℕ
starts [] = 0
starts (e ∷ es) = (if is_start e then 1 else 0) + starts es

starts-append : (es fs : List TaskSessionEvent) → starts (es ++ fs) ≡ starts es + starts fs
starts-append [] fs = ground arith
starts-append (e ∷ es) fs = ground (arith, starts-append es fs)

starts-insert_by :
    (less : TaskSessionEvent → TaskSessionEvent → Bool) (e : TaskSessionEvent)
    (es : List TaskSessionEvent)
    → starts (insert_by less e es) ≡ (if is_start e then 1 else 0) + starts es
unfolding insert_by
starts-insert_by less e [] = refl
starts-insert_by less e (f ∷ es) = ground (arith, starts-insert_by less e es)

starts-sort_by :
    (less : TaskSessionEvent → TaskSessionEvent → Bool) (es : List TaskSessionEvent)
    → starts (sort_by less es) ≡ starts es
unfolding sort_by
starts-sort_by less [] = refl
starts-sort_by less (e ∷ es) =
    ground (arith, starts-insert_by less e (sort_by less es), starts-sort_by less es)

abbrev opened : Option TaskBlock → ℕ
opened none = 0
opened (some b) = 1

length-fold_session :
    (session end : String) (now : Option TaskBlock) (es : List TaskSessionEvent)
    → length (fold_session session end now es) ≡ opened now + starts es
unfolding fold_session
length-fold_session session end none [] = ground arith
length-fold_session session end (some b) [] = ground arith
length-fold_session session end none (e ∷ es) = ground (
  arith,
  length-fold_session session end none es,
  length-fold_session session end (some (open_block session e)) es,
)
length-fold_session session end (some b) (e ∷ es) = ground (
  arith,
  length-fold_session session end none es,
  length-fold_session session end (some b) es,
  length-fold_session session end (some (open_block session e)) es,
)

total : Dict (List TaskSessionEvent) → ℕ
total [] = 0
total ((session, es) ∷ m) = starts es + total m

total-insert :
    (m : Dict (List TaskSessionEvent)) (session : String) (e : TaskSessionEvent)
    → total (insert m session (events_for m session ++ e ∷ [])) ≡ total m + starts (e ∷ [])
unfolding total insert get
total-insert [] session e = ground arith
total-insert ((s, es) ∷ m) session e =
    ground (arith, total-insert m session e, starts-append es (e ∷ []))

total-group :
    (m : Dict (List TaskSessionEvent)) (es : List TaskSessionEvent)
    → total (group m es) ≡ total m + starts es
unfolding group
total-group m [] = ground arith
total-group m (e ∷ es) = ground (
  arith,
  total-group (insert m e.session (events_for m e.session ++ e ∷ [])) es,
  total-insert m e.session e,
)

length-all_blocks :
    (ends : Dict String) (m : Dict (List TaskSessionEvent)) → length (all_blocks ends m) ≡ total m
unfolding all_blocks session_blocks total
length-all_blocks ends [] = refl
length-all_blocks ends ((session, es) ∷ m) = ground (
  arith,
  length-append (session_blocks ends session es) (all_blocks ends m),
  length-fold_session session (end_of ends session) none (sort_by earlier es),
  starts-sort_by earlier es,
  length-all_blocks ends m,
)

-- Every start of the journal gives exactly one block, whatever the order of the records and whether
-- or not its end was written.
pub length-blocks :
    (events : List TaskSessionEvent) (session_end : Dict String)
    → length (blocks events session_end) ≡ starts events
unfolding blocks total
length-blocks events session_end = ground (
  arith,
  length-sort_by block_before (all_blocks session_end (group [] events)),
  length-all_blocks session_end (group [] events),
  total-group [] events,
)

insert_by-Ascending :
    (low : String) (e : TaskSessionEvent) (es : List TaskSessionEvent)
    → str_lt e.ts low ≡ false
    → Ascending (λ (f : TaskSessionEvent). f.ts) low es
    → Ascending (λ (f : TaskSessionEvent). f.ts) low (insert_by earlier e es)
unfolding insert_by
insert_by-Ascending low e [] h up = (h, tt)
insert_by-Ascending low e (f ∷ es) h up = elim (Bool-cases (str_lt f.ts e.ts)) [
  | inl before ↦ rw before (up.0, insert_by-Ascending f.ts e es (str_lt_asym f.ts e.ts before) up.1)
  | inr after ↦ rw after (h, (after, up.1))
]

sort_by-Ascending :
    (es : List TaskSessionEvent)
    → Ascending (λ (f : TaskSessionEvent). f.ts) "" (sort_by earlier es)
unfolding sort_by
sort_by-Ascending [] = tt
sort_by-Ascending (e ∷ es) =
    insert_by-Ascending "" e (sort_by earlier es) (str_lt_empty e.ts) (sort_by-Ascending es)

-- Each block ends no earlier than it starts, and starts no earlier than the one before it ends; the
-- first starts no earlier than `low`.
abbrev pub InOrder : String → List TaskBlock → Type 0
InOrder low [] = Unit
InOrder low (b ∷ bs) = (str_lt b.from low ≡ false) × (str_lt b.to b.from ≡ false) × InOrder b.to bs

-- The open block started between `low` and `t`.
abbrev Opened : String → String → Option TaskBlock → Type 0
Opened low t none = str_lt t low ≡ false
Opened low t (some b) = (str_lt b.from low ≡ false) × (str_lt t b.from ≡ false)

last_block-InOrder :
    (low t end : String) (now : Option TaskBlock)
    → Opened low t now
    → InOrder low (last_block end now)
last_block-InOrder low t end none h = tt
last_block-InOrder low t end (some b) h = elim (Bool-cases (str_lt b.from end)) [
  | inl later ↦ rw later (h.0, str_lt_asym b.from end later, tt)
  | inr past ↦ rw past (h.0, str_le_refl b.from, tt)
]

fold_session-InOrder :
    (session end low t : String) (now : Option TaskBlock) (es : List TaskSessionEvent)
    → Opened low t now
    → Ascending (λ (f : TaskSessionEvent). f.ts) t es
    → InOrder low (fold_session session end now es)
unfolding fold_session
fold_session-InOrder session end low t now [] h up = last_block-InOrder low t end now h
fold_session-InOrder session end low t none (e ∷ es) h up = elim (Bool-cases (is_start e)) [
  | inl start ↦ rw start (
      fold_session-InOrder session end low e.ts (some (open_block session e)) es
        (str_le_trans low t e.ts h up.0, str_le_refl e.ts) up.1)
  | inr other ↦
      rw other
        (fold_session-InOrder session end low e.ts none es (str_le_trans low t e.ts h up.0) up.1)
]
fold_session-InOrder session end low t (some b) (e ∷ es) h up =
    let since = str_le_trans b.from t e.ts h.1 up.0 in
    elim (Bool-cases (is_start e)) [
      | inl start ↦ rw start (
        h.0,
        since,
        fold_session-InOrder session end e.ts e.ts (some (open_block session e)) es
            (str_le_refl e.ts, str_le_refl e.ts) up.1,
      )
      | inr other ↦ elim (Bool-cases (e.task == b.task)) [
        | inl mine ↦
            rw (other, mine)
              (
                h.0,
                since,
                fold_session-InOrder session end e.ts e.ts none es (str_le_refl e.ts) up.1,
              )
        | inr another ↦
            rw (other, another)
              (fold_session-InOrder session end low e.ts (some b) es (h.0, since) up.1)
      ]
    ]

-- The blocks of one session do not overlap and none ends before it starts, whatever the order in
-- which its records were written.
pub session_blocks-InOrder :
    (session_end : Dict String) (session : String) (events : List TaskSessionEvent)
    → InOrder "" (session_blocks session_end session events)
unfolding session_blocks
session_blocks-InOrder session_end session events =
    fold_session-InOrder session (end_of session_end session) "" "" none (sort_by earlier events)
      (str_le_refl "") (sort_by-Ascending events)

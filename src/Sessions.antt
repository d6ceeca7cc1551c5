-- ===== src/Sessions.antt =====
-- src-tauri/src/board/task_sessions.rs: the journal of which session worked on which task, and the
-- blocks of time that are read off it. The records are those that `parse` lets through.
pub mod Order
pub mod Laws
pub mod Compose
mod Tests
use claude_usage_tracker_win.Prelude.{
  ℕ, ◌+◌, String, Bool, true, false, ◌&&◌, ◌||◌, not, Option, none, some, List, [], ◌∷◌, ◌++◌, ◌==◌,
  if◌then◌else◌, contains, str_lt, find, any, map, update_first, Dict, get, insert,
}

pub record TaskSessionEvent : Type 0 where
  pub ts : String
  pub session : String
  pub task : String
  pub event : String
  pub source : String
  pub project : Option String

pub record TaskBlock : Type 0 where
  pub task : String
  pub session : String
  pub from : String
  pub to : String
  pub explicit : Bool
  pub source : String
  pub project : Option String

-- `TaskSessionEvent::is_explicit`
abbrev pub is_explicit : TaskSessionEvent → Bool
is_explicit e = contains e.source ("take" ∷ "set-status" ∷ "run-step" ∷ "force" ∷ [])

-- What `parse` keeps of the records that it can read.
abbrev pub is_usable : TaskSessionEvent → Bool
is_usable e =
    not (e.ts == "")
    && not (e.session == "")
    && not (e.task == "")
    && (e.event == "start" || e.event == "end")

abbrev pub is_start : TaskSessionEvent → Bool
is_start e = e.event == "start"

-- `sort_by`, which is stable: an element goes before the first one that is not less.
module _ {ℓ} {A : Type ℓ} (less : A → A → Bool) where
  unfoldable pub insert_by : A → List A → List A
  insert_by x [] = x ∷ []
  insert_by x (y ∷ ys) = let rest = insert_by x ys in if less y x then y ∷ rest else x ∷ y ∷ ys

  unfoldable pub sort_by : List A → List A
  sort_by [] = []
  sort_by (x ∷ xs) = insert_by x (sort_by xs)

abbrev pub earlier : TaskSessionEvent → TaskSessionEvent → Bool
earlier a b = str_lt a.ts b.ts

abbrev pub block_before : TaskBlock → TaskBlock → Bool
block_before a b = str_lt a.from b.from || (a.from == b.from && str_lt a.session b.session)

-- `by_session.entry(session).or_default().push(e)`
abbrev pub events_for : Dict (List TaskSessionEvent) → String → List TaskSessionEvent
events_for m session = elim (get m session) [ none ↦ [] | some es ↦ es ]

unfoldable pub group :
    Dict (List TaskSessionEvent) → List TaskSessionEvent → Dict (List TaskSessionEvent)
group m [] = m
group m (e ∷ es) = group (insert m e.session (events_for m e.session ++ e ∷ [])) es

abbrev pub open_block : String → TaskSessionEvent → TaskBlock
open_block session e = record {
  task = e.task;
  session = session;
  from = e.ts;
  to = "";
  explicit = is_explicit e;
  source = e.source;
  project = e.project;
}

-- The record ends the open block: any start, or the end of its task.
abbrev pub closes : TaskSessionEvent → TaskBlock → Bool
closes e b = is_start e || e.task == b.task

-- What closing gives, and what is open after the record.
abbrev pub closed : TaskSessionEvent → Option TaskBlock → List TaskBlock
closed e none = []
closed e (some b) = if closes e b then record b { to = e.ts } ∷ [] else []

abbrev pub left_open : TaskSessionEvent → Option TaskBlock → Option TaskBlock
left_open e none = none
left_open e (some b) = if closes e b then none else some b

abbrev pub next_open : String → TaskSessionEvent → Option TaskBlock → Option TaskBlock
next_open session e open_now =
    if is_start e then some (open_block session e) else left_open e open_now

-- The last block ends with its session, or is empty if the session has no later end.
abbrev pub last_block : String → Option TaskBlock → List TaskBlock
last_block end none = []
last_block end (some b) = record b { to = if str_lt b.from end then end else b.from } ∷ []

unfoldable pub fold_session :
    String → String → Option TaskBlock → List TaskSessionEvent → List TaskBlock
fold_session session end open_now [] = last_block end open_now
fold_session session end open_now (e ∷ es) =
    closed e open_now ++ fold_session session end (next_open session e open_now) es

-- `session_end.get(session).cloned().unwrap_or_default()`
abbrev pub end_of : Dict String → String → String
end_of ends session = elim (get ends session) [ none ↦ "" | some end ↦ end ]

unfoldable pub session_blocks : Dict String → String → List TaskSessionEvent → List TaskBlock
session_blocks ends session es =
    fold_session session (end_of ends session) none (sort_by earlier es)

unfoldable pub all_blocks : Dict String → Dict (List TaskSessionEvent) → List TaskBlock
all_blocks ends [] = []
all_blocks ends ((session, es) ∷ m) = session_blocks ends session es ++ all_blocks ends m

unfoldable pub blocks : List TaskSessionEvent → Dict String → List TaskBlock
blocks events session_end = sort_by block_before (all_blocks session_end (group [] events))

-- The tasks of one session, each once, with whether some block of it is explicit.
abbrev pub bound_to : Dict (Dict Bool) → String → Dict Bool
bound_to m session = elim (get m session) [ none ↦ [] | some tasks ↦ tasks ]

unfoldable pub add_task : TaskBlock → Dict Bool → Dict Bool
add_task b tasks =
    if any (λ (hit : String × Bool). hit.0 == b.task) tasks
    then update_first (λ (hit : String × Bool). hit.0 == b.task)
        (λ hit. (hit.0, hit.1 || b.explicit)) tasks
    else tasks ++ (b.task, b.explicit) ∷ []

unfoldable pub bind_tasks : Dict (Dict Bool) → List TaskBlock → Dict (Dict Bool)
bind_tasks m [] = m
bind_tasks m (b ∷ bs) = bind_tasks (insert m b.session (add_task b (bound_to m b.session))) bs

unfoldable pub tasks_by_session : List TaskBlock → Dict (Dict Bool)
tasks_by_session bs = bind_tasks [] bs

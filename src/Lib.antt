-- ===== src/Lib.antt =====
-- Claude Usage Tracker for Windows: a model of the program's logic and the proofs about it.
--
-- The program is a Tauri tray application (src-tauri/) that polls the usage limits of an account and
-- alerts about them, keeps a board of tasks in a JSON file that command-line tools write too, and
-- receives task events from a small HTTP service (resolver/).
--
-- Parts and files:
-- - Alerts (src-tauri/src/analytics/alerts): Alerts/Config.antt has the settings (config.rs) and the
--   readings (usage.rs), Alerts/Lenient.antt how the settings are read from JSON, Alerts/Levels.antt
--   the colour levels and the quiet hours (util.rs), Alerts/Engine.antt the events, the state and the
--   rules of one tier, Alerts/Evaluate.antt a whole pass (engine.rs). Pending, Tiers, First, Budget and
--   Settings hold the proofs; Alerts/Tests.antt applies the theorems to concrete readings.
-- - Board (src-tauri/src/board/todos.rs): Board/Todo.antt has the rows, Board/Edit.antt the edits of
--   one row (upsert, delete, set_status, add_comment, remove_comment) and the derived status of a
--   change, Board/Deps.antt the dependency edges with their cycle check, Board/Numbers.antt the task
--   numbers, Board/Refs.antt the references in prose (rewrite_inline_refs, remap_inline_refs,
--   migrate_refs), Board/Import.antt the import (merge_import), Board/Wire.antt the form of the file
--   (detect_issue, v3_wire_value), Board/Wire/Hydrate.antt hydrate_v3_process_fields (Hydrated.antt: the rows after it),
--   Board/Roles.antt the migration of plans (migrate_plan_roles), Board/Transact.antt the write path
--   (transact), Board/Graph.antt which tasks a change is drawn with (subtree of graph.rs). Their
--   folders hold the proofs and, as Board/Tests.antt, their application to concrete rows
--   (Board/Samples.antt); Board/Import/Resolve.antt is the first pass of the import.
-- - Lock (src-tauri/src/kernel/board_lock.rs): Lock.antt has the lock file and the loop that acquires
--   it, Lock/Loop.antt what is proved of the loop, Lock/World.antt the steps of all threads and
--   processes, its folder what is proved of them; Lock/Samples.antt, Lock/Tests.antt and
--   Lock/World/Tests.antt have concrete runs.
-- - Awake (src-tauri/src/kernel/keep_awake.rs): Awake.antt has the decision and the loop, Awake/Calls.antt
--   what is proved of it.
-- - Sessions (src-tauri/src/board/task_sessions.rs): Sessions.antt has the journal and the fold into
--   blocks, Sessions/Compose.antt their join with the board and the sums (compose), Sessions/Laws.antt
--   what is proved of blocks, Sessions/Tests.antt concrete journals.
-- - Resolver (resolver/src): Resolver/Model.antt and Auth.antt have the data and the two credentials
--   (model.rs, auth.rs), Resolver/Store.antt the mailbox and the pairing codes (store.rs),
--   Resolver/Config.antt the token variable (config.rs), Resolver/Routes.antt the endpoints
--   (routes.rs). Delivery, Enrollment, Binding and WellFormed hold what is proved of the store, the
--   folder Routes what is proved of the endpoints. Resolver/Tests.antt applies the theorems to concrete stores.
--
-- How the code is read: a method that mutates its receiver returns the new record; `Result` and
-- `Option` are data types; a `HashMap` is an association list; a `u32` counter wraps (`% 2 ^ 32`), as
-- in a release build. `str` is compared by code points, which is the order of its UTF-8 bytes.
-- `f64` is a type parameter with what the code asks of it (`Float`); so is `serde_json::Value` where
-- it is only copied, while the settings and the form of the board file are read from a data type
-- with its constructors (Prelude/Json.antt).
-- The search behind `dep_reaches` runs on fuel, one round more than the edges it can ever push; the
-- theorem about it shows that this is enough; so does the walk of `subtree`. Stable sorts are
-- insertion sorts. The ids that an import draws (`new_id`) are a parameter, and so are the tables of
-- Unicode.
--
-- The loop of the lock runs on as many rounds as are given; its theorem gives the rounds until the
-- clock passes the deadline. The threads of several processes are a step relation: a step is what
-- runs under the registry's mutex or one file operation, but for `release_file`, which is one step.
-- Files are told from their names, so a file that `remove_stale` renames can have a writer. The
-- relation has every order of these steps, also one in which `remove_stale` moves the file of a living
-- process, after which two processes can have the lock (Lock/World/Tests.antt has such a run); the
-- theorems are about the runs that they name. Process numbers are not used again.
--
-- An endpoint takes the store, the request, the current time and the outcome of its save, and gives
-- the store in memory and the answer; requests are served one at a time, as under the mutex of the
-- code. Base64, SHA-256 and Ed25519 (`Crypto`) and the timestamps of chrono (`Chrono`) are parameters.
--
-- Not modelled: the labels and sums of the drawn graph, reading and writing files, the HTTP and Tauri
-- plumbing, and the parts of src-tauri/ that are not named above.
pub mod Alerts
pub mod Awake
pub mod Board
pub mod Lock
pub mod Prelude
pub mod Resolver
pub mod Sessions

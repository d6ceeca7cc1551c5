-- ===== src/Board/Transact.antt =====
-- The write path of src-tauri/src/board/todos.rs: `file_or_refusal`, `load_for_write_versioned`,
-- `transact_if`, `transact` and `replace_locked`. What the lock, the load and the save do is given
-- (`Disk`); a run gives its answer and the file that it handed to the save, if it did.
pub mod Refusal
mod Tests
use claude_usage_tracker_win.Prelude.{
  ℕ, String, Bool, true, false, ◌||◌, Option, none, some, List, [], ltb, if◌then◌else◌, Result, ok,
  err, u32_to_string,
}
use claude_usage_tracker_win.Board.Todo.{TodoFile}
use claude_usage_tracker_win.Board.Numbers.{ensure_numbers}
use claude_usage_tracker_win.Board.Refs.{join}
use claude_usage_tracker_win.Board.Wire.{current_version}

pub data LoadOutcome (V F : Type 0) : Type 0 where
  loaded : TodoFile V F → LoadOutcome V F
  missing : LoadOutcome V F
  unreadable : (reason : String) (backup : Option String) → LoadOutcome V F
  future_version : String → LoadOutcome V F  -- the version, printed

-- What `acquire`, `load_checked_with_timeout_versioned` and `save_locked` do.
pub record Disk (V F : Type 0) : Type 0 where
  pub acquire : Result String (Unit {0})
  pub load : LoadOutcome V F × Option ℕ
  pub save : TodoFile V F → Result String (Unit {0})

pub data TransactError : Type 0 where
  lock_failed : String → TransactError
  unwritable : String → TransactError
  failed : String → TransactError

abbrev pub backup_or_none : Option String → String
backup_or_none none = "none"
backup_or_none (some path) = path

-- `on_disk_version.is_some_and(|v| v < CURRENT_VERSION)`
abbrev pub is_stale_version : Option ℕ → Bool
is_stale_version none = false
is_stale_version (some v) = ltb v current_version

module _ {V F : Type 0} where
  -- `TodoFile::default()`
  abbrev pub default_file : TodoFile V F
  default_file = record { version = 1; todos = []; changes = [] }

  unfoldable pub file_or_refusal : String → LoadOutcome V F → Result String (TodoFile V F)
  file_or_refusal path (loaded file) = ok file
  file_or_refusal path missing = ok default_file
  file_or_refusal path (unreadable reason backup) = err (
      join "board unreadable ("
        (join reason (join "): " (join path (join " — backup: " (backup_or_none backup))))))
  file_or_refusal path (future_version version) =
      err (
        join "board version " (join version (join " is newer than this writer (CURRENT 3): " path)))

  unfoldable pub load_for_write_versioned :
      String → LoadOutcome V F × Option ℕ → Result String (TodoFile V F × Bool)
  load_for_write_versioned path (outcome, version) = elim (file_or_refusal path outcome) [
    | err e ↦ err e
    | ok file ↦ ok (file, is_stale_version version)
  ]

  -- `save_locked`, with the file that it was handed.
  unfoldable pub save_and_answer :
      {T : Type 0}
      → Disk V F
      → TodoFile V F
      → T
      → Result TransactError (TodoFile V F × T) × Option (TodoFile V F)
  save_and_answer disk file out = elim (disk.save file) [
    | err e ↦ (err (TransactError.failed e), some file)
    | ok done ↦ (ok (file, out), some file)
  ]

  -- `transact_if` from the loaded file on.
  unfoldable pub mutate_and_save :
      {T : Type 0}
      → Disk V F
      → (TodoFile V F → Result String (TodoFile V F × Bool × T))
      → TodoFile V F
      → Bool
      → Result TransactError (TodoFile V F × T) × Option (TodoFile V F)
  mutate_and_save disk mutate file stale = elim (mutate file) [
    | err e ↦ (err (TransactError.failed e), none)
    | ok (file', changed, out) ↦
        let saved = save_and_answer disk file' out in
        if changed || stale then saved else (ok (file', out), none)
  ]

  unfoldable pub transact_if :
      {T : Type 0}
      → String
      → Disk V F
      → (TodoFile V F → Result String (TodoFile V F × Bool × T))
      → Result TransactError (TodoFile V F × T) × Option (TodoFile V F)
  transact_if path disk mutate = elim disk.acquire [
    | err e ↦ (err (TransactError.lock_failed e), none)
    | ok held ↦ elim (load_for_write_versioned path disk.load) [
      | err e ↦ (err (TransactError.unwritable e), none)
      | ok (file, stale) ↦ mutate_and_save disk mutate file stale
    ]
  ]

  -- The mutation of `transact` always counts as a change.
  abbrev pub always_changed :
      {T : Type 0} → Result String (TodoFile V F × T) → Result String (TodoFile V F × Bool × T)
  always_changed (err e) = err e
  always_changed (ok (file, out)) = ok (file, true, out)

  unfoldable pub transact :
      {T : Type 0}
      → String
      → Disk V F
      → (TodoFile V F → Result String (TodoFile V F × T))
      → Result TransactError (TodoFile V F × T) × Option (TodoFile V F)
  transact path disk mutate = transact_if path disk (λ file. always_changed (mutate file))

  unfoldable pub replace_locked :
      Disk V F → TodoFile V F → Result String (TodoFile V F) × Option (TodoFile V F)
  replace_locked disk file = elim disk.acquire [
    | err e ↦ (err e, none)
    | ok held ↦
        let numbered = (ensure_numbers file).0 in
        elim (disk.save numbered) [
          | err e ↦ (err e, some numbered)
          | ok done ↦ (ok numbered, some numbered)
        ]
  ]

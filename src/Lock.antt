-- ===== src/Lock.antt =====
-- The lock of the board file, src-tauri/src/kernel/board_lock.rs: the content of the lock file, one
-- round of the loop in `acquire_impl` and the loop, `reaffirm_at` and the release. `serde_json` and
-- the numbers of type `f64` are parameters (`Json`). A registry (`HashMap<String, (ThreadId,
-- usize)>`) is seen at the key of one board, as an entry that may be missing.
pub mod Loop
pub mod World
mod Tests
pub mod Samples
use claude_usage_tracker_win.Prelude.{
  u64, ℕ, zero, suc, ◌+◌, ◌-◌, ◌*◌, ◌^◌, ℤ, pos, negsuc, String, Bool, true, false, not, ◌&&◌, ◌||◌,
  Option, none, some, eqb, ltb, leb, if◌then◌else◌, Result, ok, err, ◌==◌,
}

-- What the code asks of `serde_json::Value` and of an `f64` in it.
pub record Json (J F : Type 0) : Type 0 where
  pub from_str : String → Option J
  pub get : J → String → Option J
  pub as_str : J → Option String
  pub as_i64 : J → Option ℤ
  pub as_f64 : J → Option F
  pub is_positive : F → Bool  -- `f > 0.0`
  pub is_whole : F → Bool  -- `f.fract() == 0.0`
  pub fits_u32 : F → Bool  -- `f <= u32::MAX as f64`
  pub to_u32 : F → ℕ  -- `f as u32`
  pub lock_content : ℕ → String → String → String  -- the object of `pid`, `writer` and `at`, printed

pub record LockHolder : Type 0 where
  pub pid : ℕ  -- u32
  pub writer : String
  pub at : String

pub data LockError (E : Type 0) : Type 0 where
  busy : (pid : ℕ) (writer at path : String) → LockError E
  unreadable : (path : String) → LockError E
  io : E → LockError E

pub data ReadOutcome : Type 0 where
  missing : ReadOutcome
  unreadable_file : ReadOutcome
  content : String → ReadOutcome

-- `read_lock`, of a file that is not there or can be read as text.
abbrev pub read_lock : Option String → ReadOutcome
read_lock none = missing
read_lock (some text) = content text

-- Thirty seconds, in nanoseconds.
abbrev pub stale_mtime_age : ℕ
stale_mtime_age = 30 * 10 ^ 9

module _ {J F : Type 0} (j : Json J F) where
  unfoldable pub pid_of_i64 : ℤ → Option ℕ
  pid_of_i64 (pos n) = if ltb 0 n && leb n (2 ^ 32 - 1) then some n else none
  pid_of_i64 (negsuc n) = none

  unfoldable pub pid_of_f64 : Option F → Option ℕ
  pid_of_f64 none = none
  pid_of_f64 (some f) =
      if j.is_positive f && j.is_whole f && j.fits_u32 f then some (j.to_u32 f) else none

  unfoldable pub valid_pid : J → Option ℕ
  valid_pid value = elim (j.as_i64 value) [
    | some n ↦ pid_of_i64 n
    | none ↦ pid_of_f64 (j.as_f64 value)
  ]

  -- `and_then(as_str).unwrap_or_default()`
  unfoldable pub text_or_empty : Option J → String
  text_or_empty none = ""
  text_or_empty (some v) = elim (j.as_str v) [ none ↦ "" | some s ↦ s ]

  -- A holder from the object, each `?` a case.
  unfoldable pub holder_of : J → Option LockHolder
  holder_of value = elim (j.get value "pid") [
    | none ↦ none
    | some p ↦ elim (valid_pid p) [
      | none ↦ none
      | some pid ↦ elim (j.get value "at") [
        | none ↦ none
        | some a ↦ elim (j.as_str a) [
          | none ↦ none
          | some at ↦
              some (record { pid = pid; writer = text_or_empty (j.get value "writer"); at = at })
        ]
      ]
    ]
  ]

  unfoldable pub parse_holder : String → Option LockHolder
  parse_holder text = elim (j.from_str text) [ none ↦ none | some value ↦ holder_of value ]

  unfoldable pub is_stale : String → ℕ → (ℕ → Bool) → Bool
  is_stale text mtime_age pid_alive = elim (parse_holder text) [
    | some holder ↦ not (pid_alive holder.pid)
    | none ↦ ltb stale_mtime_age mtime_age
  ]

  module _ {E : Type 0} where
    unfoldable pub busy_error : String → String → LockError E
    busy_error lock_path text = elim (parse_holder text) [
      | some h ↦ LockError.busy h.pid h.writer h.at lock_path
      | none ↦ LockError.unreadable lock_path
    ]

    unfoldable pub reaffirm_at : ℕ → String → ReadOutcome → Result (LockError E) (Unit {0})
    reaffirm_at pid lock_path missing = err (LockError.unreadable lock_path)
    reaffirm_at pid lock_path unreadable_file = err (LockError.unreadable lock_path)
    reaffirm_at pid lock_path (content text) = elim (parse_holder text) [
      | none ↦ err (LockError.unreadable lock_path)
      | some holder ↦
          if eqb holder.pid pid
          then ok tt
          else err (LockError.busy holder.pid holder.writer holder.at lock_path)
    ]

  -- The lock file after `release_file`, of which the process is given.
  unfoldable pub release_file : ℕ → Option String → Option String
  release_file pid none = none
  release_file pid (some text) = elim (parse_holder text) [
    | none ↦ some text
    | some holder ↦ if eqb holder.pid pid then none else some text
  ]

-- An entry of the registry: the thread that owns the lock, and how often.
abbrev pub Entry : Type 0
Entry = Option (ℕ × ℕ)

-- `Drop`: the entry that is left, and whether the lock file is to be released. The subtraction of a
-- `usize` wraps.
unfoldable pub drop_entry : Entry → Entry × Bool
drop_entry none = (none, true)
drop_entry (some (owner, count)) =
    let left = u64 (count + (2 ^ 64 - 1)) in
    if eqb left 0 then (none, true) else (some (owner, left), false)

unfoldable pub is_held_by_us : ℕ → Entry → Bool
is_held_by_us me none = false
is_held_by_us me (some (owner, count)) = eqb owner me

-- How `write_lock_file` can fail.
pub data CreateError (E : Type 0) : Type 0 where
  already_exists : CreateError E
  permission_denied : E → CreateError E
  other_error : E → CreateError E

-- What a round of the loop sees: the registry's entry, the outcome of the creation, the lock file,
-- its age and which processes live, the clock where it is read, the lock file as read for an error.
pub record Seen (E : Type 0) : Type 0 where
  pub entry : Entry
  pub created : Result (CreateError E) (Unit {0})
  pub read : ReadOutcome
  pub mtime_age : ℕ
  pub pid_alive : ℕ → Bool
  pub now : ℕ
  pub reread : String

pub data Turn (E : Type 0) : Type 0 where
  reentered : Turn E
  acquired : Turn E
  failed : LockError E → Turn E
  again : Turn E

module _ {J F E : Type 0} (j : Json J F) (lock_path : String) (deadline : ℕ) where
  -- `if Instant::now() >= deadline { return Err(e) }`
  unfoldable pub give_up : Seen E → LockError E → Turn E
  give_up seen e = if leb deadline seen.now then Turn.failed e else Turn.again

  -- A round from `read_lock` on; `denied` is the permission error, if there was one. A
  -- stale file is removed on the way, in steps of World; the round goes on alike.
  unfoldable pub read_round : Seen E → Option E → ReadOutcome → Turn E
  read_round seen denied missing = elim denied [
    | some e ↦ give_up seen (LockError.io e)
    | none ↦ give_up seen (busy_error j lock_path "")
  ]
  read_round seen denied unreadable_file = give_up seen (LockError.unreadable lock_path)
  read_round seen denied (content text) = give_up seen (busy_error j lock_path text)

  unfoldable pub create_round : Seen E → Result (CreateError E) (Unit {0}) → Turn E
  create_round seen (ok made) = Turn.acquired
  create_round seen (err already_exists) = read_round seen none seen.read
  create_round seen (err (permission_denied e)) = read_round seen (some e) seen.read
  create_round seen (err (other_error e)) = Turn.failed (LockError.io e)

  -- A round from the look into the registry on, for the thread `me`.
  unfoldable pub entry_round : ℕ → Seen E → Entry → Turn E
  entry_round me seen none = create_round seen seen.created
  entry_round me seen (some (owner, count)) =
      if eqb owner me then Turn.reentered else give_up seen (busy_error j lock_path seen.reread)

  -- One round of the loop.
  unfoldable pub round : ℕ → Seen E → Turn E
  round me seen = entry_round me seen seen.entry

  -- `return`, with the number of the round, or the rest of the loop.
  unfoldable pub or_else_loop : ℕ → Turn E → Option (ℕ × Turn E) → Option (ℕ × Turn E)
  or_else_loop i again rest = rest
  or_else_loop i reentered rest = some (i, Turn.reentered)
  or_else_loop i acquired rest = some (i, Turn.acquired)
  or_else_loop i (failed e) rest = some (i, Turn.failed e)

  -- The loop from round `i` on, over what the rounds see.
  unfoldable pub acquire_loop : ℕ → ℕ → (ℕ → Seen E) → ℕ → Option (ℕ × Turn E)
  acquire_loop zero me seen i = none
  acquire_loop (suc fuel) me seen i =
      or_else_loop i (round me (seen i)) (acquire_loop fuel me seen (suc i))

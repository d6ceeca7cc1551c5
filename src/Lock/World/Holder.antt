-- ===== src/Lock/World/Holder.antt =====
-- Who has the lock of src-tauri/src/kernel/board_lock.rs, and what the shared state then is.
use claude_usage_tracker_win.Prelude.{
  pos, ℕ, ◌<◌, ◌^◌, ◌≡◌, ◌≢◌, refl, String, Bool, true, false, ◌&&◌, none, some, eqb, if◌then◌else◌,
  arith,
}
use claude_usage_tracker_win.Lock.{
  Json, LockHolder, parse_holder, holder_of, valid_pid, pid_of_i64, text_or_empty, Entry,
}
use claude_usage_tracker_win.Lock.World.{
  Stage, outside, unclaimed, created, written, seen, judged, moved, differing, clearing, World,
}

-- Who has the lock, or is about to: a thread of a process past the creation of the file, whose number is given,
-- past the writing, or as the owner with a count.
pub data Holder : Type 0 where
  free : Holder
  creating : ℕ → ℕ → ℕ → Holder
  writing : ℕ → ℕ → Holder
  holding : ℕ → ℕ → ℕ → Holder

abbrev pub entry_of : Holder → ℕ → Entry
entry_of free p = none
entry_of (creating q t i) p = none
entry_of (writing q t) p = none
entry_of (holding q t n) p = if eqb q p then some (t, n) else none

abbrev pub guards_of : Holder → ℕ → ℕ
guards_of free p = 0
guards_of (creating q t i) p = 0
guards_of (writing q t) p = 0
guards_of (holding q t n) p = if eqb q p then n else 0

abbrev pub is_created : Stage → Bool
is_created outside = false
is_created unclaimed = false
is_created (created i) = true
is_created written = false
is_created (seen text) = false
is_created (judged text) = false
is_created (moved text) = false
is_created differing = false
is_created clearing = false

abbrev pub is_written : Stage → Bool
is_written outside = false
is_written unclaimed = false
is_written (created i) = false
is_written written = true
is_written (seen text) = false
is_written (judged text) = false
is_written (moved text) = false
is_written differing = false
is_written clearing = false

abbrev pub creates : Holder → ℕ → ℕ → Bool
creates free p s = false
creates (creating q t i) p s = eqb q p && eqb t s
creates (writing q t) p s = false
creates (holding q t n) p s = false

abbrev pub writes : Holder → ℕ → ℕ → Bool
writes free p s = false
writes (creating q t i) p s = false
writes (writing q t) p s = eqb q p && eqb t s
writes (holding q t n) p s = false

module _ {J F : Type 0} (j : Json J F) where
  -- The lock file's content names a process.
  abbrev pub Names : ℕ → World → Type 0
  Names p w =
      (i : ℕ) × (w.file ≡ some i)
      × ((h : LockHolder) × (parse_holder j (w.text i) ≡ some h) × (h.pid ≡ p))

  abbrev pub FileOf : World → Holder → Type 0
  FileOf w free = Unit
  FileOf w (creating p t i) =
      (w.alive p ≡ true) × ((w.stage p t ≡ Stage.created i) × ((w.file ≡ some i) × (w.text i ≡ "")))
  FileOf w (writing p t) = (w.alive p ≡ true) × Names p w
  FileOf w (holding p t n) = (w.alive p ≡ true) × ((0 < n) × ((n < 2 ^ 64) × Names p w))

  -- The content that a thread found to be stale, where it names a process, names one that has ended.
  abbrev pub NamesEnded : (ℕ → Bool) → Stage → Type 0
  NamesEnded alive outside = Unit
  NamesEnded alive unclaimed = Unit
  NamesEnded alive (created i) = Unit
  NamesEnded alive written = Unit
  NamesEnded alive (seen text) = Unit
  NamesEnded alive (judged text) =
      (h : LockHolder) → parse_holder j text ≡ some h → alive h.pid ≡ false
  NamesEnded alive (moved text) = Unit
  NamesEnded alive differing = Unit
  NamesEnded alive clearing = Unit

  pub record Agrees (w : World) (h : Holder) : Type 0 where
    pub entry : (p : ℕ) → w.entry p ≡ entry_of h p
    pub guards : (p : ℕ) → w.guards p ≡ guards_of h p
    pub created_at : (p s : ℕ) → is_created (w.stage p s) ≡ creates h p s
    pub written_at : (p s : ℕ) → is_written (w.stage p s) ≡ writes h p s
    pub busy_alive : (p s : ℕ) → w.stage p s ≢ Stage.outside → w.alive p ≡ true
    pub ended : (p s : ℕ) → NamesEnded w.alive (w.stage p s)
    pub file : FileOf w h

  -- What `serde_json` does with the text of a lock file: an empty text is no JSON, and what was
  -- printed is read back.
  pub record Printed : Type 0 where
    pub nothing : j.from_str "" ≡ none
    pub object : ℕ → String → J
    pub pid : ℕ → J
    pub at : String → J
    pub read_back : (p : ℕ) (s : String) → j.from_str (j.lock_content p "app" s) ≡ some (object p s)
    pub has_pid : (p : ℕ) (s : String) → j.get (object p s) "pid" ≡ some (pid p)
    pub has_at : (p : ℕ) (s : String) → j.get (object p s) "at" ≡ some (at s)
    pub is_number : (p : ℕ) → p < 2 ^ 32 → j.as_i64 (pid p) ≡ some (pos p)
    pub is_text : (s : String) → j.as_str (at s) ≡ some s

  pub lock_content-holder :
      (p : ℕ) (s : String)
      → Printed
      → 0 < p
      → p < 2 ^ 32
      → (h : LockHolder) × (parse_holder j (j.lock_content p "app" s) ≡ some h) × (h.pid ≡ p)
  unfolding parse_holder holder_of valid_pid pid_of_i64
  lock_content-holder p s printed low high = (
    record { pid = p; writer = text_or_empty j (j.get (printed.object p s) "writer"); at = s },
    ground (
      arith,
      printed.read_back p s,
      printed.has_pid p s,
      printed.has_at p s,
      printed.is_number p high,
      printed.is_text s,
      low,
      high,
    ),
    refl,
  )

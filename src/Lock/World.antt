-- ===== src/Lock/World.antt =====
-- The lock of src-tauri/src/kernel/board_lock.rs among the threads of several processes, as steps
-- on what they share: the registries, the directory with the lock file, which processes live. A
-- step is a section under the registry's mutex, or one file operation. A file is told from its
-- name, since `remove_stale` renames files that a writer may still have open: it can be under the
-- name of the lock file, and under the name that ends in `.stale-{pid}`, which the threads of a
-- process share. `release_file`, which runs under the registry's mutex, is one step here. A count
-- never reaches the bound of its `usize`, since every guard counted takes up memory. The number of
-- a process that has ended is not given again.
pub mod Holder
pub mod Ends
pub mod Taking
pub mod Stale
pub mod Safety
mod Tests
use claude_usage_tracker_win.Prelude.{
  ℕ, suc, ◌+◌, ◌<◌, ◌^◌, ◌≡◌, ◌≢◌, String, Bool, true, false, ◌&&◌, Option, none, some, eqb,
  if◌then◌else◌,
}
use claude_usage_tracker_win.Lock.{Json, release_file, is_stale, Entry, drop_entry}

-- Where a thread stands in `acquire_impl`: outside; past the look into the registry, which had no
-- entry; past the creation of a file, with its handle; past the writing of its content; past
-- `read_lock`, with what it read; past `is_stale`, which was true of it; and in `remove_stale`: past
-- the rename, past a read that did not give the judged content, and before the removal of the moved
-- file.
pub data Stage : Type 0 where
  outside : Stage
  unclaimed : Stage
  created : ℕ → Stage
  written : Stage
  seen : String → Stage
  judged : String → Stage
  moved : String → Stage
  differing : Stage
  clearing : Stage

-- Files are numbered as they are made; `file` is the one under the name of the lock file, `aside`
-- the one under the name for stale files of a process, and `text` the content of each.
pub record World : Type 0 where
  pub entry : ℕ → Entry
  pub guards : ℕ → ℕ
  pub stage : ℕ → ℕ → Stage
  pub alive : ℕ → Bool
  pub file : Option ℕ
  pub aside : ℕ → Option ℕ
  pub text : ℕ → String
  pub made : ℕ

-- A stage in which a thread has made no file and moved none, or is done but for a removal.
abbrev pub HasNothing : Stage → Type 0
HasNothing outside = ⊥
HasNothing unclaimed = Unit
HasNothing (created i) = ⊥
HasNothing written = ⊥
HasNothing (seen text) = Unit
HasNothing (judged text) = Unit
HasNothing (moved text) = ⊥
HasNothing differing = ⊥
HasNothing clearing = Unit

-- `f` with another value at `p`, and at the thread `t` of the process `p`.
abbrev pub update {ℓ} : {A : Type ℓ} → (ℕ → A) → ℕ → A → ℕ → A
update f p a q = if eqb p q then a else f q

abbrev pub update_thread : (ℕ → ℕ → Stage) → ℕ → ℕ → Stage → ℕ → ℕ → Stage
update_thread f p t a q s = if eqb p q && eqb t s then a else f q s

abbrev pub no_threads : (ℕ → ℕ → Stage) → ℕ → ℕ → ℕ → Stage
no_threads f p q s = if eqb p q then Stage.outside else f q s

-- What is read under a name.
abbrev pub text_of : (ℕ → String) → Option ℕ → Option String
text_of text none = none
text_of text (some i) = some (text i)

-- `release_file` on the name of the lock file: whether the file is still under it.
abbrev pub kept_name : Option String → Option ℕ → Option ℕ
kept_name none file = none
kept_name (some text) file = file

-- `hard_link`: the file is put under the name, unless there is one.
abbrev pub linked : Option ℕ → Option ℕ → Option ℕ
linked file none = file
linked none (some i) = some i
linked (some f) (some i) = some f

-- No process has the lock, and there is no lock file.
abbrev pub at_rest : (ℕ → Bool) → World
at_rest alive = record {
  entry = λ p. none;
  guards = λ p. 0;
  stage = λ p t. Stage.outside;
  alive = alive;
  file = none;
  aside = λ p. none;
  text = λ i. "";
  made = 0;
}

module _ {J F : Type 0} (j : Json J F) where
  -- The steps of the thread `t` of the process `p`.
  pub data Step (w : World) : World → Type 0 where
    reenter :
        (p t n : ℕ)
        → w.alive p ≡ true
        → w.stage p t ≡ Stage.outside
        → w.entry p ≡ some (t, n)
        → n + 1 < 2 ^ 64
        → Step w (record w {
          entry = update w.entry p (some (t, n + 1));
          guards = update w.guards p (w.guards p + 1);
        })
    look :
        (p t : ℕ)
        → w.alive p ≡ true
        → w.stage p t ≡ Stage.outside
        → w.entry p ≡ none
        → Step w (record w { stage = update_thread w.stage p t Stage.unclaimed })
    create :
        (p t : ℕ)
        → w.stage p t ≡ Stage.unclaimed
        → w.file ≡ none
        → Step w (record w {
          stage = update_thread w.stage p t (Stage.created w.made);
          file = some w.made;
          text = update w.text w.made "";
          made = suc w.made;
        })
    -- Through the handle, wherever the file is now. A process number is a positive `u32`.
    write :
        (p t i : ℕ) (at : String)
        → 0 < p
        → p < 2 ^ 32
        → w.stage p t ≡ Stage.created i
        → Step w (record w {
          stage = update_thread w.stage p t Stage.written;
          text = update w.text i (j.lock_content p "app" at);
        })
    -- `write_all` failed: the file stays, with what was written.
    leave :
        (p t i : ℕ) (part : String)
        → w.stage p t ≡ Stage.created i
        → Step w (record w {
          stage = update_thread w.stage p t Stage.outside;
          text = update w.text i part;
        })
    register :
        (p t : ℕ)
        → w.stage p t ≡ Stage.written
        → Step w (record w {
          stage = update_thread w.stage p t Stage.outside;
          entry = update w.entry p (some (t, 1));
          guards = update w.guards p (w.guards p + 1);
        })
    release :
        (p g : ℕ)
        → w.guards p ≡ suc g
        → Step w (record w {
          entry = update w.entry p (drop_entry (w.entry p)).0;
          guards = update w.guards p g;
          file =
              if (drop_entry (w.entry p)).1
              then kept_name (release_file j p (text_of w.text w.file)) w.file
              else w.file;
        })
    -- The process ends at any point, and leaves the files.
    stop :
        (p : ℕ)
        → Step w (record w {
          entry = update w.entry p none;
          guards = update w.guards p 0;
          stage = no_threads w.stage p;
          alive = update w.alive p false;
        })
    -- The file could not be created, and the lock file is read.
    read :
        (p t : ℕ) (text : String)
        → w.stage p t ≡ Stage.unclaimed
        → text_of w.text w.file ≡ some text
        → Step w (record w { stage = update_thread w.stage p t (Stage.seen text) })
    -- `is_stale`, at any age of the file under the name by now.
    judge :
        (p t age : ℕ) (text : String)
        → w.stage p t ≡ Stage.seen text
        → is_stale j text age w.alive ≡ true
        → Step w (record w { stage = update_thread w.stage p t (Stage.judged text) })
    -- `rename`, of whichever file is under the name by now.
    move :
        (p t i : ℕ) (text : String)
        → w.stage p t ≡ Stage.judged text
        → w.file ≡ some i
        → Step w (record w {
          stage = update_thread w.stage p t (Stage.moved text);
          file = none;
          aside = update w.aside p (some i);
        })
    match_moved :
        (p t : ℕ) (text : String)
        → w.stage p t ≡ Stage.moved text
        → text_of w.text (w.aside p) ≡ some text
        → Step w (record w { stage = update_thread w.stage p t Stage.clearing })
    differ :
        (p t : ℕ) (text : String)
        → w.stage p t ≡ Stage.moved text
        → text_of w.text (w.aside p) ≢ some text
        → Step w (record w { stage = update_thread w.stage p t Stage.differing })
    -- The moved file could not be read.
    not_read :
        (p t : ℕ) (text : String)
        → w.stage p t ≡ Stage.moved text
        → Step w (record w { stage = update_thread w.stage p t Stage.differing })
    put_back :
        (p t : ℕ)
        → w.stage p t ≡ Stage.differing
        → Step w (record w {
          stage = update_thread w.stage p t Stage.clearing;
          file = linked w.file (w.aside p);
        })
    -- `hard_link` failed.
    not_linked :
        (p t : ℕ)
        → w.stage p t ≡ Stage.differing
        → Step w (record w { stage = update_thread w.stage p t Stage.clearing })
    clear :
        (p t : ℕ)
        → w.stage p t ≡ Stage.clearing
        → Step w (record w {
          stage = update_thread w.stage p t Stage.outside;
          aside = update w.aside p none;
        })
    -- The round ends: the file was not created or not read, it is not stale, `rename` failed, or
    -- the removal of the moved file did.
    turn_back :
        (p t : ℕ)
        → HasNothing (w.stage p t)
        → Step w (record w { stage = update_thread w.stage p t Stage.outside })

  pub data Reachable (alive : ℕ → Bool) : World → Type 0 where
    begin : Reachable alive (at_rest alive)
    next : {w v : World} → Reachable alive w → Step w v → Reachable alive v

  -- A rename that nothing came before since the file was judged: the file under the name has the
  -- content that was judged, and is not one that a thread has created and not yet written.
  abbrev pub Undisturbed : {w v : World} → Step w v → Type 0
  Undisturbed (reenter p t n lives at e room) = Unit
  Undisturbed (look p t lives at e) = Unit
  Undisturbed (create p t at e) = Unit
  Undisturbed (write p t i s low high at) = Unit
  Undisturbed (leave p t i part at) = Unit
  Undisturbed (register p t at) = Unit
  Undisturbed (release p g e) = Unit
  Undisturbed (stop p) = Unit
  Undisturbed (read p t s at e) = Unit
  Undisturbed (judge p t age s at e) = Unit
  Undisturbed {w = w} (move p t i s at e) =
      (w.text i ≡ s) × ((q u : ℕ) → w.stage q u ≢ Stage.created i)
  Undisturbed (match_moved p t s at e) = Unit
  Undisturbed (differ p t s at e) = Unit
  Undisturbed (not_read p t s at) = Unit
  Undisturbed (put_back p t at) = Unit
  Undisturbed (not_linked p t at) = Unit
  Undisturbed (clear p t at) = Unit
  Undisturbed (turn_back p t at) = Unit

  -- A run in which every rename of `remove_stale` is undisturbed.
  abbrev pub Calm : {alive : ℕ → Bool} {w : World} → Reachable alive w → Type 0
  Calm begin = Unit
  Calm (next run s) = Calm run × Undisturbed s

-- ===== src/Lock/World/Safety.antt =====
-- Mutual exclusion under the lock of src-tauri/src/kernel/board_lock.rs.
use claude_usage_tracker_win.Prelude.{
  ℕ, zero, suc, ◌+◌, ◌≡◌, ◌≢◌, ◌↔◌, ok, refl, String, Bool, true, some, if◌then◌else◌, arith,
}
use claude_usage_tracker_win.Lock.{reaffirm_at, read_lock, Json, release_file, drop_entry}
use claude_usage_tracker_win.Lock.World.{
  Stage, World, update, update_thread, text_of, kept_name, Step, reenter, look, create, write,
  leave, register, release, stop, read, judge, move, match_moved, differ, not_read, put_back,
  not_linked, clear, turn_back, Reachable, begin, next, Undisturbed, Calm,
}
use claude_usage_tracker_win.Lock.World.Holder.{
  Holder, free, creating, writing, holding, Names, Agrees, Printed,
}
use claude_usage_tracker_win.Lock.World.Taking.{
  reenter-Agrees, restage-Agrees, create-Agrees, write-Agrees, leave-Agrees, register-Agrees,
}
use claude_usage_tracker_win.Lock.World.Ends.{release-free, release-held, stop-Agrees}
use claude_usage_tracker_win.Lock.World.Stale.{
  quiet-Agrees, turn_back-Agrees, judge-Agrees, clear-Agrees, put_back-Agrees, move-Agrees,
}

module _ {J F : Type 0} (j : Json J F) where
  release-Agrees :
      (w : World) (h : Holder) (p g : ℕ)
      → Agrees j w h
      → w.guards p ≡ suc g
      → (h' : Holder) × Agrees j
          (record w {
            entry = update w.entry p (drop_entry (w.entry p)).0;
            guards = update w.guards p g;
            file =
                if (drop_entry (w.entry p)).1
                then kept_name (release_file j p (text_of w.text w.file)) w.file
                else w.file;
          })
          h'
  release-Agrees w h p zero a e = (Holder.free, release-free j w h p a e)
  release-Agrees w h p (suc g) a e =
      let (t, held) = release-held j w h p g a e in (Holder.holding p t (suc g), held)

  look-Agrees :
      (w : World) (h : Holder) (p t : ℕ)
      → Agrees j w h
      → w.alive p ≡ true
      → w.stage p t ≡ Stage.outside
      → Agrees j (record w { stage = update_thread w.stage p t Stage.unclaimed }) h
  look-Agrees w h p t a lives at =
      restage-Agrees j w h p t Stage.unclaimed w.file w.aside a (ground (arith, at))
        (ground (arith, at)) refl refl lives tt (λ i some_one e. e)

  Step-Agrees :
      (w v : World) (h : Holder)
      → Printed j
      → Agrees j w h
      → (s : Step j w v) → Undisturbed j s
      → (h' : Holder) × Agrees j v h'
  Step-Agrees w v h pr a (reenter p t n lives at e room) c =
      (Holder.holding p t (n + 1), reenter-Agrees j w h p t n a e room)
  Step-Agrees w v h pr a (look p t lives at e) c = (h, look-Agrees w h p t a lives at)
  Step-Agrees w v h pr a (create p t at e) c =
      (Holder.creating p t w.made, create-Agrees j w h p t a at e)
  Step-Agrees w v h pr a (write p t i s low high at) c =
      (Holder.writing p t, write-Agrees j w h p t i s pr a low high at)
  Step-Agrees w v h pr a (leave p t i part at) c = (Holder.free, leave-Agrees j w h p t i part a at)
  Step-Agrees w v h pr a (register p t at) c =
      (Holder.holding p t 1, register-Agrees j w h p t a at)
  Step-Agrees w v h pr a (release p g e) c = release-Agrees w h p g a e
  Step-Agrees w v h pr a (stop p) c = stop-Agrees j w h p a
  Step-Agrees w v h pr a (read p t text at e) c = (
    h,
    quiet-Agrees j w h p t Stage.unclaimed (Stage.seen text) a at refl refl (λ e. cc) refl refl tt,
  )
  Step-Agrees w v h pr a (judge p t age text at e) c = (h, judge-Agrees j w h p t age text a at e)
  Step-Agrees w v h pr a (move p t i text at e) c = (h, move-Agrees j w h p t i text a at e c.0 c.1)
  Step-Agrees w v h pr a (match_moved p t text at e) c = (
    h,
    quiet-Agrees j w h p t (Stage.moved text) Stage.clearing a at refl refl (λ e. cc) refl refl tt,
  )
  Step-Agrees w v h pr a (differ p t text at e) c = (
    h,
    quiet-Agrees j w h p t (Stage.moved text) Stage.differing a at refl refl (λ e. cc) refl refl tt,
  )
  Step-Agrees w v h pr a (not_read p t text at) c = (
    h,
    quiet-Agrees j w h p t (Stage.moved text) Stage.differing a at refl refl (λ e. cc) refl refl tt,
  )
  Step-Agrees w v h pr a (put_back p t at) c = (h, put_back-Agrees j w h p t a at)
  Step-Agrees w v h pr a (not_linked p t at) c = (
    h,
    quiet-Agrees j w h p t Stage.differing Stage.clearing a at refl refl (λ e. cc) refl refl tt,
  )
  Step-Agrees w v h pr a (clear p t at) c = (h, clear-Agrees j w h p t a at)
  Step-Agrees w v h pr a (turn_back p t idle) c = (h, turn_back-Agrees j w h p t a idle)

  Calm-Agrees :
      (alive : ℕ → Bool) (w : World)
      → Printed j
      → (run : Reachable j alive w) → Calm j run
      → (h : Holder) × Agrees j w h
  Calm-Agrees alive w pr begin calm = (
    Holder.free,
    record {
      entry = λ p. refl;
      guards = λ p. refl;
      created_at = λ p s. refl;
      written_at = λ p s. refl;
      busy_alive = λ p s b. absurd (b refl);
      ended = λ p s. tt;
      file = tt;
    },
  )
  Calm-Agrees alive w pr (next {w = u} run s) calm =
      let (h, a) = Calm-Agrees alive u pr run calm.0 in Step-Agrees u w h pr a s calm.1

  -- What a guard promises to its process.
  pub record Exclusive (w : World) (p : ℕ) : Type 0 where
    pub owner : ℕ
    pub counted : w.entry p ≡ some (owner, w.guards p)
    pub living : w.alive p ≡ true
    pub named : Names j p w
    pub alone : (q : ℕ) → w.guards q ≢ 0 → q ≡ p

  Agrees-Exclusive :
      (w : World) (h : Holder) (p : ℕ) → Agrees j w h → w.guards p ≢ 0 → Exclusive w p
  Agrees-Exclusive w free p a some_guard = absurd (some_guard (a.guards p))
  Agrees-Exclusive w (creating q t i) p a some_guard = absurd (some_guard (a.guards p))
  Agrees-Exclusive w (writing q t) p a some_guard = absurd (some_guard (a.guards p))
  Agrees-Exclusive w (holding q t n) p a some_guard =
      let here : q ≡ p = ground (arith, a.guards p, some_guard) in
      record {
        owner = t;
        counted = ground (arith, a.entry p, a.guards p, here);
        living = rw here at a.file.0;
        named = rw here at a.file.1.1.1;
        alone = λ r guard. ground (arith, a.guards r, guard, here);
      }

  -- In every run of any number of threads in any number of processes, which may end at any point,
  -- in which each rename of `remove_stale` moves a file with the content that was judged to be
  -- stale, and none that a thread has created and not yet written: while a process has a guard of
  -- the lock, it lives, no other process has a guard, its registry names one owner and counts its
  -- guards, and the lock file names the process.
  pub guard-Exclusive :
      (alive : ℕ → Bool) (w : World) (p : ℕ)
      → Printed j
      → (run : Reachable j alive w) → Calm j run
      → w.guards p ≢ 0
      → Exclusive w p
  guard-Exclusive alive w p pr run calm guard =
      let (h, a) = Calm-Agrees alive w pr run calm in Agrees-Exclusive w h p a guard

  Names-reaffirm_at :
      {E : Type 0} (p q : ℕ) (path : String) (w : World)
      → Names j p w
      → (reaffirm_at j {E = E} q path (read_lock (text_of w.text w.file)) ≡ ok tt) ↔ (q ≡ p)
  unfolding reaffirm_at
  Names-reaffirm_at p q path w (i, e, (h, r, same)) =
      (λ k. ground (arith, e, r, same, k), λ k. ground (arith, e, r, same, k))

  -- In every run in which each rename of `remove_stale` moves a file with the content that was
  -- judged to be stale, and none that a thread has created and not yet written: while a process has
  -- a guard and its lock file can be read, `reaffirm` succeeds for this process and fails for every
  -- other one.
  pub guard-reaffirm_at :
      {E : Type 0} (alive : ℕ → Bool) (w : World) (p q : ℕ) (path : String)
      → Printed j
      → (run : Reachable j alive w) → Calm j run
      → w.guards p ≢ 0
      → (reaffirm_at j {E = E} q path (read_lock (text_of w.text w.file)) ≡ ok tt) ↔ (q ≡ p)
  guard-reaffirm_at alive w p q path pr run calm guard =
      Names-reaffirm_at p q path w (guard-Exclusive alive w p pr run calm guard).named

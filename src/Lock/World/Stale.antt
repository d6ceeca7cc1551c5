-- ===== src/Lock/World/Stale.antt =====
-- The stale file in `acquire_impl` and `remove_stale` of src-tauri/src/kernel/board_lock.rs: how each
-- step of its removal leaves who has the lock.
use mathlib.Core.Path.{subst}
use claude_usage_tracker_win.Prelude.{
  ℕ, ◌≡◌, ◌≢◌, refl, String, Bool, true, false, Option, none, some, arith,
}
use claude_usage_tracker_win.Lock.{Json, LockHolder, parse_holder, is_stale}
use claude_usage_tracker_win.Lock.World.{
  Stage, outside, unclaimed, created, written, seen, judged, moved, differing, clearing, HasNothing,
  World, update, update_thread, linked,
}
use claude_usage_tracker_win.Lock.World.Holder.{
  Holder, free, creating, writing, holding, Names, NamesEnded, Agrees, is_created, is_written,
}
use claude_usage_tracker_win.Lock.World.Taking.{restage-Agrees}

HasNothing-idle :
    (s : Stage)
    → HasNothing s
    → (is_created s ≡ false) × ((is_written s ≡ false) × (s ≢ Stage.outside))
HasNothing-idle outside h = absurd h
HasNothing-idle unclaimed h = (refl, (refl, λ e. cc))
HasNothing-idle (created i) h = absurd h
HasNothing-idle written h = absurd h
HasNothing-idle (seen text) h = (refl, (refl, λ e. cc))
HasNothing-idle (judged text) h = (refl, (refl, λ e. cc))
HasNothing-idle (moved text) h = absurd h
HasNothing-idle differing h = absurd h
HasNothing-idle clearing h = (refl, (refl, λ e. cc))

linked-some : (i : ℕ) (aside : Option ℕ) → linked (some i) aside ≡ some i
linked-some i none = refl
linked-some i (some k) = refl

module _ {J F : Type 0} (j : Json J F) where
  is_stale-NamesEnded :
      (text : String) (age : ℕ) (alive : ℕ → Bool)
      → is_stale j text age alive ≡ true
      → NamesEnded j alive (Stage.judged text)
  unfolding is_stale
  is_stale-NamesEnded text age alive stale h e = ground (arith, stale, e)

  -- A step between two stages that leaves the lock file.
  pub quiet-Agrees :
      (w : World) (h : Holder) (p t : ℕ) (before after : Stage)
      → Agrees j w h
      → w.stage p t ≡ before
      → is_created before ≡ false
      → is_written before ≡ false
      → before ≢ Stage.outside
      → is_created after ≡ false
      → is_written after ≡ false
      → NamesEnded j w.alive after
      → Agrees j (record w { stage = update_thread w.stage p t after }) h
  quiet-Agrees w h p t before after a at c0 w0 busy c1 w1 ended =
      restage-Agrees j w h p t after w.file w.aside a (ground (arith, at, c0))
        (ground (arith, at, w0)) c1 w1 (a.busy_alive p t (λ e. busy (ground (arith, at, e)))) ended
        (λ i some_one e. e)

  pub turn_back-Agrees :
      (w : World) (h : Holder) (p t : ℕ)
      → Agrees j w h
      → HasNothing (w.stage p t)
      → Agrees j (record w { stage = update_thread w.stage p t Stage.outside }) h
  turn_back-Agrees w h p t a idle =
      let (c, (r, busy)) = HasNothing-idle (w.stage p t) idle in
      quiet-Agrees w h p t (w.stage p t) Stage.outside a refl c r busy refl refl tt

  pub judge-Agrees :
      (w : World) (h : Holder) (p t age : ℕ) (text : String)
      → Agrees j w h
      → w.stage p t ≡ Stage.seen text
      → is_stale j text age w.alive ≡ true
      → Agrees j (record w { stage = update_thread w.stage p t (Stage.judged text) }) h
  judge-Agrees w h p t age text a at stale =
      quiet-Agrees w h p t (Stage.seen text) (Stage.judged text) a at refl refl (λ e. cc) refl refl
        (is_stale-NamesEnded text age w.alive stale)

  pub clear-Agrees :
      (w : World) (h : Holder) (p t : ℕ)
      → Agrees j w h
      → w.stage p t ≡ Stage.clearing
      → Agrees j
          (record w {
            stage = update_thread w.stage p t Stage.outside;
            aside = update w.aside p none;
          })
          h
  clear-Agrees w h p t a at =
      restage-Agrees j w h p t Stage.outside w.file (update w.aside p none) a (ground (arith, at))
        (ground (arith, at)) refl refl (a.busy_alive p t (λ e. ground (arith, at, e))) tt
        (λ i some_one e. e)

  -- The link is put back only where no lock file is.
  pub put_back-Agrees :
      (w : World) (h : Holder) (p t : ℕ)
      → Agrees j w h
      → w.stage p t ≡ Stage.differing
      → Agrees j
          (record w {
            stage = update_thread w.stage p t Stage.clearing;
            file = linked w.file (w.aside p);
          })
          h
  put_back-Agrees w h p t a at =
      restage-Agrees j w h p t Stage.clearing (linked w.file (w.aside p)) w.aside a
        (ground (arith, at)) (ground (arith, at)) refl refl
        (a.busy_alive p t (λ e. ground (arith, at, e))) tt
        (λ i some_one e. rw e (linked-some i (w.aside p)))

  stale_of_living :
      {h : Holder} (w : World) (p t q i : ℕ)
      → Agrees j w h
      → w.stage p t ≡ Stage.judged (w.text i)
      → w.file ≡ some i
      → Names j q w
      → w.alive q ≡ true
      → ⊥
  stale_of_living w p t q i a at named (k, named', (l, parsed, pid)) lives =
      let same : k ≡ i = ground (arith, named, named') in
      let ended : (l' : LockHolder) → parse_holder j (w.text i) ≡ some l' → w.alive l'.pid ≡ false =
        subst (λ s. NamesEnded j w.alive s) at (a.ended p t) in
      ground (arith, ended l (rw same at parsed), pid, lives)

  -- Nobody has a file with the content of a stale one, unless a thread has yet to write it.
  stale-free :
      (w : World) (h : Holder) (p t i : ℕ)
      → Agrees j w h
      → w.stage p t ≡ Stage.judged (w.text i)
      → w.file ≡ some i
      → ((q u : ℕ) → w.stage q u ≢ Stage.created i)
      → h ≡ Holder.free
  stale-free w free p t i a at named unwritten = refl
  stale-free w (creating q u k) p t i a at named unwritten =
      let same : k ≡ i = ground (arith, a.file.1.1.0, named) in
      absurd (unwritten q u (rw same at a.file.1.0))
  stale-free w (writing q u) p t i a at named unwritten =
      absurd (stale_of_living w p t q i a at named a.file.1 a.file.0)
  stale-free w (holding q u n) p t i a at named unwritten =
      absurd (stale_of_living w p t q i a at named a.file.1.1.1 a.file.0)

  pub move-Agrees :
      (w : World) (h : Holder) (p t i : ℕ) (text : String)
      → Agrees j w h
      → w.stage p t ≡ Stage.judged text
      → w.file ≡ some i
      → w.text i ≡ text
      → ((q u : ℕ) → w.stage q u ≢ Stage.created i)
      → Agrees j
          (record w {
            stage = update_thread w.stage p t (Stage.moved text);
            file = none;
            aside = update w.aside p (some i);
          })
          h
  move-Agrees w h p t i text a at named same unwritten =
      restage-Agrees j w h p t (Stage.moved text) none (update w.aside p (some i)) a
        (ground (arith, at)) (ground (arith, at)) refl refl
        (a.busy_alive p t (λ e. ground (arith, at, e))) tt
        (λ k some_one e. absurd (some_one (stale-free w h p t i a (rw same at) named unwritten)))

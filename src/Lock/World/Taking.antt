-- ===== src/Lock/World/Taking.antt =====
-- How the steps that take the lock of src-tauri/src/kernel/board_lock.rs move who has it, and the
-- steps of a thread without an open file.
use claude_usage_tracker_win.Prelude.{
  ℕ, suc, ap, sym, ◌∙◌, inl, inr, Bool-cases, ◌+◌, ◌<◌, ◌^◌, ◌≡◌, ◌≢◌, refl, String, Bool, true,
  false, ◌&&◌, Option, none, some, eqb, arith,
}
use claude_usage_tracker_win.Lock.{Json}
use claude_usage_tracker_win.Lock.World.{
  Stage, outside, unclaimed, created, written, seen, judged, moved, differing, clearing, World,
  update, update_thread,
}
use claude_usage_tracker_win.Lock.World.Holder.{
  Holder, free, creating, writing, holding, is_created, is_written, FileOf, NamesEnded, Agrees,
  Printed, lock_content-holder,
}

-- The file that a thread has created and not yet written.
abbrev handle : Stage → Option ℕ
handle outside = none
handle unclaimed = none
handle (created i) = some i
handle written = none
handle (seen text) = none
handle (judged text) = none
handle (moved text) = none
handle differing = none
handle clearing = none

module _ {J F : Type 0} (j : Json J F) where
  NamesEnded-update_thread :
      (alive : ℕ → Bool) (stage : ℕ → ℕ → Stage) (p t : ℕ) (s : Stage)
      → ((r u : ℕ) → NamesEnded j alive (stage r u))
      → NamesEnded j alive s
      → (r u : ℕ) → NamesEnded j alive (update_thread stage p t s r u)
  NamesEnded-update_thread alive stage p t s old new r u = elim (Bool-cases (eqb p r && eqb t u)) [
    | inl here ↦ rw here new
    | inr other ↦ rw other (old r u)
  ]

  pub reenter-Agrees :
      (w : World) (h : Holder) (p t n : ℕ)
      → Agrees j w h
      → w.entry p ≡ some (t, n)
      → n + 1 < 2 ^ 64
      → Agrees j
          (record w {
            entry = update w.entry p (some (t, n + 1));
            guards = update w.guards p (w.guards p + 1);
          })
          (Holder.holding p t (n + 1))
  reenter-Agrees w free p t n a e room = absurd (ground (arith, e, a.entry p))
  reenter-Agrees w (creating q s i) p t n a e room = absurd (ground (arith, e, a.entry p))
  reenter-Agrees w (writing q s) p t n a e room = absurd (ground (arith, e, a.entry p))
  reenter-Agrees w (holding q s m) p t n a e room =
      let here : q ≡ p = ground (arith, a.entry p, e) in
      record {
        entry = λ r. ground (arith, a.entry r, a.entry p, e);
        guards = λ r. ground (arith, a.guards r, a.guards p, a.entry p, e);
        created_at = a.created_at;
        written_at = a.written_at;
        busy_alive = a.busy_alive;
        ended = a.ended;
        file = (rw here at a.file.0, (omega arith, (room, rw here at a.file.1.1.1)));
      }

  restaged :
      (w : World) (h : Holder) (p t : ℕ) (s : Stage) (file : Option ℕ) (aside : ℕ → Option ℕ)
      → Agrees j w h
      → is_created (w.stage p t) ≡ false
      → ((i : ℕ) → h ≢ Holder.free → w.file ≡ some i → file ≡ some i)
      → FileOf j (record w { stage = update_thread w.stage p t s; file = file; aside = aside }) h
  restaged w free p t s file aside a c keep = tt
  restaged w (creating q u i) p t s file aside a c keep =
      let (lives, (at, (named, text))) = a.file in
      (lives, (ground (arith, a.created_at p t, c, at), (keep i (λ e. cc) named, text)))
  restaged w (writing q u) p t s file aside a c keep =
      let (lives, (i, named, holder)) = a.file in (lives, (i, keep i (λ e. cc) named, holder))
  restaged w (holding q u n) p t s file aside a c keep =
      let (lives, (low, (high, (i, named, holder)))) = a.file in
      (lives, (low, (high, (i, keep i (λ e. cc) named, holder))))

  -- A step from one stage to another by a thread that has no file open, in which the file under the
  -- name of the lock file stays, if somebody has it.
  pub restage-Agrees :
      (w : World) (h : Holder) (p t : ℕ) (s : Stage) (file : Option ℕ) (aside : ℕ → Option ℕ)
      → Agrees j w h
      → is_created (w.stage p t) ≡ false
      → is_written (w.stage p t) ≡ false
      → is_created s ≡ false
      → is_written s ≡ false
      → w.alive p ≡ true
      → NamesEnded j w.alive s
      → ((i : ℕ) → h ≢ Holder.free → w.file ≡ some i → file ≡ some i)
      → Agrees j (record w { stage = update_thread w.stage p t s; file = file; aside = aside }) h
  restage-Agrees w h p t s file aside a c0 w0 c1 w1 lives ended keep = record {
    entry = a.entry;
    guards = a.guards;
    created_at = λ r u. ground (arith, a.created_at r u, a.created_at p t, c0, c1);
    written_at = λ r u. ground (arith, a.written_at r u, a.written_at p t, w0, w1);
    busy_alive = λ r u b. ground (arith, a.busy_alive r u, lives, b);
    ended = NamesEnded-update_thread w.alive w.stage p t s a.ended ended;
    file = restaged w h p t s file aside a c0 keep;
  }

  pub create-Agrees :
      (w : World) (h : Holder) (p t : ℕ)
      → Agrees j w h
      → w.stage p t ≡ Stage.unclaimed
      → w.file ≡ none
      → Agrees j
          (record w {
            stage = update_thread w.stage p t (Stage.created w.made);
            file = some w.made;
            text = update w.text w.made "";
            made = suc w.made;
          })
          (Holder.creating p t w.made)
  create-Agrees w free p t a e f = record {
    entry = a.entry;
    guards = a.guards;
    created_at = λ r s. ground (arith, a.created_at r s, e);
    written_at = λ r s. ground (arith, a.written_at r s, e);
    busy_alive = λ r s b. ground (arith, a.busy_alive r s, a.busy_alive p t, e, b);
    ended = NamesEnded-update_thread w.alive w.stage p t (Stage.created w.made) a.ended tt;
    file = (a.busy_alive p t (ground (arith, e)), (ground arith, (refl, ground arith)));
  }
  create-Agrees w (creating q u i) p t a e f = absurd (ground (arith, f, a.file.1.1.0))
  create-Agrees w (writing q u) p t a e f = absurd (ground (arith, f, a.file.1.1))
  create-Agrees w (holding q u n) p t a e f = absurd (ground (arith, f, a.file.1.1.1.1))

  pub write-Agrees :
      (w : World) (h : Holder) (p t i : ℕ) (s : String)
      → Printed j
      → Agrees j w h
      → 0 < p
      → p < 2 ^ 32
      → w.stage p t ≡ Stage.created i
      → Agrees j
          (record w {
            stage = update_thread w.stage p t Stage.written;
            text = update w.text i (j.lock_content p "app" s);
          })
          (Holder.writing p t)
  write-Agrees w free p t i s pr a low high e = absurd (ground (arith, e, a.created_at p t))
  write-Agrees w (creating q u k) p t i s pr a low high e =
      let owner : (q ≡ p) × (u ≡ t) = ground (arith, a.created_at p t, e) in
      let same : some i ≡ some k = ap handle (sym e ∙ rw (owner.0, owner.1) at a.file.1.0) in
      record {
        entry = a.entry;
        guards = a.guards;
        created_at = λ r v. ground (arith, a.created_at r v, a.created_at p t, e);
        written_at = λ r v. ground (arith, a.written_at r v, e);
        busy_alive = λ r v b. ground (arith, a.busy_alive r v, a.busy_alive p t, e, b);
        ended = NamesEnded-update_thread w.alive w.stage p t Stage.written a.ended tt;
        file = (
          a.busy_alive p t (ground (arith, e)),
          let (l, parsed, pid) = lock_content-holder j p s pr low high in
              (i, a.file.1.1.0 ∙ sym same, (l, ground (arith, parsed), pid)),
        );
      }
  write-Agrees w (writing q u) p t i s pr a low high e =
      absurd (ground (arith, e, a.created_at p t))
  write-Agrees w (holding q u n) p t i s pr a low high e =
      absurd (ground (arith, e, a.created_at p t))

  pub leave-Agrees :
      (w : World) (h : Holder) (p t i : ℕ) (part : String)
      → Agrees j w h
      → w.stage p t ≡ Stage.created i
      → Agrees j
          (record w {
            stage = update_thread w.stage p t Stage.outside;
            text = update w.text i part;
          })
          Holder.free
  leave-Agrees w free p t i part a e = absurd (ground (arith, e, a.created_at p t))
  leave-Agrees w (creating q u k) p t i part a e = record {
    entry = a.entry;
    guards = a.guards;
    created_at = λ r v. ground (arith, a.created_at r v, a.created_at p t, e);
    written_at = λ r v. ground (arith, a.written_at r v, e);
    busy_alive = λ r v b. ground (arith, a.busy_alive r v, b);
    ended = NamesEnded-update_thread w.alive w.stage p t Stage.outside a.ended tt;
    file = tt;
  }
  leave-Agrees w (writing q u) p t i part a e = absurd (ground (arith, e, a.created_at p t))
  leave-Agrees w (holding q u n) p t i part a e = absurd (ground (arith, e, a.created_at p t))

  pub register-Agrees :
      (w : World) (h : Holder) (p t : ℕ)
      → Agrees j w h
      → w.stage p t ≡ Stage.written
      → Agrees j
          (record w {
            stage = update_thread w.stage p t Stage.outside;
            entry = update w.entry p (some (t, 1));
            guards = update w.guards p (w.guards p + 1);
          })
          (Holder.holding p t 1)
  register-Agrees w free p t a e = absurd (ground (arith, e, a.written_at p t))
  register-Agrees w (creating q u i) p t a e = absurd (ground (arith, e, a.written_at p t))
  register-Agrees w (writing q u) p t a e = record {
    entry = λ r. ground (arith, a.entry r);
    guards = λ r. ground (arith, a.guards r, a.guards p);
    created_at = λ r v. ground (arith, a.created_at r v, e);
    written_at = λ r v. ground (arith, a.written_at r v, a.written_at p t, e);
    busy_alive = λ r v b. ground (arith, a.busy_alive r v, b);
    ended = NamesEnded-update_thread w.alive w.stage p t Stage.outside a.ended tt;
    file =
        let here : q ≡ p = ground (arith, a.written_at p t, e) in
        (rw here at a.file.0, (omega arith, (omega arith, rw here at a.file.1)));
  }
  register-Agrees w (holding q u n) p t a e = absurd (ground (arith, e, a.written_at p t))

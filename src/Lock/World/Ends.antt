-- ===== src/Lock/World/Ends.antt =====
-- How the lock of src-tauri/src/kernel/board_lock.rs is given up: by its guards, and with its process.
use claude_usage_tracker_win.Prelude.{
  ℕ, suc, ◌<◌, ◌^◌, ◌≡◌, Bool, false, none, eqb, if◌then◌else◌, arith, Bool-cases, inl, inr,
}
use claude_usage_tracker_win.Lock.{Json, release_file, drop_entry}
use claude_usage_tracker_win.Lock.World.{
  Stage, outside, unclaimed, created, written, seen, judged, moved, differing, clearing, World,
  update, no_threads, text_of, kept_name,
}
use claude_usage_tracker_win.Lock.World.Holder.{
  Holder, free, creating, writing, holding, NamesEnded, Agrees,
}

module _ {J F : Type 0} (j : Json J F) where
  pub release-free :
      (w : World) (h : Holder) (p : ℕ)
      → Agrees j w h
      → w.guards p ≡ 1
      → Agrees j
          (record w {
            entry = update w.entry p (drop_entry (w.entry p)).0;
            guards = update w.guards p 0;
            file =
                if (drop_entry (w.entry p)).1
                then kept_name (release_file j p (text_of w.text w.file)) w.file
                else w.file;
          })
          Holder.free
  unfolding drop_entry
  release-free w free p a e = absurd (ground (arith, e, a.guards p))
  release-free w (creating q u i) p a e = absurd (ground (arith, e, a.guards p))
  release-free w (writing q u) p a e = absurd (ground (arith, e, a.guards p))
  release-free w (holding q u n) p a e = record {
    entry = λ r. ground (arith, a.entry r, a.entry p, a.guards p, e);
    guards = λ r. ground (arith, a.guards r, a.guards p, e);
    created_at = a.created_at;
    written_at = a.written_at;
    busy_alive = a.busy_alive;
    ended = a.ended;
    file = tt;
  }

  pub release-held :
      (w : World) (h : Holder) (p g : ℕ)
      → Agrees j w h
      → w.guards p ≡ suc (suc g)
      → (t : ℕ) × Agrees j
          (record w {
            entry = update w.entry p (drop_entry (w.entry p)).0;
            guards = update w.guards p (suc g);
            file =
                if (drop_entry (w.entry p)).1
                then kept_name (release_file j p (text_of w.text w.file)) w.file
                else w.file;
          })
          (Holder.holding p t (suc g))
  unfolding drop_entry
  release-held w free p g a e = absurd (ground (arith, e, a.guards p))
  release-held w (creating q u i) p g a e = absurd (ground (arith, e, a.guards p))
  release-held w (writing q u) p g a e = absurd (ground (arith, e, a.guards p))
  release-held w (holding q u n) p g a e =
      let here : q ≡ p = ground (arith, a.guards p, e) in
      let count : n ≡ suc (suc g) = ground (arith, a.guards p, e) in
      let room : n < 2 ^ 64 = a.file.1.1.0 in
      (
        u,
        record {
          entry = λ r. ground (arith, a.entry r, a.entry p, count, here, room);
          guards = λ r. ground (arith, a.guards r, here);
          created_at = a.created_at;
          written_at = a.written_at;
          busy_alive = a.busy_alive;
          ended = a.ended;
          file = (
            rw here at a.file.0,
            (
              omega arith,
              (
                omega arith,
                let (i, f, (l, k, same)) = a.file.1.1.1 in
                    (
                      i,
                      ground (arith, a.entry p, here, count, room, f),
                      (l, k, ground (arith, same, here)),
                    ),
              ),
            ),
          );
        },
      )

  -- A process that has ended stays so.
  NamesEnded-later :
      (alive : ℕ → Bool) (p : ℕ) (s : Stage)
      → NamesEnded j alive s
      → NamesEnded j (update alive p false) s
  NamesEnded-later alive p outside old = tt
  NamesEnded-later alive p unclaimed old = tt
  NamesEnded-later alive p (created i) old = tt
  NamesEnded-later alive p written old = tt
  NamesEnded-later alive p (seen text) old = tt
  NamesEnded-later alive p (judged text) old = λ h e. ground (arith, old h e)
  NamesEnded-later alive p (moved text) old = tt
  NamesEnded-later alive p differing old = tt
  NamesEnded-later alive p clearing old = tt

  NamesEnded-stop :
      (w : World) (p : ℕ)
      → ((r u : ℕ) → NamesEnded j w.alive (w.stage r u))
      → (r u : ℕ) → NamesEnded j (update w.alive p false) (no_threads w.stage p r u)
  NamesEnded-stop w p old r u = elim (Bool-cases (eqb p r)) [
    | inl here ↦ rw here tt
    | inr other ↦ rw other (NamesEnded-later w.alive p (w.stage r u) (old r u))
  ]

  pub stop-Agrees :
      (w : World) (h : Holder) (p : ℕ)
      → Agrees j w h
      → (h' : Holder) × Agrees j
          (record w {
            entry = update w.entry p none;
            guards = update w.guards p 0;
            stage = no_threads w.stage p;
            alive = update w.alive p false;
          })
          h'
  stop-Agrees w free p a = (
    Holder.free,
    record {
      entry = λ r. ground (arith, a.entry r);
      guards = λ r. ground (arith, a.guards r);
      created_at = λ r v. ground (arith, a.created_at r v);
      written_at = λ r v. ground (arith, a.written_at r v);
      busy_alive = λ r v b. ground (arith, a.busy_alive r v, b);
      ended = NamesEnded-stop w p a.ended;
      file = tt;
    },
  )
  stop-Agrees w (creating q t i) p a = elim (Bool-cases (eqb q p)) [
    | inl same ↦ (
      Holder.free,
      record {
        entry = λ r. ground (arith, a.entry r);
        guards = λ r. ground (arith, a.guards r);
        created_at = λ r v. ground (arith, a.created_at r v, same);
        written_at = λ r v. ground (arith, a.written_at r v);
        busy_alive = λ r v b. ground (arith, a.busy_alive r v, b);
        ended = NamesEnded-stop w p a.ended;
        file = tt;
      },
    )
    | inr other ↦ (
      Holder.creating q t i,
      record {
        entry = λ r. ground (arith, a.entry r);
        guards = λ r. ground (arith, a.guards r);
        created_at = λ r v. ground (arith, a.created_at r v, other);
        written_at = λ r v. ground (arith, a.written_at r v);
        busy_alive = λ r v b. ground (arith, a.busy_alive r v, b);
        ended = NamesEnded-stop w p a.ended;
        file = (ground (arith, a.file.0, other), (ground (arith, a.file.1.0, other), a.file.1.1));
      },
    )
  ]
  stop-Agrees w (writing q t) p a = elim (Bool-cases (eqb q p)) [
    | inl same ↦ (
      Holder.free,
      record {
        entry = λ r. ground (arith, a.entry r);
        guards = λ r. ground (arith, a.guards r);
        created_at = λ r v. ground (arith, a.created_at r v);
        written_at = λ r v. ground (arith, a.written_at r v, same);
        busy_alive = λ r v b. ground (arith, a.busy_alive r v, b);
        ended = NamesEnded-stop w p a.ended;
        file = tt;
      },
    )
    | inr other ↦ (
      Holder.writing q t,
      record {
        entry = λ r. ground (arith, a.entry r);
        guards = λ r. ground (arith, a.guards r);
        created_at = λ r v. ground (arith, a.created_at r v);
        written_at = λ r v. ground (arith, a.written_at r v, other);
        busy_alive = λ r v b. ground (arith, a.busy_alive r v, b);
        ended = NamesEnded-stop w p a.ended;
        file = (ground (arith, a.file.0, other), a.file.1);
      },
    )
  ]
  stop-Agrees w (holding q t n) p a = elim (Bool-cases (eqb q p)) [
    | inl same ↦ (
      Holder.free,
      record {
        entry = λ r. ground (arith, a.entry r, same);
        guards = λ r. ground (arith, a.guards r, same);
        created_at = λ r v. ground (arith, a.created_at r v);
        written_at = λ r v. ground (arith, a.written_at r v);
        busy_alive = λ r v b. ground (arith, a.busy_alive r v, b);
        ended = NamesEnded-stop w p a.ended;
        file = tt;
      },
    )
    | inr other ↦ (
      Holder.holding q t n,
      record {
        entry = λ r. ground (arith, a.entry r, other);
        guards = λ r. ground (arith, a.guards r, other);
        created_at = λ r v. ground (arith, a.created_at r v);
        written_at = λ r v. ground (arith, a.written_at r v);
        busy_alive = λ r v b. ground (arith, a.busy_alive r v, b);
        ended = NamesEnded-stop w p a.ended;
        file = (ground (arith, a.file.0, other), a.file.1);
      },
    )
  ]

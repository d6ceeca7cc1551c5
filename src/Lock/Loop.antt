-- ===== src/Lock/Loop.antt =====
-- The loop of `acquire_impl` in src-tauri/src/kernel/board_lock.rs ends, and for a reason.
use claude_usage_tracker_win.Prelude.{
  ℕ, zero, suc, ◌+◌, ◌≤◌, ◌<◌, ◌≡◌, refl, ◌⊎◌, inl, inr, Option, none, some, ok, err, eqb, leb,
  arith, String, Result, Bool-cases,
}
use claude_usage_tracker_win.Lock.{
  Json, LockError, ReadOutcome, missing, unreadable_file, content, CreateError, already_exists,
  permission_denied, other_error, Seen, Turn, reentered, acquired, failed, again, give_up,
  read_round, create_round, entry_round, round, or_else_loop, acquire_loop, Entry, busy_error,
}

module _ {J F E : Type 0} (j : Json J F) (lock_path : String) (deadline : ℕ) where
  -- What a turn says of what its round has seen.
  abbrev pub Justified : ℕ → Seen E → Turn E → Type 0
  Justified me seen reentered = (count : ℕ) × (seen.entry ≡ some (me, count))
  Justified me seen acquired = (seen.entry ≡ none) × (seen.created ≡ ok tt)
  Justified me seen (failed e) =
      (deadline ≤ seen.now)
      ⊎ ((cause : E) × (seen.created ≡ err (CreateError.other_error cause))
          × (e ≡ LockError.io cause))
  Justified me seen again = seen.now < deadline

  give_up-Justified :
      (me : ℕ) (seen : Seen E) (e : LockError E)
      → Justified me seen (give_up j lock_path deadline seen e)
  unfolding give_up
  give_up-Justified me seen e = elim (Bool-cases (leb deadline seen.now)) [
    | inl h ↦ rw h (inl (ground arith))
    | inr h ↦ rw h (ground arith)
  ]

  read_round-Justified :
      (me : ℕ) (seen : Seen E) (denied : Option E) (r : ReadOutcome)
      → Justified me seen (read_round j lock_path deadline seen denied r)
  unfolding read_round
  read_round-Justified me seen none missing = give_up-Justified me seen (busy_error j lock_path "")
  read_round-Justified me seen (some e) missing = give_up-Justified me seen (LockError.io e)
  read_round-Justified me seen denied unreadable_file =
      give_up-Justified me seen (LockError.unreadable lock_path)
  read_round-Justified me seen denied (content text) =
      give_up-Justified me seen (busy_error j lock_path text)

  create_round-Justified :
      (me : ℕ) (seen : Seen E) (made : Result (CreateError E) (Unit {0}))
      → seen.entry ≡ none
      → seen.created ≡ made
      → Justified me seen (create_round j lock_path deadline seen made)
  unfolding create_round
  create_round-Justified me seen (ok u) h k = (h, k)
  create_round-Justified me seen (err already_exists) h k =
      read_round-Justified me seen none seen.read
  create_round-Justified me seen (err (permission_denied e)) h k =
      read_round-Justified me seen (some e) seen.read
  create_round-Justified me seen (err (other_error e)) h k = inr (e, k, refl)

  entry_round-Justified :
      (me : ℕ) (seen : Seen E) (entry : Entry)
      → seen.entry ≡ entry
      → Justified me seen (entry_round j lock_path deadline me seen entry)
  unfolding entry_round
  entry_round-Justified me seen none h = create_round-Justified me seen seen.created h refl
  entry_round-Justified me seen (some (owner, count)) h = elim (Bool-cases (eqb owner me)) [
    | inl same ↦ rw same (count, ground (arith, h, same))
    | inr other ↦ rw other (give_up-Justified me seen (busy_error j lock_path seen.reread))
  ]

  round-Justified :
      (me : ℕ) (seen : Seen E) → Justified me seen (round j lock_path deadline me seen)
  unfolding round
  round-Justified me seen = entry_round-Justified me seen seen.entry refl

  -- How the loop ended: at the round `at`, which did not have to go on.
  pub record Ended (me : ℕ) (seen : ℕ → Seen E) (last : ℕ) (result : Option (ℕ × Turn E))
      : Type 0 where
    pub at : ℕ
    pub turn : Turn E
    pub returned : result ≡ some (at, turn)
    pub in_time : at ≤ last
    pub same_turn : turn ≡ round j lock_path deadline me (seen at)
    pub justified : Justified me (seen at) turn

  or_else_loop-Ended :
      (me : ℕ) (seen : ℕ → Seen E) (last i : ℕ) (t : Turn E) (rest : Option (ℕ × Turn E))
      → i ≤ last
      → t ≡ round j lock_path deadline me (seen i)
      → Justified me (seen i) t
      → ((seen i).now < deadline → Ended me seen last rest)
      → Ended me seen last (or_else_loop j lock_path deadline i t rest)
  unfolding or_else_loop
  or_else_loop-Ended me seen last i again rest h same just go = go just
  or_else_loop-Ended me seen last i reentered rest h same just go = record {
    at = i;
    turn = Turn.reentered;
    returned = refl;
    in_time = h;
    same_turn = same;
    justified = just;
  }
  or_else_loop-Ended me seen last i acquired rest h same just go = record {
    at = i;
    turn = Turn.acquired;
    returned = refl;
    in_time = h;
    same_turn = same;
    justified = just;
  }
  or_else_loop-Ended me seen last i (failed e) rest h same just go = record {
    at = i;
    turn = Turn.failed e;
    returned = refl;
    in_time = h;
    same_turn = same;
    justified = just;
  }

  acquire_loop-from :
      (me : ℕ) (seen : ℕ → Seen E) (last fuel i : ℕ)
      → last ≡ i + fuel
      → deadline ≤ (seen last).now
      → Ended me seen last (acquire_loop j lock_path deadline (suc fuel) me seen i)
  unfolding acquire_loop
  acquire_loop-from me seen last zero i e h =
      or_else_loop-Ended me seen last i (round j lock_path deadline me (seen i)) none (omega arith)
        refl (round-Justified me (seen i)) (λ early. absurd (ground (arith, e, h, early)))
  acquire_loop-from me seen last (suc fuel) i e h =
      or_else_loop-Ended me seen last i (round j lock_path deadline me (seen i))
        (acquire_loop j lock_path deadline (suc fuel) me seen (suc i)) (omega arith) refl
        (round-Justified me (seen i))
        (λ early. acquire_loop-from me seen last fuel (suc i) (omega arith) h)

-- The loop returns at the latest in the first round that reads the clock past the deadline, and
-- for a reason: as re-entered when the registry names the calling thread, as acquired when no thread of
-- the process has the lock and the file was created, with an error when the deadline has passed or
-- the file could not be created for another cause than its existence or a permission.
pub acquire_loop-Ended :
    {J F E : Type 0} (j : Json J F) (lock_path : String) (deadline me : ℕ) (seen : ℕ → Seen E)
    (last : ℕ)
    → deadline ≤ (seen last).now
    → Ended j lock_path deadline me seen last
        (acquire_loop j lock_path deadline (suc last) me seen 0)
acquire_loop-Ended j lock_path deadline me seen last h =
    acquire_loop-from j lock_path deadline me seen last last 0 (omega arith) h

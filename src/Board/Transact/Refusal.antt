-- ===== src/Board/Transact/Refusal.antt =====
-- What `transact` of src-tauri/src/board/todos.rs hands to the save, and when.
use claude_usage_tracker_win.Prelude.{
  ℕ, String, Bool, ◌≡◌, refl, ◌∙◌, ap, Option, some, Result, ok, Result-cases, arith, inl, inr,
}
use claude_usage_tracker_win.Board.Todo.{TodoFile}
use claude_usage_tracker_win.Board.Transact.{
  LoadOutcome, loaded, missing, unreadable, future_version, Disk, default_file, file_or_refusal,
  load_for_write_versioned, save_and_answer, mutate_and_save, transact_if, always_changed, transact,
}

module _ {V F : Type 0} where
  -- The board that the load gives to a writer: as loaded, or a new one where there is no file.
  pub data Given (o : LoadOutcome V F) (file : TodoFile V F) : Type 0 where
    as_loaded : o ≡ LoadOutcome.loaded file → Given o file
    as_new : o ≡ LoadOutcome.missing → file ≡ default_file → Given o file

  file_or_refusal-Given :
      (path : String) (o : LoadOutcome V F) (file : TodoFile V F)
      → file_or_refusal path o ≡ ok file
      → Given o file
  unfolding file_or_refusal
  file_or_refusal-Given path (loaded f) file h = Given.as_loaded (ground (arith, h))
  file_or_refusal-Given path missing file h = Given.as_new refl (ground (arith, h))
  file_or_refusal-Given path (unreadable reason backup) file h = cc
  file_or_refusal-Given path (future_version v) file h = cc

  load_for_write-Given :
      (path : String) (l : LoadOutcome V F × Option ℕ) (file : TodoFile V F) (stale : Bool)
      → load_for_write_versioned path l ≡ ok (file, stale)
      → Given l.0 file
  unfolding load_for_write_versioned
  load_for_write-Given path l file stale h = elim (Result-cases (file_or_refusal path l.0)) [
    | inl (f, e) ↦ file_or_refusal-Given path l.0 file (ground (arith, e, h))
    | inr (why, e) ↦ absurd (ground (arith, e, h))
  ]

module _ {V F T : Type 0} where
  -- What a file handed to the save has behind it: the lock, a board that the load let through, and
  -- a mutation of that board that succeeded with this file.
  pub record Earned (disk : Disk V F) (mutate : TodoFile V F → Result String (TodoFile V F × T))
      (saved : TodoFile V F) : Type 0 where
    pub before : TodoFile V F
    pub out : T
    pub locked : disk.acquire ≡ ok tt
    pub given : Given disk.load.0 before
    pub mutated : mutate before ≡ ok (saved, out)

  save_and_answer-handed :
      (disk : Disk V F) (file saved : TodoFile V F) (out : T)
      → (save_and_answer disk file out).1 ≡ some saved
      → file ≡ saved
  unfolding save_and_answer
  save_and_answer-handed disk file saved out h = elim (Result-cases (disk.save file)) [
    | inl (done, e) ↦ ground (arith, e, h)
    | inr (why, e) ↦ ground (arith, e, h)
  ]

  mutate_and_save-handed :
      (disk : Disk V F) (mutate : TodoFile V F → Result String (TodoFile V F × T))
      (file saved : TodoFile V F) (stale : Bool)
      → (mutate_and_save disk (λ f. always_changed (mutate f)) file stale).1 ≡ some saved
      → (out : T) × (mutate file ≡ ok (saved, out))
  unfolding mutate_and_save
  mutate_and_save-handed disk mutate file saved stale h = elim (Result-cases (mutate file)) [
    | inl ((file', out), e) ↦ (
      out,
      e
          ∙ ap (λ (f : TodoFile V F). ok (f, out))
              (save_and_answer-handed disk file' saved out (ground (arith, e, h))),
    )
    | inr (why, e) ↦ absurd (ground (arith, e, h))
  ]

  -- `transact` hands a file to the save only under the lock, only when the load gave a board or there
  -- was no file, and then exactly the file that the mutation made of that board: a board that cannot be
  -- read, or is of a newer version, is never written over.
  pub transact-Earned :
      (path : String) (disk : Disk V F) (mutate : TodoFile V F → Result String (TodoFile V F × T))
      (saved : TodoFile V F)
      → (transact path disk mutate).1 ≡ some saved
      → Earned disk mutate saved
  unfolding transact transact_if
  transact-Earned path disk mutate saved h = elim (Result-cases disk.acquire) [
    | inl (held, e) ↦ elim (Result-cases (load_for_write_versioned path disk.load)) [
      | inl ((file, stale), l) ↦
          let (out, m) =
            mutate_and_save-handed disk mutate file saved stale (ground (arith, e, l, h)) in
          record {
            before = file;
            out = out;
            locked = e;
            given = load_for_write-Given path disk.load file stale l;
            mutated = m;
          }
      | inr (why, l) ↦ absurd (ground (arith, e, l, h))
    ]
    | inr (why, e) ↦ absurd (ground (arith, e, h))
  ]

-- ===== src/Board/Import/Fresh.antt =====
-- The numbers that `merge_import` of src-tauri/src/board/todos.rs gives are new to the board.
use mathlib.Core.Path.{subst}
use claude_usage_tracker_win.Prelude.{
  ℕ, suc, ◌+◌, ◌<◌, ◌≤◌, ◌≢◌, ◌^◌, String, ◌≡◌, refl, ◌∙◌, ap, sym, inl, inr, true, false, Bool,
  ◌||◌, List, [], ◌∷◌, ◌++◌, map, arith, Result-cases, get, Option-cases, Dict, update_first,
  if◌then◌else◌, eqb, length,
}
use claude_usage_tracker_win.Board.Todo.{Todo, TodoFile}
use claude_usage_tracker_win.Board.Edit.{has_id, max_of, max_number}
use claude_usage_tracker_win.Board.Deps.{add_dep, push_dep}
use claude_usage_tracker_win.Board.Deps.Acyclic.{add_dep_accepts_iff}
use claude_usage_tracker_win.Board.Numbers.Assign.{listed, Distinct}
use claude_usage_tracker_win.Board.Refs.{Unicode, positive_numbers}
use claude_usage_tracker_win.Board.Import.{
  Planned, Resolving, ImportReport, materialize, report_one, materialize_all, replay_one, replay,
  originals, restore_row, resolve_import, materialize_import, replay_import, merge_import,
  default_report, start, sorted, same_version, skip_unchanged, plan_one, after_plan, resolve,
}
use claude_usage_tracker_win.Board.Import.Counts.{length-sorted}
use claude_usage_tracker_win.Board.Import.Sorted.{Ascending, Ascending-sorted}

module _ {V F : Type 0} where
  abbrev finals : List (Planned V F) → List ℕ
  finals ps = map (λ p. p.final_number) ps

module _ {V F : Type 0} (new_id : ℕ → String) (locals : List (Todo V F)) where
  -- No number taken is both at or above the counter and above the rows dealt with.
  abbrev Below : Resolving → ℕ → Type 0
  Below st low = (n : ℕ) → st.next_number ≤ n → low ≤ n → listed n st.taken_numbers ≡ false

  abbrev bound_after : Todo V F → ℕ
  bound_after t = if eqb t.number 0 then 0 else suc t.number

  plan_one-new :
      (st : Resolving) (low : ℕ) (t : Todo V F)
      → low ≤ t.number
      → Below st low
      → listed (plan_one new_id locals st t).final_number st.taken_numbers ≡ false
  unfolding plan_one
  plan_one-new st low t h below = ground (arith, below t.number, below st.next_number, h)

  plan_one-positive :
      (st : Resolving) (t : Todo V F)
      → st.next_number ≢ 0
      → (plan_one new_id locals st t).final_number ≢ 0
  unfolding plan_one
  plan_one-positive st t h = ground (arith, h)

  after_plan-Below :
      (st : Resolving) (low : ℕ) (t : Todo V F)
      → low ≤ t.number
      → st.next_number + 1 < 2 ^ 32
      → Below st low
      → Below (after_plan locals st (plan_one new_id locals st t)) (bound_after t)
  unfolding plan_one after_plan
  after_plan-Below st low t h room below n above high =
      ground (arith, below n, below t.number, h, room, above, high)

  -- The counter moves by at most one.
  after_plan-next :
      (st : Resolving) (t : Todo V F)
      → st.next_number + 1 < 2 ^ 32
      → let next = (after_plan locals st (plan_one new_id locals st t)).next_number in
        (st.next_number ≤ next) × (next ≤ st.next_number + 1)
  unfolding plan_one after_plan
  after_plan-next st t room = (ground arith, ground arith)

  -- Numbers given are not taken, not 0, and distinct.
  pub record New (taken given : List ℕ) : Type 0 where
    pub apart : (n : ℕ) → listed n taken ≡ true → listed n given ≡ false
    pub distinct : Distinct given
    pub positive : listed 0 given ≡ false

  New-cons :
      (n : ℕ) (taken given : List ℕ)
      → listed n taken ≡ false
      → n ≢ 0
      → New (n ∷ taken) given
      → New taken (n ∷ given)
  New-cons n taken given h pos new = record {
    apart = λ k there. ground (arith, new.apart k, there, h);
    distinct = (new.apart n (ground arith), new.distinct);
    positive = ground (arith, new.positive, pos);
  }

  resolve-New :
      (st : Resolving) (low : ℕ) (ts : List (Todo V F))
      → Ascending low ts
      → Below st low
      → st.next_number ≢ 0
      → st.next_number + length ts < 2 ^ 32
      → New st.taken_numbers (finals (resolve new_id locals st ts).1)
  unfolding resolve after_plan skip_unchanged
  resolve-New st low [] asc below pos room = record {
    apart = λ n h. refl;
    distinct = tt;
    positive = refl;
  }
  resolve-New st low (t ∷ ts) asc below pos room = elim (Option-cases (same_version locals t)) [
    | inl e ↦
        let p = plan_one new_id locals st t in
        let st' = after_plan locals st p in
        rw (e, resolve)
          (New-cons p.final_number st.taken_numbers (finals (resolve new_id locals st' ts).1)
            (plan_one-new st low t asc.0 below) (plan_one-positive st t pos)
            (resolve-New st' (bound_after t) ts asc.1
              (after_plan-Below st low t asc.0 (omega arith) below)
              (ground (arith, pos, after_plan-next st t (omega arith)))
              (omega (arith, after_plan-next st t (omega arith)))))
    | inr (existing, e) ↦
        rw (e, resolve)
          (resolve-New (skip_unchanged st t existing) (bound_after t) ts asc.1
            (λ n above high. below n above (ground (arith, asc.0, high))) pos (omega arith))
  ]

listed-append : (n : ℕ) (xs ys : List ℕ) → listed n (xs ++ ys) ≡ listed n xs || listed n ys
listed-append n [] ys = refl
listed-append n (x ∷ xs) ys = ground (arith, listed-append n xs ys)

Distinct-append :
    (xs ys : List ℕ)
    → Distinct xs
    → Distinct ys
    → ((n : ℕ) → listed n xs ≡ true → listed n ys ≡ false)
    → Distinct (xs ++ ys)
Distinct-append [] ys d e apart = e
Distinct-append (x ∷ xs) ys d e apart = (
  ground (arith, listed-append x xs ys, d.0, apart x),
  Distinct-append xs ys d.1 e (λ n h. apart n (ground arith)),
)

module _ {V F : Type 0} where
  positive_numbers-append :
      (ts us : List (Todo V F))
      → positive_numbers (ts ++ us) ≡ positive_numbers ts ++ positive_numbers us
  unfolding positive_numbers
  positive_numbers-append [] us = refl
  positive_numbers-append (t ∷ ts) us = ground (arith, positive_numbers-append ts us)

  positive_numbers-update_first :
      (p : Todo V F → Bool) (f : Todo V F → Todo V F) (ts : List (Todo V F))
      → ((t : Todo V F) → (f t).number ≡ t.number)
      → positive_numbers (update_first p f ts) ≡ positive_numbers ts
  unfolding positive_numbers
  positive_numbers-update_first p f [] h = refl
  positive_numbers-update_first p f (t ∷ ts) h =
      ground (arith, h t, positive_numbers-update_first p f ts h)

  push_dep-number : (on_id now : String) (t : Todo V F) → (push_dep on_id now t).number ≡ t.number
  push_dep-number on_id now t = ground arith

  positive_numbers-replay_one :
      (file : TodoFile V F) (from_id : String) (wanted : List String) (now : String)
      → positive_numbers (replay_one file from_id wanted now).0.todos ≡ positive_numbers file.todos
  unfolding replay_one
  positive_numbers-replay_one file from_id [] now = refl
  positive_numbers-replay_one file from_id (on_id ∷ wanted) now =
      elim (Result-cases (add_dep file from_id on_id now)) [
        | inl (file', e) ↦
            let (a, same) = (add_dep_accepts_iff file file' from_id on_id now).0 e in
            rw (e, replay_one)
              (positive_numbers-replay_one file' from_id wanted now
                ∙ ap (λ f. positive_numbers f.todos) same
                ∙ positive_numbers-update_first (has_id from_id) (push_dep on_id now) file.todos
                    (push_dep-number on_id now))
        | inr (why, e) ↦ rw (e, replay_one) (positive_numbers-replay_one file from_id wanted now)
      ]

  positive_numbers-replay :
      (file : TodoFile V F) (deferred : List (String × List String)) (now : String)
      → positive_numbers (replay file deferred now).0.todos ≡ positive_numbers file.todos
  unfolding replay
  positive_numbers-replay file [] now = refl
  positive_numbers-replay file ((from_id, wanted) ∷ deferred) now =
      positive_numbers-replay (replay_one file from_id wanted now).0 deferred now
      ∙ positive_numbers-replay_one file from_id wanted now

  restore_row-number :
      (original : Dict String) (t : Todo V F) → (restore_row original t).number ≡ t.number
  unfolding restore_row
  restore_row-number original t = elim (Option-cases (get original t.id)) [
    | inl e ↦ ground (arith, e)
    | inr (at, e) ↦ ground (arith, e)
  ]

  positive_numbers-restore :
      (original : Dict String) (ts : List (Todo V F))
      → positive_numbers (map (restore_row original) ts) ≡ positive_numbers ts
  unfolding positive_numbers
  positive_numbers-restore original [] = refl
  positive_numbers-restore original (t ∷ ts) =
      ground (arith, restore_row-number original t, positive_numbers-restore original ts)

  materialize-number :
      (u : Unicode) (st : Resolving) (ids locals : List String) (now : String) (p : Planned V F)
      → (materialize u st ids locals now p).row.number ≡ p.final_number
  unfolding materialize
  materialize-number u st ids locals now p = refl

  positive_numbers-materialize_all :
      (u : Unicode) (st : Resolving) (ids locals : List String) (now : String) (r : ImportReport)
      (ps : List (Planned V F))
      → listed 0 (finals ps) ≡ false
      → positive_numbers (materialize_all u st ids locals now r ps).0 ≡ finals ps
  unfolding materialize_all positive_numbers
  positive_numbers-materialize_all u st ids locals now r [] h = refl
  positive_numbers-materialize_all u st ids locals now r (p ∷ ps) h =
      let m = materialize u st ids locals now p in
      ground (
        arith,
        materialize-number u st ids locals now p,
        positive_numbers-materialize_all u st ids locals now (report_one r p m) ps,
        h,
      )

  listed-max_of :
      (n : ℕ) (ts : List (Todo V F)) → max_of ts < n → listed n (positive_numbers ts) ≡ false
  unfolding max_of positive_numbers
  listed-max_of n [] h = refl
  listed-max_of n (t ∷ ts) h = ground (arith, listed-max_of n ts)

-- Where the `u32` counter does not wrap, and neither the local board nor the file has a number
-- twice, rows without one left aside: the merged board has none twice either.
pub merge_import-Distinct :
    {V F : Type 0} (u : Unicode) (new_id : ℕ → String) (file incoming : TodoFile V F) (now : String)
    → Distinct (positive_numbers file.todos)
    → Distinct (positive_numbers incoming.todos)
    → max_number file + length incoming.todos + 1 < 2 ^ 32
    → Distinct (positive_numbers (merge_import u new_id file incoming now).0.todos)
unfolding merge_import replay_import materialize_import resolve_import max_number
merge_import-Distinct u new_id file incoming now d d' room =
    let r = resolve_import u new_id file incoming in
    let report = record default_report { unchanged = r.0.unchanged } in
    let ids = map (λ p. p.final_id) r.1 in
    let locals = map (λ t. t.id) file.todos in
    let m = materialize_import u new_id file incoming now in
    let appended = record file { todos = file.todos ++ m.0 } in
    let new =
      resolve-New new_id file.todos (start file) 0 (sorted incoming.todos)
        (Ascending-sorted incoming.todos d')
        (λ n above low. listed-max_of n file.todos (omega arith)) (ground arith)
        (omega (arith, length-sorted incoming.todos)) in
    let same =
      positive_numbers-restore (originals r.0.id_map [] incoming.todos)
        (replay appended m.1 now).0.todos
      ∙ positive_numbers-replay appended m.1 now
      ∙ positive_numbers-append file.todos m.0
      ∙ ap (λ (ns : List ℕ). positive_numbers file.todos ++ ns)
          (positive_numbers-materialize_all u r.0 ids locals now report r.1 new.positive) in
    subst Distinct (sym same)
      (Distinct-append (positive_numbers file.todos) (finals r.1) d new.distinct new.apart)

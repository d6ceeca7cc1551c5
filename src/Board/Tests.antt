-- ===== src/Board/Tests.antt =====
-- The theorems of the board at concrete rows, with a small type of JSON values.
use mathlib.Core.Path.{subst}
use claude_usage_tracker_win.Prelude.{
  ℕ, suc, ◌+◌, ◌<◌, ◌≤◌, String, ◌≡◌, ◌≢◌, ◌↔◌, refl, ap, sym, ◌∙◌, zero, true, false, Option, some,
  none, List, [], ◌∷◌, get_elem?, str_lt, arith, Dict, get, ok, if◌then◌else◌, ◌==◌,
}
use claude_usage_tracker_win.Board.Todo.{Todo, TodoFile, Comment}
use claude_usage_tracker_win.Board.Samples.{sample_row}
use claude_usage_tracker_win.Board.Edit.{Json, upsert, delete, set_status, find_todo, max_number}
use claude_usage_tracker_win.Board.Edit.Rows.{find_todo-delete, find_todo-set_status}
use claude_usage_tracker_win.Board.Edit.History.Ext.{KeysDistinct}
use claude_usage_tracker_win.Board.Edit.Upserts.{WrittenRow, upsert-WrittenRow}
use claude_usage_tracker_win.Board.Edit.Carried.{Carried, upsert-Carried}
use claude_usage_tracker_win.Board.Deps.{
  dep_reaches, add_dep, visit, deps_of, total_deps, push_all, board_of,
}
use claude_usage_tracker_win.Board.Deps.Search.{Reaches, dep_reaches_iff}
use claude_usage_tracker_win.Board.Deps.Edges.{Acyclic}
use claude_usage_tracker_win.Board.Deps.Acyclic.{
  Accepted, with_dep, add_dep-Acyclic, Edit, Edits, Edits-Acyclic,
}
use claude_usage_tracker_win.Board.Deps.Added.{EdgeAdded, add_dep-EdgeAdded}
use claude_usage_tracker_win.Board.Numbers.{
  ensure_numbers, unnumbered, fill, assign, set_number, sort_indices, insert_index, older,
}
use claude_usage_tracker_win.Board.Numbers.Laws.{
  HasRoom, NumbersDistinct, wanting, ensure_numbers_fills, ensure_numbers-NumbersDistinct,
}

mutual
  data Value : Type 0 where
    num : ℕ → Value
    obj : Fields → Value

  data Fields : Type 0 where
    end : Fields
    field : String → Value → Fields → Fields

to_dict : Fields → Dict Value
to_dict end = []
to_dict (field k v fs) = (k, v) ∷ to_dict fs

of_dict : Dict Value → Fields
of_dict [] = end
of_dict ((k, v) ∷ d) = field k v (of_dict d)

to_dict-of_dict : (d : Dict Value) → to_dict (of_dict d) ≡ d
unfolding to_dict of_dict
to_dict-of_dict [] = refl
to_dict-of_dict ((k, v) ∷ d) = ap (λ (r : Dict Value). (k, v) ∷ r) (to_dict-of_dict d)

as_object : Value → Option (Dict Value)
as_object (num n) = none
as_object (obj fs) = some (to_dict fs)

abbrev json : Json Value
json = record { as_object = as_object; object = λ d. obj (of_dict d) }

abbrev row : String → ℕ → String → List String → Todo Value ℕ
row = sample_row

abbrev board_with : List (Todo Value ℕ) → TodoFile Value ℕ
board_with rows = record { version = 3; todos = rows; changes = [] }

abbrev board : TodoFile Value ℕ
board = board_with (row "a" 4 "t1" ("b" ∷ []) ∷ row "b" 0 "t3" [] ∷ row "c" 0 "t2" [] ∷ [])

abbrev flat : TodoFile Value ℕ
flat = board_with (row "a" 1 "t1" [] ∷ row "b" 2 "t2" [] ∷ [])

reaches_direct : dep_reaches board "a" "b" ≡ true
unfolding dep_reaches visit total_deps push_all deps_of
reaches_direct = refl

reaches_not_back : dep_reaches board "b" "a" ≡ false
unfolding dep_reaches visit total_deps push_all deps_of
reaches_not_back = refl

-- The number of the row at an index.
abbrev number_at : TodoFile Value ℕ → ℕ → Option ℕ
number_at file i = elim (get_elem? file.todos i) [ none ↦ none | some t ↦ some t.number ]

oldest_first :
    (number_at (ensure_numbers board).0 1 ≡ some 6)
    × (number_at (ensure_numbers board).0 2 ≡ some 5)
unfolding ensure_numbers fill unnumbered assign set_number sort_indices insert_index older
    max_number str_lt
oldest_first = (refl, refl)

dep_reaches_iff_example : (dep_reaches board "a" "b" ≡ true) ↔ Reaches board.todos "a" "b"
dep_reaches_iff_example = dep_reaches_iff board "a" "b"

add_dep-EdgeAdded_example :
    (add_dep flat "a" "b" "t5" ≡ ok (with_dep flat "a" "b" "t5"))
    ↔ (Accepted flat "a" "b" × EdgeAdded "a" "b" "t5" flat (with_dep flat "a" "b" "t5"))
add_dep-EdgeAdded_example = add_dep-EdgeAdded "a" "b" "t5" flat (with_dep flat "a" "b" "t5")

flat_has_no_edge : (a : String) → deps_of flat.todos a ≡ []
unfolding deps_of
flat_has_no_edge a = ground arith

flat-Acyclic : Acyclic flat.todos
flat-Acyclic a b e r = cc (e, flat_has_no_edge a)

adds : add_dep flat "a" "b" "t5" ≡ ok (with_dep flat "a" "b" "t5")
unfolding add_dep find_todo board_of dep_reaches visit total_deps push_all deps_of
adds = refl

add_dep-Acyclic_example : Acyclic (with_dep flat "a" "b" "t5").todos
add_dep-Acyclic_example =
    add_dep-Acyclic flat (with_dep flat "a" "b" "t5") "a" "b" "t5" flat-Acyclic adds

abbrev two_edits : Edits flat (delete (with_dep flat "a" "b" "t5") "a")
two_edits =
    Edits.more (Edits.more Edits.none_yet (Edit.dep_added "a" "b" "t5" adds))
      (Edit.deleted "a" refl)

Edits-Acyclic_example : Acyclic (delete (with_dep flat "a" "b" "t5") "a").todos
Edits-Acyclic_example =
    Edits-Acyclic flat (delete (with_dep flat "a" "b" "t5") "a") two_edits flat-Acyclic

board-HasRoom : HasRoom board
unfolding max_number unnumbered
board-HasRoom = omega arith

ensure_numbers_fills_example :
    (n : ℕ) × (get_elem? (ensure_numbers board).0.todos 1 ≡ some (row "b" n "t3" []))
    × ((◌≢◌ {A = ℕ} 0 0 → n ≡ 0)
        × (◌≡◌ {A = ℕ} 0 0 → (max_number board < n) × (n ≤ max_number board + wanting board)))
ensure_numbers_fills_example = ensure_numbers_fills board 1 (row "b" 0 "t3" []) board-HasRoom refl

numbers_at : (i : ℕ) (t : Todo Value ℕ) → get_elem? board.todos i ≡ some t → t.number ≢ 0 → i ≡ 0
numbers_at zero t h pos = refl
numbers_at (suc zero) t h pos = ground arith
numbers_at (suc (suc zero)) t h pos = ground arith
numbers_at (suc (suc (suc i))) t h pos = cc

board-NumbersDistinct : NumbersDistinct board.todos
board-NumbersDistinct i j t u hi hj e pos =
    numbers_at i t hi pos ∙ sym (numbers_at j u hj (λ z. pos (e ∙ z)))

ensure_numbers-NumbersDistinct_example : NumbersDistinct (ensure_numbers board).0.todos
ensure_numbers-NumbersDistinct_example =
    ensure_numbers-NumbersDistinct board board-HasRoom board-NumbersDistinct

-- An upsert over the row "b", which keeps its number.
upsert-WrittenRow_example :
    (r : Todo Value ℕ) × WrittenRow
      (some (row "b" 2 "t2" []))
      flat.todos
      (row "b" 0 "t9" [])
      "t10"
      r
    × ((id : String)
        → find_todo (upsert json flat (row "b" 0 "t9" []) "t10") id
          ≡ (if id == "b" then some r else find_todo flat id))
unfolding find_todo
upsert-WrittenRow_example = upsert-WrittenRow json flat (row "b" 0 "t9" []) "t10"

find_todo-delete_example : find_todo (delete flat "a") "b" ≡ find_todo flat "b"
find_todo-delete_example = find_todo-delete flat "a" "b"

find_todo-set_status_example :
    (find_todo (set_status flat "a" "done" "t5").0 "b" ≡ find_todo flat "b")
    × ((set_status flat "a" "done" "t5").1 ≡ true)
find_todo-set_status_example = find_todo-set_status flat "a" "done" "t5" "b"

abbrev noted : Todo Value ℕ
noted = let r = row "a" 1 "t1" [] in record r { handoff = "left off here"; handoff_at = some "t2" }

abbrev checked : Todo Value ℕ
checked =
    let r = row "a" 1 "t1" [] in
    record r { outcome = "ok"; outcome_reason = "ok"; outcome_at = "t2" }

abbrev remark : Comment
remark = record { id = "k1"; author = "user"; body = "hello"; created_at = "t3" }

abbrev stored : Dict Value
stored = ("runs", num 1) ∷ ("cap", num 9) ∷ []

abbrev fresh : Dict Value
fresh = ("runs", num 2) ∷ []

abbrev with_ext : Dict Value → Todo Value ℕ
with_ext d = let r = row "a" 1 "t1" [] in record r { ext = ("process", obj (of_dict d)) ∷ [] }

of_one_key :
    (v : Value) (b : Dict Value)
    → get (with_ext fresh).ext "process" ≡ some v
    → as_object v ≡ some b
    → KeysDistinct b
unfolding get as_object to_dict of_dict
of_one_key v b here object =
    let same : fresh ≡ b = ground arith in
    subst (λ (d : Dict Value). KeysDistinct d) same (refl, tt)

upsert-Carried_example :
    (r : Todo Value ℕ) × (find_todo
        (upsert json (board_with (with_ext stored ∷ [])) (with_ext fresh) "t10")
        "a"
      ≡ some r)
    × Carried json (some (obj (of_dict stored))) (some (obj (of_dict fresh))) (get r.ext "process")
    × (get r.ext "other" ≡ none)
unfolding get as_object
upsert-Carried_example =
    upsert-Carried json (board_with (with_ext stored ∷ [])) (with_ext stored) (with_ext fresh) "t10"
      "other" (λ d. ap some (to_dict-of_dict d)) (refl, tt) of_one_key refl
      (unfold find_todo in refl)

abbrev of_change : String → Todo Value ℕ → Todo Value ℕ
of_change c t = record t { change_id = some c }

abbrev grouped : TodoFile Value ℕ
grouped = board_with (
    of_change "c1" (row "a" 2 "t1" [])
    ∷ row "b" 3 "t1" []
    ∷ of_change "c1" (row "c" 1 "t1" [])
    ∷ [])

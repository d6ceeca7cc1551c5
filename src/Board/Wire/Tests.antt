-- ===== src/Board/Wire/Tests.antt =====
-- The theorems on the form of the board file at a concrete row, with natural numbers.
use claude_usage_tracker_win.Prelude.{
  ℕ, ◌≡◌, refl, true, false, none, some, get_elem?, [], ◌∷◌, Dict, get, insert,
}
use claude_usage_tracker_win.Prelude.Json.{Value, nil, cons, empty, member, of_members}
use claude_usage_tracker_win.Board.Todo.{Todo, TodoFile}
use claude_usage_tracker_win.Board.Samples.{sample_row}
use claude_usage_tracker_win.Board.Wire.{
  move_in, in_array, Wire, Issue, has_process_and_legacy, contains_key, move_process_fields, moved,
  v3_wire_value, detect_issue, todo_process_fields, object_or_empty,
}
use claude_usage_tracker_win.Board.Wire.Moved.{field_of, moved-field_of}
use claude_usage_tracker_win.Board.Wire.Written.{IsBoard, detect_issue-v3_wire_value}
use claude_usage_tracker_win.Board.Wire.Hydrate.{hydrate_v3_process_fields}
use claude_usage_tracker_win.Board.Wire.Hydrated.{
  HydratedRow, hydrate_v3_process_fields-HydratedRow,
}

-- A row with a field of its own and one of another program.
abbrev fields_of_row : Dict (Value ℕ)
fields_of_row =
    ("id", Value.string "a")
    ∷ ("verify", Value.string "run it")
    ∷ (
      "ext",
      Value.object (member "process" (Value.object (member "later" (Value.number 1) empty)) empty),
    )
    ∷ []

abbrev board : Dict (Value ℕ)
board = ("todos", Value.array (cons (Value.object (of_members fields_of_row)) nil)) ∷ []

-- Every text is read as the board as it is written.
abbrev wire : Wire ℕ ℕ
wire = record {
  from_str = λ raw. some (
      Value.object (
        of_members (
          insert
            ((
              "todos",
              Value.array (
                  cons
                    (move_process_fields todo_process_fields
                      (Value.object (of_members fields_of_row)))
                    nil),
            )
              ∷ [])
            "version" (Value.number 3))));
  as_u64 = λ n. some n;
  as_f64 = λ n. none;
  is_finite = λ f. true;
  is_whole = λ f. true;
  is_nonnegative = λ f. true;
  is_huge = λ f. false;
  to_u64 = λ f. f;
  from_u32 = λ n. n;
}

board-IsBoard : IsBoard wire board
unfolding get
board-IsBoard = record {
  todos = cons (Value.object (of_members fields_of_row)) nil;
  has_todos = refl;
  rows = refl;
  changes = refl;
}

printed : wire.from_str "the board" ≡ some (Value.object (of_members (v3_wire_value wire board)))
unfolding v3_wire_value move_in in_array insert get
printed = refl

detect_issue-v3_wire_value_example :
    detect_issue wire "the board"
    ≡ Issue.fine (Value.object (of_members (v3_wire_value wire board)))
detect_issue-v3_wire_value_example =
    detect_issue-v3_wire_value wire board "the board" board-IsBoard printed refl

fields_of_row-unmixed :
    has_process_and_legacy (Value.object (of_members fields_of_row)) todo_process_fields ≡ false
unfolding has_process_and_legacy contains_key get
fields_of_row-unmixed = refl

moved-field_of_example :
    field_of (moved todo_process_fields fields_of_row) "verify" ≡ field_of fields_of_row "verify"
moved-field_of_example =
    moved-field_of todo_process_fields fields_of_row "verify" refl fields_of_row-unmixed refl

abbrev process : Dict (Value ℕ)
process = ("verify", Value.string "run it") ∷ ("later", Value.number 1) ∷ []

abbrev row : Todo (Value ℕ) ℕ
row =
    let r = sample_row {V = Value ℕ} "a" 1 "t1" [] in
    record r {
      ext = ("process", Value.object (of_members process)) ∷ ("other", Value.number 2) ∷ [];
    }

abbrev loaded : TodoFile (Value ℕ) ℕ
loaded = record { version = 3; todos = row ∷ []; changes = [] }

hydrate_v3_process_fields-HydratedRow_example :
    (r : Todo (Value ℕ) ℕ) × (get_elem? (hydrate_v3_process_fields wire loaded).todos 0 ≡ some r)
    × HydratedRow wire process row r
    × (get (object_or_empty (get r.ext "process")) "later" ≡ get process "later")
    × (get r.ext "other" ≡ get row.ext "other")
unfolding get
hydrate_v3_process_fields-HydratedRow_example =
    hydrate_v3_process_fields-HydratedRow wire loaded 0 row (of_members process) "later" "other"
      refl refl refl

-- ===== src/Board/Import/Tests.antt =====
-- The theorems of the import at a concrete board and file.
use claude_usage_tracker_win.Prelude.{
  ℕ, String, ◌≡◌, refl, ◌+◌, ◌<◌, ◌^◌, inl, false, List, [], ◌∷◌, arith,
}
use claude_usage_tracker_win.Board.Todo.{Todo, TodoFile}
use claude_usage_tracker_win.Board.Samples.{sample_row}
use claude_usage_tracker_win.Board.Edit.{max_number}
use claude_usage_tracker_win.Board.Deps.{deps_of}
use claude_usage_tracker_win.Board.Deps.Edges.{Acyclic}
use claude_usage_tracker_win.Board.Numbers.Assign.{Distinct}
use claude_usage_tracker_win.Board.Refs.{Unicode, positive_numbers}
use claude_usage_tracker_win.Board.Import.{merge_import}
use claude_usage_tracker_win.Board.Import.Acyclic.{merge_import-Acyclic}
use claude_usage_tracker_win.Board.Import.Local.{Extends}
use claude_usage_tracker_win.Board.Import.Stamps.{merge_import-Extends}
use claude_usage_tracker_win.Board.Import.Fresh.{merge_import-Distinct}
use claude_usage_tracker_win.Board.Import.Idempotent.{merge_import-again}

abbrev no_letters : Unicode
no_letters = record { is_alphanumeric = λ c. false; to_lowercase = λ cs. cs }

abbrev drawn : ℕ → String
drawn k = "fresh"

abbrev dated : String → ℕ → List String → Todo ℕ ℕ
dated id number deps =
    let r = sample_row {V = ℕ} id number "t1" deps in record r { updated_at = "t2" }

abbrev file_of : List (Todo ℕ ℕ) → TodoFile ℕ ℕ
file_of rows = record { version = 3; todos = rows; changes = [] }

-- A board of two tasks, and a file of two others whose numbers it has.
abbrev local_board : TodoFile ℕ ℕ
local_board = file_of (dated "a" 1 [] ∷ dated "b" 2 [] ∷ [])

abbrev from_file : TodoFile ℕ ℕ
from_file = file_of (dated "c" 1 ("d" ∷ []) ∷ dated "d" 2 [] ∷ [])

local_board-no_deps : (a : String) → deps_of local_board.todos a ≡ []
unfolding deps_of
local_board-no_deps a = ground arith

local_board-Acyclic : Acyclic local_board.todos
local_board-Acyclic a b e r = cc (e, local_board-no_deps a)

abbrev merged : TodoFile ℕ ℕ
merged = (merge_import no_letters drawn local_board from_file "t9").0

merge_import-Acyclic_example :
    Acyclic (merge_import no_letters drawn local_board from_file "t9").0.todos
merge_import-Acyclic_example =
    merge_import-Acyclic no_letters drawn local_board from_file "t9" local_board-Acyclic

merge_import-Extends_example :
    Extends local_board.todos (merge_import no_letters drawn local_board from_file "t9").0.todos
merge_import-Extends_example =
    merge_import-Extends no_letters drawn local_board from_file "t9" (λ k. refl) (refl, (refl, tt))
      (refl, (refl, tt))

local_board-Distinct : Distinct (positive_numbers local_board.todos)
unfolding positive_numbers
local_board-Distinct = (refl, (refl, tt))

from_file-Distinct : Distinct (positive_numbers from_file.todos)
unfolding positive_numbers
from_file-Distinct = (refl, (refl, tt))

local_board-room : max_number local_board + 2 + 1 < 2 ^ 32
unfolding max_number
local_board-room = omega arith

merge_import-Distinct_example :
    Distinct (positive_numbers (merge_import no_letters drawn local_board from_file "t9").0.todos)
merge_import-Distinct_example =
    merge_import-Distinct no_letters drawn local_board from_file "t9" local_board-Distinct
      from_file-Distinct local_board-room

merge_import-again_example :
    let once = (merge_import no_letters drawn local_board from_file "t9").0 in
    let (twice, report) = merge_import no_letters drawn once from_file "t10" in
    (twice.todos ≡ once.todos) × (report.unchanged ≡ 2)
merge_import-again_example =
    merge_import-again no_letters drawn drawn local_board from_file "t9" "t10" (refl, (refl, tt))
      (refl, (refl, tt)) (inl refl, (inl refl, tt))

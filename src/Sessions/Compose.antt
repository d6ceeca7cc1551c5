-- ===== src/Sessions/Compose.antt =====
-- `compose` of src-tauri/src/board/task_sessions.rs: the blocks joined with the board and with their
-- sums (`BlockTotals` of src-tauri/src/contracts/analytics_read.rs). `F` stands for `f64`.
mod Tests
use claude_usage_tracker_win.Prelude.{
  u32, ℕ, zero, suc, ◌+◌, ◌<◌, ◌^◌, ℤ, String, ◌≡◌, refl, ◌∙◌, inl, inr, Bool-cases, Bool, true,
  false, Option, none, some, List, [], ◌∷◌, if◌then◌else◌, find, get_elem?, length, arith,
}
use claude_usage_tracker_win.Board.Todo.{Todo, TodoFile}
use claude_usage_tracker_win.Board.Edit.{has_id, find_todo}
use claude_usage_tracker_win.Board.Deps.{unwrap_or}
use claude_usage_tracker_win.Sessions.{TaskBlock}

pub record BlockTotals (F : Type 0) : Type 0 where
  pub cost : F
  pub total_tokens : ℤ  -- i64
  pub messages : ℤ  -- i64
  pub tool_calls : ℤ  -- i64
  pub tool_errors : ℤ  -- i64

pub record TaskBlockRow (F : Type 0) : Type 0 where
  pub task : String
  pub number : ℕ  -- u32
  pub subject : String
  pub session : String
  pub from : String
  pub to : String
  pub explicit : Bool
  pub source : String
  pub project : Option String
  pub cost : F
  pub total_tokens : ℤ  -- i64
  pub messages : ℤ  -- i64
  pub tool_calls : ℤ  -- i64
  pub tool_errors : ℤ  -- i64

pub record TaskBlocks (F : Type 0) : Type 0 where
  pub blocks : List (TaskBlockRow F)
  pub explicit_blocks : ℕ  -- u32
  pub auto_blocks : ℕ  -- u32

abbrev pub same : Bool → Bool → Bool
same true b = b
same false b = if b then false else true

-- The counters of blocks that are explicit, or are not.
unfoldable pub count_blocks : Bool → ℕ → List TaskBlock → ℕ
count_blocks wanted n [] = n
count_blocks wanted n (b ∷ blocks) =
    count_blocks wanted (if same wanted b.explicit then u32 (n + 1) else n) blocks

-- The first of the totals, `zero` where they have run out, and the rest of them.
abbrev pub next_totals :
    {F : Type 0} → BlockTotals F → List (BlockTotals F) → BlockTotals F × List (BlockTotals F)
next_totals default [] = (default, [])
next_totals default (t ∷ totals) = (t, totals)

module _ {V F : Type 0} where
  abbrev pub number_or_zero : Option (Todo V F) → ℕ
  number_or_zero none = 0
  number_or_zero (some t) = t.number

  abbrev pub subject_or_empty : Option (Todo V F) → String
  subject_or_empty none = ""
  subject_or_empty (some t) = t.subject

  unfoldable pub row_of : TodoFile V F → TaskBlock → BlockTotals F → TaskBlockRow F
  row_of todos b t =
      let todo = find_todo todos b.task in
      record {
        task = b.task;
        number = number_or_zero todo;
        subject = subject_or_empty todo;
        session = b.session;
        from = b.from;
        to = b.to;
        explicit = b.explicit;
        source = b.source;
        project = b.project;
        cost = t.cost;
        total_tokens = t.total_tokens;
        messages = t.messages;
        tool_calls = t.tool_calls;
        tool_errors = t.tool_errors;
      }

  unfoldable pub rows_of :
      TodoFile V F → BlockTotals F → List TaskBlock → List (BlockTotals F) → List (TaskBlockRow F)
  rows_of todos default [] totals = []
  rows_of todos default (b ∷ blocks) totals =
      let (t, rest) = next_totals default totals in
      row_of todos b t ∷ rows_of todos default blocks rest

  unfoldable pub compose :
      BlockTotals F → List TaskBlock → TodoFile V F → List (BlockTotals F) → TaskBlocks F
  compose default blocks todos totals = record {
    blocks = rows_of todos default blocks totals;
    explicit_blocks = count_blocks true 0 blocks;
    auto_blocks = count_blocks false 0 blocks;
  }

  rows_of-at :
      (todos : TodoFile V F) (default : BlockTotals F) (blocks : List TaskBlock)
      (totals : List (BlockTotals F)) (i : ℕ) (b : TaskBlock)
      → get_elem? blocks i ≡ some b
      → get_elem? (rows_of todos default blocks totals) i
        ≡ some (row_of todos b (unwrap_or (get_elem? totals i) default))
  unfolding rows_of
  rows_of-at todos default [] totals i b h = cc
  rows_of-at todos default (c ∷ blocks) [] zero b h = ground (arith, h)
  rows_of-at todos default (c ∷ blocks) (t ∷ totals) zero b h = ground (arith, h)
  rows_of-at todos default (c ∷ blocks) [] (suc i) b h = rows_of-at todos default blocks [] i b h
  rows_of-at todos default (c ∷ blocks) (t ∷ totals) (suc i) b h =
      rows_of-at todos default blocks totals i b h

count_blocks-sum :
    (blocks : List TaskBlock) (n m : ℕ)
    → n + m + length blocks < 2 ^ 32
    → count_blocks true n blocks + count_blocks false m blocks ≡ n + m + length blocks
unfolding count_blocks
count_blocks-sum [] n m h = omega arith
count_blocks-sum (b ∷ blocks) n m h = elim (Bool-cases b.explicit) [
  | inl e ↦ rw e (count_blocks-sum blocks (u32 (n + 1)) m (omega arith) ∙ omega arith)
  | inr e ↦ rw e (count_blocks-sum blocks n (u32 (m + 1)) (omega arith) ∙ omega arith)
]

-- Below the bound of the `u32` counters: every block has its row at its place, with the number and
-- the subject that the board has for its task and with the sums given for it, the default where
-- they run out; and the two counters add up to the number of blocks.
pub compose-rows :
    {V F : Type 0} (default : BlockTotals F) (blocks : List TaskBlock) (todos : TodoFile V F)
    (totals : List (BlockTotals F)) (i : ℕ) (b : TaskBlock)
    → length blocks < 2 ^ 32
    → get_elem? blocks i ≡ some b
    → let c = compose default blocks todos totals in
      (get_elem? c.blocks i ≡ some (row_of todos b (unwrap_or (get_elem? totals i) default)))
      × (c.explicit_blocks + c.auto_blocks ≡ length blocks)
unfolding compose
compose-rows default blocks todos totals i b room h = (
  rows_of-at todos default blocks totals i b h,
  count_blocks-sum blocks 0 0 (omega arith) ∙ omega arith,
)

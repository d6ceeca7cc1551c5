-- ===== src/Board/Todo.antt =====
-- The rows of the board as stored in `todos.json` (src-tauri/src/board/todos.rs): `Todo` with its
-- `StatusChange`, `Comment`, `SpecAnswer` and `SpecSeen`, `Change` and `TodoFile`.
-- `V` stands for the type `serde_json::Value`, `F` for the type `f64`: no operation of the board
-- looks into a number of the latter, and what `upsert` asks of the former is an argument there.
use claude_usage_tracker_win.Prelude.{ℕ, Bool, Option, List, String, Dict}

pub record StatusChange : Type 0 where
  pub status : String
  pub at : String

pub record Comment : Type 0 where
  pub id : String
  pub author : String
  pub body : String
  pub created_at : String

pub record SpecAnswer : Type 0 where
  pub blocks : List String
  pub after : String
  pub address : String
  pub verdict : String
  pub note : String
  pub at : String

pub record SpecSeen : Type 0 where
  pub blocks : List String
  pub text : String
  pub address : String
  pub hash : String
  pub at : String

pub record Todo (V F : Type 0) : Type 0 where
  pub id : String
  pub number : ℕ  -- u32
  pub subject : String
  pub description : String
  pub status : String
  pub status_history : List StatusChange
  pub priority : String
  pub kind : String
  pub change : Bool
  pub change_id : Option String
  pub scheduled_for : Option String
  pub plan : String
  pub project : Option String
  pub from : Option String
  pub comments : List Comment
  pub links : List String
  pub depends_on : List String
  pub produces : List String
  pub spec : List String
  pub spec_answers : List SpecAnswer
  pub spec_seen : List SpecSeen
  pub verify : String
  pub retry_limit : Option ℕ  -- u32
  pub on_issue : Option String
  pub budget_usd : Option F
  pub parallel_limit : Option ℕ  -- u32
  pub outcome : String
  pub outcome_reason : String
  pub outcome_at : String
  pub handoff : String
  pub handoff_at : Option String
  pub handout_at : Option String
  pub imported_at : Option String
  pub created_by : String
  pub created_at : String
  pub updated_at : String
  pub ext : Dict V
  pub unknown : Dict V

pub record ChangeOut : Type 0 where
  pub what : String
  pub why : String
  pub ref : Option String

pub record ChangeMeasure : Type 0 where
  pub what : String
  pub how : String
  pub target : Option String
  pub actual : Option String
  pub verdict : Option Bool  -- the field `ok`
  pub note : Option String

pub record Change (V F : Type 0) : Type 0 where
  pub id : String
  pub number : ℕ  -- u32
  pub title : String
  pub delta : String
  pub out : List ChangeOut
  pub measure : List ChangeMeasure
  pub plan : Option String
  pub project : Option String
  pub spec : List String
  pub budget_usd : Option F
  pub parallel_limit : Option ℕ  -- u32
  pub migrated_from : Option ℕ  -- u32
  pub created_at : String
  pub updated_at : String
  pub closed_at : Option String
  pub ext : Dict V

pub record TodoFile (V F : Type 0) : Type 0 where
  pub version : ℕ  -- u32
  pub todos : List (Todo V F)
  pub changes : List (Change V F)

-- ===== src/Board/Roles.antt =====
-- `migrate_plan_roles` and `split_vision` of src-tauri/src/board/todos.rs: on a board of the first
-- version, a plan that is a pointer or a stub becomes a comment, and the intro of a plan becomes the
-- description that the task has not. `new_id` gives the ids drawn, `now` the clock's text; the
-- lines of a text keep their line breaks, and an offset is the list of the lines before it.
pub mod Kept
mod Tests
use Prim.Native.Char.{Char, code}
use claude_usage_tracker_win.Prelude.{
  ℕ, zero, suc, ◌+◌, String, Bool, true, false, not, ◌&&◌, ◌||◌, Option, none, some, List, [], ◌∷◌,
  ◌++◌, ◌==◌, eqb, ltb, leb, if◌then◌else◌, codes, trim, strip_prefix,
}
use claude_usage_tracker_win.Board.Todo.{Todo, TodoFile, Comment}
use claude_usage_tracker_win.Board.Refs.{Unicode, join, count_chars, is_ascii_digit}

-- `starts_with` and `contains`, on code points
unfoldable pub starts_with : List ℕ → List ℕ → Bool
starts_with [] cs = true
starts_with (p ∷ ps) [] = false
starts_with (p ∷ ps) (c ∷ cs) = eqb p c && starts_with ps cs

unfoldable pub contains_codes : List ℕ → List ℕ → Bool
contains_codes ps [] = starts_with ps []
contains_codes ps (c ∷ cs) = starts_with ps (c ∷ cs) || contains_codes ps cs

-- `str::len`: the bytes of UTF-8
unfoldable pub byte_len : List ℕ → ℕ
byte_len [] = 0
byte_len (c ∷ cs) =
    (if ltb c 128 then 1 else if ltb c 2048 then 2 else if ltb c 65536 then 3 else 4) + byte_len cs

abbrev pub first_is_digit : List ℕ → Bool
first_is_digit [] = false
first_is_digit (c ∷ cs) = is_ascii_digit c

abbrev pub onto_line : Char → List String → List String
onto_line c [] = String.◌∷◌ c String.[] ∷ []
onto_line c (l ∷ ls) = String.◌∷◌ c l ∷ ls

-- `split_inclusive('\n')`
unfoldable pub split_inclusive : String → List String
split_inclusive String.[] = []
split_inclusive (String.◌∷◌ c s) =
    let rest = split_inclusive s in
    if eqb (code c) 10 then String.◌∷◌ c String.[] ∷ rest else onto_line c rest

unfoldable pub concat : List String → String
concat [] = String.[]
concat (l ∷ ls) = join l (concat ls)

module _ (u : Unicode) where
  abbrev pub steps_heading : Option String → Bool
  steps_heading none = false
  steps_heading (some h) =
      let l = u.to_lowercase (codes h) in
      starts_with (codes "steps") l || starts_with (codes "шаги") l

  unfoldable pub is_seam : String → Bool
  is_seam line =
      let l = trim line in
      steps_heading (strip_prefix "## " l)
      || (ltb 2 (byte_len (codes l))
          && first_is_digit (codes l)
          && contains_codes (codes ". ") (codes l))

  abbrev pub onto_intro :
      String → Option (List String × List String) → Option (List String × List String)
  onto_intro l none = none
  onto_intro l (some (intro, rest)) = some (l ∷ intro, rest)

  -- The lines before the seam and those from it on.
  unfoldable pub at_seam : List String → Option (List String × List String)
  at_seam [] = none
  at_seam (l ∷ ls) =
      let rest = at_seam ls in if is_seam l then some ([], l ∷ ls) else onto_intro l rest

  abbrev pub intro_and_steps : Option (List String × List String) → Option (String × String)
  intro_and_steps none = none
  intro_and_steps (some (intro, rest)) =
      if trim (concat intro) == "" then none else some (trim (concat intro), trim (concat rest))

  unfoldable pub split_vision : String → Option (String × String)
  split_vision plan = intro_and_steps (at_seam (split_inclusive plan))

abbrev pub archive_heading : String
archive_heading = "Архив поля plan (миграция v2): "

-- Whether the plan is a pointer or a stub.
unfoldable pub is_stub : String → Bool
is_stub plan = contains_codes (codes ".claude/phases/") (codes plan) || ltb (count_chars plan) 80

module _ {V F : Type 0} (u : Unicode) (new_id : ℕ → String) (now : String) where
  abbrev pub with_vision : Todo V F → Option (String × String) → Todo V F
  with_vision t none = t
  with_vision t (some (vision, steps)) = record t { description = vision; plan = steps }

  unfoldable pub archived : ℕ → Todo V F → Todo V F
  archived drawn t = record t {
    comments =
        t.comments
        ++ record {
          id = new_id drawn;
          author = "claude";
          body = join archive_heading (trim t.plan);
          created_at = now;
        }
          ∷ [];
    plan = "";
  }

  -- One row, and how many ids are drawn after it.
  unfoldable pub migrate_role : ℕ → Todo V F → Todo V F × ℕ
  migrate_role drawn t =
      if trim t.plan == ""
      then (t, drawn)
      else if is_stub (trim t.plan)
      then (archived drawn t, suc drawn)
      else if trim t.description == ""
      then (with_vision t (split_vision u (trim t.plan)), drawn)
      else (t, drawn)

  unfoldable pub migrate_roles : ℕ → List (Todo V F) → List (Todo V F)
  migrate_roles drawn [] = []
  migrate_roles drawn (t ∷ ts) =
      let (t', drawn') = migrate_role drawn t in t' ∷ migrate_roles drawn' ts

  unfoldable pub migrate_plan_roles : TodoFile V F → TodoFile V F
  migrate_plan_roles file =
      if leb 2 file.version
      then file
      else record file { version = 2; todos = migrate_roles 0 file.todos }

-- ===== src/Board/Refs.antt =====
-- Task references in prose (src-tauri/src/board/todos.rs): `rewrite_inline_refs` writes `#5` as
-- `t#5`, `remap_inline_refs` moves `t#5` to a new number, and `migrate_refs` applies the first to a
-- board. A loop that jumps behind the digits it has read (`k = m`) counts them down here (`skip`).
-- The tables of Unicode are parameters.
pub mod Inserted
mod Tests
use Prim.Native.Char.{Char, code}
use Prim.Native.String
use claude_usage_tracker_win.Prelude.{
  ℕ, zero, suc, ◌+◌, ◌*◌, ◌-◌, ◌/◌, ◌%◌, String, Bool, true, false, not, ◌&&◌, ◌||◌, Option, none,
  some, List, [], ◌∷◌, ◌++◌, ◌==◌, eqb, ltb, leb, if◌then◌else◌, codes, parse_u32, u32_to_string,
  any, map,
}
use claude_usage_tracker_win.Board.Todo.{Todo, TodoFile, Comment}

-- `char::is_alphanumeric`, and `str::to_lowercase` on code points.
pub record Unicode : Type 0 where
  pub is_alphanumeric : ℕ → Bool
  pub to_lowercase : List ℕ → List ℕ

abbrev pub is_ascii_digit : ℕ → Bool
is_ascii_digit c = leb b'0' c && leb c b'9'

-- The digits at the start of a text: `while is_ascii_digit { m += 1 }`
unfoldable pub digits_of : String → String
digits_of String.[] = String.[]
digits_of (String.◌∷◌ c s) =
    let rest = digits_of s in if is_ascii_digit (code c) then String.◌∷◌ c rest else String.[]

-- `text.len()` in characters
unfoldable pub count_chars : String → ℕ
count_chars String.[] = 0
count_chars (String.◌∷◌ c s) = suc (count_chars s)

-- `trim_end_matches([' ', '\t', ':', '-'])` of a text that is given last character first.
unfoldable pub trim_separators : List ℕ → List ℕ
trim_separators [] = []
trim_separators (c ∷ cs) =
    let rest = trim_separators cs in
    if eqb c b' ' || eqb c 9 || eqb c b':' || eqb c b'-' then rest else c ∷ cs

unfoldable pub reverse_onto : List ℕ → List ℕ → List ℕ
reverse_onto [] acc = acc
reverse_onto (c ∷ cs) acc = reverse_onto cs (c ∷ acc)

-- `map_or(true, |c| !c.is_alphanumeric())` on the last character
abbrev pub no_word_before : Unicode → List ℕ → Bool
no_word_before u [] = true
no_word_before u (c ∷ cs) = not (u.is_alphanumeric c)

-- `strip_suffix(w)`, both last character first, and the test of what is left.
unfoldable pub ends_in_word : Unicode → List ℕ → List ℕ → Bool
ends_in_word u [] before = no_word_before u before
ends_in_word u (w ∷ ws) [] = false
ends_in_word u (w ∷ ws) (c ∷ cs) = eqb w c && ends_in_word u ws cs

abbrev pub pr_words : List String
pr_words = "pr" ∷ "pull" ∷ "request" ∷ "gh" ∷ "issue" ∷ "mr" ∷ []

-- `before` is the text up to the `#`, last character first.
unfoldable pub preceded_by_pr_word : Unicode → List ℕ → Bool
preceded_by_pr_word u before =
    let lower = reverse_onto (u.to_lowercase (reverse_onto (trim_separators before) [])) [] in
    any (λ w. ends_in_word u (reverse_onto (codes w) []) lower) pr_words

-- `known.contains(&n)`
abbrev pub knows : List ℕ → ℕ → Bool
knows [] n = false
knows (k ∷ ks) n = eqb k n || knows ks n

abbrev pub knows_parsed : List ℕ → Option ℕ → Bool
knows_parsed known none = false
knows_parsed known (some n) = knows known n

-- A `#` with `s` behind it is a reference to rewrite.
unfoldable pub is_bare_ref : Unicode → List ℕ → List ℕ → String → Bool
is_bare_ref u known before s =
    not (digits_of s == "")
    && no_word_before u before
    && not (preceded_by_pr_word u before)
    && knows_parsed known (parse_u32 (codes (digits_of s)))

-- `push_str`, by clauses on the text in front
abbrev pub join : String → String → String
join String.[] t = t
join (String.◌∷◌ c s) t = String.◌∷◌ c (join s t)

abbrev pub emit : Char → String × ℕ → String × ℕ
emit c (out, n) = (String.◌∷◌ c out, n)

-- What a rewritten reference is written as, and that it counts.
abbrev pub emit_ref : Char → String → String × ℕ → String × ℕ
emit_ref c number (out, n) = (String.◌∷◌ c (String.◌∷◌ "#" (join number out)), suc n)

unfoldable pub rewrite_from : Unicode → List ℕ → List ℕ → ℕ → String → String × ℕ
rewrite_from u known before skip String.[] = (String.[], 0)
rewrite_from u known before (suc skip) (String.◌∷◌ c s) =
    rewrite_from u known (code c ∷ before) skip s
rewrite_from u known before zero (String.◌∷◌ c s) =
    let plain = rewrite_from u known (code c ∷ before) zero s in
    let jumped = rewrite_from u known (code c ∷ before) (count_chars (digits_of s)) s in
    if eqb (code c) b'#' && is_bare_ref u known before s
    then emit_ref "t" (digits_of s) jumped
    else emit c plain

unfoldable pub rewrite_inline_refs : Unicode → String → List ℕ → String × ℕ
rewrite_inline_refs u text known = rewrite_from u known [] zero text

-- `HashMap<u32, u32>`: the entry made last is the one that is seen.
abbrev pub NumberMap : Type 0
NumberMap = List (ℕ × ℕ)

unfoldable pub number_at : NumberMap → ℕ → Option ℕ
number_at [] n = none
number_at ((k, v) ∷ m) n = if eqb k n then some v else number_at m n

abbrev pub moved_number : NumberMap → Option ℕ → Option ℕ
moved_number m none = none
moved_number m (some n) = number_at m n

-- A `t` or `T` with `s` behind it is a reference of this form: the number and the digits it has.
unfoldable pub is_task_ref : Unicode → List ℕ → ℕ → String → Bool
is_task_ref u before c String.[] = false
is_task_ref u before c (String.◌∷◌ hash s) =
    (eqb c b't' || eqb c b'T')
    && eqb (code hash) b'#'
    && not (digits_of s == "")
    && no_word_before u before

-- What is behind the `#` of such a reference.
abbrev pub behind_hash : String → String
behind_hash String.[] = String.[]
behind_hash (String.◌∷◌ hash s) = s

-- The new number of the reference, if it has one.
unfoldable pub ref_target : Unicode → NumberMap → List ℕ → ℕ → String → Option ℕ
ref_target u m before c s =
    if is_task_ref u before c s
    then moved_number m (parse_u32 (codes (digits_of (behind_hash s))))
    else none

unfoldable pub remap_from : Unicode → NumberMap → List ℕ → ℕ → String → String × ℕ
remap_from u m before skip String.[] = (String.[], 0)
remap_from u m before (suc skip) (String.◌∷◌ c s) = remap_from u m (code c ∷ before) skip s
remap_from u m before zero (String.◌∷◌ c s) =
    let plain = remap_from u m (code c ∷ before) zero s in
    let jumped =
      remap_from u m (code c ∷ before) (suc (count_chars (digits_of (behind_hash s)))) s in
    elim (ref_target u m before (code c) s) [
      | none ↦ emit c plain
      | some to ↦ emit_ref c (u32_to_string to) jumped
    ]

unfoldable pub remap_inline_refs : Unicode → String → NumberMap → String × ℕ
remap_inline_refs u text m = remap_from u m [] zero text

pub record MigrationStats : Type 0 where
  pub refs : ℕ
  pub tasks : ℕ

-- `if n > 0 { field = text }`
abbrev pub replaced : String → String × ℕ → String
replaced old (text, n) = if eqb n 0 then old else text

module _ (u : Unicode) where
  abbrev pub migrate_comments : List ℕ → List Comment → List Comment × ℕ
  migrate_comments known [] = ([], 0)
  migrate_comments known (c ∷ cs) =
      let r = rewrite_inline_refs u c.body known in
      let rest = migrate_comments known cs in
      (record c { body = replaced c.body r } ∷ rest.0, r.1 + rest.1)

module _ {V F : Type 0} where
  -- `map(|t| t.number).filter(|n| *n > 0)`
  unfoldable pub positive_numbers : List (Todo V F) → List ℕ
  positive_numbers [] = []
  positive_numbers (t ∷ ts) =
      let rest = positive_numbers ts in if eqb t.number 0 then rest else t.number ∷ rest

module _ {V F : Type 0} (u : Unicode) where
  -- The row and how many references it had.
  unfoldable pub migrate_row : List ℕ → Todo V F → Todo V F × ℕ
  migrate_row known t =
      let desc = rewrite_inline_refs u t.description known in
      let plan = rewrite_inline_refs u t.plan known in
      let comments = migrate_comments u known t.comments in
      (
        record t {
          description = replaced t.description desc;
          plan = replaced t.plan plan;
          comments = comments.0;
        },
        desc.1 + plan.1 + comments.1,
      )

  unfoldable pub migrate_rows : List ℕ → List (Todo V F) → List (Todo V F) × MigrationStats
  migrate_rows known [] = ([], record { refs = 0; tasks = 0 })
  migrate_rows known (t ∷ ts) =
      let (t', n) = migrate_row known t in
      let (ts', stats) = migrate_rows known ts in
      (t' ∷ ts', record { refs = n + stats.refs; tasks = (if eqb n 0 then 0 else 1) + stats.tasks })

  unfoldable pub migrate_refs : TodoFile V F → TodoFile V F × MigrationStats
  migrate_refs file =
      let (ts, stats) = migrate_rows (positive_numbers file.todos) file.todos in
      (record file { todos = ts }, stats)

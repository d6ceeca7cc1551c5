-- ===== src/Board/Refs/Inserted.antt =====
-- What the rewriting of references in src-tauri/src/board/todos.rs can do to a text.
use Prim.Native.Char.{Char, code}
use mathlib.Core.Path.{subst}
use claude_usage_tracker_win.Prelude.{
  ℕ, zero, suc, String, ◌≡◌, refl, ap, ◌&&◌, inl, inr, List, [], ◌∷◌, eqb, Bool-cases, arith,
}
use claude_usage_tracker_win.Board.Refs.{
  Unicode, is_ascii_digit, digits_of, count_chars, is_bare_ref, rewrite_from, rewrite_inline_refs,
  join,
}

-- The second text is the first with a `t` put in front of so many of its `#`.
pub data Inserts : String → String → ℕ → Type 0 where
  done : Inserts "" "" 0
  same :
      {s s' : String} {n : ℕ} (c : Char)
      → Inserts s s' n
      → Inserts (String.◌∷◌ c s) (String.◌∷◌ c s') n
  tagged :
      {s s' : String} {n : ℕ} (c : Char)
      → code c ≡ b'#'
      → Inserts s s' n
      → Inserts (String.◌∷◌ c s) (String.◌∷◌ "t" (String.◌∷◌ "#" s')) (suc n)

prefix : ℕ → String → String
prefix zero s = ""
prefix (suc n) String.[] = ""
prefix (suc n) (String.◌∷◌ c s) = String.◌∷◌ c (prefix n s)

prefix-digits_of : (s : String) → prefix (count_chars (digits_of s)) s ≡ digits_of s
unfolding prefix digits_of count_chars
prefix-digits_of String.[] = refl
prefix-digits_of (String.◌∷◌ c s) = elim (Bool-cases (is_ascii_digit (code c))) [
  | inl e ↦ rw (e, digits_of) (ap (λ t. String.◌∷◌ c t) (prefix-digits_of s))
  | inr e ↦ rw (e, digits_of)
]

rewrite_from-Inserts :
    (u : Unicode) (known before : List ℕ) (skip : ℕ) (s : String)
    → let r = rewrite_from u known before skip s in Inserts s (join (prefix skip s) r.0) r.1
unfolding rewrite_from prefix
rewrite_from-Inserts u known before zero String.[] = done
rewrite_from-Inserts u known before (suc skip) String.[] = done
rewrite_from-Inserts u known before (suc skip) (String.◌∷◌ c s) =
    same c (rewrite_from-Inserts u known (code c ∷ before) skip s)
rewrite_from-Inserts u known before zero (String.◌∷◌ c s) =
    elim (Bool-cases (eqb (code c) b'#' && is_bare_ref u known before s)) [
      | inl e ↦ rw e (
          tagged c (ground arith) (
            subst (λ p. Inserts s (join p r.0) r.1) (prefix-digits_of s)
              (rewrite_from-Inserts u known (code c ∷ before) (count_chars (digits_of s)) s)))
      | inr e ↦ rw e (same c (rewrite_from-Inserts u known (code c ∷ before) zero s))
    ]
  where
    r : String × ℕ
    r = rewrite_from u known (code c ∷ before) (count_chars (digits_of s)) s

-- The rewriting of bare references changes a text by putting a `t` in front of some of its `#`, as
-- often as it counts, and by nothing else.
pub rewrite_inline_refs-Inserts :
    (u : Unicode) (text : String) (known : List ℕ)
    → let r = rewrite_inline_refs u text known in Inserts text r.0 r.1
unfolding rewrite_inline_refs rewrite_from prefix
rewrite_inline_refs-Inserts u text known = rewrite_from-Inserts u known [] zero text

-- ===== src/Resolver/Config.antt =====
-- `parse_tokens` of resolver/src/config.rs, and the settings that the endpoints read.
use mathlib.Core.List.{append-nil, append_assoc}
use claude_usage_tracker_win.Prelude.{
  String, ◌≡◌, ap, sym, ◌∙◌, not, ◌&&◌, Option, some, none, List, [], ◌∷◌, ◌++◌, ◌==◌, eq_iff, ℤ,
  if◌then◌else◌, arith, Dict, get, insert, get-insert, trim, split, split_once,
}

pub record Config : Type 0 where
  pub tokens : Dict (List String)
  pub poll_skew_secs : ℤ  -- i64
  pub enroll_code_ttl_secs : ℤ  -- i64

-- `map.get(k).cloned().unwrap_or_default()`, and `entry(k).or_default()`
abbrev pub values_of : Dict (List String) → String → List String
values_of m k = elim (get m k) [ none ↦ [] | some vs ↦ vs ]

-- The source and the token of one entry, where it is well formed.
unfoldable pub token_entry : String → Option (String × String)
token_entry pair =
    let p = trim pair in
    if p == "" then none else elim (split_once b':' p) [
      | none ↦ none
      | some (source, token) ↦
          if not (trim source == "") && not (trim token == "")
          then some (trim source, trim token)
          else none
    ]

unfoldable pub add_token : Dict (List String) → Option (String × String) → Dict (List String)
add_token m none = m
add_token m (some (source, token)) = insert m source (values_of m source ++ token ∷ [])

unfoldable pub parse_pairs : Dict (List String) → List String → Dict (List String)
unfolding add_token
parse_pairs m [] = m
parse_pairs m (pair ∷ pairs) = parse_pairs (add_token m (token_entry pair)) pairs

unfoldable pub parse_tokens : String → Dict (List String)
unfolding parse_pairs
parse_tokens raw = parse_pairs [] (split b',' raw)

-- The tokens that a list of entries gives a source, in order.
abbrev token_of : String → Option (String × String) → List String
token_of source none = []
token_of source (some (s, token)) = if s == source then token ∷ [] else []

pub tokens_for : String → List String → List String
tokens_for source [] = []
tokens_for source (pair ∷ pairs) = token_of source (token_entry pair) ++ tokens_for source pairs

values_of-add_token :
    (m : Dict (List String)) (entry : Option (String × String)) (source : String)
    → values_of (add_token m entry) source ≡ values_of m source ++ token_of source entry
unfolding add_token
values_of-add_token m none source = sym (append-nil (values_of m source))
values_of-add_token m (some (s, token)) source = ground (
  arith,
  get-insert m s source (values_of m s ++ token ∷ []),
  eq_iff s source,
  append-nil (values_of m source),
)

values_of-parse_pairs :
    (m : Dict (List String)) (pairs : List String) (source : String)
    → values_of (parse_pairs m pairs) source ≡ values_of m source ++ tokens_for source pairs
unfolding parse_pairs tokens_for
values_of-parse_pairs m [] source = sym (append-nil (values_of m source))
values_of-parse_pairs m (pair ∷ pairs) source =
    values_of-parse_pairs (add_token m (token_entry pair)) pairs source
    ∙ ap (λ (l : List String). l ++ tokens_for source pairs)
        (values_of-add_token m (token_entry pair) source)
    ∙ append_assoc (values_of m source) (token_of source (token_entry pair))
        (tokens_for source pairs)

-- A source's tokens are those of its well-formed entries, in the order in which the variable lists
-- them; blank and malformed entries give no source anything.
pub values_of-parse_tokens :
    (raw source : String) → values_of (parse_tokens raw) source ≡ tokens_for source (split b',' raw)
unfolding parse_tokens tokens_for get
values_of-parse_tokens raw source = values_of-parse_pairs [] (split b',' raw) source

-- ===== src/Board/Refs/Tests.antt =====
-- The theorem on references at a concrete text.
use claude_usage_tracker_win.Prelude.{◌&&◌, ◌||◌, [], ◌∷◌, leb}
use claude_usage_tracker_win.Board.Refs.{Unicode, rewrite_inline_refs}
use claude_usage_tracker_win.Board.Refs.Inserted.{Inserts, rewrite_inline_refs-Inserts}

abbrev ascii : Unicode
ascii = record {
  is_alphanumeric =
      λ c. (leb b'0' c && leb c b'9') || (leb b'a' c && leb c b'z') || (leb b'A' c && leb c b'Z');
  to_lowercase = λ cs. cs;
}

rewrite_inline_refs-Inserts_example :
    let r = rewrite_inline_refs ascii "see #5, PR #5" (5 ∷ []) in Inserts "see #5, PR #5" r.0 r.1
rewrite_inline_refs-Inserts_example = rewrite_inline_refs-Inserts ascii "see #5, PR #5" (5 ∷ [])

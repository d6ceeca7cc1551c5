-- ===== src/Sessions/Tests.antt =====
-- The theorems of the task sessions at a concrete journal.
use claude_usage_tracker_win.Prelude.{
  String, ◌≡◌, refl, true, none, List, [], ◌∷◌, length, str_lt, get,
}
use claude_usage_tracker_win.Sessions.{
  TaskSessionEvent, blocks, session_blocks, sort_by, insert_by, fold_session,
}
use claude_usage_tracker_win.Sessions.Laws.{length-blocks, InOrder, session_blocks-InOrder}

abbrev entry : String → String → String → String → TaskSessionEvent
entry ts session task event = record {
  ts = ts;
  session = session;
  task = task;
  event = event;
  source = "take";
  project = none;
}

abbrev journal : List TaskSessionEvent
journal =
    entry "t3" "s1" "b" "end"
    ∷ entry "t1" "s1" "a" "start"
    ∷ entry "t2" "s2" "c" "start"
    ∷ entry "t4" "s1" "b" "start"
    ∷ []

-- The end of another task leaves the block of "a" open until the start of "b".
ends_at_next_start :
    session_blocks [] "s1"
      (entry "t3" "s1" "b" "end" ∷ entry "t1" "s1" "a" "start" ∷ entry "t4" "s1" "b" "start" ∷ [])
    ≡ record {
      task = "a";
      session = "s1";
      from = "t1";
      to = "t4";
      explicit = true;
      source = "take";
      project = none;
    }
      ∷ record {
        task = "b";
        session = "s1";
        from = "t4";
        to = "t4";
        explicit = true;
        source = "take";
        project = none;
      }
      ∷ []
unfolding session_blocks sort_by insert_by fold_session str_lt get
ends_at_next_start = refl

length-blocks_example : length (blocks journal (("s2", "t9") ∷ [])) ≡ 3
length-blocks_example = length-blocks journal (("s2", "t9") ∷ [])

session_blocks-InOrder_example : InOrder "" (session_blocks (("s1", "t9") ∷ []) "s1" journal)
session_blocks-InOrder_example = session_blocks-InOrder (("s1", "t9") ∷ []) "s1" journal

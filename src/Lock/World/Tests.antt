-- ===== src/Lock/World/Tests.antt =====
-- The theorems of the lock at a concrete run in which a stale file is removed, and a run outside
-- their condition in which two processes have the lock.
use claude_usage_tracker_win.Prelude.{
  ℕ, suc, ◌+◌, ◌≡◌, ◌≢◌, ◌↔◌, refl, String, true, false, none, some, arith, ok,
}
use claude_usage_tracker_win.Lock.{
  is_stale, parse_holder, holder_of, valid_pid, pid_of_i64, text_or_empty, reaffirm_at, read_lock,
}
use claude_usage_tracker_win.Lock.World.{
  World, Step, update, update_thread, no_threads, text_of, Reachable, Calm, at_rest, Stage,
}
use claude_usage_tracker_win.Lock.World.Safety.{Exclusive, guard-Exclusive, guard-reaffirm_at}
use claude_usage_tracker_win.Lock.Samples.{json, json-Printed, print, all_alive}

-- The worlds that the steps of a thread lead to.
abbrev at_stage : ℕ → ℕ → Stage → World → World
at_stage p t s w = record w { stage = update_thread w.stage p t s }

abbrev creates : ℕ → ℕ → World → World
creates p t w = record w {
  stage = update_thread w.stage p t (Stage.created w.made);
  file = some w.made;
  text = update w.text w.made "";
  made = suc w.made;
}

abbrev writes : ℕ → ℕ → ℕ → World → World
writes p t i w = record w {
  stage = update_thread w.stage p t Stage.written;
  text = update w.text i (print p "t1");
}

abbrev registers : ℕ → ℕ → World → World
registers p t w = record w {
  stage = update_thread w.stage p t Stage.outside;
  entry = update w.entry p (some (t, 1));
  guards = update w.guards p (w.guards p + 1);
}

abbrev stops : ℕ → World → World
stops p w = record w {
  entry = update w.entry p none;
  guards = update w.guards p 0;
  stage = no_threads w.stage p;
  alive = update w.alive p false;
}

abbrev moves : ℕ → ℕ → ℕ → String → World → World
moves p t i content w = record w {
  stage = update_thread w.stage p t (Stage.moved content);
  file = none;
  aside = update w.aside p (some i);
}

abbrev clears : ℕ → ℕ → World → World
clears p t w = record w {
  stage = update_thread w.stage p t Stage.outside;
  aside = update w.aside p none;
}

abbrev lock_of_2 : String
lock_of_2 = print 2 "t1"

-- The process 2 takes the lock and ends; the thread 7 of the process 1 reads the file it left.
abbrev w1 : World
w1 = at_stage 2 5 Stage.unclaimed (at_rest all_alive)

abbrev w2 : World
w2 = creates 2 5 w1

abbrev w3 : World
w3 = writes 2 5 0 w2

abbrev w4 : World
w4 = stops 2 (registers 2 5 w3)

abbrev w5 : World
w5 = at_stage 1 7 (Stage.seen lock_of_2) (at_stage 1 7 Stage.unclaimed w4)

abbrev w6 : World
w6 = at_stage 1 7 (Stage.judged lock_of_2) w5

abbrev left : Reachable json all_alive w4
left =
    Reachable.next {w = registers 2 5 w3}
      (Reachable.next {w = w3}
        (Reachable.next {w = w2}
          (Reachable.next {w = w1}
            (Reachable.next {w = at_rest all_alive} Reachable.begin (Step.look 2 5 refl refl refl))
            (Step.create 2 5 refl refl))
          (Step.write 2 5 0 "t1" (omega arith) (omega arith) refl))
        (Step.register 2 5 refl))
      (Step.stop 2)

of_2_is_stale : is_stale json lock_of_2 0 w5.alive ≡ true
unfolding is_stale parse_holder holder_of valid_pid pid_of_i64 text_or_empty
of_2_is_stale = refl

abbrev found_stale : Reachable json all_alive w6
found_stale =
    Reachable.next {w = w5}
      (Reachable.next {w = at_stage 1 7 Stage.unclaimed w4}
        (Reachable.next {w = w4} left (Step.look 1 7 refl refl refl))
        (Step.read 1 7 lock_of_2 refl refl))
      (Step.judge 1 7 0 lock_of_2 refl of_2_is_stale)

-- It moves the file away, sees that it is the one it judged, removes it, and takes the lock.
abbrev w7 : World
w7 = at_stage 1 7 Stage.clearing (moves 1 7 0 lock_of_2 w6)

abbrev w8 : World
w8 = creates 1 7 (at_stage 1 7 Stage.unclaimed (clears 1 7 w7))

abbrev held : World
held = registers 1 7 (writes 1 7 1 w8)

abbrev held-Reachable : Reachable json all_alive held
held-Reachable =
    Reachable.next {w = writes 1 7 1 w8}
      (Reachable.next {w = w8}
        (Reachable.next {w = at_stage 1 7 Stage.unclaimed (clears 1 7 w7)}
          (Reachable.next {w = clears 1 7 w7}
            (Reachable.next {w = w7}
              (Reachable.next {w = moves 1 7 0 lock_of_2 w6}
                (Reachable.next {w = w6} found_stale (Step.move 1 7 0 lock_of_2 refl refl))
                (Step.match_moved 1 7 lock_of_2 refl refl))
              (Step.clear 1 7 refl))
            (Step.look 1 7 refl refl refl))
          (Step.create 1 7 refl refl))
        (Step.write 1 7 1 "t1" (omega arith) (omega arith) refl))
      (Step.register 1 7 refl)

no_file_open : (q u : ℕ) → w6.stage q u ≢ Stage.created 0
no_file_open q u e = ground (arith, e)

found_stale-Calm : Calm json found_stale
found_stale-Calm = ((((((((tt, tt), tt), tt), tt), tt), tt), tt), tt)

held-Calm : Calm json held-Reachable
held-Calm = (((((((found_stale-Calm, (refl, no_file_open)), tt), tt), tt), tt), tt), tt)

held_guard : held.guards 1 ≢ 0
held_guard e = cc

guard-Exclusive_example : Exclusive json held 1
guard-Exclusive_example =
    guard-Exclusive json all_alive held 1 json-Printed held-Reachable held-Calm held_guard

guard-reaffirm_at_example :
    (reaffirm_at json {E = ℕ} 2 "todos.json.lock" (read_lock (text_of held.text held.file)) ≡ ok tt)
    ↔ (◌≡◌ {A = ℕ} 2 1)
guard-reaffirm_at_example =
    guard-reaffirm_at json all_alive held 1 2 "todos.json.lock" json-Printed held-Reachable
      held-Calm held_guard

-- Without that condition: the thread 7 of the process 1 has judged the file of the process 2. Before
-- its rename, the thread 8 of the process 3 removes that file and takes the lock; the rename moves
-- the file of the process 3, and the process 4 takes the lock too.
abbrev v1 : World
v1 = at_stage 3 8 (Stage.seen lock_of_2) (at_stage 3 8 Stage.unclaimed w6)

abbrev v2 : World
v2 = moves 3 8 0 lock_of_2 (at_stage 3 8 (Stage.judged lock_of_2) v1)

abbrev v3 : World
v3 = at_stage 3 8 Stage.unclaimed (clears 3 8 (at_stage 3 8 Stage.clearing v2))

abbrev v4 : World
v4 = registers 3 8 (writes 3 8 1 (creates 3 8 v3))

abbrev v5 : World
v5 = at_stage 4 9 Stage.unclaimed (moves 1 7 1 lock_of_2 v4)

abbrev v6 : World
v6 = registers 4 9 (writes 4 9 2 (creates 4 9 v5))

still_stale : is_stale json lock_of_2 0 v1.alive ≡ true
unfolding is_stale parse_holder holder_of valid_pid pid_of_i64 text_or_empty
still_stale = refl

v3-Reachable : Reachable json all_alive v3
v3-Reachable =
    Reachable.next {w = clears 3 8 (at_stage 3 8 Stage.clearing v2)}
      (Reachable.next {w = at_stage 3 8 Stage.clearing v2}
        (Reachable.next {w = v2}
          (Reachable.next {w = at_stage 3 8 (Stage.judged lock_of_2) v1}
            (Reachable.next {w = v1}
              (Reachable.next {w = at_stage 3 8 Stage.unclaimed w6}
                (Reachable.next {w = w6} found_stale (Step.look 3 8 refl refl refl))
                (Step.read 3 8 lock_of_2 refl refl))
              (Step.judge 3 8 0 lock_of_2 refl still_stale))
            (Step.move 3 8 0 lock_of_2 refl refl))
          (Step.match_moved 3 8 lock_of_2 refl refl))
        (Step.clear 3 8 refl))
      (Step.look 3 8 refl refl refl)

v4-Reachable : Reachable json all_alive v4
v4-Reachable =
    Reachable.next {w = writes 3 8 1 (creates 3 8 v3)}
      (Reachable.next {w = creates 3 8 v3}
        (Reachable.next {w = v3} v3-Reachable (Step.create 3 8 refl refl))
        (Step.write 3 8 1 "t1" (omega arith) (omega arith) refl))
      (Step.register 3 8 refl)

v6-Reachable : Reachable json all_alive v6
v6-Reachable =
    Reachable.next {w = writes 4 9 2 (creates 4 9 v5)}
      (Reachable.next {w = creates 4 9 v5}
        (Reachable.next {w = v5}
          (Reachable.next {w = moves 1 7 1 lock_of_2 v4}
            (Reachable.next {w = v4} v4-Reachable (Step.move 1 7 1 lock_of_2 refl refl))
            (Step.look 4 9 refl refl refl))
          (Step.create 4 9 refl refl))
        (Step.write 4 9 2 "t1" (omega arith) (omega arith) refl))
      (Step.register 4 9 refl)

two_processes_hold : (v6.guards 3 ≡ 1) × (v6.guards 4 ≡ 1)
two_processes_hold = (refl, refl)

-- ===== src/Board/Graph/Walk.antt =====
-- `subtree` of src-tauri/src/board/graph.rs finds what the root reaches along `depends_on`.
use claude_usage_tracker_win.Prelude.{
  ℕ, zero, suc, ◌+◌, ◌≤◌, ◌<◌, String, ◌≡◌, refl, ap, ◌∙◌, ◌↔◌, inl, inr, Bool, true, false, ◌&&◌,
  ◌||◌, Option, some, List, [], ◌∷◌, ◌==◌, eq_iff, eq_refl, if◌then◌else◌, length, contains, retain,
  arith, Bool-cases, Option-cases,
}
use claude_usage_tracker_win.Board.Todo.{Todo}
use claude_usage_tracker_win.Board.Deps.{total_deps}
use claude_usage_tracker_win.Board.Import.{local_by_id}
use claude_usage_tracker_win.Board.Graph.{
  edges_of, push_unseen, collect, on_board, insert_id, sort_ids, found, subtree_of,
}

contains-push_unseen :
    (x : String) (ds seen stack : List String)
    → contains x seen || contains x (push_unseen ds seen stack)
      ≡ contains x seen || (contains x ds || contains x stack)
unfolding push_unseen
contains-push_unseen x [] seen stack = refl
contains-push_unseen x (d ∷ ds) seen stack = ground (
  arith,
  eq_iff d x,
  contains-push_unseen x ds seen (if contains d seen then stack else d ∷ stack),
)

length-push_unseen :
    (ds seen stack : List String) → length (push_unseen ds seen stack) ≤ length ds + length stack
unfolding push_unseen
length-push_unseen [] seen stack = omega arith
length-push_unseen (d ∷ ds) seen stack =
    ground (arith, length-push_unseen ds seen (if contains d seen then stack else d ∷ stack))

module _ {V F : Type 0} where
  -- Along `depends_on`, in any number of steps.
  pub data Leads (ts : List (Todo V F)) (a : String) : String → Type 0 where
    start : Leads ts a a
    on : {b c : String} → Leads ts a b → contains c (edges_of ts b) ≡ true → Leads ts a c

  -- The edges of the rows not yet seen.
  unvisited : List (Todo V F) → List String → ℕ
  unvisited [] seen = 0
  unvisited (t ∷ ts) seen =
      (if contains t.id seen then 0 else length t.depends_on) + unvisited ts seen

  unvisited-cons :
      (ts : List (Todo V F)) (id : String) (seen : List String)
      → unvisited ts (id ∷ seen) ≤ unvisited ts seen
  unfolding unvisited
  unvisited-cons [] id seen = omega arith
  unvisited-cons (t ∷ ts) id seen = ground (arith, unvisited-cons ts id seen)

  unvisited-edges_of :
      (ts : List (Todo V F)) (id : String) (seen : List String)
      → contains id seen ≡ false
      → length (edges_of ts id) + unvisited ts (id ∷ seen) ≤ unvisited ts seen
  unfolding unvisited edges_of local_by_id
  unvisited-edges_of [] id seen h = omega arith
  unvisited-edges_of (t ∷ ts) id seen h = elim (Option-cases (local_by_id ts id)) [
    | inl e ↦ ground (arith, e, eq_iff t.id id, eq_iff id t.id, unvisited-cons ts id seen, h)
    | inr (r, e) ↦
        ground (arith, e, eq_iff t.id id, eq_iff id t.id, unvisited-edges_of ts id seen h)
  ]

  unvisited-nil : (ts : List (Todo V F)) → unvisited ts [] ≡ total_deps ts
  unfolding unvisited total_deps
  unvisited-nil [] = refl
  unvisited-nil (t ∷ ts) = omega (arith, unvisited-nil ts)

  -- Every edge of a seen task leads to a task that is seen or waits on the stack.
  abbrev Explored : List (Todo V F) → List String → List String → Type 0
  Explored ts stack seen =
      (a b : String)
      → contains a seen ≡ true
      → contains b (edges_of ts a) ≡ true
      → (contains b seen || contains b stack) ≡ true

  -- What the walk returns: nothing else than what the root leads to, all that was seen or waited,
  -- and with a task all that it depends on.
  record Walked (ts : List (Todo V F)) (root : String) (stack seen result : List String)
      : Type 0 where
    sound : (x : String) → contains x result ≡ true → Leads ts root x
    keeps : (x : String) → (contains x seen || contains x stack) ≡ true → contains x result ≡ true
    closed :
        (a b : String)
        → contains a result ≡ true
        → contains b (edges_of ts a) ≡ true
        → contains b result ≡ true

  led-push_unseen :
      (ts : List (Todo V F)) (root id : String) (stack seen : List String)
      → ((x : String) → (contains x seen || contains x (id ∷ stack)) ≡ true → Leads ts root x)
      → (x : String)
      → (contains x (id ∷ seen) || contains x (push_unseen (edges_of ts id) (id ∷ seen) stack))
        ≡ true
      → Leads ts root x
  led-push_unseen ts root id stack seen led x k = elim (Bool-cases (contains x (edges_of ts id))) [
    | inl edge ↦ Leads.on (led id (ground (arith, eq_refl id))) edge
    | inr off ↦ led x (
        ground
          (arith, k, off, eq_iff id x, contains-push_unseen x (edges_of ts id) (id ∷ seen) stack))
  ]

  Explored-push_unseen :
      (ts : List (Todo V F)) (id : String) (stack seen : List String)
      → Explored ts (id ∷ stack) seen
      → Explored ts (push_unseen (edges_of ts id) (id ∷ seen) stack) (id ∷ seen)
  Explored-push_unseen ts id stack seen e a b ka edge =
      ground (arith, eq_iff id a, contains-push_unseen b (edges_of ts id) (id ∷ seen) stack, e a b)

  collect-Walked :
      (fuel : ℕ) (ts : List (Todo V F)) (root : String) (stack seen : List String)
      → length stack + unvisited ts seen < fuel
      → ((x : String) → (contains x seen || contains x stack) ≡ true → Leads ts root x)
      → Explored ts stack seen
      → (result : List String) × (collect fuel ts stack seen ≡ some result)
        × Walked ts root stack seen result
  unfolding collect
  collect-Walked zero ts root stack seen h led e = elim h [ ]
  collect-Walked (suc fuel) ts root [] seen h led e = (
    seen,
    refl,
    record {
      sound = λ x k. led x (ground (arith, k));
      keeps = λ x k. ground (arith, k);
      closed = λ a b k edge. ground (arith, e a b k edge);
    },
  )
  collect-Walked (suc fuel) ts root (id ∷ stack) seen h led e =
      elim (Bool-cases (contains id seen)) [
        | inl old ↦
            let (r, done, w) =
              collect-Walked fuel ts root stack seen (omega arith)
                (λ x k. led x (ground (arith, k)))
                (λ a b ka edge. ground (arith, e a b ka edge, eq_iff id b, old)) in
            (
              r,
              ground (arith, old, done),
              record {
                sound = w.sound;
                keeps = λ x k. w.keeps x (ground (arith, k, eq_iff id x, old));
                closed = w.closed;
              },
            )
        | inr new ↦
            let ds = edges_of ts id in
            let (r, done, w) =
              collect-Walked fuel ts root (push_unseen ds (id ∷ seen) stack) (id ∷ seen)
                (omega (
                  arith,
                  length-push_unseen ds (id ∷ seen) stack,
                  unvisited-edges_of ts id seen new,
                ))
                (led-push_unseen ts root id stack seen led)
                (Explored-push_unseen ts id stack seen e) in
            (
              r,
              ground (arith, new, done),
              record {
                sound = w.sound;
                keeps = λ x k.
                    w.keeps x (ground (arith, k, contains-push_unseen x ds (id ∷ seen) stack));
                closed = w.closed;
              },
            )
      ]

  -- What the root leads to is in the result of a walk that has the root.
  Leads-complete :
      (ts : List (Todo V F)) (root x : String) (stack seen result : List String)
      → Walked ts root stack seen result
      → contains root result ≡ true
      → Leads ts root x
      → contains x result ≡ true
  Leads-complete ts root x stack seen result w known start = known
  Leads-complete ts root x stack seen result w known (on {b = b} path edge) =
      w.closed b x (Leads-complete ts root b stack seen result w known path) edge

  contains-insert_id :
      (ts : List (Todo V F)) (x a : String) (ids : List String)
      → contains x (insert_id ts a ids) ≡ contains x (a ∷ ids)
  unfolding insert_id
  contains-insert_id ts x a [] = refl
  contains-insert_id ts x a (b ∷ ids) = ground (arith, contains-insert_id ts x a ids)

  contains-sort_ids :
      (ts : List (Todo V F)) (x : String) (ids : List String)
      → contains x (sort_ids ts ids) ≡ contains x ids
  unfolding sort_ids
  contains-sort_ids ts x [] = refl
  contains-sort_ids ts x (a ∷ ids) =
      ground (arith, contains-insert_id ts x a (sort_ids ts ids), contains-sort_ids ts x ids)

contains-retain :
    (p : String → Bool) (x : String) (xs : List String)
    → contains x (retain p xs) ≡ contains x xs && p x
contains-retain p x [] = refl
contains-retain p x (y ∷ xs) = ground (arith, eq_iff y x, contains-retain p x xs)

module _ {V F : Type 0} where
  at_root : (ts : List (Todo V F)) (root y : String) → (root == y) ≡ true → Leads ts root y
  at_root ts root y h = rw (← (eq_iff root y).0 h) Leads.start

  contains-subtree_of :
      (ts : List (Todo V F)) (root x : String) (r : List String)
      → collect (total_deps ts + 2) ts (root ∷ []) [] ≡ some r
      → contains x (subtree_of ts root) ≡ contains x r && on_board ts x
  unfolding subtree_of
  contains-subtree_of ts root x r done =
      ap (λ (o : Option (List String)). contains x (sort_ids ts (retain (on_board ts) (found o))))
        done
      ∙ contains-sort_ids ts x (retain (on_board ts) r)
      ∙ contains-retain (on_board ts) x r

  -- The walk from a root ends within its fuel, and the tasks it gives are those that the board has
  -- and the root leads to along `depends_on`, in any number of steps.
  pub subtree_of_iff :
      (ts : List (Todo V F)) (root x : String)
      → (contains x (subtree_of ts root) ≡ true) ↔ (Leads ts root x × (on_board ts x ≡ true))
  subtree_of_iff ts root x =
      let (r, done, w) =
        collect-Walked (total_deps ts + 2) ts root (root ∷ []) [] (omega (arith, unvisited-nil ts))
          (λ y k. at_root ts root y (ground (arith, k))) (λ a b k edge. cc) in
      let inside = contains-subtree_of ts root x r done in
      (
        λ k. (w.sound x (ground (arith, inside, k)), ground (arith, inside, k)),
        λ (path, here). ground (
          arith,
          inside,
          here,
          Leads-complete ts root x (root ∷ []) [] r w (w.keeps root (ground (arith, eq_refl root)))
              path,
        ),
      )

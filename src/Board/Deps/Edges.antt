-- ===== src/Board/Deps/Edges.antt =====
-- How the operations of src-tauri/src/board/todos.rs change the edges along `depends_on`, and when an
-- added edge closes no cycle.
use claude_usage_tracker_win.Prelude.{
  String, ◌≡◌, refl, ◌⊎◌, inl, inr, true, false, not, any, Bool-cases, ok, ◌||◌, List, [], ◌∷◌,
  ◌++◌, ◌==◌, eq_iff, if◌then◌else◌, retain, update_first, contains, arith,
}
use claude_usage_tracker_win.Board.Todo.{Todo, TodoFile, Comment}
use claude_usage_tracker_win.Board.Edit.{
  Json, has_id, upsert, merge_row, new_row, set_status, with_status, add_comment, with_comment,
  remove_comment, without_comment,
}
use claude_usage_tracker_win.Board.Deps.{deps_of, push_dep, drop_dep}
use claude_usage_tracker_win.Board.Deps.Search.{Edge, Reaches, here, step}

contains-append :
    (x : String) (xs ys : List String) → contains x (xs ++ ys) ≡ contains x xs || contains x ys
contains-append x [] ys = refl
contains-append x (y ∷ xs) ys = ground (arith, contains-append x xs ys)

contains-retain :
    (x d : String) (xs : List String)
    → contains x (retain (λ y. not (y == d)) xs) ≡ true
    → contains x xs ≡ true
contains-retain x d [] h = h
contains-retain x d (y ∷ xs) h = ground (arith, contains-retain x d xs)

module _ {V F : Type 0} where
  -- No task reaches itself along `depends_on`.
  abbrev pub Acyclic : List (Todo V F) → Type 0
  Acyclic ts = (a b : String) → Edge ts a b → ¬ Reaches ts b a

  Reaches-mono :
      (ts us : List (Todo V F))
      → ((a b : String) → Edge ts a b → Edge us a b)
      → {a b : String} → Reaches ts a b
      → Reaches us a b
  Reaches-mono ts us f here = here
  Reaches-mono ts us f (step {a = a} {b = b} e r) = step (f a b e) (Reaches-mono ts us f r)

  -- Fewer edges, no new cycle.
  pub Acyclic-mono :
      (ts us : List (Todo V F))
      → ((a b : String) → Edge us a b → Edge ts a b)
      → Acyclic ts
      → Acyclic us
  Acyclic-mono ts us f acyclic a b e r = acyclic a b (f a b e) (Reaches-mono us ts f r)

  Reaches-trans :
      (ts : List (Todo V F)) {a b c : String} → Reaches ts a b → Reaches ts b c → Reaches ts a c
  Reaches-trans ts here r = r
  Reaches-trans ts (step e p) r = step e (Reaches-trans ts p r)

  -- The edges of `us` are those of `ts` and perhaps one from `f` to `o`.
  abbrev pub OneMore : List (Todo V F) → List (Todo V F) → String → String → Type 0
  OneMore ts us f o = (a b : String) → Edge us a b → Edge ts a b ⊎ ((a ≡ f) × (b ≡ o))

  -- A path that uses the new edge goes to its start and on from its end.
  split_path :
      (ts us : List (Todo V F)) (f o : String)
      → OneMore ts us f o
      → {a b : String} → Reaches us a b
      → Reaches ts a b ⊎ (Reaches ts a f × Reaches ts o b)
  split_path ts us f o more here = inl here
  split_path ts us f o more (step {a = a} {b = b} e r) = elim (more a b e) [
    | inl old ↦ elim (split_path ts us f o more r) [
      | inl p ↦ inl (step old p)
      | inr (p, q) ↦ inr (step old p, q)
    ]
    | inr (ea, eb) ↦ elim (split_path ts us f o more r) [
      | inl p ↦ inr (rw ea here, rw eb at p)
      | inr (p, q) ↦ inr (rw ea here, q)
    ]
  ]

  pub Acyclic-OneMore :
      (ts us : List (Todo V F)) (f o : String)
      → OneMore ts us f o
      → Acyclic ts
      → ¬ Reaches ts o f
      → Acyclic us
  Acyclic-OneMore ts us f o more acyclic apart a b e r = elim (more a b e) [
    | inl old ↦ elim (split_path ts us f o more r) [
      | inl p ↦ acyclic a b old p
      | inr (p, q) ↦ apart (Reaches-trans ts q (step old p))
    ]
    | inr (ea, eb) ↦ elim (split_path ts us f o more r) [
      | inl p ↦ apart (rw (← ea, ← eb) p)
      | inr (p, q) ↦ apart (rw eb at p)
    ]
  ]

  -- What an update of one row does to the edges, if it keeps the row's id.
  pub deps_of-update_first :
      (ts : List (Todo V F)) (id : String) (f : Todo V F → Todo V F)
      → ((t : Todo V F) → ((f t).id ≡ t.id) × ((f t).depends_on ≡ t.depends_on))
      → (a : String) → deps_of (update_first (has_id id) f ts) a ≡ deps_of ts a
  unfolding deps_of
  deps_of-update_first [] id f keep a = refl
  deps_of-update_first (t ∷ ts) id f keep a =
      ground (arith, keep t, deps_of-update_first ts id f keep a)

  pub OneMore-push_dep :
      (ts : List (Todo V F)) (f o now : String)
      → OneMore ts (update_first (has_id f) (push_dep o now) ts) f o
  unfolding deps_of
  OneMore-push_dep [] f o now a b e = inl e
  OneMore-push_dep (t ∷ ts) f o now a b e = ground (
    arith,
    eq_iff t.id f,
    eq_iff t.id a,
    eq_iff o b,
    contains-append b t.depends_on (o ∷ []),
    OneMore-push_dep ts f o now a b,
  )

  pub drop_dep-fewer :
      (ts : List (Todo V F)) (f o now a b : String)
      → Edge (update_first (has_id f) (drop_dep o now) ts) a b
      → Edge ts a b
  unfolding deps_of
  drop_dep-fewer [] f o now a b e = e
  drop_dep-fewer (t ∷ ts) f o now a b e =
      ground (arith, contains-retain b o t.depends_on, drop_dep-fewer ts f o now a b)

  pub deps_of-delete :
      (ts : List (Todo V F)) (id a : String)
      → deps_of (retain (λ t. not (has_id id t)) ts) a ≡ (if a == id then [] else deps_of ts a)
  unfolding deps_of
  deps_of-delete [] id a = ground arith
  deps_of-delete (t ∷ ts) id a =
      ground (arith, eq_iff t.id id, eq_iff t.id a, eq_iff a id, deps_of-delete ts id a)

  pub deps_of-append :
      (ts us : List (Todo V F)) (a : String)
      → any (has_id a) ts ≡ false
      → deps_of (ts ++ us) a ≡ deps_of us a
  unfolding deps_of
  deps_of-append [] us a h = refl
  deps_of-append (t ∷ ts) us a h = ground (arith, deps_of-append ts us a)

  pub deps_of-concat :
      (ts : List (Todo V F)) (u : Todo V F) (a : String)
      → any (has_id u.id) ts ≡ false
      → deps_of (ts ++ u ∷ []) a ≡ (if a == u.id then u.depends_on else deps_of ts a)
  unfolding deps_of
  deps_of-concat [] u a h = ground (arith, eq_iff u.id a, eq_iff a u.id)
  deps_of-concat (t ∷ ts) u a h =
      ground (arith, eq_iff t.id a, eq_iff t.id u.id, eq_iff a u.id, deps_of-concat ts u a)

  merge_row_keeps :
      (j : Json V) (old todo : Todo V F) (now : String)
      → ((merge_row j old todo now).id ≡ todo.id)
        × ((merge_row j old todo now).depends_on ≡ todo.depends_on)
  unfolding merge_row
  merge_row_keeps j old todo now = (refl, refl)

  deps_of-replace :
      (j : Json V) (todo : Todo V F) (now : String) (ts : List (Todo V F)) (a : String)
      → any (has_id todo.id) ts ≡ true
      → deps_of (update_first (has_id todo.id) (λ old. merge_row j old todo now) ts) a
        ≡ (if a == todo.id then todo.depends_on else deps_of ts a)
  unfolding deps_of
  deps_of-replace j todo now [] a h = cc
  deps_of-replace j todo now (t ∷ ts) a h = ground (
    arith,
    eq_iff t.id todo.id,
    eq_iff t.id a,
    eq_iff todo.id a,
    eq_iff a todo.id,
    merge_row_keeps j t todo now,
    deps_of-replace j todo now ts a,
  )

  -- What `upsert` does to the edges: the row's own edges are those that it is given.
  pub deps_of-upsert :
      (j : Json V) (file : TodoFile V F) (todo : Todo V F) (now a : String)
      → deps_of (upsert j file todo now).todos a
        ≡ (if a == todo.id then todo.depends_on else deps_of file.todos a)
  unfolding upsert
  deps_of-upsert j file todo now a = elim (Bool-cases (any (has_id todo.id) file.todos)) [
    | inl old ↦ rw old (deps_of-replace j todo now file.todos a old)
    | inr new ↦ rw new (deps_of-concat file.todos (new_row file todo now) a new)
  ]

  -- Edits that leave every row's edges where they are.
  abbrev pub SameDeps : TodoFile V F → TodoFile V F → Type 0
  SameDeps file file' = (a : String) → deps_of file'.todos a ≡ deps_of file.todos a

  pub set_status-SameDeps :
      (file : TodoFile V F) (id s now : String) → SameDeps file (set_status file id s now).0
  unfolding set_status
  set_status-SameDeps file id s now a =
      ground (arith, deps_of-update_first file.todos id (with_status s now) (λ t. (refl, refl)) a)

  pub add_comment-SameDeps :
      (file file' : TodoFile V F) (fresh id author body now : String)
      → add_comment file fresh id author body now ≡ ok file'
      → SameDeps file file'
  unfolding add_comment
  add_comment-SameDeps file file' fresh id author body now h a =
      let comment : Comment = record {
        id = fresh;
        author = author;
        body = body;
        created_at = now;
      } in
      ground
        (arith, deps_of-update_first file.todos id (with_comment comment now) (λ t. (refl, refl)) a)

  pub remove_comment-SameDeps :
      (file file' : TodoFile V F) (id c now : String)
      → remove_comment file id c now ≡ ok file'
      → SameDeps file file'
  unfolding remove_comment
  remove_comment-SameDeps file file' id c now h a =
      ground
        (arith, deps_of-update_first file.todos id (without_comment c now) (λ t. (refl, refl)) a)

  pub SameDeps-Acyclic :
      (file file' : TodoFile V F) → SameDeps file file' → Acyclic file.todos → Acyclic file'.todos
  SameDeps-Acyclic file file' same = Acyclic-mono file.todos file'.todos (λ a b e. rw (← same a) e)

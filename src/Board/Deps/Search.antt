-- ===== src/Board/Deps/Search.antt =====
-- `dep_reaches` of src-tauri/src/board/todos.rs decides reachability along `depends_on`.
use claude_usage_tracker_win.Prelude.{
  ℕ, zero, suc, ◌+◌, ◌≤◌, ◌<◌, String, ◌≡◌, refl, ap, ◌∙◌, ◌↔◌, inl, inr, Bool, true, false, ◌||◌,
  some, List, [], ◌∷◌, ◌==◌, eq_iff, eq_refl, if◌then◌else◌, length, contains, arith, Bool-cases,
}
use claude_usage_tracker_win.Board.Todo.{Todo, TodoFile}
use claude_usage_tracker_win.Board.Deps.{push_all, deps_of, visit, total_deps, dep_reaches}

contains-push_all :
    (x : String) (ds stack : List String)
    → contains x (push_all ds stack) ≡ contains x ds || contains x stack
unfolding push_all
contains-push_all x [] stack = refl
contains-push_all x (d ∷ ds) stack = ground (arith, contains-push_all x ds (d ∷ stack))

length-push_all : (ds stack : List String) → length (push_all ds stack) ≡ length ds + length stack
unfolding push_all
length-push_all [] stack = omega arith
length-push_all (d ∷ ds) stack = omega (arith, length-push_all ds (d ∷ stack))

module _ {V F : Type 0} where
  -- `a` depends on `b` directly; `a` reaches `b` in any number of steps.
  abbrev pub Edge : List (Todo V F) → String → String → Type 0
  Edge ts a b = contains b (deps_of ts a) ≡ true

  pub data Reaches (ts : List (Todo V F)) : String → String → Type 0 where
    here : {a : String} → Reaches ts a a
    step : {a b c : String} → Edge ts a b → Reaches ts b c → Reaches ts a c

  -- The edges of the rows not yet seen.
  unseen : List (Todo V F) → List String → ℕ
  unseen [] seen = 0
  unseen (t ∷ ts) seen = (if contains t.id seen then 0 else length t.depends_on) + unseen ts seen

  unseen-cons :
      (ts : List (Todo V F)) (id : String) (seen : List String)
      → unseen ts (id ∷ seen) ≤ unseen ts seen
  unfolding unseen
  unseen-cons [] id seen = omega arith
  unseen-cons (t ∷ ts) id seen = ground (arith, unseen-cons ts id seen)

  unseen-deps_of :
      (ts : List (Todo V F)) (id : String) (seen : List String)
      → contains id seen ≡ false
      → length (deps_of ts id) + unseen ts (id ∷ seen) ≤ unseen ts seen
  unfolding unseen deps_of
  unseen-deps_of [] id seen h = omega arith
  unseen-deps_of (t ∷ ts) id seen h =
      ground
        (arith, eq_iff t.id id, eq_iff id t.id, unseen-cons ts id seen, unseen-deps_of ts id seen h)

  unseen-nil : (ts : List (Todo V F)) → unseen ts [] ≡ total_deps ts
  unfolding unseen total_deps
  unseen-nil [] = refl
  unseen-nil (t ∷ ts) = omega (arith, unseen-nil ts)

  visit_total :
      (fuel : ℕ) (ts : List (Todo V F)) (target : String) (stack seen : List String)
      → length stack + unseen ts seen < fuel
      → (b : Bool) × (visit fuel ts target stack seen ≡ some b)
  unfolding visit
  visit_total zero ts target stack seen h = elim h [ ]
  visit_total (suc fuel) ts target [] seen h = (false, refl)
  visit_total (suc fuel) ts target (id ∷ stack) seen h = elim (Bool-cases (id == target)) [
    | inl hit ↦ (true, rw hit)
    | inr miss ↦ elim (Bool-cases (contains id seen)) [
      | inl old ↦ rw (miss, old) (visit_total fuel ts target stack seen (omega arith))
      | inr new ↦
          rw (miss, new)
            (visit_total fuel ts target (push_all (deps_of ts id) stack) (id ∷ seen)
              (omega (arith, length-push_all (deps_of ts id) stack, unseen-deps_of ts id seen new)))
    ]
  ]

  -- An answer `true` comes from an entry of the stack that reaches the target.
  visit_sound :
      (fuel : ℕ) (ts : List (Todo V F)) (target : String) (stack seen : List String)
      → visit fuel ts target stack seen ≡ some true
      → (x : String) × (contains x stack ≡ true) × Reaches ts x target
  unfolding visit
  visit_sound zero ts target stack seen h = cc
  visit_sound (suc fuel) ts target [] seen h = cc
  visit_sound (suc fuel) ts target (id ∷ stack) seen h = elim (Bool-cases (id == target)) [
    | inl hit ↦ (id, ground (arith, eq_refl id), rw ((eq_iff id target).0 hit) here)
    | inr miss ↦ elim (Bool-cases (contains id seen)) [
      | inl old ↦
          let (x, on, path) = visit_sound fuel ts target stack seen (rw (miss, old) at h) in
          (x, ground arith, path)
      | inr new ↦
          let (x, on, path) =
            visit_sound fuel ts target (push_all (deps_of ts id) stack) (id ∷ seen)
              (rw (miss, new) at h) in
          elim (Bool-cases (contains x (deps_of ts id))) [
            | inl edge ↦ (id, ground (arith, eq_refl id), step edge path)
            | inr old ↦ (x, ground (arith, contains-push_all x (deps_of ts id) stack), path)
          ]
    ]
  ]

  -- Every edge of a seen task leads to a task that is seen or waits on the stack.
  abbrev Explored : List (Todo V F) → List String → List String → Type 0
  Explored ts stack seen =
      (a b : String)
      → contains a seen ≡ true
      → Edge ts a b
      → (contains b seen || contains b stack) ≡ true

  Explored-expand :
      (ts : List (Todo V F)) (id : String) (stack seen : List String)
      → Explored ts (id ∷ stack) seen
      → Explored ts (push_all (deps_of ts id) stack) (id ∷ seen)
  Explored-expand ts id stack seen h a b known edge =
      ground (arith, eq_iff id a, contains-push_all b (deps_of ts id) stack, h a b)

  closed_miss :
      (ts : List (Todo V F)) (target : String) (seen : List String)
      → Explored ts [] seen
      → contains target seen ≡ false
      → (x : String) → contains x seen ≡ true
      → ¬ Reaches ts x target
  closed_miss ts target seen h miss x known here = cc
  closed_miss ts target seen h miss x known (step {b = b} edge path) =
      closed_miss ts target seen h miss b (ground (arith, h x b known edge)) path

  -- An answer `false` means that nothing seen or on the stack reaches the target.
  visit_complete :
      (fuel : ℕ) (ts : List (Todo V F)) (target : String) (stack seen : List String)
      → visit fuel ts target stack seen ≡ some false
      → Explored ts stack seen
      → contains target seen ≡ false
      → (x : String) → (contains x seen || contains x stack) ≡ true
      → ¬ Reaches ts x target
  unfolding visit
  visit_complete zero ts target stack seen h e miss x known path = cc
  visit_complete (suc fuel) ts target [] seen h e miss x known path =
      closed_miss ts target seen e miss x (ground arith) path
  visit_complete (suc fuel) ts target (id ∷ stack) seen h e miss x known path =
      elim (Bool-cases (id == target)) [
        | inl hit ↦ absurd (cc (rw hit at h))
        | inr other ↦ elim (Bool-cases (contains id seen)) [
          | inl old ↦
              visit_complete fuel ts target stack seen (rw (other, old) at h)
                (λ a b ka edge. ground (arith, e a b ka edge, eq_iff id b)) miss x
                (ground (arith, eq_iff id x)) path
          | inr new ↦
              visit_complete fuel ts target (push_all (deps_of ts id) stack) (id ∷ seen)
                (rw (other, new) at h) (Explored-expand ts id stack seen e) (ground arith) x
                (ground (arith, contains-push_all x (deps_of ts id) stack)) path
        ]
      ]

  -- The search ends within its fuel with the answer that it reports.
  dep_reaches-visit :
      (file : TodoFile V F) (start target : String)
      → visit (total_deps file.todos + 2) file.todos target (start ∷ []) []
        ≡ some (dep_reaches file start target)
  unfolding dep_reaches
  dep_reaches-visit file start target =
      let (b, e) =
        visit_total (total_deps file.todos + 2) file.todos target (start ∷ []) []
          (omega (arith, unseen-nil file.todos)) in
      rw e

  -- `dep_reaches` answers `true` exactly when the target can be reached from the start along
  -- `depends_on`, in any number of steps.
  pub dep_reaches_iff :
      (file : TodoFile V F) (start target : String)
      → (dep_reaches file start target ≡ true) ↔ Reaches file.todos start target
  dep_reaches_iff file start target = (
    λ h.
        let (x, on, path) =
          visit_sound (total_deps file.todos + 2) file.todos target (start ∷ []) []
            (dep_reaches-visit file start target ∙ ap some h) in
        rw ((eq_iff start x).0 (ground arith)) path,
    λ path. elim (Bool-cases (dep_reaches file start target)) [
      | inl h ↦ h
      | inr h ↦ absurd (
          visit_complete (total_deps file.todos + 2) file.todos target (start ∷ []) []
            (dep_reaches-visit file start target ∙ ap some h) (λ a b ka _. cc) refl start
            (ground (arith, eq_refl start)) path)
    ],
  )

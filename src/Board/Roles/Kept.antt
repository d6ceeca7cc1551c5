-- ===== src/Board/Roles/Kept.antt =====
-- `migrate_plan_roles` of src-tauri/src/board/todos.rs loses no text of a plan.
use Prim.Native.Char.{Char, code}
use claude_usage_tracker_win.Prelude.{
  ℕ, ◌≤◌, String, ◌≡◌, refl, ◌∙◌, ap, sym, true, false, Option, none, some, List, [], ◌∷◌, ◌++◌,
  ◌==◌, eqb, leb, trim, arith, Bool-cases, Option-cases, inl, inr,
}
use claude_usage_tracker_win.Board.Todo.{Todo, TodoFile, Comment}
use claude_usage_tracker_win.Board.Refs.{Unicode, join}
use claude_usage_tracker_win.Board.Roles.{
  split_inclusive, onto_line, concat, is_seam, at_seam, split_vision, archive_heading, with_vision,
  archived, is_stub, migrate_role, migrate_roles, migrate_plan_roles,
}

concat-onto_line :
    (c : Char) (ls : List String) → concat (onto_line c ls) ≡ String.◌∷◌ c (concat ls)
unfolding concat
concat-onto_line c [] = refl
concat-onto_line c (l ∷ ls) = refl

concat-split_inclusive : (s : String) → concat (split_inclusive s) ≡ s
unfolding concat split_inclusive
concat-split_inclusive String.[] = refl
concat-split_inclusive (String.◌∷◌ c s) = elim (Bool-cases (eqb (code c) 10)) [
  | inl e ↦ rw e (ap (λ (r : String). String.◌∷◌ c r) (concat-split_inclusive s))
  | inr e ↦ rw e (
      concat-onto_line c (split_inclusive s)
      ∙ ap (λ (r : String). String.◌∷◌ c r) (concat-split_inclusive s))
]

join_assoc : (a b c : String) → join (join a b) c ≡ join a (join b c)
join_assoc String.[] b c = refl
join_assoc (String.◌∷◌ x a) b c = ap (λ (r : String). String.◌∷◌ x r) (join_assoc a b c)

concat-append : (xs ys : List String) → concat (xs ++ ys) ≡ join (concat xs) (concat ys)
unfolding concat
concat-append [] ys = refl
concat-append (x ∷ xs) ys =
    ap (join x) (concat-append xs ys) ∙ sym (join_assoc x (concat xs) (concat ys))

-- The two parts of a plan, their outer blanks aside, with an intro that is not blank.
pub record Parted (plan vision steps : String) : Type 0 where
  pub intro : String
  pub rest : String
  pub whole : join intro rest ≡ plan
  pub vision_kept : vision ≡ trim intro
  pub steps_kept : steps ≡ trim rest
  pub not_blank : (trim intro == "") ≡ false

module _ (u : Unicode) where
  -- The lines of both sides are the lines of the text.
  at_seam-append :
      (ls intro rest : List String) → at_seam u ls ≡ some (intro, rest) → intro ++ rest ≡ ls
  unfolding at_seam
  at_seam-append [] intro rest h = cc
  at_seam-append (l ∷ ls) intro rest h = elim (Bool-cases (is_seam u l)) [
    | inl e ↦ ground (arith, e, h)
    | inr e ↦ elim (Option-cases (at_seam u ls)) [
      | inl k ↦ absurd (ground (arith, e, k, h))
      | inr ((i, r), k) ↦ ground (arith, e, k, h, at_seam-append ls i r k)
    ]
  ]

  split_vision-Parted :
      (plan vision steps : String)
      → split_vision u plan ≡ some (vision, steps)
      → Parted plan vision steps
  unfolding split_vision
  split_vision-Parted plan vision steps h = elim (Option-cases (at_seam u (split_inclusive plan))) [
    | inl e ↦ absurd (ground (arith, e, h))
    | inr ((is, rs), e) ↦ elim (Bool-cases (trim (concat is) == "")) [
      | inl blank ↦ absurd (ground (arith, e, h, blank))
      | inr full ↦ record {
        intro = concat is;
        rest = concat rs;
        whole =
            sym (concat-append is rs)
            ∙ ap concat (at_seam-append (split_inclusive plan) is rs e)
            ∙ concat-split_inclusive plan;
        vision_kept = ground (arith, e, h, full);
        steps_kept = ground (arith, e, h, full);
        not_blank = full;
      }
    ]
  ]

module _ {V F : Type 0} where
  -- What may become of a row: it stays; its plan goes into a new comment; its plan is parted, where it
  -- had no description.
  pub data Moved (t : Todo V F) : Todo V F → Type 0 where
    stayed : Moved t t
    archived_plan :
        (c : Comment)
        → c.body ≡ join archive_heading (trim t.plan)
        → Moved t (record t { comments = t.comments ++ c ∷ []; plan = "" })
    parted :
        (vision steps : String)
        → (trim t.description == "") ≡ true
        → Parted (trim t.plan) vision steps
        → Moved t (record t { description = vision; plan = steps })

  pub data AllMoved : List (Todo V F) → List (Todo V F) → Type 0 where
    no_rows : AllMoved [] []
    row :
        {t t' : Todo V F} {ts ts' : List (Todo V F)}
        → Moved t t'
        → AllMoved ts ts'
        → AllMoved (t ∷ ts) (t' ∷ ts')

  all_stayed : (ts : List (Todo V F)) → AllMoved ts ts
  all_stayed [] = AllMoved.no_rows
  all_stayed (t ∷ ts) = AllMoved.row Moved.stayed (all_stayed ts)

module _ {V F : Type 0} (u : Unicode) (new_id : ℕ → String) (now : String) where
  with_vision-Moved :
      (t : Todo V F) (o : Option (String × String))
      → (trim t.description == "") ≡ true
      → split_vision u (trim t.plan) ≡ o
      → Moved t (with_vision u new_id now t o)
  with_vision-Moved t none blank h = Moved.stayed
  with_vision-Moved t (some (vision, steps)) blank h =
      Moved.parted vision steps blank (split_vision-Parted u (trim t.plan) vision steps h)

  migrate_role-Moved : (drawn : ℕ) (t : Todo V F) → Moved t (migrate_role u new_id now drawn t).0
  unfolding migrate_role archived
  migrate_role-Moved drawn t = elim (Bool-cases (trim t.plan == "")) [
    | inl e ↦ rw e Moved.stayed
    | inr e ↦ elim (Bool-cases (is_stub (trim t.plan))) [
      | inl s ↦
          rw (e, s)
            (Moved.archived_plan
              (record {
                id = new_id drawn;
                author = "claude";
                body = join archive_heading (trim t.plan);
                created_at = now;
              })
              refl)
      | inr s ↦ elim (Bool-cases (trim t.description == "")) [
        | inl d ↦ rw (e, s, d) (with_vision-Moved t (split_vision u (trim t.plan)) d refl)
        | inr d ↦ rw (e, s, d) Moved.stayed
      ]
    ]
  ]

  migrate_roles-AllMoved :
      (drawn : ℕ) (ts : List (Todo V F)) → AllMoved ts (migrate_roles u new_id now drawn ts)
  unfolding migrate_roles
  migrate_roles-AllMoved drawn [] = AllMoved.no_rows
  migrate_roles-AllMoved drawn (t ∷ ts) =
      AllMoved.row (migrate_role-Moved drawn t)
        (migrate_roles-AllMoved (migrate_role u new_id now drawn t).1 ts)

  -- The migration loses no text of a plan: each row stays, or its whole plan goes into a new comment,
  -- or, where it had no description, the two parts of the plan, outer blanks aside, become description
  -- and plan; all else of the row is as it was. The board is then of version 2 at least.
  pub migrate_plan_roles-AllMoved :
      (file : TodoFile V F)
      → AllMoved file.todos (migrate_plan_roles u new_id now file).todos
        × (2 ≤ (migrate_plan_roles u new_id now file).version)
  unfolding migrate_plan_roles
  migrate_plan_roles-AllMoved file = elim (Bool-cases (leb 2 file.version)) [
    | inl e ↦ (rw e (all_stayed file.todos), ground (arith, e))
    | inr e ↦ (rw e (migrate_roles-AllMoved 0 file.todos), ground (arith, e))
  ]

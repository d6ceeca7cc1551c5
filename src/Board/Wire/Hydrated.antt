-- ===== src/Board/Wire/Hydrated.antt =====
-- The rows after `hydrate_v3_process_fields` of src-tauri/src/board/todos.rs.
use claude_usage_tracker_win.Prelude.{
  ℕ, zero, suc, get_elem?, ◌^◌, String, ◌≡◌, refl, ◌∙◌, ap, false, Option, none, some, List, [],
  ◌∷◌, ltb, if◌then◌else◌, contains, Dict, get, arith, ◌==◌, map,
}
use claude_usage_tracker_win.Prelude.Json.{
  Value, null, boolean, number, string, array, object, Values, nil, cons, members, Members,
}
use claude_usage_tracker_win.Board.Todo.{Todo, TodoFile}
use claude_usage_tracker_win.Board.Wire.{Wire, object_or_empty, todo_process_fields}
use claude_usage_tracker_win.Board.Wire.Hydrate.{
  as_str, strings, as_strings, as_number, u32_or, hydrate_todo, with_process, unknown_fields,
  hydrate_v3_process_fields, get-unknown_fields, put_unknown-process, put_unknown-rest,
}

-- What a process field holds, read off the value under its key: a text, the texts of an array, a
-- whole number, a number; none where the value is of another type.
module _ {N : Type 0} where
  abbrev pub text_in : Option (Value N) → Option String
  text_in none = none
  text_in (some null) = none
  text_in (some (boolean b)) = none
  text_in (some (number n)) = none
  text_in (some (string s)) = some s
  text_in (some (array vs)) = none
  text_in (some (object ms)) = none

  abbrev pub texts_of : Values N → List String
  texts_of nil = []
  texts_of (cons null vs) = texts_of vs
  texts_of (cons (boolean b) vs) = texts_of vs
  texts_of (cons (number n) vs) = texts_of vs
  texts_of (cons (string s) vs) = s ∷ texts_of vs
  texts_of (cons (array ws) vs) = texts_of vs
  texts_of (cons (object ms) vs) = texts_of vs

  abbrev pub texts_in : Option (Value N) → Option (List String)
  texts_in none = none
  texts_in (some null) = none
  texts_in (some (boolean b)) = none
  texts_in (some (number n)) = none
  texts_in (some (string s)) = none
  texts_in (some (array vs)) = some (texts_of vs)
  texts_in (some (object ms)) = none

  abbrev pub converted_in : {A : Type 0} → (N → Option A) → Option (Value N) → Option A
  converted_in f none = none
  converted_in f (some null) = none
  converted_in f (some (boolean b)) = none
  converted_in f (some (number n)) = f n
  converted_in f (some (string s)) = none
  converted_in f (some (array vs)) = none
  converted_in f (some (object ms)) = none

  text_at-text_in : (v : Option (Value N)) → elim v [ none ↦ none | some u ↦ as_str u ] ≡ text_in v
  text_at-text_in none = refl
  text_at-text_in (some null) = refl
  text_at-text_in (some (boolean b)) = refl
  text_at-text_in (some (number n)) = refl
  text_at-text_in (some (string s)) = refl
  text_at-text_in (some (object ms)) = refl
  text_at-text_in (some (array vs)) = refl

  strings-texts_of : (vs : Values N) → strings vs ≡ texts_of vs
  unfolding strings
  strings-texts_of nil = refl
  strings-texts_of (cons null vs) = strings-texts_of vs
  strings-texts_of (cons (boolean b) vs) = strings-texts_of vs
  strings-texts_of (cons (number n) vs) = strings-texts_of vs
  strings-texts_of (cons (string s) vs) = ap (λ (l : List String). s ∷ l) (strings-texts_of vs)
  strings-texts_of (cons (array ws) vs) = strings-texts_of vs
  strings-texts_of (cons (object ms) vs) = strings-texts_of vs

  strings_at-texts_in :
      (v : Option (Value N)) → elim v [ none ↦ none | some u ↦ as_strings u ] ≡ texts_in v
  strings_at-texts_in none = refl
  strings_at-texts_in (some null) = refl
  strings_at-texts_in (some (boolean b)) = refl
  strings_at-texts_in (some (number n)) = refl
  strings_at-texts_in (some (string s)) = refl
  strings_at-texts_in (some (object ms)) = refl
  strings_at-texts_in (some (array vs)) = ap some (strings-texts_of vs)

  number_in-converted_in :
      {A : Type 0} (f : N → Option A) (v : Option (Value N))
      → elim (elim v as (λ (x : Option (Value N)). Option N) [
        | none ↦ none
        | some u ↦ as_number u
      ]) [ none ↦ none | some n ↦ f n ]
        ≡ converted_in f v
  number_in-converted_in f none = refl
  number_in-converted_in f (some null) = refl
  number_in-converted_in f (some (boolean b)) = refl
  number_in-converted_in f (some (number n)) = refl
  number_in-converted_in f (some (string s)) = refl
  number_in-converted_in f (some (object ms)) = refl
  number_in-converted_in f (some (array vs)) = refl

-- What the load makes of a row whose `ext.process` is the object `p`: each process field of the
-- right type there replaces the row's (a whole number that fits no `u32` by none), and all else but
-- `ext` is the row's.
pub record HydratedRow {N F : Type 0} (w : Wire N F) (p : Dict (Value N)) (t r : Todo (Value N) F)
    : Type 0 where
  pub produces : r.produces ≡ elim (texts_in (get p "produces")) [ none ↦ t.produces | some v ↦ v ]
  pub verify : r.verify ≡ elim (text_in (get p "verify")) [ none ↦ t.verify | some v ↦ v ]
  pub retry_limit : r.retry_limit ≡ elim (converted_in w.as_u64 (get p "retry_limit")) [
    | none ↦ t.retry_limit
    | some n ↦ if ltb n (2 ^ 32) then some n else none
  ]
  pub on_issue :
      r.on_issue ≡ elim (text_in (get p "on_issue")) [ none ↦ t.on_issue | some v ↦ some v ]
  pub budget_usd :
      r.budget_usd
      ≡ elim (converted_in w.as_f64 (get p "budget_usd")) [ none ↦ t.budget_usd | some v ↦ some v ]
  pub parallel_limit : r.parallel_limit ≡ elim (converted_in w.as_u64 (get p "parallel_limit")) [
    | none ↦ t.parallel_limit
    | some n ↦ if ltb n (2 ^ 32) then some n else none
  ]
  pub outcome : r.outcome ≡ elim (text_in (get p "outcome")) [ none ↦ t.outcome | some v ↦ v ]
  pub outcome_reason :
      r.outcome_reason
      ≡ elim (text_in (get p "outcome_reason")) [ none ↦ t.outcome_reason | some v ↦ v ]
  pub outcome_at :
      r.outcome_at ≡ elim (text_in (get p "outcome_at")) [ none ↦ t.outcome_at | some v ↦ v ]
  pub handout_at :
      r.handout_at ≡ elim (text_in (get p "handout_at")) [ none ↦ t.handout_at | some v ↦ some v ]
  pub others : r ≡ record t {
    produces = r.produces;
    verify = r.verify;
    retry_limit = r.retry_limit;
    on_issue = r.on_issue;
    budget_usd = r.budget_usd;
    parallel_limit = r.parallel_limit;
    outcome = r.outcome;
    outcome_reason = r.outcome_reason;
    outcome_at = r.outcome_at;
    handout_at = r.handout_at;
    ext = r.ext;
  }

-- The keys of the process fields of a row.
abbrev pub process_keys : List String
process_keys =
    "produces" ∷ "verify" ∷ "retry_limit" ∷ "on_issue" ∷ "budget_usd" ∷ "parallel_limit" ∷ "outcome"
    ∷ "outcome_reason" ∷ "outcome_at" ∷ "handout_at" ∷ []

get_elem?-map :
    {A B : Type 0} (f : A → B) (xs : List A) (i : ℕ) (x : A)
    → get_elem? xs i ≡ some x
    → get_elem? (map f xs) i ≡ some (f x)
get_elem?-map f [] i x h = cc
get_elem?-map f (y ∷ xs) zero x h = ground arith
get_elem?-map f (y ∷ xs) (suc i) x h = get_elem?-map f xs i x h

module _ {N F : Type 0} (w : Wire N F) where
  hydrate_todo-HydratedRow :
      (p : Dict (Value N)) (t : Todo (Value N) F) → HydratedRow w p t (hydrate_todo w p t)
  unfolding hydrate_todo u32_or
  hydrate_todo-HydratedRow p t = record {
    produces = ground (arith, strings_at-texts_in (get p "produces"));
    verify = ground (arith, text_at-text_in (get p "verify"));
    retry_limit = ground (arith, number_in-converted_in w.as_u64 (get p "retry_limit"));
    on_issue = ground (arith, text_at-text_in (get p "on_issue"));
    budget_usd = ground (arith, number_in-converted_in w.as_f64 (get p "budget_usd"));
    parallel_limit = ground (arith, number_in-converted_in w.as_u64 (get p "parallel_limit"));
    outcome = ground (arith, text_at-text_in (get p "outcome"));
    outcome_reason = ground (arith, text_at-text_in (get p "outcome_reason"));
    outcome_at = ground (arith, text_at-text_in (get p "outcome_at"));
    handout_at = ground (arith, text_at-text_in (get p "handout_at"));
    others = refl;
  }

  hydrate_todo-ext :
      (p : Dict (Value N)) (t : Todo (Value N) F) (k namespace : String)
      → ("process" == namespace) ≡ false
      → (get (object_or_empty (get (hydrate_todo w p t).ext "process")) k
          ≡ (if contains k process_keys then none else get p k))
        × (get (hydrate_todo w p t).ext namespace ≡ get t.ext namespace)
  unfolding hydrate_todo
  hydrate_todo-ext p t k namespace other = (
    ap (λ (d : Dict (Value _)). get d k)
          (put_unknown-process t.ext (unknown_fields todo_process_fields p))
        ∙ get-unknown_fields todo_process_fields p k,
    put_unknown-rest t.ext (unknown_fields todo_process_fields p) namespace other,
  )

  -- The load puts the process fields of the object under `ext.process` of a row into the row and
  -- takes exactly them out of that object: every other key there, of a newer program, stays with
  -- its value, and so does every other namespace under `ext`.
  pub hydrate_v3_process_fields-HydratedRow :
      (file : TodoFile (Value N) F) (i : ℕ) (t : Todo (Value N) F) (ms : Members N)
      (k namespace : String)
      → get_elem? file.todos i ≡ some t
      → get t.ext "process" ≡ some (Value.object ms)
      → ("process" == namespace) ≡ false
      → (r : Todo (Value N) F) × (get_elem? (hydrate_v3_process_fields w file).todos i ≡ some r)
        × HydratedRow w (members ms) t r
        × (get (object_or_empty (get r.ext "process")) k
            ≡ (if contains k process_keys then none else get (members ms) k))
        × (get r.ext namespace ≡ get t.ext namespace)
  unfolding hydrate_v3_process_fields with_process
  hydrate_v3_process_fields-HydratedRow file i t ms k namespace at here other =
      let kept = hydrate_todo-ext (members ms) t k namespace other in
      (
        hydrate_todo w (members ms) t,
        get_elem?-map (λ u. with_process w (get u.ext "process") (hydrate_todo w) u) file.todos i t
              at
            ∙ ap (λ v. some (with_process w v (hydrate_todo w) t)) here,
        hydrate_todo-HydratedRow (members ms) t,
        kept.0,
        kept.1,
      )

-- ===== src/Board/Wire/Moved.antt =====
-- What `move_process_fields` of src-tauri/src/board/todos.rs does to the fields of a row.
use claude_usage_tracker_win.Prelude.{
  String, ◌≡◌, refl, ap, sym, ◌∙◌, inl, inr, Bool, true, false, ◌&&◌, Option, none, some, List, [],
  ◌∷◌, if◌then◌else◌, any, contains, Dict, get, insert, remove, get-insert, get-remove, arith, ◌==◌,
  eq_iff, eq_refl, Option-cases, Bool-cases,
}
use claude_usage_tracker_win.Prelude.Json.{
  Value, null, boolean, number, string, array, object, members, of_members, members-of_members,
}
use claude_usage_tracker_win.Board.Wire.{
  object_or_empty, process_of, contains_key, has_process_and_legacy, move_fields, insert_object,
  moved, move_process_fields, is_some,
}

-- `a.or(b)`
abbrev pub or_option {ℓ} : {A : Type ℓ} → Option A → Option A → Option A
or_option none b = b
or_option (some x) b = some x

ext_apart :
    (fields : List String) (k : String)
    → contains "ext" fields ≡ false
    → contains k fields ≡ true
    → ("ext" == k) ≡ false
ext_apart fields k apart h = elim (Bool-cases ("ext" == k)) [
  | inl e ↦ absurd (cc (ap (λ (s : String). contains s fields) ((eq_iff "ext" k).0 e), apart, h))
  | inr e ↦ e
]

any-false :
    (p : String → Bool) (fs : List String)
    → ((k : String) → contains k fs ≡ true → p k ≡ false)
    → any p fs ≡ false
any-false p [] h = refl
any-false p (f ∷ fs) h =
    ground (arith, h f, eq_refl f, any-false p fs (λ k here. h k (ground (arith, here))))

any-at :
    (p : String → Bool) (fs : List String) (k : String)
    → any p fs ≡ false
    → contains k fs ≡ true
    → p k ≡ false
any-at p [] k h here = cc
any-at p (f ∷ fs) k h here = elim (Bool-cases (f == k)) [
  | inl e ↦ sym (ap p ((eq_iff f k).0 e)) ∙ ground (arith, h)
  | inr e ↦ any-at p fs k (ground (arith, h)) (ground (arith, e, here))
]

module _ {N : Type 0} where
  -- Off the fields the object keeps its entries, of the fields it keeps none.
  move_fields-rest :
      (fields : List String) (obj process : Dict (Value N)) (k : String)
      → get (move_fields fields obj process).0 k ≡ (if contains k fields then none else get obj k)
  unfolding move_fields
  move_fields-rest [] obj process k = refl
  move_fields-rest (f ∷ fs) obj process k = elim (Option-cases (get obj f)) [
    | inl e ↦ ground (arith, e, eq_iff f k, move_fields-rest fs obj process k)
    | inr (v, e) ↦ ground (
      arith,
      e,
      eq_iff f k,
      move_fields-rest fs (remove obj f) (insert process f v) k,
      get-remove obj f k,
    )
  ]

  -- The fields go under `process`.
  move_fields-process :
      (fields : List String) (obj process : Dict (Value N)) (k : String)
      → get (move_fields fields obj process).1 k
        ≡ (if contains k fields then or_option (get obj k) (get process k) else get process k)
  unfolding move_fields
  move_fields-process [] obj process k = refl
  move_fields-process (f ∷ fs) obj process k = elim (Option-cases (get obj f)) [
    | inl e ↦ ground (arith, e, eq_iff f k, move_fields-process fs obj process k)
    | inr (v, e) ↦ ground (
      arith,
      e,
      eq_iff f k,
      move_fields-process fs (remove obj f) (insert process f v) k,
      get-remove obj f k,
      get-insert process f k v,
    )
  ]

  get-insert_object :
      (outer inner : Dict (Value N)) (key k : String)
      → (key == k) ≡ false
      → get (insert_object outer key inner) k ≡ get outer k
  unfolding insert_object
  get-insert_object outer [] key k h = refl
  get-insert_object outer (e ∷ inner) key k h =
      ground (arith, h, get-insert outer key k (Value.object (of_members (e ∷ inner))))

  -- An object inserted under a key that was free is found there, an empty one as none.
  object-insert_object :
      (outer inner : Dict (Value N)) (key : String)
      → get outer key ≡ none
      → object_or_empty (get (insert_object outer key inner) key) ≡ inner
  unfolding insert_object
  object-insert_object outer [] key h = rw h refl
  object-insert_object outer (e ∷ inner) key h = ground (
    arith,
    get-insert outer key key (Value.object (of_members (e ∷ inner))),
    eq_refl key,
    members-of_members (e ∷ inner),
  )

  -- The field of a row as the load reads it: under `ext.process`, else of the row itself.
  abbrev pub field_of : Dict (Value N) → String → Option (Value N)
  field_of obj k = or_option (get (process_of obj) k) (get obj k)

  -- Of the row itself, a process field is gone, any other but `ext` is as it was.
  pub moved-rest :
      (fields : List String) (obj : Dict (Value N)) (k : String)
      → ("ext" == k) ≡ false
      → get (moved fields obj) k ≡ (if contains k fields then none else get obj k)
  unfolding moved
  moved-rest fields obj k h =
      let ext = object_or_empty (get obj "ext") in
      let process = object_or_empty (get ext "process") in
      let m = move_fields fields (remove obj "ext") process in
      get-insert_object m.0 (insert_object (remove ext "process") "process" m.1) "ext" k h
      ∙ move_fields-rest fields (remove obj "ext") process k
      ∙ ground (arith, get-remove obj "ext" k, h)

  -- What is under `ext.process` afterwards.
  pub moved-process :
      (fields : List String) (obj : Dict (Value N)) (k : String)
      → contains "ext" fields ≡ false
      → contains k fields ≡ true
      → get (process_of (moved fields obj)) k ≡ or_option (get obj k) (get (process_of obj) k)
  unfolding moved
  moved-process fields obj k apart h =
      let ext = object_or_empty (get obj "ext") in
      let process = object_or_empty (get ext "process") in
      let m = move_fields fields (remove obj "ext") process in
      let inner = insert_object (remove ext "process") "process" m.1 in
      let off : get m.0 "ext" ≡ none = ground (
        arith,
        apart,
        move_fields-rest fields (remove obj "ext") process "ext",
        get-remove obj "ext" "ext",
        eq_refl "ext",
      ) in
      let free : get (remove ext "process") "process" ≡ none =
        ground (arith, get-remove ext "process" "process", eq_refl "process") in
      ap (λ (d : Dict (Value N)). get (object_or_empty (get d "process")) k)
        (object-insert_object m.0 inner "ext" off)
      ∙ ap (λ (d : Dict (Value N)). get d k)
          (object-insert_object (remove ext "process") m.1 "process" free)
      ∙ move_fields-process fields (remove obj "ext") process k
      ∙ ground (arith, h, get-remove obj "ext" k, ext_apart fields k apart h)

  moved-unmixed :
      (fields : List String) (obj : Dict (Value N))
      → contains "ext" fields ≡ false
      → any
          (λ f. contains_key (moved fields obj) f && contains_key (process_of (moved fields obj)) f)
          fields
        ≡ false
  unfolding contains_key
  moved-unmixed fields obj apart =
      any-false
        (λ f. is_some (get (moved fields obj) f) && is_some (get (process_of (moved fields obj)) f))
        fields (λ k h. ground (arith, moved-rest fields obj k (ext_apart fields k apart h), h))

  no_entries-unmixed :
      (fields : List String) (value : Value N)
      → object_or_empty (some value) ≡ []
      → has_process_and_legacy value fields ≡ false
  unfolding has_process_and_legacy contains_key get
  no_entries-unmixed fields value h = rw h (any-false (λ f. false) fields (λ k here. refl))

  -- A row whose process fields were moved has none of them in both places, whatever it had before.
  pub move_process_fields-unmixed :
      (fields : List String) (value : Value N)
      → contains "ext" fields ≡ false
      → has_process_and_legacy (move_process_fields fields value) fields ≡ false
  unfolding has_process_and_legacy move_process_fields
  move_process_fields-unmixed fields (object ms) apart =
      rw (members-of_members (moved fields (members ms))) (moved-unmixed fields (members ms) apart)
  move_process_fields-unmixed fields null apart = no_entries-unmixed fields Value.null refl
  move_process_fields-unmixed fields (boolean b) apart =
      no_entries-unmixed fields (Value.boolean b) refl
  move_process_fields-unmixed fields (number n) apart =
      no_entries-unmixed fields (Value.number n) refl
  move_process_fields-unmixed fields (string s) apart =
      no_entries-unmixed fields (Value.string s) refl
  move_process_fields-unmixed fields (array vs) apart =
      no_entries-unmixed fields (Value.array vs) refl

  -- On a row that has no process field in both places the move changes no field as the load reads
  -- it, under `ext.process` or else of the row itself.
  pub moved-field_of :
      (fields : List String) (obj : Dict (Value N)) (k : String)
      → contains "ext" fields ≡ false
      → has_process_and_legacy (Value.object (of_members obj)) fields ≡ false
      → contains k fields ≡ true
      → field_of (moved fields obj) k ≡ field_of obj k
  unfolding has_process_and_legacy contains_key
  moved-field_of fields obj k apart unmixed h =
      let apart_k =
        any-at (λ f. is_some (get obj f) && is_some (get (process_of obj) f)) fields k
          (rw (members-of_members obj) at unmixed) h in
      ground (
        arith,
        moved-process fields obj k apart h,
        moved-rest fields obj k (ext_apart fields k apart h),
        h,
        apart_k,
      )

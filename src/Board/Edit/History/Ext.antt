-- ===== src/Board/Edit/History/Ext.antt =====
-- How `upsert` of src-tauri/src/board/todos.rs merges `ext`, the data of other programs.
use claude_usage_tracker_win.Prelude.{
  String, ◌≡◌, refl, inl, inr, Option, some, none, [], ◌∷◌, ◌==◌, eq_iff, if◌then◌else◌, arith,
  Option-cases, Dict, get, insert, extend, get-insert,
}
use claude_usage_tracker_win.Board.Edit.{Json, merge_namespace, merge_ext}

-- A map has one entry for a key.
abbrev pub KeysDistinct {ℓ} : {V : Type ℓ} → Dict V → Type ℓ
KeysDistinct [] = Unit
KeysDistinct ((k, v) ∷ m) = (get m k ≡ none) × KeysDistinct m

module _ {ℓ} {V : Type ℓ} where
  pub get-extend :
      (m other : Dict V) (k : String)
      → KeysDistinct other
      → get (extend m other) k ≡ elim (get other k) [ none ↦ get m k | some v ↦ some v ]
  unfolding get extend
  get-extend m [] k d = refl
  get-extend m ((j, v) ∷ other) k d =
      ground (arith, get-extend (insert m j v) other k d.1, get-insert m j k v, eq_iff j k, d.0)

  -- The value under a namespace after the merge of one incoming value.
  abbrev pub merged : Json V → String → Option V → V → V
  merged j ns none incoming = incoming
  merged j ns (some old) incoming = elim (j.as_object old) [
    | none ↦ incoming
    | some stored ↦ elim (j.as_object incoming) [
      | none ↦ incoming
      | some fresh ↦ if ns == "process" then j.object (extend stored fresh) else incoming
    ]
  ]

  get-merge_namespace :
      (j : Json V) (m : Dict V) (ns k : String) (v : V)
      → get (merge_namespace j m ns v) k
        ≡ (if ns == k then some (merged j ns (get m ns) v) else get m k)
  unfolding merge_namespace
  get-merge_namespace j m ns k v = elim (Option-cases (get m ns)) [
    | inl absent ↦ ground (arith, absent, get-insert m ns k v)
    | inr (old, at) ↦ elim (Option-cases (j.as_object old)) [
      | inl plain ↦ ground (arith, at, plain, get-insert m ns k v)
      | inr (stored, object) ↦ elim (Option-cases (j.as_object v)) [
        | inl plain ↦ ground (arith, at, object, plain, get-insert m ns k v)
        | inr (fresh, both) ↦ ground (
          arith,
          at,
          object,
          both,
          get-insert m ns k v,
          get-insert m ns k (j.object (extend stored fresh)),
        )
      ]
    ]
  ]

  pub get-merge_ext :
      (j : Json V) (m incoming : Dict V) (k : String)
      → KeysDistinct incoming
      → get (merge_ext j m incoming) k
        ≡ elim (get incoming k) [ none ↦ get m k | some v ↦ some (merged j k (get m k) v) ]
  unfolding get merge_ext
  get-merge_ext j m [] k d = refl
  get-merge_ext j m ((ns, v) ∷ incoming) k d = ground (
    arith,
    get-merge_ext j (merge_namespace j m ns v) incoming k d.1,
    get-merge_namespace j m ns k v,
    eq_iff ns k,
    d.0,
  )

-- ===== src/Prelude/Json.antt =====
-- A `serde_json::Value`; `N` stands for its numbers. An object is a dictionary.
use Prim.Native.String.{String}
use mathlib.Core.Path.{◌≡◌, refl}
use mathlib.Core.Bool.{Bool}
use mathlib.Core.List.{[], ◌∷◌}
use native.Mathlib.Omega.{arith}
use claude_usage_tracker_win.Prelude.Maps.{Dict}

mutual
  pub data Value (N : Type 0) : Type 0 where
    null : Value N
    boolean : Bool → Value N
    number : N → Value N
    string : String → Value N
    array : Values N → Value N
    object : Members N → Value N

  pub data Values (N : Type 0) : Type 0 where
    nil : Values N
    cons : Value N → Values N → Values N

  pub data Members (N : Type 0) : Type 0 where
    empty : Members N
    member : String → Value N → Members N → Members N

module _ {N : Type 0} where
  abbrev pub members : Members N → Dict (Value N)
  members empty = []
  members (member k v ms) = (k, v) ∷ members ms

  abbrev pub of_members : Dict (Value N) → Members N
  of_members [] = empty
  of_members ((k, v) ∷ d) = member k v (of_members d)

  pub members-of_members : (d : Dict (Value N)) → members (of_members d) ≡ d
  members-of_members [] = refl
  members-of_members ((k, v) ∷ d) = ground (arith, members-of_members d)

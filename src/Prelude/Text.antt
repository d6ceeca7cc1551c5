-- ===== src/Prelude/Text.antt =====
-- Text: the order of Rust's `str` (by code points, which is the order of the UTF-8 bytes), blank
-- text as `str::trim().is_empty()` sees it, and membership in a list of texts.
use Prim.Native.Nat.{ℕ, zero, suc, ◌+◌, ◌-◌, ◌*◌, ◌/◌, ◌%◌, ◌^◌, ◌<◌}
use native.Mathlib.Omega.{arith}
use Prim.Native.Char.{Char, code}
use Prim.Native.String.{String}
use mathlib.Core.Path.{◌≡◌, refl, sym, ap, ◌∙◌}
use mathlib.Core.Logic.{◌⊎◌, inl, inr}
use mathlib.Core.Bool.{Bool, true, false, ◌||◌, ◌&&◌}
use mathlib.Core.Option.{Option, none, some}
use mathlib.Core.List.{List, [], ◌∷◌}
use text.Mathlib.Text.{◌==◌}
use text.Mathlib.TextEquality.{eq_iff}
use claude_usage_tracker_win.Prelude.Tests.{Bool-cases, ltb, leb, eqb, if◌then◌else◌}

abbrev pub codes : String → List ℕ
codes String.[] = []
codes (String.◌∷◌ c s) = code c ∷ codes s

-- `char::is_whitespace`: the characters with the Unicode property White_Space.
abbrev pub is_whitespace : ℕ → Bool
is_whitespace c =
    (leb 9 c && leb c 13)
    || eqb c 32
    || eqb c 0x85
    || eqb c 0xa0
    || eqb c 0x1680
    || (leb 0x2000 c && leb c 0x200a)
    || eqb c 0x2028
    || eqb c 0x2029
    || eqb c 0x202f
    || eqb c 0x205f
    || eqb c 0x3000

abbrev pub all_blank : List ℕ → Bool
all_blank [] = true
all_blank (c ∷ cs) = is_whitespace c && all_blank cs

-- `s.trim().is_empty()`
unfoldable pub is_blank : String → Bool
is_blank s = all_blank (codes s)

-- a < b, as lists of code points
abbrev pub codes_lt : List ℕ → List ℕ → Bool
codes_lt [] [] = false
codes_lt [] (d ∷ ds) = true
codes_lt (c ∷ cs) [] = false
codes_lt (c ∷ cs) (d ∷ ds) = ltb c d || (eqb c d && codes_lt cs ds)

unfoldable pub str_lt : String → String → Bool
str_lt s t = codes_lt (codes s) (codes t)

-- `xs.contains(s)`
abbrev pub contains : String → List String → Bool
contains s [] = false
contains s (x ∷ xs) = x == s || contains s xs

pub String-cases : (s t : String) → (s ≡ t) ⊎ ((s == t) ≡ false)
String-cases s t = go (s == t) refl
  where
    go : (b : Bool) → (s == t) ≡ b → (s ≡ t) ⊎ ((s == t) ≡ false)
    go true e = inl ((eq_iff s t).0 e)
    go false e = inr e

-- `trim_start`, `trim_end` and `trim`
unfoldable pub trim_start : String → String
trim_start String.[] = String.[]
trim_start (String.◌∷◌ c s) = if is_whitespace (code c) then trim_start s else String.◌∷◌ c s

unfoldable pub trim_end : String → String
trim_end String.[] = String.[]
trim_end (String.◌∷◌ c s) =
    let rest = trim_end s in
    if is_whitespace (code c) && rest == "" then String.[] else String.◌∷◌ c rest

unfoldable pub trim : String → String
unfolding trim_start trim_end
trim s = trim_end (trim_start s)

abbrev onto_first : Char → List String → List String
onto_first c [] = []
onto_first c (s ∷ rest) = String.◌∷◌ c s ∷ rest

abbrev onto_left : Char → Option (String × String) → Option (String × String)
onto_left c none = none
onto_left c (some (l, r)) = some (String.◌∷◌ c l, r)

-- `s.split(c)`, by the code point of `c`
unfoldable pub split : ℕ → String → List String
split d String.[] = String.[] ∷ []
split d (String.◌∷◌ c s) =
    let rest = split d s in if eqb (code c) d then String.[] ∷ rest else onto_first c rest

-- `s.split_once(c)`
unfoldable pub split_once : ℕ → String → Option (String × String)
split_once d String.[] = none
split_once d (String.◌∷◌ c s) =
    let rest = split_once d s in if eqb (code c) d then some (String.[], s) else onto_left c rest

-- `s.strip_prefix(p)`
unfoldable pub strip_prefix : String → String → Option String
strip_prefix String.[] s = some s
strip_prefix (String.◌∷◌ b p) String.[] = none
strip_prefix (String.◌∷◌ b p) (String.◌∷◌ c s) =
    if eqb (code b) (code c) then strip_prefix p s else none

-- `str::parse::<u32>`: an optional plus sign, then at least one digit, within the range.
unfoldable pub digits : ℕ → List ℕ → Option ℕ
digits n [] = if ltb n (2 ^ 32) then some n else none
digits n (c ∷ cs) =
    let rest = digits (n * 10 + (c - b'0')) cs in if leb b'0' c && leb c b'9' then rest else none

unfoldable pub parse_u32 : List ℕ → Option ℕ
parse_u32 [] = none
parse_u32 (c ∷ []) = digits 0 (c ∷ [])
parse_u32 (c ∷ d ∷ cs) = if eqb c b'+' then digits 0 (d ∷ cs) else digits 0 (c ∷ d ∷ cs)

abbrev digit : ℕ → String → String
digit n s =
    if eqb n 0
    then String.◌∷◌ "0" s
    else if eqb n 1
    then String.◌∷◌ "1" s
    else if eqb n 2
    then String.◌∷◌ "2" s
    else if eqb n 3
    then String.◌∷◌ "3" s
    else if eqb n 4
    then String.◌∷◌ "4" s
    else if eqb n 5
    then String.◌∷◌ "5" s
    else if eqb n 6
    then String.◌∷◌ "6" s
    else if eqb n 7
    then String.◌∷◌ "7" s
    else if eqb n 8
    then String.◌∷◌ "8" s
    else String.◌∷◌ "9" s

-- The decimal digits of a number below 10 ^ fuel, in front of a text.
unfoldable pub decimal : ℕ → ℕ → String → String
decimal zero n s = s
decimal (suc fuel) n s =
    let more = decimal fuel (n / 10) (digit (n % 10) s) in
    if ltb n 10 then digit (n % 10) s else more

-- `to_string()` of a `u32`, which has at most ten digits
unfoldable pub u32_to_string : ℕ → String
u32_to_string n = decimal 10 n ""

digits-digit :
    (m n : ℕ) (s : String) → n < 10 → digits m (codes (digit n s)) ≡ digits (m * 10 + n) (codes s)
unfolding digits
digits-digit m n s h = ground arith

digits_end : (n : ℕ) → n < 2 ^ 32 → digits n [] ≡ some n
unfolding digits
digits_end n h = ground arith

digits-decimal :
    (fuel n : ℕ) (s : String)
    → n < 10 ^ fuel
    → digits 0 (codes (decimal fuel n s)) ≡ digits n (codes s)
unfolding decimal
digits-decimal zero n s h = let e : n ≡ 0 = omega arith in ap (λ k. digits k (codes s)) (sym e)
digits-decimal (suc fuel) n s h = elim (Bool-cases (ltb n 10)) [
  | inl small ↦
      rw small
        (digits-digit 0 (n % 10) s (omega arith) ∙ ap (λ k. digits k (codes s)) (ground arith))
  | inr big ↦ rw big (
      digits-decimal fuel (n / 10) (digit (n % 10) s) (ground arith)
      ∙ digits-digit (n / 10) (n % 10) s (omega arith)
      ∙ ap (λ k. digits k (codes s)) (omega arith))
]

parse_u32-digit :
    (n : ℕ) (s : String) → parse_u32 (codes (digit n s)) ≡ digits 0 (codes (digit n s))
unfolding parse_u32
parse_u32-digit n s = ground arith

parse_u32-decimal :
    (fuel n d : ℕ) (s : String)
    → parse_u32 (codes (decimal fuel n (digit d s))) ≡ digits 0 (codes (decimal fuel n (digit d s)))
unfolding decimal
parse_u32-decimal zero n d s = parse_u32-digit d s
parse_u32-decimal (suc fuel) n d s = elim (Bool-cases (ltb n 10)) [
  | inl small ↦ rw small (parse_u32-digit (n % 10) (digit d s))
  | inr big ↦ rw big (parse_u32-decimal fuel (n / 10) (n % 10) (digit d s))
]

parse_u32-some_digit :
    (n : ℕ) → parse_u32 (codes (decimal 10 n "")) ≡ digits 0 (codes (decimal 10 n ""))
unfolding decimal
parse_u32-some_digit n = elim (Bool-cases (ltb n 10)) [
  | inl small ↦ rw small (parse_u32-digit (n % 10) "")
  | inr big ↦ rw big (parse_u32-decimal 9 (n / 10) (n % 10) "")
]

-- A `u32` is read back from its decimal digits.
pub parse_u32-u32_to_string : (n : ℕ) → n < 2 ^ 32 → parse_u32 (codes (u32_to_string n)) ≡ some n
unfolding u32_to_string
parse_u32-u32_to_string n h =
    parse_u32-some_digit n ∙ digits-decimal 10 n "" (omega arith) ∙ digits_end n h

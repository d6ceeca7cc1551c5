-- ===== src/Lock/Samples.antt =====
-- A small type of JSON values for the lock file of src-tauri/src/kernel/board_lock.rs, to apply the
-- theorems to.
use Prim.Native.Char.{code}
use claude_usage_tracker_win.Prelude.{
  ℕ, zero, suc, ℤ, pos, ◌≡◌, refl, ap, String, Bool, true, false, Option, none, some, eqb,
  if◌then◌else◌, ◌==◌,
}
use claude_usage_tracker_win.Lock.{Json}
use claude_usage_tracker_win.Lock.World.Holder.{Printed}

-- An object of a process number and a time, a number, a text.
pub data Doc : Type 0 where
  object : ℕ → String → Doc
  number : ℕ → Doc
  text : String → Doc

-- The object is printed as that many dashes, a dot and the time.
abbrev pub print : ℕ → String → String
print zero s = String.◌∷◌ "." s
print (suc p) s = String.◌∷◌ "-" (print p s)

abbrev one_more : Option Doc → Option Doc
one_more none = none
one_more (some (object p s)) = some (object (suc p) s)
one_more (some (number n)) = none
one_more (some (text s)) = none

abbrev read : String → Option Doc
read String.[] = none
read (String.◌∷◌ c s) =
    let rest = read s in if eqb (code c) b'.' then some (object 0 s) else one_more rest

abbrev field : Doc → String → Option Doc
field (object p s) k =
    if k == "pid" then some (number p) else if k == "at" then some (text s) else none
field (number n) k = none
field (text s) k = none

abbrev as_text : Doc → Option String
as_text (object p s) = none
as_text (number n) = none
as_text (text s) = some s

abbrev as_number : Doc → Option ℤ
as_number (object p s) = none
as_number (number n) = some (pos n)
as_number (text s) = none

abbrev pub json : Json Doc ℕ
json = record {
  from_str = read;
  get = field;
  as_str = as_text;
  as_i64 = as_number;
  as_f64 = λ v. none;
  is_positive = λ f. false;
  is_whole = λ f. true;
  fits_u32 = λ f. true;
  to_u32 = λ f. f;
  lock_content = λ p writer s. print p s;
}

read-print : (p : ℕ) (s : String) → read (print p s) ≡ some (object p s)
read-print zero s = refl
read-print (suc p) s = ap one_more (read-print p s)

pub json-Printed : Printed json
json-Printed = record {
  nothing = refl;
  object = object;
  pid = number;
  at = text;
  read_back = read-print;
  has_pid = λ p s. refl;
  has_at = λ p s. refl;
  is_number = λ p h. refl;
  is_text = λ s. refl;
}

abbrev pub all_alive : ℕ → Bool
all_alive p = true

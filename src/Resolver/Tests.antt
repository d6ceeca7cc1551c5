-- ===== src/Resolver/Tests.antt =====
-- The theorems of the resolver at concrete stores, with a small stand-in for the cryptography and
-- for the timestamps: an instant is written as a text of that many letters.

use claude_usage_tracker_win.Prelude.{
  ℕ, zero, suc, ◌+◌, ◌*◌, String, ◌≡◌, ◌↔◌, ◌⊎◌, ◌++◌, refl, Bool, true, false, Option, some, none,
  List, [], ◌∷◌, ◌==◌, map, find, contains, retain, length, codes, split, ltb, is_blank, trim,
  split_once, strip_prefix, insert, if◌then◌else◌, pos, arith, Result, ok, err, get,
}
use claude_usage_tracker_win.Resolver.Model.{Envelope, Device, PendingCode, Store, message_out}
use claude_usage_tracker_win.Resolver.Auth.{
  Crypto, ingest_token_ok, ingest_token_ok-contains, verify_b64, hash_code, valid_public_key_b64,
  code_hash_eq,
}
use claude_usage_tracker_win.Resolver.Store.{
  Chrono, expired, live, find_device, find_in, is_device, devices_of, bound_device, put_device,
  bind_device, undelivered, take_undelivered, message_of, same_key, deliver,
}
use claude_usage_tracker_win.Resolver.Store as Mailbox
use claude_usage_tracker_win.Resolver.Delivery.{ingest-retry, take_undelivered-fan_out}
use claude_usage_tracker_win.Resolver.Enrollment.{register_code-live}
use claude_usage_tracker_win.Resolver.Binding.{bind_device_accepts, bind_device_again}
use claude_usage_tracker_win.Resolver.Config.{Config, values_of, parse_tokens, token_entry}
use claude_usage_tracker_win.Resolver.Routes.{
  ApiError, PollRequest, RegisterCodeRequest, BindRequest, fail, challenge, exceeds, seconds_apart,
  authenticate, authorize, bearer, poll, day_at_most, second, register_code, bind, ingest,
  is_sha256_hex,
}
use claude_usage_tracker_win.Resolver.Routes.Answers.{Authorized, undelivered_yet, ingest_answers}
use claude_usage_tracker_win.Resolver.WellFormed.{IsWellFormed}
use claude_usage_tracker_win.Resolver.Routes.Reachable.{Request, Requests, Requests-IsWellFormed}
use claude_usage_tracker_win.Resolver.Routes.Poll.{Proven, poll_answers, poll_save_failure}
use claude_usage_tracker_win.Resolver.Routes.Enroll.{
  Bindable, Registrable, bind-register_code, authenticate-bind,
}

zeros : ℕ → List ℕ
zeros zero = []
zeros (suc n) = 0 ∷ zeros n

decode : String → Result String (List ℕ)
decode s = if s == "key" then ok (zeros 32) else if s == "sig" then ok (zeros 64) else err "base64"

abbrev hash : String
hash = "0123456789abcdef0123456789abcdef0123456789abcdef0123456789abcdef"

abbrev crypto : Crypto ℕ
crypto = record {
  decode = decode;
  key_of_bytes = λ bytes. ok (length bytes);
  verifies = λ key text bytes. ok tt;
  sha256_hex = λ code. hash;
}

letters : ℕ → String
letters zero = ""
letters (suc n) = String.◌∷◌ "i" (letters n)

parse_letters : String → Option ℕ
parse_letters s = some (length (codes s))

parse_letters-letters : (t : ℕ) → parse_letters (letters t) ≡ some t
unfolding parse_letters letters
parse_letters-letters zero = refl
parse_letters-letters (suc t) = ground (arith, parse_letters-letters t)

abbrev chrono : Chrono
chrono = record { parse_rfc3339 = parse_letters; to_rfc3339 = letters }

abbrev config : Config
config = record {
  tokens = ("board", "t1" ∷ "t2" ∷ []) ∷ [];
  poll_skew_secs = pos 300;
  enroll_code_ttl_secs = pos 600;
}

abbrev envelope : String → Envelope ℕ
envelope id = record {
  id = id;
  ts = "i";
  recipient = "ann";
  source = "board";
  kind = "task.created";
  payload = 5;
}

abbrev phone : Device
phone = record { device_id = "phone"; public_key = "key"; enrolled_at = "i"; last_seen = none }

abbrev code : Option String → PendingCode
code expires_at = record { code_hash = hash; account = "ann"; expires_at = expires_at }

abbrev store : Store ℕ
store = record {
  accounts = ("ann", phone ∷ []) ∷ [];
  mailbox = message_of (envelope "m1") ∷ [];
  pending_codes = code (some "iiiii") ∷ [];
}

abbrev lasting : Store ℕ
lasting = record store { pending_codes = code none ∷ [] }

abbrev empty : Store ℕ
empty = record { accounts = []; mailbox = []; pending_codes = code (some "iiiii") ∷ [] }

abbrev signed_at : String → PollRequest
signed_at ts = record { device_id = "phone"; ts = ts; signature = "sig" }

second_token : ingest_token_ok ("t1" ∷ "t2" ∷ []) "t2" ≡ true
unfolding ingest_token_ok
second_token = refl

ingest_token_ok-contains_example :
    ingest_token_ok ("t1" ∷ "t2" ∷ []) "t2" ≡ contains "t2" ("t1" ∷ "t2" ∷ [])
ingest_token_ok-contains_example = ingest_token_ok-contains ("t1" ∷ "t2" ∷ []) "t2"

key_is_valid : valid_public_key_b64 crypto "key" ≡ true
unfolding valid_public_key_b64 decode zeros
key_is_valid = refl

ingest-retry_example :
    let stored = (Mailbox.ingest store (envelope "m2")).0 in
    let polled = (take_undelivered stored "ann" "phone" "ii").0 in
    (Mailbox.ingest stored (envelope "m2") ≡ (stored, false))
    × (Mailbox.ingest polled (envelope "m2") ≡ (polled, false))
ingest-retry_example = ingest-retry store (envelope "m2") "ann" "phone" "ii"

take_undelivered-fan_out_example :
    let polled = (take_undelivered store "ann" "phone" "ii").0 in
    ((take_undelivered polled "ann" "phone" "iii").1 ≡ [])
    × (map message_out (take_undelivered polled "ann" "desk" "iii").1
        ≡ map message_out (take_undelivered store "ann" "desk" "iii").1)
take_undelivered-fan_out_example =
    take_undelivered-fan_out store "ann" "phone" "ii" "iii" "ann" "desk" refl

register_code-live_example :
    find
      (live chrono hash "iii")
      (Mailbox.register_code chrono store hash "bob" none "ii").pending_codes
    ≡ (if expired chrono none "iii"
        then none
        else some (record { code_hash = hash; account = "bob"; expires_at = none }))
register_code-live_example = register_code-live chrono store hash "bob" none "ii" "iii"

-- The code of `store` is live for three more instants.
code_is_live : find (live chrono hash "iii") store.pending_codes ≡ some (code (some "iiiii"))
unfolding live expired code_hash_eq parse_letters
code_is_live = refl

code_lasts : find (live chrono hash "iii") lasting.pending_codes ≡ some (code none)
unfolding live expired code_hash_eq
code_lasts = refl

bind_device_accepts_example :
    ((bind_device chrono store hash "desk" "key" "iii").1
      ≡ elim (find (live chrono hash "iii") store.pending_codes) [
        | none ↦ none
        | some c ↦ some c.account
      ])
    × (find (live chrono hash "iii") store.pending_codes ≡ none
        → (bind_device chrono store hash "desk" "key" "iii").0 ≡ store)
bind_device_accepts_example = bind_device_accepts chrono store hash "desk" "key" "iii"

bind_device_again_example :
    let bound = (bind_device chrono lasting hash "desk" "key" "iii").0 in
    (bind_device chrono bound hash "tablet" "key" "iiii").1 ≡ some "ann"
bind_device_again_example =
    bind_device_again chrono lasting hash "desk" "key" "iii" (code none) "tablet" "key" "iiii"
      (refl, tt) code_lasts refl

two_tokens : values_of (parse_tokens " a: x ,b:y,a:z,:w") "a" ≡ "x" ∷ "z" ∷ []
unfolding parse_tokens get split token_entry trim split_once insert
two_tokens = refl

ingest_answers_example :
    let answer = ingest crypto chrono config store (some "Bearer t2") (envelope "m2") (ok tt) in
    ((answer.1 ≡ ok 202) ↔ (
      Authorized config (some "Bearer t2") "board"
      × (◌≡◌ {A = Bool} false false)
      × (◌≡◌ {A = Result String (Unit {0})} (ok tt) (ok tt))))
    × (((answer.1 ≡ ok 200)
          ↔ (Authorized config (some "Bearer t2") "board" × (◌≡◌ {A = Bool} false true)))
        × (((answer.1 ≡ ok 202)
              ⊎ ((answer.1 ≡ ok 200)
                  ⊎ ((e : ApiError) × (answer.1 ≡ err e)
                      × (Authorized config (some "Bearer t2") "board"
                          → (◌≡◌ {A = Bool} false false)
                            × (x : String) × (◌≡◌ {A = Result String (Unit {0})} (ok tt) (err x))
                            × (answer.1 ≡ fail 500 x)))))
            × ((Authorized config (some "Bearer t2") "board"
                  → answer.0 ≡ record store {
                    mailbox = store.mailbox ++ undelivered_yet (envelope "m2") ∷ [];
                  })
                × (¬ Authorized config (some "Bearer t2") "board" → answer.0 ≡ store))))
ingest_answers_example =
    ingest_answers crypto chrono config store (some "Bearer t2") (envelope "m2") (ok tt)

phone_signs : verify_b64 crypto "key" (challenge (signed_at "ii")) "sig" ≡ ok tt
unfolding verify_b64 decode zeros
phone_signs = refl

phone_known : find_device store "phone" ≡ some ("ann", "key")
unfolding find_device find_in
phone_known = refl

parsed_two : parse_letters "ii" ≡ some 2
unfolding parse_letters
parsed_two = refl

abbrev phone-Proven :
    (now : ℕ)
    → exceeds (seconds_apart now 2) (pos 300) ≡ false
    → Proven crypto chrono config store now (signed_at "ii") "ann"
phone-Proven now fresh = record {
  ts = 2;
  parsed = parsed_two;
  fresh = fresh;
  public_key = "key";
  known = phone_known;
  signed = phone_signs;
}

poll_answers_example :
    let out = message_out (message_of (envelope "m1")) ∷ [] in
    ((poll crypto chrono config store 3 (signed_at "ii") (ok tt)).1 ≡ ok out) ↔ (
      (account : String) × Proven crypto chrono config store 3 (signed_at "ii") account
      × (◌≡◌ {A = Result String (Unit {0})} (ok tt) (ok tt))
      × (out ≡ map message_out (retain (undelivered account "phone") store.mailbox)))
poll_answers_example =
    poll_answers crypto chrono config store 3 (signed_at "ii") (ok tt)
      (message_out (message_of (envelope "m1")) ∷ [])

poll_save_failure_example :
    let failed = poll crypto chrono config store 3 (signed_at "ii") (err "disk full") in
    (failed.1 ≡ fail 500 "disk full")
    × ((poll crypto chrono config failed.0 4 (signed_at "ii") (ok tt)).1 ≡ ok [])
poll_save_failure_example =
    poll_save_failure crypto chrono config store 3 4 (signed_at "ii") (signed_at "ii") "ann"
      "disk full" (phone-Proven 3 refl) (phone-Proven 4 refl) refl

abbrev desk : BindRequest
desk = record { proof = "1234"; public_key = "key"; device_id = "phone" }

desk-Bindable : Bindable crypto desk
unfolding is_blank
desk-Bindable = record { proof_given = refl; device_named = refl; key_valid = key_is_valid }

abbrev pairing : RegisterCodeRequest
pairing = record {
  source = "board";
  code_hash = hash;
  account_email = "ann";
  ttl_seconds = some (pos 60);
}

board_may : authorize config (some "Bearer t2") "board" ≡ ok tt
unfolding authorize bearer ingest_token_ok strip_prefix get trim
board_may = refl

hash_is_shaped : is_sha256_hex hash ≡ true
unfolding is_sha256_hex
hash_is_shaped = refl

pairing-Registrable : Registrable config (some "Bearer t2") pairing
unfolding is_blank
pairing-Registrable = record {
  authorized = board_may;
  email_given = refl;
  hash_shaped = hash_is_shaped;
}

hash_of_proof : hash ≡ hash_code crypto "1234"
unfolding hash_code
hash_of_proof = refl

bind-register_code_example :
    let registered =
      (register_code crypto chrono config empty (some "Bearer t2") 2 pairing (ok tt)).0 in
    (bind crypto chrono config registered 3 desk (ok tt)).1 ≡ (
      if ltb (2 + day_at_most 60 * second) 3
      then fail 401 "invalid or expired code"
      else ok ("ann", letters 3))
bind-register_code_example =
    bind-register_code crypto chrono config empty (some "Bearer t2") 2 3 59 pairing desk
      parse_letters-letters pairing-Registrable desk-Bindable refl hash_of_proof

nobody : find_device empty "phone" ≡ none
unfolding find_device find_in
nobody = refl

proof_is_live :
    find (live chrono (hash_code crypto "1234") (letters 3)) empty.pending_codes
    ≡ some (code (some "iiiii"))
unfolding live expired code_hash_eq parse_letters letters hash_code
proof_is_live = refl

authenticate-bind_example :
    (authenticate crypto chrono config
        (bind crypto chrono config empty 3 desk (ok tt)).0
        4
        (signed_at "ii")
      ≡ ok "ann")
    ↔ (verify_b64 crypto "key" (challenge (signed_at "ii")) "sig" ≡ ok tt)
authenticate-bind_example =
    authenticate-bind crypto chrono config empty 3 4 2 desk (signed_at "ii") (code (some "iiiii"))
      (ok tt) desk-Bindable nobody proof_is_live refl parsed_two refl

store-IsWellFormed : IsWellFormed store
store-IsWellFormed = record { keys = (refl, tt); codes = (refl, tt); devices = ((refl, tt), tt) }

abbrev after_two : Store ℕ
after_two =
    let stored = (ingest crypto chrono config store (some "Bearer t2") (envelope "m2") (ok tt)).0 in
    (bind crypto chrono config stored 3 desk (err "disk full")).0

abbrev two_requests : Requests crypto chrono config store after_two
two_requests =
    Requests.more
      (Requests.more Requests.none_yet
        (Request.ingested store (some "Bearer t2") (envelope "m2") (ok tt)))
      (Request.bound
        (ingest crypto chrono config store (some "Bearer t2") (envelope "m2") (ok tt)).0 3 desk
        (err "disk full"))

Requests-IsWellFormed_example : IsWellFormed after_two
Requests-IsWellFormed_example =
    Requests-IsWellFormed crypto chrono config store after_two two_requests store-IsWellFormed

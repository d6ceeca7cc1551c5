-- ===== src/Resolver/Routes.antt =====
-- The endpoints of resolver/src/routes.rs. A handler takes the store, the request, the time and
-- whether the save at its end succeeds (`saved`), and gives the store in memory and the answer.
-- Authorization is the value of that header, if it is there and readable as text.
pub mod Answers
pub mod Poll
pub mod Enroll
pub mod Reachable
use Prim.Native.String
use claude_usage_tracker_win.Prelude.{
  ℕ, ◌+◌, ◌-◌, ◌*◌, ◌/◌, String, Bool, true, false, not, ◌&&◌, ◌||◌, Option, none, some, List, [],
  ◌∷◌, ◌==◌, eqb, ltb, leb, if◌then◌else◌, length, map, all, codes, is_blank, trim, strip_prefix, ℤ,
  pos, negsuc, Result, ok, err,
}
use claude_usage_tracker_win.Resolver.Model.{Envelope, Message, MessageOut, Store, message_out}
use claude_usage_tracker_win.Resolver.Auth.{
  Crypto, ingest_token_ok, verify_b64, hash_code, valid_public_key_b64,
}
use claude_usage_tracker_win.Resolver.Store as Mailbox
use claude_usage_tracker_win.Resolver.Store.{Chrono, find_device, take_undelivered, bind_device}
use claude_usage_tracker_win.Resolver.Config.{Config, values_of}

-- A status and a text.
pub record ApiError : Type 0 where
  pub status : ℕ
  pub message : String

abbrev pub fail {ℓ} : {A : Type ℓ} → ℕ → String → Result ApiError A
fail status message = err (record { status = status; message = message })

abbrev pub second : ℕ
second = 1_000_000_000

-- `(a - b).num_seconds().abs()`
abbrev pub seconds_apart : ℕ → ℕ → ℕ
seconds_apart a b = (if leb a b then b - a else a - b) / second

-- `age > skew`
abbrev pub exceeds : ℕ → ℤ → Bool
exceeds age (pos n) = ltb n age
exceeds age (negsuc n) = true

-- `now + Duration::seconds(n)`
abbrev pub plus_seconds : ℕ → ℤ → ℕ
plus_seconds now (pos n) = now + n * second
plus_seconds now (negsuc n) = now - (n + 1) * second

unfoldable pub bearer : Option String → Option String
bearer none = none
bearer (some value) = elim (strip_prefix "Bearer " value) [
  | none ↦ none
  | some token ↦ some (trim token)
]

abbrev pub is_hex_digit : ℕ → Bool
is_hex_digit b = (leb b'0' b && leb b b'9') || (leb b'a' b && leb b b'f')

unfoldable pub is_sha256_hex : String → Bool
is_sha256_hex s = eqb (length (codes s)) 64 && all is_hex_digit (codes s)

-- The first step of `ingest` and `register_code`: the bearer token must be one of the source's.
unfoldable pub authorize : Config → Option String → String → Result ApiError (Unit {0})
authorize config authorization source = elim (bearer authorization) [
  | none ↦ fail 401 "missing bearer token"
  | some presented ↦
      if ingest_token_ok (values_of config.tokens source) presented
      then ok tt
      else fail 401 "invalid ingest token"
]

-- `save(…).map_err(500)?` and the answer behind it
abbrev pub after_save {ℓ} : {A : Type ℓ} → Result String (Unit {0}) → A → Result ApiError A
after_save (ok _) answer = ok answer
after_save (err e) answer = fail 500 e

pub record PollRequest : Type 0 where
  pub device_id : String
  pub ts : String
  pub signature : String

pub record RegisterCodeRequest : Type 0 where
  pub source : String
  pub code_hash : String
  pub account_email : String
  pub ttl_seconds : Option ℤ  -- i64

pub record BindRequest : Type 0 where
  pub proof : String
  pub public_key : String
  pub device_id : String

-- `n.min(86_400)`
abbrev pub day_at_most : ℕ → ℕ
day_at_most n = if leb n 86400 then n else 86400

unfoldable pub expiry : Chrono → Config → ℕ → Option ℤ → Option String
expiry chrono config now none =
    some (chrono.to_rfc3339 (plus_seconds now config.enroll_code_ttl_secs))
expiry chrono config now (some (negsuc n)) = none
expiry chrono config now (some (pos n)) =
    if eqb n 0 then none else some (chrono.to_rfc3339 (plus_seconds now (pos (day_at_most n))))

abbrev pub challenge : PollRequest → String
challenge req = String.◌++◌ req.device_id (String.◌++◌ "|" req.ts)

module _ {V Key : Type 0} (crypto : Crypto Key) (chrono : Chrono) (config : Config) where
  unfoldable pub ingest :
      Store V → Option String → Envelope V → Result String (Unit {0}) → Store V × Result ApiError ℕ
  ingest s authorization env saved = elim (authorize config authorization env.source) [
    | err e ↦ (s, err e)
    | ok _ ↦
        let (s', stored) = Mailbox.ingest s env in
        if stored then (s', after_save saved 202) else (s', ok 200)
  ]

  -- The checks of `poll` before delivery: the account of the device whose key signed.
  unfoldable pub authenticate : Store V → ℕ → PollRequest → Result ApiError String
  authenticate s now req = elim (chrono.parse_rfc3339 req.ts) [
    | none ↦ fail 401 "bad timestamp"
    | some ts ↦
        if exceeds (seconds_apart now ts) config.poll_skew_secs
        then fail 401 "stale timestamp"
        else elim (find_device s req.device_id) [
          | none ↦ fail 401 "unauthorized"
          | some (account, public_key) ↦
              elim (verify_b64 crypto public_key (challenge req) req.signature) [
                | err e ↦ fail 401 "unauthorized"
                | ok _ ↦ ok account
              ]
        ]
  ]

  unfoldable pub poll :
      Store V
      → ℕ
      → PollRequest
      → Result String (Unit {0})
      → Store V × Result ApiError (List (MessageOut V))
  poll s now req saved = elim (authenticate s now req) [
    | err e ↦ (s, err e)
    | ok account ↦
        let done = take_undelivered s account req.device_id (chrono.to_rfc3339 now) in
        (done.0, after_save saved (map message_out done.1))
  ]

  -- 201 and the expiry that was set
  unfoldable pub register_code :
      Store V
      → Option String
      → ℕ
      → RegisterCodeRequest
      → Result String (Unit {0})
      → Store V × Result ApiError (ℕ × Option String)
  register_code s authorization now req saved = elim (authorize config authorization req.source) [
    | err e ↦ (s, err e)
    | ok _ ↦
        if is_blank req.account_email
        then (s, fail 400 "account_email is required")
        else if not (is_sha256_hex req.code_hash)
        then (s, fail 400 "code_hash must be a 64-char lower-hex SHA-256")
        else (
          Mailbox.register_code chrono s req.code_hash req.account_email
              (expiry chrono config now req.ttl_seconds) (chrono.to_rfc3339 now),
          after_save saved (201, expiry chrono config now req.ttl_seconds),
        )
  ]

  -- The account and the time of enrolment.
  unfoldable pub bind :
      Store V
      → ℕ
      → BindRequest
      → Result String (Unit {0})
      → Store V × Result ApiError (String × String)
  bind s now req saved =
      if req.proof == "" || is_blank req.device_id
      then (s, fail 400 "proof and device_id are required")
      else if not (valid_public_key_b64 crypto req.public_key)
      then (s, fail 400 "invalid public key")
      else let now_str = chrono.to_rfc3339 now in
        let bound =
          bind_device chrono s (hash_code crypto req.proof) req.device_id req.public_key now_str in
        elim bound.1 [
          | none ↦ (bound.0, fail 401 "invalid or expired code")
          | some account ↦ (bound.0, after_save saved (account, now_str))
        ]

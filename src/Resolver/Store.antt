-- ===== src/Resolver/Store.antt =====
-- resolver/src/store.rs: the mailbox with its deduplication and delivery, and the pairing codes.
-- Timestamps are texts; `Chrono` is what the code uses of the crate `chrono`. Reading and writing
-- the file (`load`, `save`) is not modelled: an endpoint is told whether its save succeeded.
use claude_usage_tracker_win.Prelude.{
  ℕ, String, Bool, true, false, not, ◌&&◌, Option, none, some, List, [], ◌∷◌, ◌++◌, ◌==◌, ltb,
  if◌then◌else◌, any, find, retain, update_first, contains, map, Dict, get, insert,
}
use claude_usage_tracker_win.Resolver.Model.{Envelope, Device, Message, PendingCode, Store}
use claude_usage_tracker_win.Resolver.Auth.{code_hash_eq}

-- `parse_rfc3339` gives an instant in nanoseconds from the earliest one that chrono has.
pub record Chrono : Type 0 where
  pub parse_rfc3339 : String → Option ℕ
  pub to_rfc3339 : ℕ → String

-- `expired` once both texts are parsed
abbrev pub past : Option ℕ → Option ℕ → Bool
past none now = true
past (some exp) none = true
past (some exp) (some now) = ltb exp now

unfoldable pub expired : Chrono → Option String → String → Bool
expired chrono none now = false
expired chrono (some exp) now = past (chrono.parse_rfc3339 exp) (chrono.parse_rfc3339 now)

-- `self.accounts.values_mut()`
abbrev pub map_values {ℓ} : {A : Type ℓ} → (A → A) → Dict A → Dict A
map_values f [] = []
map_values f ((k, v) ∷ m) = (k, f v) ∷ map_values f m

abbrev pub is_device : String → Device → Bool
is_device device_id d = d.device_id == device_id

abbrev pub seen_at : String → String → Device → Device
seen_at device_id now d = if is_device device_id d then record d { last_seen = some now } else d

-- `entry(account).or_default()`
abbrev pub devices_of : Dict (List Device) → String → List Device
devices_of accounts account = elim (get accounts account) [ none ↦ [] | some ds ↦ ds ]

-- The order in which a `HashMap` is walked is that of the association list here.
unfoldable pub find_in : Dict (List Device) → String → Option (String × String)
find_in [] device_id = none
find_in ((email, devices) ∷ accounts) device_id = elim (find (is_device device_id) devices) [
  | none ↦ find_in accounts device_id
  | some d ↦ some (email, d.public_key)
]

-- The first live code with the proof's hash, and the codes left after it is taken.
unfoldable pub live : Chrono → String → String → PendingCode → Bool
live chrono proof_hash now c =
    code_hash_eq c.code_hash proof_hash && not (expired chrono c.expires_at now)

abbrev pub is_some {ℓ} : {A : Type ℓ} → Option A → Bool
is_some none = false
is_some (some x) = true

abbrev pub bound_device : String → String → String → Device
bound_device device_id public_key now = record {
  device_id = device_id;
  public_key = public_key;
  enrolled_at = now;
  last_seen = none;
}

unfoldable pub put_device : String → String → String → List Device → List Device
put_device device_id public_key now devices =
    if any (is_device device_id) devices
    then update_first (is_device device_id)
        (λ d. record d { public_key = public_key; enrolled_at = now; last_seen = none }) devices
    else devices ++ bound_device device_id public_key now ∷ []

-- `pending_codes.remove(idx)` at the first live code
unfoldable pub remove_first : (PendingCode → Bool) → List PendingCode → List PendingCode
remove_first p [] = []
remove_first p (c ∷ cs) = let rest = remove_first p cs in if p c then cs else c ∷ rest

module _ {V : Type 0} where
  abbrev pub same_key : Envelope V → Message V → Bool
  same_key env m = m.source == env.source && (m.recipient == env.recipient && m.id == env.id)

  abbrev pub message_of : Envelope V → Message V
  message_of env = record {
    id = env.id;
    recipient = env.recipient;
    source = env.source;
    kind = env.kind;
    payload = env.payload;
    ts = env.ts;
    delivered_to = [];
  }

  unfoldable pub ingest : Store V → Envelope V → Store V × Bool
  ingest s env =
      if any (same_key env) s.mailbox
      then (s, false)
      else (record s { mailbox = s.mailbox ++ message_of env ∷ [] }, true)

  unfoldable pub find_device : Store V → String → Option (String × String)
  find_device s device_id = find_in s.accounts device_id

  abbrev pub undelivered : String → String → Message V → Bool
  undelivered account device_id m =
      m.recipient == account && not (contains device_id m.delivered_to)

  abbrev pub marked : String → Message V → Message V
  marked device_id m = record m { delivered_to = m.delivered_to ++ device_id ∷ [] }

  -- The loop over the mailbox: the mailbox after it, and what it hands out.
  unfoldable pub deliver : String → String → List (Message V) → List (Message V) × List (Message V)
  deliver account device_id [] = ([], [])
  deliver account device_id (m ∷ ms) =
      let rest = deliver account device_id ms in
      if undelivered account device_id m
      then (marked device_id m ∷ rest.0, marked device_id m ∷ rest.1)
      else (m ∷ rest.0, rest.1)

  unfoldable pub take_undelivered : Store V → String → String → String → Store V × List (Message V)
  take_undelivered s account device_id now =
      let done = deliver account device_id s.mailbox in
      (
        record s {
          mailbox = done.0;
          accounts = map_values (map (seen_at device_id now)) s.accounts;
        },
        done.1,
      )

  unfoldable pub register_code :
      Chrono → Store V → String → String → Option String → String → Store V
  register_code chrono s code_hash account expires_at now = record s {
    pending_codes =
        retain
          (λ (c : PendingCode).
            not (c.code_hash == code_hash) && not (expired chrono c.expires_at now))
          s.pending_codes
        ++ record { code_hash = code_hash; account = account; expires_at = expires_at } ∷ [];
  }

  unfoldable pub bind_device :
      Chrono → Store V → String → String → String → String → Store V × Option String
  bind_device chrono s proof_hash device_id public_key now =
      elim (find (live chrono proof_hash now) s.pending_codes) [
        | none ↦ (s, none)
        | some c ↦ (
          record s {
            pending_codes =
                if is_some c.expires_at
                then remove_first (live chrono proof_hash now) s.pending_codes
                else s.pending_codes;
            accounts =
                insert s.accounts c.account
                  (put_device device_id public_key now (devices_of s.accounts c.account));
          },
          some c.account,
        )
      ]

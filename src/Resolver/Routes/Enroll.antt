-- ===== src/Resolver/Routes/Enroll.antt =====
-- Enrolment end to end (resolver/src/routes.rs): a code registered by the source, bound by a device,
-- and the polls that the device can then sign.
use claude_usage_tracker_win.Prelude.{
  ℕ, suc, ◌+◌, ◌*◌, String, ◌≡◌, ◌∙◌, inl, inr, ◌↔◌, true, false, Option, none, some, List, [], ◌∷◌,
  ◌==◌, find, arith, eq_iff, eq_refl, ltb, Option-cases, Result, ok, Result-cases, if◌then◌else◌,
  Dict, insert, is_blank, ℤ, pos,
}
use claude_usage_tracker_win.Resolver.Model.{Device, PendingCode, Store}
use claude_usage_tracker_win.Resolver.Auth.{Crypto, verify_b64, hash_code, valid_public_key_b64}
use claude_usage_tracker_win.Resolver.Store as Mailbox
use claude_usage_tracker_win.Resolver.Store.{
  Chrono, expired, live, find_device, find_in, is_device, devices_of, put_device, bound_device,
  bind_device,
}
use claude_usage_tracker_win.Resolver.Enrollment.{register_code-live}
use claude_usage_tracker_win.Resolver.Binding.{bind_device_accepts, find-put_device}
use claude_usage_tracker_win.Resolver.Config.{Config}
use claude_usage_tracker_win.Resolver.Routes.{
  PollRequest, RegisterCodeRequest, BindRequest, fail, challenge, exceeds, seconds_apart,
  authenticate, authorize, is_sha256_hex, expiry, day_at_most, second, after_save, register_code,
  bind,
}

-- A device that no account has is found under the account that gets it.
find_in-insert :
    (accounts : Dict (List Device)) (account j : String) (ds : List Device) (d : Device)
    → find_in accounts j ≡ none
    → find (is_device j) ds ≡ some d
    → find_in (insert accounts account ds) j ≡ some (account, d.public_key)
unfolding find_in insert
find_in-insert [] account j ds d unknown found = ground arith
find_in-insert ((email, es) ∷ accounts) account j ds d unknown found = ground (
  arith,
  eq_iff email account,
  Option-cases (find (is_device j) es),
  find_in-insert accounts account j ds d,
)

-- What the two endpoints ask of their requests before they touch the codes.
pub record Bindable {Key : Type 0} (crypto : Crypto Key) (req : BindRequest) : Type 0 where
  pub proof_given : (req.proof == "") ≡ false
  pub device_named : is_blank req.device_id ≡ false
  pub key_valid : valid_public_key_b64 crypto req.public_key ≡ true

pub record Registrable (config : Config) (authorization : Option String) (req : RegisterCodeRequest)
    : Type 0 where
  pub authorized : authorize config authorization req.source ≡ ok tt
  pub email_given : is_blank req.account_email ≡ false
  pub hash_shaped : is_sha256_hex req.code_hash ≡ true

module _ (chrono : Chrono) (config : Config) where
  expiry_positive :
      (n now : ℕ) (ttl : Option ℤ) (later : ℕ)
      → ((t : ℕ) → chrono.parse_rfc3339 (chrono.to_rfc3339 t) ≡ some t)
      → ttl ≡ some (pos (suc n))
      → expired chrono (expiry chrono config now ttl) (chrono.to_rfc3339 later)
        ≡ ltb (now + day_at_most (suc n) * second) later
  unfolding expiry expired
  expiry_positive n now ttl later round h =
      rw h (ground (arith, round (now + day_at_most (suc n) * second), round later))

module _ {V Key : Type 0} (crypto : Crypto Key) (chrono : Chrono) (config : Config) where
  register_code_granted :
      (s : Store V) (authorization : Option String) (now : ℕ) (req : RegisterCodeRequest)
      (saved : Result String (Unit {0}))
      → Registrable config authorization req
      → register_code crypto chrono config s authorization now req saved ≡ (
        Mailbox.register_code chrono s req.code_hash req.account_email
            (expiry chrono config now req.ttl_seconds)
            (chrono.to_rfc3339 now),
        after_save saved (201, expiry chrono config now req.ttl_seconds),
      )
  unfolding register_code
  register_code_granted s authorization now req saved r =
      rw (r.authorized, register_code, r.email_given, r.hash_shaped)

  bind_lookup :
      (s : Store V) (now : ℕ) (req : BindRequest)
      → Bindable crypto req
      → (bind crypto chrono config s now req (ok tt)).1
        ≡ elim (find
            (live chrono (hash_code crypto req.proof) (chrono.to_rfc3339 now))
            s.pending_codes) [
              | none ↦ fail 401 "invalid or expired code"
              | some c ↦ ok (c.account, chrono.to_rfc3339 now)
            ]
  unfolding bind
  bind_lookup s now req b =
      let at = chrono.to_rfc3339 now in
      let hash = hash_code crypto req.proof in
      ground (
        arith,
        b.proof_given,
        b.device_named,
        b.key_valid,
        (bind_device_accepts chrono s hash req.device_id req.public_key at).0,
        Option-cases (find (live chrono hash at) s.pending_codes),
      )

  -- A code that an accepted request registers with a positive lifetime, cut to a day, binds a device
  -- by a well-formed request to its account while that lifetime lasts, the last instant included, and
  -- no device after it; timestamps are taken to parse back to the instant that they print.
  pub bind-register_code :
      (s : Store V) (authorization : Option String) (now later n : ℕ) (req : RegisterCodeRequest)
      (device : BindRequest)
      → ((t : ℕ) → chrono.parse_rfc3339 (chrono.to_rfc3339 t) ≡ some t)
      → Registrable config authorization req
      → Bindable crypto device
      → req.ttl_seconds ≡ some (pos (suc n))
      → req.code_hash ≡ hash_code crypto device.proof
      → let registered = (register_code crypto chrono config s authorization now req (ok tt)).0 in
        (bind crypto chrono config registered later device (ok tt)).1 ≡ (
          if ltb (now + day_at_most (suc n) * second) later
          then fail 401 "invalid or expired code"
          else ok (req.account_email, chrono.to_rfc3339 later))
  bind-register_code s authorization now later n req device round r b ttl same =
      let hash = hash_code crypto device.proof in
      let at = chrono.to_rfc3339 now in
      let expires = expiry chrono config now req.ttl_seconds in
      rw (register_code_granted s authorization now req (ok tt) r) (
        bind_lookup (Mailbox.register_code chrono s req.code_hash req.account_email expires at)
          later device b
        ∙ ground (
          arith,
          same,
          register_code-live chrono s hash req.account_email expires at (chrono.to_rfc3339 later),
          expiry_positive chrono config n now req.ttl_seconds later round ttl,
        ))

  bind_store :
      (s : Store V) (now : ℕ) (req : BindRequest) (saved : Result String (Unit {0}))
      → Bindable crypto req
      → (bind crypto chrono config s now req saved).0
        ≡ (bind_device chrono s
            (hash_code crypto req.proof)
            req.device_id
            req.public_key
            (chrono.to_rfc3339 now)).0
  unfolding bind
  bind_store s now req saved b = ground (
    arith,
    b.proof_given,
    b.device_named,
    b.key_valid,
    Option-cases
        (bind_device chrono s (hash_code crypto req.proof) req.device_id req.public_key
          (chrono.to_rfc3339 now)).1,
  )

  find_device-bind_device :
      (s : Store V) (hash device_id public_key now : String) (c : PendingCode)
      → find_device s device_id ≡ none
      → find (live chrono hash now) s.pending_codes ≡ some c
      → find_device (bind_device chrono s hash device_id public_key now).0 device_id
        ≡ some (c.account, public_key)
  unfolding find_device bind_device
  find_device-bind_device s hash device_id public_key now c unknown found =
      rw (found, bind_device)
        (find_in-insert s.accounts c.account device_id
          (put_device device_id public_key now (devices_of s.accounts c.account))
          (bound_device device_id public_key now) unknown
          (ground (
            arith,
            find-put_device device_id public_key now device_id (devices_of s.accounts c.account),
            eq_refl device_id,
          )))

  -- Once a device that no account had is bound by a live code, a fresh poll in its name is granted
  -- the code's account exactly when its signature verifies under the key that was bound.
  pub authenticate-bind :
      (s : Store V) (now later ts : ℕ) (device : BindRequest) (req : PollRequest) (c : PendingCode)
      (saved : Result String (Unit {0}))
      → Bindable crypto device
      → find_device s device.device_id ≡ none
      → find (live chrono (hash_code crypto device.proof) (chrono.to_rfc3339 now)) s.pending_codes
        ≡ some c
      → req.device_id ≡ device.device_id
      → chrono.parse_rfc3339 req.ts ≡ some ts
      → exceeds (seconds_apart later ts) config.poll_skew_secs ≡ false
      → (authenticate crypto chrono config
            (bind crypto chrono config s now device saved).0
            later
            req
          ≡ ok c.account)
        ↔ (verify_b64 crypto device.public_key (challenge req) req.signature ≡ ok tt)
  unfolding authenticate
  authenticate-bind s now later ts device req c saved b unknown found same parsed fresh =
      let at = chrono.to_rfc3339 now in
      let known : find_device (bind crypto chrono config s now device saved).0 req.device_id
          ≡ some (c.account, device.public_key) =
        rw (bind_store s now device saved b, same)
          (find_device-bind_device s (hash_code crypto device.proof) device.device_id
            device.public_key at c unknown found) in
      (
        λ h.
            elim (Result-cases
              (verify_b64 crypto device.public_key (challenge req) req.signature)) [
                | inl (u, signed) ↦ signed
                | inr (e, forged) ↦ absurd (ground (arith, parsed, fresh, known, forged))
              ],
        λ signed. ground (arith, parsed, fresh, known, signed),
      )

-- ===== src/Resolver/Routes/Reachable.antt =====
-- The stores that the requests of resolver/src/routes.rs can lead to.
use mathlib.Core.Path.{subst}
use claude_usage_tracker_win.Prelude.{
  ℕ, String, ◌≡◌, ap, sym, ◌⊎◌, inl, inr, ◌||◌, Option, ◌==◌, any, find, arith, Bool-cases,
  Option-cases, Result, Result-cases, is_blank,
}
use claude_usage_tracker_win.Resolver.Model.{Envelope, Store}
use claude_usage_tracker_win.Resolver.Auth.{Crypto, valid_public_key_b64, hash_code}
use claude_usage_tracker_win.Resolver.Store as Mailbox
use claude_usage_tracker_win.Resolver.Store.{
  Chrono, is_device, seen_at, map_values, devices_of, put_device, live, is_some, remove_first,
  take_undelivered, bind_device, same_key,
}
use claude_usage_tracker_win.Resolver.Delivery.{ingest-KeysDistinct, deliver-KeysDistinct}
use claude_usage_tracker_win.Resolver.Enrollment.{register_code-CodesDistinct}
use claude_usage_tracker_win.Resolver.Binding.{put_device-DevicesDistinct}
use claude_usage_tracker_win.Resolver.WellFormed.{
  IsWellFormed, insert-AccountsDistinct, devices_of-DevicesDistinct, seen_at-AccountsDistinct,
  remove_first-CodesDistinct,
}
use claude_usage_tracker_win.Resolver.Config.{Config}
use claude_usage_tracker_win.Resolver.Routes.{
  expiry, PollRequest, RegisterCodeRequest, BindRequest, authenticate, authorize, is_sha256_hex,
  ingest, poll, register_code, bind,
}
use claude_usage_tracker_win.Resolver.Routes.Answers.{ingest_refused, ingest_taken}
use claude_usage_tracker_win.Resolver.Routes.Poll.{poll_refused, poll_proven}

module _ {V Key : Type 0} (crypto : Crypto Key) (chrono : Chrono) (config : Config) where
  -- One request, and how its save at the end turned out.
  pub data Request : Store V → Store V → Type 0 where
    ingested :
        (s : Store V) (authorization : Option String) (env : Envelope V)
        (saved : Result String (Unit {0}))
        → Request s (ingest crypto chrono config s authorization env saved).0
    polled :
        (s : Store V) (now : ℕ) (req : PollRequest) (saved : Result String (Unit {0}))
        → Request s (poll crypto chrono config s now req saved).0
    registered :
        (s : Store V) (authorization : Option String) (now : ℕ) (req : RegisterCodeRequest)
        (saved : Result String (Unit {0}))
        → Request s (register_code crypto chrono config s authorization now req saved).0
    bound :
        (s : Store V) (now : ℕ) (req : BindRequest) (saved : Result String (Unit {0}))
        → Request s (bind crypto chrono config s now req saved).0

  -- Any number of requests, one after the other.
  pub data Requests (start : Store V) : Store V → Type 0 where
    none_yet : Requests start start
    more : {s t : Store V} → Requests start s → Request s t → Requests start t

  bind_device-IsWellFormed :
      (s : Store V) (hash device_id public_key now : String)
      → IsWellFormed s
      → IsWellFormed (bind_device chrono s hash device_id public_key now).0
  unfolding bind_device
  bind_device-IsWellFormed s hash device_id public_key now w =
      elim (Option-cases (find (live chrono hash now) s.pending_codes)) [
        | inl gone ↦ rw (gone, bind_device) w
        | inr (c, found) ↦
            let devices =
              insert-AccountsDistinct s.accounts c.account
                (put_device device_id public_key now (devices_of s.accounts c.account)) w.devices
                (put_device-DevicesDistinct device_id public_key now
                  (devices_of s.accounts c.account)
                  (devices_of-DevicesDistinct s.accounts c.account w.devices)) in
            elim (Bool-cases (is_some c.expires_at)) [
              | inl once ↦
                  rw (found, bind_device, once)
                    (record {
                      keys = w.keys;
                      codes =
                          remove_first-CodesDistinct (live chrono hash now) s.pending_codes w.codes;
                      devices = devices;
                    })
              | inr ever ↦
                  rw (found, bind_device, ever)
                    (record { keys = w.keys; codes = w.codes; devices = devices })
            ]
      ]

  stored-IsWellFormed :
      (s : Store V) (env : Envelope V) → IsWellFormed s → IsWellFormed (Mailbox.ingest s env).0
  unfolding Mailbox.ingest
  stored-IsWellFormed s env w =
      let keys = ingest-KeysDistinct s env w.keys in
      elim (Bool-cases (any (same_key env) s.mailbox)) [
        | inl old ↦ rw old w
        | inr new ↦
            rw new (record { keys = (rw new at keys); codes = w.codes; devices = w.devices })
      ]

  ingest-IsWellFormed :
      (s : Store V) (authorization : Option String) (env : Envelope V)
      (saved : Result String (Unit {0}))
      → IsWellFormed s
      → IsWellFormed (ingest crypto chrono config s authorization env saved).0
  ingest-IsWellFormed s authorization env saved w =
      elim (Result-cases (authorize config authorization env.source)) [
        | inl (u, granted) ↦
            subst (λ (r : Store V). IsWellFormed r)
              (sym (
                ap (λ r. r.0)
                  (ingest_taken crypto chrono config s authorization env saved granted)))
              (stored-IsWellFormed s env w)
        | inr (e, refused) ↦
            subst (λ (r : Store V). IsWellFormed r)
              (sym (
                ap (λ r. r.0)
                  (ingest_refused crypto chrono config s authorization env saved e refused)))
              w
      ]

  poll-IsWellFormed :
      (s : Store V) (now : ℕ) (req : PollRequest) (saved : Result String (Unit {0}))
      → IsWellFormed s
      → IsWellFormed (poll crypto chrono config s now req saved).0
  unfolding take_undelivered
  poll-IsWellFormed s now req saved w =
      elim (Result-cases (authenticate crypto chrono config s now req)) [
        | inl (account, proven) ↦
            subst (λ (r : Store V). IsWellFormed r)
              (sym
                (ap (λ r. r.0) (poll_proven crypto chrono config s now req saved account proven)))
              (record {
                keys = deliver-KeysDistinct account req.device_id s.mailbox w.keys;
                codes = w.codes;
                devices =
                    seen_at-AccountsDistinct req.device_id (chrono.to_rfc3339 now) s.accounts
                      w.devices;
              })
        | inr (e, refused) ↦
            subst (λ (r : Store V). IsWellFormed r)
              (sym (ap (λ r. r.0) (poll_refused crypto chrono config s now req saved e refused))) w
      ]

  coded-IsWellFormed :
      (s : Store V) (hash account : String) (expires_at : Option String) (now : String)
      → IsWellFormed s
      → IsWellFormed (Mailbox.register_code chrono s hash account expires_at now)
  unfolding Mailbox.register_code
  coded-IsWellFormed s hash account expires_at now w = record {
    keys = w.keys;
    codes = register_code-CodesDistinct chrono s hash account expires_at now w.codes;
    devices = w.devices;
  }

  registered_store :
      (s : Store V) (authorization : Option String) (now : ℕ) (req : RegisterCodeRequest)
      (saved : Result String (Unit {0}))
      → let r = register_code crypto chrono config s authorization now req saved in
        (r.0 ≡ s)
        ⊎ (r.0
            ≡ Mailbox.register_code chrono s req.code_hash req.account_email
                (expiry chrono config now req.ttl_seconds)
                (chrono.to_rfc3339 now))
  unfolding register_code
  registered_store s authorization now req saved =
      elim (Result-cases (authorize config authorization req.source)) [
        | inr (e, refused) ↦ inl (rw (refused, register_code))
        | inl (u, granted) ↦ elim (Bool-cases (is_blank req.account_email)) [
          | inl blank ↦ inl (rw (granted, register_code, blank))
          | inr given ↦ elim (Bool-cases (is_sha256_hex req.code_hash)) [
            | inl shaped ↦ inr (rw (granted, register_code, given, shaped))
            | inr wrong ↦ inl (rw (granted, register_code, given, wrong))
          ]
        ]
      ]

  bound_store :
      (s : Store V) (now : ℕ) (req : BindRequest) (saved : Result String (Unit {0}))
      → let r = bind crypto chrono config s now req saved in
        (r.0 ≡ s)
        ⊎ (r.0
            ≡ (bind_device chrono s
                (hash_code crypto req.proof)
                req.device_id
                req.public_key
                (chrono.to_rfc3339 now)).0)
  unfolding bind
  bound_store s now req saved = elim (Bool-cases (req.proof == "" || is_blank req.device_id)) [
    | inl missing ↦ inl (ground (arith, missing))
    | inr given ↦ elim (Bool-cases (valid_public_key_b64 crypto req.public_key)) [
      | inr wrong ↦ inl (ground (arith, given, wrong))
      | inl valid ↦ inr (
          ground (
            arith,
            given,
            valid,
            Option-cases
                (bind_device chrono s (hash_code crypto req.proof) req.device_id req.public_key
                  (chrono.to_rfc3339 now)).1,
          ))
    ]
  ]

  Request-IsWellFormed : (s t : Store V) → Request s t → IsWellFormed s → IsWellFormed t
  Request-IsWellFormed _ _ (Request.ingested s authorization env saved) w =
      ingest-IsWellFormed s authorization env saved w
  Request-IsWellFormed _ _ (Request.polled s now req saved) w = poll-IsWellFormed s now req saved w
  Request-IsWellFormed _ _ (Request.registered s authorization now req saved) w =
      elim (registered_store s authorization now req saved) [
        | inl same ↦ subst (λ (r : Store V). IsWellFormed r) (sym same) w
        | inr changed ↦
            subst (λ (r : Store V). IsWellFormed r) (sym changed)
              (coded-IsWellFormed s req.code_hash req.account_email
                (expiry chrono config now req.ttl_seconds) (chrono.to_rfc3339 now) w)
      ]
  Request-IsWellFormed _ _ (Request.bound s now req saved) w = elim (bound_store s now req saved) [
    | inl same ↦ subst (λ (r : Store V). IsWellFormed r) (sym same) w
    | inr changed ↦
        subst (λ (r : Store V). IsWellFormed r) (sym changed)
          (bind_device-IsWellFormed s (hash_code crypto req.proof) req.device_id req.public_key
            (chrono.to_rfc3339 now) w)
  ]

  -- Whatever requests arrive, from a well-formed store on, refused ones and failed saves included,
  -- the store stays well formed: no message is stored twice, no hash of a code and no device of an
  -- account either.
  pub Requests-IsWellFormed :
      (start t : Store V) → Requests start t → IsWellFormed start → IsWellFormed t
  Requests-IsWellFormed start _ Requests.none_yet w = w
  Requests-IsWellFormed start _ (Requests.more {s} {t} before request) w =
      Request-IsWellFormed s t request (Requests-IsWellFormed start s before w)

-- ===== src/Resolver/Routes/Poll.antt =====
-- What `poll` of resolver/src/routes.rs gives and to whom.
use claude_usage_tracker_win.Prelude.{
  ℕ, String, ◌≡◌, refl, ◌∙◌, inl, inr, ◌↔◌, false, none, some, List, [], ◌∷◌, find, retain, map,
  arith, Bool-cases, Option-cases, Result, ok, err, Result-cases, Dict,
}
use claude_usage_tracker_win.Resolver.Model.{Device, MessageOut, Store, message_out}
use claude_usage_tracker_win.Resolver.Auth.{Crypto, verify_b64}
use claude_usage_tracker_win.Resolver.Store.{
  Chrono, find_device, find_in, is_device, seen_at, map_values, take_undelivered, undelivered,
}
use claude_usage_tracker_win.Resolver.Delivery.{take_undelivered-retain, take_undelivered_twice}
use claude_usage_tracker_win.Resolver.Config.{Config}
use claude_usage_tracker_win.Resolver.Routes.{
  ApiError, PollRequest, fail, challenge, exceeds, seconds_apart, authenticate, poll, after_save,
}

find-seen_at :
    (device_id now j : String) (ds : List Device)
    → elim (find (is_device j) (map (seen_at device_id now) ds)) [
      | none ↦ none
      | some d ↦ some d.public_key
    ]
      ≡ elim (find (is_device j) ds) [ none ↦ none | some d ↦ some d.public_key ]
find-seen_at device_id now j [] = refl
find-seen_at device_id now j (d ∷ ds) = ground (arith, find-seen_at device_id now j ds)

-- The time of a device's last poll is not part of its identity.
find_in-seen_at :
    (device_id now j : String) (accounts : Dict (List Device))
    → find_in (map_values (map (seen_at device_id now)) accounts) j ≡ find_in accounts j
unfolding find_in
find_in-seen_at device_id now j [] = refl
find_in-seen_at device_id now j ((email, ds) ∷ accounts) =
    ground (arith, find-seen_at device_id now j ds, find_in-seen_at device_id now j accounts)

module _ {V Key : Type 0} (crypto : Crypto Key) (chrono : Chrono) (config : Config) where
  -- The request is fresh and signed by the key of a known device.
  pub record Proven (s : Store V) (now : ℕ) (req : PollRequest) (account : String) : Type 0 where
    pub ts : ℕ
    pub parsed : chrono.parse_rfc3339 req.ts ≡ some ts
    pub fresh : exceeds (seconds_apart now ts) config.poll_skew_secs ≡ false
    pub public_key : String
    pub known : find_device s req.device_id ≡ some (account, public_key)
    pub signed : verify_b64 crypto public_key (challenge req) req.signature ≡ ok tt

  authenticate-Proven :
      (s : Store V) (now : ℕ) (req : PollRequest) (account : String)
      → authenticate crypto chrono config s now req ≡ ok account
      → Proven s now req account
  unfolding authenticate
  authenticate-Proven s now req account h = elim (Option-cases (chrono.parse_rfc3339 req.ts)) [
    | inl bad ↦ ground arith
    | inr (ts, parsed) ↦ elim (Bool-cases (exceeds (seconds_apart now ts) config.poll_skew_secs)) [
      | inl stale ↦ ground arith
      | inr fresh ↦ elim (Option-cases (find_device s req.device_id)) [
        | inl unknown ↦ ground arith
        | inr ((owner, key), known) ↦
            elim (Result-cases (verify_b64 crypto key (challenge req) req.signature)) [
              | inr (e, forged) ↦ ground arith
              | inl (u, signed) ↦ record {
                ts = ts;
                parsed = parsed;
                fresh = fresh;
                public_key = key;
                known = ground arith;
                signed = signed;
              }
            ]
      ]
    ]
  ]

  Proven-authenticate :
      (s : Store V) (now : ℕ) (req : PollRequest) (account : String)
      → Proven s now req account
      → authenticate crypto chrono config s now req ≡ ok account
  unfolding authenticate
  Proven-authenticate s now req account p = ground (arith, p.parsed, p.fresh, p.known, p.signed)

  pub poll_proven :
      (s : Store V) (now : ℕ) (req : PollRequest) (saved : Result String (Unit {0}))
      (account : String)
      → authenticate crypto chrono config s now req ≡ ok account
      → poll crypto chrono config s now req saved ≡ (
        (take_undelivered s account req.device_id (chrono.to_rfc3339 now)).0,
        after_save saved
            (map message_out (take_undelivered s account req.device_id (chrono.to_rfc3339 now)).1),
      )
  unfolding poll
  poll_proven s now req saved account h = rw (h, poll)

  pub poll_refused :
      (s : Store V) (now : ℕ) (req : PollRequest) (saved : Result String (Unit {0})) (e : ApiError)
      → authenticate crypto chrono config s now req ≡ err e
      → poll crypto chrono config s now req saved ≡ (s, err e)
  unfolding poll
  poll_refused s now req saved e h = rw (h, poll)

  authenticate-take_undelivered :
      (s : Store V) (now : ℕ) (req : PollRequest) (account device at : String)
      → authenticate crypto chrono config (take_undelivered s account device at).0 now req
        ≡ authenticate crypto chrono config s now req
  unfolding authenticate take_undelivered find_device
  authenticate-take_undelivered s now req account device at =
      ground (arith, find_in-seen_at device at req.device_id s.accounts)

  -- `poll` answers with messages exactly to a fresh request signed by the key of a known device,
  -- where the save succeeds; the messages are those of the mailbox for that device's account that
  -- the device has not had, in order.
  pub poll_answers :
      (s : Store V) (now : ℕ) (req : PollRequest) (saved : Result String (Unit {0}))
      (out : List (MessageOut V))
      → ((poll crypto chrono config s now req saved).1 ≡ ok out) ↔ (
          (account : String) × Proven s now req account
          × (saved ≡ ok tt)
          × (out ≡ map message_out (retain (undelivered account req.device_id) s.mailbox)))
  poll_answers s now req saved out = (
    λ h. elim (Result-cases (authenticate crypto chrono config s now req)) [
      | inr (e, refused) ↦ absurd (ground (arith, poll_refused s now req saved e refused))
      | inl (account, proven) ↦ elim (Result-cases saved) [
        | inr (e, lost) ↦ absurd (ground (arith, poll_proven s now req saved account proven))
        | inl (u, kept) ↦ (
          account,
          authenticate-Proven s now req account proven,
          kept,
          ground (
            arith,
            poll_proven s now req saved account proven,
            take_undelivered-retain s account req.device_id (chrono.to_rfc3339 now),
          ),
        )
      ]
    ],
    λ (account, proven, kept, same). ground (
      arith,
      poll_proven s now req saved account (Proven-authenticate s now req account proven),
      take_undelivered-retain s account req.device_id (chrono.to_rfc3339 now),
      kept,
      same,
    ),
  )

  -- Where the save after a delivery fails, the poll answers 500 but the messages stay marked as
  -- delivered in memory: where the next request is another proven poll by the same device, it
  -- answers with no message.
  pub poll_save_failure :
      (s : Store V) (now later : ℕ) (req again : PollRequest) (account e : String)
      → Proven s now req account
      → Proven s later again account
      → again.device_id ≡ req.device_id
      → let failed = poll crypto chrono config s now req (err e) in
        (failed.1 ≡ fail 500 e)
        × ((poll crypto chrono config failed.0 later again (ok tt)).1 ≡ ok [])
  poll_save_failure s now later req again account e first second same =
      let at = chrono.to_rfc3339 now in
      let polled = (take_undelivered s account req.device_id at).0 in
      let granted = Proven-authenticate s now req account first in
      let empty : (take_undelivered polled account again.device_id (chrono.to_rfc3339 later)).1
          ≡ [] =
        rw same (take_undelivered_twice s account req.device_id at (chrono.to_rfc3339 later)) in
      rw (poll_proven s now req (err e) account granted) (
        refl,
        rw
            (poll_proven polled later again (ok tt) account (
              authenticate-take_undelivered s later again account req.device_id at
              ∙ Proven-authenticate s later again account second))
            (rw empty),
      )

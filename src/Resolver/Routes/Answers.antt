-- ===== src/Resolver/Routes/Answers.antt =====
-- How `ingest` of resolver/src/routes.rs answers.
use claude_usage_tracker_win.Prelude.{
  ℕ, String, ◌≡◌, refl, inl, inr, ◌↔◌, ◌⊎◌, Bool, true, false, Option, some, [], ◌∷◌, ◌++◌, any,
  contains, if◌then◌else◌, arith, Bool-cases, Option-cases, Result, ok, err, Result-cases,
}
use claude_usage_tracker_win.Resolver.Model.{Envelope, Message, Store}
use claude_usage_tracker_win.Resolver.Auth.{Crypto, ingest_token_ok-contains}
use claude_usage_tracker_win.Resolver.Store as Mailbox
use claude_usage_tracker_win.Resolver.Store.{Chrono, same_key}
use claude_usage_tracker_win.Resolver.Config.{Config, values_of}
use claude_usage_tracker_win.Resolver.Routes.{ApiError, fail, authorize, bearer, after_save, ingest}

-- The header presents a token that the configuration lists for the source.
pub record Authorized (config : Config) (authorization : Option String) (source : String)
    : Type 0 where
  pub token : String
  pub presented : bearer authorization ≡ some token
  pub listed : contains token (values_of config.tokens source) ≡ true

absurd_of {ℓ κ} :
    {E : Type ℓ} {A : Type κ} {r : Result E A} {e : E} {a : A} → r ≡ err e → r ≡ ok a → ⊥
absurd_of h k = cc

pub authorize_iff :
    (config : Config) (authorization : Option String) (source : String)
    → (authorize config authorization source ≡ ok tt) ↔ Authorized config authorization source
unfolding authorize
authorize_iff config authorization source = (
  λ h. elim (Option-cases (bearer authorization)) [
    | inl missing ↦ ground arith
    | inr (token, presented) ↦ record {
      token = token;
      presented = presented;
      listed =
          ground
            (arith, ingest_token_ok-contains (values_of config.tokens source) token, presented);
    }
  ],
  λ a. ground (
    arith,
    a.presented,
    a.listed,
    ingest_token_ok-contains (values_of config.tokens source) a.token,
  ),
)

answer_taken :
    (known : Bool) (saved : Result String (Unit {0}))
    → let answer : Result ApiError ℕ = if known then ok 200 else after_save saved 202 in
      ((answer ≡ ok 202) ↔ ((known ≡ false) × (saved ≡ ok tt)))
      × ((answer ≡ ok 200) ↔ (known ≡ true))
answer_taken true saved =
    ((λ h. absurd (ground arith), λ h. absurd (ground arith)), (λ h. refl, λ h. refl))
answer_taken false (ok u) =
    ((λ h. (refl, refl), λ h. refl), (λ h. absurd (ground arith), λ h. absurd (ground arith)))
answer_taken false (err e) = (
  (λ h. absurd (ground arith), λ h. absurd (ground arith)),
  (λ h. absurd (ground arith), λ h. absurd (ground arith)),
)

answer_is :
    {A : Type 0} (known : Bool) (saved : Result String (Unit {0}))
    → let answer : Result ApiError ℕ = if known then ok 200 else after_save saved 202 in
      (answer ≡ ok 202)
      ⊎ ((answer ≡ ok 200)
          ⊎ ((e : ApiError) × (answer ≡ err e)
              × (A → (known ≡ false) × (x : String) × (saved ≡ err x) × (answer ≡ fail 500 x))))
answer_is true saved = inr (inl refl)
answer_is false (ok u) = inl refl
answer_is false (err x) =
    inr (inr (record { status = 500; message = x }, refl, λ a. (refl, x, refl, refl)))

-- The envelope in the mailbox.
abbrev pub undelivered_yet : {V : Type 0} → Envelope V → Message V
undelivered_yet env = record {
  id = env.id;
  ts = env.ts;
  recipient = env.recipient;
  source = env.source;
  kind = env.kind;
  payload = env.payload;
  delivered_to = [];
}

ingest-appends :
    {V : Type 0} (s : Store V) (env : Envelope V)
    → (Mailbox.ingest s env).0 ≡ (
        if any (same_key env) s.mailbox
        then s
        else record s { mailbox = s.mailbox ++ undelivered_yet env ∷ [] })
unfolding Mailbox.ingest
ingest-appends s env = elim (Bool-cases (any (same_key env) s.mailbox)) [
  | inl old ↦ rw old refl
  | inr new ↦ rw new refl
]

module _ {V Key : Type 0} (crypto : Crypto Key) (chrono : Chrono) (config : Config) where
  pub ingest_refused :
      (s : Store V) (authorization : Option String) (env : Envelope V)
      (saved : Result String (Unit {0})) (e : ApiError)
      → authorize config authorization env.source ≡ err e
      → ingest crypto chrono config s authorization env saved ≡ (s, err e)
  unfolding ingest
  ingest_refused s authorization env saved e h = rw (h, ingest)

  pub ingest_taken :
      (s : Store V) (authorization : Option String) (env : Envelope V)
      (saved : Result String (Unit {0}))
      → authorize config authorization env.source ≡ ok tt
      → ingest crypto chrono config s authorization env saved ≡ (
        (Mailbox.ingest s env).0,
        if any (same_key env) s.mailbox then ok 200 else after_save saved 202,
      )
  unfolding ingest Mailbox.ingest
  ingest_taken s authorization env saved h = elim (Bool-cases (any (same_key env) s.mailbox)) [
    | inl old ↦ rw (h, ingest, old)
    | inr new ↦ rw (h, ingest, new)
  ]

  -- `ingest` answers 202 exactly to an authorized, new envelope whose save succeeds, and 200 exactly
  -- to an authorized duplicate; any other answer is an error, for an authorized request the 500 of
  -- a save that failed. The envelope is appended to the mailbox in memory, as delivered to no device,
  -- exactly when it is authorized and new, also where the save then fails; otherwise the store is as
  -- it was.
  pub ingest_answers :
      (s : Store V) (authorization : Option String) (env : Envelope V)
      (saved : Result String (Unit {0}))
      → let answer = ingest crypto chrono config s authorization env saved in
        let known = any (same_key env) s.mailbox in
        ((answer.1 ≡ ok 202)
          ↔ (Authorized config authorization env.source × (known ≡ false) × (saved ≡ ok tt)))
        × (((answer.1 ≡ ok 200) ↔ (Authorized config authorization env.source × (known ≡ true)))
            × (((answer.1 ≡ ok 202)
                  ⊎ ((answer.1 ≡ ok 200)
                      ⊎ ((e : ApiError) × (answer.1 ≡ err e)
                          × (Authorized config authorization env.source
                              → (known ≡ false)
                                × (x : String) × (saved ≡ err x)
                                × (answer.1 ≡ fail 500 x)))))
                × ((Authorized config authorization env.source
                      → answer.0 ≡ (
                          if known
                          then s
                          else record s { mailbox = s.mailbox ++ undelivered_yet env ∷ [] }))
                    × (¬ Authorized config authorization env.source → answer.0 ≡ s))))
  ingest_answers s authorization env saved =
      elim (Result-cases (authorize config authorization env.source)) [
        | inl (u, granted) ↦
            let a = (authorize_iff config authorization env.source).0 granted in
            let (accepted, repeated) = answer_taken (any (same_key env) s.mailbox) saved in
            rw (ingest_taken s authorization env saved granted) (
              (λ h. (a, (accepted.0 h).0, (accepted.0 h).1), λ h. accepted.1 (h.1, h.2)),
              (
                (λ h. (a, repeated.0 h), λ h. repeated.1 h.1),
                (
                  answer_is (any (same_key env) s.mailbox) saved,
                  (λ h. ingest-appends s env, λ h. absurd (h a)),
                ),
              ),
            )
        | inr (e, refused) ↦
            let no = λ (a : Authorized config authorization env.source).
              absurd_of refused ((authorize_iff config authorization env.source).1 a) in
            rw (ingest_refused s authorization env saved e refused) (
              (λ h. absurd (ground arith), λ h. absurd (no h.0)),
              (
                (λ h. absurd (ground arith), λ h. absurd (no h.0)),
                (inr (inr (e, refl, λ a. absurd (no a))), (λ a. absurd (no a), λ h. refl)),
              ),
            )
      ]

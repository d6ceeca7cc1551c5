-- ===== src/Resolver/Delivery.antt =====
-- The mailbox of resolver/src/store.rs: `ingest` and `take_undelivered` together.
use claude_usage_tracker_win.Prelude.{
  String, ◌≡◌, refl, ◌∙◌, Bool, true, false, ◌&&◌, ◌||◌, inl, inr, List, [], ◌∷◌, ◌++◌, ◌==◌,
  eq_iff, eq_refl, any, retain, contains, map, Bool-cases, arith,
}
use claude_usage_tracker_win.Resolver.Model.{Envelope, Message, Store, message_out}
use claude_usage_tracker_win.Resolver.Store.{
  same_key, message_of, ingest, undelivered, deliver, take_undelivered,
}

contains-concat :
    (x y : String) (xs : List String) → contains x (xs ++ y ∷ []) ≡ contains x xs || y == x
contains-concat x y [] = ground arith
contains-concat x y (z ∷ xs) = ground (arith, contains-concat x y xs)

module _ {V : Type 0} where
  deliver_again :
      (account device : String) (ms : List (Message V))
      → (deliver account device (deliver account device ms).0).1 ≡ []
  unfolding deliver
  deliver_again account device [] = refl
  deliver_again account device (m ∷ ms) = ground (
    arith,
    deliver_again account device ms,
    contains-concat device device m.delivered_to,
    eq_refl device,
  )

  deliver-append :
      (account device : String) (ms ns : List (Message V))
      → ((deliver account device (ms ++ ns)).0
          ≡ (deliver account device ms).0 ++ (deliver account device ns).0)
        × ((deliver account device (ms ++ ns)).1
            ≡ (deliver account device ms).1 ++ (deliver account device ns).1)
  unfolding deliver
  deliver-append account device [] ns = (refl, refl)
  deliver-append account device (m ∷ ms) ns = ground (arith, deliver-append account device ms ns)

  deliver-other :
      (account device other_account other : String) (ms : List (Message V))
      → (device == other) ≡ false
      → map message_out (deliver other_account other (deliver account device ms).0).1
        ≡ map message_out (deliver other_account other ms).1
  unfolding deliver message_out
  deliver-other account device other_account other [] h = refl
  deliver-other account device other_account other (m ∷ ms) h = ground (
    arith,
    deliver-other account device other_account other ms h,
    contains-concat other device m.delivered_to,
  )

  deliver-retain :
      (account device : String) (ms : List (Message V))
      → map message_out (deliver account device ms).1
        ≡ map message_out (retain (undelivered account device) ms)
  unfolding deliver message_out
  deliver-retain account device [] = refl
  deliver-retain account device (m ∷ ms) = ground (arith, deliver-retain account device ms)

  -- A poll hands out the messages of the account that the device has not had, in the order of the
  -- mailbox, and no others.
  pub take_undelivered-retain :
      (s : Store V) (account device now : String)
      → map message_out (take_undelivered s account device now).1
        ≡ map message_out (retain (undelivered account device) s.mailbox)
  unfolding take_undelivered
  take_undelivered-retain s account device now = deliver-retain account device s.mailbox

  any-deliver :
      (account device : String) (env : Envelope V) (ms : List (Message V))
      → any (same_key env) (deliver account device ms).0 ≡ any (same_key env) ms
  unfolding deliver
  any-deliver account device env [] = refl
  any-deliver account device env (m ∷ ms) = ground (arith, any-deliver account device env ms)

  any-concat :
      (p : Message V → Bool) (ms : List (Message V)) (m : Message V)
      → any p (ms ++ m ∷ []) ≡ any p ms || p m
  any-concat p [] m = ground arith
  any-concat p (n ∷ ms) m = ground (arith, any-concat p ms m)

  ingest_known :
      (s : Store V) (env : Envelope V)
      → any (same_key env) s.mailbox ≡ true
      → ingest s env ≡ (s, false)
  unfolding ingest
  ingest_known s env h = rw h

  ingest_fresh :
      (s : Store V) (env : Envelope V)
      → any (same_key env) s.mailbox ≡ false
      → (ingest s env).0.mailbox ≡ s.mailbox ++ message_of env ∷ []
  unfolding ingest
  ingest_fresh s env h = rw h

  any-ingest : (s : Store V) (env : Envelope V) → any (same_key env) (ingest s env).0.mailbox ≡ true
  any-ingest s env = elim (Bool-cases (any (same_key env) s.mailbox)) [
    | inl old ↦ rw (ingest_known s env old) old
    | inr new ↦ rw (ingest_fresh s env new) (
        ground (
          arith,
          any-concat (same_key env) s.mailbox (message_of env),
          eq_refl env.source,
          eq_refl env.recipient,
          eq_refl env.id,
        ))
  ]

  -- A retry is recognised, before and after delivery: an envelope that was taken in is a duplicate
  -- from then on, whatever polls come between, and a duplicate changes nothing.
  pub ingest-retry :
      (s : Store V) (env : Envelope V) (account device now : String)
      → let stored = (ingest s env).0 in
        let polled = (take_undelivered stored account device now).0 in
        (ingest stored env ≡ (stored, false)) × (ingest polled env ≡ (polled, false))
  unfolding take_undelivered
  ingest-retry s env account device now =
      let stored = (ingest s env).0 in
      (
        ingest_known stored env (any-ingest s env),
        ingest_known (take_undelivered stored account device now).0 env
            (any-deliver account device env stored.mailbox ∙ any-ingest s env),
      )

  deliver_one :
      (account device : String) (env : Envelope V)
      → env.recipient ≡ account
      → map message_out (deliver account device (message_of env ∷ [])).1
        ≡ message_out (message_of env) ∷ []
  unfolding deliver message_out
  deliver_one account device env mine = ground (arith, eq_iff env.recipient account)

  -- After a device has polled, its next poll gets exactly the one new message of its account that
  -- came in between.
  pub take_undelivered-ingest :
      (s : Store V) (env : Envelope V) (account device now later : String)
      → any (same_key env) s.mailbox ≡ false
      → env.recipient ≡ account
      → let polled = (take_undelivered s account device now).0 in
        map message_out (take_undelivered (ingest polled env).0 account device later).1
        ≡ message_out (message_of env) ∷ []
  unfolding take_undelivered
  take_undelivered-ingest s env account device now later fresh mine =
      let polled = (take_undelivered s account device now).0 in
      let new : any (same_key env) polled.mailbox ≡ false =
        any-deliver account device env s.mailbox ∙ fresh in
      rw (ingest_fresh polled env new) (
        ground (
          arith,
          deliver-append account device (deliver account device s.mailbox).0 (message_of env ∷ []),
          deliver_again account device s.mailbox,
          deliver_one account device env mine,
        ))

  pub take_undelivered_twice :
      (s : Store V) (account device now later : String)
      → (take_undelivered (take_undelivered s account device now).0 account device later).1 ≡ []
  unfolding take_undelivered
  take_undelivered_twice s account device now later = deliver_again account device s.mailbox

  -- A second poll gets nothing, and takes nothing from any other device, of the same account or of
  -- another: what that device would have got without the first poll it gets after it.
  pub take_undelivered-fan_out :
      (s : Store V) (account device now later other_account other : String)
      → (device == other) ≡ false
      → let polled = (take_undelivered s account device now).0 in
        ((take_undelivered polled account device later).1 ≡ [])
        × (map message_out (take_undelivered polled other_account other later).1
            ≡ map message_out (take_undelivered s other_account other later).1)
  unfolding take_undelivered
  take_undelivered-fan_out s account device now later other_account other h = (
    deliver_again account device s.mailbox,
    deliver-other account device other_account other s.mailbox h,
  )

  -- Whether two messages have the same source, recipient and id.
  abbrev pub same_message : Message V → Message V → Bool
  same_message m n = n.source == m.source && (n.recipient == m.recipient && n.id == m.id)

  -- No two messages of the mailbox have the same source, recipient and id.
  abbrev pub KeysDistinct : List (Message V) → Type 0
  KeysDistinct [] = Unit
  KeysDistinct (m ∷ ms) = (any (same_message m) ms ≡ false) × KeysDistinct ms

  any-deliver_same :
      (account device : String) (m : Message V) (ms : List (Message V))
      → any (same_message m) (deliver account device ms).0 ≡ any (same_message m) ms
  unfolding deliver
  any-deliver_same account device m [] = refl
  any-deliver_same account device m (n ∷ ms) = ground (arith, any-deliver_same account device m ms)

  pub deliver-KeysDistinct :
      (account device : String) (ms : List (Message V))
      → KeysDistinct ms
      → KeysDistinct (deliver account device ms).0
  unfolding deliver
  deliver-KeysDistinct account device [] d = tt
  deliver-KeysDistinct account device (m ∷ ms) d =
      elim (Bool-cases (undelivered account device m)) [
        | inl e ↦
            rw e (
              any-deliver_same account device m ms ∙ d.0,
              deliver-KeysDistinct account device ms d.1,
            )
        | inr e ↦
            rw e (
              any-deliver_same account device m ms ∙ d.0,
              deliver-KeysDistinct account device ms d.1,
            )
      ]

  KeysDistinct-concat :
      (env : Envelope V) (ms : List (Message V))
      → any (same_key env) ms ≡ false
      → KeysDistinct ms
      → KeysDistinct (ms ++ message_of env ∷ [])
  KeysDistinct-concat env [] h d = (refl, tt)
  KeysDistinct-concat env (m ∷ ms) h d = (
    ground (
      arith,
      any-concat (same_message m) ms (message_of env),
      d.0,
      eq_iff m.source env.source,
      eq_iff env.source m.source,
      eq_iff m.recipient env.recipient,
      eq_iff env.recipient m.recipient,
      eq_iff m.id env.id,
      eq_iff env.id m.id,
    ),
    KeysDistinct-concat env ms (ground arith) d.1,
  )

  pub ingest-KeysDistinct :
      (s : Store V) (env : Envelope V)
      → KeysDistinct s.mailbox
      → KeysDistinct (ingest s env).0.mailbox
  ingest-KeysDistinct s env d = elim (Bool-cases (any (same_key env) s.mailbox)) [
    | inl old ↦ rw (ingest_known s env old) d
    | inr new ↦ rw (ingest_fresh s env new) (KeysDistinct-concat env s.mailbox new d)
  ]

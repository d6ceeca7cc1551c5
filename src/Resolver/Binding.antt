-- ===== src/Resolver/Binding.antt =====
-- What `bind_device` of resolver/src/store.rs does with a code and with the account's devices.
use claude_usage_tracker_win.Prelude.{
  String, ◌≡◌, refl, ◌∙◌, true, false, ◌&&◌, ◌||◌, inl, inr, some, none, List, [], ◌∷◌, ◌++◌, ◌==◌,
  eq_iff, if◌then◌else◌, any, find, update_first, Bool-cases, Option-cases, arith, get-insert,
}
use claude_usage_tracker_win.Resolver.Model.{Device, PendingCode, Store}
use claude_usage_tracker_win.Resolver.Store.{
  Chrono, expired, live, is_some, devices_of, put_device, bound_device, is_device, remove_first,
  bind_device,
}
use claude_usage_tracker_win.Resolver.Enrollment.{CodesDistinct, none_left, taken, found_later}

-- No two devices of an account have the same id.
abbrev pub DevicesDistinct : List Device → Type 0
DevicesDistinct [] = Unit
DevicesDistinct (d ∷ ds) = (any (is_device d.device_id) ds ≡ false) × DevicesDistinct ds

module _ (device_id public_key now : String) where
  abbrev rekeyed : Device → Device
  rekeyed d = record d { public_key = public_key; enrolled_at = now; last_seen = none }

  any-rekeyed :
      (j : String) (ds : List Device)
      → any (is_device j) (update_first (is_device device_id) rekeyed ds) ≡ any (is_device j) ds
  any-rekeyed j [] = refl
  any-rekeyed j (d ∷ ds) = ground (arith, any-rekeyed j ds)

  DevicesDistinct-rekeyed :
      (ds : List Device)
      → DevicesDistinct ds
      → DevicesDistinct (update_first (is_device device_id) rekeyed ds)
  DevicesDistinct-rekeyed [] h = tt
  DevicesDistinct-rekeyed (d ∷ ds) h = elim (Bool-cases (is_device device_id d)) [
    | inl e ↦ rw e h
    | inr e ↦ rw e (any-rekeyed d.device_id ds ∙ h.0, DevicesDistinct-rekeyed ds h.1)
  ]

  any-device_concat :
      (j : String) (ds : List Device) (d : Device)
      → any (is_device j) (ds ++ d ∷ []) ≡ any (is_device j) ds || is_device j d
  any-device_concat j [] d = ground arith
  any-device_concat j (e ∷ ds) d = ground (arith, any-device_concat j ds d)

  DevicesDistinct-concat :
      (ds : List Device) (d : Device)
      → any (is_device d.device_id) ds ≡ false
      → DevicesDistinct ds
      → DevicesDistinct (ds ++ d ∷ [])
  DevicesDistinct-concat [] d h k = (refl, tt)
  DevicesDistinct-concat (e ∷ ds) d h k = (
    ground (
      arith,
      any-device_concat e.device_id ds d,
      k.0,
      eq_iff e.device_id d.device_id,
      eq_iff d.device_id e.device_id,
    ),
    DevicesDistinct-concat ds d (ground arith) k.1,
  )

  -- Binding puts one device of that id under the account: an earlier one is re-keyed in place, and
  -- the ids of an account's devices stay distinct.
  pub put_device-DevicesDistinct :
      (ds : List Device)
      → DevicesDistinct ds
      → DevicesDistinct (put_device device_id public_key now ds)
  unfolding put_device
  put_device-DevicesDistinct ds h = elim (Bool-cases (any (is_device device_id) ds)) [
    | inl old ↦ rw old (DevicesDistinct-rekeyed ds h)
    | inr new ↦ rw new (DevicesDistinct-concat ds (bound_device device_id public_key now) new h)
  ]

  find-rekeyed :
      (j : String) (ds : List Device)
      → find (is_device j) (update_first (is_device device_id) rekeyed ds) ≡ (
          if j == device_id
          then elim (find (is_device j) ds) [ none ↦ none | some d ↦ some (rekeyed d) ]
          else find (is_device j) ds)
  find-rekeyed j [] = ground arith
  find-rekeyed j (d ∷ ds) = ground (
    arith,
    eq_iff d.device_id device_id,
    eq_iff d.device_id j,
    eq_iff j device_id,
    find-rekeyed j ds,
  )

  find-device_some :
      (ds : List Device)
      → any (is_device device_id) ds ≡ true
      → (d : Device) × (find (is_device device_id) ds ≡ some d) × (d.device_id ≡ device_id)
  find-device_some [] h = cc
  find-device_some (d ∷ ds) h = elim (Bool-cases (is_device device_id d)) [
    | inl e ↦ (d, rw e, (eq_iff d.device_id device_id).0 e)
    | inr e ↦ let (u, found, same) = find-device_some ds (ground arith) in (u, rw e found, same)
  ]

  find-device_none :
      (ds : List Device)
      → any (is_device device_id) ds ≡ false
      → find (is_device device_id) ds ≡ none
  find-device_none [] h = refl
  find-device_none (d ∷ ds) h = ground (arith, find-device_none ds)

  find-device_concat :
      (j : String) (ds : List Device)
      → find (is_device j) (ds ++ bound_device device_id public_key now ∷ [])
        ≡ elim (find (is_device j) ds) [
          | none ↦ if device_id == j then some (bound_device device_id public_key now) else none
          | some d ↦ some d
        ]
  find-device_concat j [] = refl
  find-device_concat j (d ∷ ds) = ground (arith, find-device_concat j ds)

  -- After `put_device` the account has the device with the new key, enrolled now and not yet seen,
  -- and every other device as it was.
  pub find-put_device :
      (j : String) (ds : List Device)
      → find (is_device j) (put_device device_id public_key now ds) ≡ (
          if j == device_id
          then some (bound_device device_id public_key now)
          else find (is_device j) ds)
  unfolding put_device
  find-put_device j ds = elim (Bool-cases (any (is_device device_id) ds)) [
    | inl old ↦
        let (d, found, same) = find-device_some ds old in
        rw old (ground (arith, find-rekeyed j ds, eq_iff j device_id, found, same))
    | inr new ↦ rw new (
        ground (
          arith,
          find-device_concat j ds,
          find-device_none ds new,
          eq_iff j device_id,
          eq_iff device_id j,
          Option-cases (find (is_device j) ds),
        ))
  ]

module _ {V : Type 0} (chrono : Chrono) (s : Store V) (h device_id public_key now : String) where
  -- `bind_device` succeeds exactly when a live code has the proof's hash, with that code's account;
  -- where it fails the store is unchanged.
  pub bind_device_accepts :
      ((bind_device chrono s h device_id public_key now).1
        ≡ elim (find (live chrono h now) s.pending_codes) [ none ↦ none | some c ↦ some c.account ])
      × (find (live chrono h now) s.pending_codes ≡ none
          → (bind_device chrono s h device_id public_key now).0 ≡ s)
  unfolding bind_device
  bind_device_accepts =
      (ground (arith, Option-cases (find (live chrono h now) s.pending_codes)), ground arith)

  bind_device_codes :
      (c : PendingCode)
      → find (live chrono h now) s.pending_codes ≡ some c
      → (bind_device chrono s h device_id public_key now).0.pending_codes ≡ (
          if is_some c.expires_at
          then remove_first (live chrono h now) s.pending_codes
          else s.pending_codes)
  unfolding bind_device
  bind_device_codes c found = rw (found, bind_device)

  bind_device_refused :
      find (live chrono h now) s.pending_codes ≡ none
      → bind_device chrono s h device_id public_key now ≡ (s, none)
  unfolding bind_device
  bind_device_refused gone = rw (gone, bind_device)

  bind_device_account :
      (c : PendingCode)
      → find (live chrono h now) s.pending_codes ≡ some c
      → (bind_device chrono s h device_id public_key now).1 ≡ some c.account
  unfolding bind_device
  bind_device_account c found = rw (found, bind_device)

  -- A binding changes the devices of its code's account only, and there the bound device only.
  pub bind_device_devices :
      (c : PendingCode) (account j : String)
      → find (live chrono h now) s.pending_codes ≡ some c
      → find
          (is_device j)
          (devices_of (bind_device chrono s h device_id public_key now).0.accounts account)
        ≡ (if c.account == account && j == device_id
            then some (bound_device device_id public_key now)
            else find (is_device j) (devices_of s.accounts account))
  unfolding bind_device
  bind_device_devices c account j found =
      rw (found, bind_device)
        (ground (
          arith,
          get-insert s.accounts c.account account
              (put_device device_id public_key now (devices_of s.accounts c.account)),
          eq_iff c.account account,
          find-put_device device_id public_key now j (devices_of s.accounts c.account),
        ))

module _ {V : Type 0} (chrono : Chrono) (s : Store V) (h device_id public_key now : String) where
  -- A code that expires is spent by its first use: with distinct hashes, a second binding by the
  -- same proof fails, whatever the device, the key and the time.
  pub bind_device_once :
      (c : PendingCode) (e other_device other_key later : String)
      → CodesDistinct s.pending_codes
      → find (live chrono h now) s.pending_codes ≡ some c
      → c.expires_at ≡ some e
      → let bound = (bind_device chrono s h device_id public_key now).0 in
        bind_device chrono bound h other_device other_key later ≡ (bound, none)
  bind_device_once c e other_device other_key later d found one_time =
      let bound = (bind_device chrono s h device_id public_key now).0 in
      let left : bound.pending_codes ≡ remove_first (live chrono h now) s.pending_codes =
        ground (arith, bind_device_codes chrono s h device_id public_key now c found) in
      bind_device_refused chrono bound h other_device other_key later (
        none_left chrono h later bound.pending_codes
          (rw left (taken chrono h now s.pending_codes c d found)))

  -- A code without expiry stays: with distinct hashes, it binds any further device to the same
  -- account at any later time.
  pub bind_device_again :
      (c : PendingCode) (other_device other_key later : String)
      → CodesDistinct s.pending_codes
      → find (live chrono h now) s.pending_codes ≡ some c
      → c.expires_at ≡ none
      → let bound = (bind_device chrono s h device_id public_key now).0 in
        (bind_device chrono bound h other_device other_key later).1 ≡ some c.account
  bind_device_again c other_device other_key later d found eternal =
      let bound = (bind_device chrono s h device_id public_key now).0 in
      let left : bound.pending_codes ≡ s.pending_codes =
        ground (arith, bind_device_codes chrono s h device_id public_key now c found) in
      bind_device_account chrono bound h other_device other_key later c (
        rw left
          (found_later chrono h now later s.pending_codes c d found (unfold expired in rw eternal)))

-- ===== src/Resolver/Enrollment.antt =====
-- The pairing codes of resolver/src/store.rs: `register_code` and `bind_device` together.
use claude_usage_tracker_win.Prelude.{
  String, ◌≡◌, refl, Bool, false, not, ◌&&◌, ◌||◌, inl, inr, Option, some, none, List, [], ◌∷◌,
  ◌++◌, ◌==◌, eq_iff, if◌then◌else◌, any, find, retain, Bool-cases, arith,
}
use claude_usage_tracker_win.Resolver.Model.{PendingCode, Store}
use claude_usage_tracker_win.Resolver.Auth.{code_hash_eq}
use claude_usage_tracker_win.Resolver.Store.{Chrono, expired, live, remove_first, register_code}

-- A code that has this hash.
abbrev pub has_hash : String → PendingCode → Bool
has_hash h c = c.code_hash == h

-- No two codes have the same hash.
abbrev pub CodesDistinct : List PendingCode → Type 0
CodesDistinct [] = Unit
CodesDistinct (c ∷ cs) = (any (has_hash c.code_hash) cs ≡ false) × CodesDistinct cs

any-retain :
    (p q : PendingCode → Bool) (cs : List PendingCode)
    → any p cs ≡ false
    → any p (retain q cs) ≡ false
any-retain p q [] h = refl
any-retain p q (c ∷ cs) h = ground (arith, any-retain p q cs)

CodesDistinct-retain :
    (q : PendingCode → Bool) (cs : List PendingCode)
    → CodesDistinct cs
    → CodesDistinct (retain q cs)
CodesDistinct-retain q [] d = tt
CodesDistinct-retain q (c ∷ cs) d = elim (Bool-cases (q c)) [
  | inl e ↦ rw e (any-retain (has_hash c.code_hash) q cs d.0, CodesDistinct-retain q cs d.1)
  | inr e ↦ rw e (CodesDistinct-retain q cs d.1)
]

pub any-concat :
    (p : PendingCode → Bool) (cs : List PendingCode) (c : PendingCode)
    → any p (cs ++ c ∷ []) ≡ any p cs || p c
any-concat p [] c = ground arith
any-concat p (b ∷ cs) c = ground (arith, any-concat p cs c)

CodesDistinct-concat :
    (cs : List PendingCode) (c : PendingCode)
    → any (has_hash c.code_hash) cs ≡ false
    → CodesDistinct cs
    → CodesDistinct (cs ++ c ∷ [])
CodesDistinct-concat [] c h d = (refl, tt)
CodesDistinct-concat (b ∷ cs) c h d = (
  ground (
    arith,
    any-concat (has_hash b.code_hash) cs c,
    d.0,
    eq_iff b.code_hash c.code_hash,
    eq_iff c.code_hash b.code_hash,
  ),
  CodesDistinct-concat cs c (ground arith) d.1,
)

module _ (chrono : Chrono) where
  pub live-hash :
      (h now : String) (c : PendingCode)
      → live chrono h now c ≡ has_hash h c && not (expired chrono c.expires_at now)
  unfolding live code_hash_eq
  live-hash h now c = refl

  pub none_left :
      (h now : String) (cs : List PendingCode)
      → any (has_hash h) cs ≡ false
      → find (live chrono h now) cs ≡ none
  none_left h now [] e = refl
  none_left h now (c ∷ cs) e = ground (arith, live-hash h now c, none_left h now cs)

  -- Where the hashes are distinct, no code of that hash is left after the live one is taken.
  pub taken :
      (h now : String) (cs : List PendingCode) (c : PendingCode)
      → CodesDistinct cs
      → find (live chrono h now) cs ≡ some c
      → any (has_hash h) (remove_first (live chrono h now) cs) ≡ false
  unfolding remove_first
  taken h now [] c d e = cc
  taken h now (b ∷ cs) c d e = elim (Bool-cases (has_hash h b)) [
    | inl same ↦ ground (arith, live-hash h now b, eq_iff b.code_hash h, d.0, none_left h now cs)
    | inr other ↦ ground (arith, live-hash h now b, taken h now cs c d.1)
  ]

  -- Where the hashes are distinct, the one code of a hash is found as long as it has not expired.
  pub found_later :
      (h now later : String) (cs : List PendingCode) (c : PendingCode)
      → CodesDistinct cs
      → find (live chrono h now) cs ≡ some c
      → expired chrono c.expires_at later ≡ false
      → find (live chrono h later) cs ≡ some c
  found_later h now later [] c d e fresh = cc
  found_later h now later (b ∷ cs) c d e fresh = elim (Bool-cases (has_hash h b)) [
    | inl same ↦ ground (
      arith,
      live-hash h now b,
      live-hash h later b,
      eq_iff b.code_hash h,
      d.0,
      none_left h now cs,
    )
    | inr other ↦
        ground (arith, live-hash h now b, live-hash h later b, found_later h now later cs c d.1)
  ]

  replaced :
      (h now : String) (cs : List PendingCode)
      → any (has_hash h) (
          retain
            (λ (c : PendingCode). not (c.code_hash == h) && not (expired chrono c.expires_at now))
            cs)
        ≡ false
  replaced h now [] = refl
  replaced h now (c ∷ cs) = ground (arith, replaced h now cs)

  module _ {V : Type 0} where
    -- Registering keeps the hashes distinct: a code registered again replaces the earlier one.
    pub register_code-CodesDistinct :
        (s : Store V) (h account : String) (expires_at : Option String) (now : String)
        → CodesDistinct s.pending_codes
        → CodesDistinct (register_code chrono s h account expires_at now).pending_codes
    unfolding register_code
    register_code-CodesDistinct s h account expires_at now d =
        let kept =
          retain
            (λ (c : PendingCode). not (c.code_hash == h) && not (expired chrono c.expires_at now))
            s.pending_codes in
        CodesDistinct-concat kept
          (record { code_hash = h; account = account; expires_at = expires_at })
          (replaced h now s.pending_codes) (CodesDistinct-retain _ s.pending_codes d)

  find-concat :
      (h later : String) (cs : List PendingCode) (c : PendingCode)
      → any (has_hash h) cs ≡ false
      → c.code_hash ≡ h
      → find (live chrono h later) (cs ++ c ∷ [])
        ≡ (if expired chrono c.expires_at later then none else some c)
  find-concat h later [] c none_here same =
      ground (arith, live-hash h later c, eq_iff c.code_hash h)
  find-concat h later (b ∷ cs) c none_here same =
      ground (arith, live-hash h later b, find-concat h later cs c)

  module _ {V : Type 0} where
    -- The code just registered is the live one of its hash until it expires, and none is live after.
    pub register_code-live :
        (s : Store V) (h account : String) (expires_at : Option String) (now later : String)
        → find (live chrono h later) (register_code chrono s h account expires_at now).pending_codes
          ≡ (if expired chrono expires_at later
              then none
              else some (record { code_hash = h; account = account; expires_at = expires_at }))
    unfolding register_code
    register_code-live s h account expires_at now later =
        let code : PendingCode = record {
          code_hash = h;
          account = account;
          expires_at = expires_at;
        } in
        find-concat h later
          (retain
            (λ (c : PendingCode). not (c.code_hash == h) && not (expired chrono c.expires_at now))
            s.pending_codes)
          code (replaced h now s.pending_codes) refl

-- ===== src/Resolver/WellFormed.antt =====
-- When a store of resolver/src/store.rs is well formed, and what its parts need to stay so.
use mathlib.Core.Path.{subst}
use claude_usage_tracker_win.Prelude.{
  String, ◌≡◌, refl, ap, sym, ◌∙◌, inl, inr, Bool, true, false, List, [], ◌∷◌, ◌==◌, any, map,
  arith, Bool-cases, Dict, get, insert,
}
use claude_usage_tracker_win.Resolver.Model.{Device, PendingCode, Store}
use claude_usage_tracker_win.Resolver.Store.{
  is_device, seen_at, map_values, devices_of, remove_first,
}
use claude_usage_tracker_win.Resolver.Delivery.{KeysDistinct}
use claude_usage_tracker_win.Resolver.Enrollment.{has_hash, CodesDistinct}
use claude_usage_tracker_win.Resolver.Binding.{DevicesDistinct}

-- Every account's devices have distinct ids.
abbrev pub AccountsDistinct : Dict (List Device) → Type 0
AccountsDistinct [] = Unit
AccountsDistinct ((email, ds) ∷ m) = DevicesDistinct ds × AccountsDistinct m

-- No message is stored twice, no hash of a code and no device of an account either.
pub record IsWellFormed {V : Type 0} (s : Store V) : Type 0 where
  pub keys : KeysDistinct s.mailbox
  pub codes : CodesDistinct s.pending_codes
  pub devices : AccountsDistinct s.accounts

any-remove_first :
    (p q : PendingCode → Bool) (cs : List PendingCode)
    → any p cs ≡ false
    → any p (remove_first q cs) ≡ false
unfolding remove_first
any-remove_first p q [] h = refl
any-remove_first p q (c ∷ cs) h = ground (arith, any-remove_first p q cs)

pub remove_first-CodesDistinct :
    (q : PendingCode → Bool) (cs : List PendingCode)
    → CodesDistinct cs
    → CodesDistinct (remove_first q cs)
unfolding remove_first
remove_first-CodesDistinct q [] d = tt
remove_first-CodesDistinct q (c ∷ cs) d = elim (Bool-cases (q c)) [
  | inl e ↦ rw e d.1
  | inr e ↦
      rw e (any-remove_first (has_hash c.code_hash) q cs d.0, remove_first-CodesDistinct q cs d.1)
]

any-seen_at :
    (device_id now j : String) (ds : List Device)
    → any (is_device j) (map (seen_at device_id now) ds) ≡ any (is_device j) ds
any-seen_at device_id now j [] = refl
any-seen_at device_id now j (d ∷ ds) = ground (arith, any-seen_at device_id now j ds)

same_id : (device_id now : String) (d : Device) → (seen_at device_id now d).device_id ≡ d.device_id
same_id device_id now d = ground arith

seen_at-DevicesDistinct :
    (device_id now : String) (ds : List Device)
    → DevicesDistinct ds
    → DevicesDistinct (map (seen_at device_id now) ds)
seen_at-DevicesDistinct device_id now [] h = tt
seen_at-DevicesDistinct device_id now (d ∷ ds) h = (
  ap (λ j. any (is_device j) (map (seen_at device_id now) ds)) (same_id device_id now d)
      ∙ any-seen_at device_id now d.device_id ds
      ∙ h.0,
  seen_at-DevicesDistinct device_id now ds h.1,
)

pub seen_at-AccountsDistinct :
    (device_id now : String) (m : Dict (List Device))
    → AccountsDistinct m
    → AccountsDistinct (map_values (map (seen_at device_id now)) m)
seen_at-AccountsDistinct device_id now [] h = tt
seen_at-AccountsDistinct device_id now ((email, ds) ∷ m) h =
    (seen_at-DevicesDistinct device_id now ds h.0, seen_at-AccountsDistinct device_id now m h.1)

pub insert-AccountsDistinct :
    (m : Dict (List Device)) (account : String) (ds : List Device)
    → AccountsDistinct m
    → DevicesDistinct ds
    → AccountsDistinct (insert m account ds)
unfolding insert
insert-AccountsDistinct [] account ds h d = (d, tt)
insert-AccountsDistinct ((email, es) ∷ m) account ds h d = elim (Bool-cases (email == account)) [
  | inl e ↦ rw e (d, h.1)
  | inr e ↦ rw e (h.0, insert-AccountsDistinct m account ds h.1 d)
]

devices_of_first :
    (email account : String) (es : List Device) (m : Dict (List Device))
    → (email == account) ≡ true
    → devices_of ((email, es) ∷ m) account ≡ es
unfolding get
devices_of_first email account es m e = ground arith

devices_of_rest :
    (email account : String) (es : List Device) (m : Dict (List Device))
    → (email == account) ≡ false
    → devices_of ((email, es) ∷ m) account ≡ devices_of m account
unfolding get
devices_of_rest email account es m e = ground arith

pub devices_of-DevicesDistinct :
    (m : Dict (List Device)) (account : String)
    → AccountsDistinct m
    → DevicesDistinct (devices_of m account)
unfolding get
devices_of-DevicesDistinct [] account h = tt
devices_of-DevicesDistinct ((email, es) ∷ m) account h = elim (Bool-cases (email == account)) [
  | inl e ↦ subst DevicesDistinct (sym (devices_of_first email account es m e)) h.0
  | inr e ↦
      subst DevicesDistinct (sym (devices_of_rest email account es m e))
        (devices_of-DevicesDistinct m account h.1)
]

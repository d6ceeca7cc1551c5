-- ===== src/Resolver/Auth.antt =====
-- resolver/src/auth.rs: the ingest token of a source and the signature of a device. Base64, SHA-256
-- and Ed25519 are other crates': they enter as `Crypto`.
use claude_usage_tracker_win.Prelude.{
  ℕ, String, ◌≡◌, Bool, true, false, ◌||◌, List, [], ◌∷◌, ◌==◌, eqb, if◌then◌else◌, length,
  contains, arith, Result, ok, err, Result-cases, Bool-cases, inl, inr,
}

-- `decode` is `B64.decode`, `key_of_bytes` is `VerifyingKey::from_bytes`, `verifies` is
-- `VerifyingKey::verify` on a challenge and the 64 bytes of a signature, `sha256_hex` is the digest
-- of a text in lower-case hexadecimal. An error is kept as its text.
pub record Crypto (Key : Type 0) : Type 0 where
  pub decode : String → Result String (List ℕ)
  pub key_of_bytes : List ℕ → Result String Key
  pub verifies : Key → String → List ℕ → Result String (Unit {0})
  pub sha256_hex : String → String

-- The loop has no early exit; `ct_eq` of two texts is their equality.
unfoldable pub ingest_token_from : Bool → List String → String → Bool
ingest_token_from ok' [] presented = ok'
ingest_token_from ok' (token ∷ valid) presented =
    ingest_token_from (ok' || token == presented) valid presented

unfoldable pub ingest_token_ok : List String → String → Bool
unfolding ingest_token_from
ingest_token_ok valid presented = ingest_token_from false valid presented

-- `code_hash_eq`
unfoldable pub code_hash_eq : String → String → Bool
code_hash_eq a b = a == b

-- `map_err(|_| …)?` and `?`: a step that fails ends the whole with its error.
abbrev pub and_then {ℓ κ} :
    {A : Type ℓ} {B : Type κ} → Result String A → (A → Result String B) → Result String B
and_then (ok a) f = f a
and_then (err e) f = err e

-- `as_slice().try_into()` to an array of `n` bytes
abbrev pub sized : ℕ → String → List ℕ → Result String (List ℕ)
sized n message bytes = if eqb (length bytes) n then ok bytes else err message

module _ {Key : Type 0} (c : Crypto Key) where
  unfoldable pub verify_b64 : String → String → String → Result String (Unit {0})
  verify_b64 public_key_b64 challenge signature_b64 = and_then (c.decode public_key_b64) λ pk.
      and_then (sized 32 "public key must be 32 bytes" pk) λ pk. and_then (c.key_of_bytes pk) λ vk.
        and_then (c.decode signature_b64) λ sig.
          and_then (sized 64 "signature must be 64 bytes" sig) λ sig. c.verifies vk challenge sig

  unfoldable pub hash_code : String → String
  hash_code code = c.sha256_hex code

  unfoldable pub valid_public_key_b64 : String → Bool
  valid_public_key_b64 pk_b64 = elim (c.decode pk_b64) [
    | err e ↦ false
    | ok bytes ↦
        if eqb (length bytes) 32
        then elim (c.key_of_bytes bytes) [ ok vk ↦ true | err e ↦ false ]
        else false
  ]

  -- A key that binding accepts never fails a poll for its own sake: only the signature can.
  pub valid_public_key_b64-verify_b64 :
      (pk challenge signature : String)
      → valid_public_key_b64 pk ≡ true
      → (bytes : List ℕ) × (key : Key) × (c.decode pk ≡ ok bytes)
        × (c.key_of_bytes bytes ≡ ok key)
        × (verify_b64 pk challenge signature
            ≡ and_then (c.decode signature) λ sig.
              and_then
                (sized 64 "signature must be 64 bytes" sig)
                λ sig. c.verifies key challenge sig)
  unfolding valid_public_key_b64 verify_b64
  valid_public_key_b64-verify_b64 pk challenge signature h = elim (Result-cases (c.decode pk)) [
    | inr (e, bad) ↦ ground arith
    | inl (bytes, decoded) ↦ elim (Bool-cases (eqb (length bytes) 32)) [
      | inr short ↦ ground arith
      | inl full ↦ elim (Result-cases (c.key_of_bytes bytes)) [
        | inr (e, bad) ↦ ground arith
        | inl (key, point) ↦ (bytes, key, decoded, point, rw (decoded, full, point))
      ]
    ]
  ]

ingest_token_from-contains :
    (before : Bool) (valid : List String) (presented : String)
    → ingest_token_from before valid presented ≡ before || contains presented valid
unfolding ingest_token_from
ingest_token_from-contains before [] presented = ground arith
ingest_token_from-contains before (token ∷ valid) presented =
    ground (arith, ingest_token_from-contains (before || token == presented) valid presented)

-- A token is accepted exactly when it is one of the source's valid tokens.
pub ingest_token_ok-contains :
    (valid : List String) (presented : String)
    → ingest_token_ok valid presented ≡ contains presented valid
unfolding ingest_token_ok
ingest_token_ok-contains valid presented = ingest_token_from-contains false valid presented

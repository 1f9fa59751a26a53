-- ===== src/Audit/Linked.antt =====
-- crates/mim-audit/src/log.rs and chain.rs: what links the envelopes of a chain, and that a new
-- envelope keeps the links.
use ainext_gen_c.Base.{
  ◌≡◌, refl, inl, inr, Option, none, some, List, [], ◌∷◌, ◌++◌, Text, text_eq_refl, ok,
  Result-cases, arith, >>=-eq-ok, as_bytes,
}
use ainext_gen_c.Crypto.Provider.{
  IsSound, SigningKey, VerifyingKey, from_spki_der, sign_nmb_binding, nmbs_algorithm,
}
use ainext_gen_c.Crypto.Binding.{verify-sign_nmb_binding}
use ainext_gen_c.Audit.Record.{AuditRecord}
use ainext_gen_c.Audit.Chain.{
  ChainBackend, AuditEnvelope, hash_record, seal, sign, verify_envelope, verify_signature,
  audit_label,
}
use ainext_gen_c.Audit.Log.{
  ChainState, genesis, new_chain, with_signing_key, derived_key, make_envelope, push_envelope,
  verify_from, verify_chain,
}

-- the hash of the last envelope, or the one before the first
abbrev pub last_hash : Text → List AuditEnvelope → Text
last_hash p [] = p
last_hash p (e ∷ rest) = last_hash e.record_hash rest

module _ (k : ChainBackend) where
  -- the check that `verify_chain` makes with the log's verifying key
  abbrev pub SignatureChecks : Option VerifyingKey → AuditEnvelope → Type 0
  SignatureChecks none e = Unit {0}
  SignatureChecks (some key) e = verify_signature k e key ≡ ok tt

  verify_from-append :
      (v : Option VerifyingKey) (p : Text) (es : List AuditEnvelope) (e : AuditEnvelope)
      → verify_from k v p es ≡ ok tt
      → verify_envelope k e (last_hash p es) ≡ ok tt
      → SignatureChecks v e
      → verify_from k v p (es ++ e ∷ []) ≡ ok tt
  unfolding verify_from
  verify_from-append none p [] e h c s = ground (arith, c)
  verify_from-append (some key) p [] e h c s = ground (arith, c, s)
  verify_from-append none p (a ∷ es) e h c s =
      ground (arith, verify_from-append none a.record_hash es e)
  verify_from-append (some key) p (a ∷ es) e h c s =
      ground (arith, verify_from-append (some key) a.record_hash es e)

  last_hash-append :
      (p : Text) (es : List AuditEnvelope) (e : AuditEnvelope)
      → last_hash p (es ++ e ∷ []) ≡ e.record_hash
  last_hash-append p [] e = refl
  last_hash-append p (a ∷ es) e = last_hash-append a.record_hash es e

  seal-verifies : (r : AuditRecord) (p : Text) → verify_envelope k (seal k r p) p ≡ ok tt
  unfolding verify_envelope seal
  seal-verifies r p = ground (arith, text_eq_refl p, text_eq_refl (hash_record k r p))

  -- The verifying key of a log belongs to its signing key.
  abbrev pub KeyOf : ChainState → Option VerifyingKey → Type 0
  KeyOf c none = Unit {0}
  KeyOf c (some vk) =
      (sk : SigningKey) × (c.signing_key ≡ some sk)
      × (vk.key_id ≡ sk.key_id)
      × (k.provider.public_key_from_private sk.der ≡ ok vk.der)

  -- Every envelope names the hash before it and its own, is signed if the log can tell, and the
  -- log remembers the last hash.
  pub record IsLinked (c : ChainState) : Type 0 where
    pub verified : verify_chain k c ≡ ok tt
    pub last : last_hash genesis c.envelopes ≡ c.previous_hash
    pub keys : KeyOf c c.verifying_key

  new_chain-IsLinked : IsLinked new_chain
  unfolding new_chain verify_chain verify_from
  new_chain-IsLinked = record { verified = refl; last = refl; keys = tt }

  derived_key-KeyOf :
      (key : SigningKey) → KeyOf (with_signing_key k new_chain key) (derived_key k key none)
  unfolding with_signing_key derived_key from_spki_der
  derived_key-KeyOf key = elim (Result-cases (k.provider.public_key_from_private key.der)) [
    | inl (public, got) ↦ elim (Result-cases (k.provider.validate_verifying_key public)) [
      | inl (done, valid) ↦ rw (got, valid, derived_key) (key, refl, refl, got)
      | inr (e, refused) ↦ rw (got, refused, derived_key) tt
    ]
    | inr (e, refused) ↦ rw (refused, derived_key) tt
  ]

  signed_chain-IsLinked : (key : SigningKey) → IsLinked (with_signing_key k new_chain key)
  unfolding new_chain verify_chain verify_from with_signing_key from_spki_der
  signed_chain-IsLinked key = record { verified = refl; last = refl; keys = derived_key-KeyOf key }

  sign_lem :
      (s e : AuditEnvelope) (key : SigningKey)
      → sign k s key ≡ ok e
      → (sig : Text) × (sign_nmb_binding k.provider key (as_bytes audit_label) s.record_hash
          ≡ ok sig)
        × (e ≡ record s {
          signature =
              some (record { algorithm = nmbs_algorithm; key_id = key.key_id; signature = sig });
        })
  unfolding sign
  sign_lem s e key h =
      let (sig, signed, made) =
        >>=-eq-ok (sign_nmb_binding k.provider key (as_bytes audit_label) s.record_hash) _ h in
      (sig, signed, ground arith)

  signed-verifies :
      (s e : AuditEnvelope) (key : SigningKey) (p : Text)
      → verify_envelope k s p ≡ ok tt
      → sign k s key ≡ ok e
      → (e.record' ≡ s.record')
        × (e.previous_hash ≡ s.previous_hash)
        × (verify_envelope k e p ≡ ok tt)
  unfolding verify_envelope
  signed-verifies s e key p v h =
      let (sig, signed, made) = sign_lem s e key h in rw made (refl, refl, v)

  sealed_or_signed :
      (key : Option SigningKey) (c : ChainState) (r : AuditRecord) (e : AuditEnvelope)
      → c.signing_key ≡ key
      → make_envelope k c r ≡ ok e
      → (e.record' ≡ r)
        × (e.previous_hash ≡ c.previous_hash)
        × (verify_envelope k e c.previous_hash ≡ ok tt)
  unfolding make_envelope seal
  sealed_or_signed none c r e without h =
      let made : seal k r c.previous_hash ≡ e = ground arith in
      rw (← made) (refl, refl, seal-verifies r c.previous_hash)
  sealed_or_signed (some key) c r e with_key h =
      signed-verifies (seal k r c.previous_hash) e key c.previous_hash
        (seal-verifies r c.previous_hash) (ground arith)

  pub make_envelope_lem :
      (c : ChainState) (r : AuditRecord) (e : AuditEnvelope)
      → make_envelope k c r ≡ ok e
      → (e.record' ≡ r)
        × (e.previous_hash ≡ c.previous_hash)
        × (verify_envelope k e c.previous_hash ≡ ok tt)
  make_envelope_lem c r e h = sealed_or_signed c.signing_key c r e refl h

  signature-verifies :
      (c : ChainState) (r : AuditRecord) (e : AuditEnvelope) (vk : VerifyingKey)
      → IsSound k.provider
      → KeyOf c (some vk)
      → make_envelope k c r ≡ ok e
      → verify_signature k e vk ≡ ok tt
  unfolding make_envelope verify_signature seal
  signature-verifies c r e vk sound (sk, has, same, public) h =
      let (sig, signed, made) = sign_lem (seal k r c.previous_hash) e sk (ground arith) in
      let verified =
        verify-sign_nmb_binding k.provider sk vk (as_bytes audit_label)
          (hash_record k r c.previous_hash) sig sound same public signed in
      rw made (ground (arith, verified, same, text_eq_refl sk.key_id))

  make_envelope-SignatureChecks :
      (c : ChainState) (r : AuditRecord) (e : AuditEnvelope)
      → IsSound k.provider
      → KeyOf c c.verifying_key
      → make_envelope k c r ≡ ok e
      → SignatureChecks c.verifying_key e
  make_envelope-SignatureChecks c r e sound keys h = checks c.verifying_key keys
    where
      checks : (v : Option VerifyingKey) → KeyOf c v → SignatureChecks v e
      checks none owned = tt
      checks (some vk) owned = signature-verifies c r e vk sound owned h

  pub push_envelope-IsLinked :
      (c : ChainState) (r : AuditRecord) (e : AuditEnvelope)
      → IsSound k.provider
      → IsLinked c
      → make_envelope k c r ≡ ok e
      → IsLinked (push_envelope k c e)
  unfolding push_envelope verify_chain
  push_envelope-IsLinked c r e sound l h = record {
    verified =
        verify_from-append c.verifying_key genesis c.envelopes e l.verified
          (rw l.last ((make_envelope_lem c r e h).2))
          (make_envelope-SignatureChecks c r e sound l.keys h);
    last = last_hash-append genesis c.envelopes e;
    keys = l.keys;
  }

  -- The chain of a new log, without a key or with one.
  abbrev pub opened : Option SigningKey → ChainState
  opened none = new_chain
  opened (some key) = with_signing_key k new_chain key

  pub opened-IsLinked : (key : Option SigningKey) → IsLinked (opened key)
  opened-IsLinked none = new_chain-IsLinked
  opened-IsLinked (some key) = signed_chain-IsLinked key

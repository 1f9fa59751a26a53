-- ===== src/Transport/Enveloped.antt =====
-- crates/mim-transport/src/envelope.rs, and the puts of envelopes in secured.rs. The deserialiser of
-- the wire format that the payload shows is a parameter.
use ainext_gen_c.Base.{
  ℕ, ◌≡◌, refl, sym, ap, ◌∙◌, inl, inr, some, Text, as_bytes, ok, err, ◌>>=◌, >>=-eq-ok, map_err,
  map_err-eq-ok, Result-cases, Option-cases, arith,
}
use ainext_gen_c.Label.Error.{LabelError, label_error_text}
use ainext_gen_c.Crypto.Provider.{VerifyingKey}
use ainext_gen_c.Audit.Record.{Stamp}
use ainext_gen_c.Audit.Chain.{ChainBackend}
use ainext_gen_c.Audit.Log.{AuditSink}
use ainext_gen_c.Policy.Context.{SubjectAttributes, write}
use ainext_gen_c.Policy.Store.{domain}
use ainext_gen_c.Runtime.Instance.{Json, MimInstance}
use ainext_gen_c.Stanag.Binding.{BindingBackend}
use ainext_gen_c.Stanag.Assertion.{AssertionBinding, verify_assertion}
use ainext_gen_c.Stanag.Profiles.{RestEnvelope, verify_rest_envelope}
use ainext_gen_c.Transport.Message.{TransportResult, forbidden, PutObjectResponse}
use ainext_gen_c.Transport.Broker.{Validators, put_object}
use ainext_gen_c.Transport.Secured.{SecuredExchangeBroker, put_object_as}
use ainext_gen_c.Transport.Gated.{Accessed, put_object_as-Accessed}

verify_rest_envelope-verified :
    (b : BindingBackend) (e : RestEnvelope) (key : VerifyingKey)
    → verify_rest_envelope b e key ≡ ok tt
    → (a : AssertionBinding) × (e.assertion ≡ some a)
      × (verify_assertion b a (as_bytes e.payload) key ≡ ok tt)
unfolding verify_rest_envelope
verify_rest_envelope-verified b e key h = elim (Option-cases e.assertion) [
  | inl missing ↦ absurd (ground (arith, h, missing))
  | inr (a, found) ↦ (a, found, ground (arith, h, found))
]

module _ (json : Json) (b : BindingBackend)
    (deserialize : Text → TransportResult (MimInstance json)) where
  -- `unwrap_put_object`
  unfoldable pub unwrap_put_object :
      RestEnvelope → VerifyingKey → TransportResult (MimInstance json)
  unwrap_put_object e key =
      map_err (λ (f : LabelError). forbidden (label_error_text f)) (verify_rest_envelope b e key)
      >>= λ done. deserialize e.payload

  -- An envelope that is unwrapped carries an assertion that verifies over its payload, and the
  -- instance is the one that the payload encodes.
  pub unwrap_put_object-verified :
      (e : RestEnvelope) (key : VerifyingKey) (i : MimInstance json)
      → unwrap_put_object e key ≡ ok i
      → (a : AssertionBinding) × (e.assertion ≡ some a)
        × (verify_assertion b a (as_bytes e.payload) key ≡ ok tt)
        × (deserialize e.payload ≡ ok i)
  unfolding unwrap_put_object verify_rest_envelope
  unwrap_put_object-verified e key i h =
      let (d, verified, decoded) =
        >>=-eq-ok (map_err (λ (f : LabelError). forbidden (label_error_text f)) _) _ h in
      let (a, found, holds) =
        verify_rest_envelope-verified b e key
          (map_err-eq-ok _ (verify_rest_envelope b e key) d verified) in
      (a, found, holds, decoded)

  module _ (c : ChainBackend) (sink : AuditSink) (upper : ℕ → Text) where
    -- `SecuredExchangeBroker::put_object_enveloped_as`
    unfoldable pub put_object_enveloped_as :
        Validators json
        → SecuredExchangeBroker json sink
        → Stamp
        → SubjectAttributes
        → RestEnvelope
        → VerifyingKey
        → SecuredExchangeBroker json sink × TransportResult PutObjectResponse
    unfolding unwrap_put_object
    put_object_enveloped_as v s stamp subject e key = elim (unwrap_put_object e key) [
      | err f ↦ (s, err f)
      | ok i ↦ put_object_as json c sink upper v s stamp subject i
    ]

    -- A put of an envelope that returns: the envelope carries an assertion that verifies over its
    -- payload, the subject may write the instance that the payload encodes under the label of the
    -- instance, and the broker changed as by a put of it. This is for a domain that is registered
    -- as it stands.
    pub put_object_enveloped_as-Accessed :
        (v : Validators json) (s : SecuredExchangeBroker json sink) (stamp : Stamp)
        (subject : SubjectAttributes) (e : RestEnvelope) (key : VerifyingKey)
        (r : PutObjectResponse)
        → domain s.pep.store s.domain.id ≡ some s.domain
        → (put_object_enveloped_as v s stamp subject e key).1 ≡ ok r
        → (a : AssertionBinding) × (i : MimInstance json) × (e.assertion ≡ some a)
          × (verify_assertion b a (as_bytes e.payload) key ≡ ok tt)
          × (deserialize e.payload ≡ ok i)
          × Accessed json c sink upper s subject i write
          × (put_object json v s.inner i
              ≡ ok ((put_object_enveloped_as v s stamp subject e key).0.inner, r))
    unfolding put_object_enveloped_as
    put_object_enveloped_as-Accessed v s stamp subject e key r known h =
        elim (Result-cases (unwrap_put_object e key)) [
          | inr (f, failed) ↦ absurd (ground (arith, h, failed))
          | inl (i, opened) ↦
              let (a, found, verified, decoded) = unwrap_put_object-verified e key i opened in
              let step : put_object_enveloped_as v s stamp subject e key
                  ≡ put_object_as json c sink upper v s stamp subject i =
                rw (put_object_enveloped_as, opened) refl in
              let (accessed, changed) =
                put_object_as-Accessed json c sink upper s stamp subject known v i r
                  (sym (ap (λ q. q.1) step) ∙ h) in
              (a, i, found, verified, decoded, accessed, rw step changed)
        ]

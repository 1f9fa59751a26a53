-- ===== src/Transport/Gated.antt =====
-- crates/mim-transport/src/secured.rs: what passes the gate of the enforcement point.
use ainext_gen_c.Base.{
  map_err-eq-ok, ℕ, ◌≡◌, ◌≢◌, refl, sym, subst, ap, ◌∙◌, inl, inr, Text, some, ok, err, ◌>>=◌,
  >>=-eq-ok, ok_injective, arith, Result-cases,
}
use ainext_gen_c.Label.Confidentiality.{ConfidentialityLabel}
use ainext_gen_c.Audit.Record.{Stamp}
use ainext_gen_c.Audit.Chain.{ChainBackend}
use ainext_gen_c.Audit.Log.{AuditSink}
use ainext_gen_c.Policy.Context.{
  AccessOperation, read, write, delete, cross_domain_transfer, SubjectAttributes, PolicyContext,
}
use ainext_gen_c.Policy.Store.{domain}
use ainext_gen_c.Policy.Pip.{access_context}
use ainext_gen_c.Policy.Pdp.{PolicyDecision}
use ainext_gen_c.Policy.Pep.{enforce_access}
use ainext_gen_c.Policy.Access.{AccessAllowed}
use ainext_gen_c.Policy.Enforcement.{enforce_access-AccessAllowed}
use ainext_gen_c.Runtime.Instance.{Json, ObjectIdentifier, MimInstance}
use ainext_gen_c.Transport.Message.{TransportResult, PutObjectResponse, DeleteObjectResponse}
use ainext_gen_c.Transport.Broker.{
  Validators, ExchangeBroker, get_by_oid, put_object, delete_object,
}
use ainext_gen_c.Transport.Secured.{
  map_policy_error, SecuredExchangeBroker, instance_label, enforce_label, enforce_instance,
  get_by_oid_as, change_inner, delete_object_as, put_object_as,
}

module _ (json : Json) (k : ChainBackend) (sink : AuditSink) (upper : ℕ → Text) where
  -- the subject may do the operation on an object under the label of the instance
  pub record Accessed (s : SecuredExchangeBroker json sink) (subject : SubjectAttributes)
      (i : MimInstance json) (operation : AccessOperation) : Type 0 where
    pub label : ConfidentialityLabel
    pub labelled : instance_label json k sink upper i ≡ ok label
    pub context : PolicyContext
    pub built : access_context subject label operation s.domain ≡ ok context
    pub allowed : AccessAllowed context s.domain

  module _ (s : SecuredExchangeBroker json sink) (stamp : Stamp) (subject : SubjectAttributes)
      (known : domain s.pep.store s.domain.id ≡ some s.domain) where
    pub enforce_instance-Accessed :
        (i : MimInstance json) (operation : AccessOperation) (x : PolicyDecision)
        → operation ≢ cross_domain_transfer
        → (enforce_instance json k sink upper s stamp subject i operation).1 ≡ ok x
        → Accessed s subject i operation
    unfolding enforce_instance enforce_label
    enforce_instance-Accessed i operation x local h =
        elim (Result-cases (instance_label json k sink upper i)) [
          | inr (e, failed) ↦ absurd (ground (arith, h, failed))
          | inl (l, labelled) ↦
              let decided = (enforce_access k sink s.pep stamp subject l operation s.domain).1 in
              let returned =
                map_err-eq-ok map_policy_error decided x (ground (arith, h, labelled)) in
              let (c, built, allowed, label) =
                enforce_access-AccessAllowed k sink s.pep stamp subject l operation s.domain x local
                  known returned in
              record {
                label = l;
                labelled = labelled;
                context = c;
                built = built;
                allowed = allowed;
              }
        ]

  enforce_instance-inner :
      (s : SecuredExchangeBroker json sink) (stamp : Stamp) (subject : SubjectAttributes)
      (i : MimInstance json) (operation : AccessOperation)
      → (enforce_instance json k sink upper s stamp subject i operation).0.inner ≡ s.inner
  unfolding enforce_instance enforce_label
  enforce_instance-inner s stamp subject i operation =
      elim (Result-cases (instance_label json k sink upper i)) [
        | inr (e, failed) ↦ rw (enforce_instance, failed) refl
        | inl (l, labelled) ↦ rw (enforce_instance, labelled) refl
      ]

  -- What a change behind the gate did.
  change_inner-cases {ℓ} :
      {A : Type ℓ} (s : SecuredExchangeBroker json sink) (decided : TransportResult PolicyDecision)
      (changed : TransportResult (ExchangeBroker json × A)) (r : A)
      → (change_inner json k sink upper s decided changed).1 ≡ ok r
      → (x : PolicyDecision) × (decided ≡ ok x)
        × (changed ≡ ok ((change_inner json k sink upper s decided changed).0.inner, r))
  unfolding change_inner
  change_inner-cases s (err e) changed r h = absurd (ground (arith, h))
  change_inner-cases s (ok x) (err e) r h = absurd (ground (arith, h))
  change_inner-cases s (ok x) (ok (b, response)) r h =
      (x, refl, ap (λ q. ok (b, q)) (ok_injective response r _ refl h))

  module _ (s : SecuredExchangeBroker json sink) (stamp : Stamp) (subject : SubjectAttributes)
      (known : domain s.pep.store s.domain.id ≡ some s.domain) where
    -- An instance that a read returns is active in the broker, and the subject may read it in the
    -- broker's domain under the label of its security metadata, for a domain that is registered
    -- as it stands.
    pub get_by_oid_as-Accessed :
        (oid : ObjectIdentifier) (i : MimInstance json)
        → (get_by_oid_as json k sink upper s stamp subject oid).1 ≡ ok i
        → (get_by_oid json s.inner oid ≡ ok i) × Accessed s subject i read
    unfolding get_by_oid_as
    get_by_oid_as-Accessed oid i h = elim (Result-cases (get_by_oid json s.inner oid)) [
      | inr (e, failed) ↦ absurd (ground (arith, h, failed))
      | inl (j, found) ↦
          let run : ((enforce_instance json k sink upper s stamp subject j read).1 >>= λ decision.
          ok j)
              ≡ ok i =
            ground (arith, h, found) in
          let (x, decided, returned) =
            >>=-eq-ok (enforce_instance json k sink upper s stamp subject j read).1 _ run in
          let same = ok_injective j i _ refl returned in
          (
            found ∙ ap ok same,
            subst (λ m. Accessed s subject m read) same
                (enforce_instance-Accessed s stamp subject known j read x (λ e. cc) decided),
          )
    ]

    -- A put that returns was allowed to the subject under the label of the instance, and changed
    -- the broker as a put does, for a domain that is registered as it stands.
    pub put_object_as-Accessed :
        (v : Validators json) (i : MimInstance json) (r : PutObjectResponse)
        → (put_object_as json k sink upper v s stamp subject i).1 ≡ ok r
        → Accessed s subject i write
          × (put_object json v s.inner i
              ≡ ok ((put_object_as json k sink upper v s stamp subject i).0.inner, r))
    unfolding put_object_as
    put_object_as-Accessed v i r h =
        let (x, decided, changed) = change_inner-cases _ _ (put_object json v s.inner i) r h in
        (enforce_instance-Accessed s stamp subject known i write x (λ e. cc) decided, changed)

    -- A deletion that returns was of an active object, was allowed to the subject under the label
    -- of that object, and changed the broker as a deletion does, for a domain that is registered
    -- as it stands.
    pub delete_object_as-Accessed :
        (oid : ObjectIdentifier) (r : DeleteObjectResponse)
        → (delete_object_as json k sink upper s stamp subject oid).1 ≡ ok r
        → (i : MimInstance json) × (get_by_oid json s.inner oid ≡ ok i)
          × Accessed s subject i delete
          × (delete_object json s.inner oid
              ≡ ok ((delete_object_as json k sink upper s stamp subject oid).0.inner, r))
    unfolding delete_object_as
    delete_object_as-Accessed oid r h = elim (Result-cases (get_by_oid json s.inner oid)) [
      | inr (e, failed) ↦ absurd (ground (arith, h, failed))
      | inl (i, found) ↦
          let gate = enforce_instance json k sink upper s stamp subject i delete in
          let same : delete_object_as json k sink upper s stamp subject oid
              ≡ change_inner json k sink upper gate.0 gate.1 (delete_object json s.inner oid) =
            rw (delete_object_as, found) refl in
          let (x, decided, changed) =
            change_inner-cases gate.0 gate.1 (delete_object json s.inner oid) r
              (sym (ap (λ o. o.1) same) ∙ h) in
          (
            i,
            found,
            enforce_instance-Accessed s stamp subject known i delete x (λ e. cc) decided,
            changed ∙ ap (λ o. ok (o.0.inner, r)) (sym same),
          )
    ]

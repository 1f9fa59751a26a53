-- ===== src/Transport/GatedQuery.antt =====
-- crates/mim-transport/src/secured.rs: what the secured queries let through.
use ainext_gen_c.Base.{
  ℕ, ◌≡◌, refl, sym, ap, subst, ◌∙◌, inl, inr, Bool, true, false, List, [], ◌∷◌, some, Text, All,
  All-map, length, ok, err, ◌>>=◌, is_ok, >>=-eq-ok, ok_injective, Result-cases, Option-cases,
  arith, if◌then◌else◌,
}
use ainext_gen_c.Label.Confidentiality.{ConfidentialityLabel}
use ainext_gen_c.Audit.Record.{Stamp, AuditRecord}
use ainext_gen_c.Audit.Chain.{ChainBackend}
use ainext_gen_c.Audit.Log.{AuditSink}
use ainext_gen_c.Policy.Context.{AccessOperation, read, SubjectAttributes}
use ainext_gen_c.Policy.Error.{PolicyResult}
use ainext_gen_c.Policy.Pip.{access_context}
use ainext_gen_c.Policy.Access.{AccessAllowed}
use ainext_gen_c.Policy.Store.{domain}
use ainext_gen_c.Policy.Pdp.{PolicyDecision}
use ainext_gen_c.Policy.Pep.{
  PolicyEnforcementPoint, record_audit, recorded, pep_evaluate_access, enforce_access,
}
use ainext_gen_c.Runtime.Instance.{Json, MimInstance}
use ainext_gen_c.Transport.Query.{GetByFilterRequest, GetByFilterResponse, get_by_filter}
use ainext_gen_c.Transport.Secured.{
  SecuredExchangeBroker, instance_label, enforce_label, enforce_instance,
}
use ainext_gen_c.Transport.SecuredQuery.{later_stamps, permitted_from, get_by_filter_as}
use ainext_gen_c.Transport.Gated.{Accessed, enforce_instance-Accessed}

pub All-if :
    {A : Type 0} (P : A → Type 0) (test : Bool) (x : A) (xs found : List A)
    → (if test then x ∷ xs else xs) ≡ found
    → (test ≡ true → P x)
    → All P xs
    → All P found
All-if P true x xs found same here later = subst (All P) same (here refl, later)
All-if P false x xs found same here later = subst (All P) same later

module _ (k : ChainBackend) (sink : AuditSink) where
  record_audit-store :
      (pep : PolicyEnforcementPoint sink) (r : AuditRecord)
      → (record_audit k sink pep r).store ≡ pep.store
  unfolding record_audit
  record_audit-store pep r = elim (Option-cases pep.audit) [
    | inl quiet ↦ rw (record_audit, quiet) refl
    | inr (log, kept) ↦ rw (record_audit, kept) refl
  ]

  recorded-store :
      (pep : PolicyEnforcementPoint sink) (make : PolicyDecision → AuditRecord)
      (decided : PolicyResult PolicyDecision)
      → (recorded k sink pep make decided).0.store ≡ pep.store
  unfolding recorded
  recorded-store pep make (err e) = refl
  recorded-store pep make (ok x) = record_audit-store pep (make x)

module _ (json : Json) (k : ChainBackend) (sink : AuditSink) (upper : ℕ → Text) where
  -- The broker, the domain and the policies are those of before; only the audit log may have grown.
  abbrev pub IsSameGate : SecuredExchangeBroker json sink → SecuredExchangeBroker json sink → Type 0
  IsSameGate s t =
      (t.inner ≡ s.inner)
      × (t.domain ≡ s.domain)
      × (t.pep.store ≡ s.pep.store)
      × (t.subject ≡ s.subject)

  pub enforce_label-IsSameGate :
      (s : SecuredExchangeBroker json sink) (stamp : Stamp) (subject : SubjectAttributes)
      (l : ConfidentialityLabel) (operation : AccessOperation)
      → IsSameGate s (enforce_label json k sink upper s stamp subject l operation).0
  unfolding enforce_label enforce_access pep_evaluate_access recorded record_audit
  enforce_label-IsSameGate s stamp subject l operation =
      (refl, refl, recorded-store k sink s.pep _ _, refl)

  pub IsSameGate-trans :
      (s t u : SecuredExchangeBroker json sink) → IsSameGate s t → IsSameGate t u → IsSameGate s u
  IsSameGate-trans s t u h i = (i.0 ∙ h.0, i.1 ∙ h.1, i.2 ∙ h.2, i.3 ∙ h.3)

  -- what the subject may access behind one gate it may access behind the same gate
  pub Accessed-IsSameGate :
      (s t : SecuredExchangeBroker json sink) (subject : SubjectAttributes) (i : MimInstance json)
      (operation : AccessOperation)
      → IsSameGate s t
      → Accessed json k sink upper t subject i operation
      → Accessed json k sink upper s subject i operation
  Accessed-IsSameGate s t subject i operation same a = record {
    label = a.label;
    labelled = a.labelled;
    context = a.context;
    built = subst (λ d. access_context subject a.label operation d ≡ ok a.context) same.1 a.built;
    allowed = subst (AccessAllowed a.context) same.1 a.allowed;
  }

  pub same_domain :
      (s t : SecuredExchangeBroker json sink)
      → IsSameGate s t
      → domain s.pep.store s.domain.id ≡ some s.domain
      → domain t.pep.store t.domain.id ≡ some t.domain
  same_domain s t same known = rw (same.1, same.2) known

  enforce_label-Accessed :
      (s : SecuredExchangeBroker json sink) (stamp : Stamp) (subject : SubjectAttributes)
      (i : MimInstance json) (l : ConfidentialityLabel)
      → domain s.pep.store s.domain.id ≡ some s.domain
      → instance_label json k sink upper i ≡ ok l
      → is_ok (enforce_label json k sink upper s stamp subject l read).1 ≡ true
      → Accessed json k sink upper s subject i read
  unfolding enforce_instance
  enforce_label-Accessed s stamp subject i l known labelled allowed =
      elim (Result-cases (enforce_label json k sink upper s stamp subject l read).1) [
        | inr (e, refused) ↦ absurd (ground (arith, allowed, refused))
        | inl (x, decided) ↦
            enforce_instance-Accessed json k sink upper s stamp subject known i read x (λ e. cc)
              (rw (enforce_instance, labelled) decided)
      ]

  permitted_from-Accessed :
      (stamps : ℕ → Stamp) (s : SecuredExchangeBroker json sink) (subject : SubjectAttributes)
      (is found : List (MimInstance json))
      → domain s.pep.store s.domain.id ≡ some s.domain
      → (permitted_from json k sink upper stamps s subject is).1 ≡ ok found
      → All (λ i. Accessed json k sink upper s subject i read) found
  unfolding permitted_from
  permitted_from-Accessed stamps s subject [] found known h =
      subst (All (λ i. Accessed json k sink upper s subject i read))
        (ok_injective [] found _ refl h) tt
  permitted_from-Accessed stamps s subject (i ∷ is) found known h =
      elim (Result-cases (instance_label json k sink upper i)) [
        | inr (e, failed) ↦ absurd (ground (arith, h, failed))
        | inl (l, labelled) ↦
            let gate = enforce_label json k sink upper s (stamps 0) subject l read in
            let after = permitted_from json k sink upper (later_stamps stamps) gate.0 subject is in
            let same = enforce_label-IsSameGate s (stamps 0) subject l read in
            let step : permitted_from json k sink upper stamps s subject (i ∷ is) ≡ (
              after.0,
              after.1 >>= λ others. ok (if is_ok gate.1 then i ∷ others else others),
            ) =
              rw (permitted_from, labelled) refl in
            let (others, ended, listed) =
              >>=-eq-ok after.1 (λ others. ok (if is_ok gate.1 then i ∷ others else others))
                (sym (ap (λ o. o.1) step) ∙ h) in
            let later =
              All-map _ (λ j. Accessed json k sink upper s subject j read) others
                (λ j. Accessed-IsSameGate s gate.0 subject j read same)
                (permitted_from-Accessed (later_stamps stamps) gate.0 subject is others
                  (same_domain s gate.0 same known) ended) in
            All-if (λ j. Accessed json k sink upper s subject j read) (is_ok gate.1) i others found
              (ok_injective _ found _ refl listed)
              (enforce_label-Accessed s (stamps 0) subject i l known labelled) later
      ]

  -- An instance that a filtered read behind the gate returns is one that the subject may read in the
  -- broker's domain under the label of its metadata, for a domain that is registered as it stands.
  -- The response counts the instances that it returns.
  pub get_by_filter_as-Accessed :
      (stamps : ℕ → Stamp) (s : SecuredExchangeBroker json sink) (subject : SubjectAttributes)
      (request : GetByFilterRequest) (r : GetByFilterResponse json)
      → domain s.pep.store s.domain.id ≡ some s.domain
      → (get_by_filter_as json k sink upper stamps s subject request).1 ≡ ok r
      → All (λ i. Accessed json k sink upper s subject i read) r.instances
        × (r.count ≡ length r.instances)
  unfolding get_by_filter_as
  get_by_filter_as-Accessed stamps s subject request r known h =
      elim (Result-cases (get_by_filter json s.inner request)) [
        | inr (e, failed) ↦ absurd (ground (arith, h, failed))
        | inl (q, found) ↦
            let loop = permitted_from json k sink upper stamps s subject q.instances in
            let answer : List (MimInstance json) → GetByFilterResponse json =
              λ is. record { instances = is; count = length is; total = q.total } in
            let step : get_by_filter_as json k sink upper stamps s subject request
                ≡ (loop.0, loop.1 >>= λ is. ok (answer is)) =
              rw (get_by_filter_as, found) refl in
            let (is, ended, same) =
              >>=-eq-ok loop.1 (λ is. ok (answer is)) (sym (ap (λ o. o.1) step) ∙ h) in
            subst
              (λ (q' : GetByFilterResponse json).
                All (λ i. Accessed json k sink upper s subject i read) q'.instances
                × (q'.count ≡ length q'.instances))
              (ok_injective (answer is) r _ refl same)
              (permitted_from-Accessed stamps s subject q.instances is known ended, refl)
      ]

-- ===== src/Policy/Enforcement.antt =====
-- crates/mim-policy/src/pep.rs: what enforcement lets through, and what it leaves in the log.
use ainext_gen_c.Base.{
  ◌≡◌, ◌≢◌, refl, sym, ap, ◌∙◌, ◌⊎◌, inl, inr, Option, none, some, Option-cases, true, Text, ok,
  err, Bool-cases, ◌>>=◌, >>=-eq-ok, arith,
}
use ainext_gen_c.Label.Domain.{SecurityDomain}
use ainext_gen_c.Label.Confidentiality.{ConfidentialityLabel}
use ainext_gen_c.Audit.Record.{AuditRecord, Stamp}
use ainext_gen_c.Audit.Chain.{ChainBackend}
use ainext_gen_c.Audit.Log.{AuditSink, AuditLog, record_event}
use ainext_gen_c.Audit.Integrity.{RecordOutcome, record_event-RecordOutcome}
use ainext_gen_c.Policy.Error.{PolicyResult, denied}
use ainext_gen_c.Policy.Context.{
  AccessOperation, SubjectAttributes, PolicyContext, cross_domain_transfer, local,
}
use ainext_gen_c.Policy.Store.{domain}
use ainext_gen_c.Policy.Pip.{access_context, cross_domain_context}
use ainext_gen_c.Policy.Pdp.{PolicyDecision, PolicyEffect, permit, deny, downgrade, evaluate}
use ainext_gen_c.Policy.Access.{AccessAllowed, access_passed, evaluate-local}
use ainext_gen_c.Policy.Transfer.{TransferAllowed, Released}
use ainext_gen_c.Policy.Release.{Registered, evaluate-Released}
use ainext_gen_c.Policy.Pep.{
  PolicyEnforcementPoint, is_deny, access_record, cross_domain_record, refuse_denial, record_audit,
  recorded, pep_evaluate_access, pep_evaluate_mission, enforce_access, enforce_cross_domain,
}

-- What an enforcement returns for a decision of the decision point.
abbrev pub Enforced : PolicyResult PolicyDecision → PolicyResult PolicyDecision → Type 0
Enforced (ok decision) r =
    ((decision.effect ≡ deny) × (r ≡ err (denied decision.reason)))
    ⊎ ((decision.effect ≢ deny) × (r ≡ ok decision))
Enforced (err e) r = r ≡ err e

is_deny-deny : (e : PolicyEffect) → is_deny e ≡ true → e ≡ deny
is_deny-deny permit h = ground arith
is_deny-deny deny h = refl
is_deny-deny downgrade h = ground arith

refuse_denial-Enforced :
    (decided : PolicyResult PolicyDecision) → Enforced decided (decided >>= refuse_denial)
unfolding refuse_denial
refuse_denial-Enforced (err e) = refl
refuse_denial-Enforced (ok decision) = elim (Bool-cases (is_deny decision.effect)) [
  | inl h ↦ inl (is_deny-deny decision.effect h, rw (refuse_denial, h) refl)
  | inr h ↦ inr (λ e. ground arith, rw (refuse_denial, h) refl)
]

-- What the information point puts into the context of an access.
access_context-local :
    (subject : SubjectAttributes) (l : ConfidentialityLabel) (operation : AccessOperation)
    (d : SecurityDomain) (c : PolicyContext)
    → access_context subject l operation d ≡ ok c
    → (c.environment.operation ≡ operation) × (c.environment.source_domain ≡ d.id) × (c.label ≡ l)
unfolding access_context local
access_context-local subject l operation d c h = (ground arith, ground arith, ground arith)

-- An enforcement that returned a decision returned the one that was made, and it is no denial.
Enforced-ok :
    (decided r : PolicyResult PolicyDecision) (x : PolicyDecision)
    → Enforced decided r
    → r ≡ ok x
    → (decided ≡ ok x) × (x.effect ≢ deny)
Enforced-ok (err e) r x h returned = absurd (ground arith)
Enforced-ok (ok decision) r x (inl h) returned = absurd (ground arith)
Enforced-ok (ok decision) r x (inr h) returned = (sym h.1 ∙ returned, λ e. ground arith)

module _ (k : ChainBackend) (sink : AuditSink) where
  -- The log behind the record of a decision, if there is a log: the log's own recording of that
  -- record ran on it once, which appends one envelope of the record over the last hash, or fails and
  -- leaves the chain.
  abbrev pub Logged : Option (AuditLog sink) → AuditRecord → Option (AuditLog sink) → Type 0
  Logged none r audit' = audit' ≡ none
  Logged (some log) r audit' =
      let out = record_event k sink log r in
      (audit' ≡ some out.0) × RecordOutcome log.chain (out.0).chain r out.1

  record_audit-Logged :
      (pep : PolicyEnforcementPoint sink) (r : AuditRecord)
      → ((record_audit k sink pep r).store ≡ pep.store)
        × Logged pep.audit r (record_audit k sink pep r).audit
  unfolding record_audit
  record_audit-Logged pep r = elim (Option-cases pep.audit) [
    | inl none' ↦ rw (record_audit, none') (refl, none')
    | inr (log, some') ↦
        rw (record_audit, some') (refl, (refl, record_event-RecordOutcome k sink log r))
  ]

  -- The state behind an enforcement: only a decision is recorded, and once.
  abbrev pub Audited :
      PolicyEnforcementPoint sink
      → PolicyResult PolicyDecision
      → (PolicyDecision → AuditRecord)
      → PolicyEnforcementPoint sink
      → Type 0
  Audited pep (err e) make pep' = pep' ≡ pep
  Audited pep (ok decision) make pep' =
      (pep'.store ≡ pep.store) × Logged pep.audit (make decision) pep'.audit

  recorded-Audited :
      (pep : PolicyEnforcementPoint sink) (make : PolicyDecision → AuditRecord)
      (decided : PolicyResult PolicyDecision)
      → Audited pep decided make (recorded k sink pep make decided).0
        × ((recorded k sink pep make decided).1 ≡ decided)
  unfolding recorded
  recorded-Audited pep make (err e) = (refl, refl)
  recorded-Audited pep make (ok decision) = (record_audit-Logged pep (make decision), refl)

  -- Enforcing an access evaluates the context of its arguments in the store. An error leaves the
  -- state as it was, and a decision is recorded as that of a transfer is; a denial is then returned
  -- as an error with its reason, and any other result as it is.
  pub enforce_access-Enforced :
      (pep : PolicyEnforcementPoint sink) (stamp : Stamp) (subject : SubjectAttributes)
      (l : ConfidentialityLabel) (operation : AccessOperation) (d : SecurityDomain)
      → (decided : PolicyResult PolicyDecision) × (decided
          ≡ (access_context subject l operation d >>= evaluate pep.store))
        × Audited pep decided
            (access_record stamp subject l d)
            (enforce_access k sink pep stamp subject l operation d).0
        × Enforced decided (enforce_access k sink pep stamp subject l operation d).1
  unfolding enforce_access pep_evaluate_access
  enforce_access-Enforced pep stamp subject l operation d =
      let decided = access_context subject l operation d >>= evaluate pep.store in
      let (audited, same) = recorded-Audited pep (access_record stamp subject l d) decided in
      (decided, refl, audited, rw same (refuse_denial-Enforced decided))

  -- Enforcing a cross-domain transfer evaluates the context of its arguments in the store. An error
  -- leaves the state as it was. A decision keeps the store and, if there is a log, runs the log's
  -- recording of its record once, which appends one envelope over the last hash or fails with the
  -- chain unchanged. A denial is then returned as an error with its reason, and any other result as
  -- it is.
  pub enforce_cross_domain-Enforced :
      (pep : PolicyEnforcementPoint sink) (stamp : Stamp) (subject : SubjectAttributes)
      (l : ConfidentialityLabel) (source target : SecurityDomain) (mission : Option Text)
      → (decided : PolicyResult PolicyDecision) × (decided
          ≡ (cross_domain_context subject l source target mission >>= evaluate pep.store))
        × Audited pep decided
            (cross_domain_record stamp subject l source target)
            (enforce_cross_domain k sink pep stamp subject l source target mission).0
        × Enforced decided (enforce_cross_domain k sink pep stamp subject l source target mission).1
  unfolding enforce_cross_domain pep_evaluate_mission
  enforce_cross_domain-Enforced pep stamp subject l source target mission =
      let decided = cross_domain_context subject l source target mission >>= evaluate pep.store in
      let (audited, same) =
        recorded-Audited pep (cross_domain_record stamp subject l source target) decided in
      (decided, refl, audited, rw same (refuse_denial-Enforced decided))

  -- Whatever an enforced transfer returns was released: the context that the information point
  -- builds of the subject, the label, the domains and the mission passes every test between two
  -- registered domains with a registered rule, and the decision carries the label lowered to the
  -- target.
  pub enforce_cross_domain-Released :
      (pep : PolicyEnforcementPoint sink) (stamp : Stamp) (subject : SubjectAttributes)
      (l : ConfidentialityLabel) (source target : SecurityDomain) (mission : Option Text)
      (x : PolicyDecision)
      → (enforce_cross_domain k sink pep stamp subject l source target mission).1 ≡ ok x
      → (c : PolicyContext) × (cross_domain_context subject l source target mission ≡ ok c)
        × (c.label ≡ l)
        × (r : Registered pep.store source.id target.id) × TransferAllowed c r.source r.target
        × Released c r.target x
  enforce_cross_domain-Released pep stamp subject l source target mission x h =
      let (decided, run, audited, outcome) =
        enforce_cross_domain-Enforced pep stamp subject l source target mission in
      let (returned, passes) = Enforced-ok decided _ x outcome h in
      let (c, built, evaluated) = >>=-eq-ok _ _ (sym run ∙ returned) in
      let (r, allowed, released, label) =
        evaluate-Released pep.store subject l source target mission c x built evaluated passes in
      (c, built, label, r, allowed, released)

  -- An enforced access that returns was permitted: if the domain is registered under its id as
  -- it stands and the operation is not a transfer, all that an access needs holds.
  pub enforce_access-AccessAllowed :
      (pep : PolicyEnforcementPoint sink) (stamp : Stamp) (subject : SubjectAttributes)
      (l : ConfidentialityLabel) (operation : AccessOperation) (d : SecurityDomain)
      (x : PolicyDecision)
      → operation ≢ cross_domain_transfer
      → domain pep.store d.id ≡ some d
      → (enforce_access k sink pep stamp subject l operation d).1 ≡ ok x
      → (c : PolicyContext) × (access_context subject l operation d ≡ ok c)
        × AccessAllowed c d
        × (x.effective_label ≡ some l)
  enforce_access-AccessAllowed pep stamp subject l operation d x local known h =
      let (decided, run, audited, outcome) =
        enforce_access-Enforced pep stamp subject l operation d in
      let (returned, passes) = Enforced-ok decided _ x outcome h in
      let (c, built, evaluated) = >>=-eq-ok _ _ (sym run ∙ returned) in
      let (op, place, label) = access_context-local subject l operation d c built in
      let found = evaluate-local pep.store c d (rw op local) (rw place known) in
      let (allowed, permitted, effective) = access_passed c d x (sym found ∙ evaluated) passes in
      (c, built, allowed, effective ∙ ap some label)

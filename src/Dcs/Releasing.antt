-- ===== src/Dcs/Releasing.antt =====
-- crates/mim-dcs/src/guard.rs and transfer.rs: what a released transfer rests on.
use ainext_gen_c.Base.{
  map_err-eq-ok, ℕ, ◌≡◌, ◌≢◌, refl, sym, ap, subst, ◌∙◌, inl, inr, Bool, true, Option, none, some,
  Text, text, Bytes, as_bytes, ok, err, ◌>>=◌, ◌>>◌, >>=-eq-ok, ok_injective, map_err, Result-cases,
  Bool-cases, ok_or, arith,
}
use ainext_gen_c.Label.Error.{LabelError, LabelResult, cross_domain}
use ainext_gen_c.Label.Confidentiality.{ConfidentialityLabel}
use ainext_gen_c.Audit.Record.{Stamp, AuditRecord}
use ainext_gen_c.Audit.Chain.{ChainBackend}
use ainext_gen_c.Audit.Log.{AuditSink, AuditLog}
use ainext_gen_c.Policy.Error.{PolicyResult, to_label_error}
use ainext_gen_c.Policy.Context.{PolicyContext, new_subject}
use ainext_gen_c.Policy.Pip.{cross_domain_context}
use ainext_gen_c.Policy.Pdp.{PolicyDecision, PolicyEffect, permit, deny, downgrade, evaluate}
use ainext_gen_c.Policy.Transfer.{TransferAllowed, Released}
use ainext_gen_c.Policy.Release.{Registered, evaluate-Released}
use ainext_gen_c.Policy.Pep.{
  PolicyEnforcementPoint, cross_domain_record, recorded, pep_evaluate_mission,
  pep_evaluate_cross_domain,
}
use ainext_gen_c.Stanag.Binding.{BindingBackend}
use ainext_gen_c.Stanag.DataObject.{assertion_bound, verify_bdo}
use ainext_gen_c.Dcs.Guard.{
  GuardResult, CrossDomainGuard, guard_decision, map_decision, validate_domain_pair,
  guard_evaluate_with_subject, guard_evaluate,
}
use ainext_gen_c.Dcs.Transfer.{
  ZtdfBackend, TransferOutcome, released, denied, CrossDomainTransfer, is_assertion, is_release,
  record_transfer_audit, reject_record, evaluate_record, release_record, deny_record, make_release,
  release_outcome, conclude, after_binding, after_domains, execute,
}

ok_or-eq-ok : {A : Type 0} (o : Option A) (a : A) (e : LabelError) → ok_or o e ≡ ok a → o ≡ some a
ok_or-eq-ok none a e h = absurd (ground (arith, h))
ok_or-eq-ok (some b) a e h = ap some (ok_injective b a _ refl h)

outcome_parts :
    (x1 p1 x2 p2 : Text) (m1 m2 : Option Text) (b1 b2 : Option Bytes)
    → released x1 p1 m1 b1 ≡ released x2 p2 m2 b2
    → (x1 ≡ x2) × (p1 ≡ p2)
outcome_parts x1 p1 x2 p2 m1 m2 b1 b2 h = (cc, cc)

is_release-passes : (e : PolicyEffect) → is_release (guard_decision e) ≡ true → e ≢ deny
is_release-passes permit h same = cc
is_release-passes deny h same = ground (arith, h)
is_release-passes downgrade h same = cc

module _ (c : ChainBackend) (sink : AuditSink) where
  recorded-result :
      (pep : PolicyEnforcementPoint sink) (make : PolicyDecision → AuditRecord)
      (decided : PolicyResult PolicyDecision)
      → (recorded c sink pep make decided).1 ≡ decided
  unfolding recorded
  recorded-result pep make (ok x) = refl
  recorded-result pep make (err e) = refl

  -- the conditions under which the policies of the guard release a label between its domains: the
  -- context is the one that the information point builds of the label and the guard's subject
  pub record Cleared (g : CrossDomainGuard sink) (l : ConfidentialityLabel) (r : GuardResult)
      : Type 0 where
    pub context : PolicyContext
    pub built :
        cross_domain_context
          (new_subject (text "cross-domain-guard") l.classification)
          l
          g.source
          g.target
          none
        ≡ ok context
    pub labelled : context.label ≡ l
    pub registered : Registered g.pep.store g.source.id g.target.id
    pub allowed : TransferAllowed context registered.source registered.target
    pub decision : PolicyDecision
    pub granted : Released context registered.target decision
    pub mapped : r ≡ map_decision decision

  guard_evaluate-Cleared :
      (g : CrossDomainGuard sink) (stamp : Stamp) (l : ConfidentialityLabel) (r : GuardResult)
      → (guard_evaluate c sink g stamp l).1 ≡ ok r
      → is_release r.decision ≡ true
      → Cleared g l r
  unfolding guard_evaluate guard_evaluate_with_subject pep_evaluate_cross_domain
      pep_evaluate_mission map_decision
  guard_evaluate-Cleared g stamp l r h passes =
      let subject = new_subject (text "cross-domain-guard") l.classification in
      let decided : PolicyResult PolicyDecision =
        cross_domain_context subject l g.source g.target none >>= evaluate g.pep.store in
      let make = cross_domain_record stamp subject l g.source g.target in
      let (x, returned, mapped) =
        >>=-eq-ok (map_err to_label_error (recorded c sink g.pep make decided).1)
          (λ y. ok (map_decision y)) h in
      let same = ok_injective (map_decision x) r _ refl mapped in
      let decision =
        sym (recorded-result g.pep make decided) ∙ map_err-eq-ok to_label_error _ x returned in
      let (ctx, built, evaluated) =
        >>=-eq-ok (cross_domain_context subject l g.source g.target none) (evaluate g.pep.store)
          decision in
      let released' : is_release (guard_decision x.effect) ≡ true =
        subst (λ q. is_release q.decision ≡ true) (sym same) passes in
      let (reg, allowed, granted, label) =
        evaluate-Released g.pep.store subject l g.source g.target none ctx x built evaluated
          (is_release-passes x.effect released') in
      record {
        context = ctx;
        built = built;
        labelled = label;
        registered = reg;
        allowed = allowed;
        decision = x;
        granted = granted;
        mapped = sym same;
      }

module _ (c : ChainBackend) (sink : AuditSink) (k : BindingBackend) (z : ZtdfBackend) where
  -- what stands behind a transfer that was released with a label's XML and a payload
  pub record ReleasedBy (t : CrossDomainTransfer) (g : CrossDomainGuard sink) (xml payload : Text)
      : Type 0 where
    pub ends : validate_domain_pair t.source_domain t.target_domain ≡ ok tt
    pub asserted : is_assertion t.inbound_binding.binding.method ≡ true
    pub verified :
        verify_bdo k t.inbound_binding (as_bytes t.payload) (some t.nmb_verifying_key) ≡ ok tt
    pub result : GuardResult
    pub cleared : Cleared c sink g t.label result
    pub effective : ConfidentialityLabel
    pub labelled : result.effective_label ≡ some effective
    pub encoded : k.to_xml effective ≡ ok xml
    pub carried : payload ≡ t.payload

  make_release-label :
      (t : CrossDomainTransfer) (r : GuardResult) (e : ConfidentialityLabel) (xml : Text)
      (p : z.Package)
      → make_release c sink k z t r ≡ ok (e, xml, p)
      → (r.effective_label ≡ some e) × (k.to_xml e ≡ ok xml)
  unfolding make_release
  make_release-label t r e xml p h =
      let (e', found, h1) = >>=-eq-ok (ok_or r.effective_label _) _ h in
      let (xml', encoded, h2) = >>=-eq-ok (k.to_xml e') _ h1 in
      let (outbound, bound, h3) =
        >>=-eq-ok (assertion_bound k e' (as_bytes t.payload) t.nmb_signing_key) _ h2 in
      let (d1, verified, h4) =
        >>=-eq-ok (verify_bdo k outbound (as_bytes t.payload) (some t.nmb_verifying_key)) _ h3 in
      let (pkg, made, h5) =
        >>=-eq-ok
          (z.create e' (as_bytes t.payload) t.nmb_signing_key t.nmb_verifying_key
            t.kas_verifying_key)
          _ h4 in
      let (d2, checked, h6) =
        >>=-eq-ok (z.verify_release pkg t.nmb_verifying_key (as_bytes t.payload)) _ h5 in
      let same = ok_injective (e', xml', pkg) (e, xml, p) _ refl h6 in
      (
        ok_or-eq-ok r.effective_label e' _ found ∙ ap (λ q. some q.0) same,
        ap (λ q. k.to_xml q.0) (sym same) ∙ (encoded ∙ ap (λ q. ok q.1) same),
      )

  conclude-released :
      (t : CrossDomainTransfer) (audit : AuditLog sink) (stamp : Stamp) (fail_closed : Bool)
      (r : GuardResult) (xml payload : Text) (m : Option Text) (zip : Option Bytes)
      → (conclude c sink k z t audit stamp fail_closed r).1 ≡ ok (released xml payload m zip)
      → (is_release r.decision ≡ true)
        × (e : ConfidentialityLabel) × (r.effective_label ≡ some e)
        × (k.to_xml e ≡ ok xml)
        × (payload ≡ t.payload)
  unfolding conclude release_outcome
  conclude-released t audit stamp fail_closed r xml payload m zip h =
      elim (Bool-cases (is_release r.decision)) [
        | inr refused ↦
            let log =
              record_transfer_audit c sink k z audit (deny_record c sink k z stamp t r)
                fail_closed in
            let step : (conclude c sink k z t audit stamp fail_closed r).1
                ≡ (log.1 >> ok (denied r.reason)) =
              rw (conclude, refused) refl in
            let (d, done, outcome) = >>=-eq-ok log.1 (λ u. ok (denied r.reason)) (sym step ∙ h) in
            absurd (
              ground
                (arith, ok_injective (denied r.reason) (released xml payload m zip) _ refl outcome))
        | inl passes ↦ elim (Result-cases (make_release c sink k z t r)) [
          | inr (e, failed) ↦ absurd (ground (arith, h, passes, failed))
          | inl ((e, xml', p), made) ↦
              let log =
                record_transfer_audit c sink k z audit (release_record c sink k z stamp t r e)
                  fail_closed in
              let step : (conclude c sink k z t audit stamp fail_closed r).1
                  ≡ (log.1 >> release_outcome c sink k z t xml' p) =
                rw (conclude, passes, made) refl in
              let (d, done, outcome) =
                >>=-eq-ok log.1 (λ u. release_outcome c sink k z t xml' p) (sym step ∙ h) in
              let (manifest, m1, h1) = >>=-eq-ok (z.manifest_json p) _ outcome in
              let (bytes, m2, h2) = >>=-eq-ok (z.to_zip_bytes p) _ h1 in
              let (same_xml, same_payload) =
                outcome_parts xml' t.payload xml payload (some manifest) m (some bytes) zip
                  (ok_injective _ _ _ refl h2) in
              let (labelled, encoded) = make_release-label t r e xml' p made in
              (passes, e, labelled, encoded ∙ ap ok same_xml, sym same_payload)
        ]
      ]

  after_binding-ReleasedBy :
      (t : CrossDomainTransfer) (g : CrossDomainGuard sink) (audit : AuditLog sink)
      (stamps : ℕ → Stamp) (xml payload : Text) (m : Option Text) (zip : Option Bytes)
      → validate_domain_pair t.source_domain t.target_domain ≡ ok tt
      → is_assertion t.inbound_binding.binding.method ≡ true
      → verify_bdo k t.inbound_binding (as_bytes t.payload) (some t.nmb_verifying_key) ≡ ok tt
      → (after_binding c sink k z t g audit stamps).2 ≡ ok (released xml payload m zip)
      → ReleasedBy t g xml payload
  unfolding after_binding
  after_binding-ReleasedBy t g audit stamps xml payload m zip ends asserted verified h =
      elim (Result-cases (guard_evaluate c sink g (stamps 1) t.label).1) [
        | inr (e, failed) ↦ absurd (ground (arith, h, failed))
        | inl (r, evaluated) ↦
            let step : (after_binding c sink k z t g audit stamps).2
                ≡ (conclude c sink k z t audit (stamps 2) g.accredited r).1 =
              rw (after_binding, evaluated) refl in
            let (passes, e, labelled, encoded, carried) =
              conclude-released t audit (stamps 2) g.accredited r xml payload m zip
                (sym step ∙ h) in
            record {
              ends = ends;
              asserted = asserted;
              verified = verified;
              result = r;
              cleared = guard_evaluate-Cleared c sink g (stamps 1) t.label r evaluated passes;
              effective = e;
              labelled = labelled;
              encoded = encoded;
              carried = carried;
            }
      ]

  -- A transfer that is released names two different domains and carries an assertion binding that
  -- verifies over its payload. The context that the information point builds of its label, the
  -- guard's subject and the guard's domains passes all conditions of the guard's policies. What is
  -- released is the XML of the label that the guard decided on, and the payload as it came.
  pub execute-ReleasedBy :
      (t : CrossDomainTransfer) (g : CrossDomainGuard sink) (audit : AuditLog sink)
      (stamps : ℕ → Stamp) (xml payload : Text) (m : Option Text) (zip : Option Bytes)
      → (execute c sink k z t g audit stamps).2 ≡ ok (released xml payload m zip)
      → ReleasedBy t g xml payload
  unfolding execute after_domains
  execute-ReleasedBy t g audit stamps xml payload m zip h =
      elim (Result-cases (validate_domain_pair t.source_domain t.target_domain)) [
        | inr (e, failed) ↦ absurd (ground (arith, h, failed))
        | inl (d, ends) ↦ elim (Bool-cases (is_assertion t.inbound_binding.binding.method)) [
          | inr other ↦
              let log =
                record_transfer_audit c sink k z audit (reject_record c sink k z (stamps 0) t)
                  g.accredited in
              let refusal : LabelResult TransferOutcome = err (
                cross_domain
                  (text "cross-domain transfer requires STANAG 4778 assertion binding")) in
              let step : (execute c sink k z t g audit stamps).2 ≡ (log.1 >> refusal) =
                rw (execute, ends, after_domains, other) refl in
              let (d', done, never) = >>=-eq-ok log.1 (λ u. refusal) (sym step ∙ h) in
              absurd (ground (arith, never))
          | inl asserted ↦
              elim (Result-cases
                (verify_bdo k t.inbound_binding (as_bytes t.payload) (some t.nmb_verifying_key))) [
                  | inr (e, failed) ↦ absurd (ground (arith, h, ends, asserted, failed))
                  | inl (d', verified) ↦
                      let log =
                        record_transfer_audit c sink k z audit
                          (evaluate_record c sink k z (stamps 0) t) g.accredited in
                      elim (Result-cases log.1) [
                        | inr (e, failed) ↦
                            let step : (execute c sink k z t g audit stamps).2 ≡ err e =
                              rw (execute, ends, after_domains, asserted, verified, failed) refl in
                            absurd (ground (arith, sym step ∙ h))
                        | inl (d'', done) ↦
                            let step : (execute c sink k z t g audit stamps).2
                                ≡ (after_binding c sink k z t g log.0 stamps).2 =
                              rw (execute, ends, after_domains, asserted, verified, done) refl in
                            after_binding-ReleasedBy t g log.0 stamps xml payload m zip ends
                              asserted verified (sym step ∙ h)
                      ]
                ]
        ]
      ]

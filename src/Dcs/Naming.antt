-- ===== src/Dcs/Naming.antt =====
-- crates/mim-dcs/src/transfer.rs: the domains that a transfer names.
use ainext_gen_c.Base.{
  ℕ, ◌≡◌, refl, sym, ◌∙◌, inl, inr, true, false, not, some, Text, text, as_bytes, ok, err, ◌>>=◌,
  ◌>>◌, fail_if, Result-cases, Bool-cases,
}
use ainext_gen_c.Label.Error.{LabelResult, cross_domain}
use ainext_gen_c.Label.Domain.{DomainId}
use ainext_gen_c.Label.Confidentiality.{ConfidentialityLabel}
use ainext_gen_c.Audit.Record.{Stamp, AuditRecord}
use ainext_gen_c.Audit.Chain.{ChainBackend}
use ainext_gen_c.Audit.Log.{AuditSink, AuditLog, AuditResult, record_event}
use ainext_gen_c.Stanag.Binding.{BindingBackend}
use ainext_gen_c.Stanag.DataObject.{verify_bdo}
use ainext_gen_c.Dcs.Guard.{GuardResult, CrossDomainGuard, validate_domain_pair, guard_evaluate}
use ainext_gen_c.Dcs.Transfer.{
  ZtdfBackend, TransferOutcome, denied, CrossDomainTransfer, is_assertion, is_release,
  audit_outcome, record_transfer_audit, reject_record, evaluate_record, release_record, deny_record,
  make_release, release_outcome, conclude, after_binding, after_domains, execute,
}

audit_outcome-open : (r : AuditResult (Unit {0})) → audit_outcome false r ≡ ok tt
unfolding audit_outcome
audit_outcome-open (ok done) = refl
audit_outcome-open (err e) = refl

module _ (c : ChainBackend) (sink : AuditSink) (k : BindingBackend) (z : ZtdfBackend) where
  -- the outcome on a result of the guard, where the log cannot fail
  abbrev open_conclusion : CrossDomainTransfer → GuardResult → LabelResult TransferOutcome
  open_conclusion t r = elim (is_release r.decision) [
    | true ↦ make_release c sink k z t r >>= λ (made : ConfidentialityLabel × Text × z.Package).
        release_outcome c sink k z t made.1 made.2
    | false ↦ ok (denied r.reason)
  ]

  -- the steps of a transfer without the log
  abbrev open_transfer :
      CrossDomainTransfer → CrossDomainGuard sink → Stamp → LabelResult TransferOutcome
  open_transfer t g stamp =
      fail_if (not (is_assertion t.inbound_binding.binding.method))
        (cross_domain (text "cross-domain transfer requires STANAG 4778 assertion binding"))
      >> (verify_bdo k t.inbound_binding (as_bytes t.payload) (some t.nmb_verifying_key)
          >> ((guard_evaluate c sink g stamp t.label).1 >>= open_conclusion t))

  module _ (t : CrossDomainTransfer) (g : CrossDomainGuard sink)
      (open' : g.accredited ≡ false) where
    quiet :
        (audit : AuditLog sink) (r : AuditRecord)
        → (record_transfer_audit c sink k z audit r g.accredited).1 ≡ ok tt
    unfolding record_transfer_audit
    quiet audit r = rw open' (audit_outcome-open (record_event c sink audit r).1)

    conclude-open :
        (audit : AuditLog sink) (stamp : Stamp) (r : GuardResult)
        → (conclude c sink k z t audit stamp g.accredited r).1 ≡ open_conclusion t r
    unfolding conclude
    conclude-open audit stamp r = elim (Bool-cases (is_release r.decision)) [
      | inr refused ↦
          rw (conclude, open_conclusion, refused, quiet audit (deny_record c sink k z stamp t r))
            refl
      | inl passes ↦ elim (Result-cases (make_release c sink k z t r)) [
        | inr (e, failed) ↦ rw (conclude, open_conclusion, passes, failed) refl
        | inl ((e, xml, p), made) ↦
            rw
              (
                conclude,
                open_conclusion,
                passes,
                made,
                quiet audit (release_record c sink k z stamp t r e),
              )
              refl
      ]
    ]

    after_binding-open :
        (audit : AuditLog sink) (stamps : ℕ → Stamp)
        → (after_binding c sink k z t g audit stamps).2
          ≡ ((guard_evaluate c sink g (stamps 1) t.label).1 >>= open_conclusion t)
    unfolding after_binding
    after_binding-open audit stamps =
        elim (Result-cases (guard_evaluate c sink g (stamps 1) t.label).1) [
          | inr (e, failed) ↦ rw (after_binding, failed) refl
          | inl (r, evaluated) ↦ rw (after_binding, evaluated) (conclude-open audit (stamps 2) r)
        ]

    -- what a transfer returns without accreditation: what its steps return without the log
    execute-open_transfer :
        (audit : AuditLog sink) (stamps : ℕ → Stamp)
        → validate_domain_pair t.source_domain t.target_domain ≡ ok tt
        → (execute c sink k z t g audit stamps).2 ≡ open_transfer t g (stamps 1)
    unfolding execute after_domains
    execute-open_transfer audit stamps ends =
        elim (Bool-cases (is_assertion t.inbound_binding.binding.method)) [
          | inr other ↦
              rw
                (
                  execute,
                  ends,
                  after_domains,
                  other,
                  quiet audit (reject_record c sink k z (stamps 0) t),
                )
                refl
          | inl asserted ↦
              elim (Result-cases
                (verify_bdo k t.inbound_binding (as_bytes t.payload) (some t.nmb_verifying_key))) [
                  | inr (e, failed) ↦ rw (execute, ends, after_domains, asserted, failed) refl
                  | inl (d, verified) ↦
                      rw
                        (
                          execute,
                          ends,
                          after_domains,
                          asserted,
                          verified,
                          quiet audit (evaluate_record c sink k z (stamps 0) t),
                        )
                        (after_binding-open _ stamps)
                ]
        ]

  -- Without accreditation, a transfer that names two different domains returns the same whichever
  -- two different domains it names instead, those of the guard or others.
  pub execute-ignores_domains :
      (t : CrossDomainTransfer) (g : CrossDomainGuard sink) (source target : DomainId)
      → g.accredited ≡ false
      → validate_domain_pair t.source_domain t.target_domain ≡ ok tt
      → validate_domain_pair source target ≡ ok tt
      → (audit : AuditLog sink) (stamps : ℕ → Stamp)
      → (execute c sink k z t g audit stamps).2
        ≡ (execute c sink k z
            (record t { source_domain = source; target_domain = target })
            g
            audit
            stamps).2
  unfolding make_release release_outcome
  execute-ignores_domains t g source target open' ends others audit stamps =
      execute-open_transfer t g open' audit stamps ends
      ∙ sym (
          execute-open_transfer (record t { source_domain = source; target_domain = target }) g
            open' audit stamps others)

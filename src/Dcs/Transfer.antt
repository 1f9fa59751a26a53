-- ===== src/Dcs/Transfer.antt =====
-- crates/mim-dcs/src/transfer.rs: a transfer through the guard. The log that is passed in and the log
-- of the guard's enforcement point are two states here. The records are stamped in order: the
-- transfer's own are 0 and 2, and 1 is that of the evaluation. The package is of an
-- interface, which the packages of crates/mim-ztdf fill.
use ainext_gen_c.Base.{
  ℕ, Bool, true, false, ◌++◌, Option, some, Text, text, Bytes, as_bytes, ok, err, ◌>>=◌, ◌>>◌,
  ok_or, if◌then◌else◌,
}
use ainext_gen_c.Label.Error.{LabelResult, cross_domain}
use ainext_gen_c.Label.Domain.{DomainId}
use ainext_gen_c.Label.Confidentiality.{ConfidentialityLabel}
use ainext_gen_c.Crypto.Provider.{SigningKey, VerifyingKey, sha256_base64}
use ainext_gen_c.Audit.Record.{
  AuditEventKind, cross_domain_evaluate, cross_domain_transfer, binding_reject, AuditRecord, Stamp,
  new_record, with_domains, with_effective_label, with_payload_digest,
}
use ainext_gen_c.Audit.Chain.{ChainBackend}
use ainext_gen_c.Audit.Log.{
  AuditError, io, sealed, tampered, AuditResult, AuditSink, AuditLog, record_event,
}
use ainext_gen_c.Stanag.Binding.{BindingBackend, BindingMethod, assertion}
use ainext_gen_c.Stanag.DataObject.{BindingDataObject, assertion_bound, verify_bdo}
use ainext_gen_c.Dcs.Guard.{
  GuardDecision, allow_transfer, deny_transfer, downgrade_transfer, GuardResult, CrossDomainGuard,
  validate_domain_pair, guard_evaluate,
}

-- The interface of `ZtdfPackage`: its creation under the signing, verifying and KAS keys, the
-- check of a release, and its two serialisations
pub record ZtdfBackend : Type 1 where
  pub Package : Type 0
  pub create :
      ConfidentialityLabel → Bytes → SigningKey → VerifyingKey → VerifyingKey → LabelResult Package
  pub verify_release : Package → VerifyingKey → Bytes → LabelResult (Unit {0})
  pub manifest_json : Package → LabelResult Text
  pub to_zip_bytes : Package → LabelResult Bytes

pub data TransferOutcome : Type 0 where
  released : Text → Text → Option Text → Option Bytes → TransferOutcome
  denied : Text → TransferOutcome

pub record CrossDomainTransfer : Type 0 where
  pub source_domain : DomainId
  pub target_domain : DomainId
  pub label : ConfidentialityLabel
  pub payload : Text
  pub inbound_binding : BindingDataObject
  pub nmb_signing_key : SigningKey
  pub nmb_verifying_key : VerifyingKey
  pub kas_signing_key : SigningKey
  pub kas_verifying_key : VerifyingKey

-- `AuditError::to_string`, from the `#[error]` attributes
unfoldable pub audit_error_text : AuditError → Text
audit_error_text (io m) = text "audit I/O error: " ++ m
audit_error_text sealed = text "audit record is sealed and cannot be modified"
audit_error_text (tampered m) = text "WORM audit integrity violation: " ++ m

-- `binding.method == BindingMethod::Assertion`
abbrev pub is_assertion : BindingMethod → Bool
is_assertion assertion = true
is_assertion _ = false

-- the name of a decision in the record of a transfer
unfoldable pub decision_text : GuardDecision → Text
decision_text allow_transfer = text "allow"
decision_text downgrade_transfer = text "downgrade"
decision_text deny_transfer = text "deny"

-- `result.decision` is not a denial
abbrev pub is_release : GuardDecision → Bool
is_release deny_transfer = false
is_release _ = true

-- the end of `record_audit`: only an accredited guard fails on the log
unfoldable pub audit_outcome : Bool → AuditResult (Unit {0}) → LabelResult (Unit {0})
audit_outcome fail_closed (ok done) = ok tt
audit_outcome fail_closed (err e) =
    if fail_closed
    then err (cross_domain (text "accredited guard audit unavailable: " ++ audit_error_text e))
    else ok tt

module _ (c : ChainBackend) (sink : AuditSink) (k : BindingBackend) (z : ZtdfBackend) where
  -- `record_audit`
  unfoldable pub record_transfer_audit :
      AuditLog sink → AuditRecord → Bool → AuditLog sink × LabelResult (Unit {0})
  unfolding audit_outcome
  record_transfer_audit audit r fail_closed =
      let (audit', recorded) = record_event c sink audit r in
      (audit', audit_outcome fail_closed recorded)

  -- a record of the guard on the transfer, with the transfer's domains
  unfoldable pub transfer_record :
      Stamp → CrossDomainTransfer → AuditEventKind → Text → Text → Text → AuditRecord
  transfer_record stamp t kind rule decision reason =
      with_domains (new_record stamp kind (text "cross-domain-guard") t.label rule decision reason)
        t.source_domain t.target_domain

  unfoldable pub payload_digest_of : CrossDomainTransfer → Text
  payload_digest_of t = sha256_base64 k.provider (as_bytes t.payload)

  -- the record of a binding that is no assertion
  unfoldable pub reject_record : Stamp → CrossDomainTransfer → AuditRecord
  unfolding transfer_record payload_digest_of
  reject_record stamp t =
      with_payload_digest
        (transfer_record stamp t binding_reject (text "mandatory-assertion-binding") (text "deny")
          (text "embedded-only bindings rejected at cross-domain boundary"))
        (payload_digest_of t)

  -- the record of a binding that verified
  unfoldable pub evaluate_record : Stamp → CrossDomainTransfer → AuditRecord
  unfolding transfer_record payload_digest_of
  evaluate_record stamp t =
      with_payload_digest
        (transfer_record stamp t cross_domain_evaluate (text "pre-guard-binding-verified")
          (text "evaluate") (text "inbound NMBS assertion binding verified"))
        (payload_digest_of t)

  -- the record of a release
  unfoldable pub release_record :
      Stamp → CrossDomainTransfer → GuardResult → ConfidentialityLabel → AuditRecord
  unfolding transfer_record payload_digest_of decision_text
  release_record stamp t r effective =
      with_payload_digest
        (with_effective_label
          (transfer_record stamp t cross_domain_transfer r.reason (decision_text r.decision)
            (text "cross-domain transfer released"))
          effective)
        (payload_digest_of t)

  -- the record of a denial
  unfoldable pub deny_record : Stamp → CrossDomainTransfer → GuardResult → AuditRecord
  unfolding transfer_record
  deny_record stamp t r =
      transfer_record stamp t cross_domain_transfer r.reason (text "deny")
        (text "cross-domain transfer denied by guard")

  -- what a release makes before it is recorded: the label, its XML, and the package
  unfoldable pub make_release :
      CrossDomainTransfer → GuardResult → LabelResult (ConfidentialityLabel × Text × z.Package)
  make_release t r = do
    effective ←
        ok_or r.effective_label
          (cross_domain (text "guard approved transfer but no effective label"))
    label_xml ← k.to_xml effective
    outbound ← assertion_bound k effective (as_bytes t.payload) t.nmb_signing_key
    verify_bdo k outbound (as_bytes t.payload) (some t.nmb_verifying_key)
    ztdf ←
        z.create effective (as_bytes t.payload) t.nmb_signing_key t.nmb_verifying_key
          t.kas_verifying_key
    z.verify_release ztdf t.nmb_verifying_key (as_bytes t.payload)
    ok (effective, label_xml, ztdf)

  -- the outcome of a release
  unfoldable pub release_outcome :
      CrossDomainTransfer → Text → z.Package → LabelResult TransferOutcome
  release_outcome t label_xml ztdf = do
    manifest ← z.manifest_json ztdf
    zip ← z.to_zip_bytes ztdf
    ok (released label_xml t.payload (some manifest) (some zip))

  -- the arms of `execute` on the guard's result
  unfoldable pub conclude :
      CrossDomainTransfer
      → AuditLog sink
      → Stamp
      → Bool
      → GuardResult
      → AuditLog sink × LabelResult TransferOutcome
  unfolding record_transfer_audit release_record deny_record make_release release_outcome
  conclude t audit stamp fail_closed r = elim (is_release r.decision) [
    | true ↦ elim (make_release t r) [
      | err e ↦ (audit, err e)
      | ok (effective, label_xml, ztdf) ↦
          let (audit', recorded) =
            record_transfer_audit audit (release_record stamp t r effective) fail_closed in
          (audit', recorded >> release_outcome t label_xml ztdf)
    ]
    | false ↦
        let (audit', recorded) = record_transfer_audit audit (deny_record stamp t r) fail_closed in
        (audit', recorded >> ok (denied r.reason))
  ]

  -- the guard's evaluation and what follows from it
  unfoldable pub after_binding :
      CrossDomainTransfer
      → CrossDomainGuard sink
      → AuditLog sink
      → (ℕ → Stamp)
      → CrossDomainGuard sink × AuditLog sink × LabelResult TransferOutcome
  unfolding conclude
  after_binding t g audit stamps =
      let (g', evaluated) = guard_evaluate c sink g (stamps 1) t.label in
      elim evaluated [
        | err e ↦ (g', audit, err e)
        | ok r ↦
            let (audit', outcome) = conclude t audit (stamps 2) g.accredited r in
            (g', audit', outcome)
      ]

  -- the part of `execute` behind the check of the domains
  unfoldable pub after_domains :
      CrossDomainTransfer
      → CrossDomainGuard sink
      → AuditLog sink
      → (ℕ → Stamp)
      → CrossDomainGuard sink × AuditLog sink × LabelResult TransferOutcome
  unfolding record_transfer_audit reject_record evaluate_record after_binding
  after_domains t g audit stamps = elim (is_assertion t.inbound_binding.binding.method) [
    | false ↦
        let (audit', recorded) =
          record_transfer_audit audit (reject_record (stamps 0) t) g.accredited in
        (
          g,
          audit',
          recorded
              >> err (
                  cross_domain
                    (text "cross-domain transfer requires STANAG 4778 assertion binding")),
        )
    | true ↦ elim (verify_bdo k t.inbound_binding (as_bytes t.payload) (some t.nmb_verifying_key)) [
      | err e ↦ (g, audit, err e)
      | ok done ↦
          let (audit', recorded) =
            record_transfer_audit audit (evaluate_record (stamps 0) t) g.accredited in
          elim recorded [ err e ↦ (g, audit', err e) | ok done' ↦ after_binding t g audit' stamps ]
    ]
  ]

  -- `CrossDomainTransfer::execute`
  unfoldable pub execute :
      CrossDomainTransfer
      → CrossDomainGuard sink
      → AuditLog sink
      → (ℕ → Stamp)
      → CrossDomainGuard sink × AuditLog sink × LabelResult TransferOutcome
  unfolding after_domains
  execute t g audit stamps = elim (validate_domain_pair t.source_domain t.target_domain) [
    | err e ↦ (g, audit, err e)
    | ok done ↦ after_domains t g audit stamps
  ]

-- ===== src/Dcs/Receipt.antt =====
-- crates/mim-dcs/src/transfer.rs: the receipt of a package on the target side, and the packages that
-- fill the interface of a transfer. The records are stamped in order: 1 is that of the access, 0 and
-- 2 are those of the receipt.
use ainext_gen_c.Base.{ℕ, Text, text, Bytes, ok, err, ◌>>◌, ok_or, from_utf8}
use ainext_gen_c.Label.Error.{LabelResult, cross_domain}
use ainext_gen_c.Label.Confidentiality.{ConfidentialityLabel}
use ainext_gen_c.Crypto.Provider.{SigningKey, VerifyingKey, sha256_base64}
use ainext_gen_c.Audit.Record.{
  AuditEventKind, cross_domain_evaluate, cross_domain_transfer, AuditRecord, Stamp, new_record,
  with_domains, with_payload_digest,
}
use ainext_gen_c.Audit.Chain.{ChainBackend}
use ainext_gen_c.Audit.Log.{AuditSink, AuditLog}
use ainext_gen_c.Policy.Context.{SubjectAttributes}
use ainext_gen_c.Stanag.Binding.{BindingBackend}
use ainext_gen_c.Ztdf.Manifest.{ContentBackend, KasClient, local_kas}
use ainext_gen_c.Ztdf.Package.{
  ZtdfPackage, Drawn, ArchiveBackend, create_package, verify_release, manifest_json, to_zip_bytes,
  from_zip_sealed, manifest_label, decrypt_with_policy, verify_binding_plaintext,
}
use ainext_gen_c.Dcs.Guard.{CrossDomainGuard}
use ainext_gen_c.Dcs.Transfer.{ZtdfBackend, record_transfer_audit}

module _ (k : BindingBackend) (x : ContentBackend) (z : ArchiveBackend x) where
  -- the packages of the mim-ztdf crate, with what the one of a transfer draws
  unfoldable pub package_backend : Drawn → ZtdfBackend
  package_backend drawn = record {
    Package = ZtdfPackage x;
    create = create_package k x drawn;
    verify_release = verify_release k x;
    manifest_json = manifest_json x z;
    to_zip_bytes = to_zip_bytes x z;
  }

-- a record of the receipt, with the guard's domains
unfoldable pub receipt_record :
    {sink : AuditSink}
    → Stamp
    → SubjectAttributes
    → CrossDomainGuard sink
    → ConfidentialityLabel
    → AuditEventKind
    → Text
    → Text
    → AuditRecord
receipt_record stamp subject g l kind decision reason =
    with_domains
      (new_record stamp kind subject.subject_id l (text "ztdf-decrypt-pep") decision reason)
      g.source.id g.target.id

module _ (c : ChainBackend) (sink : AuditSink) (k : BindingBackend) (b : ZtdfBackend)
    (x : ContentBackend) (z : ArchiveBackend x) (utf8_error : Bytes → Text) where
  -- the record of a package that was opened
  unfoldable pub opened_record :
      Stamp → SubjectAttributes → CrossDomainGuard sink → ConfidentialityLabel → Bytes → AuditRecord
  unfolding receipt_record
  opened_record stamp subject g l plaintext =
      with_payload_digest
        (receipt_record stamp subject g l cross_domain_transfer (text "allow")
          (text "target-side ZTDF decrypted through PEP gate"))
        (sha256_base64 k.provider plaintext)

  -- the part of `receive_ztdf_on_target` behind the gate
  unfoldable pub after_gate :
      ZtdfPackage x
      → SubjectAttributes
      → CrossDomainGuard sink
      → ConfidentialityLabel
      → VerifyingKey
      → AuditLog sink
      → Stamp
      → Bytes
      → AuditLog sink × LabelResult Text
  unfolding opened_record
  after_gate p subject g l key audit stamp plaintext =
      elim (verify_binding_plaintext k x p plaintext key) [
        | err e ↦ (audit, err e)
        | ok done ↦
            let (audit', recorded) =
              record_transfer_audit c sink k b audit (opened_record stamp subject g l plaintext)
                g.accredited in
            (audit', recorded >> ok_or (from_utf8 plaintext) (cross_domain (utf8_error plaintext)))
      ]

  -- the part of `receive_ztdf_on_target` on the package
  unfoldable pub open_received :
      ZtdfPackage x
      → SubjectAttributes
      → CrossDomainGuard sink
      → ConfidentialityLabel
      → VerifyingKey
      → KasClient x
      → AuditLog sink
      → (ℕ → Stamp)
      → CrossDomainGuard sink × AuditLog sink × LabelResult Text
  unfolding after_gate
  open_received p subject g l key kas audit stamps =
      let (pep', opened) = decrypt_with_policy c sink k x p subject g.pep (stamps 1) g.target kas in
      elim opened [
        | err e ↦ (record g { pep = pep' }, audit, err e)
        | ok plaintext ↦
            let (audit', received) = after_gate p subject g l key audit (stamps 2) plaintext in
            (record g { pep = pep' }, audit', received)
      ]

  -- the part of `receive_ztdf_on_target` on the package and its label
  unfoldable pub receive_labelled :
      ZtdfPackage x
      → SubjectAttributes
      → CrossDomainGuard sink
      → ConfidentialityLabel
      → VerifyingKey
      → KasClient x
      → AuditLog sink
      → (ℕ → Stamp)
      → CrossDomainGuard sink × AuditLog sink × LabelResult Text
  unfolding open_received receipt_record
  receive_labelled p subject g l key kas audit stamps =
      let (audit', recorded) =
        record_transfer_audit c sink k b audit
          (receipt_record (stamps 0) subject g l cross_domain_evaluate (text "evaluate")
            (text "target-side ZTDF decrypt PEP evaluation"))
          g.accredited in
      elim recorded [
        | err e ↦ (g, audit', err e)
        | ok done ↦ open_received p subject g l key kas audit' stamps
      ]

  -- `CrossDomainTransfer::receive_ztdf_on_target`
  unfoldable pub receive_ztdf_on_target :
      SubjectAttributes
      → CrossDomainGuard sink
      → Bytes
      → VerifyingKey
      → KasClient x
      → AuditLog sink
      → (ℕ → Stamp)
      → CrossDomainGuard sink × AuditLog sink × LabelResult Text
  unfolding receive_labelled
  receive_ztdf_on_target subject g zip key kas audit stamps = elim (from_zip_sealed k x z zip) [
    | err e ↦ (g, audit, err e)
    | ok p ↦ elim (manifest_label x p.manifest) [
      | err e ↦ (g, audit, err e)
      | ok l ↦ receive_labelled p subject g l key kas audit stamps
    ]
  ]

  -- `CrossDomainTransfer::receive_ztdf_on_target_with_key`
  unfoldable pub receive_ztdf_on_target_with_key :
      SubjectAttributes
      → CrossDomainGuard sink
      → Bytes
      → VerifyingKey
      → SigningKey
      → AuditLog sink
      → (ℕ → Stamp)
      → CrossDomainGuard sink × AuditLog sink × LabelResult Text
  unfolding receive_ztdf_on_target
  receive_ztdf_on_target_with_key subject g zip key kas_signing_key audit stamps =
      receive_ztdf_on_target subject g zip key (local_kas x kas_signing_key) audit stamps

-- ===== src/Dcs/Receiving.antt =====
-- crates/mim-dcs/src/transfer.rs: what stands behind a package that the target side opened.
use ainext_gen_c.Base.{
  ℕ, ◌≡◌, ◌≢◌, refl, sym, ◌∙◌, inl, inr, Option, none, some, Text, text, Bytes, ok, err, ◌>>=◌,
  ◌>>◌, ok_or, map_err, >>=-eq-ok, map_err-eq-ok, Result-cases, from_utf8, arith,
}
use ainext_gen_c.Label.Error.{LabelError, LabelResult, validation, cross_domain}
use ainext_gen_c.Label.Confidentiality.{ConfidentialityLabel}
use ainext_gen_c.Crypto.Provider.{VerifyingKey}
use ainext_gen_c.Audit.Record.{Stamp, cross_domain_evaluate}
use ainext_gen_c.Audit.Chain.{ChainBackend}
use ainext_gen_c.Audit.Log.{AuditSink, AuditLog}
use ainext_gen_c.Policy.Error.{policy_error_text}
use ainext_gen_c.Policy.Context.{read, cross_domain_transfer, SubjectAttributes, PolicyContext}
use ainext_gen_c.Policy.Store.{domain}
use ainext_gen_c.Policy.Pip.{access_context}
use ainext_gen_c.Policy.Pep.{enforce_access}
use ainext_gen_c.Policy.Access.{AccessAllowed}
use ainext_gen_c.Policy.Enforcement.{enforce_access-AccessAllowed}
use ainext_gen_c.Stanag.Binding.{BindingBackend}
use ainext_gen_c.Ztdf.Manifest.{ContentBackend, KasClient}
use ainext_gen_c.Ztdf.Package.{
  ZtdfPackage, ArchiveBackend, from_zip_sealed, manifest_label, decrypt_with_kas,
  decrypt_with_policy, verify_binding_plaintext,
}
use ainext_gen_c.Dcs.Guard.{CrossDomainGuard}
use ainext_gen_c.Dcs.Transfer.{ZtdfBackend, record_transfer_audit}
use ainext_gen_c.Dcs.Receipt.{
  receipt_record, opened_record, after_gate, open_received, receive_labelled,
  receive_ztdf_on_target,
}

ok_or-eq-ok : {A : Type 0} (o : Option A) (e : LabelError) (a : A) → ok_or o e ≡ ok a → o ≡ some a
ok_or-eq-ok none e a h = cc
ok_or-eq-ok (some b) e a h = cc

read_not_transfer : read ≢ cross_domain_transfer
read_not_transfer h = cc

module _ (c : ChainBackend) (sink : AuditSink) (k : BindingBackend) (b : ZtdfBackend)
    (x : ContentBackend) (z : ArchiveBackend x) (utf8_error : Bytes → Text) where
  -- what stands behind a text that the target side received
  pub record ReceivedBy (subject : SubjectAttributes) (g : CrossDomainGuard sink) (zip : Bytes)
      (key : VerifyingKey) (kas : KasClient x) (received : Text) : Type 0 where
    pub held : ZtdfPackage x
    pub sealed : from_zip_sealed k x z zip ≡ ok held
    pub label : ConfidentialityLabel
    pub labelled : manifest_label x held.manifest ≡ ok label
    pub context : PolicyContext
    pub built : access_context subject label read g.target ≡ ok context
    pub allowed : AccessAllowed context g.target
    pub plaintext : Bytes
    pub opened : decrypt_with_kas x held kas ≡ ok plaintext
    pub verified : verify_binding_plaintext k x held plaintext key ≡ ok tt
    pub decoded : from_utf8 plaintext ≡ some received

  module _ (subject : SubjectAttributes) (g : CrossDomainGuard sink) (key : VerifyingKey)
      (kas : KasClient x) (p : ZtdfPackage x) (l : ConfidentialityLabel)
      (labelled : manifest_label x p.manifest ≡ ok l)
      (known : domain g.pep.store g.target.id ≡ some g.target) where
    decrypt_with_policy-AccessAllowed :
        (stamp : Stamp) (plaintext : Bytes)
        → (decrypt_with_policy c sink k x p subject g.pep stamp g.target kas).1 ≡ ok plaintext
        → (context : PolicyContext) × (access_context subject l read g.target ≡ ok context)
          × AccessAllowed context g.target
          × (decrypt_with_kas x p kas ≡ ok plaintext)
    unfolding decrypt_with_policy
    decrypt_with_policy-AccessAllowed stamp plaintext h =
        let decided = (enforce_access c sink g.pep stamp subject l read g.target).1 in
        let run : (map_err (λ e. validation (policy_error_text e)) decided >>= λ d.
        decrypt_with_kas x p kas)
            ≡ ok plaintext =
          sym (rw (decrypt_with_policy, labelled) refl) ∙ h in
        let (d, returned, opened) =
          >>=-eq-ok (map_err (λ e. validation (policy_error_text e)) decided) _ run in
        let (context, built, allowed, effective) =
          enforce_access-AccessAllowed c sink g.pep stamp subject l read g.target d
            read_not_transfer known (map_err-eq-ok _ decided d returned) in
        (context, built, allowed, opened)

    after_gate-verified :
        (audit : AuditLog sink) (stamp : Stamp) (plaintext : Bytes) (received : Text)
        → (after_gate c sink k b x z utf8_error p subject g l key audit stamp plaintext).1
          ≡ ok received
        → (verify_binding_plaintext k x p plaintext key ≡ ok tt)
          × (from_utf8 plaintext ≡ some received)
    unfolding after_gate
    after_gate-verified audit stamp plaintext received h =
        elim (Result-cases (verify_binding_plaintext k x p plaintext key)) [
          | inr (e, failed) ↦ absurd (ground (arith, h, failed))
          | inl (done, verified) ↦
              let log =
                record_transfer_audit c sink k b audit
                  (opened_record c sink k b x z utf8_error stamp subject g l plaintext)
                  g.accredited in
              let decoding : LabelResult Text =
                ok_or (from_utf8 plaintext) (cross_domain (utf8_error plaintext)) in
              let run : (log.1 >> decoding) ≡ ok received =
                sym (rw (after_gate, verified) refl) ∙ h in
              let (d, recorded, decoded) = >>=-eq-ok log.1 (λ u. decoding) run in
              (verified, ok_or-eq-ok (from_utf8 plaintext) _ received decoded)
        ]

    open_received-ReceivedBy :
        (zip : Bytes) (audit : AuditLog sink) (stamps : ℕ → Stamp) (received : Text)
        → from_zip_sealed k x z zip ≡ ok p
        → (open_received c sink k b x z utf8_error p subject g l key kas audit stamps).2
          ≡ ok received
        → ReceivedBy subject g zip key kas received
    unfolding open_received
    open_received-ReceivedBy zip audit stamps received sealed h =
        let gate = decrypt_with_policy c sink k x p subject g.pep (stamps 1) g.target kas in
        elim (Result-cases gate.1) [
          | inr (e, failed) ↦ absurd (ground (arith, h, failed))
          | inl (plaintext, opened) ↦
              let run : (after_gate c sink k b x z utf8_error p subject g l key audit (stamps 2)
                    plaintext).1
                  ≡ ok received =
                sym (rw (open_received, opened) refl) ∙ h in
              let (context, built, allowed, decrypted) =
                decrypt_with_policy-AccessAllowed (stamps 1) plaintext opened in
              let (verified, decoded) =
                after_gate-verified audit (stamps 2) plaintext received run in
              record {
                held = p;
                sealed = sealed;
                label = l;
                labelled = labelled;
                context = context;
                built = built;
                allowed = allowed;
                plaintext = plaintext;
                opened = decrypted;
                verified = verified;
                decoded = decoded;
              }
        ]

  -- A text that the target side receives is that of a sealed package: its subject may read in the
  -- guard's target domain under the label of the package's manifest, the key service opened its
  -- payload, the binding verified over what was opened, and the text is what it encodes. This is
  -- for a target domain that is registered as it stands.
  pub receive_ztdf_on_target-ReceivedBy :
      (subject : SubjectAttributes) (g : CrossDomainGuard sink) (zip : Bytes) (key : VerifyingKey)
      (kas : KasClient x) (audit : AuditLog sink) (stamps : ℕ → Stamp) (received : Text)
      → domain g.pep.store g.target.id ≡ some g.target
      → (receive_ztdf_on_target c sink k b x z utf8_error subject g zip key kas audit stamps).2
        ≡ ok received
      → ReceivedBy subject g zip key kas received
  unfolding receive_ztdf_on_target receive_labelled
  receive_ztdf_on_target-ReceivedBy subject g zip key kas audit stamps received known h =
      elim (Result-cases (from_zip_sealed k x z zip)) [
        | inr (e, failed) ↦ absurd (ground (arith, h, failed))
        | inl (p, sealed) ↦ elim (Result-cases (manifest_label x p.manifest)) [
          | inr (e, failed) ↦ absurd (ground (arith, h, sealed, failed))
          | inl (l, labelled) ↦
              let log =
                record_transfer_audit c sink k b audit
                  (receipt_record (stamps 0) subject g l cross_domain_evaluate (text "evaluate")
                    (text "target-side ZTDF decrypt PEP evaluation"))
                  g.accredited in
              elim (Result-cases log.1) [
                | inr (e, failed) ↦
                    let step : (receive_ztdf_on_target c sink k b x z utf8_error subject g zip key
                          kas audit stamps).2
                        ≡ err e =
                      rw (receive_ztdf_on_target, sealed, labelled, receive_labelled, failed)
                        refl in
                    absurd (ground (arith, h, step))
                | inl (done, recorded) ↦
                    let step : (receive_ztdf_on_target c sink k b x z utf8_error subject g zip key
                          kas audit stamps).2
                        ≡ (open_received c sink k b x z utf8_error p subject g l key kas log.0
                            stamps).2 =
                      rw (receive_ztdf_on_target, sealed, labelled, receive_labelled, recorded)
                        refl in
                    open_received-ReceivedBy subject g key kas p l labelled known zip log.0 stamps
                      received sealed (sym step ∙ h)
              ]
        ]
      ]

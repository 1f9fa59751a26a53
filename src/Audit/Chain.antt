-- ===== src/Audit/Chain.antt =====
-- crates/mim-audit/src/chain.rs: envelopes, each of which names the hash of the one before.
use ainext_gen_c.Base.{
  not, Option, none, some, [], ◌∷◌, ◌++◌, Text, text, text_eq, as_bytes, Result, ok, err, ◌>>=◌,
  ◌>>◌, fail_if, ok_or,
}
use ainext_gen_c.Crypto.Provider.{
  CryptoProvider, SigningKey, VerifyingKey, nmbs_algorithm, sha256_base64, sign_nmb_binding,
  verify_nmb_binding,
}
use ainext_gen_c.Audit.Record.{AuditRecord}

pub record AuditSignature : Type 0 where
  pub algorithm : Text
  pub key_id : Text
  pub signature : Text

pub record AuditEnvelope : Type 0 where
  pub record' : AuditRecord
  pub previous_hash : Text
  pub record_hash : Text
  pub signature : Option AuditSignature

-- The cryptographic backend and `serde_json::to_string` of a record.
pub record ChainBackend : Type 0 where
  pub provider : CryptoProvider
  pub to_json : AuditRecord → Result Text Text

-- `unwrap_or_default`
abbrev pub unwrap_or_default : Result Text Text → Text
unwrap_or_default (ok s) = s
unwrap_or_default (err e) = []

-- `b"audit-record"`
unfoldable pub audit_label : Text
audit_label = text "audit-record"

module _ (k : ChainBackend) where
  unfoldable pub hash_record : AuditRecord → Text → Text
  hash_record r previous_hash =
      let payload = unwrap_or_default (k.to_json r) in
      sha256_base64 k.provider (as_bytes (previous_hash ++ (b'|' ∷ payload)))

  -- `AuditEnvelope::seal`
  unfoldable pub seal : AuditRecord → Text → AuditEnvelope
  seal r previous_hash = record {
    record' = r;
    previous_hash = previous_hash;
    record_hash = hash_record r previous_hash;
    signature = none;
  }

  -- `AuditEnvelope::sign`
  unfoldable pub sign : AuditEnvelope → SigningKey → Result Text AuditEnvelope
  sign e key = do
    sig ← sign_nmb_binding k.provider key (as_bytes audit_label) e.record_hash
    ok (record e {
      signature =
          some (record { algorithm = nmbs_algorithm; key_id = key.key_id; signature = sig });
    })

  -- `AuditEnvelope::verify_chain`
  unfoldable pub verify_envelope : AuditEnvelope → Text → Result Text (Unit {0})
  verify_envelope e expected_previous = do
    fail_if (not (text_eq e.previous_hash expected_previous))
        (text "audit chain previous hash mismatch")
    fail_if (not (text_eq (hash_record e.record' e.previous_hash) e.record_hash))
        (text "audit record hash mismatch")
    ok tt

  -- `AuditEnvelope::verify_signature`
  unfoldable pub verify_signature : AuditEnvelope → VerifyingKey → Result Text (Unit {0})
  verify_signature e key = do
    signature ← ok_or e.signature (text "audit envelope is not signed")
    fail_if (not (text_eq signature.key_id key.key_id)) (
        text "audit signature key id mismatch: expected "
        ++ (key.key_id ++ (text ", got " ++ signature.key_id)))
    verify_nmb_binding k.provider key (as_bytes audit_label) e.record_hash signature.signature

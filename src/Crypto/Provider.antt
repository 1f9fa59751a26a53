-- ===== src/Crypto/Provider.antt =====
-- crates/mim-crypto/src/provider.rs, keys.rs and hash.rs. The backend (AWS-LC or ring) and the
-- base64 crate are parameters.
use ainext_gen_c.Base.{◌≡◌, ◌∷◌, ◌++◌, Text, text, Bytes, as_bytes, Result, ok, ◌>>=◌, ◌>>◌}

-- `CryptoError` by its message
abbrev pub CryptoResult {ℓ} : Type ℓ → Type ℓ
CryptoResult A = Result Text A

pub record SigningKey : Type 0 where
  pub key_id : Text
  pub der : Bytes

pub record VerifyingKey : Type 0 where
  pub key_id : Text
  pub der : Bytes

-- The methods of `trait CryptoProvider` that the audit chain reaches, and base64.
pub record CryptoProvider : Type 0 where
  pub hash_sha256 : Bytes → Bytes
  pub validate_verifying_key : Bytes → CryptoResult (Unit {0})
  pub public_key_from_private : Bytes → CryptoResult Bytes
  pub sign_rsa_pss_sha256 : SigningKey → Bytes → CryptoResult Bytes
  pub verify_rsa_pss_sha256 : VerifyingKey → Bytes → Bytes → CryptoResult (Unit {0})
  pub base64_encode : Bytes → Text
  pub base64_decode : Text → CryptoResult Bytes

-- What the backend documents: base64 decodes what it encoded, and the public half of a key
-- verifies what the private half signed.
pub record IsSound (p : CryptoProvider) : Type 0 where
  pub decode-encode : (b : Bytes) → p.base64_decode (p.base64_encode b) ≡ ok b
  pub verify-sign :
      (sk : SigningKey) (public : Bytes) (message signature : Bytes)
      → p.public_key_from_private sk.der ≡ ok public
      → p.sign_rsa_pss_sha256 sk message ≡ ok signature
      → p.verify_rsa_pss_sha256 (record { key_id = sk.key_id; der = public }) message signature
        ≡ ok tt

unfoldable pub nmbs_algorithm : Text
nmbs_algorithm = text "RSA-PSS-SHA256"

-- the message that a binding signs
unfoldable pub binding_message : Bytes → Text → Bytes
binding_message label_bytes payload_digest_b64 = label_bytes ++ (b'|' ∷ as_bytes payload_digest_b64)

module _ (p : CryptoProvider) where
  unfoldable pub sha256_base64 : Bytes → Text
  sha256_base64 payload = p.base64_encode (p.hash_sha256 payload)

  -- `VerifyingKey::from_spki_der`
  unfoldable pub from_spki_der : Text → Bytes → CryptoResult VerifyingKey
  from_spki_der key_id der = do
    p.validate_verifying_key der
    ok (record { key_id = key_id; der = der })

  unfoldable pub sign_nmb_binding : SigningKey → Bytes → Text → CryptoResult Text
  unfolding binding_message
  sign_nmb_binding key label_bytes payload_digest_b64 = do
    sig ← p.sign_rsa_pss_sha256 key (binding_message label_bytes payload_digest_b64)
    ok (p.base64_encode sig)

  unfoldable pub verify_nmb_binding : VerifyingKey → Bytes → Text → Text → CryptoResult (Unit {0})
  unfolding binding_message
  verify_nmb_binding key label_bytes payload_digest_b64 signature_b64 = do
    sig ← p.base64_decode signature_b64
    p.verify_rsa_pss_sha256 key (binding_message label_bytes payload_digest_b64) sig

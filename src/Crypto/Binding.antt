-- ===== src/Crypto/Binding.antt =====
-- crates/mim-crypto/src/provider.rs: a binding that was signed verifies under the key's public half.
use ainext_gen_c.Base.{◌≡◌, Text, Bytes, ok, >>=-eq-ok, arith}
use ainext_gen_c.Crypto.Provider.{
  CryptoProvider, IsSound, SigningKey, VerifyingKey, binding_message, sign_nmb_binding,
  verify_nmb_binding,
}

-- A binding that was signed verifies, over the same label and digest, under a verifying key of the
-- same id that holds the public half of the signing key, for a sound backend.
pub verify-sign_nmb_binding :
    (p : CryptoProvider) (sk : SigningKey) (vk : VerifyingKey) (label : Bytes) (digest sig : Text)
    → IsSound p
    → vk.key_id ≡ sk.key_id
    → p.public_key_from_private sk.der ≡ ok vk.der
    → sign_nmb_binding p sk label digest ≡ ok sig
    → verify_nmb_binding p vk label digest sig ≡ ok tt
unfolding sign_nmb_binding verify_nmb_binding
verify-sign_nmb_binding p sk vk label digest sig sound same public h =
    let (raw, signed, encoded) =
      >>=-eq-ok (p.sign_rsa_pss_sha256 sk (binding_message label digest)) _ h in
    let verified = sound.verify-sign sk vk.der (binding_message label digest) raw public signed in
    let key : vk ≡ record { key_id = sk.key_id; der = vk.der } = ground (arith, same) in
    rw key (ground (arith, encoded, verified, sound.decode-encode raw))

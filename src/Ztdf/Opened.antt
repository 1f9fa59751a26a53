-- ===== src/Ztdf/Opened.antt =====
-- crates/mim-ztdf/src/package.rs: a package opens to the payload that it was created with.
use ainext_gen_c.Base.{
  ◌≡◌, refl, sym, subst, ap, some, Text, Bytes, length, ok, >>=-eq-ok, ok_injective, map_err,
  map_err-eq-ok,
}
use ainext_gen_c.Label.Error.{binding}
use ainext_gen_c.Label.Confidentiality.{ConfidentialityLabel, validate}
use ainext_gen_c.Crypto.Provider.{CryptoProvider, SigningKey, VerifyingKey}
use ainext_gen_c.Crypto.Symmetric.{AesGcmCiphertext, from_bytes-to_bytes}
use ainext_gen_c.Stanag.Binding.{BindingBackend}
use ainext_gen_c.Stanag.DataObject.{assertion_bound, verify_bdo}
use ainext_gen_c.Ztdf.Manifest.{
  ContentBackend, ZtdfManifest, for_mim_payload, encryption_of, ztdf_assertion, default_policy_b64,
  validate_manifest, local_kas,
}
use ainext_gen_c.Ztdf.Package.{
  ZtdfPackage, Drawn, payload_data, create_package, decrypt_with_kas, decrypt,
}

-- What the backends document: base64 decodes what it encoded, the private half of a key unwraps what
-- the public half wrapped, decryption returns what was encrypted, and a ciphertext has an
-- initialisation vector of 12 bytes and a tag of 16.
pub record IsSoundContent (x : ContentBackend) (p : CryptoProvider) : Type 0 where
  pub decode-encode : (b : Bytes) → x.base64_decode (x.base64_encode b) ≡ ok b
  pub unwrap-wrap :
      (sk : SigningKey) (vk : VerifyingKey) (key wrapped : Bytes)
      → p.public_key_from_private sk.der ≡ ok vk.der
      → x.wrap_key_rsa_oaep_sha256 vk key ≡ ok wrapped
      → x.unwrap_key_rsa_oaep_sha256 sk wrapped ≡ ok key
  pub decrypt-encrypt :
      (iv key plaintext aad : Bytes) (c : AesGcmCiphertext)
      → x.encrypt_aes256_gcm iv key plaintext aad ≡ ok c
      → x.decrypt_aes256_gcm key c aad ≡ ok plaintext
  pub encrypt-sizes :
      (iv key plaintext aad : Bytes) (c : AesGcmCiphertext)
      → x.encrypt_aes256_gcm iv key plaintext aad ≡ ok c
      → (length c.iv ≡ 12) × (length c.tag ≡ 16)

module _ (k : BindingBackend) (x : ContentBackend) where
  -- the manifest of a payload holds the wrapped content key
  for_mim_payload-wrapped :
      (l : ConfidentialityLabel) (plaintext : Bytes) (encrypted : AesGcmCiphertext)
      (content_key : Bytes) (key : SigningKey) (kas : VerifyingKey) (policy : Text)
      (m : ZtdfManifest x)
      → for_mim_payload k x l plaintext encrypted content_key key kas policy ≡ ok m
      → (wrapped : Bytes) × (x.wrap_key_rsa_oaep_sha256 kas content_key ≡ ok wrapped)
        × (m.encryption_information.key_wrap.wrapped_key ≡ x.base64_encode wrapped)
  unfolding for_mim_payload encryption_of
  for_mim_payload-wrapped l plaintext encrypted content_key key kas policy m h =
      let (wrapped, run, h1) =
        >>=-eq-ok (map_err binding (x.wrap_key_rsa_oaep_sha256 kas content_key)) _ h in
      let (a, made, h2) = >>=-eq-ok (ztdf_assertion k x l plaintext key) _ h1 in
      (
        wrapped,
        map_err-eq-ok binding _ wrapped run,
        sym (
            ap (λ (n : ZtdfManifest x). n.encryption_information.key_wrap.wrapped_key)
              (ok_injective _ m _ refl h2)),
      )

  -- A package that was created opens, with the private half of the key that its content key was
  -- wrapped under, to the payload that it was created with, over sound backends.
  pub create_package-decrypt :
      (sound : IsSoundContent x k.provider) (drawn : Drawn) (l : ConfidentialityLabel)
      (plaintext : Bytes) (key : SigningKey) (verifying_key kas : VerifyingKey)
      (private : SigningKey) (p : ZtdfPackage x)
      → k.provider.public_key_from_private private.der ≡ ok kas.der
      → create_package k x drawn l plaintext key verifying_key kas ≡ ok p
      → decrypt x p private ≡ ok plaintext
  unfolding create_package decrypt decrypt_with_kas local_kas
  create_package-decrypt sound drawn l plaintext key verifying_key kas private p public h =
      let (d1, valid, h1) = >>=-eq-ok (validate l) _ h in
      let (content_key, generated, h2) = >>=-eq-ok (map_err binding drawn.content_key) _ h1 in
      let (encrypted, ran, h3) =
        >>=-eq-ok
          (map_err binding (x.encrypt_aes256_gcm drawn.iv content_key plaintext payload_data)) _
          h2 in
      let (manifest, made, h4) =
        >>=-eq-ok
          (for_mim_payload k x l plaintext encrypted content_key key kas (default_policy_b64 x)) _
          h3 in
      let (d2, checked, h5) = >>=-eq-ok (validate_manifest x manifest) _ h4 in
      let (b, bound, h6) = >>=-eq-ok (assertion_bound k l plaintext key) _ h5 in
      let (d3, verified, h7) = >>=-eq-ok (verify_bdo k b plaintext (some verifying_key)) _ h6 in
      let encrypts = map_err-eq-ok binding _ encrypted ran in
      let (wrapped, wraps, held) =
        for_mim_payload-wrapped l plaintext encrypted content_key key kas (default_policy_b64 x)
          manifest made in
      let (front, back) =
        sound.encrypt-sizes drawn.iv content_key plaintext payload_data encrypted encrypts in
      subst (λ q. decrypt x q private ≡ ok plaintext) (ok_injective _ p _ refl h7)
        (rw
          (
            held,
            sound.decode-encode wrapped,
            sound.unwrap-wrap private kas content_key wrapped public wraps,
            from_bytes-to_bytes encrypted front back,
            sound.decrypt-encrypt drawn.iv content_key plaintext payload_data encrypted encrypts,
          )
          refl)

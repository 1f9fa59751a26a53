-- ===== src/Crypto/Symmetric.antt =====
-- crates/mim-crypto/src/symmetric.rs: AES-256-GCM ciphertexts. A `ContentEncryptionKey` is its bytes.
use ainext_gen_c.Base.{
  ℕ, ◌≡◌, false, refl, sym, ap, ◌∙◌, ◌++◌, ◌-◌, ◌+◌, append_assoc, text, Bytes, length, take, drop,
  ltb, ok, ◌>>◌, fail_if, arith, length-append, take-append, drop-append,
}
use ainext_gen_c.Crypto.Provider.{CryptoResult}

pub record AesGcmCiphertext : Type 0 where
  pub iv : Bytes
  pub ciphertext : Bytes
  pub tag : Bytes

-- `AesGcmCiphertext::to_bytes`
unfoldable pub to_bytes : AesGcmCiphertext → Bytes
to_bytes c = c.iv ++ (c.ciphertext ++ c.tag)

-- the parts of the bytes of a ciphertext, whose tag starts at the given place
abbrev pub parts_of : Bytes → ℕ → AesGcmCiphertext
parts_of bytes tag_start = record {
  iv = take 12 bytes;
  ciphertext = drop 12 (take tag_start bytes);
  tag = drop tag_start bytes;
}

-- `AesGcmCiphertext::from_bytes`
unfoldable pub from_bytes : Bytes → CryptoResult AesGcmCiphertext
from_bytes bytes = do
  fail_if (ltb (length bytes) 28)
      (text "cryptographic operation failed: ciphertext too short for AES-256-GCM")
  ok (parts_of bytes (length bytes - 16))

-- A ciphertext of 12 bytes of initialisation vector and 16 of tag is read back from its bytes.
pub from_bytes-to_bytes :
    (c : AesGcmCiphertext) → length c.iv ≡ 12 → length c.tag ≡ 16 → from_bytes (to_bytes c) ≡ ok c
unfolding from_bytes to_bytes
from_bytes-to_bytes c front back =
    let data' = c.iv ++ (c.ciphertext ++ c.tag) in
    let n = length (c.iv ++ c.ciphertext) in
    let grouped : data' ≡ (c.iv ++ c.ciphertext) ++ c.tag =
      sym (append_assoc c.iv c.ciphertext c.tag) in
    let total : length data' ≡ n + 16 =
      rw grouped (length-append (c.iv ++ c.ciphertext) c.tag ∙ ap (λ k. n + k) back) in
    let size : n ≡ 12 + length c.ciphertext =
      length-append c.iv c.ciphertext ∙ ap (λ k. k + length c.ciphertext) front in
    let place : length data' - 16 ≡ n = omega (arith, total) in
    let long : ltb (length data') 28 ≡ false = ground (arith, total, size) in
    let start : take 12 data' ≡ c.iv = take-append 12 c.iv _ front in
    let middle : drop 12 (take n data') ≡ c.ciphertext =
      rw (grouped, take-append n (c.iv ++ c.ciphertext) c.tag refl)
        (drop-append 12 c.iv c.ciphertext front) in
    let end : drop n data' ≡ c.tag = rw grouped (drop-append n (c.iv ++ c.ciphertext) c.tag refl) in
    rw (long, place, start, middle, end) refl

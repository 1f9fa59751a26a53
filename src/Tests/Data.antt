-- ===== src/Tests/Data.antt =====
-- Concrete domains, rules, subjects and labels, and a backend that computes.
use ainext_gen_c.Base.{
  refl, not, true, none, some, [], ◌∷◌, ◌++◌, text, text_eq, text_eq_refl, ok, fail_if,
  ok_injective, length,
}
use ainext_gen_c.Label.Classification.{restricted, secret}
use ainext_gen_c.Label.Domain.{SecurityDomain}
use ainext_gen_c.Label.Policy.{nato}
use ainext_gen_c.Label.Confidentiality.{
  ConfidentialityLabel, new_label, with_category, releasable_to,
}
use ainext_gen_c.Crypto.Provider.{CryptoProvider, IsSound, SigningKey}
use ainext_gen_c.Audit.Record.{Stamp}
use ainext_gen_c.Audit.Chain.{ChainBackend}
use ainext_gen_c.Policy.Context.{SubjectAttributes}
use ainext_gen_c.Policy.Store.{CrossDomainPolicy, PolicyStore}

abbrev pub high : SecurityDomain
high = record {
  id = text "HIGH";
  name = text "High Side";
  max_classification = secret;
  releasable_to = [];
  accepted_nationalities = [];
  mission_compartments = [];
}

abbrev pub low : SecurityDomain
low = record high {
  id = text "LOW";
  max_classification = restricted;
  releasable_to = text "USA" ∷ text "GBR" ∷ [];
}

abbrev pub high_to_low : CrossDomainPolicy
high_to_low = record {
  id = text "high-to-low";
  description = [];
  source_domain = text "HIGH";
  target_domain = text "LOW";
  allow_downgrade = true;
}

abbrev pub two_domains : PolicyStore
two_domains = record {
  domains = (text "HIGH", high) ∷ (text "LOW", low) ∷ [];
  cross_domain_policies = high_to_low ∷ [];
  spif_policies = [];
  downgrade = record { intersect_releasability = true; strip_non_target_categories = true };
}

abbrev pub analyst : SubjectAttributes
analyst = record {
  subject_id = text "analyst";
  clearance = secret;
  nationality = some (text "USA");
  handling_caveats = [];
  mission_id = none;
}

-- SECRET, releasable to two countries
abbrev pub secret_label : ConfidentialityLabel
secret_label = with_category (new_label nato secret) (releasable_to (text "USA" ∷ text "GBR" ∷ []))

abbrev pub stamp : Stamp
stamp = record { id = text "1"; timestamp = 0 }

-- A provider of transparent signatures: a signature is the key and the message.
abbrev pub transparent : CryptoProvider
transparent = record {
  hash_sha256 = λ b. length b ∷ [];
  validate_verifying_key = λ der. ok tt;
  public_key_from_private = λ der. ok der;
  sign_rsa_pss_sha256 = λ sk message. ok (sk.der ++ message);
  verify_rsa_pss_sha256 = λ vk message signature.
      fail_if (not (text_eq (vk.der ++ message) signature)) (text "bad signature");
  base64_encode = λ b. b;
  base64_decode = λ s. ok s;
}

pub transparent-IsSound : IsSound transparent
transparent-IsSound = record {
  decode-encode = λ b. refl;
  verify-sign = λ sk public message signature known signed.
      rw
        (
          ← ok_injective sk.der public _ refl known,
          ← ok_injective (sk.der ++ message) signature _ refl signed,
          text_eq_refl (sk.der ++ message),
        )
        refl;
}

abbrev pub backend : ChainBackend
backend = record { provider = transparent; to_json = λ r. ok (r.id ++ r.decision) }

abbrev pub signing_key : SigningKey
signing_key = record { key_id = text "k1"; der = 7 ∷ [] }

-- ===== src/Spif/Presets.antt =====
-- crates/mim-spif/src/policy.rs: the policies that the registry starts with.
use ainext_gen_c.Base.{[], ◌∷◌, none, some, text}
use ainext_gen_c.Policy.Spif.{SpifPolicy, restrictive, permissive}

-- `SpifPolicy::acme`
unfoldable pub acme : SpifPolicy
acme = record {
  policy_id = text "ACME";
  policy_oid = none;
  version_info = none;
  allowed_classifications = text "PUBLIC" ∷ text "INTERNAL" ∷ text "CONFIDENTIAL" ∷ [];
  categories =
      (record {
        name = text "Sensitive";
        category_type = restrictive;
        allowed_values = text "RED" ∷ text "AMBER" ∷ text "GREEN" ∷ [];
      })
      ∷ (record {
        name = text "Releasable To";
        category_type = permissive;
        allowed_values = text "MOCK" ∷ text "PHONY" ∷ text "ACME" ∷ [];
      })
      ∷ [];
  validations =
      (record {
        classification = text "CONFIDENTIAL";
        category_name = text "Releasable To";
        required_any_of = text "MOCK" ∷ text "PHONY" ∷ [];
      })
      ∷ [];
}

-- `SpifPolicy::nato`
unfoldable pub nato_spif : SpifPolicy
nato_spif = record {
  policy_id = text "NATO";
  policy_oid = some (text "urn:oid:2.16.840.1.101.2.3.6.1.31778.102.25");
  version_info = none;
  allowed_classifications =
      text "UNCLASSIFIED"
      ∷ text "NATO UNCLASSIFIED"
      ∷ text "RESTRICTED"
      ∷ text "NATO RESTRICTED"
      ∷ text "CONFIDENTIAL"
      ∷ text "NATO CONFIDENTIAL"
      ∷ text "NATO/EAPC CONFIDENTIAL"
      ∷ text "NATO/KFOR CONFIDENTIAL"
      ∷ text "SECRET"
      ∷ text "NATO SECRET"
      ∷ text "COSMIC TOP SECRET"
      ∷ [];
  categories =
      (record {
        name = text "Releasable to";
        category_type = permissive;
        allowed_values = text "USA" ∷ text "GBR" ∷ text "DEU" ∷ text "FRA" ∷ [];
      })
      ∷ [];
  validations = [];
}

-- `SpifPolicy::capco_us`
unfoldable pub capco_us_spif : SpifPolicy
capco_us_spif = record {
  policy_id = text "US";
  policy_oid = some (text "2.16.840.1.101.2.3.48.2.1");
  version_info = none;
  allowed_classifications =
      text "UNCLASSIFIED" ∷ text "CONFIDENTIAL" ∷ text "SECRET" ∷ text "TOP SECRET" ∷ [];
  categories =
      (record {
        name = text "SCI";
        category_type = restrictive;
        allowed_values = text "SI" ∷ text "TK" ∷ text "HCS" ∷ [];
      })
      ∷ (record {
        name = text "Releasable To";
        category_type = permissive;
        allowed_values = text "USA" ∷ text "FVEY" ∷ text "NATO" ∷ [];
      })
      ∷ [];
  validations =
      (record {
        classification = text "TOP SECRET";
        category_name = text "SCI";
        required_any_of = text "SI" ∷ text "TK" ∷ [];
      })
      ∷ [];
}

-- `SpifPolicy::uk_demo`
unfoldable pub uk_demo_spif : SpifPolicy
uk_demo_spif = record {
  policy_id = text "DEMO-UK";
  policy_oid = some (text "1.2.826.0.1.6726289.0.2");
  version_info = none;
  allowed_classifications =
      text "OFFICIAL" ∷ text "OFFICIAL-SENSITIVE" ∷ text "SECRET" ∷ text "TOP SECRET" ∷ [];
  categories =
      (record {
        name = text "Handling";
        category_type = restrictive;
        allowed_values = text "LOCSEN" ∷ text "UK EYES ONLY" ∷ [];
      })
      ∷ (record {
        name = text "Releasable To";
        category_type = permissive;
        allowed_values = text "UK" ∷ text "NATO" ∷ text "EU" ∷ [];
      })
      ∷ [];
  validations =
      (record {
        classification = text "SECRET";
        category_name = text "Handling";
        required_any_of = text "LOCSEN" ∷ [];
      })
      ∷ [];
}

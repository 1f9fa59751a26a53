-- ===== src/Spif/Registry.antt =====
-- crates/mim-spif/src/registry.rs: the policies by their identifiers. `HashMap` is a map here, whose
-- order nothing reads.
use ainext_gen_c.Base.{
  [], Option, Text, text, Map, get, put, is_empty, Result, ok, err, ◌>>◌, fail_if,
}
use ainext_gen_c.Label.Confidentiality.{ConfidentialityLabel}
use ainext_gen_c.Policy.Spif.{SpifPolicy}
use ainext_gen_c.Spif.Presets.{acme, nato_spif, capco_us_spif, uk_demo_spif}

-- `SpifRegistry { policies }`
abbrev pub SpifRegistry : Type 0
SpifRegistry = Map SpifPolicy

-- `SpifRegistry::register`
unfoldable pub register : SpifRegistry → SpifPolicy → Result Text SpifRegistry
register r p = do
  fail_if (is_empty p.policy_id) (text "SPIF policy identifier is empty")
  ok (put p.policy_id p r)

-- `expect` on a registration, which none of the defaults fails
abbrev pub registered_or : SpifRegistry → Result Text SpifRegistry → SpifRegistry
registered_or r (ok r') = r'
registered_or r (err e) = r

-- `SpifRegistry::with_defaults`
unfoldable pub spif_defaults : SpifRegistry
unfolding register
spif_defaults =
    let r1 = registered_or [] (register [] nato_spif) in
    let r2 = registered_or r1 (register r1 acme) in
    let r3 = registered_or r2 (register r2 capco_us_spif) in
    registered_or r3 (register r3 uk_demo_spif)

-- `SpifRegistry::policy_for_label`
unfoldable pub policy_for_label : SpifRegistry → ConfidentialityLabel → Option SpifPolicy
policy_for_label r l = get l.policy.identifier r

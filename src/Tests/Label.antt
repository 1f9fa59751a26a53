-- ===== src/Tests/Label.antt =====
-- Labels on concrete texts.
use ainext_gen_c.Base.{ℕ, ◌≡◌, ◌↔◌, refl, true, [], ◌∷◌, Text, text, All, ok, eq_ignore_ascii_case}
use ainext_gen_c.Label.Confidentiality.{ConfidentialityLabel, validate, releasable_countries}
use ainext_gen_c.Label.Security.{from_mim_security, to_mim_security}
use ainext_gen_c.Label.Validity.{IsValidLabel, validate_iff}
use ainext_gen_c.Label.Bridge.{IsCountry, IsBridged, from_mim_security-to_mim_security}
use ainext_gen_c.Tests.Data.{secret_label}

validate_iff_example : (validate secret_label ≡ ok tt) ↔ IsValidLabel secret_label
validate_iff_example = validate_iff secret_label

-- tables in which no character outside ASCII has an upper-case form
abbrev same_case : ℕ → Text
same_case c = c ∷ []

usa-IsCountry : IsCountry same_case (text "USA")
unfolding text ainext_gen_c.Label.Security.is_separator ainext_gen_c.Base.to_uppercase
    ainext_gen_c.Base.ascii_upper
usa-IsCountry = record { filled = refl; word = (refl, (refl, (refl, tt))); upper_case = refl }

gbr-IsCountry : IsCountry same_case (text "GBR")
unfolding text ainext_gen_c.Label.Security.is_separator ainext_gen_c.Base.to_uppercase
    ainext_gen_c.Base.ascii_upper
gbr-IsCountry = record { filled = refl; word = (refl, (refl, (refl, tt))); upper_case = refl }

label_countries : All (IsCountry same_case) (releasable_countries secret_label)
unfolding releasable_countries ainext_gen_c.Label.Confidentiality.with_category
    ainext_gen_c.Label.Confidentiality.new_label eq_ignore_ascii_case
    ainext_gen_c.Label.Confidentiality.releasable_to text
label_countries = (usa-IsCountry, (gbr-IsCountry, tt))

from_mim_security-to_mim_security_example :
    (m : ConfidentialityLabel) × (from_mim_security same_case (to_mim_security secret_label) ≡ ok m)
    × IsBridged secret_label m
from_mim_security-to_mim_security_example =
    from_mim_security-to_mim_security same_case secret_label label_countries

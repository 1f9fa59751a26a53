-- ===== src/Policy/Spif.antt =====
-- crates/mim-spif/src/policy.rs: the SPIF policies that the store holds.
use ainext_gen_c.Base.{List, Option, Text}

pub record SpifVersionInfo : Type 0 where
  pub spif_version : Option Text
  pub issuing_authority : Option Text

pub data SpifCategoryType : Type 0 where
  restrictive permissive informative : SpifCategoryType

pub record SpifCategory : Type 0 where
  pub name : Text
  pub category_type : SpifCategoryType
  pub allowed_values : List Text

pub record SpifValidation : Type 0 where
  pub classification : Text
  pub category_name : Text
  pub required_any_of : List Text

pub record SpifPolicy : Type 0 where
  pub policy_id : Text
  pub policy_oid : Option Text
  pub version_info : Option SpifVersionInfo
  pub allowed_classifications : List Text
  pub categories : List SpifCategory
  pub validations : List SpifValidation

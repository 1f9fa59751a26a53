-- ===== src/Model/Metadata.antt =====
-- crates/mim-model/src/metadata.rs: the metadata of an object or an action.
use ainext_gen_c.Base.{ℕ, Text}
use ainext_gen_c.Core.Nillable.{Nillable}

-- An instant of the `chrono` crate, which the program stores and never computes with.
abbrev pub DateTime : Type 0
DateTime = ℕ

pub record Reporter : Type 0 where
  pub name : Nillable Text
  pub role : Nillable Text
  pub organisation : Nillable Text

pub record Observer : Type 0 where
  pub name : Nillable Text
  pub role : Nillable Text

pub record OperationalAppraisal : Type 0 where
  pub confidence : Nillable Text
  pub credibility : Nillable Text
  pub reliability : Nillable Text

pub record ValidityPeriod : Type 0 where
  pub start : Nillable DateTime
  pub end : Nillable DateTime

pub record SecurityClassification : Type 0 where
  pub policy : Nillable Text
  pub classification : Nillable Text
  pub releasability : Nillable Text

pub record Metadata : Type 0 where
  pub reporter : Reporter
  pub observer : Observer
  pub appraisal : OperationalAppraisal
  pub validity : ValidityPeriod
  pub security : SecurityClassification

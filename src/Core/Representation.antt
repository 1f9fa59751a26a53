-- ===== src/Core/Representation.antt =====
-- crates/mim-core/src/representation.rs: the representation terms of the attributes.
use ainext_gen_c.Base.{Bool, true, false, Option, Text, text, text_eq, ok, err, if◌then◌else◌}
use ainext_gen_c.Core.Error.{MimResult, invalid_representation_term}

pub data RepresentationTerm : Type 0 where
  identifier name_term text_term indicator speed dimension duration quantity amount percent measure
        date time date_time graphic sound video value_term code_term ratio numeric :
      RepresentationTerm

-- `RepresentationTerm::as_str`
unfoldable pub representation_str : RepresentationTerm → Text
representation_str identifier = text "identifier"
representation_str name_term = text "name"
representation_str text_term = text "text"
representation_str indicator = text "indicator"
representation_str speed = text "speed"
representation_str dimension = text "dimension"
representation_str duration = text "duration"
representation_str quantity = text "quantity"
representation_str amount = text "amount"
representation_str percent = text "percent"
representation_str measure = text "measure"
representation_str date = text "date"
representation_str time = text "time"
representation_str date_time = text "dateTime"
representation_str graphic = text "graphic"
representation_str sound = text "sound"
representation_str video = text "video"
representation_str value_term = text "value"
representation_str code_term = text "code"
representation_str ratio = text "ratio"
representation_str numeric = text "numeric"

-- `RepresentationTerm::from_str`
unfoldable pub representation_from_str : Text → MimResult RepresentationTerm
representation_from_str s =
    if text_eq s (text "identifier")
    then ok identifier
    else if text_eq s (text "name")
    then ok name_term
    else if text_eq s (text "text")
    then ok text_term
    else if text_eq s (text "indicator")
    then ok indicator
    else if text_eq s (text "speed")
    then ok speed
    else if text_eq s (text "dimension")
    then ok dimension
    else if text_eq s (text "duration")
    then ok duration
    else if text_eq s (text "quantity")
    then ok quantity
    else if text_eq s (text "amount")
    then ok amount
    else if text_eq s (text "percent")
    then ok percent
    else if text_eq s (text "measure")
    then ok measure
    else if text_eq s (text "date")
    then ok date
    else if text_eq s (text "time")
    then ok time
    else if text_eq s (text "dateTime")
    then ok date_time
    else if text_eq s (text "datetime")
    then ok date_time
    else if text_eq s (text "graphic")
    then ok graphic
    else if text_eq s (text "sound")
    then ok sound
    else if text_eq s (text "video")
    then ok video
    else if text_eq s (text "value")
    then ok value_term
    else if text_eq s (text "code")
    then ok code_term
    else if text_eq s (text "ratio")
    then ok ratio
    else if text_eq s (text "numeric")
    then ok numeric
    else err (invalid_representation_term s)

-- `term != Some(RepresentationTerm::Code)`, negated
abbrev pub is_code : Option RepresentationTerm → Bool
is_code (Option.some code_term) = true
is_code _ = false

-- `RepresentationMetadata`
pub record RepresentationMetadata : Type 0 where
  pub unit_of_measure : Option Text
  pub minimum_value : Option Text
  pub maximum_value : Option Text
  pub identifier_scheme : Option Text
  pub pattern : Option Text

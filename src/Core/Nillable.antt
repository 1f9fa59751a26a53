-- ===== src/Core/Nillable.antt =====
-- crates/mim-core/src/nil_reason.rs: a MIM property that is present, nil with a reason, or absent.
use ainext_gen_c.Base.{Bool, true, false, Option, none, some, Text, text, text_eq, if◌then◌else◌}

pub data NilReason : Type 0 where
  inapplicable missing unknown withheld unknown_sender pending : NilReason

-- `NilReason::as_str`
unfoldable pub nil_reason_str : NilReason → Text
nil_reason_str inapplicable = text "inapplicable"
nil_reason_str missing = text "missing"
nil_reason_str unknown = text "unknown"
nil_reason_str withheld = text "withheld"
nil_reason_str unknown_sender = text "unknownSender"
nil_reason_str pending = text "pending"

-- `NilReason::from_str`; its error carries the text that it was given
unfoldable pub nil_reason_from_str : Text → Option NilReason
nil_reason_from_str s =
    if text_eq s (text "inapplicable")
    then some inapplicable
    else if text_eq s (text "missing")
    then some missing
    else if text_eq s (text "unknown")
    then some unknown
    else if text_eq s (text "withheld")
    then some withheld
    else if text_eq s (text "unknownSender")
    then some unknown_sender
    else if text_eq s (text "unknown_sender")
    then some unknown_sender
    else if text_eq s (text "pending")
    then some pending
    else none

pub data Nillable {ℓ} (A : Type ℓ) : Type ℓ where
  value : A → Nillable A
  nil : NilReason → Nillable A
  absent : Nillable A

-- `Nillable::is_present`
abbrev pub is_present {ℓ} : {A : Type ℓ} → Nillable A → Bool
is_present (value a) = true
is_present (nil r) = false
is_present absent = false

-- `Nillable::as_option`
abbrev pub as_option {ℓ} : {A : Type ℓ} → Nillable A → Option A
as_option (value a) = some a
as_option (nil r) = none
as_option absent = none

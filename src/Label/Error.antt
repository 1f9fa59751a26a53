-- ===== src/Label/Error.antt =====
-- crates/mim-labeling/src/error.rs
use ainext_gen_c.Base.{Text, text, ◌++◌, Result}

pub data LabelError : Type 0 where
  invalid_classification invalid_policy invalid_domain validation parse_error serialization binding
        cross_domain compliance :
      Text → LabelError

abbrev pub LabelResult {ℓ} : Type ℓ → Type ℓ
LabelResult A = Result LabelError A

-- `LabelError::to_string`, from the `#[error]` attributes
unfoldable pub label_error_text : LabelError → Text
label_error_text (invalid_classification m) = text "invalid classification: " ++ m
label_error_text (invalid_policy m) = text "invalid policy: " ++ m
label_error_text (invalid_domain m) = text "invalid domain: " ++ m
label_error_text (validation m) = text "label validation error: " ++ m
label_error_text (parse_error m) = text "parse error: " ++ m
label_error_text (serialization m) = text "serialization error: " ++ m
label_error_text (binding m) = text "binding error: " ++ m
label_error_text (cross_domain m) = text "cross-domain policy violation: " ++ m
label_error_text (compliance m) = text "compliance error: " ++ m

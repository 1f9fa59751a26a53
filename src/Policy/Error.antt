-- ===== src/Policy/Error.antt =====
-- crates/mim-policy/src/error.rs
use ainext_gen_c.Base.{Text, text, ◌++◌, Result}
use ainext_gen_c.Label.Error.{
  LabelError, validation as label_validation, invalid_domain, invalid_policy, cross_domain,
  label_error_text,
}

pub data PolicyError : Type 0 where
  denied not_found invalid validation serialization : Text → PolicyError

abbrev pub PolicyResult {ℓ} : Type ℓ → Type ℓ
PolicyResult A = Result PolicyError A

-- `impl From<LabelError> for PolicyError`
unfoldable pub from_label_error : LabelError → PolicyError
from_label_error (label_validation m) = validation m
from_label_error (invalid_domain m) = invalid m
from_label_error (cross_domain m) = denied m
from_label_error other = validation (label_error_text other)

-- `PolicyError::to_string`, from the `#[error]` attributes
unfoldable pub policy_error_text : PolicyError → Text
policy_error_text (denied m) = text "access denied: " ++ m
policy_error_text (not_found m) = text "policy not found: " ++ m
policy_error_text (invalid m) = text "invalid policy: " ++ m
policy_error_text (validation m) = text "validation error: " ++ m
policy_error_text (serialization m) = text "serialization error: " ++ m

-- `impl From<PolicyError> for LabelError`
unfoldable pub to_label_error : PolicyError → LabelError
unfolding policy_error_text
to_label_error (denied m) = cross_domain m
to_label_error (validation m) = label_validation m
to_label_error (invalid m) = invalid_policy m
to_label_error other = label_validation (policy_error_text other)

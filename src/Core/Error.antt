-- ===== src/Core/Error.antt =====
-- crates/mim-core/src/error.rs: the errors of the operations on the information model.
use ainext_gen_c.Base.{Text, Result}

pub data MimError : Type 0 where
  invalid_semantic_id invalid_uri invalid_representation_term invalid_nil_reason parse_error
        validation_error model_error serialization_error compliance_error mim_not_found io_error :
      Text → MimError

abbrev pub MimResult {ℓ} : Type ℓ → Type ℓ
MimResult A = Result MimError A

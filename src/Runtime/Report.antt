-- ===== src/Runtime/Report.antt =====
-- crates/mim-runtime/src/validate.rs: the report that a validation returns.
use ainext_gen_c.Base.{
  ℕ, Bool, true, false, not, ◌≡◌, ◌↔◌, refl, List, [], ◌∷◌, ◌++◌, Option, Text, any, retain, length,
  arith, Bool-cases, inl, inr,
}

pub data ValidationSeverity : Type 0 where
  error warning : ValidationSeverity

-- `issue.severity == ValidationSeverity::Error`
abbrev pub is_error : ValidationSeverity → Bool
is_error error = true
is_error warning = false

pub record ValidationIssue : Type 0 where
  pub severity : ValidationSeverity
  pub instance_oid : Option Text
  pub property : Option Text
  pub message : Text

-- `ValidationReport { issues }`
abbrev pub ValidationReport : Type 0
ValidationReport = List ValidationIssue

-- `ValidationReport::is_valid`
unfoldable pub is_valid : ValidationReport → Bool
is_valid report = not (any (λ (i : ValidationIssue). is_error i.severity) report)

-- `ValidationReport::error_count`
unfoldable pub error_count : ValidationReport → ℕ
error_count report = length (retain (λ (i : ValidationIssue). is_error i.severity) report)

-- `ValidationReport::push_error`
unfoldable pub push_error : ValidationReport → Option Text → Option Text → Text → ValidationReport
push_error report oid property message =
    report
    ++ (record { severity = error; instance_oid = oid; property = property; message = message })
      ∷ []

-- A report is valid exactly when it counts no errors.
pub is_valid-error_count : (r : ValidationReport) → (is_valid r ≡ true) ↔ (error_count r ≡ 0)
unfolding is_valid error_count any retain
is_valid-error_count [] = (λ h. refl, λ h. refl)
is_valid-error_count (i ∷ r) = elim (Bool-cases (is_error i.severity)) [
  | inl h ↦ rw h (λ e. ground arith, λ e. ground arith)
  | inr h ↦ rw h (is_valid-error_count r)
]

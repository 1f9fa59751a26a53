-- ===== src/Policy/Pip.antt =====
-- crates/mim-policy/src/pip.rs: the policy information point.
use ainext_gen_c.Base.{
  ℕ, true, false, List, Option, Text, text, text_eq, ◌++◌, find, ok, ◌>>◌, fail_if, ok_or, map_err,
  or_else,
}
use ainext_gen_c.Core.Nillable.{is_present}
use ainext_gen_c.Model.Metadata.{SecurityClassification}
use ainext_gen_c.Label.Classification.{unclassified}
use ainext_gen_c.Label.Policy.{nato}
use ainext_gen_c.Label.Domain.{DomainId, SecurityDomain}
use ainext_gen_c.Label.Confidentiality.{ConfidentialityLabel, new_label, validate}
use ainext_gen_c.Label.Security.{from_mim_security}
use ainext_gen_c.Policy.Error.{PolicyResult, not_found, invalid, from_label_error}
use ainext_gen_c.Policy.Context.{
  AccessOperation, SubjectAttributes, PolicyContext, from_label, local, cross_domain,
}

unfoldable pub access_context :
    SubjectAttributes
    → ConfidentialityLabel
    → AccessOperation
    → SecurityDomain
    → PolicyResult PolicyContext
access_context subject label operation d = do
  map_err from_label_error (validate label)
  ok (record {
    subject = subject;
    resource = from_label label;
    environment = local operation d.id;
    label = label;
  })

unfoldable pub cross_domain_context :
    SubjectAttributes
    → ConfidentialityLabel
    → SecurityDomain
    → SecurityDomain
    → Option Text
    → PolicyResult PolicyContext
cross_domain_context subject label source target mission_id = do
  map_err from_label_error (validate label)
  fail_if (text_eq source.id target.id)
      (invalid (text "source and target domains must differ for cross-domain transfer"))
  ok (record {
    subject = subject;
    resource = from_label label;
    environment = cross_domain source.id target.id (or_else mission_id subject.mission_id);
    label = label;
  })

-- `label_from_security`; `upper` are the tables of `str::to_uppercase`
unfoldable pub label_from_security :
    (ℕ → Text) → SecurityClassification → PolicyResult ConfidentialityLabel
label_from_security upper security = elim (is_present security.classification) [
  | true ↦ map_err from_label_error (from_mim_security upper security)
  | false ↦ ok (new_label nato unclassified)
]

unfoldable pub resolve_domain : List SecurityDomain → DomainId → PolicyResult SecurityDomain
resolve_domain domains id =
    ok_or (find (λ d. text_eq d.id id) domains)
      (not_found (text "domain '" ++ (id ++ text "' not registered")))

-- ===== src/Policy/Pep.antt =====
-- crates/mim-policy/src/pep.rs: the policy enforcement point. The audit log is shared behind an
-- `Arc`, so a method on `&self` returns the enforcement point with the log that it left.
use ainext_gen_c.Base.{Bool, true, false, Option, none, some, Text, text, ok, err, ◌>>=◌}
use ainext_gen_c.Label.Domain.{SecurityDomain}
use ainext_gen_c.Label.Confidentiality.{ConfidentialityLabel}
use ainext_gen_c.Audit.Record.{
  AuditRecord, transport_access, cross_domain_evaluate, Stamp, new_record, with_domains,
  with_effective_label,
}
use ainext_gen_c.Audit.Chain.{ChainBackend}
use ainext_gen_c.Audit.Log.{AuditSink, AuditLog, record_event}
use ainext_gen_c.Policy.Error.{PolicyResult, denied}
use ainext_gen_c.Policy.Context.{AccessOperation, SubjectAttributes}
use ainext_gen_c.Policy.Store.{PolicyStore}
use ainext_gen_c.Policy.Pip.{access_context, cross_domain_context}
use ainext_gen_c.Policy.Pdp.{PolicyEffect, permit, deny, downgrade, PolicyDecision, evaluate}

-- `decision.effect == PolicyEffect::Deny`
abbrev pub is_deny : PolicyEffect → Bool
is_deny permit = false
is_deny deny = true
is_deny downgrade = false

unfoldable pub effect_to_decision : PolicyEffect → Text
effect_to_decision permit = text "allow"
effect_to_decision deny = text "deny"
effect_to_decision downgrade = text "downgrade"

-- `if let Some(effective) = &decision.effective_label { record.with_effective_label(..) }`
abbrev pub add_effective_label : Option ConfidentialityLabel → AuditRecord → AuditRecord
add_effective_label none r = r
add_effective_label (some l) r = with_effective_label r l

-- the record of `record_access_audit`
unfoldable pub access_record :
    Stamp → SubjectAttributes → ConfidentialityLabel → SecurityDomain → PolicyDecision → AuditRecord
access_record stamp subject l d decision = add_effective_label decision.effective_label (
    with_domains
      (new_record stamp transport_access subject.subject_id l (text "pep-access")
        (effect_to_decision decision.effect) decision.reason)
      d.id d.id)

-- the record of `record_cross_domain_audit`
unfoldable pub cross_domain_record :
    Stamp
    → SubjectAttributes
    → ConfidentialityLabel
    → SecurityDomain
    → SecurityDomain
    → PolicyDecision
    → AuditRecord
cross_domain_record stamp subject l source target decision =
    add_effective_label decision.effective_label (
      with_domains
        (new_record stamp cross_domain_evaluate subject.subject_id l (text "pep-cross-domain")
          (effect_to_decision decision.effect) decision.reason)
        source.id target.id)

-- the end of the `enforce` methods: a denial becomes an error
unfoldable pub refuse_denial : PolicyDecision → PolicyResult PolicyDecision
refuse_denial decision = elim (is_deny decision.effect) [
  | true ↦ err (denied decision.reason)
  | false ↦ ok decision
]

-- `PolicyEnforcementPoint`: the store of its decision point and its audit log. The information
-- point has no state.
pub record PolicyEnforcementPoint (sink : AuditSink) : Type 0 where
  pub store : PolicyStore
  pub audit : Option (AuditLog sink)

module _ (k : ChainBackend) (sink : AuditSink) where
  -- `PolicyEnforcementPoint::new`
  unfoldable pub new_pep : PolicyStore → PolicyEnforcementPoint sink
  new_pep store = record { store = store; audit = none }

  unfoldable pub with_audit :
      PolicyEnforcementPoint sink → AuditLog sink → PolicyEnforcementPoint sink
  with_audit pep audit = record pep { audit = some audit }

  -- `let _ = audit.record(record)`, if there is a log
  unfoldable pub record_audit :
      PolicyEnforcementPoint sink → AuditRecord → PolicyEnforcementPoint sink
  record_audit pep r = elim pep.audit [
    | none ↦ pep
    | some log ↦ record pep { audit = some (record_event k sink log r).0 }
  ]

  -- the decision with the log that its record leaves; an error is not recorded
  unfoldable pub recorded :
      PolicyEnforcementPoint sink
      → (PolicyDecision → AuditRecord)
      → PolicyResult PolicyDecision
      → PolicyEnforcementPoint sink × PolicyResult PolicyDecision
  recorded pep make (err e) = (pep, err e)
  recorded pep make (ok decision) = (record_audit pep (make decision), ok decision)

  -- `PolicyEnforcementPoint::evaluate_access`
  unfoldable pub pep_evaluate_access :
      PolicyEnforcementPoint sink
      → Stamp
      → SubjectAttributes
      → ConfidentialityLabel
      → AccessOperation
      → SecurityDomain
      → PolicyEnforcementPoint sink × PolicyResult PolicyDecision
  pep_evaluate_access pep stamp subject l operation d =
      recorded pep (access_record stamp subject l d)
        do context ← access_context subject l operation d; evaluate pep.store context

  -- `PolicyEnforcementPoint::enforce_access`
  unfoldable pub enforce_access :
      PolicyEnforcementPoint sink
      → Stamp
      → SubjectAttributes
      → ConfidentialityLabel
      → AccessOperation
      → SecurityDomain
      → PolicyEnforcementPoint sink × PolicyResult PolicyDecision
  enforce_access pep stamp subject l operation d =
      let (pep', decided) = pep_evaluate_access pep stamp subject l operation d in
      (pep', decided >>= refuse_denial)

  -- `PolicyEnforcementPoint::evaluate_cross_domain`, over the mission that `None` stands for there
  unfoldable pub pep_evaluate_mission :
      PolicyEnforcementPoint sink
      → Stamp
      → SubjectAttributes
      → ConfidentialityLabel
      → SecurityDomain
      → SecurityDomain
      → Option Text
      → PolicyEnforcementPoint sink × PolicyResult PolicyDecision
  pep_evaluate_mission pep stamp subject l source target mission_id =
      recorded pep (cross_domain_record stamp subject l source target) do
        context ← cross_domain_context subject l source target mission_id
        evaluate pep.store context

  unfoldable pub pep_evaluate_cross_domain :
      PolicyEnforcementPoint sink
      → Stamp
      → SubjectAttributes
      → ConfidentialityLabel
      → SecurityDomain
      → SecurityDomain
      → PolicyEnforcementPoint sink × PolicyResult PolicyDecision
  pep_evaluate_cross_domain pep stamp subject l source target =
      pep_evaluate_mission pep stamp subject l source target none

  -- `PolicyEnforcementPoint::enforce_cross_domain`
  unfoldable pub enforce_cross_domain :
      PolicyEnforcementPoint sink
      → Stamp
      → SubjectAttributes
      → ConfidentialityLabel
      → SecurityDomain
      → SecurityDomain
      → Option Text
      → PolicyEnforcementPoint sink × PolicyResult PolicyDecision
  enforce_cross_domain pep stamp subject l source target mission_id =
      let (pep', decided) = pep_evaluate_mission pep stamp subject l source target mission_id in
      (pep', decided >>= refuse_denial)

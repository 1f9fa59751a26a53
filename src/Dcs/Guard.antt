-- ===== src/Dcs/Guard.antt =====
-- crates/mim-dcs/src/guard.rs: the cross-domain guard over the policy plane.
use ainext_gen_c.Base.{
  Bool, false, [], ◌∷◌, ◌++◌, Option, none, Text, text, text_eq, ok, ◌>>=◌, ◌>>◌, fail_if, map_err,
}
use ainext_gen_c.Label.Classification.{secret}
use ainext_gen_c.Label.Error.{LabelResult, cross_domain}
use ainext_gen_c.Label.Domain.{
  DomainId, SecurityDomain, new_domain, with_releasable_to, validate_id,
}
use ainext_gen_c.Label.Confidentiality.{ConfidentialityLabel}
use ainext_gen_c.Audit.Record.{Stamp}
use ainext_gen_c.Audit.Chain.{ChainBackend}
use ainext_gen_c.Audit.Log.{AuditSink, AuditLog}
use ainext_gen_c.Policy.Error.{to_label_error}
use ainext_gen_c.Policy.Context.{SubjectAttributes, new_subject}
use ainext_gen_c.Policy.Store.{
  PolicyStore, new_store, insert_domain, insert_cross_domain_policy, new_cross_domain_policy,
  or_keep, preset_coalition,
}
use ainext_gen_c.Policy.Pdp.{PolicyEffect, permit, deny, downgrade, PolicyDecision}
use ainext_gen_c.Policy.Pep.{PolicyEnforcementPoint, new_pep, with_audit, pep_evaluate_cross_domain}

pub data GuardDecision : Type 0 where
  allow_transfer deny_transfer downgrade_transfer : GuardDecision

pub record GuardResult : Type 0 where
  pub decision : GuardDecision
  pub reason : Text
  pub effective_label : Option ConfidentialityLabel

-- the decision of `map_decision`
abbrev pub guard_decision : PolicyEffect → GuardDecision
guard_decision permit = allow_transfer
guard_decision deny = deny_transfer
guard_decision downgrade = downgrade_transfer

-- the label of `map_decision`
abbrev pub guard_label : PolicyEffect → Option ConfidentialityLabel → Option ConfidentialityLabel
guard_label permit l = l
guard_label deny l = none
guard_label downgrade l = l

-- `map_decision`
unfoldable pub map_decision : PolicyDecision → GuardResult
map_decision x = record {
  decision = guard_decision x.effect;
  reason = x.reason;
  effective_label = guard_label x.effect x.effective_label;
}

-- `validate_domain_pair`
unfoldable pub validate_domain_pair : DomainId → DomainId → LabelResult (Unit {0})
validate_domain_pair source target = do
  validate_id source
  validate_id target
  fail_if (text_eq source target)
      (cross_domain (text "source and target domains must differ for cross-domain transfer"))

pub record CrossDomainGuard (sink : AuditSink) : Type 0 where
  pub source : SecurityDomain
  pub target : SecurityDomain
  pub pep : PolicyEnforcementPoint sink
  pub accredited : Bool

-- the store of `CrossDomainGuard::new`, whose steps drop their errors
unfoldable pub guard_store : SecurityDomain → SecurityDomain → PolicyStore
guard_store source target =
    let s0 = or_keep new_store (insert_domain new_store source) in
    let s1 = or_keep s0 (insert_domain s0 target) in
    or_keep s1 (
      insert_cross_domain_policy s1
        (new_cross_domain_policy (source.id ++ text "-to-" ++ target.id) source.id target.id))

module _ (k : ChainBackend) (sink : AuditSink) where
  -- `CrossDomainGuard::from_policy_plane`
  unfoldable pub from_policy_plane :
      PolicyEnforcementPoint sink → SecurityDomain → SecurityDomain → CrossDomainGuard sink
  from_policy_plane pep source target = record {
    source = source;
    target = target;
    pep = pep;
    accredited = false;
  }

  -- `CrossDomainGuard::new`
  unfoldable pub new_guard : SecurityDomain → SecurityDomain → CrossDomainGuard sink
  unfolding guard_store
  new_guard source target = record {
    source = source;
    target = target;
    pep = new_pep k sink (guard_store source target);
    accredited = false;
  }

  -- `CrossDomainGuard::with_accredited`
  unfoldable pub with_accredited : CrossDomainGuard sink → Bool → CrossDomainGuard sink
  with_accredited g accredited = record g { accredited = accredited }

  -- `CrossDomainGuard::with_audit`
  unfoldable pub guard_with_audit : CrossDomainGuard sink → AuditLog sink → CrossDomainGuard sink
  guard_with_audit g audit = record g { pep = with_audit k sink (new_pep k sink g.pep.store) audit }

  -- `CrossDomainGuard::preset_coalition`
  unfoldable pub coalition_guard : CrossDomainGuard sink
  unfolding from_policy_plane
  coalition_guard =
      from_policy_plane (new_pep k sink preset_coalition)
        (with_releasable_to (new_domain (text "DOMAIN-NATO") (text "NATO Core") secret)
          (text "USA" ∷ text "GBR" ∷ text "DEU" ∷ text "FRA" ∷ []))
        (with_releasable_to (new_domain (text "DOMAIN-PARTNER") (text "Partner Nation") secret)
          (text "USA" ∷ text "GBR" ∷ []))

  -- `CrossDomainGuard::evaluate_with_subject`, with the guard whose log the evaluation left
  unfoldable pub guard_evaluate_with_subject :
      CrossDomainGuard sink
      → Stamp
      → ConfidentialityLabel
      → SubjectAttributes
      → CrossDomainGuard sink × LabelResult GuardResult
  guard_evaluate_with_subject g stamp l subject =
      let (pep', decided) =
        pep_evaluate_cross_domain k sink g.pep stamp subject l g.source g.target in
      (record g { pep = pep' }, map_err to_label_error decided >>= λ x. ok (map_decision x))

  -- `CrossDomainGuard::evaluate`
  unfoldable pub guard_evaluate :
      CrossDomainGuard sink
      → Stamp
      → ConfidentialityLabel
      → CrossDomainGuard sink × LabelResult GuardResult
  unfolding guard_evaluate_with_subject
  guard_evaluate g stamp l =
      guard_evaluate_with_subject g stamp l
        (new_subject (text "cross-domain-guard") l.classification)

-- ===== src/Policy/Release.antt =====
-- crates/mim-policy/src/pdp.rs: what a cross-domain evaluation releases, for the contexts that the
-- information point builds.
use ainext_gen_c.Base.{
  ◌≤◌, ◌≡◌, ◌≢◌, ◌⊎◌, inl, inr, Option, some, true, Text, ok, arith, Option-cases,
}
use ainext_gen_c.Label.Classification.{unclassified, rank}
use ainext_gen_c.Label.Domain.{SecurityDomain}
use ainext_gen_c.Label.Policy.{allows_classification}
use ainext_gen_c.Label.Confidentiality.{ConfidentialityLabel}
use ainext_gen_c.Policy.Context.{PolicyContext, SubjectAttributes, cross_domain}
use ainext_gen_c.Policy.Store.{PolicyStore, CrossDomainPolicy, domain, policy_for_pair}
use ainext_gen_c.Policy.Pip.{cross_domain_context}
use ainext_gen_c.Base.{or_else}
use ainext_gen_c.Policy.Pdp.{
  PolicyDecision, deny, require_domain, transfer_between, evaluate_cross_domain, evaluate,
}
use ainext_gen_c.Policy.Transfer.{
  TransferAllowed, OfValidLabel, Released, release_passed, release_returns, transfer_passed,
  transfer_granted,
}

-- The context that the information point builds for a transfer.
context-OfValidLabel :
    (subject : SubjectAttributes) (l : ConfidentialityLabel) (source target : SecurityDomain)
    (mission : Option Text) (c : PolicyContext)
    → cross_domain_context subject l source target mission ≡ ok c
    → OfValidLabel c
      × (c.environment ≡ cross_domain source.id target.id (or_else mission subject.mission_id))
      × (c.label ≡ l)
unfolding cross_domain_context
context-OfValidLabel subject l source target mission c h =
    (record { resource = ground arith; valid = ground arith }, ground arith, ground arith)

-- the rule and the domains that the store holds for a transfer
pub record Registered (s : PolicyStore) (source_id target_id : Text) : Type 0 where
  pub rule : CrossDomainPolicy
  pub rule_found : policy_for_pair s source_id target_id ≡ some rule
  pub source : SecurityDomain
  pub source_found : domain s source_id ≡ some source
  pub target : SecurityDomain
  pub target_found : domain s target_id ≡ some target

evaluate-transfer :
    (s : PolicyStore) (c : PolicyContext) (source_id target_id : Text) (m : Option Text)
    → c.environment ≡ cross_domain source_id target_id m
    → (r : Registered s source_id target_id) → evaluate s c ≡ transfer_between s c r.source r.target
unfolding evaluate evaluate_cross_domain require_domain cross_domain
evaluate-transfer s c source_id target_id m e r =
    ground (arith, e, r.rule_found, r.source_found, r.target_found)

evaluate-Registered :
    (s : PolicyStore) (c : PolicyContext) (source_id target_id : Text) (m : Option Text)
    (x : PolicyDecision)
    → c.environment ≡ cross_domain source_id target_id m
    → evaluate s c ≡ ok x
    → Registered s source_id target_id
unfolding evaluate evaluate_cross_domain require_domain cross_domain
evaluate-Registered s c source_id target_id m x e h =
    elim (Option-cases (policy_for_pair s source_id target_id)) [
      | inl missing ↦ absurd (ground (arith, e, missing))
      | inr (rule, found) ↦ elim (Option-cases (domain s source_id)) [
        | inl missing ↦ absurd (ground (arith, e, missing))
        | inr (source, source_found) ↦ elim (Option-cases (domain s target_id)) [
          | inl missing ↦ absurd (ground (arith, e, missing))
          | inr (target, target_found) ↦ record {
            rule = rule;
            rule_found = found;
            source = source;
            source_found = source_found;
            target = target;
            target_found = target_found;
          }
        ]
      ]
    ]

-- No leak: whatever the store, a decision other than a denial on a transfer that the information
-- point set up rests on a registered rule and on two registered domains, the subject holds every
-- caveat and its mission is authorised, the target accepts every releasable country, and the label
-- that is released is the given one with its classification lowered to the target's maximum; it is
-- marked as a downgrade exactly when it was lowered, and never into a target below UNCLASSIFIED.
pub evaluate-Released :
    (s : PolicyStore) (subject : SubjectAttributes) (l : ConfidentialityLabel)
    (source target : SecurityDomain) (mission : Option Text) (c : PolicyContext)
    (x : PolicyDecision)
    → cross_domain_context subject l source target mission ≡ ok c
    → evaluate s c ≡ ok x
    → x.effect ≢ deny
    → (r : Registered s source.id target.id) × TransferAllowed c r.source r.target
      × Released c r.target x
      × (c.label ≡ l)
evaluate-Released s subject l source target mission c x h run n =
    let (v, environment, label) = context-OfValidLabel subject l source target mission c h in
    let r = evaluate-Registered s c source.id target.id _ x environment run in
    let passed =
      transfer_passed s c r.target v r.source x
        (rw (← evaluate-transfer s c source.id target.id _ environment r) run) n in
    (r, passed.0, passed.1, label)

-- The other way round: a transfer between registered domains that passes the tests is released,
-- if the target's maximum covers the label, or is at least UNCLASSIFIED and is a level that the
-- label's policy lists.
pub evaluate_releases :
    (s : PolicyStore) (subject : SubjectAttributes) (l : ConfidentialityLabel)
    (source target : SecurityDomain) (mission : Option Text) (c : PolicyContext)
    → cross_domain_context subject l source target mission ≡ ok c
    → (r : Registered s source.id target.id) → TransferAllowed c r.source r.target
    → (rank l.classification ≤ rank r.target.max_classification)
      ⊎ ((rank unclassified ≤ rank r.target.max_classification)
          × (allows_classification l.policy r.target.max_classification ≡ true))
    → (x : PolicyDecision) × (evaluate s c ≡ ok x) × Released c r.target x
evaluate_releases s subject l source target mission c h r a room =
    let (v, environment, label) = context-OfValidLabel subject l source target mission c h in
    let (x, returned, passes) = release_returns s c r.target v a.countries (rw label room) in
    (
      x,
      rw
          (
            evaluate-transfer s c source.id target.id _ environment r,
            transfer_granted s c r.target v r.source a,
          )
          returned,
      release_passed s c r.target v x a.countries returned passes,
    )

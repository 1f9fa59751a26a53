-- ===== src/Policy/Flag.antt =====
-- crates/mim-policy/src/pdp.rs and store.rs: what the decision point makes of a rule's flag.
use ainext_gen_c.Base.{
  Bool, ◌≡◌, refl, List, [], ◌∷◌, map, Option, none, some, find, Text, Bool-cases, Option-cases,
  inl, inr,
}
use ainext_gen_c.Policy.Context.{
  AccessOperation, read, write, delete, cross_domain_transfer, PolicyContext,
}
use ainext_gen_c.Policy.Store.{CrossDomainPolicy, PolicyStore, is_for_pair, policy_for_pair, domain}
use ainext_gen_c.Policy.Pdp.{
  require_domain, evaluate_access, release_decision, transfer_between, evaluate_cross_domain,
  evaluate,
}

-- every rule with the flag `allow_downgrade` set to `b`
abbrev pub set_flag : Bool → CrossDomainPolicy → CrossDomainPolicy
set_flag b p = record p { allow_downgrade = b }

abbrev pub set_flags : Bool → PolicyStore → PolicyStore
set_flags b s = record s { cross_domain_policies = map (set_flag b) s.cross_domain_policies }

abbrev flagged : Bool → Option CrossDomainPolicy → Option CrossDomainPolicy
flagged b none = none
flagged b (some p) = some (set_flag b p)

find-set_flag :
    (b : Bool) (source target : Text) (ps : List CrossDomainPolicy)
    → find (is_for_pair source target) (map (set_flag b) ps)
      ≡ flagged b (find (is_for_pair source target) ps)
unfolding find is_for_pair
find-set_flag b source target [] = refl
find-set_flag b source target (p ∷ ps) = elim (Bool-cases (is_for_pair source target p)) [
  | inl h ↦ rw h refl
  | inr h ↦ rw h (find-set_flag b source target ps)
]

policy_for_pair-set_flags :
    (b : Bool) (s : PolicyStore) (source target : Text)
    → policy_for_pair (set_flags b s) source target ≡ flagged b (policy_for_pair s source target)
unfolding policy_for_pair
policy_for_pair-set_flags b s source target = find-set_flag b source target s.cross_domain_policies

cross_domain-set_flags :
    (b : Bool) (s : PolicyStore) (c : PolicyContext)
    → evaluate_cross_domain (set_flags b s) c ≡ evaluate_cross_domain s c
unfolding evaluate_cross_domain require_domain domain transfer_between release_decision
cross_domain-set_flags b s c = elim (Option-cases c.environment.target_domain) [
  | inl missing ↦ rw missing refl
  | inr (t, given) ↦ elim (Option-cases (policy_for_pair s c.environment.source_domain t)) [
    | inl missing ↦
        rw (given, policy_for_pair-set_flags b s c.environment.source_domain t, missing) refl
    | inr (rule, found) ↦
        rw (given, policy_for_pair-set_flags b s c.environment.source_domain t, found) refl
  ]
]

access-set_flags :
    (b : Bool) (s : PolicyStore) (c : PolicyContext)
    → evaluate_access (set_flags b s) c ≡ evaluate_access s c
unfolding evaluate_access require_domain domain
access-set_flags b s c = refl

-- The decision point decides alike whatever the flag `allow_downgrade` of the rules says.
pub evaluate-ignores_allow_downgrade :
    (b : Bool) (s : PolicyStore) (c : PolicyContext) → evaluate (set_flags b s) c ≡ evaluate s c
unfolding evaluate
evaluate-ignores_allow_downgrade b s c = by_operation c.environment.operation
  where
    by_operation :
        (o : AccessOperation)
        → elim o [
          | cross_domain_transfer ↦ evaluate_cross_domain (set_flags b s) c
          | _ ↦ evaluate_access (set_flags b s) c
        ]
          ≡ elim o [ cross_domain_transfer ↦ evaluate_cross_domain s c | _ ↦ evaluate_access s c ]
    by_operation read = access-set_flags b s c
    by_operation write = access-set_flags b s c
    by_operation delete = access-set_flags b s c
    by_operation cross_domain_transfer = cross_domain-set_flags b s c

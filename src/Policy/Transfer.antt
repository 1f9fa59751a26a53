-- ===== src/Policy/Transfer.antt =====
-- crates/mim-policy/src/pdp.rs: the tests of a cross-domain transfer between two known domains.
use ainext_gen_c.Base.{
  ◌≤◌, ◌≡◌, ◌≢◌, refl, subst, ◌⊎◌, inl, inr, some, true, text, ◌++◌, All, ok, err, arith,
  Bool-cases, if◌then◌else◌,
}
use ainext_gen_c.Label.Classification.{unclassified, rank, level_lt, level_le, as_stanag_str}
use ainext_gen_c.Label.Error.{LabelError, validation as label_validation}
use ainext_gen_c.Label.Domain.{SecurityDomain, accepts_country}
use ainext_gen_c.Label.Policy.{allows_classification}
use ainext_gen_c.Label.Confidentiality.{ConfidentialityLabel, validate, releasable_countries}
use ainext_gen_c.Policy.Context.{PolicyContext, holds_caveat, from_label, ResourceAttributes}
use ainext_gen_c.Policy.Downgrade.{DowngradeConfig, cap_classification, downgraded_label_for_target}
use ainext_gen_c.Policy.Store.{PolicyStore}
use ainext_gen_c.Policy.Pdp.{
  PolicyDecision, permit, deny, downgrade, release_decision, transfer_between, resolve_mission_id,
}
use ainext_gen_c.Policy.Checks.{
  or_continue_passed, check_handling_caveats-OnlyDenies, check_handling_caveats_iff,
  check_countries-OnlyDenies, check_countries_iff, MissionAllowed,
  check_mission_compartment-OnlyDenies, check_mission_compartment_iff,
}
use ainext_gen_c.Policy.Intersection.{effective_label-cap, validate-cap_classification}

-- the subject and the label pass the tests on caveats, missions and countries
pub record TransferAllowed (c : PolicyContext) (source target : SecurityDomain) : Type 0 where
  pub caveats : All (λ v. holds_caveat c.subject v ≡ true) c.resource.handling_caveats
  pub mission : MissionAllowed (resolve_mission_id c.subject c.environment) source (some target)
  pub countries : All (λ v. accepts_country target v ≡ true) c.resource.releasable_countries

-- the context is one that the information point builds of a valid label
pub record OfValidLabel (c : PolicyContext) : Type 0 where
  pub resource : c.resource ≡ from_label c.label
  pub valid : validate c.label ≡ ok tt

-- The decision `x` releases the label of `c` into `target`, lowered to the target's maximum and
-- otherwise unchanged.
pub record Released (c : PolicyContext) (target : SecurityDomain) (x : PolicyDecision)
    : Type 0 where
  pub label : x.effective_label ≡ some (cap_classification target c.label)
  pub effect :
      x.effect
      ≡ (if level_lt target.max_classification c.label.classification then downgrade else permit)
  pub ceiling :
      rank (cap_classification target c.label).classification ≤ rank target.max_classification
  pub floor :
      (rank c.label.classification ≤ rank target.max_classification)
      ⊎ (rank unclassified ≤ rank target.max_classification)

pub cap_classification-le :
    (l : ConfidentialityLabel) (t : SecurityDomain)
    → rank (cap_classification t l).classification ≤ rank t.max_classification
unfolding cap_classification
cap_classification-le l t = ground arith

-- the refusal of a level that the label's policy does not list
abbrev pub not_allowed : ConfidentialityLabel → SecurityDomain → LabelError
not_allowed l t = label_validation (
    text "classification "
    ++ (as_stanag_str t.max_classification
        ++ (text " not allowed by policy " ++ l.policy.identifier)))

-- A valid label above the target's maximum, whose countries the target accepts, is downgraded by
-- lowering its classification,
-- if its policy lists the lower level; otherwise the downgrade is an error.
pub downgraded_label_for_target-cap :
    (l : ConfidentialityLabel) (t : SecurityDomain) (config : DowngradeConfig)
    → validate l ≡ ok tt
    → All (λ v. accepts_country t v ≡ true) (releasable_countries l)
    → level_lt t.max_classification l.classification ≡ true
    → downgraded_label_for_target l t config ≡ (
        if allows_classification l.policy t.max_classification
        then ok (cap_classification t l)
        else err (not_allowed l t))
unfolding downgraded_label_for_target
downgraded_label_for_target-cap l t config v h lower =
    rw (effective_label-cap l t config v h, validate-cap_classification l t v lower) (ground arith)

module _ (s : PolicyStore) (c : PolicyContext) (target : SecurityDomain) (v : OfValidLabel c) where
  label_countries :
      All (λ v. accepts_country target v ≡ true) c.resource.releasable_countries
      → All (λ v. accepts_country target v ≡ true) (releasable_countries c.label)
  unfolding from_label
  label_countries h =
      subst
        (λ (r : ResourceAttributes).
          All (λ v. accepts_country target v ≡ true) r.releasable_countries)
        v.resource h

  pub release_passed :
      (x : PolicyDecision)
      → All (λ v. accepts_country target v ≡ true) c.resource.releasable_countries
      → release_decision s c target ≡ ok x
      → x.effect ≢ deny
      → Released c target x
  unfolding release_decision
  release_passed x h r n =
      elim (Bool-cases (level_lt target.max_classification c.label.classification)) [
        | inl lower ↦ record {
          label = ground (
            arith,
            downgraded_label_for_target-cap c.label target s.downgrade v.valid (label_countries h)
                lower,
          );
          effect = ground arith;
          ceiling = cap_classification-le c.label target;
          floor = inr (ground arith);
        }
        | inr fits ↦ record {
          label = unfold cap_classification in ground arith;
          effect = ground arith;
          ceiling = cap_classification-le c.label target;
          floor = inl (ground arith);
        }
      ]

  -- the target's maximum covers the label, or the label may be lowered to it
  abbrev pub RoomFor : Type 0
  RoomFor =
      (rank c.label.classification ≤ rank target.max_classification)
      ⊎ ((rank unclassified ≤ rank target.max_classification)
          × (allows_classification c.label.policy target.max_classification ≡ true))

  pub release_returns :
      All (λ v. accepts_country target v ≡ true) c.resource.releasable_countries
      → RoomFor
      → (x : PolicyDecision) × (release_decision s c target ≡ ok x) × (x.effect ≢ deny)
  unfolding release_decision
  release_returns h room =
      elim (Bool-cases (level_lt target.max_classification c.label.classification)) [
        | inl lower ↦ elim (Bool-cases (level_le unclassified target.max_classification)) [
          | inl above ↦
              rw
                (
                  lower,
                  above,
                  downgraded_label_for_target-cap c.label target s.downgrade v.valid
                      (label_countries h) lower,
                  room_allows room lower,
                )
                (_, refl, λ e. cc)
          | inr below ↦ absurd (ground arith)
        ]
        | inr fits ↦ rw fits (_, refl, λ e. cc)
      ]
    where
      room_allows :
          RoomFor
          → level_lt target.max_classification c.label.classification ≡ true
          → allows_classification c.label.policy target.max_classification ≡ true
      room_allows (inl fits) lower = absurd (ground arith)
      room_allows (inr listed) lower = listed.1

  pub transfer_passed :
      (source : SecurityDomain) (x : PolicyDecision)
      → transfer_between s c source target ≡ ok x
      → x.effect ≢ deny
      → TransferAllowed c source target × Released c target x
  unfolding transfer_between
  transfer_passed source x h n =
      let (p1, h1) = or_continue_passed _ _ x (check_handling_caveats-OnlyDenies _ _) n h in
      let (p2, h2) = or_continue_passed _ _ x (check_mission_compartment-OnlyDenies _ _ _) n h1 in
      let (p3, h3) = or_continue_passed _ _ x (check_countries-OnlyDenies _ _ _) n h2 in
      let accepted = (check_countries_iff _ _ _).0 p3 in
      (
        record {
          caveats = (check_handling_caveats_iff _ _).0 p1;
          mission = (check_mission_compartment_iff _ _ _).0 p2;
          countries = accepted;
        },
        release_passed x accepted h3 n,
      )

  pub transfer_granted :
      (source : SecurityDomain)
      → TransferAllowed c source target
      → transfer_between s c source target ≡ release_decision s c target
  unfolding transfer_between
  transfer_granted source a = rw (
    (check_handling_caveats_iff c.subject c.resource.handling_caveats).1 a.caveats,
    (check_mission_compartment_iff (resolve_mission_id c.subject c.environment) source
          (some target)).1
        a.mission,
    (check_countries_iff (text " not permitted in target domain ") target
          c.resource.releasable_countries).1
        a.countries,
  )

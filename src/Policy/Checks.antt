-- ===== src/Policy/Checks.antt =====
-- crates/mim-policy/src/pdp.rs: what each test of the decision point lets pass.
use ainext_gen_c.Base.{
  ◌≤◌, ◌≡◌, ◌≢◌, ◌↔◌, ◌⊎◌, inl, inr, refl, true, false, ◌||◌, List, [], ◌∷◌, Option, none, some,
  Text, text_eq, text_eq_iff, any, Any, All, ok, arith, Bool-cases,
}
use ainext_gen_c.Label.Classification.{rank}
use ainext_gen_c.Label.Domain.{SecurityDomain, accepts_country, accepts_mission}
use ainext_gen_c.Policy.Error.{PolicyResult}
use ainext_gen_c.Policy.Context.{SubjectAttributes, ResourceAttributes, holds_caveat}
use ainext_gen_c.Policy.Pdp.{
  PolicyDecision, deny, deny_decision, or_continue, check_handling_caveats,
  check_mission_compartment, is_compartmented, check_nationality, check_countries, check_levels,
}

-- A test that stops the evaluation denies, and releases no label.
abbrev pub OnlyDenies : Option PolicyDecision → Type 0
OnlyDenies o = (x : PolicyDecision) → o ≡ some x → x ≡ deny_decision x.reason

-- A decision other than a denial comes from behind the test.
pub or_continue_passed :
    (o : Option PolicyDecision) (rest : PolicyResult PolicyDecision) (x : PolicyDecision)
    → OnlyDenies o
    → x.effect ≢ deny
    → or_continue o rest ≡ ok x
    → (o ≡ none) × (rest ≡ ok x)
or_continue_passed none rest x d n h = (refl, h)
or_continue_passed (some y) rest x d n h = absurd (n (ground (arith, d y refl)))

-- What holds of every denial and of the evaluation behind a test holds of the whole.
pub or_continue_cases {ℓ} :
    (P : PolicyResult PolicyDecision → Type ℓ) (o : Option PolicyDecision)
    (rest : PolicyResult PolicyDecision)
    → OnlyDenies o
    → ((reason : Text) → P (ok (deny_decision reason)))
    → P rest
    → P (or_continue o rest)
or_continue_cases P none rest d denials behind = behind
or_continue_cases P (some y) rest d denials behind = rw (d y refl) (denials y.reason)

pub check_handling_caveats-OnlyDenies :
    (s : SubjectAttributes) (caveats : List Text) → OnlyDenies (check_handling_caveats s caveats)
unfolding check_handling_caveats
check_handling_caveats-OnlyDenies s [] x h = ground arith
check_handling_caveats-OnlyDenies s (v ∷ rest) x h =
    ground (arith, check_handling_caveats-OnlyDenies s rest x)

pub check_handling_caveats_iff :
    (s : SubjectAttributes) (caveats : List Text)
    → (check_handling_caveats s caveats ≡ none) ↔ All (λ v. holds_caveat s v ≡ true) caveats
unfolding check_handling_caveats
check_handling_caveats_iff s [] = (λ h. tt, λ h. refl)
check_handling_caveats_iff s (v ∷ rest) = (
  λ h. (ground arith, (check_handling_caveats_iff s rest).0 (ground arith)),
  λ h. ground (arith, h.0, (check_handling_caveats_iff s rest).1 h.1),
)

pub check_countries-OnlyDenies :
    (place : Text) (d : SecurityDomain) (countries : List Text)
    → OnlyDenies (check_countries place d countries)
unfolding check_countries
check_countries-OnlyDenies place d [] x h = ground arith
check_countries-OnlyDenies place d (v ∷ rest) x h =
    ground (arith, check_countries-OnlyDenies place d rest x)

pub check_countries_iff :
    (place : Text) (d : SecurityDomain) (countries : List Text)
    → (check_countries place d countries ≡ none) ↔ All (λ v. accepts_country d v ≡ true) countries
unfolding check_countries
check_countries_iff place d [] = (λ h. tt, λ h. refl)
check_countries_iff place d (v ∷ rest) = (
  λ h. (ground arith, (check_countries_iff place d rest).0 (ground arith)),
  λ h. ground (arith, h.0, (check_countries_iff place d rest).1 h.1),
)

pub check_levels-OnlyDenies :
    (s : SubjectAttributes) (r : ResourceAttributes) (d : SecurityDomain)
    → OnlyDenies (check_levels s r d)
unfolding check_levels
check_levels-OnlyDenies s r d x h = ground arith

pub check_levels_iff :
    (s : SubjectAttributes) (r : ResourceAttributes) (d : SecurityDomain)
    → (check_levels s r d ≡ none) ↔ (
        (rank r.classification ≤ rank s.clearance)
        × (rank r.classification ≤ rank d.max_classification))
unfolding check_levels
check_levels_iff s r d = (λ h. (ground arith, ground arith), λ h. ground (arith, h.0, h.1))

-- The mission that the domains ask for: none, or one that each of them lists.
abbrev pub TargetAccepts : Text → Option SecurityDomain → Type 0
TargetAccepts m none = Unit {0}
TargetAccepts m (some t) = accepts_mission t m ≡ true

abbrev pub MissionAllowed : Option Text → SecurityDomain → Option SecurityDomain → Type 0
MissionAllowed mission source target =
    ((is_compartmented (some source) || is_compartmented target) ≡ false)
    ⊎ ((m : Text) × (mission ≡ some m) × (accepts_mission source m ≡ true) × TargetAccepts m target)

pub check_mission_compartment-OnlyDenies :
    (m : Option Text) (source : SecurityDomain) (target : Option SecurityDomain)
    → OnlyDenies (check_mission_compartment m source target)
unfolding check_mission_compartment
check_mission_compartment-OnlyDenies none source target x h = ground arith
check_mission_compartment-OnlyDenies (some m) source none x h = ground arith
check_mission_compartment-OnlyDenies (some m) source (some t) x h = ground arith

pub check_mission_compartment_iff :
    (m : Option Text) (source : SecurityDomain) (target : Option SecurityDomain)
    → (check_mission_compartment m source target ≡ none) ↔ MissionAllowed m source target
unfolding check_mission_compartment
check_mission_compartment_iff none source target = (λ h. inl (ground arith), λ h. ground (arith, h))
check_mission_compartment_iff (some m) source none = (
  λ h. elim (Bool-cases (is_compartmented (some source) || false)) [
    | inl needed ↦ inr (m, refl, ground arith, tt)
    | inr free ↦ inl free
  ],
  λ h. ground (arith, h),
)
check_mission_compartment_iff (some m) source (some t) = (
  λ h. elim (Bool-cases (is_compartmented (some source) || is_compartmented (some t))) [
    | inl needed ↦ inr (m, refl, ground arith, ground arith)
    | inr free ↦ inl free
  ],
  λ h. ground (arith, h),
)

-- A subject with a nationality is on the resource's list, if that is not empty, and is accepted.
abbrev pub NationalityAllowed : Option Text → List Text → SecurityDomain → Type 0
NationalityAllowed none countries d = Unit {0}
NationalityAllowed (some n) countries d =
    ((countries ≡ []) ⊎ Any (λ c. c ≡ n) countries) × (accepts_country d n ≡ true)

pub check_nationality-OnlyDenies :
    (n : Option Text) (countries : List Text) (d : SecurityDomain)
    → OnlyDenies (check_nationality n countries d)
unfolding check_nationality
check_nationality-OnlyDenies none countries d x h = ground arith
check_nationality-OnlyDenies (some n) countries d x h = ground arith

any-text_iff :
    (n : Text) (countries : List Text)
    → (any (λ c. text_eq c n) countries ≡ true) ↔ Any (λ c. c ≡ n) countries
unfolding any
any-text_iff n [] = (λ h. ground arith, λ h. elim h [ ])
any-text_iff n (c ∷ rest) = (
  λ h. elim (Bool-cases (text_eq c n)) [
    | inl same ↦ inl ((text_eq_iff c n).0 same)
    | inr other ↦ inr ((any-text_iff n rest).0 (ground arith))
  ],
  λ h. elim h [
    | inl same ↦ ground (arith, (text_eq_iff c n).1 same)
    | inr later ↦ ground (arith, (any-text_iff n rest).1 later)
  ],
)

pub check_nationality_iff :
    (n : Option Text) (countries : List Text) (d : SecurityDomain)
    → (check_nationality n countries d ≡ none) ↔ NationalityAllowed n countries d
unfolding check_nationality
check_nationality_iff none countries d = (λ h. tt, λ h. refl)
check_nationality_iff (some n) [] d = (λ h. (inl refl, ground arith), λ h. ground (arith, h.1))
check_nationality_iff (some n) (c ∷ rest) d = (
  λ h. (inr ((any-text_iff n (c ∷ rest)).0 (ground arith)), ground arith),
  λ h. elim h.0 [
    | inl empty ↦ cc empty
    | inr listed ↦ ground (arith, h.1, (any-text_iff n (c ∷ rest)).1 listed)
  ],
)

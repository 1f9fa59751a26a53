-- ===== src/Tests/Query.antt =====
-- Filters and queries on concrete texts and stores.
use ainext_gen_c.Base.{
  ℕ, ◌≡◌, ◌↔◌, List, values, refl, true, false, some, none, [], ◌∷◌, ◌++◌, Text, text, All, Any,
  length, trim, starts_with, ok,
}
use ainext_gen_c.Audit.Log.{memory_sink}
use ainext_gen_c.Audit.Record.{Stamp}
use ainext_gen_c.Policy.Context.{read}
use ainext_gen_c.Runtime.Instance.{MimInstance}
use ainext_gen_c.Transport.Filter.{FilterExpression, parse_filter}
use ainext_gen_c.Transport.Query.{GetByFilterRequest, GetByFilterResponse, get_by_filter}
use ainext_gen_c.Transport.Paging.{IsBounded, get_by_filter-IsBounded}
use ainext_gen_c.Transport.Selection.{Selects, Wanted, IsPage, get_by_filter-Selects}
use ainext_gen_c.Transport.Render.{IsPlainFilter, render_filter, parse_filter-render_filter}
use ainext_gen_c.Transport.Refusal.{Outcome, IsNamedFilter, parse_filter-Outcome}
use ainext_gen_c.Transport.SecuredQuery.{get_by_filter_as, sync_since_as}
use ainext_gen_c.Transport.Gated.{Accessed}
use ainext_gen_c.Transport.GatedQuery.{get_by_filter_as-Accessed}
use ainext_gen_c.Transport.GatedSync.{IsTold, sync_since_as-IsTold}
use ainext_gen_c.Tests.Data.{analyst, backend, stamp}
use ainext_gen_c.Tests.Transport.{texts_only, target, with_target}
use ainext_gen_c.Tests.Secured.{unchanged, secured, high_registered}

abbrev by_class : GetByFilterRequest
by_class = record {
  filter = none;
  class_name = text "Target";
  property_name = none;
  property_value = none;
  limit = some 5;
  offset = none;
}

abbrev one_target : GetByFilterResponse texts_only
one_target = record { instances = target ∷ []; count = 1; total = 1 }

query_run : get_by_filter texts_only with_target by_class ≡ ok one_target
unfolding get_by_filter trim text ainext_gen_c.Base.take ainext_gen_c.Base.retain
    ainext_gen_c.Base.drop ainext_gen_c.Base.text_eq ainext_gen_c.Base.member
query_run = refl

get_by_filter-IsBounded_example : IsBounded texts_only with_target by_class one_target
get_by_filter-IsBounded_example =
    get_by_filter-IsBounded texts_only with_target by_class one_target query_run

abbrev all_targets : FilterExpression
all_targets = record { class_name = text "Target"; predicates = [] }

parse_run : parse_filter (text " //Target ") ≡ ok all_targets
unfolding parse_filter starts_with text trim ainext_gen_c.Base.cut ainext_gen_c.Base.drop
parse_run = refl

-- a request whose class is not that of its expression
abbrev by_expression : GetByFilterRequest
by_expression = record by_class { filter = some (text " //Target "); class_name = text "Aircraft" }

get_by_filter-Selects_example :
    (r : GetByFilterResponse texts_only) × (get_by_filter texts_only with_target by_expression
      ≡ ok r)
    × (found : List (MimInstance texts_only)) × Selects
        (Wanted texts_only with_target all_targets)
        (values with_target.store)
        found
    × IsPage texts_only with_target found by_expression r
get_by_filter-Selects_example =
    get_by_filter-Selects texts_only with_target by_expression (text " //Target ") all_targets refl
      parse_run

abbrev hostile : FilterExpression
hostile = record {
  class_name = text "Target";
  predicates =
      (record { property_name = text "nameText"; value = text "HOSTILE='1'" })
      ∷ (record { property_name = text "status"; value = [] })
      ∷ [];
}

hostile_is_plain : IsPlainFilter hostile
unfolding text ainext_gen_c.Base.solid_start ainext_gen_c.Base.is_whitespace
    ainext_gen_c.Base.solid_end ainext_gen_c.Base.lacks starts_with
hostile_is_plain = record {
  starts = refl;
  ends = refl;
  no_open_bracket = refl;
  predicates = (
    record {
      starts = refl;
      ends = refl;
      no_at = refl;
      no_equals = refl;
      no_bracket = refl;
      no_bracket_inside = refl;
    },
    (
      record {
        starts = refl;
        ends = refl;
        no_at = refl;
        no_equals = refl;
        no_bracket = refl;
        no_bracket_inside = refl;
      },
      tt,
    ),
  );
}

parse_filter-render_filter_example : parse_filter (render_filter hostile) ≡ ok hostile
parse_filter-render_filter_example = parse_filter-render_filter hostile hostile_is_plain

-- a bracket inside a quoted value ends the predicate
parse_filter-Outcome_example :
    Outcome
      (λ f. (starts_with (trim (text "//Target[name='a]b']")) (text "//") ≡ true) × IsNamedFilter f)
      (parse_filter (text "//Target[name='a]b']"))
parse_filter-Outcome_example = parse_filter-Outcome (text "//Target[name='a]b']")

abbrev stamps : ℕ → Stamp
stamps n = stamp

secured_query_run :
    (get_by_filter_as texts_only backend memory_sink unchanged stamps secured analyst by_class).1
    ≡ ok one_target
unfolding ainext_gen_c.Policy.Pep.enforce_access ainext_gen_c.Policy.Pep.pep_evaluate_access
    ainext_gen_c.Policy.Pep.recorded ainext_gen_c.Policy.Pip.access_context
    ainext_gen_c.Label.Confidentiality.validate ainext_gen_c.Label.Confidentiality.with_category
    ainext_gen_c.Label.Confidentiality.new_label ainext_gen_c.Label.Policy.nato
    ainext_gen_c.Base.text ainext_gen_c.Label.Policy.allows_classification ainext_gen_c.Base.any
    ainext_gen_c.Label.Confidentiality.releasable_to ainext_gen_c.Policy.Pdp.evaluate
    ainext_gen_c.Policy.Context.local ainext_gen_c.Policy.Pdp.evaluate_access
    ainext_gen_c.Policy.Pdp.require_domain ainext_gen_c.Policy.Store.domain
    ainext_gen_c.Audit.Chain.audit_label ainext_gen_c.Audit.Chain.hash_record
    ainext_gen_c.Audit.Chain.seal ainext_gen_c.Audit.Chain.sign ainext_gen_c.Audit.Log.append_made
    ainext_gen_c.Audit.Log.make_envelope ainext_gen_c.Audit.Log.push_envelope
    ainext_gen_c.Audit.Log.record_event ainext_gen_c.Audit.Record.new_record
    ainext_gen_c.Audit.Record.with_domains ainext_gen_c.Audit.Record.with_effective_label
    ainext_gen_c.Base.find ainext_gen_c.Base.retain ainext_gen_c.Base.ascii_upper
    ainext_gen_c.Base.eq_ignore_ascii_case ainext_gen_c.Base.text_eq
    ainext_gen_c.Base.to_ascii_uppercase ainext_gen_c.Base.as_bytes ainext_gen_c.Base.encode_char
    ainext_gen_c.Crypto.Provider.binding_message ainext_gen_c.Crypto.Provider.nmbs_algorithm
    ainext_gen_c.Crypto.Provider.sha256_base64 ainext_gen_c.Crypto.Provider.sign_nmb_binding
    ainext_gen_c.Label.Classification.as_stanag_str
    ainext_gen_c.Label.Confidentiality.is_releasability
    ainext_gen_c.Label.Confidentiality.releasable_countries
    ainext_gen_c.Label.Confidentiality.restrictive_category_values
    ainext_gen_c.Label.Confidentiality.validate_categories
    ainext_gen_c.Label.Confidentiality.values_of ainext_gen_c.Label.Domain.accepts_country
    ainext_gen_c.Label.Domain.accepts_mission ainext_gen_c.Label.Domain.lists_ignoring_case
    ainext_gen_c.Label.Error.label_error_text ainext_gen_c.Label.Policy.new_policy
    ainext_gen_c.Label.Policy.with_allowed_classifications ainext_gen_c.Label.Policy.with_oid
    ainext_gen_c.Policy.Context.from_label ainext_gen_c.Policy.Context.holds_caveat
    ainext_gen_c.Policy.Downgrade.cap_classification
    ainext_gen_c.Policy.Downgrade.downgraded_label_for_target
    ainext_gen_c.Policy.Downgrade.effective_label ainext_gen_c.Policy.Downgrade.intersect_categories
    ainext_gen_c.Policy.Downgrade.intersect_category ainext_gen_c.Policy.Downgrade.keeps_category
    ainext_gen_c.Policy.Error.from_label_error ainext_gen_c.Policy.Pdp.access_in_domain
    ainext_gen_c.Policy.Pdp.check_countries ainext_gen_c.Policy.Pdp.check_handling_caveats
    ainext_gen_c.Policy.Pdp.check_levels ainext_gen_c.Policy.Pdp.check_mission_compartment
    ainext_gen_c.Policy.Pdp.check_nationality ainext_gen_c.Policy.Pdp.check_target_mission
    ainext_gen_c.Policy.Pdp.evaluate_cross_domain ainext_gen_c.Policy.Pdp.operation_name
    ainext_gen_c.Policy.Pdp.release_decision ainext_gen_c.Policy.Pdp.resolve_mission_id
    ainext_gen_c.Policy.Pdp.transfer_between ainext_gen_c.Policy.Pep.access_record
    ainext_gen_c.Policy.Pep.effect_to_decision ainext_gen_c.Policy.Pep.record_audit
    ainext_gen_c.Policy.Pep.refuse_denial ainext_gen_c.Policy.Store.get_domain
    ainext_gen_c.Policy.Store.is_for_pair ainext_gen_c.Policy.Store.policy_for_pair
    ainext_gen_c.Transport.Broker.get_by_oid ainext_gen_c.Base.member ainext_gen_c.Base.get
    ainext_gen_c.Transport.Secured.instance_label ainext_gen_c.Policy.Pip.label_from_security
    ainext_gen_c.Transport.Secured.get_by_oid_as get_by_filter trim ainext_gen_c.Base.take
    ainext_gen_c.Base.drop ainext_gen_c.Transport.Secured.enforce_label
    ainext_gen_c.Transport.SecuredQuery.permitted_from get_by_filter_as
secured_query_run = refl

get_by_filter_as-Accessed_example :
    All
      (λ i. Accessed texts_only backend memory_sink unchanged secured analyst i read)
      one_target.instances
    × (one_target.count ≡ length one_target.instances)
get_by_filter_as-Accessed_example =
    get_by_filter_as-Accessed texts_only backend memory_sink unchanged stamps secured analyst
      by_class one_target high_registered secured_query_run

sync_since_as-IsTold_example :
    All
      (IsTold texts_only backend memory_sink unchanged secured analyst)
      (sync_since_as texts_only backend memory_sink unchanged stamps secured analyst 0).1.entries
sync_since_as-IsTold_example =
    sync_since_as-IsTold texts_only backend memory_sink unchanged stamps secured analyst 0
      high_registered

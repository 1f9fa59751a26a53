-- ===== src/Audit/Record.antt =====
-- crates/mim-audit/src/record.rs
use ainext_gen_c.Base.{Option, none, some, Text}
use ainext_gen_c.Model.Metadata.{DateTime}
use ainext_gen_c.Label.Domain.{DomainId}
use ainext_gen_c.Label.Confidentiality.{ConfidentialityLabel}

pub data AuditEventKind : Type 0 where
  cross_domain_evaluate cross_domain_transfer transport_access binding_verify binding_reject :
      AuditEventKind

pub record AuditRecord : Type 0 where
  pub id : Text
  pub timestamp : DateTime
  pub event_kind : AuditEventKind
  pub subject_id : Text
  pub source_domain : Option DomainId
  pub target_domain : Option DomainId
  pub original_label : ConfidentialityLabel
  pub effective_label : Option ConfidentialityLabel
  pub policy_rule_id : Text
  pub decision : Text
  pub reason : Text
  pub payload_digest : Option Text

-- what `Uuid::new_v4` and `Utc::now` give a record
pub record Stamp : Type 0 where
  pub id : Text
  pub timestamp : DateTime

-- `AuditRecord::new`
unfoldable pub new_record :
    Stamp → AuditEventKind → Text → ConfidentialityLabel → Text → Text → Text → AuditRecord
new_record stamp event_kind subject_id original_label policy_rule_id decision reason = record {
  id = stamp.id;
  timestamp = stamp.timestamp;
  event_kind = event_kind;
  subject_id = subject_id;
  source_domain = none;
  target_domain = none;
  original_label = original_label;
  effective_label = none;
  policy_rule_id = policy_rule_id;
  decision = decision;
  reason = reason;
  payload_digest = none;
}

unfoldable pub with_domains : AuditRecord → DomainId → DomainId → AuditRecord
with_domains r source target = record r { source_domain = some source; target_domain = some target }

unfoldable pub with_effective_label : AuditRecord → ConfidentialityLabel → AuditRecord
with_effective_label r l = record r { effective_label = some l }

unfoldable pub with_payload_digest : AuditRecord → Text → AuditRecord
with_payload_digest r digest = record r { payload_digest = some digest }

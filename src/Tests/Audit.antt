-- ===== src/Tests/Audit.antt =====
-- The audit log and the binding of its signatures on concrete records.
use ainext_gen_c.Base.{◌≡◌, some, [], ◌∷◌, text, ok}
use ainext_gen_c.Audit.Record.{AuditRecord, transport_access, cross_domain_evaluate, new_record}
use ainext_gen_c.Audit.Log.{AuditLog, memory_sink, new_chain, verify_chain, record_event}
use ainext_gen_c.Audit.Linked.{opened}
use ainext_gen_c.Audit.Integrity.{
  RecordOutcome, record_all, record_event-RecordOutcome, record_all_verifies,
}
use ainext_gen_c.Tests.Data.{transparent-IsSound, backend, signing_key, secret_label, stamp}

abbrev allowed : AuditRecord
allowed =
    new_record stamp transport_access (text "analyst") secret_label (text "pep-access")
      (text "allow") (text "read permitted")

abbrev refused : AuditRecord
refused =
    new_record stamp cross_domain_evaluate (text "guest") secret_label (text "pep-cross-domain")
      (text "deny") (text "no rule")

record_all_verifies_example :
    verify_chain backend
      (record_all backend memory_sink
        (record { sink_state = []; chain = opened backend (some signing_key) })
        (allowed ∷ refused ∷ [])).chain
    ≡ ok tt
record_all_verifies_example =
    record_all_verifies backend memory_sink [] (some signing_key) (allowed ∷ refused ∷ [])
      transparent-IsSound

abbrev empty_log : AuditLog memory_sink
empty_log = record { sink_state = []; chain = new_chain }

record_event-RecordOutcome_example :
    RecordOutcome empty_log.chain
      (record_event backend memory_sink empty_log allowed).0.chain
      allowed
      (record_event backend memory_sink empty_log allowed).1
record_event-RecordOutcome_example =
    record_event-RecordOutcome backend memory_sink empty_log allowed

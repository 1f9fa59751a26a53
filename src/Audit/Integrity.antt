-- ===== src/Audit/Integrity.antt =====
-- crates/mim-audit/src/log.rs: the log only grows, and what it wrote it can verify.
use ainext_gen_c.Base.{
  ◌≡◌, refl, inl, inr, Option, List, [], ◌∷◌, ◌++◌, Text, Result, ok, err, Result-cases,
}
use ainext_gen_c.Crypto.Provider.{IsSound, SigningKey}
use ainext_gen_c.Audit.Record.{AuditRecord}
use ainext_gen_c.Audit.Chain.{ChainBackend, AuditEnvelope}
use ainext_gen_c.Audit.Log.{
  AuditResult, AuditSink, AuditLog, ChainState, make_envelope, push_envelope, verify_chain,
  append_made, record_event,
}
use ainext_gen_c.Audit.Linked.{
  IsLinked, make_envelope_lem, push_envelope-IsLinked, opened, opened-IsLinked,
}

-- the chain `c'` is `c` with one more envelope, for the record `r`
pub record IsAppended (c c' : ChainState) (r : AuditRecord) : Type 0 where
  pub envelope : AuditEnvelope
  pub grown : c'.envelopes ≡ c.envelopes ++ envelope ∷ []
  pub last : c'.previous_hash ≡ envelope.record_hash
  pub of_record : envelope.record' ≡ r
  pub follows : envelope.previous_hash ≡ c.previous_hash

-- What `record` does to the chain, and what it returns.
abbrev pub RecordOutcome : ChainState → ChainState → AuditRecord → AuditResult (Unit {0}) → Type 0
RecordOutcome c c' r (ok done) = IsAppended c c' r
RecordOutcome c c' r (err e) = c' ≡ c

module _ (k : ChainBackend) (sink : AuditSink) where
  append_made-RecordOutcome :
      (state : sink.State) (c : ChainState) (r : AuditRecord) (made : Result Text AuditEnvelope)
      → make_envelope k c r ≡ made
      → let out = append_made k sink state c made in RecordOutcome c (out.0).chain r out.1
  unfolding append_made push_envelope
  append_made-RecordOutcome state c r (err e) h = refl
  append_made-RecordOutcome state c r (ok e) h =
      elim (Result-cases (sink.append_envelope state e).1) [
        | inl (done, stored) ↦
            rw (stored, append_made)
              (record {
                envelope = e;
                grown = refl;
                last = refl;
                of_record = (make_envelope_lem k c r e h).0;
                follows = (make_envelope_lem k c r e h).1;
              })
        | inr (failure, failed) ↦ rw (failed, append_made) refl
      ]

  -- The log is append-only: a call that returns has put one envelope behind the others, for its
  -- record and over the hash of the last one; a call that fails leaves the chain as it was.
  pub record_event-RecordOutcome :
      (log : AuditLog sink) (r : AuditRecord)
      → let out = record_event k sink log r in RecordOutcome log.chain (out.0).chain r out.1
  unfolding record_event
  record_event-RecordOutcome log r = elim (Result-cases (sink.append_record log.sink_state r).1) [
    | inl (done, stored) ↦
        rw (stored, record_event)
          (append_made-RecordOutcome (sink.append_record log.sink_state r).0 log.chain r
            (make_envelope k log.chain r) refl)
    | inr (failure, failed) ↦ rw (failed, record_event) refl
  ]

  append_made-IsLinked :
      (state : sink.State) (c : ChainState) (r : AuditRecord) (made : Result Text AuditEnvelope)
      → IsSound k.provider
      → IsLinked k c
      → make_envelope k c r ≡ made
      → IsLinked k (append_made k sink state c made).0.chain
  unfolding append_made
  append_made-IsLinked state c r (err e) sound l h = l
  append_made-IsLinked state c r (ok e) sound l h =
      elim (Result-cases (sink.append_envelope state e).1) [
        | inl (done, stored) ↦ rw (stored, append_made) (push_envelope-IsLinked k c r e sound l h)
        | inr (failure, failed) ↦ rw (failed, append_made) l
      ]

  record_event-IsLinked :
      (log : AuditLog sink) (r : AuditRecord)
      → IsSound k.provider
      → IsLinked k log.chain
      → IsLinked k (record_event k sink log r).0.chain
  unfolding record_event
  record_event-IsLinked log r sound l =
      elim (Result-cases (sink.append_record log.sink_state r).1) [
        | inl (done, stored) ↦
            rw (stored, record_event)
              (append_made-IsLinked (sink.append_record log.sink_state r).0 log.chain r
                (make_envelope k log.chain r) sound l refl)
        | inr (failure, failed) ↦ rw (failed, record_event) l
      ]

  -- a run of calls, whose failures the caller ignores
  unfoldable pub record_all : AuditLog sink → List AuditRecord → AuditLog sink
  record_all log [] = log
  record_all log (r ∷ rest) = record_all (record_event k sink log r).0 rest

  record_all-IsLinked :
      (log : AuditLog sink) (rs : List AuditRecord)
      → IsSound k.provider
      → IsLinked k log.chain
      → IsLinked k (record_all log rs).chain
  unfolding record_all
  record_all-IsLinked log [] sound l = l
  record_all-IsLinked log (r ∷ rest) sound l =
      record_all-IsLinked (record_event k sink log r).0 rest sound
        (record_event-IsLinked log r sound l)

  -- Over a sound backend, whatever the sink does, the chain of a log that was opened with or
  -- without a signing key verifies after any records.
  pub record_all_verifies :
      (state : sink.State) (key : Option SigningKey) (rs : List AuditRecord)
      → IsSound k.provider
      → verify_chain k (record_all (record { sink_state = state; chain = opened k key }) rs).chain
        ≡ ok tt
  record_all_verifies state key rs sound =
      (record_all-IsLinked (record { sink_state = state; chain = opened k key }) rs sound
        (opened-IsLinked k key)).verified

-- ===== src/Audit/Log.antt =====
-- crates/mim-audit/src/log.rs: the log over a sink. The lock of the chain is never poisoned here:
-- the program is built to abort on a panic.
use ainext_gen_c.Base.{
  ℕ, Option, none, some, List, [], ◌∷◌, ◌++◌, Text, text, length, Result, ok, err, ◌>>=◌, ◌>>◌,
}
use ainext_gen_c.Crypto.Provider.{SigningKey, VerifyingKey, from_spki_der}
use ainext_gen_c.Audit.Record.{AuditRecord}
use ainext_gen_c.Audit.Chain.{
  ChainBackend, AuditEnvelope, seal, sign, verify_envelope, verify_signature,
}

pub data AuditError : Type 0 where
  io : Text → AuditError
  sealed : AuditError
  tampered : Text → AuditError

abbrev pub AuditResult {ℓ} : Type ℓ → Type ℓ
AuditResult A = Result AuditError A

-- `trait AuditSink`: the state behind the sink, and its two operations, which may fail.
pub record AuditSink : Type 1 where
  pub State : Type 0
  pub append_record : State → AuditRecord → State × AuditResult (Unit {0})
  pub append_envelope : State → AuditEnvelope → State × AuditResult (Unit {0})
  pub len : State → ℕ

-- `MemoryAuditSink`: it keeps the records, and takes envelopes by the trait's default method.
abbrev pub memory_sink : AuditSink
memory_sink = record {
  State = List AuditRecord;
  append_record = λ records r. (records ++ r ∷ [], ok tt);
  append_envelope = λ records e. (records, ok tt);
  len = length;
}

pub record ChainState : Type 0 where
  pub previous_hash : Text
  pub envelopes : List AuditEnvelope
  pub signing_key : Option SigningKey
  pub verifying_key : Option VerifyingKey

unfoldable pub genesis : Text
genesis = text "GENESIS"

-- the chain of `AuditLog::new`
unfoldable pub new_chain : ChainState
new_chain = record {
  previous_hash = genesis;
  envelopes = [];
  signing_key = none;
  verifying_key = none;
}

module _ (k : ChainBackend) where
  -- the verifying key that `with_signing_key` derives, or the one that there was
  unfoldable pub derived_key : SigningKey → Option VerifyingKey → Option VerifyingKey
  derived_key key before =
      elim (k.provider.public_key_from_private key.der >>= from_spki_der k.provider key.key_id) [
        | ok verifying ↦ some verifying
        | err e ↦ before
      ]

  -- `AuditLog::with_signing_key`
  unfoldable pub with_signing_key : ChainState → SigningKey → ChainState
  unfolding derived_key
  with_signing_key c key = record c {
    signing_key = some key;
    verifying_key = derived_key key c.verifying_key;
  }

  -- the envelope of `AuditLog::record`, signed if the log has a key
  unfoldable pub make_envelope : ChainState → AuditRecord → Result Text AuditEnvelope
  make_envelope c r = elim c.signing_key [
    | none ↦ ok (seal k r c.previous_hash)
    | some key ↦ sign k (seal k r c.previous_hash) key
  ]

  -- the state after `chain.envelopes.push(envelope)`
  unfoldable pub push_envelope : ChainState → AuditEnvelope → ChainState
  push_envelope c e = record c { previous_hash = e.record_hash; envelopes = c.envelopes ++ e ∷ [] }

  -- the loop of `AuditLog::verify_chain`
  unfoldable pub verify_from :
      Option VerifyingKey → Text → List AuditEnvelope → Result Text (Unit {0})
  verify_from verifying previous [] = ok tt
  verify_from verifying previous (e ∷ rest) =
      let later = verify_from verifying e.record_hash rest in
      do
        verify_envelope k e previous
        elim verifying [ none ↦ ok tt | some key ↦ verify_signature k e key ]
        later

  -- `AuditLog::verify_chain`
  unfoldable pub verify_chain : ChainState → Result Text (Unit {0})
  verify_chain c = verify_from c.verifying_key genesis c.envelopes

pub record AuditLog (sink : AuditSink) : Type 0 where
  pub sink_state : sink.State
  pub chain : ChainState

module _ (k : ChainBackend) (sink : AuditSink) where
  -- the second half of `record`: the envelope reaches the sink before it reaches the chain
  unfoldable pub append_made :
      sink.State → ChainState → Result Text AuditEnvelope → AuditLog sink × AuditResult (Unit {0})
  append_made state chain (err e) = (record { sink_state = state; chain = chain }, err (io e))
  append_made state chain (ok envelope) =
      let (state', appended) = sink.append_envelope state envelope in
      elim appended [
        | err e ↦ (record { sink_state = state'; chain = chain }, err e)
        | ok done ↦ (record { sink_state = state'; chain = push_envelope k chain envelope }, ok tt)
      ]

  -- `AuditLog::record`
  unfoldable pub record_event : AuditLog sink → AuditRecord → AuditLog sink × AuditResult (Unit {0})
  unfolding append_made
  record_event log r =
      let (state, stored) = sink.append_record log.sink_state r in
      elim stored [
        | err e ↦ (record log { sink_state = state }, err e)
        | ok done ↦ append_made state log.chain (make_envelope k log.chain r)
      ]

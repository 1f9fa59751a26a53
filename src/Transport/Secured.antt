-- ===== src/Transport/Secured.antt =====
-- crates/mim-transport/src/secured.rs: the broker behind the enforcement point. The audit log of
-- the enforcement point is shared, so a read returns the broker with the log that it left.
use ainext_gen_c.Base.{ℕ, Text, ok, err, ◌>>=◌, map_err}
use ainext_gen_c.Label.Domain.{SecurityDomain}
use ainext_gen_c.Label.Confidentiality.{ConfidentialityLabel}
use ainext_gen_c.Audit.Record.{Stamp}
use ainext_gen_c.Audit.Chain.{ChainBackend}
use ainext_gen_c.Audit.Log.{AuditSink}
use ainext_gen_c.Policy.Error.{
  PolicyError, denied, not_found as policy_not_found, invalid, validation as policy_validation,
  serialization as policy_serialization,
}
use ainext_gen_c.Policy.Context.{AccessOperation, read, write, delete, SubjectAttributes}
use ainext_gen_c.Policy.Pip.{label_from_security}
use ainext_gen_c.Policy.Pdp.{PolicyDecision}
use ainext_gen_c.Policy.Pep.{PolicyEnforcementPoint, enforce_access}
use ainext_gen_c.Runtime.Instance.{Json, ObjectIdentifier, MimInstance}
use ainext_gen_c.Transport.Message.{
  TransportError, TransportResult, invalid_request, not_found, serialization, validation, forbidden,
  PutObjectResponse, DeleteObjectResponse,
}
use ainext_gen_c.Transport.Broker.{
  Validators, ExchangeBroker, get_by_oid, put_object, delete_object,
}

unfoldable pub map_policy_error : PolicyError → TransportError
map_policy_error (denied m) = forbidden m
map_policy_error (policy_validation m) = validation m
map_policy_error (policy_not_found m) = not_found m
map_policy_error (invalid m) = invalid_request m
map_policy_error (policy_serialization m) = serialization m

-- `SecuredExchangeBroker`
pub record SecuredExchangeBroker (json : Json) (sink : AuditSink) : Type 0 where
  pub inner : ExchangeBroker json
  pub pep : PolicyEnforcementPoint sink
  pub subject : SubjectAttributes
  pub domain : SecurityDomain

module _ (json : Json) (k : ChainBackend) (sink : AuditSink) (upper : ℕ → Text) where
  -- `SecuredExchangeBroker::instance_label`; `upper` are the tables of `str::to_uppercase`
  unfoldable pub instance_label : MimInstance json → TransportResult ConfidentialityLabel
  instance_label i = map_err map_policy_error (label_from_security upper i.metadata.security)

  -- the broker with the log that an enforcement on a label left
  unfoldable pub enforce_label :
      SecuredExchangeBroker json sink
      → Stamp
      → SubjectAttributes
      → ConfidentialityLabel
      → AccessOperation
      → SecuredExchangeBroker json sink × TransportResult PolicyDecision
  enforce_label s stamp subject l operation =
      let (pep', decided) = enforce_access k sink s.pep stamp subject l operation s.domain in
      (record s { pep = pep' }, map_err map_policy_error decided)

  -- the label of an instance, and the enforcement on it
  unfoldable pub enforce_instance :
      SecuredExchangeBroker json sink
      → Stamp
      → SubjectAttributes
      → MimInstance json
      → AccessOperation
      → SecuredExchangeBroker json sink × TransportResult PolicyDecision
  unfolding enforce_label
  enforce_instance s stamp subject i operation = elim (instance_label i) [
    | err e ↦ (s, err e)
    | ok l ↦ enforce_label s stamp subject l operation
  ]

  -- `SecuredExchangeBroker::get_by_oid_as`
  unfoldable pub get_by_oid_as :
      SecuredExchangeBroker json sink
      → Stamp
      → SubjectAttributes
      → ObjectIdentifier
      → SecuredExchangeBroker json sink × TransportResult (MimInstance json)
  unfolding enforce_instance
  get_by_oid_as s stamp subject oid = elim (get_by_oid json s.inner oid) [
    | err e ↦ (s, err e)
    | ok i ↦
        let (s', decided) = enforce_instance s stamp subject i read in
        (s', decided >>= λ decision. ok i)
  ]

  -- the end of the operations that change the broker: nothing changes where the access is refused
  unfoldable pub change_inner {ℓ} :
      {A : Type ℓ}
      → SecuredExchangeBroker json sink
      → TransportResult PolicyDecision
      → TransportResult (ExchangeBroker json × A)
      → SecuredExchangeBroker json sink × TransportResult A
  change_inner s (err e) changed = (s, err e)
  change_inner s (ok decision) (err e) = (s, err e)
  change_inner s (ok decision) (ok (b, response)) = (record s { inner = b }, ok response)

  -- `SecuredExchangeBroker::delete_object_as`
  unfoldable pub delete_object_as :
      SecuredExchangeBroker json sink
      → Stamp
      → SubjectAttributes
      → ObjectIdentifier
      → SecuredExchangeBroker json sink × TransportResult DeleteObjectResponse
  unfolding enforce_instance change_inner
  delete_object_as s stamp subject oid = elim (get_by_oid json s.inner oid) [
    | err e ↦ (s, err e)
    | ok i ↦
        let (s', decided) = enforce_instance s stamp subject i delete in
        change_inner s' decided (delete_object json s.inner oid)
  ]

  -- `SecuredExchangeBroker::put_object_as`
  unfoldable pub put_object_as :
      Validators json
      → SecuredExchangeBroker json sink
      → Stamp
      → SubjectAttributes
      → MimInstance json
      → SecuredExchangeBroker json sink × TransportResult PutObjectResponse
  unfolding enforce_instance change_inner
  put_object_as v s stamp subject i =
      let (s', decided) = enforce_instance s stamp subject i write in
      change_inner s' decided (put_object json v s.inner i)

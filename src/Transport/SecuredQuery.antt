-- ===== src/Transport/SecuredQuery.antt =====
-- crates/mim-transport/src/secured.rs: the secured operations that go over many instances. Each
-- enforcement writes its own audit record, with the stamps in order.
use ainext_gen_c.Base.{
  ℕ, suc, Bool, true, false, List, [], ◌∷◌, ◌++◌, Text, text, length, ok, err, ◌>>=◌, is_ok, ok_or,
  if◌then◌else◌,
}
use ainext_gen_c.Audit.Record.{Stamp}
use ainext_gen_c.Audit.Chain.{ChainBackend}
use ainext_gen_c.Audit.Log.{AuditSink, AuditLog}
use ainext_gen_c.Policy.Context.{read, SubjectAttributes}
use ainext_gen_c.Policy.Store.{domain, preset_high_to_low}
use ainext_gen_c.Policy.Pep.{new_pep, with_audit}
use ainext_gen_c.Runtime.Instance.{Json, MimInstance}
use ainext_gen_c.Transport.Message.{
  TransportResult, validation, IesOperation, op_delete_object, JournalEntry, SyncResponse,
  PutObjectResponse,
}
use ainext_gen_c.Transport.Broker.{Validators, ExchangeBroker, sync_since}
use ainext_gen_c.Transport.Query.{GetByFilterRequest, GetByFilterResponse, get_by_filter}
use ainext_gen_c.Transport.Secured.{
  SecuredExchangeBroker, instance_label, enforce_label, get_by_oid_as, put_object_as,
}

-- the stamps after the first one
abbrev pub later_stamps : (ℕ → Stamp) → ℕ → Stamp
later_stamps stamps n = stamps (suc n)

-- `entry.operation == IesOperation::DeleteObject`
abbrev pub is_delete_object : IesOperation → Bool
is_delete_object op_delete_object = true
is_delete_object _ = false

module _ (json : Json) (k : ChainBackend) (sink : AuditSink) (upper : ℕ → Text) where
  -- `SecuredExchangeBroker::from_preset`
  unfoldable pub from_preset :
      ExchangeBroker json
      → SubjectAttributes
      → Text
      → TransportResult (SecuredExchangeBroker json sink)
  from_preset inner subject domain_id = do
    d ←
        ok_or (domain preset_high_to_low domain_id)
          (validation (text "unknown security domain '" ++ domain_id ++ text "'"))
    ok (record {
      inner = inner;
      pep = new_pep k sink preset_high_to_low;
      subject = subject;
      domain = d;
    })

  -- `SecuredExchangeBroker::with_subject`
  unfoldable pub with_subject :
      SecuredExchangeBroker json sink → SubjectAttributes → SecuredExchangeBroker json sink
  with_subject s subject = record s { subject = subject }

  -- `SecuredExchangeBroker::with_audit`
  unfoldable pub secured_with_audit :
      SecuredExchangeBroker json sink → AuditLog sink → SecuredExchangeBroker json sink
  secured_with_audit s audit = record s { pep = with_audit k sink s.pep audit }

  -- the loop of `get_by_filter_as`: the instances that the subject may read
  unfoldable pub permitted_from :
      (ℕ → Stamp)
      → SecuredExchangeBroker json sink
      → SubjectAttributes
      → List (MimInstance json)
      → SecuredExchangeBroker json sink × TransportResult (List (MimInstance json))
  permitted_from stamps s subject [] = (s, ok [])
  permitted_from stamps s subject (i ∷ rest) = elim (instance_label json k sink upper i) [
    | err e ↦ (s, err e)
    | ok l ↦
        let (s', decided) = enforce_label json k sink upper s (stamps 0) subject l read in
        let (s'', others) = permitted_from (later_stamps stamps) s' subject rest in
        (s'', others >>= λ found. ok (if is_ok decided then i ∷ found else found))
  ]

  -- `SecuredExchangeBroker::get_by_filter_as`
  unfoldable pub get_by_filter_as :
      (ℕ → Stamp)
      → SecuredExchangeBroker json sink
      → SubjectAttributes
      → GetByFilterRequest
      → SecuredExchangeBroker json sink × TransportResult (GetByFilterResponse json)
  unfolding permitted_from
  get_by_filter_as stamps s subject request = elim (get_by_filter json s.inner request) [
    | err e ↦ (s, err e)
    | ok r ↦
        let (s', permitted) = permitted_from stamps s subject r.instances in
        (
          s',
          permitted >>= λ found.
              ok (record { instances = found; count = length found; total = r.total }),
        )
  ]

  -- the loop of `sync_since_as`: deletions, and the entries whose object the subject may read
  unfoldable pub visible_entries :
      (ℕ → Stamp)
      → SecuredExchangeBroker json sink
      → SubjectAttributes
      → List JournalEntry
      → SecuredExchangeBroker json sink × List JournalEntry
  visible_entries stamps s subject [] = (s, [])
  visible_entries stamps s subject (e ∷ rest) = elim (is_delete_object e.operation) [
    | true ↦ let (s', others) = visible_entries stamps s subject rest in (s', e ∷ others)
    | false ↦
        let (s', found) = get_by_oid_as json k sink upper s (stamps 0) subject e.oid in
        let (s'', others) = visible_entries (later_stamps stamps) s' subject rest in
        (s'', if is_ok found then e ∷ others else others)
  ]

  -- `SecuredExchangeBroker::sync_since_as`
  unfoldable pub sync_since_as :
      (ℕ → Stamp)
      → SecuredExchangeBroker json sink
      → SubjectAttributes
      → ℕ
      → SecuredExchangeBroker json sink × SyncResponse
  unfolding visible_entries
  sync_since_as stamps s subject since =
      let raw = sync_since json s.inner since in
      let (s', entries) = visible_entries stamps s subject raw.entries in
      (s', record { latest_sequence = raw.latest_sequence; entries = entries })

  -- `SecuredExchangeBroker::publish_store`: an error leaves the instances before it published
  unfoldable pub publish_store_as :
      Validators json
      → (ℕ → Stamp)
      → SecuredExchangeBroker json sink
      → List (MimInstance json)
      → SecuredExchangeBroker json sink × TransportResult (List PutObjectResponse)
  publish_store_as v stamps s [] = (s, ok [])
  publish_store_as v stamps s (i ∷ rest) =
      let (s', put) = put_object_as json k sink upper v s (stamps 0) s.subject i in
      let (s'', others) = publish_store_as v (later_stamps stamps) s' rest in
      elim put [
        | err e ↦ (s', err e)
        | ok response ↦ (s'', others >>= λ responses. ok (response ∷ responses))
      ]

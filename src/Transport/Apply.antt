-- ===== src/Transport/Apply.antt =====
-- crates/mim-transport/src/broker.rs: the entries of another broker's journal, applied to this one.
use ainext_gen_c.Base.{◌++◌, Option, text, ok, err, ◌>>=◌, ok_or, if◌then◌else◌}
use ainext_gen_c.Runtime.Instance.{Json, MimInstance}
use ainext_gen_c.Transport.Message.{
  TransportError, TransportResult, not_found, validation, unsupported, IesOperation, op_put_object,
  op_delete_object, operation_text, JournalEntry,
}
use ainext_gen_c.Transport.Broker.{
  Validators, ExchangeBroker, store_get, store_contains, put_object, delete_object,
}

module _ (json : Json) where
  -- `ExchangeBroker::apply_delete_entry`
  unfoldable pub apply_delete_entry :
      ExchangeBroker json → JournalEntry → TransportResult (ExchangeBroker json)
  apply_delete_entry b e =
      let deleted = delete_object json b e.oid in
      if store_contains json b e.oid
      then (do (b', response) ← deleted; ok (record b' { applied_sequence = e.sequence }))
      else ok (record b { applied_sequence = e.sequence })

  module _ (v : Validators json) where
    -- `ExchangeBroker::apply_put_entry`
    unfoldable pub apply_put_entry :
        ExchangeBroker json
        → JournalEntry
        → MimInstance json
        → TransportResult (ExchangeBroker json)
    apply_put_entry b e instance' = do
      (b', response) ← put_object json v b instance'
      ok (record b' { applied_sequence = e.sequence })

    -- the error of an entry that is not a change
    unfoldable pub not_replicable : IesOperation → TransportError
    not_replicable operation =
        unsupported
          (text "journal operation " ++ (operation_text operation ++ text " is not replicable"))

    -- `ExchangeBroker::apply_entry_from`
    unfoldable pub apply_entry_from :
        ExchangeBroker json
        → ExchangeBroker json
        → JournalEntry
        → TransportResult (ExchangeBroker json)
    apply_entry_from b publisher e = elim e.operation [
      | op_put_object ↦
          ok_or (store_get json publisher e.oid) (not_found e.oid) >>= apply_put_entry b e
      | op_delete_object ↦ apply_delete_entry b e
      | _ ↦ err (not_replicable e.operation)
    ]

    -- `ExchangeBroker::apply_remote_entry`
    unfoldable pub apply_remote_entry :
        ExchangeBroker json
        → JournalEntry
        → Option (MimInstance json)
        → TransportResult (ExchangeBroker json)
    apply_remote_entry b e instance' = elim e.operation [
      | op_put_object ↦
          ok_or instance'
            (validation (text "missing instance payload for replicated PutObject " ++ e.oid))
          >>= apply_put_entry b e
      | op_delete_object ↦ apply_delete_entry b e
      | _ ↦ err (not_replicable e.operation)
    ]

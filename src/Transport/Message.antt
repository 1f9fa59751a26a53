-- ===== src/Transport/Message.antt =====
-- crates/mim-transport/src/message.rs and error.rs: requests, responses, journal entries, errors.
use ainext_gen_c.Base.{ℕ, Bool, List, Text, text, Result}
use ainext_gen_c.Runtime.Instance.{ObjectIdentifier}

pub data TransportError : Type 0 where
  invalid_request not_found inactive_object serialization validation forbidden unsupported :
      Text → TransportError

abbrev pub TransportResult {ℓ} : Type ℓ → Type ℓ
TransportResult A = Result TransportError A

pub data IesOperation : Type 0 where
  op_put_object op_get_by_oid op_get_by_filter op_delete_object op_sync : IesOperation

-- the `Debug` text of an operation
unfoldable pub operation_text : IesOperation → Text
operation_text op_put_object = text "PutObject"
operation_text op_get_by_oid = text "GetByOid"
operation_text op_get_by_filter = text "GetByFilter"
operation_text op_delete_object = text "DeleteObject"
operation_text op_sync = text "Sync"

pub record JournalEntry : Type 0 where
  pub sequence : ℕ
  pub operation : IesOperation
  pub oid : ObjectIdentifier

pub record SyncResponse : Type 0 where
  pub latest_sequence : ℕ
  pub entries : List JournalEntry

pub record PutObjectResponse : Type 0 where
  pub oid : ObjectIdentifier
  pub created : Bool

pub record DeleteObjectResponse : Type 0 where
  pub oid : ObjectIdentifier
  pub deleted : Bool

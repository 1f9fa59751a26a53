-- ===== src/Transport/Broker.antt =====
-- crates/mim-transport/src/broker.rs: the exchange broker. An operation on `&mut self` returns the
-- new broker with its response, or an error and then leaves the broker as it was.
use ainext_gen_c.Base.{
  ℕ, zero, suc, ◌+◌, Bool, not, List, [], ◌∷◌, ◌++◌, Option, Text, text, length, retain, Map, get,
  put, contains_key, member, set_insert, set_remove, ltb, Result, ok, err, ◌>>=◌, ◌>>◌, fail_if,
  ok_or, map_err, if◌then◌else◌,
}
use Prim.Native.Nat.{◌/◌, ◌%◌}
use ainext_gen_c.Runtime.Instance.{Json, ObjectIdentifier, MimInstance}
use ainext_gen_c.Runtime.Report.{ValidationReport, is_valid, error_count}
use ainext_gen_c.Transport.Message.{
  TransportResult, not_found, inactive_object, validation, IesOperation, op_put_object,
  op_delete_object, JournalEntry, SyncResponse, PutObjectResponse, DeleteObjectResponse,
}

-- What the broker asks of the runtime: the check of the serialised instance, and the report of the
-- validator over the broker's registry.
pub record Validators (json : Json) : Type 0 where
  pub validate_serialized_instance : MimInstance json → Result Text (Unit {0})
  pub validate_instance : MimInstance json → ValidationReport

-- the decimal digits of `n` in front of `rest`; `fuel` is at least the number of digits
digits : ℕ → ℕ → Text → Text
digits zero n rest = rest
digits (suc fuel) n rest =
    let more = digits fuel (n / 10) ((48 + n % 10) ∷ rest) in
    if ltb n 10 then (48 + n) ∷ rest else more

-- a number in a message
unfoldable pub decimal : ℕ → Text
unfolding digits
decimal n = digits (suc n) n []

-- `u64::MAX`
abbrev pub max_u64 : ℕ
max_u64 = 18446744073709551615

-- `u64::saturating_add`
unfoldable pub saturating_add : ℕ → ℕ → ℕ
saturating_add a b = if ltb max_u64 (a + b) then max_u64 else a + b

-- `ExchangeBroker`, less the registry, which only the validator reads
pub record ExchangeBroker (json : Json) : Type 0 where
  pub store : Map (MimInstance json)
  pub inactive : List ObjectIdentifier
  pub journal : List JournalEntry
  pub sequence : ℕ
  pub applied_sequence : ℕ

module _ (json : Json) where
  -- `ExchangeBroker::new`
  unfoldable pub new_broker : ExchangeBroker json
  new_broker = record {
    store = [];
    inactive = [];
    journal = [];
    sequence = 0;
    applied_sequence = 0;
  }

  -- the `IndexMap` that `collect` builds of the instances
  unfoldable pub collect_store :
      List (MimInstance json) → Map (MimInstance json) → Map (MimInstance json)
  collect_store [] m = m
  collect_store (i ∷ rest) m = collect_store rest (put i.oid i m)

  -- `ExchangeBroker::from_snapshot`; the duplicates that a `HashSet` would drop stay in the list
  unfoldable pub from_snapshot :
      List (MimInstance json)
      → List ObjectIdentifier
      → List JournalEntry
      → ℕ
      → ℕ
      → ExchangeBroker json
  unfolding collect_store
  from_snapshot instances inactive journal sequence applied_sequence = record {
    store = collect_store instances [];
    inactive = inactive;
    journal = journal;
    sequence = sequence;
    applied_sequence = applied_sequence;
  }

  unfoldable pub store_get : ExchangeBroker json → ObjectIdentifier → Option (MimInstance json)
  store_get b oid = get oid b.store

  unfoldable pub store_contains : ExchangeBroker json → ObjectIdentifier → Bool
  store_contains b oid = contains_key oid b.store

  -- `ExchangeBroker::record_journal`
  unfoldable pub record_journal :
      ExchangeBroker json → IesOperation → ObjectIdentifier → ExchangeBroker json
  record_journal b operation oid =
      let next = saturating_add b.sequence 1 in
      record b {
        sequence = next;
        journal = b.journal ++ (record { sequence = next; operation = operation; oid = oid }) ∷ [];
      }

  -- `ExchangeBroker::sync_since`
  unfoldable pub sync_since : ExchangeBroker json → ℕ → SyncResponse
  sync_since b since = record {
    latest_sequence = b.sequence;
    entries = retain (λ (e : JournalEntry). ltb since e.sequence) b.journal;
  }

  -- `ExchangeBroker::get_by_oid`
  unfoldable pub get_by_oid :
      ExchangeBroker json → ObjectIdentifier → TransportResult (MimInstance json)
  get_by_oid b oid = do
    fail_if (member oid b.inactive) (inactive_object oid)
    ok_or (get oid b.store) (not_found oid)

  -- `ExchangeBroker::active_count`
  unfoldable pub active_count : ExchangeBroker json → ℕ
  active_count b =
      length (retain (λ (e : Text × MimInstance json). not (member e.0 b.inactive)) b.store)

  -- the rest of `put_object`, once the instance is validated
  unfoldable pub store_instance : ExchangeBroker json → MimInstance json → ExchangeBroker json
  unfolding record_journal
  store_instance b instance' =
      record_journal
        (record b {
          store = put instance'.oid instance' b.store;
          inactive = set_remove instance'.oid b.inactive;
        })
        op_put_object instance'.oid

  -- the rest of `delete_object`, for an object that is known
  unfoldable pub mark_inactive : ExchangeBroker json → ObjectIdentifier → ExchangeBroker json
  unfolding record_journal
  mark_inactive b oid =
      record_journal (record b { inactive = set_insert oid b.inactive }) op_delete_object oid

  -- `ExchangeBroker::delete_object`
  unfoldable pub delete_object :
      ExchangeBroker json
      → ObjectIdentifier
      → TransportResult (ExchangeBroker json × DeleteObjectResponse)
  delete_object b oid = do
    fail_if (not (contains_key oid b.store)) (not_found oid)
    ok (mark_inactive b oid, record { oid = oid; deleted = not (member oid b.inactive) })

  module _ (v : Validators json) where
    -- `ExchangeBroker::put_object`
    unfoldable pub put_object :
        ExchangeBroker json
        → MimInstance json
        → TransportResult (ExchangeBroker json × PutObjectResponse)
    put_object b instance' = do
      map_err validation (v.validate_serialized_instance instance')
      fail_if (not (is_valid (v.validate_instance instance'))) (
          validation (
            decimal (error_count (v.validate_instance instance'))
            ++ text " validation issue(s) on PutObject"))
      ok (
        store_instance b instance',
        record { oid = instance'.oid; created = not (contains_key instance'.oid b.store) },
      )

    -- `ExchangeBroker::publish_store`: an error leaves the instances before it published
    unfoldable pub publish_store :
        ExchangeBroker json
        → List (MimInstance json)
        → ExchangeBroker json × TransportResult (List PutObjectResponse)
    publish_store b [] = (b, ok [])
    publish_store b (i ∷ rest) = elim (put_object b i) [
      | err e ↦ (b, err e)
      | ok (b', response) ↦
          let (b'', responses) = publish_store b' rest in
          (b'', responses >>= λ rs. ok (response ∷ rs))
    ]

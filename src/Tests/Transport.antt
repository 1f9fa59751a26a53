-- ===== src/Tests/Transport.antt =====
-- A broker, its changes and a replication on concrete instances.
use ainext_gen_c.Base.{
  All, text_eq, if◌then◌else◌, ◌≡◌, ◌≤◌, ◌⊎◌, ◌↔◌, ◌+◌, refl, true, false, not, List, [], ◌∷◌, ◌++◌,
  some, none, Text, text, length, drop, ok, err, contains_key, member, arith,
}
use ainext_gen_c.Core.Nillable.{absent}
use ainext_gen_c.Runtime.Instance.{string_view, Json, MimInstance}
use ainext_gen_c.Runtime.Report.{is_valid}
use ainext_gen_c.Transport.Message.{
  JournalEntry, op_put_object, op_delete_object, not_found, inactive_object,
}
use ainext_gen_c.Transport.Broker.{
  store_instance, Validators, ExchangeBroker, put_object, delete_object, get_by_oid, sync_since,
}
use ainext_gen_c.Transport.Lookup.{put_object-get_by_oid, delete_object-get_by_oid}
use ainext_gen_c.Transport.Journal.{IsNumbered, Steps, stay, then_step, delete_step}
use ainext_gen_c.Transport.Sync.{sync_since-Steps}
use ainext_gen_c.Transport.Snapshot.{
  snapshot_of, restore, IsUnderOid, HasDistinctKeys, restore-snapshot_of,
}
use ainext_gen_c.Transport.Replication.{pull_and_apply, pull_and_apply-again}

abbrev pub texts_only : Json
texts_only = record {
  Value = Text;
  of_text = λ s. s;
  view = λ s. string_view s;
  to_string = λ s. s;
}

abbrev pub accepting : Validators texts_only
accepting = record { validate_serialized_instance = λ i. ok tt; validate_instance = λ i. [] }

abbrev pub target : MimInstance texts_only
target = record {
  oid = text "urn:1";
  class_name = text "Target";
  class_semantic_id = text "aaaaaaaa-aaaa-4aaa-8aaa-aaaaaaaaaaaa";
  metadata = record {
    reporter = record { name = absent; role = absent; organisation = absent };
    observer = record { name = absent; role = absent };
    appraisal = record { confidence = absent; credibility = absent; reliability = absent };
    validity = record { start = absent; end = absent };
    security = record { policy = absent; classification = absent; releasability = absent };
  };
  properties = [];
  associations = [];
}

abbrev pub empty : ExchangeBroker texts_only
empty = record { store = []; inactive = []; journal = []; sequence = 0; applied_sequence = 0 }

abbrev pub put_entry : JournalEntry
put_entry = record { sequence = 1; operation = op_put_object; oid = text "urn:1" }

abbrev pub delete_entry : JournalEntry
delete_entry = record { sequence = 2; operation = op_delete_object; oid = text "urn:1" }

abbrev pub with_target : ExchangeBroker texts_only
with_target = record {
  store = (text "urn:1", target) ∷ [];
  inactive = [];
  journal = put_entry ∷ [];
  sequence = 1;
  applied_sequence = 0;
}

abbrev pub without_target : ExchangeBroker texts_only
without_target = record with_target {
  inactive = text "urn:1" ∷ [];
  journal = put_entry ∷ delete_entry ∷ [];
  sequence = 2;
}

put_run :
    put_object texts_only accepting empty target
    ≡ ok (with_target, record { oid = text "urn:1"; created = true })
unfolding put_object is_valid ainext_gen_c.Base.any ainext_gen_c.Transport.Broker.store_instance
    contains_key ainext_gen_c.Base.put ainext_gen_c.Base.set_remove
    ainext_gen_c.Transport.Broker.saturating_add
put_run = refl

delete_run :
    delete_object texts_only with_target (text "urn:1")
    ≡ ok (without_target, record { oid = text "urn:1"; deleted = true })
unfolding delete_object contains_key ainext_gen_c.Base.text_eq text
    ainext_gen_c.Transport.Broker.mark_inactive member ainext_gen_c.Base.set_insert
    ainext_gen_c.Transport.Broker.saturating_add
delete_run = refl

put_object-get_by_oid_example :
    (get_by_oid texts_only with_target (text "urn:1") ≡ (
      if text_eq (text "urn:1") (text "urn:1")
      then ok target
      else get_by_oid texts_only empty (text "urn:1")))
    × (true ≡ not (contains_key (text "urn:1") empty.store))
    × (accepting.validate_serialized_instance target ≡ ok tt)
    × (is_valid (accepting.validate_instance target) ≡ true)
put_object-get_by_oid_example =
    put_object-get_by_oid texts_only accepting empty with_target target
      (record { oid = text "urn:1"; created = true }) (text "urn:1") put_run

delete_object-get_by_oid_example :
    ((contains_key (text "urn:1") with_target.store ≡ false)
      × (delete_object texts_only with_target (text "urn:1") ≡ err (not_found (text "urn:1"))))
    ⊎ ((b' : ExchangeBroker texts_only) × (delete_object texts_only with_target (text "urn:1")
          ≡ ok (
            b',
            record {
              oid = text "urn:1";
              deleted = not (member (text "urn:1") with_target.inactive);
            },
          ))
        × (get_by_oid texts_only b' (text "urn:2") ≡ (
            if text_eq (text "urn:1") (text "urn:2")
            then err (inactive_object (text "urn:2"))
            else get_by_oid texts_only with_target (text "urn:2"))))
delete_object-get_by_oid_example =
    delete_object-get_by_oid texts_only with_target (text "urn:1") (text "urn:2")

deleting : Steps texts_only accepting with_target without_target
deleting = then_step with_target with_target without_target (stay with_target) (
    delete_step with_target without_target (text "urn:1")
      (record { oid = text "urn:1"; deleted = true }) delete_run)

with_target-IsNumbered : IsNumbered texts_only with_target
with_target-IsNumbered = record { numbered = (omega arith, tt); counted = omega arith }

sync_since-Steps_example :
    (new : List JournalEntry) × (without_target.journal ≡ with_target.journal ++ new)
    × ((sync_since texts_only without_target 1).entries ≡ new)
    × IsNumbered texts_only without_target
sync_since-Steps_example =
    sync_since-Steps texts_only accepting with_target without_target deleting with_target-IsNumbered
      (omega arith)

abbrev replica : ExchangeBroker texts_only
replica = record with_target { applied_sequence = 1 }

pull_run :
    pull_and_apply texts_only accepting empty with_target 0
    ≡ (replica, ok (record { applied = 1; skipped = 0; latest_sequence = 1 }))
unfolding pull_and_apply sync_since ainext_gen_c.Base.retain
    ainext_gen_c.Transport.Apply.apply_entry_from ainext_gen_c.Transport.Broker.store_get
    ainext_gen_c.Base.get ainext_gen_c.Base.text_eq text
    ainext_gen_c.Transport.Apply.apply_put_entry put_object is_valid ainext_gen_c.Base.any
    ainext_gen_c.Transport.Broker.store_instance ainext_gen_c.Base.put ainext_gen_c.Base.set_remove
    ainext_gen_c.Transport.Broker.saturating_add
pull_run = refl

pull_and_apply-again_example :
    (1 + 0 ≡ length (sync_since texts_only with_target 0).entries)
    × (0 ≤ replica.applied_sequence)
    × (pull_and_apply texts_only accepting replica with_target 0 ≡ (
      replica,
      ok (record {
        applied = 0;
        skipped = 1 + 0;
        latest_sequence = (sync_since texts_only with_target 0).latest_sequence;
      }),
    ))
pull_and_apply-again_example =
    pull_and_apply-again texts_only accepting empty replica with_target 0
      (record { applied = 1; skipped = 0; latest_sequence = 1 }) pull_run

with_target-IsUnderOid : All (IsUnderOid texts_only) with_target.store
with_target-IsUnderOid = (refl, tt)

with_target-HasDistinctKeys : HasDistinctKeys texts_only with_target.store
unfolding contains_key
with_target-HasDistinctKeys = (refl, tt)

restore-snapshot_of_example :
    restore texts_only (text "5.1.0") (snapshot_of texts_only (text "5.1.0") with_target)
    ≡ ok (record with_target { applied_sequence = 1 })
restore-snapshot_of_example =
    restore-snapshot_of texts_only (text "5.1.0") with_target with_target-IsUnderOid
      with_target-HasDistinctKeys

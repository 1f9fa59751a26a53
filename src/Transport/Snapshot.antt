-- ===== src/Transport/Snapshot.antt =====
-- crates/mim-transport/src/persistence.rs: the snapshot of a broker, and the broker that is loaded
-- of it. The file and its JSON are left out: a snapshot is read as it was written.
use ainext_gen_c.Base.{
  ℕ, ◌≡◌, refl, sym, ap, subst, ◌∙◌, true, false, not, inl, inr, List, [], ◌∷◌, ◌++◌, append_assoc,
  append-nil, Text, text, text_eq, text_eq_iff, text_eq_refl, All, Map, put, contains_key, ok, ◌>>◌,
  fail_if, values, ◌==◌, arith, Bool-cases, if◌then◌else◌,
}
use ainext_gen_c.Runtime.Instance.{Json, ObjectIdentifier, MimInstance}
use ainext_gen_c.Transport.Message.{TransportResult, validation, JournalEntry}
use ainext_gen_c.Transport.Broker.{
  ExchangeBroker, collect_store, from_snapshot, record_journal, store_instance,
}

pub record ExchangeSnapshot (json : Json) : Type 0 where
  pub model_version : Text
  pub instances : List (MimInstance json)
  pub inactive : List ObjectIdentifier
  pub journal : List JournalEntry
  pub sequence : ℕ
  pub applied_sequence : ℕ

text_eq-swap : (s t : Text) → text_eq s t ≡ false → text_eq t s ≡ false
text_eq-swap s t h = elim (Bool-cases (text_eq t s)) [
  | inl same ↦ absurd (ground (arith, h, (text_eq_iff s t).1 (sym ((text_eq_iff t s).0 same))))
  | inr differs ↦ differs
]

module _ (json : Json) where
  -- the snapshot that `FileExchangeStore::save` writes, under the registry's version
  unfoldable pub snapshot_of : Text → ExchangeBroker json → ExchangeSnapshot json
  snapshot_of version b = record {
    model_version = version;
    instances = values b.store;
    inactive = b.inactive;
    journal = b.journal;
    sequence = b.sequence;
    applied_sequence = b.applied_sequence;
  }

  -- what `FileExchangeStore::load` makes of a snapshot, for a registry of the given version
  unfoldable pub restore : Text → ExchangeSnapshot json → TransportResult (ExchangeBroker json)
  restore version s = do
    fail_if (not (text_eq s.model_version version)) (
        validation (
          text "snapshot model version "
          ++ (s.model_version ++ (text " does not match registry " ++ version))))
    ok (
        from_snapshot json s.instances s.inactive s.journal s.sequence
          (if s.applied_sequence == 0 then s.sequence else s.applied_sequence))

  -- each key once
  abbrev pub HasDistinctKeys : Map (MimInstance json) → Type 0
  HasDistinctKeys [] = Unit
  HasDistinctKeys ((k, i) ∷ rest) = (contains_key k rest ≡ false) × HasDistinctKeys rest

  -- an instance is stored under its own identifier
  abbrev pub IsUnderOid : Text × MimInstance json → Type 0
  IsUnderOid (k, i) = i.oid ≡ k

  contains_key-append :
      (k : Text) (i : MimInstance json) (m rest : Map (MimInstance json))
      → contains_key k (m ++ (k, i) ∷ rest) ≡ true
  unfolding contains_key
  contains_key-append k i [] rest = rw (text_eq_refl k) refl
  contains_key-append k i ((j, b) ∷ m) rest = ground (arith, contains_key-append k i m rest)

  fresh_key :
      (k : Text) (i : MimInstance json) (m rest : Map (MimInstance json))
      → HasDistinctKeys (m ++ (k, i) ∷ rest)
      → contains_key k m ≡ false
  unfolding contains_key
  fresh_key k i [] rest h = refl
  fresh_key k i ((j, b) ∷ m) rest h = elim (Bool-cases (text_eq j k)) [
    | inl same ↦ absurd (
        ground (
          arith,
          h.0,
          subst (λ l. contains_key l (m ++ (k, i) ∷ rest) ≡ true) (sym ((text_eq_iff j k).0 same))
              (contains_key-append k i m rest),
        ))
    | inr differs ↦ rw differs (fresh_key k i m rest h.1)
  ]

  put-fresh :
      (k : Text) (i : MimInstance json) (m : Map (MimInstance json))
      → contains_key k m ≡ false
      → put k i m ≡ m ++ (k, i) ∷ []
  unfolding contains_key put
  put-fresh k i [] h = refl
  put-fresh k i ((j, b) ∷ m) h = ground (arith, h, put-fresh k i m)

  collect_store-values :
      (m xs : Map (MimInstance json))
      → All IsUnderOid xs
      → HasDistinctKeys (m ++ xs)
      → collect_store json (values xs) m ≡ m ++ xs
  unfolding collect_store
  collect_store-values m [] under distinct = sym (append-nil m)
  collect_store-values m ((k, i) ∷ xs) under distinct =
      let fresh = put-fresh k i m (fresh_key k i m xs distinct) in
      let assoc = append_assoc m ((k, i) ∷ []) xs in
      ap (λ l. collect_store json (values xs) (put l i m)) under.0
      ∙ ap (collect_store json (values xs)) fresh
      ∙ collect_store-values (m ++ (k, i) ∷ []) xs under.1
          (subst HasDistinctKeys (sym assoc) distinct)
      ∙ assoc

  -- A broker whose instances stand under their own identifiers, each once, is loaded as it was
  -- saved under the same model version, but for the applied sequence: 0 becomes the broker's own
  -- sequence.
  pub restore-snapshot_of :
      (version : Text) (b : ExchangeBroker json)
      → All IsUnderOid b.store
      → HasDistinctKeys b.store
      → restore version (snapshot_of version b)
        ≡ ok (record b {
          applied_sequence = if b.applied_sequence == 0 then b.sequence else b.applied_sequence;
        })
  unfolding restore snapshot_of from_snapshot
  restore-snapshot_of version b under distinct =
      rw (text_eq_refl version, collect_store-values [] b.store under distinct) refl

  put-IsUnderOid :
      (i : MimInstance json) (m : Map (MimInstance json))
      → All IsUnderOid m
      → All IsUnderOid (put i.oid i m)
  unfolding put
  put-IsUnderOid i [] h = (refl, tt)
  put-IsUnderOid i ((j, b) ∷ m) h = elim (Bool-cases (text_eq j i.oid)) [
    | inl same ↦ rw same (sym ((text_eq_iff j i.oid).0 same), h.1)
    | inr differs ↦ rw differs (h.0, put-IsUnderOid i m h.1)
  ]

  contains_key-put_other :
      (j k : Text) (i : MimInstance json) (m : Map (MimInstance json))
      → text_eq k j ≡ false
      → contains_key j (put k i m) ≡ contains_key j m
  unfolding contains_key put
  contains_key-put_other j k i [] h = rw h refl
  contains_key-put_other j k i ((l, b) ∷ m) h = ground (arith, contains_key-put_other j k i m h)

  put-HasDistinctKeys :
      (k : Text) (i : MimInstance json) (m : Map (MimInstance json))
      → HasDistinctKeys m
      → HasDistinctKeys (put k i m)
  unfolding put
  put-HasDistinctKeys k i [] h = (unfold contains_key in refl, tt)
  put-HasDistinctKeys k i ((j, b) ∷ m) h = elim (Bool-cases (text_eq j k)) [
    | inl same ↦ rw same h
    | inr differs ↦ rw differs (
      contains_key-put_other j k i m (text_eq-swap j k differs) ∙ h.0,
      put-HasDistinctKeys k i m h.1,
    )
  ]

  -- Putting an instance keeps the store one that is loaded as it was saved.
  pub store_instance-saved :
      (b : ExchangeBroker json) (i : MimInstance json)
      → All IsUnderOid b.store
      → HasDistinctKeys b.store
      → All IsUnderOid (store_instance json b i).store
        × HasDistinctKeys (store_instance json b i).store
  unfolding store_instance record_journal
  store_instance-saved b i under distinct =
      (put-IsUnderOid i b.store under, put-HasDistinctKeys i.oid i b.store distinct)

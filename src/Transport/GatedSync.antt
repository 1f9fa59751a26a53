-- ===== src/Transport/GatedSync.antt =====
-- crates/mim-transport/src/secured.rs: which journal entries a subject is told of.
use ainext_gen_c.Base.{
  ℕ, ◌≡◌, ◌⊎◌, refl, subst, inl, inr, true, List, [], ◌∷◌, some, Text, All, All-map, ok, is_ok,
  Result-cases, Bool-cases, arith,
}
use ainext_gen_c.Audit.Record.{Stamp}
use ainext_gen_c.Audit.Chain.{ChainBackend}
use ainext_gen_c.Audit.Log.{AuditSink}
use ainext_gen_c.Policy.Context.{read, SubjectAttributes}
use ainext_gen_c.Policy.Store.{domain}
use ainext_gen_c.Runtime.Instance.{Json, MimInstance, ObjectIdentifier}
use ainext_gen_c.Transport.Message.{JournalEntry}
use ainext_gen_c.Transport.Broker.{get_by_oid, sync_since}
use ainext_gen_c.Transport.Secured.{
  SecuredExchangeBroker, instance_label, enforce_instance, get_by_oid_as,
}
use ainext_gen_c.Transport.SecuredQuery.{
  later_stamps, is_delete_object, visible_entries, sync_since_as,
}
use ainext_gen_c.Transport.Gated.{Accessed, get_by_oid_as-Accessed}
use ainext_gen_c.Transport.GatedQuery.{
  IsSameGate, enforce_label-IsSameGate, Accessed-IsSameGate, same_domain, All-if,
}

module _ (json : Json) (k : ChainBackend) (sink : AuditSink) (upper : ℕ → Text) where
  get_by_oid_as-IsSameGate :
      (s : SecuredExchangeBroker json sink) (stamp : Stamp) (subject : SubjectAttributes)
      (oid : ObjectIdentifier)
      → IsSameGate json k sink upper s (get_by_oid_as json k sink upper s stamp subject oid).0
  unfolding get_by_oid_as enforce_instance
  get_by_oid_as-IsSameGate s stamp subject oid = elim (Result-cases (get_by_oid json s.inner oid)) [
    | inr (e, missing) ↦ rw (get_by_oid_as, missing) (refl, refl, refl, refl)
    | inl (i, found) ↦ elim (Result-cases (instance_label json k sink upper i)) [
      | inr (e, failed) ↦
          rw (get_by_oid_as, found, enforce_instance, failed) (refl, refl, refl, refl)
      | inl (l, labelled) ↦
          rw (get_by_oid_as, found, enforce_instance, labelled)
            (enforce_label-IsSameGate json k sink upper s stamp subject l read)
    ]
  ]

  -- the entry is a deletion, or its object is active and the subject may read it
  abbrev pub IsTold : SecuredExchangeBroker json sink → SubjectAttributes → JournalEntry → Type 0
  IsTold s subject e =
      (is_delete_object e.operation ≡ true)
      ⊎ ((i : MimInstance json) × (get_by_oid json s.inner e.oid ≡ ok i)
          × Accessed json k sink upper s subject i read)

  IsTold-IsSameGate :
      (s t : SecuredExchangeBroker json sink) (subject : SubjectAttributes) (e : JournalEntry)
      → IsSameGate json k sink upper s t
      → IsTold t subject e
      → IsTold s subject e
  IsTold-IsSameGate s t subject e same (inl deletion) = inl deletion
  IsTold-IsSameGate s t subject e same (inr (i, found, accessed)) = inr (
    i,
    subst (λ b. get_by_oid json b e.oid ≡ ok i) same.0 found,
    Accessed-IsSameGate json k sink upper s t subject i read same accessed,
  )

  get_by_oid_as-IsTold :
      (s : SecuredExchangeBroker json sink) (stamp : Stamp) (subject : SubjectAttributes)
      (e : JournalEntry)
      → domain s.pep.store s.domain.id ≡ some s.domain
      → is_ok (get_by_oid_as json k sink upper s stamp subject e.oid).1 ≡ true
      → IsTold s subject e
  get_by_oid_as-IsTold s stamp subject e known allowed =
      elim (Result-cases (get_by_oid_as json k sink upper s stamp subject e.oid).1) [
        | inr (m, refused) ↦ absurd (ground (arith, allowed, refused))
        | inl (i, returned) ↦
            let (found, accessed) =
              get_by_oid_as-Accessed json k sink upper s stamp subject known e.oid i returned in
            inr (i, found, accessed)
      ]

  visible_entries-IsTold :
      (stamps : ℕ → Stamp) (s : SecuredExchangeBroker json sink) (subject : SubjectAttributes)
      (entries : List JournalEntry)
      → domain s.pep.store s.domain.id ≡ some s.domain
      → All (IsTold s subject) (visible_entries json k sink upper stamps s subject entries).1
  unfolding visible_entries
  visible_entries-IsTold stamps s subject [] known = tt
  visible_entries-IsTold stamps s subject (e ∷ entries) known =
      elim (Bool-cases (is_delete_object e.operation)) [
        | inl deletion ↦
            rw (visible_entries, deletion)
              (inl deletion, visible_entries-IsTold stamps s subject entries known)
        | inr change ↦
            let gate = get_by_oid_as json k sink upper s (stamps 0) subject e.oid in
            let same = get_by_oid_as-IsSameGate s (stamps 0) subject e.oid in
            let rest =
              visible_entries json k sink upper (later_stamps stamps) gate.0 subject entries in
            let later =
              All-map _ (IsTold s subject) rest.1 (λ j. IsTold-IsSameGate s gate.0 subject j same)
                (visible_entries-IsTold (later_stamps stamps) gate.0 subject entries
                  (same_domain json k sink upper s gate.0 same known)) in
            rw (visible_entries, change)
              (All-if (IsTold s subject) (is_ok gate.1) e rest.1 _ refl
                (get_by_oid_as-IsTold s (stamps 0) subject e known) later)
      ]

  -- Every journal entry that a synchronisation behind the gate answers with is a deletion, or one
  -- of an active object that the subject may read, for a domain that is registered as it stands.
  pub sync_since_as-IsTold :
      (stamps : ℕ → Stamp) (s : SecuredExchangeBroker json sink) (subject : SubjectAttributes)
      (since : ℕ)
      → domain s.pep.store s.domain.id ≡ some s.domain
      → All (IsTold s subject) (sync_since_as json k sink upper stamps s subject since).1.entries
  unfolding sync_since_as
  sync_since_as-IsTold stamps s subject since known =
      visible_entries-IsTold stamps s subject (sync_since json s.inner since).entries known

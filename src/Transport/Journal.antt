-- ===== src/Transport/Journal.antt =====
-- crates/mim-transport/src/broker.rs: the journal of a broker that puts and deletions changed.
use ainext_gen_c.Base.{
  ℕ, zero, suc, ◌+◌, ◌≤◌, ◌<◌, ◌≡◌, refl, sym, ap, subst, ◌∙◌, false, inl, inr, List, [], ◌∷◌, ◌++◌,
  length, length-append, retain, drop, ltb, lt→ltb, ok, ok_injective, arith,
}
use ainext_gen_c.Runtime.Instance.{Json, ObjectIdentifier, MimInstance}
use ainext_gen_c.Transport.Message.{
  IesOperation, op_put_object, op_delete_object, JournalEntry, PutObjectResponse,
  DeleteObjectResponse,
}
use ainext_gen_c.Transport.Broker.{
  Validators, ExchangeBroker, saturating_add, max_u64, record_journal, store_instance,
  mark_inactive, put_object, delete_object,
}
use ainext_gen_c.Transport.Lookup.{put_object-returned, delete_object-cases}

-- The entries bear the numbers after `start`, one by one.
abbrev pub Numbered : ℕ → List JournalEntry → Type 0
Numbered start [] = Unit
Numbered start (e ∷ rest) = (e.sequence ≡ suc start) × Numbered (suc start) rest

Numbered-snoc :
    (start : ℕ) (j : List JournalEntry) (e : JournalEntry)
    → Numbered start j
    → e.sequence ≡ suc (start + length j)
    → Numbered start (j ++ e ∷ [])
Numbered-snoc start [] e h n = (omega (arith, n), tt)
Numbered-snoc start (d ∷ j) e h n = (h.0, Numbered-snoc (suc start) j e h.1 (omega (arith, n)))

retain_after :
    (m start : ℕ) (j : List JournalEntry)
    → m ≤ start
    → Numbered start j
    → retain (λ (e : JournalEntry). ltb m e.sequence) j ≡ j
unfolding retain
retain_after m start [] le h = refl
retain_after m start (e ∷ j) le h =
    rw
      (
        h.0,
        lt→ltb m (suc start) (omega (arith, le)),
        retain_after m (suc start) j (omega (arith, le)) h.1,
      )
      refl

pub retain_from :
    (k start : ℕ) (j : List JournalEntry)
    → Numbered start j
    → retain (λ (e : JournalEntry). ltb (start + k) e.sequence) j ≡ drop k j
unfolding retain drop
retain_from zero start j h = retain_after (start + 0) start j (omega arith) h
retain_from (suc k) start [] h = refl
retain_from (suc k) start (e ∷ j) h =
    subst (λ n. retain (λ (d : JournalEntry). ltb n d.sequence) (e ∷ j) ≡ drop k j) shift
      (rw passed_over (retain_from k (suc start) j h.1))
  where
    shift : suc start + k ≡ start + suc k
    shift = omega arith

    passed_over : ltb (suc start + k) e.sequence ≡ false
    passed_over = ground (arith, h.0)

saturating_add-below : (n : ℕ) → saturating_add n 1 < max_u64 → saturating_add n 1 ≡ suc n
unfolding saturating_add
saturating_add-below n h = ground (arith, h)

length-snoc : (j : List JournalEntry) (e : JournalEntry) → length (j ++ e ∷ []) ≡ suc (length j)
length-snoc j e = omega (arith, length-append j (e ∷ []))

module _ (json : Json) where
  -- The journal is numbered from 1 without a gap, and the sequence is its length.
  pub record IsNumbered (b : ExchangeBroker json) : Type 0 where
    pub numbered : Numbered 0 b.journal
    pub counted : b.sequence ≡ length b.journal

  record_journal-IsNumbered :
      (b : ExchangeBroker json) (operation : IesOperation) (oid : ObjectIdentifier)
      → (record_journal json b operation oid).sequence < max_u64
      → IsNumbered b
      → IsNumbered (record_journal json b operation oid)
  unfolding record_journal
  record_journal-IsNumbered b operation oid small h =
      let next = saturating_add-below b.sequence small in
      record {
        numbered = Numbered-snoc 0 b.journal _ h.numbered (omega (arith, next, h.counted));
        counted = next ∙ ap suc h.counted ∙ sym (length-snoc b.journal _);
      }

  module _ (v : Validators json) where
    -- One change of a broker: a put or a deletion that returned.
    pub data Step : ExchangeBroker json → ExchangeBroker json → Type 0 where
      put_step :
          (b b' : ExchangeBroker json) (i : MimInstance json) (r : PutObjectResponse)
          → put_object json v b i ≡ ok (b', r)
          → Step b b'
      delete_step :
          (b b' : ExchangeBroker json) (oid : ObjectIdentifier) (r : DeleteObjectResponse)
          → delete_object json b oid ≡ ok (b', r)
          → Step b b'

    -- Changes in sequence.
    pub data Steps : ExchangeBroker json → ExchangeBroker json → Type 0 where
      stay : (b : ExchangeBroker json) → Steps b b
      then_step : (b b' b'' : ExchangeBroker json) → Steps b b' → Step b' b'' → Steps b b''

  -- the journal grew by entries at its end
  abbrev pub Grew : ExchangeBroker json → ExchangeBroker json → Type 0
  Grew b b' = (new : List JournalEntry) × (b'.journal ≡ b.journal ++ new)

  record_journal-grown :
      (b : ExchangeBroker json) (operation : IesOperation) (oid : ObjectIdentifier)
      → (record_journal json b operation oid).journal
        ≡ b.journal
          ++ (record { sequence = saturating_add b.sequence 1; operation = operation; oid = oid })
            ∷ []
  unfolding record_journal
  record_journal-grown b operation oid = refl

  record_journal-below :
      (b : ExchangeBroker json) (operation : IesOperation) (oid : ObjectIdentifier)
      → (record_journal json b operation oid).sequence < max_u64
      → b.sequence < max_u64
  unfolding record_journal
  record_journal-below b operation oid small =
      omega (arith, small, saturating_add-below b.sequence small)

  -- a change, without what it did to the store
  pub record Recorded (b b' : ExchangeBroker json) : Type 0 where
    pub operation : IesOperation
    pub oid : ObjectIdentifier
    pub journal : b'.journal ≡ (record_journal json b operation oid).journal
    pub sequence : b'.sequence ≡ (record_journal json b operation oid).sequence

  pub Step-Recorded :
      (v : Validators json) (b b' : ExchangeBroker json) → Step v b b' → Recorded b b'
  unfolding store_instance mark_inactive record_journal
  Step-Recorded v b b' (put_step _ _ i r h) =
      let (same, created, serialized, valid) = put_object-returned json v b b' i r h in
      rw (← same)
        (record { operation = op_put_object; oid = i.oid; journal = refl; sequence = refl })
  Step-Recorded v b b' (delete_step _ _ oid r h) = elim (delete_object-cases json b oid) [
    | inl (unknown, refused) ↦ absurd (ground (arith, h, refused))
    | inr (known, returned) ↦
        rw (← ap (λ t. t.0) (ok_injective _ (b', r) _ returned h))
          (record { operation = op_delete_object; oid = oid; journal = refl; sequence = refl })
  ]

  pub Recorded-below :
      (b b' : ExchangeBroker json) → Recorded b b' → b'.sequence < max_u64 → b.sequence < max_u64
  Recorded-below b b' s small =
      record_journal-below b s.operation s.oid (subst (λ n. n < max_u64) s.sequence small)

  pub Recorded-IsNumbered :
      (b b' : ExchangeBroker json)
      → Recorded b b'
      → b'.sequence < max_u64
      → IsNumbered b
      → IsNumbered b' × Grew b b'
  Recorded-IsNumbered b b' s small h =
      let small' : (record_journal json b s.operation s.oid).sequence < max_u64 =
        subst (λ n. n < max_u64) s.sequence small in
      let n = record_journal-IsNumbered b s.operation s.oid small' h in
      (
        record {
          numbered = subst (Numbered 0) (sym s.journal) n.numbered;
          counted = s.sequence ∙ n.counted ∙ ap length (sym s.journal);
        },
        (_, s.journal ∙ record_journal-grown b s.operation s.oid),
      )

-- ===== src/Transport/Replication.antt =====
-- crates/mim-transport/src/replication.rs: a consumer that applies a publisher's journal.
use ainext_gen_c.Base.{
  ℕ, suc, ◌+◌, ◌≤◌, ◌≡◌, refl, sym, ap, ◌∙◌, true, false, inl, inr, List, [], ◌∷◌, length, All, leb,
  le→leb, ok, err, >>=-eq-ok, ok_or, arith, Bool-cases, Result-cases,
}
use ainext_gen_c.Runtime.Instance.{Json, MimInstance}
use ainext_gen_c.Transport.Message.{
  TransportResult, not_found, IesOperation, op_put_object, op_get_by_oid, op_get_by_filter,
  op_delete_object, op_sync, JournalEntry,
}
use ainext_gen_c.Transport.Broker.{Validators, ExchangeBroker, store_get, sync_since}
use ainext_gen_c.Transport.Apply.{apply_put_entry, apply_delete_entry, apply_entry_from}

pub record ReplicationApplyReport : Type 0 where
  pub applied : ℕ
  pub skipped : ℕ
  pub latest_sequence : ℕ

module _ (json : Json) (v : Validators json) where
  -- the loop of `ReplicationAgent::apply_sync_response`: an error leaves the consumer with the
  -- entries before it applied
  unfoldable pub apply_entries :
      ExchangeBroker json
      → ExchangeBroker json
      → List JournalEntry
      → ℕ
      → ℕ
      → ℕ
      → ExchangeBroker json × TransportResult ReplicationApplyReport
  apply_entries consumer publisher [] applied skipped latest =
      (consumer, ok (record { applied = applied; skipped = skipped; latest_sequence = latest }))
  apply_entries consumer publisher (e ∷ rest) applied skipped latest =
      elim (leb e.sequence consumer.applied_sequence) [
        | true ↦ apply_entries consumer publisher rest applied (suc skipped) latest
        | false ↦ elim (apply_entry_from json v consumer publisher e) [
          | err x ↦ (consumer, err x)
          | ok consumer' ↦ apply_entries consumer' publisher rest (suc applied) skipped latest
        ]
      ]

  -- `ReplicationAgent::pull_and_apply`
  unfoldable pub pull_and_apply :
      ExchangeBroker json
      → ExchangeBroker json
      → ℕ
      → ExchangeBroker json × TransportResult ReplicationApplyReport
  unfolding apply_entries
  pull_and_apply consumer publisher since =
      let sync = sync_since json publisher since in
      apply_entries consumer publisher sync.entries 0 0 sync.latest_sequence

  apply_delete_entry-applied :
      (c c' : ExchangeBroker json) (e : JournalEntry)
      → apply_delete_entry json c e ≡ ok c'
      → c'.applied_sequence ≡ e.sequence
  unfolding apply_delete_entry
  apply_delete_entry-applied c c' e h = ground (arith, h)

  apply_put_entry-applied :
      (c c' : ExchangeBroker json) (e : JournalEntry) (i : MimInstance json)
      → apply_put_entry json v c e i ≡ ok c'
      → c'.applied_sequence ≡ e.sequence
  unfolding apply_put_entry
  apply_put_entry-applied c c' e i h = ground (arith, h)

  -- An entry that was applied is the last one applied.
  pub apply_entry_from-applied :
      (c c' p : ExchangeBroker json) (e : JournalEntry)
      → apply_entry_from json v c p e ≡ ok c'
      → c'.applied_sequence ≡ e.sequence
  unfolding apply_entry_from
  apply_entry_from-applied c c' p e h = by_operation e.operation refl
    where
      by_operation : (o : IesOperation) → e.operation ≡ o → c'.applied_sequence ≡ e.sequence
      by_operation op_put_object is =
          let (i, found, run) =
            >>=-eq-ok (ok_or (store_get json p e.oid) (not_found e.oid))
              (apply_put_entry json v c e) (ground (arith, h, is)) in
          apply_put_entry-applied c c' e i run
      by_operation op_delete_object is = apply_delete_entry-applied c c' e (ground (arith, h, is))
      by_operation op_get_by_oid is = absurd (ground (arith, h, is))
      by_operation op_get_by_filter is = absurd (ground (arith, h, is))
      by_operation op_sync is = absurd (ground (arith, h, is))

  -- Entries that the consumer has seen are all skipped.
  apply_entries-seen :
      (c p : ExchangeBroker json) (es : List JournalEntry) (applied skipped latest : ℕ)
      → All (λ (e : JournalEntry). e.sequence ≤ c.applied_sequence) es
      → apply_entries c p es applied skipped latest ≡ (
        c,
        ok (record { applied = applied; skipped = skipped + length es; latest_sequence = latest }),
      )
  unfolding apply_entries
  apply_entries-seen c p [] applied skipped latest h = ground arith
  apply_entries-seen c p (e ∷ es) applied skipped latest h =
      rw (apply_entries, le→leb e.sequence c.applied_sequence h.0)
        (apply_entries-seen c p es applied (suc skipped) latest h.1
          ∙ ap (λ n. (c, ok (record { applied = applied; skipped = n; latest_sequence = latest })))
              shift)
    where
      shift : suc skipped + length es ≡ skipped + length (e ∷ es)
      shift = omega arith

  -- What a pull that returned left in the consumer, and what it counted.
  Covers :
      ExchangeBroker json
      → ExchangeBroker json
      → List JournalEntry
      → ℕ
      → ReplicationApplyReport
      → Type 0
  Covers c c' es before r =
      (c.applied_sequence ≤ c'.applied_sequence)
      × All (λ (e : JournalEntry). e.sequence ≤ c'.applied_sequence) es
      × (r.applied + r.skipped ≡ before + length es)

  apply_entries-Covers :
      (c c' p : ExchangeBroker json) (es : List JournalEntry) (applied skipped latest : ℕ)
      (r : ReplicationApplyReport)
      → apply_entries c p es applied skipped latest ≡ (c', ok r)
      → Covers c c' es (applied + skipped) r
  unfolding apply_entries Covers
  apply_entries-Covers c c' p [] applied skipped latest r h =
      (ground (arith, h), tt, ground (arith, h))
  apply_entries-Covers c c' p (e ∷ es) applied skipped latest r h =
      elim (Bool-cases (leb e.sequence c.applied_sequence)) [
        | inl seen ↦
            let (grows, covered, counted) =
              apply_entries-Covers c c' p es applied (suc skipped) latest r
                (ground (arith, h, seen)) in
            (grows, (ground (arith, grows, seen), covered), omega (arith, counted))
        | inr fresh ↦ elim (Result-cases (apply_entry_from json v c p e)) [
          | inr (x, failed) ↦ absurd (ground (arith, h, fresh, failed))
          | inl (d, run) ↦
              let now = apply_entry_from-applied c d p e run in
              let (grows, covered, counted) =
                apply_entries-Covers d c' p es (suc applied) skipped latest r
                  (ground (arith, h, fresh, run)) in
              (
                ground (arith, grows, now, fresh),
                (omega (arith, grows, now), covered),
                omega (arith, counted),
              )
        ]
      ]

  -- A pull that returns counts each entry of the publisher's answer once, as applied or skipped,
  -- and never takes the consumer back; pulling again from the same point then changes nothing and
  -- skips every entry.
  pub pull_and_apply-again :
      (c c' p : ExchangeBroker json) (since : ℕ) (r : ReplicationApplyReport)
      → pull_and_apply c p since ≡ (c', ok r)
      → (r.applied + r.skipped ≡ length (sync_since json p since).entries)
        × (c.applied_sequence ≤ c'.applied_sequence)
        × (pull_and_apply c' p since ≡ (
          c',
          ok (record {
            applied = 0;
            skipped = r.applied + r.skipped;
            latest_sequence = (sync_since json p since).latest_sequence;
          }),
        ))
  unfolding pull_and_apply Covers
  pull_and_apply-again c c' p since r h =
      let sync = sync_since json p since in
      let (grows, covered, counted) =
        apply_entries-Covers c c' p sync.entries 0 0 sync.latest_sequence r h in
      let total : length sync.entries ≡ r.applied + r.skipped = omega (arith, counted) in
      (
        sym total,
        grows,
        apply_entries-seen c' p sync.entries 0 0 sync.latest_sequence covered
            ∙ ap
                (λ n. (
                  c',
                  ok (record { applied = 0; skipped = n; latest_sequence = sync.latest_sequence }),
                ))
                (zero_plus (length sync.entries) ∙ total),
      )
    where
      zero_plus : (n : ℕ) → 0 + n ≡ n
      zero_plus n = omega arith

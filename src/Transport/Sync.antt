-- ===== src/Transport/Sync.antt =====
-- crates/mim-transport/src/broker.rs: what a sync request is answered with.
use ainext_gen_c.Base.{
  drop-append, ℕ, ◌+◌, ◌<◌, ◌≡◌, refl, sym, ap, subst, ◌∙◌, List, [], ◌++◌, append-nil,
  append_assoc, length, retain, drop, ltb, arith,
}
use ainext_gen_c.Runtime.Instance.{Json}
use ainext_gen_c.Transport.Message.{JournalEntry}
use ainext_gen_c.Transport.Broker.{Validators, ExchangeBroker, max_u64, new_broker, sync_since}
use ainext_gen_c.Transport.Journal.{
  retain_from, IsNumbered, Steps, stay, then_step, Grew, Step-Recorded, Recorded-below,
  Recorded-IsNumbered,
}

module _ (json : Json) where
  Steps-IsNumbered :
      (v : Validators json) (b b' : ExchangeBroker json)
      → Steps json v b b'
      → b'.sequence < max_u64
      → IsNumbered json b
      → IsNumbered json b' × Grew json b b'
  Steps-IsNumbered v b b' (stay _) small h = (h, ([], sym (append-nil b.journal)))
  Steps-IsNumbered v b c (then_step _ b' _ before last) small h =
      let r = Step-Recorded json v b' c last in
      let (n, grew) = Steps-IsNumbered v b b' before (Recorded-below json b' c r small) h in
      let (n', grew') = Recorded-IsNumbered json b' c r small n in
      (
        n',
        (
          grew.0 ++ grew'.0,
          grew'.1 ∙ ap (λ j. j ++ grew'.0) grew.1 ∙ append_assoc b.journal grew.0 grew'.0,
        ),
      )

  -- Once its journal is numbered, a broker answers a sync request with exactly the entries after
  -- the given number.
  pub sync_since-drop :
      (b : ExchangeBroker json) (since : ℕ)
      → IsNumbered json b
      → (sync_since json b since).entries ≡ drop since b.journal
  unfolding sync_since
  sync_since-drop b since h =
      subst (λ n. retain (λ (e : JournalEntry). ltb n e.sequence) b.journal ≡ drop since b.journal)
        zero_plus (retain_from since 0 b.journal h.numbered)
    where
      zero_plus : 0 + since ≡ since
      zero_plus = omega arith

  -- A subscriber that asks for the changes since the sequence it last saw receives exactly the
  -- entries that the puts and deletions in between recorded, in their order, for a broker whose
  -- journal was numbered then and whose sequence has not reached the maximum of 64 bits.
  pub sync_since-Steps :
      (v : Validators json) (b b' : ExchangeBroker json)
      → Steps json v b b'
      → IsNumbered json b
      → b'.sequence < max_u64
      → (new : List JournalEntry) × (b'.journal ≡ b.journal ++ new)
        × ((sync_since json b' b.sequence).entries ≡ new)
        × IsNumbered json b'
  sync_since-Steps v b b' steps h small =
      let (n, (new, grown)) = Steps-IsNumbered v b b' steps small h in
      let dropped : drop b.sequence b'.journal ≡ new =
        ap (λ k. drop k b'.journal) h.counted
        ∙ ap (drop (length b.journal)) grown
        ∙ drop-append (length b.journal) b.journal new refl in
      (new, grown, sync_since-drop b' b.sequence n ∙ dropped, n)

  -- A new broker's journal is numbered.
  pub new_broker-IsNumbered : IsNumbered json (new_broker json)
  unfolding new_broker
  new_broker-IsNumbered = record { numbered = tt; counted = refl }

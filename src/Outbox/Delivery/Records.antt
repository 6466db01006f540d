-- ===== src/Outbox/Delivery/Records.antt =====
-- The records that internal/outbox/publisher.go owes for the rows of the outbox.
use fault_tolerant_payment_l.Base.{
  ℕ, ◌==◌, ◌≡◌, refl, sym, ◌⊎◌, inl, inr, arith, Text, text, Bool, true, false, not, List, [], ◌∷◌,
  map, All, All-map, All-select, All-take, All_weaken, All_both, select, Bool-cases,
}
use fault_tolerant_payment_l.Store.Schema.{OutboxRow, Message, event_value}
use fault_tolerant_payment_l.Outbox.Publisher.{set_header}
use fault_tolerant_payment_l.Outbox.Queue.{
  is_published, is_due, is_before, place, oldest_first, claim_row, claimable, claimed_rows,
}

-- the record of a row's event: the event itself, on the topic and under the key of the row
abbrev pub event_record : OutboxRow → Message
event_record r = record {
  topic = r.topic;
  key = r.partition_key;
  value = event_value r.payload;
  headers = set_header (text "event_type") r.event_type r.headers;
  event_id = r.id;
  transaction_id = r.aggregate_id;
}

abbrev pub event_records : List OutboxRow → List Message
event_records rows = map event_record rows

-- a log has a record
abbrev pub Holds : Message → List Message → Type 0
Holds m [] = ⊥
Holds m (x ∷ log) = (x ≡ m) ⊎ Holds m log

-- Kafka holds the event of every row that is marked as published.
abbrev pub Sent : List Message → List OutboxRow → Type 0
Sent log rows =
    All (λ (r : OutboxRow). is_published r.status ≡ true → Holds (event_record r) log) rows

-- the primary key
abbrev pub DistinctEvents : List OutboxRow → Type 0
DistinctEvents [] = Unit
DistinctEvents (r ∷ rs) = All (λ (x : OutboxRow). (x.id == r.id) ≡ false) rs × DistinctEvents rs

-- a record is the only one of its event
abbrev pub Only : List Message → Message → Type 0
Only ms m = All (λ (x : Message). x.event_id ≡ m.event_id → x ≡ m) ms

apart :
    (r : OutboxRow) (rs : List OutboxRow)
    → All (λ (x : OutboxRow). (x.id == r.id) ≡ false) rs
    → All (λ (m : Message). (m.event_id == r.id) ≡ false) (event_records rs)
apart r [] h = tt
apart r (x ∷ rs) h = (h.0, apart r rs h.1)

pub DistinctEvents-Only :
    (rows : List OutboxRow)
    → DistinctEvents rows
    → All (Only (event_records rows)) (event_records rows)
DistinctEvents-Only [] h = tt
DistinctEvents-Only (r ∷ rs) h =
    let others = apart r rs h.0 in
    (
      (
        λ e. refl,
        All_weaken _ _ (event_records rs) (λ m k e. absurd (differ m.event_id r.id k e)) others,
      ),
      All_both _ _ (event_records rs)
          (All_weaken _ _ (event_records rs) (λ m k e. absurd (differ m.event_id r.id k (sym e)))
            others)
          (DistinctEvents-Only rs h.1),
    )
  where
    differ : (a b : ℕ) → (a == b) ≡ false → a ≡ b → ⊥
    differ a b k e = ground arith

module _ (P : OutboxRow → Type 0) where
  All-place : (r : OutboxRow) (rs : List OutboxRow) → P r → All P rs → All P (place r rs)
  unfolding place
  All-place r [] p h = (p, h)
  All-place r (x ∷ rs) p h = elim (Bool-cases (is_before r x)) [
    | inl e ↦ rw e (p, h)
    | inr e ↦ rw e (h.0, All-place r rs p h.1)
  ]

  All-oldest_first : (rs : List OutboxRow) → All P rs → All P (oldest_first rs)
  unfolding oldest_first
  All-oldest_first [] h = h
  All-oldest_first (r ∷ rs) h = All-place r (oldest_first rs) h.0 (All-oldest_first rs h.1)

  All-claimable :
      (busy : ℕ → Bool) (now ttl limit : ℕ) (rows : List OutboxRow)
      → All P rows
      → All P (claimable busy now ttl limit rows)
  unfolding claimable
  All-claimable busy now ttl limit rows h =
      let due = select (is_due now ttl) rows in
      All-take P limit (select (λ r. not (busy r.id)) (oldest_first due))
        (All-select P _ (oldest_first due) (All-oldest_first due (All-select P _ rows h)))

All-claimed_rows :
    (P : Message → Type 0) (worker : Text) (now : ℕ) (rs : List OutboxRow)
    → All (λ (r : OutboxRow). P (event_record r)) rs
    → All (λ (r : OutboxRow). P (event_record r)) (claimed_rows worker now rs)
unfolding claimed_rows claim_row
All-claimed_rows P worker now [] h = h
All-claimed_rows P worker now (r ∷ rs) h = (h.0, All-claimed_rows P worker now rs h.1)

-- What holds of the records of all rows holds of those of the rows that are claimed.
pub All-claimed :
    (P : Message → Type 0) (busy : ℕ → Bool) (worker : Text) (now ttl limit : ℕ)
    (rows : List OutboxRow)
    → All P (event_records rows)
    → All
        (λ (r : OutboxRow). P (event_record r))
        (claimed_rows worker now (claimable busy now ttl limit rows))
All-claimed P busy worker now ttl limit rows h =
    All-claimed_rows P worker now (claimable busy now ttl limit rows)
      (All-claimable (λ r. P (event_record r)) busy now ttl limit rows (All-map P _ rows h))

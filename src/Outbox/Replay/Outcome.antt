-- ===== src/Outbox/Replay/Outcome.antt =====
-- What `Replay` of internal/outbox/replay.go does, however its calls end.
use fault_tolerant_payment_l.Base.{
  ℕ, ◌+◌, ◌==◌, ◌≡◌, ◌≤◌, Text, text_eq, Bool, true, false, ◌&&◌, List, map, exists, length, take,
  select,
}
use fault_tolerant_payment_l.Store.Schema.{
  OutboxRow, Message, Value, event_value, dead_letter_value, unnamed_value, malformed_value,
}
use fault_tolerant_payment_l.Store.World.{World}
use fault_tolerant_payment_l.Outbox.Queue.{oldest_first}
use fault_tolerant_payment_l.Outbox.Replay.{ReplayRequest, ReplayResult, matches, row_limit}
use fault_tolerant_payment_l.Outbox.Replay.Loop.{Extended}

-- whether a record is a row's event again, with its id, key and topic
abbrev pub names_event : ℕ → Value → Bool
names_event id (event_value e) = e.event_id == id
names_event id (dead_letter_value r cause) = false
names_event id (unnamed_value t) = false
names_event id (malformed_value t) = false

abbrev pub repeats : Message → OutboxRow → Bool
repeats m r =
    m.event_id == r.id
    && m.key == r.partition_key
    && text_eq m.topic r.topic
    && names_event r.payload.event_id m.value

module _ (show : ℕ → Text) where
  -- the rows that a request selects
  abbrev pub selected : ReplayRequest → World → List OutboxRow
  selected q w =
      take (row_limit q.limit)
        (oldest_first (select (matches show q.transaction_id q.from q.to) w.db.outbox))

-- What a replay that answers did, from the rows that it selected.
pub record Report (dry_run : Bool) (rows : List OutboxRow) (r : ReplayResult)
    (old new : List Message) : Type 0 where
  pub listed : r.event_ids ≡ map (λ x. x.id) rows
  pub matched : r.matched ≡ length rows
  pub counted : dry_run ≡ false → r.published + r.failed ≡ length rows
  pub stored : r.published + length old ≤ length new
  pub untouched : dry_run ≡ true → (r.published ≡ 0) × (r.failed ≡ 0) × (new ≡ old)
  pub repeated : Extended (λ m. exists (repeats m) rows) old new

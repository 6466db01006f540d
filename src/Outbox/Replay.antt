-- ===== src/Outbox/Replay.antt =====
-- internal/outbox/replay.go, with `Get` and `ListForReplay` of internal/outbox/repo.go. `show` is the text of a UUID.
-- Metrics and logs are left out.
pub mod Loop
pub mod Outcome
use fault_tolerant_payment_l.Base.{
  ℕ, suc, ℤ, pos, negsuc, ltb_ℤ, ◌++◌, ◌+◌, ◌==◌, ltb, leb, Text, text, text_eq, take, ◌⊎◌, inl,
  inr, Bool, true, false, not, ◌&&◌, ◌||◌, Option, none, some, is_some, List, [], ◌∷◌, find, select,
  length, if◌then◌else◌,
}
use fault_tolerant_payment_l.Apperr.{GoError, wrapped, no_rows}
use fault_tolerant_payment_l.Apperr.Errors.{invalid_request}
use fault_tolerant_payment_l.Store.Schema.{OutboxRow, Envelope, ReplayMeta, Message, event_value}
use fault_tolerant_payment_l.Store.World.{
  World, Exec, Result, ok, err, pure, lift, call, map_err, attempt, new_uuid, gets, raise_if, ◌>>=◌,
  ◌>>◌,
}
use fault_tolerant_payment_l.Outbox.Insert.{has_event_id}
use fault_tolerant_payment_l.Outbox.Queue.{oldest_first}
use fault_tolerant_payment_l.Outbox.Publisher.{message_of, set_header, publish}

-- `ReplayRequest`
pub record ReplayRequest : Type 0 where
  pub transaction_id : Text
  pub from : Option ℕ
  pub to : Option ℕ
  pub limit : ℤ
  pub requested_by : Text
  pub dry_run : Bool

-- `ReplayResult`
pub record ReplayResult : Type 0 where
  pub replay_id : ℕ
  pub matched : ℕ
  pub published : ℕ
  pub failed : ℕ
  pub dry_run : Bool
  pub event_ids : List ℕ

found : Option OutboxRow → Result OutboxRow
found none = err no_rows
found (some r) = ok r

-- `Get`; `pgx.ErrNoRows` is returned as it is
unfoldable pub get : ℕ → Exec OutboxRow
unfolding found
get id =
    map_err (wrapped (text "outbox: get")) (call λ w. (ok (find (has_event_id id) w.db.outbox), w))
    >>= λ o. lift (found o)

at_least : Option ℕ → ℕ → Bool
at_least none t = true
at_least (some from) t = leb from t

at_most : Option ℕ → ℕ → Bool
at_most none t = true
at_most (some to) t = leb t to

runs_backwards : Option ℕ → Option ℕ → Bool
runs_backwards none to = false
runs_backwards (some from) none = false
runs_backwards (some from) (some to) = ltb to from

-- `Validate`
unfoldable pub validate : ReplayRequest → Exec (Unit {0})
unfolding runs_backwards
validate q = do
  raise_if (text_eq q.transaction_id [] && not (is_some q.from) && not (is_some q.to))
      invalid_request
  raise_if (runs_backwards q.from q.to) invalid_request
  raise_if (ltb_ℤ q.limit (pos 0) || ltb_ℤ (pos 10000) q.limit) invalid_request

-- the limit that `Replay` passes on; a negative one was refused
unfoldable pub row_limit : ℤ → ℕ
row_limit (pos n) = if n == 0 then 1000 else n
row_limit (negsuc n) = 0

-- `markReplayed`, on the value that the payload encodes
unfoldable pub mark_replayed : ReplayMeta → Envelope → Envelope
mark_replayed meta e = record e { replay = some meta }

unfoldable pub count : GoError ⊎ Unit {0} → ReplayResult → ReplayResult
count (inl e) result = record result { failed = suc result.failed }
count (inr _) result = record result { published = suc result.published }

abbrev pub add_id : OutboxRow → ReplayResult → ReplayResult
add_id r result = record result { event_ids = result.event_ids ++ r.id ∷ [] }

abbrev pub replay_meta : ReplayRequest → ℕ → ℕ → ReplayResult → ReplayMeta
replay_meta q at i result = record {
  is_replay = true;
  replay_id = result.replay_id;
  replayed_at = at;
  replayed_by = q.requested_by;
  original_seq = i;
}

-- the result before the first row
abbrev pub empty_result : ℕ → Bool → List OutboxRow → ReplayResult
empty_result replay_id dry_run rows = record {
  replay_id = replay_id;
  matched = length rows;
  published = 0;
  failed = 0;
  dry_run = dry_run;
  event_ids = [];
}

module _ (show : ℕ → Text) where
  -- the WHERE clause of `ListForReplay`
  unfoldable pub matches : Text → Option ℕ → Option ℕ → OutboxRow → Bool
  unfolding at_least at_most
  matches transaction_id from to r =
      (text_eq transaction_id [] || text_eq (show r.aggregate_id) transaction_id)
      && at_least from r.created_at
      && at_most to r.created_at

  -- `ListForReplay`
  unfoldable pub list_for_replay : Text → Option ℕ → Option ℕ → ℕ → Exec (List OutboxRow)
  list_for_replay transaction_id from to limit =
      map_err (wrapped (text "outbox: list for replay")) (
        call λ w.
          (ok (take limit (oldest_first (select (matches transaction_id from to) w.db.outbox))), w))

  -- the message of a replayed row
  unfoldable pub replay_message : ReplayMeta → OutboxRow → Message
  replay_message meta r =
      let m = message_of r.topic (event_value (mark_replayed meta r.payload)) r in
      record m {
        headers =
            set_header (text "replay_id") (show meta.replay_id)
              (set_header (text "replay") (text "true") m.headers);
      }

  -- the loop of `Replay`, from the index of the first row
  unfoldable pub replay_all :
      ReplayRequest → ℕ → ℕ → List OutboxRow → ReplayResult → Exec ReplayResult
  replay_all q at i [] result = pure result
  replay_all q at i (r ∷ rs) result =
      if q.dry_run
      then replay_all q at (suc i) rs (add_id r result)
      else (attempt (publish (replay_message (replay_meta q at i result) r)) >>= λ sent.
          replay_all q at (suc i) rs (count sent (add_id r result)))

  -- `Replay`
  unfoldable pub replay : ReplayRequest → Exec ReplayResult
  replay q = do
    validate q
    rows ← list_for_replay q.transaction_id q.from q.to (row_limit q.limit)
    replay_id ← new_uuid
    at ← gets (λ w. w.go_now)
    replay_all q at 0 rows (empty_result replay_id q.dry_run rows)

-- ===== src/Outbox/Queue.antt =====
-- The queue of internal/outbox/repo.go: claims, and the marks that a publisher sets. Each is one statement of its
-- own. `busy` says which rows another transaction has locked, which a claim skips.
use fault_tolerant_payment_l.Base.{
  ℕ, suc, ◌+◌, ◌==◌, ltb, leb, Text, text, take, Bool, true, false, not, ◌&&◌, ◌||◌, Option, none,
  some, is_some, List, [], ◌∷◌, exists, find, select, length, update_where, if◌then◌else◌,
}
use fault_tolerant_payment_l.Apperr.{wrapped, pg, no_rows}
use fault_tolerant_payment_l.Store.Schema.{
  OutboxRow, OutboxStatus, pending, publishing, published, dead_letter,
}
use fault_tolerant_payment_l.Store.World.{World, Exec, Result, ok, err, call, map_err}
use fault_tolerant_payment_l.Store.Tx.{check_violation}
use fault_tolerant_payment_l.Outbox.Insert.{has_event_id}

abbrev pub is_pending : OutboxStatus → Bool
is_pending pending = true
is_pending publishing = false
is_pending published = false
is_pending dead_letter = false

abbrev pub is_publishing : OutboxStatus → Bool
is_publishing pending = false
is_publishing publishing = true
is_publishing published = false
is_publishing dead_letter = false

abbrev pub is_published : OutboxStatus → Bool
is_published pending = false
is_published publishing = false
is_published published = true
is_published dead_letter = false

-- `claimed_at IS NULL OR claimed_at < now() - $3::interval`
claim_expired : ℕ → ℕ → Option ℕ → Bool
claim_expired now ttl none = true
claim_expired now ttl (some at) = ltb (at + ttl) now

-- the WHERE clause of `Claim`
unfoldable pub is_due : ℕ → ℕ → OutboxRow → Bool
unfolding claim_expired
is_due now ttl r =
    (is_pending r.status || is_publishing r.status)
    && leb r.next_attempt_at now
    && (is_pending r.status || claim_expired now ttl r.claimed_at)

-- `ORDER BY created_at, id`
unfoldable pub is_before : OutboxRow → OutboxRow → Bool
is_before a b = ltb a.created_at b.created_at || (a.created_at == b.created_at && leb a.id b.id)

unfoldable pub place : OutboxRow → List OutboxRow → List OutboxRow
place r [] = r ∷ []
place r (x ∷ xs) = let others = place r xs in if is_before r x then r ∷ x ∷ xs else x ∷ others

unfoldable pub oldest_first : List OutboxRow → List OutboxRow
oldest_first [] = []
oldest_first (r ∷ rs) = place r (oldest_first rs)

-- `SET status = 'publishing', claimed_by = $1, claimed_at = now()`
unfoldable pub claim_row : Text → ℕ → OutboxRow → OutboxRow
claim_row worker now r = record r {
  status = publishing;
  claimed_by = some worker;
  claimed_at = some now;
}

-- the rows of the CTE of `Claim`
unfoldable pub claimable : (ℕ → Bool) → ℕ → ℕ → ℕ → List OutboxRow → List OutboxRow
claimable busy now ttl limit rows =
    take limit (select (λ r. not (busy r.id)) (oldest_first (select (is_due now ttl) rows)))

-- the answer of RETURNING, in the order of the CTE
unfoldable pub claimed_rows : Text → ℕ → List OutboxRow → List OutboxRow
unfolding claim_row
claimed_rows worker now [] = []
claimed_rows worker now (r ∷ rs) = claim_row worker now r ∷ claimed_rows worker now rs

-- `Claim`
unfoldable pub claim : (ℕ → Bool) → Text → ℕ → ℕ → Exec (List OutboxRow)
unfolding claimed_rows
claim busy worker limit ttl = map_err (wrapped (text "outbox: claim")) (
    call λ w. (
      ok (claimed_rows worker w.db_now (claimable busy w.db_now ttl limit w.db.outbox)),
      record w {
        db = record w.db {
          outbox =
              update_where
                (λ r. exists (has_event_id r.id) (claimable busy w.db_now ttl limit w.db.outbox))
                (claim_row worker w.db_now) w.db.outbox;
        };
      },
    ))

unfoldable pub publish_row : ℕ → OutboxRow → OutboxRow
publish_row now r = record r {
  status = published;
  published_at = some now;
  attempts = suc r.attempts;
  last_error = none;
  claimed_by = none;
  claimed_at = none;
}

-- `MarkPublished`
unfoldable pub mark_published : ℕ → Exec (Unit {0})
mark_published id = map_err (wrapped (text "outbox: mark published")) (
    call λ w. (
      ok tt,
      record w {
        db = record w.db {
          outbox =
              update_where (λ r. has_event_id id r && not (is_published r.status))
                (publish_row w.db_now) w.db.outbox;
        };
      },
    ))

-- the row that `MarkFailed` writes
unfoldable pub fail_row : ℕ → Text → ℕ → ℕ → OutboxRow → OutboxRow
fail_row now cause backoff max_attempts r = record r {
  attempts = suc r.attempts;
  last_error = some (take 2000 cause);
  claimed_by = none;
  claimed_at = none;
  status = if leb max_attempts (suc r.attempts) then dead_letter else pending;
  next_attempt_at = now + backoff;
}

-- The UPDATE of `MarkFailed`: the CHECK `published_has_timestamp` refuses the row once it was published.
unfoldable pub fail_rows : ℕ → Text → ℕ → ℕ → Option OutboxRow → World → Result (ℕ × Bool) × World
fail_rows id cause backoff max_attempts none w = (err no_rows, w)
fail_rows id cause backoff max_attempts (some r) w =
    if is_some r.published_at
    then (err (pg check_violation (text "published_has_timestamp")), w)
    else (
      ok (suc r.attempts, leb max_attempts (suc r.attempts)),
      record w {
        db = record w.db {
          outbox =
              update_where (has_event_id id) (fail_row w.db_now cause backoff max_attempts)
                w.db.outbox;
        };
      },
    )

-- `MarkFailed`: the attempts, and whether the row is dead
unfoldable pub mark_failed : ℕ → Text → ℕ → ℕ → Exec (ℕ × Bool)
mark_failed id cause backoff max_attempts =
    map_err (wrapped (text "outbox: mark failed"))
      (call λ w. fail_rows id cause backoff max_attempts (find (has_event_id id) w.db.outbox) w)

-- `Backlog`
unfoldable pub backlog : Exec ℕ
backlog = map_err (wrapped (text "outbox: backlog")) (
    call λ w.
      (ok (length (select (λ r. is_pending r.status || is_publishing r.status) w.db.outbox)), w))

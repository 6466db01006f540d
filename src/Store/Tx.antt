-- ===== src/Store/Tx.antt =====
-- internal/storage/postgres.go: one READ COMMITTED transaction, and its retries. A transaction runs
-- alone here: the row and advisory locks that it takes are recorded in the world.
pub mod Atomic
use fault_tolerant_payment_l.Base.{
  ℕ, zero, suc, ◌+◌, ◌-◌, ◌*◌, ◌%◌, ◌^◌, ltb, Text, text, text_eq, Bool, true, false, ◌&&◌, ◌||◌,
  ◌==◌, Option, none, some, List, [], if◌then◌else◌,
}
use fault_tolerant_payment_l.Apperr.{GoError, wrapped, pg, plain, as_pg}
use fault_tolerant_payment_l.Store.Schema.{Db, all_balanced}
use fault_tolerant_payment_l.Store.World.{
  Fault, pass, refuse, lost_reply, World, Result, ok, err, panic, Exec, pure, call, ◌>>=◌, ◌>>◌,
  map_err, broken, next_call, rest_calls, lift,
}

abbrev pub check_violation : Text
check_violation = text "23514"

abbrev pub unique_violation : Text
unique_violation = text "23505"

abbrev pub foreign_key_violation : Text
foreign_key_violation = text "23503"

abbrev pub out_of_range : Text
out_of_range = text "22003"

is_violation : Text → Option (Text × Text) → Text → Bool
is_violation code none constraint = false
is_violation code (some (state, name)) constraint =
    text_eq state code && (text_eq constraint [] || text_eq name constraint)

-- `IsUniqueViolation`
unfoldable pub is_unique_violation : GoError → Text → Bool
unfolding is_violation as_pg
is_unique_violation e constraint = is_violation unique_violation (as_pg e) constraint

-- `IsCheckViolation`
unfoldable pub is_check_violation : GoError → Text → Bool
unfolding is_violation as_pg
is_check_violation e constraint = is_violation check_violation (as_pg e) constraint

-- `IsForeignKeyViolation`
unfoldable pub is_foreign_key_violation : GoError → Bool
unfolding is_violation as_pg
is_foreign_key_violation e = is_violation foreign_key_violation (as_pg e) []

retryable_state : Option (Text × Text) → Bool
retryable_state none = false
retryable_state (some (state, name)) =
    text_eq state (text "40P01")
    || text_eq state (text "40001")
    || text_eq state (text "55P03")
    || text_eq state (text "57014")

-- the Boolean of `retryReason`; the reason is a metrics label
unfoldable pub retryable : GoError → Bool
unfolding retryable_state as_pg
retryable e = retryable_state (as_pg e)

-- back to the state before `BEGIN`, with every lock released.
unfoldable pub rollback : Db → World → World
rollback before w = record w { db = before; deferred = []; locks = [] }

unfoldable pub release : World → World
release w = record w { deferred = []; locks = [] }

-- `BEGIN`
begin : Exec (Unit {0})
unfolding release
begin w = (ok tt, release w)

unbalanced : GoError
unbalanced = pg check_violation []

module _ {A : Type 0} where
  -- the server's part of COMMIT: the deferred triggers run, and then the transaction is durable
  commit_durable : Db → A → World → Result A × World
  unfolding all_balanced rollback release unbalanced
  commit_durable before a w =
      if all_balanced w.deferred w.db.entries
      then (ok a, release w)
      else (err (wrapped (text "storage: commit") unbalanced), rollback before w)

  commit_answer : Fault → Db → A → World → Result A × World
  unfolding commit_durable
  commit_answer pass before a w = commit_durable before a w
  commit_answer (refuse e) before a w =
      (err (wrapped (text "storage: commit") e), rollback before w)
  commit_answer lost_reply before a w =
      let (r, w') = commit_durable before a w in (err (wrapped (text "storage: commit") broken), w')

  -- `tx.Commit`
  unfoldable pub commit : Db → A → World → Result A × World
  unfolding commit_answer next_call rest_calls
  commit before a w =
      commit_answer (next_call w.calls) before a (record w { calls = rest_calls w.calls })

  -- the deferred function of `runOnce`, and the commit, by how `fn` ended
  finish : Db → Result A → World → Result A × World
  unfolding commit rollback
  finish before (ok a) w = commit before a w
  finish before (err e) w = (err e, rollback before w)
  finish before (panic m) w = (panic m, rollback before w)

  -- `runOnce`
  unfoldable pub run_once : Exec A → Exec A
  unfolding ◌>>=◌ map_err call begin finish
  run_once fn = map_err (wrapped (text "storage: begin")) (call begin) >>= λ _ w.
      (let (r, w') = fn w in finish w.db r w')

-- `base << attempt` in an int64, read back as a signed number whose sign bit is set or not
abbrev pub shifted : ℕ → ℕ
shifted attempt = 5_000_000 * 2 ^ attempt % 2 ^ 64

-- `backoff`, in nanoseconds, from a draw of `rand.Int63n`, which panics on a bound of 0 or less
unfoldable pub backoff : ℕ → ℕ → Result ℕ
backoff attempt draw =
    let delay : ℕ = shifted attempt in
    if delay == 0 || ltb (2 ^ 63 - 1) delay
    then panic (text "invalid argument to Int63n")
    else let bound : ℕ = (if ltb 500_000_000 delay then 500_000_000 else delay) in
      ok (draw % bound + 5_000_000)

-- `sleepCtx(ctx, backoff(attempt))`; the sleep is a call, since the context may end it
unfoldable pub sleep_before : ℕ → Exec (Unit {0})
unfolding ◌>>=◌ lift backoff call pure
sleep_before attempt w =
    (lift (backoff attempt (w.random w.drawn)) >>= λ _. call (pure tt))
      (record w { drawn = suc w.drawn })

exhausted : Option GoError → GoError
exhausted none = plain (text "storage: transaction failed after 0 attempts")
exhausted (some e) = wrapped (text "storage: transaction failed") e

pause : ℕ → Exec (Unit {0})
unfolding sleep_before pure
pause zero = pure tt
pause (suc n) = sleep_before (suc n)

module _ {A : Type 0} where
  -- what `InTx` does with the outcome of an attempt
  after_attempt : (GoError → Exec A) → Result A → Exec A
  unfolding retryable
  after_attempt retry (ok a) w = (ok a, w)
  after_attempt retry (err e) w = if retryable e then retry e w else (err e, w)
  after_attempt retry (panic m) w = (panic m, w)

  -- the loop of `InTx`, on the number of attempts left
  attempts_from : ℕ → ℕ → Option GoError → Exec A → Exec A
  unfolding ◌>>=◌ pause run_once after_attempt exhausted
  attempts_from zero attempt last fn w = (err (exhausted last), w)
  attempts_from (suc left) attempt last fn w =
      (pause attempt >>= λ _ w'.
      (let (r, w'') = run_once fn w' in
        after_attempt (λ e. attempts_from left (suc attempt) (some e) fn) r w''))
        w

  -- `InTx`; `fn` returns what the Go closure stores in a variable of its caller
  unfoldable pub in_tx : ℕ → Exec A → Exec A
  unfolding attempts_from
  in_tx max_retries fn = attempts_from max_retries 0 none fn

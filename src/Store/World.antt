-- ===== src/Store/World.antt =====
-- What a request sees outside itself, and the actions that run in it: calls of PostgreSQL that may
-- fail, failpoints, fresh UUIDs and clocks. The outcomes of the external calls are a given list, so
-- a theorem over all worlds ranges over every schedule of failures.
use fault_tolerant_payment_l.Base.{
  ℕ, suc, Text, text, Bool, Option, List, [], ◌∷◌, if◌then◌else◌, ◌⊎◌, inl, inr,
}
use fault_tolerant_payment_l.Apperr.{GoError, plain}
use fault_tolerant_payment_l.Apperr.Errors.{internal}
use fault_tolerant_payment_l.Failpoint.{Registry, Actions, Outcome, eval}
use fault_tolerant_payment_l.Store.Schema.{Db, Message, Posted}

-- One external call: it works, it fails without an effect, or it takes effect and its answer is
-- lost (a broken connection, which no SQLSTATE names).
pub data Fault : Type 0 where
  pass : Fault
  refuse : GoError → Fault
  lost_reply : Fault

-- a lock that the transaction holds: an advisory lock on a hash, or the row of a balance
pub data Lock : Type 0 where
  advisory : ℕ → Lock
  balance : Text → Lock

pub record World : Type 0 where
  pub db : Db
  -- the outcomes of the calls to come; past the end every call works
  pub calls : List Fault
  pub failpoints : Registry
  -- the failpoints of the request's context
  pub overrides : Actions
  -- `uuid.NewString` and `rand.Int63n`, by the number of the draw
  pub uuid : ℕ → ℕ
  pub random : ℕ → ℕ
  pub drawn : ℕ
  -- PostgreSQL's reading of a text as a UUID
  pub parse_uuid : Text → Option ℕ
  -- `now()` of the database, and `time.Now` of the process
  pub db_now : ℕ
  pub go_now : ℕ
  -- the transactions whose deferred trigger is armed, and the locks held, newest first
  pub deferred : List ℕ
  pub locks : List Lock
  pub correlation_id : Text
  -- the records that Kafka stored, newest first
  pub broker : List Message
  -- the status that an HTTP endpoint answers, by the number of the draw, and the requests that were
  -- answered, newest first
  pub statuses : ℕ → ℕ
  pub posted : List Posted
  -- the offsets that a consumer group committed, with their partition, newest first
  pub commits : List (ℕ × ℕ)

pub data Result (A : Type 0) : Type 0 where
  ok : A → Result A
  err : GoError → Result A
  panic : Text → Result A

abbrev pub Exec : Type 0 → Type 0
Exec A = World → Result A × World

module _ {A : Type 0} where
  unfoldable pub pure : A → Exec A
  pure a w = (ok a, w)

  unfoldable pub raise : GoError → Exec A
  raise e w = (err e, w)

  unfoldable pub gets : (World → A) → Exec A
  gets f w = (ok (f w), w)

  -- a value or an error that was computed already
  unfoldable pub lift : Result A → Exec A
  lift r w = (r, w)

module _ {A B : Type 0} where
  unfoldable pub continue : Result A → (A → Exec B) → Exec B
  continue (ok a) f w = f a w
  continue (err e) f w = (err e, w)
  continue (panic m) f w = (panic m, w)

  infixl 5 ◌>>=◌ ◌>>◌
  unfoldable pub ◌>>=◌ : Exec A → (A → Exec B) → Exec B
  unfolding continue
  ◌>>=◌ m f w = let (r, w') = m w in continue r f w'

  unfoldable pub ◌>>◌ : Exec A → Exec B → Exec B
  m >> k = m >>= λ _. k

-- `if err != nil { return wrap(err) }`: a panic passes by
module _ {A : Type 0} where
  unfoldable pub map_err_result : (GoError → GoError) → Result A → Result A
  map_err_result f (ok a) = ok a
  map_err_result f (err e) = err (f e)
  map_err_result f (panic m) = panic m

  unfoldable pub map_err : (GoError → GoError) → Exec A → Exec A
  unfolding map_err_result
  map_err f m w = let (r, w') = m w in (map_err_result f r, w')

unfoldable pub raise_if : Bool → GoError → Exec (Unit {0})
raise_if b e w = (if b then err e else ok tt, w)

abbrev pub broken : GoError
broken = plain (text "connection reset")

unfoldable pub next_call : List Fault → Fault
next_call [] = pass
next_call (c ∷ cs) = c

unfoldable pub rest_calls : List Fault → List Fault
rest_calls [] = []
rest_calls (c ∷ cs) = cs

module _ {A : Type 0} where
  unfoldable pub answer : Fault → Exec A → Exec A
  answer pass f w = f w
  answer (refuse e) f w = (err e, w)
  answer lost_reply f w = let (r, w') = f w in (err broken, w')

  -- One external call, whose own effect is `f`.
  unfoldable pub call : Exec A → Exec A
  unfolding next_call rest_calls answer
  call f w = answer (next_call w.calls) f (record w { calls = rest_calls w.calls })

-- `uuid.NewString()`
unfoldable pub new_uuid : Exec ℕ
new_uuid w = (ok (w.uuid w.drawn), record w { drawn = suc w.drawn })

unfoldable pub injected_result : Outcome → Text → Result (Unit {0})
injected_result Outcome.proceed n = ok tt
injected_result Outcome.injected n =
    err (GoError.wrapped n (plain (text "failpoint: injected failure")))
injected_result Outcome.panicked n = panic n

-- `fp.Eval` in the world
unfoldable pub eval_failpoint : Text → Exec (Unit {0})
eval_failpoint n w =
    let (o, r) = eval w.overrides n w.failpoints in
    (injected_result o n, record w { failpoints = r })

-- `if err := s.fp.Eval(ctx, name); err != nil { return apperr.Internal(err) }`
unfoldable pub failpoint : Text → Exec (Unit {0})
failpoint n = map_err internal (eval_failpoint n)

module _ {A : Type 0} where
  unfoldable pub attempt_result : Result A → World → Result (GoError ⊎ A) × World
  attempt_result (ok a) w = (ok (inr a), w)
  attempt_result (err e) w = (ok (inl e), w)
  attempt_result (panic m) w = (panic m, w)

  -- an action whose error the caller looks at
  unfoldable pub attempt : Exec A → Exec (GoError ⊎ A)
  attempt m w = let (r, w') = m w in attempt_result r w'

-- a draw of `rand`, as the caller reads it
unfoldable pub draw : Exec ℕ
draw w = (ok (w.random w.drawn), record w { drawn = suc w.drawn })

-- ===== src/Kafka.antt =====
-- internal/kafka/consumer.go. The reader is a third-party client: the answers of its `FetchMessage` are a list, and a
-- commit is an external call. Metrics and logs are left out.
pub mod Consumed
pub mod Delay
use fault_tolerant_payment_l.Base.{
  ℕ, zero, suc, ◌+◌, ◌-◌, ◌*◌, ◌/◌, ◌^◌, ◌⊎◌, inl, inr, List, [], ◌∷◌,
}
use fault_tolerant_payment_l.Apperr.{GoError}
use fault_tolerant_payment_l.Store.Schema.{Message}
use fault_tolerant_payment_l.Store.World.{World, Exec, ok, pure, call, attempt, draw, ◌>>=◌, ◌>>◌}
use fault_tolerant_payment_l.Outbox.Publisher.{exponential}

-- an answer of `FetchMessage`: the context is done or the reader is closed, another error, or a message with its
-- partition and its offset
pub data Fetch : Type 0 where
  stopped : Fetch
  failed : GoError → Fetch
  fetched : ℕ → ℕ → Message → Fetch

-- `fetchBackoff`, from the draw k / 2 ^ 53 of `rand.Float64`, without the rounding of float64
unfoldable pub fetch_backoff : ℕ → ℕ → ℕ
unfolding exponential
fetch_backoff failures k =
    let delay : ℕ = exponential (failures - 1) 250_000_000 30_000_000_000 in
    (delay * 2 ^ 53 + k * delay) / 2 ^ 54

-- `time.After(delay)`, which the end of the context interrupts
unfoldable pub sleep : ℕ → Exec (Unit {0})
sleep delay = call (pure tt)

-- `CommitMessages` of one message
unfoldable pub commit_message : ℕ → ℕ → Exec (Unit {0})
commit_message partition offset =
    call λ w. (ok tt, record w { commits = (partition, offset) ∷ w.commits })

-- what follows a wait or a handled message, whose errors end the loop or only this message
unfoldable pub unless_done : Exec (Unit {0}) → GoError ⊎ Unit {0} → Exec (Unit {0})
unless_done next (inl e) = pure tt
unless_done next (inr _) = next

unfoldable pub commit_handled : ℕ → ℕ → GoError ⊎ Unit {0} → Exec (Unit {0})
commit_handled partition offset (inl e) = pure tt
commit_handled partition offset (inr _) = attempt (commit_message partition offset) >>= λ _. pure tt

-- `Run`, on the number of failures in a row and the answers to come
unfoldable pub consume : (Message → Exec (Unit {0})) → ℕ → List Fetch → Exec (Unit {0})
consume handle failures [] = pure tt
consume handle failures (stopped ∷ fs) = pure tt
consume handle failures (failed e ∷ fs) = do
  k ← draw
  waited ← attempt (sleep (fetch_backoff (suc failures) k))
  unless_done (consume handle (suc failures) fs) waited
consume handle failures (fetched partition offset m ∷ fs) = do
  handled ← attempt (handle m)
  commit_handled partition offset handled
  consume handle 0 fs

unfoldable pub run : (Message → Exec (Unit {0})) → List Fetch → Exec (Unit {0})
run handle fs = consume handle 0 fs

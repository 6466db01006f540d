-- ===== src/Failpoint.antt =====
-- internal/failpoint/failpoint.go: named injection points. The registry's mutex makes each call
-- atomic, so a call is a function of the registry.
pub mod Counts
pub mod Spec
use fault_tolerant_payment_l.Base.{
  ℕ, zero, suc, Text, text, text_eq, Bool, true, false, Option, none, some, List, [], ◌∷◌, exists,
  if◌then◌else◌,
}

abbrev pub before_tx_begin : Text
before_tx_begin = text "before_tx_begin"

abbrev pub after_accounts_locked : Text
after_accounts_locked = text "after_accounts_locked"

abbrev pub after_entries_written : Text
after_entries_written = text "after_entries_written"

abbrev pub after_balances_updated : Text
after_balances_updated = text "after_balances_updated"

abbrev pub after_outbox_written : Text
after_outbox_written = text "after_outbox_written"

abbrev pub before_commit : Text
before_commit = text "before_commit"

abbrev pub after_commit : Text
after_commit = text "after_commit"

abbrev pub before_kafka_publish : Text
before_kafka_publish = text "before_kafka_publish"

abbrev pub after_kafka_publish : Text
after_kafka_publish = text "after_kafka_publish"

abbrev pub before_webhook_persist : Text
before_webhook_persist = text "before_webhook_persist"

abbrev pub before_webhook_send : Text
before_webhook_send = text "before_webhook_send"

-- the action's kind: "error", "panic" or "sleep"
pub data Kind : Type 0 where
  error panic : Kind
  sleep : ℕ → Kind

-- `remaining` is -1, meaning always, as `none`
pub record Action : Type 0 where
  pub kind : Kind
  pub remaining : Option ℕ

abbrev pub Actions : Type 0
Actions = List (Text × Action)

pub record Registry : Type 0 where
  pub enabled : Bool
  pub actions : Actions

unfoldable pub lookup : Text → Actions → Option Action
lookup n [] = none
lookup n ((m, a) ∷ others) = if text_eq n m then some a else lookup n others

unfoldable pub delete : Text → Actions → Actions
delete n [] = []
delete n ((m, a) ∷ others) =
    let kept = delete n others in if text_eq n m then kept else (m, a) ∷ kept

unfoldable pub assign : Text → Action → Actions → Actions
unfolding delete
assign n a others = (n, a) ∷ delete n others

-- `NewRegistry`
unfoldable pub new_registry : Bool → Registry
new_registry enabled = record { enabled = enabled; actions = [] }

-- `Disarm`
unfoldable pub disarm : Text → Registry → Registry
unfolding delete
disarm n r = record r { actions = delete n r.actions }

-- `Reset`
unfoldable pub reset : Registry → Registry
reset r = record r { actions = [] }

-- what an evaluation does to its caller
pub data Outcome : Type 0 where
  proceed injected panicked : Outcome

-- `apply`; a sleep only takes time
unfoldable pub apply : Action → Outcome
apply a = elim a.kind [ error ↦ injected | panic ↦ panicked | sleep d ↦ proceed ]

-- the body of `Eval` under the mutex: the action to apply, and the registry with one use counted
unfoldable pub count_use : Text → Option Action → Registry → Option Action × Registry
unfolding assign delete
count_use n none r = (none, r)
count_use n (some a) r = elim a.remaining [
  | none ↦ (some a, r)
  | some zero ↦ (none, record r { actions = delete n r.actions })
  | some (suc zero) ↦
      (some (record a { remaining = some zero }), record r { actions = delete n r.actions })
  | some (suc (suc k)) ↦ (
    some (record a { remaining = some (suc k) }),
    record r { actions = assign n (record a { remaining = some (suc k) }) r.actions },
  )
]

unfoldable pub apply_found : Option Action → Outcome
unfolding apply
apply_found none = proceed
apply_found (some a) = apply a

-- `Eval`; `overrides` are the request's own failpoints, which the context carries
unfoldable pub eval : Actions → Text → Registry → Outcome × Registry
unfolding lookup count_use apply_found apply
eval overrides n r =
    if r.enabled
    then (elim (lookup n overrides) [
      | some a ↦ (apply a, r)
      | none ↦ (let (found, r') = count_use n (lookup n r.actions) r in (apply_found found, r'))
    ])
    else (proceed, r)

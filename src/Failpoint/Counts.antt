-- ===== src/Failpoint/Counts.antt =====
-- The counts of internal/failpoint/failpoint.go.
use fault_tolerant_payment_l.Base.{
  ℕ, zero, suc, ◌≡◌, refl, ◌∙◌, ap, Text, text_eq, text_eq_iff, true, none, some, List, [], ◌∷◌,
  Bool-cases, inl, inr,
}
use fault_tolerant_payment_l.Failpoint.{
  Kind, Action, Actions, Registry, lookup, delete, assign, Outcome, proceed, apply, count_use,
  apply_found, eval,
}

lookup-delete : (n : Text) (others : Actions) → lookup n (delete n others) ≡ none
unfolding lookup delete
lookup-delete n [] = refl
lookup-delete n ((m, b) ∷ others) = elim (Bool-cases (text_eq n m)) [
  | inl hit ↦ rw hit (lookup-delete n others)
  | inr miss ↦ rw (miss, miss) (lookup-delete n others)
]

lookup-assign : (n : Text) (a : Action) (others : Actions) → lookup n (assign n a others) ≡ some a
unfolding lookup assign
lookup-assign n a others = rw ((text_eq_iff n n).1 refl) refl

-- the outcomes of some evaluations in turn, and the registry after them
unfoldable pub evals : ℕ → Text → Registry → List Outcome × Registry
evals zero n r = ([], r)
evals (suc k) n r = let (o, r') = eval [] n r in let (os, r'') = evals k n r' in (o ∷ os, r'')

abbrev repeated : ℕ → Outcome → List Outcome
repeated zero o = []
repeated (suc k) o = o ∷ repeated k o

-- a failpoint fires as often as a count says, and then every further evaluation proceeds, however many there are
abbrev pub Exhausted : ℕ → Action → Text → Registry → Type 0
Exhausted k a n r =
    ((evals k n r).0 ≡ repeated k (apply a))
    × ((j : ℕ) → (evals j n (evals k n r).1).0 ≡ repeated j proceed)

missing : (n : Text) (r : Registry) → lookup n r.actions ≡ none → eval [] n r ≡ (proceed, r)
unfolding eval lookup count_use apply_found
missing n r h = elim (Bool-cases r.enabled) [ inl on ↦ simp (on, h) | inr off ↦ simp off ]

silent :
    (j : ℕ) (n : Text) (r : Registry)
    → lookup n r.actions ≡ none
    → (evals j n r).0 ≡ repeated j proceed
unfolding evals
silent zero n r h = refl
silent (suc j) n r h =
    ap (λ o. o.0 ∷ (evals j n o.1).0) (missing n r h) ∙ ap (λ os. proceed ∷ os) (silent j n r h)

spent :
    (kind : Kind) (n : Text) (r : Registry)
    → r.enabled ≡ true
    → lookup n r.actions ≡ some (record { kind = kind; remaining = some zero })
    → ((eval [] n r).0 ≡ proceed) × (lookup n (eval [] n r).1.actions ≡ none)
unfolding eval count_use apply_found
spent kind n r on armed = (rw (on, armed) refl, rw (on, armed) (lookup-delete n r.actions))

spent-silent :
    (kind : Kind) (n : Text) (r : Registry)
    → r.enabled ≡ true
    → lookup n r.actions ≡ some (record { kind = kind; remaining = some zero })
    → (j : ℕ) → (evals j n r).0 ≡ repeated j proceed
unfolding evals
spent-silent kind n r on armed zero = refl
spent-silent kind n r on armed (suc j) =
    let (first, gone) = spent kind n r on armed in
    ap (λ o. o ∷ (evals j n (eval [] n r).1).0) first
    ∙ ap (λ os. proceed ∷ os) (silent j n (eval [] n r).1 gone)

abbrev armed_with : Kind → ℕ → Action
armed_with kind k = record { kind = kind; remaining = some k }

-- one use of a failpoint that was armed with a count
record Used (k : ℕ) (kind : Kind) (n : Text) (r : Registry) : Type 0 where
  fired : (eval [] n r).0 ≡ apply (armed_with kind k)
  enabled : (eval [] n r).1.enabled ≡ true

last_use :
    (kind : Kind) (n : Text) (r : Registry)
    → r.enabled ≡ true
    → lookup n r.actions ≡ some (armed_with kind 1)
    → Used 1 kind n r × (lookup n (eval [] n r).1.actions ≡ none)
unfolding eval count_use apply_found apply
last_use kind n r on armed = (
  record { fired = rw (on, armed) refl; enabled = rw (on, armed) refl },
  rw (on, armed) (lookup-delete n r.actions),
)

use_one :
    (k : ℕ) (kind : Kind) (n : Text) (r : Registry)
    → r.enabled ≡ true
    → lookup n r.actions ≡ some (armed_with kind (suc (suc k)))
    → Used (suc (suc k)) kind n r
      × (lookup n (eval [] n r).1.actions ≡ some (armed_with kind (suc k)))
unfolding eval count_use apply_found apply
use_one k kind n r on armed = (
  record { fired = rw (on, armed) refl; enabled = rw (on, armed) refl },
  rw (on, armed) (lookup-assign n (armed_with kind (suc k)) r.actions),
)

-- A failpoint that was armed with a count fires exactly that often in an enabled registry, and every evaluation after
-- that proceeds, however many there are.
pub count_exact :
    (k : ℕ) (kind : Kind) (n : Text) (r : Registry)
    → r.enabled ≡ true
    → lookup n r.actions ≡ some (record { kind = kind; remaining = some k })
    → Exhausted k (record { kind = kind; remaining = some k }) n r
unfolding evals apply
count_exact zero kind n r on armed = (refl, spent-silent kind n r on armed)
count_exact (suc zero) kind n r on armed =
    let (u, gone) = last_use kind n r on armed in
    (ap (λ o. o ∷ []) u.fired, λ j. silent j n (eval [] n r).1 gone)
count_exact (suc (suc k)) kind n r on armed =
    let (u, left) = use_one k kind n r on armed in
    let (os, after) = count_exact (suc k) kind n (eval [] n r).1 u.enabled left in
    (
      ap (λ o. o ∷ (evals (suc k) n (eval [] n r).1).0) u.fired
          ∙ ap (λ rest. apply (armed_with kind k) ∷ rest) os,
      after,
    )

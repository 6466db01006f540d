-- ===== src/Ledger/CreateAccount/Atomicity.antt =====
-- `CreateAccount` of internal/ledger/repo.go, however it ends.
use fault_tolerant_payment_l.Base.{
  ℕ, ◌≡◌, refl, sym, ◌∙◌, ap, subst, ◌⊎◌, inl, inr, Text, Bool, false, none, some, List, ◌∷◌, find,
  exists, All_weaken, arith, Bool-cases, not, ◌||◌, text_eq, text,
}
use fault_tolerant_payment_l.Config.{Config}
use fault_tolerant_payment_l.Store.Schema.{
  Db, Account, BalanceRow, IdemRecord, account_json, is_currency,
}
use fault_tolerant_payment_l.Store.World.{World, ok}
use fault_tolerant_payment_l.Store.Inversion.{
  >>=-elim, >>-elim, map_err-eq-ok, call-eq-ok, ok-eq-ok, pure-eq-ok,
}
use fault_tolerant_payment_l.Store.Outcome.{>>-db, in_tx-db}
use fault_tolerant_payment_l.Idempotency.{is_for, complete_rows, fresh_claim}
use fault_tolerant_payment_l.Ledger.Model.{CreateAccountCommand, kind_user, kind_system}
use fault_tolerant_payment_l.Ledger.Locks.{has_account, has_balance}
use fault_tolerant_payment_l.Ledger.Payment.{Response}
use fault_tolerant_payment_l.Ledger.Replay.{Ran, replayed, executed, idempotent-Ran}
use fault_tolerant_payment_l.Ledger.Settlement.{complete-stored}
use fault_tolerant_payment_l.Ledger.Consistent.{IsConsistent, total_of_unowned}
use fault_tolerant_payment_l.Ledger.Transfer.Atomicity.{lift_check-db}
use fault_tolerant_payment_l.Ledger.CreateAccount.{
  insert_account_row, insert_balance_row, zero_balance, metadata_json, new_account, execute_create,
  create_account,
}

-- What an insertion that succeeds met and wrote.
insert_account_row-eq-ok :
    (a : Account) {b : Account} (w w' : World)
    → insert_account_row a w ≡ (ok b, w')
    → (exists (has_account a.id) w.db.accounts ≡ false)
      × (b ≡ record a { created_at = w.db_now })
      × (w' ≡ record w {
        db = record w.db { accounts = record a { created_at = w.db_now } ∷ w.db.accounts };
      })
unfolding insert_account_row
insert_account_row-eq-ok a w w' h =
    elim (Bool-cases (
      not (is_currency a.currency)
      || not (text_eq a.kind kind_user || text_eq a.kind kind_system))) [
        | inl bad ↦ (let k = rw bad at h in cc)
        | inr good ↦ elim (Bool-cases (exists (has_account a.id) w.db.accounts)) [
          | inl taken ↦ (let k = rw (good, taken) at h in cc)
          | inr free ↦ (let (e, q) = ok-eq-ok (rw (good, free) at h) in (free, sym e, q))
        ]
      ]

insert_balance_row-eq-ok :
    (id : Text) (overdraft : Bool) {u : Unit {0}} (w w' : World)
    → insert_balance_row id overdraft w ≡ (ok u, w')
    → (exists (has_balance id) w.db.balances ≡ false)
      × (w' ≡ record w {
        db = record w.db { balances = zero_balance w.db_now id overdraft ∷ w.db.balances };
      })
unfolding insert_balance_row
insert_balance_row-eq-ok id overdraft w w' h =
    elim (Bool-cases (exists (has_balance id) w.db.balances)) [
      | inl taken ↦ (let k = rw taken at h in cc)
      | inr free ↦ elim (Bool-cases (not (exists (has_account id) w.db.accounts))) [
        | inl missing ↦ (let k = rw (free, missing) at h in cc)
        | inr there ↦ (let (e, q) = ok-eq-ok (rw (free, there) at h) in (free, q))
      ]
    ]

-- The account was opened: its row and its balance are new, and its answer is stored under the key.
pub record IsOpened (cmd : CreateAccountCommand) (d d' : Db) : Type 0 where
  pub at : ℕ
  pub account : Account
  pub account_id : account.id ≡ cmd.id
  pub currency : account.currency ≡ cmd.currency
  pub kind : account.kind ≡ cmd.kind
  pub overdraft : account.allow_overdraft ≡ cmd.allow_overdraft
  pub metadata : (m : Text) → cmd.metadata ≡ some m → account.metadata ≡ m
  pub no_metadata : cmd.metadata ≡ none → account.metadata ≡ text "{}"
  pub unclaimed : find (is_for cmd.idempotency_scope cmd.idempotency_key) d.idempotency ≡ none
  pub account_free : exists (has_account cmd.id) d.accounts ≡ false
  pub balance_free : exists (has_balance cmd.id) d.balances ≡ false
  pub stored : d' ≡ record d {
    accounts = account ∷ d.accounts;
    balances = zero_balance at cmd.id cmd.allow_overdraft ∷ d.balances;
    idempotency =
        complete_rows cmd.idempotency_scope cmd.idempotency_key 201
          (account_json account)
          none
          (fresh_claim cmd.idempotency_scope cmd.idempotency_key cmd.request_hash ∷ d.idempotency);
  }

module _ (a : Account) (b : BalanceRow) (f : List IdemRecord → List IdemRecord) where
  with_account : Db → Db
  with_account x = record x { accounts = a ∷ x.accounts }

  with_balance : Db → Db
  with_balance x = record x { balances = b ∷ x.balances }

  with_answer : Db → Db
  with_answer x = record x { idempotency = f x.idempotency }

  -- the tables after the statements in turn
  assembled :
      (d d0 d1 d2 d3 : Db) (is : List IdemRecord)
      → d0 ≡ record d { idempotency = is }
      → d1 ≡ record d0 { accounts = a ∷ d0.accounts }
      → d2 ≡ record d1 { balances = b ∷ d1.balances }
      → d3 ≡ record d2 { idempotency = f d2.idempotency }
      → (d1.balances ≡ d.balances)
        × (d3
            ≡ record d { accounts = a ∷ d.accounts; balances = b ∷ d.balances; idempotency = f is })
  unfolding with_account with_balance with_answer
  assembled d d0 d1 d2 d3 is h0 h1 h2 h3 = (
    ap (λ (x : Db). x.balances) h1 ∙ ap (λ (x : Db). x.balances) h0,
    h3 ∙ ap with_answer (h2 ∙ ap with_balance (h1 ∙ ap with_account h0)),
  )

execute_create-IsOpened :
    (cmd : CreateAccountCommand) (r : Response) (d : Db) (v w' : World)
    → v.db ≡ record d {
      idempotency =
          fresh_claim cmd.idempotency_scope cmd.idempotency_key cmd.request_hash ∷ d.idempotency;
    }
    → find (is_for cmd.idempotency_scope cmd.idempotency_key) d.idempotency ≡ none
    → execute_create cmd v ≡ (ok r, w')
    → IsOpened cmd d w'.db
unfolding execute_create new_account metadata_json
execute_create-IsOpened cmd r d v w' start absent h = >>=-elim _ _ v h λ acct w1 h1 k1.
    >>-elim _ _ w1 k1 λ _ w2 h2 k2. >>-elim _ _ w2 k2 λ _ w3 h3 k3.
      (let (free, named, q1) =
          insert_account_row-eq-ok (new_account cmd) _ _
            (call-eq-ok _ v (map_err-eq-ok _ _ v h1)) in
        let (unbalanced, q2) =
          insert_balance_row-eq-ok cmd.id cmd.allow_overdraft _ _
            (call-eq-ok _ w1 (map_err-eq-ok _ _ w1 h2)) in
        let done =
          complete-stored cmd.idempotency_scope cmd.idempotency_key 201 (account_json acct) none w2
            h3 in
        let first : w1.db ≡ record v.db { accounts = acct ∷ v.db.accounts } =
          ap (λ (z : World). z.db) q1
          ∙ ap (λ a. record v.db { accounts = a ∷ v.db.accounts }) (sym named) in
        let second : w2.db ≡ record w1.db {
          balances = zero_balance w1.db_now cmd.id cmd.allow_overdraft ∷ w1.db.balances;
        } =
          ap (λ (z : World). z.db) q2 in
        let (same, all) =
          assembled acct (zero_balance w1.db_now cmd.id cmd.allow_overdraft)
            (complete_rows cmd.idempotency_scope cmd.idempotency_key 201 (account_json acct) none) d
            v.db w1.db w2.db w3.db
            (fresh_claim cmd.idempotency_scope cmd.idempotency_key cmd.request_hash ∷ d.idempotency)
            start first second done.stored in
        record {
          at = w1.db_now;
          account = acct;
          account_id = ap (λ (a : Account). a.id) named;
          currency = ap (λ (a : Account). a.currency) named;
          kind = ap (λ (a : Account). a.kind) named;
          overdraft = ap (λ (a : Account). a.allow_overdraft) named;
          metadata = λ m e. ap (λ (a : Account). a.metadata) named ∙ ap metadata_json e;
          no_metadata = λ e. ap (λ (a : Account). a.metadata) named ∙ ap metadata_json e;
          unclaimed = absent;
          account_free =
              subst (λ (x : Db). exists (has_account cmd.id) x.accounts ≡ false) start free;
          balance_free = subst (λ bs. exists (has_balance cmd.id) bs ≡ false) same unbalanced;
          stored = (pure-eq-ok _ _ k3).1.db ∙ all;
        })

Opened-IsConsistent :
    (cmd : CreateAccountCommand) (d d' : Db) → IsOpened cmd d d' → IsConsistent d → IsConsistent d'
Opened-IsConsistent cmd d d' o c = subst IsConsistent (sym o.stored) (record {
  keyed = (o.balance_free, c.keyed);
  headers = c.headers;
  nonnegative = (inr (omega arith), c.nonnegative);
  reconciled =
      (sym (total_of_unowned cmd.id d.accounts d.entries c.owned o.account_free), c.reconciled);
  balanced = c.balanced;
  owned = All_weaken _ _ d.entries (λ e h. ground (arith, h)) c.owned;
})

-- What holds of the tables, and after the account was opened, holds after `CreateAccount`.
module _ {ℓ} (P : Db → Type ℓ) (c : Config) (cmd : CreateAccountCommand) (w : World)
    (start : P w.db) (opened : (d' : Db) → IsOpened cmd w.db d' → P d') where
  ran-db :
      (r : Response) (v w' : World)
      → v.db ≡ w.db
      → Ran cmd.idempotency_scope cmd.idempotency_key cmd.request_hash (execute_create cmd) r v w'
      → P w'.db
  ran-db r v w' e (replayed i there p s) = subst P (sym (s.db ∙ e)) start
  ran-db r v w' e (executed u absent f g h) =
      opened w'.db
        (subst (λ x. IsOpened cmd x w'.db) e (execute_create-IsOpened cmd r v.db u w' f absent h))

  create_account-db : P (create_account c cmd w).1.db
  unfolding create_account
  create_account-db = >>-db P _ _ w (subst P (sym (lift_check-db _ w)) start) λ _ w1 h1 p1.
      (let same : w1.db ≡ w.db = sym (ap (λ p. p.1.db) h1) ∙ lift_check-db _ w in
        in_tx-db P c.db_max_tx_retries _ w1 p1
          λ r x w' from armed run b. ran-db r x w' (from ∙ same) (idempotent-Ran _ _ _ _ x run))

-- For every schedule of failures, from any tables, the creation of an account leaves the tables as they were, or adds
-- the account with the columns of the command, its balance of zero and the stored answer, under an id and a key that
-- were free.
pub create_account_atomic :
    (c : Config) (cmd : CreateAccountCommand) (w : World)
    → ((create_account c cmd w).1.db ≡ w.db) ⊎ IsOpened cmd w.db (create_account c cmd w).1.db
create_account_atomic c cmd w =
    create_account-db (λ d. (d ≡ w.db) ⊎ IsOpened cmd w.db d) c cmd w (inl refl) λ d o. inr o

-- The creation of an account keeps the invariant of the ledger, however it ends.
pub create_account-IsConsistent :
    (c : Config) (cmd : CreateAccountCommand) (w : World)
    → IsConsistent w.db
    → IsConsistent (create_account c cmd w).1.db
create_account-IsConsistent c cmd w k =
    create_account-db IsConsistent c cmd w k λ d o. Opened-IsConsistent cmd w.db d o k

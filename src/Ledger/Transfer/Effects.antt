-- ===== src/Ledger/Transfer/Effects.antt =====
-- The tables that an execution of `Transfer` leaves, against those before its key was claimed.
use fault_tolerant_payment_l.Base.{
  ℕ, ◌≡◌, refl, sym, ◌∙◌, ap, subst, Text, true, false, none, some, List, [], ◌∷◌, find, exists,
}
use fault_tolerant_payment_l.Config.{Config}
use fault_tolerant_payment_l.Int64.{neg64}
use fault_tolerant_payment_l.Store.Schema.{
  Db, Entry, BalanceRow, Transaction, IdemRecord, OutboxRow, pending, transaction_json,
  all_balanced,
}
use fault_tolerant_payment_l.Store.World.{World}
use fault_tolerant_payment_l.Idempotency.{is_for, fresh_claim, complete_row, complete_rows}
use fault_tolerant_payment_l.Idempotency.Laws.{complete_rows_fresh}
use fault_tolerant_payment_l.Outbox.Insert.{has_event_id}
use fault_tolerant_payment_l.Ledger.Model.{TransferCommand}
use fault_tolerant_payment_l.Ledger.Locks.{LockedAccount}
use fault_tolerant_payment_l.Ledger.Repo.{add_transaction, has_id}
use fault_tolerant_payment_l.Ledger.Balances.{Moved}
use fault_tolerant_payment_l.Ledger.Effect.{Pushed}
use fault_tolerant_payment_l.Ledger.Posting.{with_payment}
use fault_tolerant_payment_l.Ledger.Locking.{IsLocked}
use fault_tolerant_payment_l.Ledger.Consistent.{
  IsConsistent, Posted-IsConsistent, IsConsistent-others,
}
use fault_tolerant_payment_l.Ledger.Payment.{Response}
use fault_tolerant_payment_l.Ledger.Transfer.{transfer_entries, transfer_transaction}
use fault_tolerant_payment_l.Ledger.Transfer.Flows.{flows, flows-transfer_entries}
use fault_tolerant_payment_l.Ledger.Transfer.Execution.{Checked, Transferred}

-- One payment was made of the tables `d`: its accounts passed the checks, and its header, its two entries, its
-- balances, one pending event and the completed record of its key were written.
pub record IsPaid (c : Config) (cmd : TransferCommand) (d d' : Db) : Type 0 where
  pub id : ℕ
  pub at : ℕ
  pub stored_at : ℕ
  pub debit_id : ℕ
  pub credit_id : ℕ
  pub source : LockedAccount
  pub dest : LockedAccount
  pub event : OutboxRow
  pub answer : Transaction
  pub source_locked : IsLocked d cmd.source_account_id source
  pub dest_locked : IsLocked d cmd.destination_account_id dest
  pub checked : Checked source dest cmd
  pub unclaimed : find (is_for cmd.idempotency_scope cmd.idempotency_key) d.idempotency ≡ none
  pub new_id : exists (has_id id) d.transactions ≡ false
  pub header :
      d'.transactions
      ≡ (add_transaction stored_at
          (transfer_transaction id at source
            (transfer_entries id debit_id credit_id source dest cmd)
            cmd)
          d).transactions
  pub entries :
      Pushed d'.transactions d.accounts
        (transfer_entries id debit_id credit_id source dest cmd)
        d.entries
        d'.entries
  pub directed :
      flows (transfer_entries id debit_id credit_id source dest cmd)
      ≡ (cmd.source_account_id, neg64 cmd.amount) ∷ (cmd.destination_account_id, cmd.amount) ∷ []
  pub balances :
      Moved (transfer_entries id debit_id credit_id source dest cmd) d.balances d'.balances
  pub announced : d'.outbox ≡ event ∷ d.outbox
  pub new_event : exists (has_event_id event.id) d.outbox ≡ false
  pub about : event.aggregate_id ≡ id
  pub unsent : event.status ≡ pending
  pub completed :
      d'.idempotency
      ≡ complete_row 201
          (transaction_json answer)
          (some id)
          (fresh_claim cmd.idempotency_scope cmd.idempotency_key cmd.request_hash)
        ∷ d.idempotency
  pub accounts : d'.accounts ≡ d.accounts
  pub reversals : d'.reversals ≡ d.reversals

-- the tables with a key claimed
abbrev pub claimed : TransferCommand → Db → Db
claimed cmd d = record d {
  idempotency =
      fresh_claim cmd.idempotency_scope cmd.idempotency_key cmd.request_hash ∷ d.idempotency;
}

IsLocked-unclaimed :
    {id : Text} {a : LockedAccount} (is : List IdemRecord) (d : Db)
    → IsLocked (record d { idempotency = is }) id a
    → IsLocked d id a
IsLocked-unclaimed is d l = record {
  row = l.row;
  account = l.account;
  row_there = l.row_there;
  account_there = l.account_there;
  named = l.named;
  balanced = l.balanced;
  overdraft = l.overdraft;
  currency = l.currency;
  kinded = l.kinded;
}

-- The writes of a payment, one after the other.
settled :
    (at id : ℕ) (cmd : TransferCommand) (t answer : Transaction) (ev : OutboxRow) (es : List Entry)
    (bs : List BalanceRow) (d ready written sent final : Db)
    → ready ≡ claimed cmd d
    → written ≡ with_payment at t es bs ready
    → sent ≡ record written { outbox = ev ∷ written.outbox }
    → final ≡ record sent {
      idempotency =
          complete_rows cmd.idempotency_scope cmd.idempotency_key 201
            (transaction_json answer)
            (some id)
            sent.idempotency;
    }
    → find (is_for cmd.idempotency_scope cmd.idempotency_key) d.idempotency ≡ none
    → final ≡ record (with_payment at t es bs d) {
      outbox = ev ∷ d.outbox;
      idempotency =
          complete_row 201
            (transaction_json answer)
            (some id)
            (fresh_claim cmd.idempotency_scope cmd.idempotency_key cmd.request_hash)
          ∷ d.idempotency;
    }
unfolding add_transaction
settled at id cmd t answer ev es bs d ready written sent final h1 h2 h3 h4 absent =
    h4
    ∙ ap
        (λ (x : Db). record x {
          idempotency =
              complete_rows cmd.idempotency_scope cmd.idempotency_key 201 (transaction_json answer)
                (some id) x.idempotency;
        })
        (h3
          ∙ ap (λ (x : Db). record x { outbox = ev ∷ x.outbox })
              (h2 ∙ ap (λ (x : Db). with_payment at t es bs x) h1))
    ∙ ap (λ is. record (with_payment at t es bs d) { outbox = ev ∷ d.outbox; idempotency = is })
        (complete_rows_fresh cmd.idempotency_scope cmd.idempotency_key cmd.request_hash 201
          (transaction_json answer) (some id) d.idempotency absent)

module _ {c : Config} {tx_id : ℕ} {cmd : TransferCommand} {r : Response} {v w' : World} (d : Db)
    (t : Transferred c tx_id cmd r v w') (e : v.db ≡ claimed cmd d)
    (absent : find (is_for cmd.idempotency_scope cmd.idempotency_key) d.idempotency ≡ none) where
  abbrev posted_entries : List Entry
  posted_entries = transfer_entries tx_id t.debit_id t.credit_id t.source t.dest cmd

  abbrev posted_transaction : Transaction
  posted_transaction = transfer_transaction tx_id t.at t.source posted_entries cmd

  final-db :
      w'.db
      ≡ record (with_payment t.posted.at posted_transaction t.written.db.entries
          t.written.db.balances d) {
            outbox = t.announced.event ∷ d.outbox;
            idempotency =
                complete_row 201
                  (transaction_json t.answered.loaded)
                  (some tx_id)
                  (fresh_claim cmd.idempotency_scope cmd.idempotency_key cmd.request_hash)
                ∷ d.idempotency;
          }
  final-db =
      settled t.posted.at tx_id cmd posted_transaction t.answered.loaded t.announced.event
        t.written.db.entries t.written.db.balances d t.ready.db t.written.db t.sent.db w'.db
        (t.untouched.db ∙ e) t.posted.stored t.announced.stored t.answered.stored absent

  ready-db : t.ready.db ≡ claimed cmd d
  ready-db = t.untouched.db ∙ e

  pub Transferred-IsPaid : IsPaid c cmd d w'.db
  unfolding transfer_transaction add_transaction
  Transferred-IsPaid = record {
    id = tx_id;
    at = t.at;
    stored_at = t.posted.at;
    debit_id = t.debit_id;
    credit_id = t.credit_id;
    source = t.source;
    dest = t.dest;
    event = t.announced.event;
    answer = t.answered.loaded;
    source_locked =
        IsLocked-unclaimed _ d
          (subst (λ x. IsLocked x cmd.source_account_id t.source) e t.source_locked);
    dest_locked =
        IsLocked-unclaimed _ d
          (subst (λ x. IsLocked x cmd.destination_account_id t.dest) e t.dest_locked);
    checked = t.checked;
    unclaimed = absent;
    new_id =
        subst (λ (x : Db). exists (has_id tx_id) x.transactions ≡ false) ready-db t.posted.id_free;
    header = ap (λ (x : Db). x.transactions) final-db;
    entries =
        subst (λ (x : Db). Pushed x.transactions d.accounts posted_entries d.entries x.entries)
          (sym final-db)
          (subst
            (λ (x : Db).
              Pushed (add_transaction t.posted.at posted_transaction x).transactions x.accounts
                posted_entries x.entries t.written.db.entries)
            ready-db t.posted.pushed);
    directed =
        flows-transfer_entries tx_id t.debit_id t.credit_id t.source t.dest cmd
          t.source_locked.named t.dest_locked.named;
    balances =
        subst (λ bs. Moved posted_entries d.balances bs)
          (ap (λ (x : Db). x.balances) (sym final-db))
          (subst (λ (x : Db). Moved posted_entries x.balances t.written.db.balances) ready-db
            t.posted.moved);
    announced = ap (λ (x : Db). x.outbox) final-db;
    new_event =
        subst (λ (x : Db). exists (has_event_id t.announced.event.id) x.outbox ≡ false) ready-db
          (subst (λ (x : Db). exists (has_event_id t.announced.event.id) x.outbox ≡ false)
            t.posted.stored t.announced.fresh);
    about = t.announced.about;
    unsent = t.announced.pending_status;
    completed = ap (λ (x : Db). x.idempotency) final-db;
    accounts = ap (λ (x : Db). x.accounts) final-db;
    reversals = ap (λ (x : Db). x.reversals) final-db;
  }

  pub Transferred-IsConsistent :
      IsConsistent d → all_balanced w'.deferred w'.db.entries ≡ true → IsConsistent w'.db
  unfolding transfer_entries transfer_transaction
  Transferred-IsConsistent k b =
      let deferred : w'.deferred ≡ t.written.deferred =
        t.answered.deferred ∙ t.announced.deferred in
      let rows : w'.db.entries ≡ t.written.db.entries = ap (λ (x : Db). x.entries) final-db in
      let written : IsConsistent t.written.db =
        Posted-IsConsistent posted_transaction (refl, (refl, tt))
          (subst IsConsistent (sym ready-db)
            (IsConsistent-others d d.reversals (claimed cmd d).idempotency d.outbox k))
          t.posted
          (subst (λ ts. all_balanced ts t.written.db.entries ≡ true) deferred
            (subst (λ es. all_balanced w'.deferred es ≡ true) rows b)) in
      subst IsConsistent
        (sym (
          t.answered.stored
          ∙ ap
              (λ (x : Db). record x {
                idempotency =
                    complete_rows cmd.idempotency_scope cmd.idempotency_key 201
                      (transaction_json t.answered.loaded) (some tx_id) x.idempotency;
              })
              t.announced.stored))
        (IsConsistent-others t.written.db t.written.db.reversals
          (complete_rows cmd.idempotency_scope cmd.idempotency_key 201
            (transaction_json t.answered.loaded) (some tx_id) t.written.db.idempotency)
          (t.announced.event ∷ t.written.db.outbox) written)

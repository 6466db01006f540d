-- ===== src/Ledger/Reverse/Effects.antt =====
-- The tables that an execution of `Reverse` leaves, against those before its key was claimed.
use fault_tolerant_payment_l.Base.{
  ℕ, ◌≡◌, refl, sym, ◌∙◌, ap, subst, Text, text_eq, true, false, Option, none, some, List, ◌∷◌,
  find, exists, All-find,
}
use fault_tolerant_payment_l.Config.{Config}
use fault_tolerant_payment_l.Store.Schema.{
  Db, Entry, BalanceRow, Transaction, TransactionRow, ReversalRow, IdemRecord, OutboxRow, Body,
  pending, transaction_json, all_balanced, is_balanced,
}
use fault_tolerant_payment_l.Store.World.{World}
use fault_tolerant_payment_l.Idempotency.{complete_rows}
use fault_tolerant_payment_l.Ledger.Model.{ReverseCommand, tx_kind_reversal}
use fault_tolerant_payment_l.Ledger.Repo.{add_transaction, has_id, reverses}
use fault_tolerant_payment_l.Ledger.Repo.Load.{id_of, header, entries_of}
use fault_tolerant_payment_l.Ledger.Balances.{Moved}
use fault_tolerant_payment_l.Ledger.Effect.{Pushed}
use fault_tolerant_payment_l.Ledger.Posting.{with_payment}
use fault_tolerant_payment_l.Ledger.Loading.{loaded_from}
use fault_tolerant_payment_l.Ledger.Consistent.{
  IsConsistent, IsOwn, Posted-IsConsistent, IsConsistent-others,
}
use fault_tolerant_payment_l.Ledger.Payment.{Response}
use fault_tolerant_payment_l.Ledger.Reverse.{reversal_transaction, reversal_description}
use fault_tolerant_payment_l.Ledger.Reverse.Execution.{Mirrored, Undone}
use fault_tolerant_payment_l.Ledger.Reverse.Mirror.{is_balanced-IsCons, Mirrored-IsOwn}

-- One payment of the tables `d` was reversed: it was no reversal and none reversed it before; its mirrored entries,
-- a header that names it, a reversal record and a pending event were written.
pub record IsReversed (d d' : Db) : Type 0 where
  pub id : ℕ
  pub original : TransactionRow
  pub reversal : TransactionRow
  pub made : ReversalRow
  pub event : OutboxRow
  pub entries : List Entry
  pub number : ℕ
  pub there : find (has_id number) d.transactions ≡ some original
  pub payment : text_eq original.kind tx_kind_reversal ≡ false
  pub unreversed : find (reverses original.id) d.transactions ≡ none
  pub new_id : exists (has_id id) d.transactions ≡ false
  pub mirrored : Mirrored id (entries_of original.id d.entries) entries
  pub header : d'.transactions ≡ reversal ∷ d.transactions
  pub identified : reversal.id ≡ id
  pub names : reversal.reverses_transaction_id ≡ some original.id
  pub written : Pushed d'.transactions d.accounts entries d.entries d'.entries
  pub balances : Moved entries d.balances d'.balances
  pub reversals : d'.reversals ≡ made ∷ d.reversals
  pub of_original : made.original_transaction_id ≡ original.id
  pub announced : d'.outbox ≡ event ∷ d.outbox
  pub unsent : event.status ≡ pending
  pub about : event.aggregate_id ≡ id
  pub accounts : d'.accounts ≡ d.accounts

id_of-none : (o : Option TransactionRow) → id_of o ≡ none → o ≡ none
id_of-none none h = refl
id_of-none (some t) h = cc

-- The writes of a reversal, one after the other.
settled :
    (at : ℕ) (scope key : Text) (id : ℕ) (t : Transaction) (body : Body) (r : ReversalRow)
    (ev : OutboxRow) (es : List Entry) (bs : List BalanceRow) (is : List IdemRecord)
    (d ready written recorded sent final : Db)
    → ready ≡ record d { idempotency = is }
    → written ≡ with_payment at t es bs ready
    → recorded ≡ record written { reversals = r ∷ written.reversals }
    → sent ≡ record recorded { outbox = ev ∷ recorded.outbox }
    → final
      ≡ record sent { idempotency = complete_rows scope key 201 body (some id) sent.idempotency }
    → final ≡ record (with_payment at t es bs d) {
      reversals = r ∷ d.reversals;
      outbox = ev ∷ d.outbox;
      idempotency = complete_rows scope key 201 body (some id) is;
    }
unfolding add_transaction
settled at scope key id t body r ev es bs is d ready written recorded sent final h1 h2 h3 h4 h5 =
    h5
    ∙ ap
        (λ (x : Db). record x {
          idempotency = complete_rows scope key 201 body (some id) x.idempotency;
        })
        (h4
          ∙ ap (λ (x : Db). record x { outbox = ev ∷ x.outbox })
              (h3
                ∙ ap (λ (x : Db). record x { reversals = r ∷ x.reversals })
                    (h2 ∙ ap (λ (x : Db). with_payment at t es bs x) h1)))

module _ {c : Config} {show : ℕ → Text} {id : ℕ} {cmd : ReverseCommand} {r : Response}
    {v w' : World} (d : Db) (is : List IdemRecord) (u : Undone c show id cmd r v w')
    (e : v.db ≡ record d { idempotency = is }) where
  abbrev posted_transaction : Transaction
  posted_transaction =
      reversal_transaction id u.at (reversal_description show u.original.id cmd.reason) u.original
        u.entries

  abbrev made_record : ReversalRow
  made_record = record {
    id = u.record_id;
    original_transaction_id = u.original.id;
    reversal_transaction_id = id;
    reason = cmd.reason;
  }

  ready-db : u.ready.db ≡ record d { idempotency = is }
  ready-db = u.untouched.db ∙ e

  pub final-db :
      w'.db
      ≡ record (with_payment u.posted.at posted_transaction u.written.db.entries
          u.written.db.balances d) {
            reversals = made_record ∷ d.reversals;
            outbox = u.announced.event ∷ d.outbox;
            idempotency =
                complete_rows cmd.idempotency_scope cmd.idempotency_key 201
                  (transaction_json u.answered.loaded)
                  (some id)
                  is;
          }
  final-db =
      settled u.posted.at cmd.idempotency_scope cmd.idempotency_key id posted_transaction
        (transaction_json u.answered.loaded) made_record u.announced.event u.written.db.entries
        u.written.db.balances is d u.ready.db u.written.db u.recorded_world.db u.sent.db w'.db
        ready-db u.posted.stored u.recorded.stored u.announced.stored u.answered.stored

  original-value : u.original ≡ loaded_from u.loaded.row d
  unfolding header
  original-value =
      u.loaded.value ∙ ap (λ (x : Db). loaded_from u.loaded.row x) (u.before_loading.db ∙ e)

  original-id : u.original.id ≡ u.loaded.row.id
  unfolding header
  original-id = ap (λ (t : Transaction). t.id) original-value

  pub Undone-IsReversed : IsReversed d w'.db
  unfolding reversal_transaction add_transaction header
  Undone-IsReversed = record {
    id = id;
    original = u.loaded.row;
    reversal = record {
      id = id;
      kind = posted_transaction.kind;
      currency = posted_transaction.currency;
      description = posted_transaction.description;
      external_reference = none;
      reverses_transaction_id = some u.original.id;
      created_at = u.posted.at;
    };
    made = made_record;
    event = u.announced.event;
    entries = u.entries;
    number = u.loaded.number;
    there =
        subst (λ (x : Db). find (has_id u.loaded.number) x.transactions ≡ some u.loaded.row)
          (u.before_loading.db ∙ e) u.loaded.there;
    payment =
        ap (λ (t : Transaction). text_eq t.kind tx_kind_reversal) (sym original-value)
        ∙ u.open_payment.payment;
    unreversed = id_of-none _ (
        ap (λ (t : Transaction). t.reversed_by_transaction_id) (sym original-value)
        ∙ u.open_payment.unreversed);
    new_id =
        subst (λ (x : Db). exists (has_id id) x.transactions ≡ false) ready-db u.posted.id_free;
    mirrored =
        subst (λ (t : Transaction). Mirrored id t.entries u.entries) original-value u.mirrored;
    header = ap (λ (x : Db). x.transactions) final-db;
    identified = refl;
    names = ap (λ n. some n) original-id;
    written =
        subst (λ (x : Db). Pushed x.transactions d.accounts u.entries d.entries x.entries)
          (sym final-db)
          (subst
            (λ (x : Db).
              Pushed (add_transaction u.posted.at posted_transaction x).transactions x.accounts
                u.entries x.entries u.written.db.entries)
            ready-db u.posted.pushed);
    balances =
        subst (λ bs. Moved u.entries d.balances bs) (ap (λ (x : Db). x.balances) (sym final-db))
          (subst (λ (x : Db). Moved u.entries x.balances u.written.db.balances) ready-db
            u.posted.moved);
    reversals = ap (λ (x : Db). x.reversals) final-db;
    of_original = original-id;
    announced = ap (λ (x : Db). x.outbox) final-db;
    unsent = u.announced.pending_status;
    about = u.announced.about;
    accounts = ap (λ (x : Db). x.accounts) final-db;
  }

  -- the entries of a transaction that balances
  IsOwn-entries : IsConsistent d → IsOwn id u.entries
  IsOwn-entries k =
      let balanced : is_balanced u.loaded.row.id d.entries ≡ true =
        All-find (λ (t : TransactionRow). is_balanced t.id d.entries ≡ true)
          (has_id u.loaded.number) d.transactions u.loaded.row k.balanced
          (subst (λ (x : Db). find (has_id u.loaded.number) x.transactions ≡ some u.loaded.row)
            (u.before_loading.db ∙ e) u.loaded.there) in
      Mirrored-IsOwn id (entries_of u.loaded.row.id d.entries) u.entries
        (subst (λ (t : Transaction). Mirrored id t.entries u.entries) original-value u.mirrored)
        (is_balanced-IsCons u.loaded.row.id d.entries balanced)

  pub Undone-IsConsistent :
      IsConsistent d → all_balanced w'.deferred w'.db.entries ≡ true → IsConsistent w'.db
  unfolding reversal_transaction
  Undone-IsConsistent k b =
      let deferred : w'.deferred ≡ u.written.deferred =
        u.answered.deferred ∙ u.announced.deferred ∙ u.recorded.deferred in
      let rows : w'.db.entries ≡ u.written.db.entries = ap (λ (x : Db). x.entries) final-db in
      let written : IsConsistent u.written.db =
        Posted-IsConsistent posted_transaction (IsOwn-entries k)
          (subst IsConsistent (sym ready-db) (IsConsistent-others d d.reversals is d.outbox k))
          u.posted
          (subst (λ ts. all_balanced ts u.written.db.entries ≡ true) deferred
            (subst (λ es. all_balanced w'.deferred es ≡ true) rows b)) in
      subst IsConsistent
        (sym (
          u.answered.stored
          ∙ ap
              (λ (x : Db). record x {
                idempotency =
                    complete_rows cmd.idempotency_scope cmd.idempotency_key 201
                      (transaction_json u.answered.loaded) (some id) x.idempotency;
              })
              (u.announced.stored
                ∙ ap (λ (x : Db). record x { outbox = u.announced.event ∷ x.outbox })
                    u.recorded.stored)))
        (IsConsistent-others u.written.db (made_record ∷ u.written.db.reversals)
          (complete_rows cmd.idempotency_scope cmd.idempotency_key 201
            (transaction_json u.answered.loaded) (some id) u.written.db.idempotency)
          (u.announced.event ∷ u.written.db.outbox) written)

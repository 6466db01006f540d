-- ===== src/Ledger/Consistent.antt =====
-- The invariant of the ledger's tables, under the writes of internal/ledger/service.go.
use fault_tolerant_payment_l.Base.{
  pos, Bool-cases, inl, inr, text_eq, text_eq_iff, ℕ, ◌==◌, ◌≡◌, refl, sym, ◌∙◌, ap, subst, Text,
  ◌+ℤ◌, int_laws, arith, true, false, List, [], ◌∷◌, All, exists,
}
use fault_tolerant_payment_l.Store.Schema.{
  Db, Account, BalanceRow, TransactionRow, Entry, Transaction, sum_of, count_of, is_balanced,
  all_balanced, ReversalRow, OutboxRow, IdemRecord,
}
use fault_tolerant_payment_l.Store.World.{World}
use fault_tolerant_payment_l.Ledger.Repo.{
  is_account_in, has_id, reverses, when_some, add_transaction,
}
use fault_tolerant_payment_l.Ledger.Locks.{has_account}
use fault_tolerant_payment_l.Ledger.Totals.{total_of}
use fault_tolerant_payment_l.Ledger.Balances.{Moved, Keyed, NonNegative, Moved-Keyed}
use fault_tolerant_payment_l.Ledger.Effect.{Pushed, done, push, armed}
use fault_tolerant_payment_l.Ledger.Posting.{Posted}

-- No two headers share an id, and no two reverse one transaction.
abbrev pub Headers : List TransactionRow → Type 0
Headers [] = Unit
Headers (t ∷ ts) =
    (exists (has_id t.id) ts ≡ false)
    × (when_some t.reverses_transaction_id (λ r. exists (reverses r) ts) ≡ false)
    × Headers ts

-- Every balance is the sum of its account's entries.
abbrev pub Reconciled : List Entry → List BalanceRow → Type 0
Reconciled es bs = All (λ (b : BalanceRow). b.amount ≡ total_of b.account_id es) bs

-- Every transaction has two entries or more, which sum to zero.
abbrev pub Balanced : List Entry → List TransactionRow → Type 0
Balanced es ts = All (λ (t : TransactionRow). is_balanced t.id es ≡ true) ts

-- Every entry's account exists.
abbrev pub Owned : List Account → List Entry → Type 0
Owned accts es = All (λ (e : Entry). exists (has_account e.account_id) accts ≡ true) es

-- The invariant of the ledger: the accounting equations, no unpermitted overdraft, and the keys.
pub record IsConsistent (d : Db) : Type 0 where
  pub keyed : Keyed d.balances
  pub headers : Headers d.transactions
  pub nonnegative : NonNegative d.balances
  pub reconciled : Reconciled d.entries d.balances
  pub balanced : Balanced d.entries d.transactions
  pub owned : Owned d.accounts d.entries

Pushed-total_of :
    {txs : List TransactionRow} {accts : List Account} {es old new : List Entry} (id : Text)
    → Pushed txs accts es old new
    → total_of id new ≡ total_of id old +ℤ total_of id es
unfolding total_of
Pushed-total_of id done = omega int_laws
Pushed-total_of id (push at a b c d rest) = grind (int_laws, Pushed-total_of id rest)

Moved-Reconciled :
    {txs : List TransactionRow} {accts : List Account} {es old new : List Entry}
    (bs cs : List BalanceRow)
    → Pushed txs accts es old new
    → Moved es bs cs
    → Reconciled old bs
    → Reconciled new cs
Moved-Reconciled [] [] p m r = tt
Moved-Reconciled [] (c ∷ cs) p m r = absurd m
Moved-Reconciled (b ∷ bs) [] p m r = absurd m
Moved-Reconciled {es = es} {old = old} {new = new} (b ∷ bs) (c ∷ cs) p m r = (
  m.2
      ∙ ap (λ x. x +ℤ total_of b.account_id es) r.0
      ∙ sym (Pushed-total_of b.account_id p)
      ∙ ap (λ j. total_of j new) (sym m.0),
  Moved-Reconciled bs cs p m.3 r.1,
)

is_balanced_skip :
    (t u : ℕ) (e : Entry) (es : List Entry)
    → e.transaction_id ≡ t
    → (u == t) ≡ false
    → is_balanced u (e ∷ es) ≡ is_balanced u es
unfolding is_balanced sum_of count_of
is_balanced_skip t u e es h ne =
    let other : (e.transaction_id == u) ≡ false = ground arith in rw other

-- Entries of another transaction do not change whether one is balanced.
Pushed-is_balanced :
    {txs : List TransactionRow} {accts : List Account} {es old new : List Entry} (t u : ℕ)
    → All (λ (e : Entry). e.transaction_id ≡ t) es
    → (u == t) ≡ false
    → Pushed txs accts es old new
    → is_balanced u new ≡ is_balanced u old
Pushed-is_balanced t u h ne done = refl
Pushed-is_balanced t u h ne (push {e = e} {old = old} at a b c d rest) =
    Pushed-is_balanced t u h.1 ne rest
    ∙ is_balanced_skip t u (record e { created_at = at }) old h.0 ne

Pushed-Balanced :
    {txs : List TransactionRow} {accts : List Account} {es old new : List Entry} (t : ℕ)
    (ts : List TransactionRow)
    → All (λ (e : Entry). e.transaction_id ≡ t) es
    → exists (has_id t) ts ≡ false
    → Pushed txs accts es old new
    → Balanced old ts
    → Balanced new ts
Pushed-Balanced t [] h free p b = tt
Pushed-Balanced t (x ∷ ts) h free p b =
    let ne : (x.id == t) ≡ false = ground arith in
    let others : exists (has_id t) ts ≡ false = ground arith in
    (Pushed-is_balanced t x.id h ne p ∙ b.0, Pushed-Balanced t ts h others p b.1)

-- The deferred trigger ran for every transaction that was armed.
all_balanced-armed :
    (es : List Entry) (ts : List ℕ) (rows : List Entry)
    → all_balanced (armed es ts) rows ≡ true
    → all_balanced ts rows ≡ true
unfolding all_balanced
all_balanced-armed [] ts rows h = h
all_balanced-armed (e ∷ es) ts rows h =
    let k : all_balanced (e.transaction_id ∷ ts) rows ≡ true =
      all_balanced-armed es (e.transaction_id ∷ ts) rows h in
    ground arith

-- Some entries, all of one transaction.
abbrev pub IsOwn : ℕ → List Entry → Type 0
IsOwn t [] = ⊥
IsOwn t (e ∷ es) = (e.transaction_id ≡ t) × All (λ (x : Entry). x.transaction_id ≡ t) es

all_balanced_own :
    (t : ℕ) (es : List Entry) (ts : List ℕ) (rows : List Entry)
    → IsOwn t es
    → all_balanced (armed es ts) rows ≡ true
    → is_balanced t rows ≡ true
unfolding all_balanced
all_balanced_own t [] ts rows own h = absurd own
all_balanced_own t (e ∷ es) ts rows own h =
    let k : all_balanced (e.transaction_id ∷ ts) rows ≡ true =
      all_balanced-armed es (e.transaction_id ∷ ts) rows h in
    subst (λ x. is_balanced x rows ≡ true) own.0 (ground arith)

IsOwn-All : (t : ℕ) (es : List Entry) → IsOwn t es → All (λ (x : Entry). x.transaction_id ≡ t) es
IsOwn-All t [] own = tt
IsOwn-All t (e ∷ es) own = own

account_in :
    (id currency : Text) (accts : List Account)
    → exists (is_account_in id currency) accts ≡ true
    → exists (has_account id) accts ≡ true
account_in id currency [] h = cc
account_in id currency (a ∷ accts) h = ground (arith, account_in id currency accts)

Pushed-Owned :
    {txs : List TransactionRow} {accts : List Account} {es old new : List Entry}
    → Pushed txs accts es old new
    → Owned accts old
    → Owned accts new
Pushed-Owned done o = o
Pushed-Owned {accts = accts} (push {e = e} at a b c d rest) o =
    Pushed-Owned rest (account_in e.account_id e.currency accts d, o)

-- The sum of an account that does not exist.
pub total_of_unowned :
    (id : Text) (accts : List Account) (es : List Entry)
    → Owned accts es
    → exists (has_account id) accts ≡ false
    → total_of id es ≡ pos 0
unfolding total_of
total_of_unowned id accts [] o h = refl
total_of_unowned id accts (e ∷ es) o h = elim (Bool-cases (text_eq e.account_id id)) [
  | inl same ↦
      (let j : e.account_id ≡ id = (text_eq_iff e.account_id id).0 same in
        let k : exists (has_account id) accts ≡ true =
          subst (λ x. exists (has_account x) accts ≡ true) j o.0 in
        cc)
  | inr other ↦ rw other (total_of_unowned id accts es o.1 h)
]

-- Posting a payment keeps the invariant, if its deferred triggers pass.
pub Posted-IsConsistent :
    {w w' : World} (t : Transaction)
    → IsOwn t.id t.entries
    → IsConsistent w.db
    → Posted t w w'
    → all_balanced w'.deferred w'.db.entries ≡ true
    → IsConsistent w'.db
unfolding add_transaction
Posted-IsConsistent {w} {w'} t own c p b =
    let headers : w'.db.transactions ≡ (add_transaction p.at t w.db).transactions =
      ap (λ (d : Db). d.transactions) p.stored in
    let accounts : w'.db.accounts ≡ w.db.accounts = ap (λ (d : Db). d.accounts) p.stored in
    let new : is_balanced t.id w'.db.entries ≡ true =
      all_balanced_own t.id t.entries w.deferred w'.db.entries own
        (subst (λ ds. all_balanced ds w'.db.entries ≡ true) p.deferred b) in
    record {
      keyed = Moved-Keyed t.entries w.db.balances w'.db.balances p.moved c.keyed;
      headers = subst Headers (sym headers) (p.id_free, p.reversal_free, c.headers);
      nonnegative = p.kept c.keyed c.nonnegative;
      reconciled = Moved-Reconciled w.db.balances w'.db.balances p.pushed p.moved c.reconciled;
      owned =
          subst (λ accts. Owned accts w'.db.entries) (sym accounts) (Pushed-Owned p.pushed c.owned);
      balanced = subst (Balanced w'.db.entries) (sym headers) (
        new,
        Pushed-Balanced t.id w.db.transactions (IsOwn-All t.id t.entries own) p.id_free p.pushed
            c.balanced,
      );
    }

-- The invariant does not read the other tables.
pub IsConsistent-others :
    (d : Db) (rs : List ReversalRow) (is : List IdemRecord) (os : List OutboxRow)
    → IsConsistent d
    → IsConsistent (record d { reversals = rs; idempotency = is; outbox = os })
IsConsistent-others d rs is os c = record {
  keyed = c.keyed;
  headers = c.headers;
  nonnegative = c.nonnegative;
  reconciled = c.reconciled;
  balanced = c.balanced;
  owned = c.owned;
}

-- ===== src/Ledger/Loading.antt =====
-- What `loadTransaction` returns when it succeeds.
use fault_tolerant_payment_l.Base.{
  ℕ, ◌≡◌, refl, sym, ◌∙◌, ap, Option, none, some, find, Option-cases, inl, inr, List,
}
use fault_tolerant_payment_l.Store.Schema.{Db, Transaction, TransactionRow, Entry}
use fault_tolerant_payment_l.Store.World.{World, Result, ok, rest_calls}
use fault_tolerant_payment_l.Store.Inversion.{
  Same, Same-trans, >>=-elim, map_err-eq-ok, call-eq-ok, pure-eq-ok, ok-eq-ok, Same-of_eq,
}
use fault_tolerant_payment_l.Ledger.Repo.{has_id}
use fault_tolerant_payment_l.Ledger.Repo.Load.{load_transaction, select_header, header, entries_of}

-- the stored transaction under a header
abbrev pub loaded_from : TransactionRow → Db → Transaction
loaded_from row d = record (header row d) { entries = entries_of row.id d.entries }

-- The header was there, and the value is what the tables hold of it.
pub record Loaded (id : Option ℕ) (t : Transaction) (w w' : World) : Type 0 where
  pub number : ℕ
  pub row : TransactionRow
  pub parsed : id ≡ some number
  pub there : find (has_id number) w.db.transactions ≡ some row
  pub value : t ≡ loaded_from row w.db
  pub same : Same w w'

record Selected (id : Option ℕ) (t : Transaction) (w w' : World) : Type 0 where
  number : ℕ
  row : TransactionRow
  parsed : id ≡ some number
  there : find (has_id number) w.db.transactions ≡ some row
  value : t ≡ header row w.db
  same : Same w w'

select_header-Selected :
    {t : Transaction} {w' : World} (id : Option ℕ) (w : World)
    → select_header id (record w { calls = rest_calls w.calls }) ≡ (ok t, w')
    → Selected id t w w'
unfolding select_header
select_header-Selected none w h = cc
select_header-Selected (some n) w h = elim (Option-cases (find (has_id n) w.db.transactions)) [
  | inl absent ↦ (let k = rw (absent, select_header) at h in cc)
  | inr (row, there) ↦
      (let (value, q) = ok-eq-ok (rw (there, select_header) at h) in
        record {
          number = n;
          row = row;
          parsed = refl;
          there = there;
          value = sym value;
          same = Same-trans (record { db = refl; deferred = refl }) (Same-of_eq q);
        })
]

loaded :
    (id : Option ℕ) (hd : Transaction) (es : List Entry) (t : Transaction) (w w1 w2 w' : World)
    → Selected id hd w w1
    → ◌≡◌ {A = Result (List Entry) × World}
        (ok (entries_of hd.id w1.db.entries), record w1 { calls = rest_calls w1.calls })
        (ok es, w2)
    → (record hd { entries = es } ≡ t) × Same w2 w'
    → Loaded id t w w'
unfolding header
loaded id hd es t w w1 w2 w' s q p =
    let (value, after) = ok-eq-ok q in
    let rows : entries_of hd.id w1.db.entries ≡ entries_of s.row.id w.db.entries =
      ap (λ (d : Db). entries_of hd.id d.entries) s.same.db
      ∙ ap (λ (x : Transaction). entries_of x.id w.db.entries) s.value in
    record {
      number = s.number;
      row = s.row;
      parsed = s.parsed;
      there = s.there;
      value =
          sym p.0
          ∙ ap (λ (x : Transaction). record x { entries = es }) s.value
          ∙ ap (λ n. record (header s.row w.db) { entries = n }) (sym value ∙ rows);
      same =
          Same-trans s.same (
            Same-trans (Same-trans (record { db = refl; deferred = refl }) (Same-of_eq after)) p.1);
    }

pub load_transaction-Loaded :
    {t : Transaction} {w' : World} (id : Option ℕ) (w : World)
    → load_transaction id w ≡ (ok t, w')
    → Loaded id t w w'
unfolding load_transaction
load_transaction-Loaded {t} {w'} id w h = >>=-elim _ _ _ h λ hd w1 h1 k1.
    >>=-elim _ _ _ k1 λ es w2 h2 k2.
      loaded id hd es t w w1 w2 w'
        (select_header-Selected id w (call-eq-ok _ _ (map_err-eq-ok _ _ _ h1)))
        (call-eq-ok _ _ (map_err-eq-ok _ _ _ h2)) (pure-eq-ok _ _ k2)

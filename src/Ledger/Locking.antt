-- ===== src/Ledger/Locking.antt =====
-- What `lockBalances` returns and which locks it takes.
use fault_tolerant_payment_l.Base.{
  ◌≡◌, refl, sym, ◌∙◌, ap, subst, inl, inr, Text, text_eq, text_eq_iff, Option, none, some, List,
  [], ◌∷◌, All, find, find-holds, Option-cases, is_some, Bool-cases, arith,
}
use fault_tolerant_payment_l.Store.Schema.{Db, Account, BalanceRow}
use fault_tolerant_payment_l.Store.World.{World, Result, ok}
use fault_tolerant_payment_l.Store.Inversion.{
  Same, Same-trans, Same-of_eq, >>=-elim, map_err-eq-ok, call-eq-ok, ok-eq-ok, pure-eq-ok,
  lift-eq-ok,
}
use fault_tolerant_payment_l.Ledger.Locks.{
  LockedAccount, Locked, lock_row, lock_sorted, lock_balances, select_locked, joined, get_locked,
  deref, has_account, has_balance,
}

-- A locked account is what the tables hold of its ID.
pub record IsLocked (d : Db) (id : Text) (a : LockedAccount) : Type 0 where
  pub row : BalanceRow
  pub account : Account
  pub row_there : find (has_balance id) d.balances ≡ some row
  pub account_there : find (has_account id) d.accounts ≡ some account
  pub named : a.id ≡ id
  pub balanced : a.balance ≡ row.amount
  pub overdraft : a.allow_overdraft ≡ row.allow_overdraft
  pub currency : a.currency ≡ account.currency
  pub kinded : a.kind ≡ account.kind

joined-IsLocked :
    {a : LockedAccount} {w w' : World} (d : Db) (id : Text) (o : Option Account) (b : BalanceRow)
    → find (has_balance id) d.balances ≡ some b
    → find (has_account id) d.accounts ≡ o
    → ◌≡◌ {A = Result LockedAccount × World} (joined o b, w) (ok a, w')
    → IsLocked d id a × (w' ≡ w)
unfolding joined
joined-IsLocked d id none b there e h = cc
joined-IsLocked d id (some x) b there e h =
    let (value, q) = ok-eq-ok h in
    (
      record {
        row = b;
        account = x;
        row_there = there;
        account_there = e;
        named =
            sym (ap (λ (l : LockedAccount). l.id) value)
            ∙ (text_eq_iff x.id id).0 (find-holds (has_account id) d.accounts x e);
        balanced = sym (ap (λ (l : LockedAccount). l.balance) value);
        overdraft = sym (ap (λ (l : LockedAccount). l.allow_overdraft) value);
        currency = sym (ap (λ (l : LockedAccount). l.currency) value);
        kinded = sym (ap (λ (l : LockedAccount). l.kind) value);
      },
      q,
    )

lock_row-IsLocked :
    {a : LockedAccount} {w' : World} (id : Text) (w : World)
    → lock_row id w ≡ (ok a, w')
    → IsLocked w.db id a × Same w w'
unfolding lock_row select_locked
lock_row-IsLocked id w h =
    let k = call-eq-ok _ _ (map_err-eq-ok _ _ _ h) in
    elim (Option-cases (find (has_balance id) w.db.balances)) [
      | inl absent ↦ (let k' = rw (absent, select_locked) at k in cc)
      | inr (b, there) ↦
          (let (locked, q) =
              joined-IsLocked w.db id (find (has_account id) w.db.accounts) b there refl
                (rw (there, select_locked) at k) in
            (locked, Same-trans (record { db = refl; deferred = refl }) (Same-of_eq q)))
    ]

abbrev pub AllLocked : Db → Locked → Type 0
AllLocked d out = All (λ (p : Text × LockedAccount). IsLocked d p.0 p.1) out

lock_sorted-AllLocked :
    {out' : Locked} {w' : World} (ids : List Text) (out : Locked) (w : World)
    → AllLocked w.db out
    → lock_sorted ids out w ≡ (ok out', w')
    → AllLocked w.db out' × Same w w'
unfolding lock_sorted
lock_sorted-AllLocked [] out w l h =
    let (e, s) = pure-eq-ok _ _ h in (subst (AllLocked w.db) e l, s)
lock_sorted-AllLocked {out'} {w'} (id ∷ ids) out w l h =
    elim (Bool-cases (is_some (get_locked id out))) [
      | inl seen ↦ lock_sorted-AllLocked ids out w l (rw seen at h)
      | inr new ↦ >>=-elim _ _ _ (rw new at h) λ a w1 h1 k1.
          (let (one, s) = lock_row-IsLocked id w h1 in
            let (many, t) =
              lock_sorted-AllLocked ids ((id, a) ∷ out) w1
                (subst (λ d. AllLocked d ((id, a) ∷ out)) (sym s.db) (one, l)) k1 in
            (subst (λ d. AllLocked d out') s.db many, Same-trans s t))
    ]

-- Every account that is returned is what the tables hold of its ID, and no table is written.
pub lock_balances-AllLocked :
    {out : Locked} {w' : World} (ids : List Text) (w : World)
    → lock_balances ids w ≡ (ok out, w')
    → AllLocked w.db out × Same w w'
unfolding lock_balances
lock_balances-AllLocked ids w h = lock_sorted-AllLocked _ [] w tt h

get_locked-IsLocked :
    (d : Db) (id : Text) (out : Locked) (a : LockedAccount)
    → AllLocked d out
    → get_locked id out ≡ some a
    → IsLocked d id a
unfolding get_locked
get_locked-IsLocked d id [] a l e = cc
get_locked-IsLocked d id ((j, x) ∷ out) a l e = elim (Bool-cases (text_eq id j)) [
  | inl same ↦
      (let v : x ≡ a = ground arith in
        subst (λ k. IsLocked d k a) (sym ((text_eq_iff id j).0 same)) (subst (IsLocked d j) v l.0))
  | inr other ↦ get_locked-IsLocked d id out a l.1 (rw other at e)
]

pub deref-IsLocked :
    {a : LockedAccount} {w' : World} (d : Db) (id : Text) (out : Locked) (w : World)
    → AllLocked d out
    → deref id out w ≡ (ok a, w')
    → IsLocked d id a × Same w w'
unfolding deref
deref-IsLocked {a} d id out w l h =
    let (e, s) = lift-eq-ok _ _ h in
    elim (Option-cases (get_locked id out)) [
      | inl absent ↦ (let k = rw absent at e in cc)
      | inr (x, there) ↦
          (let k = rw there at e in
            let v : x ≡ a = cc in
            (get_locked-IsLocked d id out a l (there ∙ ap (λ y. some y) v), s))
    ]

-- ===== src/Ledger/LockOrder.antt =====
-- The order of the locks of `lockBalances` in internal/ledger/repo.go.
use fault_tolerant_payment_l.Base.{
  ◌≡◌, refl, sym, ◌∙◌, ap, subst, ◌⊎◌, inl, inr, Text, text_lt, text_lt_irrefl, text_lt_trans,
  text_lt_total, text_eq_iff, true, false, is_some, List, [], ◌∷◌, ◌++◌, All, find, Bool-cases,
  Option-cases,
}
use fault_tolerant_payment_l.Store.World.{
  World, Fault, pass, refuse, lost_reply, Lock, balance, call, answer, next_call, rest_calls,
  map_err, pure,
}
use fault_tolerant_payment_l.Store.Outcome.{>>=-keeps}
use fault_tolerant_payment_l.Ledger.Locks.{
  Locked, insert_text, sort_texts, has_balance, select_locked, lock_row, get_locked, lock_sorted,
  lock_balances,
}

-- Each text of a list is no less than a bound.
abbrev NotBelow : Text → List Text → Type 0
NotBelow b xs = All (λ (x : Text). text_lt x b ≡ false) xs

abbrev Sorted : List Text → Type 0
Sorted [] = Unit
Sorted (x ∷ xs) = NotBelow x xs × Sorted xs

-- The newest of some locks stands first, and no lock is less than an older one.
abbrev pub Ascending : List Text → Type 0
Ascending [] = Unit
Ascending (x ∷ xs) = All (λ (y : Text). text_lt x y ≡ false) xs × Ascending xs

text_lt-NotBelow : (a b c : Text) → text_lt b a ≡ false → text_lt c b ≡ false → text_lt c a ≡ false
text_lt-NotBelow a b c h k = elim (Bool-cases (text_lt c a)) [
  | inr e ↦ e
  | inl e ↦ elim (text_lt_total a b) [
    | inl lt ↦ (let q = text_lt_trans c a b e lt in cc)
    | inr (inl same) ↦
        (let q = (text_eq_iff a b).0 same in subst (λ z. text_lt c z ≡ false) (sym q) k)
    | inr (inr gt) ↦ (let q = gt in cc)
  ]
]

NotBelow-trans : (a b : Text) (xs : List Text) → text_lt b a ≡ false → NotBelow b xs → NotBelow a xs
NotBelow-trans a b [] h k = tt
NotBelow-trans a b (x ∷ xs) h k = (text_lt-NotBelow a b x h k.0, NotBelow-trans a b xs h k.1)

NotBelow-insert_text :
    (b a : Text) (xs : List Text)
    → text_lt a b ≡ false
    → NotBelow b xs
    → NotBelow b (insert_text a xs)
unfolding insert_text
NotBelow-insert_text b a [] h k = (h, tt)
NotBelow-insert_text b a (x ∷ xs) h k = elim (Bool-cases (text_lt x a)) [
  | inl e ↦ rw e (k.0, NotBelow-insert_text b a xs h k.1)
  | inr e ↦ rw e (h, k)
]

text_lt_asym : (a b : Text) → text_lt a b ≡ true → text_lt b a ≡ false
text_lt_asym a b h = elim (Bool-cases (text_lt b a)) [
  | inl e ↦ (let q = text_lt_trans a b a h e in let r = text_lt_irrefl a in cc)
  | inr e ↦ e
]

insert_text-Sorted : (a : Text) (xs : List Text) → Sorted xs → Sorted (insert_text a xs)
unfolding insert_text
insert_text-Sorted a [] h = (tt, tt)
insert_text-Sorted a (x ∷ xs) h = elim (Bool-cases (text_lt x a)) [
  | inl e ↦ rw e (NotBelow-insert_text x a xs (text_lt_asym x a e) h.0, insert_text-Sorted a xs h.1)
  | inr e ↦ rw e ((e, NotBelow-trans a x xs e h.0), h)
]

sort_texts-Sorted : (xs : List Text) → Sorted (sort_texts xs)
unfolding sort_texts
sort_texts-Sorted [] = tt
sort_texts-Sorted (a ∷ xs) = insert_text-Sorted a (sort_texts xs) (sort_texts-Sorted xs)

abbrev pub row_locks : List Text → List Lock
row_locks [] = []
row_locks (x ∷ xs) = balance x ∷ row_locks xs

-- The locks taken since `base`, in ascending order.
pub record InOrder (base : List Lock) (w : World) : Type 0 where
  pub taken : List Text
  pub held : w.locks ≡ row_locks taken ++ base
  pub ascending : Ascending taken

select_locked-locks :
    (id : Text) (w : World)
    → ((select_locked id w).1.locks ≡ w.locks)
      ⊎ ((select_locked id w).1.locks ≡ balance id ∷ w.locks)
unfolding select_locked
select_locked-locks id w = elim (Option-cases (find (has_balance id) w.db.balances)) [
  | inl e ↦ inl (rw (e, select_locked) refl)
  | inr (b, e) ↦ inr (rw (e, select_locked) refl)
]

answer-locks :
    (c : Fault) (id : Text) (w : World)
    → ((answer c (select_locked id) w).1.locks ≡ w.locks)
      ⊎ ((answer c (select_locked id) w).1.locks ≡ balance id ∷ w.locks)
unfolding answer
answer-locks pass id w = select_locked-locks id w
answer-locks (refuse e) id w = inl refl
answer-locks lost_reply id w = select_locked-locks id w

lock_row-locks :
    (id : Text) (w : World)
    → ((lock_row id w).1.locks ≡ w.locks) ⊎ ((lock_row id w).1.locks ≡ balance id ∷ w.locks)
unfolding lock_row map_err call
lock_row-locks id w = answer-locks (next_call w.calls) id (record w { calls = rest_calls w.calls })

-- the bound that the held locks put on the texts to come
abbrev Fits : List Text → List Text → Type 0
Fits taken ids = All (λ (y : Text). NotBelow y ids) taken

Fits-tail : (taken : List Text) (x : Text) (xs : List Text) → Fits taken (x ∷ xs) → Fits taken xs
Fits-tail [] x xs h = tt
Fits-tail (y ∷ ys) x xs h = (h.0.1, Fits-tail ys x xs h.1)

Fits-head :
    (taken : List Text) (x : Text) (xs : List Text)
    → Fits taken (x ∷ xs)
    → All (λ (y : Text). text_lt x y ≡ false) taken
Fits-head [] x xs h = tt
Fits-head (y ∷ ys) x xs h = (h.0.0, Fits-head ys x xs h.1)

lock_sorted-InOrder :
    (ids : List Text) (out : Locked) (base : List Lock) (taken : List Text) (w : World)
    → Sorted ids
    → Fits taken ids
    → Ascending taken
    → w.locks ≡ row_locks taken ++ base
    → InOrder base (lock_sorted ids out w).1
unfolding lock_sorted pure
lock_sorted-InOrder [] out base taken w s f a e = record { taken = taken; held = e; ascending = a }
lock_sorted-InOrder (id ∷ ids) out base taken w s f a e =
    elim (Bool-cases (is_some (get_locked id out))) [
      | inl seen ↦
          rw seen (lock_sorted-InOrder ids out base taken w s.1 (Fits-tail taken id ids f) a e)
      | inr fresh ↦ rw fresh (
          >>=-keeps (InOrder base) (lock_row id) _ w
            (elim (lock_row-locks id w) [
              | inl same ↦ record { taken = taken; held = same ∙ e; ascending = a }
              | inr more ↦ record {
                taken = id ∷ taken;
                held = more ∙ ap (λ ls. balance id ∷ ls) e;
                ascending = (Fits-head taken id ids f, a);
              }
            ])
            λ acct v run p. elim (lock_row-locks id w) [
              | inl same ↦
                  lock_sorted-InOrder ids ((id, acct) ∷ out) base taken v s.1
                    (Fits-tail taken id ids f) a (sym (ap (λ q. q.1.locks) run) ∙ same ∙ e)
              | inr more ↦
                  lock_sorted-InOrder ids ((id, acct) ∷ out) base (id ∷ taken) v s.1
                    (s.0, Fits-tail taken id ids f) (Fits-head taken id ids f, a)
                    (sym (ap (λ q. q.1.locks) run) ∙ more ∙ ap (λ ls. balance id ∷ ls) e)
            ])
    ]

-- However it ends, `lockBalances` has taken its row locks in ascending order of the account IDs, on top of the locks
-- held before.
pub lock_balances-InOrder : (ids : List Text) (w : World) → InOrder w.locks (lock_balances ids w).1
unfolding lock_balances
lock_balances-InOrder ids w =
    lock_sorted-InOrder (sort_texts ids) [] w.locks [] w (sort_texts-Sorted ids) tt tt refl

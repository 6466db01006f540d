-- ===== src/Ledger/Reverse/Execution.antt =====
-- What `Reverse` has done when its execution succeeds.
use fault_tolerant_payment_l.Base.{
  ℕ, ◌≡◌, refl, ◌∙◌, ap, subst, Text, text_eq, false, Option, none, some, List, [], ◌∷◌,
}
use fault_tolerant_payment_l.Config.{Config}
use fault_tolerant_payment_l.Int64.{neg64}
use fault_tolerant_payment_l.Store.Schema.{Db, Entry, Transaction, ReversalRow}
use fault_tolerant_payment_l.Store.World.{World, ok, raise}
use fault_tolerant_payment_l.Store.Inversion.{
  Same, Same-trans, Same-of_eq, >>=-elim, >>-elim, raise_if-eq-ok, gets-eq-ok, failpoint-Same,
  new_uuid-Same, pure-eq-ok, map_err-eq-ok, call-eq-ok, ok-eq-ok,
}
use fault_tolerant_payment_l.Ledger.Model.{ReverseCommand, tx_kind_reversal, event_payment_reversed}
use fault_tolerant_payment_l.Ledger.Locks.{list_accounts_for_transaction}
use fault_tolerant_payment_l.Ledger.Locking.{lock_balances-AllLocked}
use fault_tolerant_payment_l.Ledger.Repo.Reversal.{insert_reversal_record, insert_reversal_row}
use fault_tolerant_payment_l.Ledger.Effect.{run_checks-eq-ok}
use fault_tolerant_payment_l.Ledger.Loading.{Loaded, load_transaction-Loaded}
use fault_tolerant_payment_l.Ledger.Payment.{Response}
use fault_tolerant_payment_l.Ledger.Posting.{Posted, post-Posted}
use fault_tolerant_payment_l.Ledger.Settlement.{
  Announced, write_outbox_event-Announced, Answered, answer_with-Answered,
}
use fault_tolerant_payment_l.Ledger.Reverse.{
  mirror, reversal_transaction, reversal_description, reversal_data, check_reverse, unless_reversed,
  execute_reverse,
}

-- Entry by entry, the accounts of the original with the amounts negated, under another transaction.
abbrev pub Mirrored : ℕ → List Entry → List Entry → Type 0
Mirrored id [] [] = Unit
Mirrored id [] (m ∷ ms) = ⊥
Mirrored id (e ∷ es) [] = ⊥
Mirrored id (e ∷ es) (m ∷ ms) =
    (m.transaction_id ≡ id)
    × (m.account_id ≡ e.account_id)
    × (m.amount ≡ neg64 e.amount)
    × Mirrored id es ms

Mirrored-cons :
    (id : ℕ) (e m : Entry) (es ms os : List Entry)
    → m.transaction_id ≡ id
    → m.account_id ≡ e.account_id
    → m.amount ≡ neg64 e.amount
    → Mirrored id es os
    → m ∷ os ≡ ms
    → Mirrored id (e ∷ es) ms
Mirrored-cons id e m es ms os a b c rest q = subst (Mirrored id (e ∷ es)) q (a, b, c, rest)

mirror-Mirrored :
    {ms : List Entry} {w' : World} (id : ℕ) (es : List Entry) (w : World)
    → mirror id es w ≡ (ok ms, w')
    → Mirrored id es ms × Same w w'
unfolding mirror
mirror-Mirrored id [] w h = let (e, s) = pure-eq-ok _ _ h in (subst (Mirrored id []) e tt, s)
mirror-Mirrored {ms} id (e ∷ es) w h = >>=-elim _ _ _ h λ i w1 h1 k1.
    >>=-elim _ _ _ k1 λ os w2 h2 h3.
      (let (rest, s2) = mirror-Mirrored id es w1 h2 in
        let (q, s3) = pure-eq-ok _ _ h3 in
        (
          Mirrored-cons id e _ es ms os refl refl refl rest q,
          Same-trans (new_uuid-Same w h1) (Same-trans s2 s3),
        ))

unless_reversed-none :
    {u : Unit {0}} {w' : World} (id : ℕ) (o : Option ℕ) (w : World)
    → unless_reversed id o w ≡ (ok u, w')
    → (o ≡ none) × Same w w'
unfolding unless_reversed raise
unless_reversed-none id none w h = (refl, (pure-eq-ok _ _ h).1)
unless_reversed-none id (some by) w h = cc

-- The transaction is no reversal and none reverses it.
pub record IsOpen (t : Transaction) : Type 0 where
  pub payment : text_eq t.kind tx_kind_reversal ≡ false
  pub unreversed : t.reversed_by_transaction_id ≡ none

check_reverse-IsOpen :
    {u : Unit {0}} {w' : World} (t : Transaction) (w : World)
    → check_reverse t w ≡ (ok u, w')
    → IsOpen t × Same w w'
unfolding check_reverse
check_reverse-IsOpen t w h = >>-elim _ _ _ h λ _ w1 h1 h2.
    (let (a, s) = raise_if-eq-ok _ _ _ h1 in
      let (b, s') = unless_reversed-none t.id _ w1 h2 in
      (record { payment = a; unreversed = b }, Same-trans s s'))

list_accounts-Same :
    {ids : List Text} {w' : World} (id : ℕ) (w : World)
    → list_accounts_for_transaction id w ≡ (ok ids, w')
    → Same w w'
unfolding list_accounts_for_transaction
list_accounts-Same id w h =
    let (_, q) = ok-eq-ok (call-eq-ok _ _ (map_err-eq-ok _ _ _ h)) in
    Same-trans (record { db = refl; deferred = refl }) (Same-of_eq q)

-- The reversal was recorded, and nothing else was written.
pub record Recorded (r : ReversalRow) (w w' : World) : Type 0 where
  pub stored : w'.db ≡ record w.db { reversals = r ∷ w.db.reversals }
  pub deferred : w'.deferred ≡ w.deferred

insert_reversal_record-Recorded :
    {u : Unit {0}} {w' : World} (r : ReversalRow) (w : World)
    → insert_reversal_record r w ≡ (ok u, w')
    → Recorded r w w'
unfolding insert_reversal_record insert_reversal_row
insert_reversal_record-Recorded r w h =
    let (checks, q) = run_checks-eq-ok _ _ _ (call-eq-ok _ _ (map_err-eq-ok _ _ _ h)) in
    record { stored = ap (λ (v : World). v.db) q; deferred = ap (λ (v : World). v.deferred) q }

-- The transaction was loaded and checked, the mirrored entries were posted, the reversal was recorded, the event was
-- written and the response was stored.
pub record Undone (c : Config) (show : ℕ → Text) (id : ℕ) (cmd : ReverseCommand) (r : Response)
    (w w' : World) : Type 0 where
  pub parsed : Option ℕ
  pub original : Transaction
  pub at : ℕ
  pub entries : List Entry
  pub record_id : ℕ
  pub looked : World
  pub loading : World
  pub ready : World
  pub written : World
  pub recorded_world : World
  pub sent : World
  pub before_loading : Same w loading
  pub loaded : Loaded parsed original loading looked
  pub open_payment : IsOpen original
  pub mirrored : Mirrored id original.entries entries
  pub untouched : Same w ready
  pub posted :
      Posted
        (reversal_transaction id at
          (reversal_description show original.id cmd.reason)
          original
          entries)
        ready
        written
  pub recorded :
      Recorded
        (record {
          id = record_id;
          original_transaction_id = original.id;
          reversal_transaction_id = id;
          reason = cmd.reason;
        })
        written
        recorded_world
  pub announced :
      Announced c
        (reversal_transaction id at
          (reversal_description show original.id cmd.reason)
          original
          entries)
        event_payment_reversed
        (reversal_data
          (reversal_transaction id at
            (reversal_description show original.id cmd.reason)
            original
            entries)
          original
          cmd.reason)
        recorded_world
        sent
  pub answered : Answered id cmd.idempotency_scope cmd.idempotency_key r sent w'

Recorded-trans : {w v w' : World} (r : ReversalRow) → Same w v → Recorded r v w' → Recorded r w w'
Recorded-trans r s k = record {
  stored = k.stored ∙ ap (λ (d : Db). record d { reversals = r ∷ d.reversals }) s.db;
  deferred = k.deferred ∙ s.deferred;
}

pub execute_reverse-Undone :
    {r : Response} {w' : World} (c : Config) (show : ℕ → Text) (id : ℕ) (cmd : ReverseCommand)
    (w : World)
    → execute_reverse c show id cmd w ≡ (ok r, w')
    → Undone c show id cmd r w w'
unfolding execute_reverse
execute_reverse-Undone {r} {w'} c show id cmd w h = >>=-elim _ _ _ h λ parsed w1 h1 k1.
    >>=-elim _ _ _ k1 λ original w2 h2 k2. >>-elim _ _ _ k2 λ _ w3 h3 k3.
      >>=-elim _ _ _ k3 λ ids w4 h4 k4. >>-elim _ _ _ k4 λ _ w5 h5 k5.
        >>-elim _ _ _ k5 λ _ w6 h6 k6. >>=-elim _ _ _ k6 λ at w7 h7 k7.
          >>=-elim _ _ _ k7 λ es w8 h8 k8. >>-elim _ _ _ k8 λ _ w9 h9 k9.
            >>=-elim _ _ _ k9 λ record_id w10 h10 k10. >>-elim _ _ _ k10 λ _ w11 h11 k11.
              >>-elim _ _ _ k11 λ _ w12 h12 h13.
                (let s1 = (gets-eq-ok _ _ h1).1 in
                  let l = load_transaction-Loaded parsed w1 h2 in
                  let (o, s3) = check_reverse-IsOpen original w2 h3 in
                  let (m, s8) = mirror-Mirrored id original.entries w7 h8 in
                  record {
                    parsed = parsed;
                    original = original;
                    at = at;
                    entries = es;
                    record_id = record_id;
                    looked = w2;
                    loading = w1;
                    ready = w8;
                    written = w9;
                    recorded_world = w11;
                    sent = w12;
                    before_loading = s1;
                    loaded = l;
                    open_payment = o;
                    mirrored = m;
                    untouched = Same-trans s1 (
                        Same-trans l.same (
                          Same-trans s3 (
                            Same-trans (list_accounts-Same original.id w3 h4) (
                              Same-trans (lock_balances-AllLocked ids w4 h5).1 (
                                Same-trans (failpoint-Same _ w5 h6)
                                  (Same-trans (gets-eq-ok _ _ h7).1 s8))))));
                    posted = post-Posted _ w8 h9;
                    recorded =
                        Recorded-trans _ (new_uuid-Same w9 h10)
                          (insert_reversal_record-Recorded _ w10 h11);
                    announced = write_outbox_event-Announced c _ _ _ w11 h12;
                    answered = answer_with-Answered id _ _ w12 h13;
                  })

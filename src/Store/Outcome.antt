-- ===== src/Store/Outcome.antt =====
-- What holds of the tables after an action however it ends.
use fault_tolerant_payment_l.Base.{ℕ, ◌≡◌, refl, sym, subst, inl, inr, Text, [], Bool, true}
use fault_tolerant_payment_l.Apperr.{GoError}
use fault_tolerant_payment_l.Store.Schema.{Db, all_balanced}
use fault_tolerant_payment_l.Store.World.{
  World, Result, ok, err, panic, Exec, ◌>>=◌, ◌>>◌, continue, new_uuid, eval_failpoint, failpoint,
  map_err, pure, raise_if,
}
use fault_tolerant_payment_l.Store.Tx.{in_tx}
use fault_tolerant_payment_l.Store.Tx.Atomic.{Committed, Atomic, in_tx-Atomic}

module _ {ℓ} {A B : Type 0} (P : World → Type ℓ) where
  continue-keeps :
      (m : Exec A) (f : A → Exec B) (w : World) (r : Result A) (w1 : World)
      → m w ≡ (r, w1)
      → P w1
      → ((a : A) (v : World) → m w ≡ (ok a, v) → P v → P (f a v).1)
      → P (continue r f w1).1
  unfolding continue
  continue-keeps m f w (ok a) w1 e p k = k a w1 e p
  continue-keeps m f w (err x) w1 e p k = p
  continue-keeps m f w (panic x) w1 e p k = p

  -- What holds after the first action, and after the second whenever the first succeeds, holds after both.
  pub >>=-keeps :
      (m : Exec A) (f : A → Exec B) (w : World)
      → P (m w).1
      → ((a : A) (v : World) → m w ≡ (ok a, v) → P v → P (f a v).1)
      → P ((m >>= f) w).1
  unfolding ◌>>=◌
  >>=-keeps m f w p k = let (r, w1) = m w in continue-keeps m f w r w1 refl p k

  pub >>-keeps :
      (m : Exec A) (n : Exec B) (w : World)
      → P (m w).1
      → ((a : A) (v : World) → m w ≡ (ok a, v) → P v → P (n v).1)
      → P ((m >> n) w).1
  unfolding ◌>>◌
  >>-keeps m n w p k = >>=-keeps m (λ _. n) w p k

module _ {ℓ} {A B : Type 0} (P : Db → Type ℓ) where
  pub >>=-db :
      (m : Exec A) (f : A → Exec B) (w : World)
      → P (m w).1.db
      → ((a : A) (v : World) → m w ≡ (ok a, v) → P v.db → P (f a v).1.db)
      → P ((m >>= f) w).1.db
  >>=-db m f w p k = >>=-keeps (λ v. P v.db) m f w p k

  pub >>-db :
      (m : Exec A) (n : Exec B) (w : World)
      → P (m w).1.db
      → ((a : A) (v : World) → m w ≡ (ok a, v) → P v.db → P (n v).1.db)
      → P ((m >> n) w).1.db
  unfolding ◌>>◌
  >>-db m n w p k = >>=-db m (λ _. n) w p k

-- One committed run of the function of a transaction, seen from its first tables.
module _ {ℓ} {A : Type 0} (P : Db → Type ℓ) (fn : Exec A) (d : Db) where
  Committed-db :
      (a : A) (after : Db)
      → Committed fn a d after
      → ((a : A) (v v' : World)
          → v.db ≡ d
          → v.deferred ≡ []
          → fn v ≡ (ok a, v')
          → all_balanced v'.deferred v'.db.entries ≡ true
          → P v'.db)
      → P after
  Committed-db a after h k =
      subst P (sym h.stored) (k a h.start h.final h.from_before h.disarmed h.ran h.balanced)

  Atomic-db :
      (r : Result A) (w : World)
      → Atomic fn d (r, w)
      → P d
      → ((a : A) (v v' : World)
          → v.db ≡ d
          → v.deferred ≡ []
          → fn v ≡ (ok a, v')
          → all_balanced v'.deferred v'.db.entries ≡ true
          → P v'.db)
      → P w.db
  Atomic-db (ok a) w h p k = Committed-db a w.db h k
  Atomic-db (err e) w (inl same) p k = subst P (sym same) p
  Atomic-db (err e) w (inr (q, (a, h))) p k = Committed-db a w.db h k
  Atomic-db (panic m) w h p k = subst P (sym h) p

-- What holds of the tables, and of those that every committed run leaves, holds after `InTx`.
pub in_tx-db {ℓ} :
    {A : Type 0} (P : Db → Type ℓ) (n : ℕ) (fn : Exec A) (w : World)
    → P w.db
    → ((a : A) (v v' : World)
        → v.db ≡ w.db
        → v.deferred ≡ []
        → fn v ≡ (ok a, v')
        → all_balanced v'.deferred v'.db.entries ≡ true
        → P v'.db)
    → P (in_tx n fn w).1.db
in_tx-db P n fn w p k =
    Atomic-db P fn w.db (in_tx n fn w).0 (in_tx n fn w).1 (in_tx-Atomic fn n w) p k

pub failpoint-db : (n : Text) (w : World) → (failpoint n w).1.db ≡ w.db
unfolding failpoint eval_failpoint map_err
failpoint-db n w = refl

pub eval_failpoint-db : (n : Text) (w : World) → (eval_failpoint n w).1.db ≡ w.db
unfolding eval_failpoint
eval_failpoint-db n w = refl

pub new_uuid-db : (w : World) → (new_uuid w).1.db ≡ w.db
unfolding new_uuid
new_uuid-db w = refl

pub map_err-db :
    {A : Type 0} (g : GoError → GoError) (m : Exec A) (w : World)
    → (map_err g m w).1.db ≡ (m w).1.db
unfolding map_err
map_err-db g m w = refl

pub pure-db : {A : Type 0} (a : A) (w : World) → (pure a w).1.db ≡ w.db
unfolding pure
pure-db a w = refl

pub raise_if-db : (b : Bool) (e : GoError) (w : World) → (raise_if b e w).1.db ≡ w.db
unfolding raise_if
raise_if-db b e w = refl

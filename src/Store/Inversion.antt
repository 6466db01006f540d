-- ===== src/Store/Inversion.antt =====
-- What a successful action says of its parts. The action and its first world are explicit, to be
-- written `_`.
use fault_tolerant_payment_l.Base.{
  ℕ, Text, Bool, [], true, false, ◌≡◌, refl, sym, ◌∙◌, ap, inr, inl, ◌⊎◌,
}
use fault_tolerant_payment_l.Apperr.{GoError}
use fault_tolerant_payment_l.Store.World.{
  World, Result, ok, err, panic, Exec, Fault, pass, refuse, lost_reply, ◌>>=◌, ◌>>◌, continue, pure,
  raise_if, gets, lift, map_err, map_err_result, call, answer, next_call, rest_calls, new_uuid,
  eval_failpoint, failpoint, attempt, attempt_result,
}

module _ {A B : Type 0} {b : B} {w' : World} where
  continue-eq-ok :
      (m : Exec A) (f : A → Exec B) (w : World) (r : Result A) (w1 : World)
      → m w ≡ (r, w1)
      → continue r f w1 ≡ (ok b, w')
      → (a : A) × (w2 : World) × (m w ≡ (ok a, w2)) × (f a w2 ≡ (ok b, w'))
  unfolding continue
  continue-eq-ok m f w (ok a) w1 e k = (a, w1, e, k)
  continue-eq-ok m f w (err x) w1 e k = cc
  continue-eq-ok m f w (panic x) w1 e k = cc

  -- The parts of a successful chain, handed on as variables.
  pub >>=-elim {ℓ} :
      {P : Type ℓ} (m : Exec A) (f : A → Exec B) (w : World)
      → (m >>= f) w ≡ (ok b, w')
      → ((a : A) (w1 : World) → m w ≡ (ok a, w1) → f a w1 ≡ (ok b, w') → P)
      → P
  unfolding ◌>>=◌
  >>=-elim m f w h k =
      let (r, w1) = m w in let (a, w2, e, rest) = continue-eq-ok m f w r w1 refl h in k a w2 e rest

  pub >>-elim {ℓ} :
      {P : Type ℓ} (m : Exec A) (n : Exec B) (w : World)
      → (m >> n) w ≡ (ok b, w')
      → ((a : A) (w1 : World) → m w ≡ (ok a, w1) → n w1 ≡ (ok b, w') → P)
      → P
  unfolding ◌>>◌
  >>-elim m n w h k = >>=-elim m (λ _. n) w h k

module _ {A : Type 0} {a : A} where
  map_err_result-eq-ok :
      (g : GoError → GoError) (r : Result A) → map_err_result g r ≡ ok a → r ≡ ok a
  unfolding map_err_result
  map_err_result-eq-ok g (ok x) h = h
  map_err_result-eq-ok g (err x) h = cc
  map_err_result-eq-ok g (panic x) h = cc

module _ {A : Type 0} {a : A} {w' : World} where
  pub map_err-eq-ok :
      (g : GoError → GoError) (m : Exec A) (w : World)
      → map_err g m w ≡ (ok a, w')
      → m w ≡ (ok a, w')
  unfolding map_err
  map_err-eq-ok g m w h =
      let (r, w1) = m w in
      let e : r ≡ ok a = map_err_result-eq-ok g r (ap (λ p. p.0) h) in
      let k : w1 ≡ w' = ap (λ p. p.1) h in cc

  answer-eq-ok : (c : Fault) (f : Exec A) (v : World) → answer c f v ≡ (ok a, w') → f v ≡ (ok a, w')
  unfolding answer
  answer-eq-ok pass f v h = h
  answer-eq-ok (refuse e) f v h = cc
  answer-eq-ok lost_reply f v h = cc

  pub call-eq-ok :
      (f : Exec A) (w : World)
      → call f w ≡ (ok a, w')
      → f (record w { calls = rest_calls w.calls }) ≡ (ok a, w')
  unfolding call
  call-eq-ok f w h = answer-eq-ok (next_call w.calls) f (record w { calls = rest_calls w.calls }) h

pub ok-eq-ok :
    {A : Type 0} {a x : A} {w w' : World}
    → ◌≡◌ {A = Result A × World} (ok x, w) (ok a, w')
    → (x ≡ a) × (w' ≡ w)
ok-eq-ok h = (cc, cc)

-- The tables and the armed triggers are as they were.
pub record Same (w w' : World) : Type 0 where
  pub db : w'.db ≡ w.db
  pub deferred : w'.deferred ≡ w.deferred

pub Same-refl : (w : World) → Same w w
Same-refl w = record { db = refl; deferred = refl }

pub Same-trans : {u v w : World} → Same u v → Same v w → Same u w
Same-trans h k = record { db = k.db ∙ h.db; deferred = k.deferred ∙ h.deferred }

pub Same-of_eq : {w w' : World} → w' ≡ w → Same w w'
Same-of_eq e = record { db = ap (λ v. v.db) e; deferred = ap (λ v. v.deferred) e }

module _ {A : Type 0} {a : A} {w' : World} where
  pub pure-eq-ok : (x : A) (w : World) → pure x w ≡ (ok a, w') → (x ≡ a) × Same w w'
  unfolding pure
  pure-eq-ok x w h = (cc, Same-of_eq cc)

  pub gets-eq-ok : (f : World → A) (w : World) → gets f w ≡ (ok a, w') → (f w ≡ a) × Same w w'
  unfolding gets
  gets-eq-ok f w h = (cc, Same-of_eq cc)

  pub lift-eq-ok : (r : Result A) (w : World) → lift r w ≡ (ok a, w') → (r ≡ ok a) × Same w w'
  unfolding lift
  lift-eq-ok r w h = (cc, Same-of_eq cc)

module _ {u : Unit {0}} {w' : World} where
  pub raise_if-eq-ok :
      (b : Bool) (e : GoError) (w : World) → raise_if b e w ≡ (ok u, w') → (b ≡ false) × Same w w'
  unfolding raise_if
  raise_if-eq-ok true e w h = cc
  raise_if-eq-ok false e w h = (refl, Same-of_eq cc)

  pub failpoint-Same : (n : Text) (w : World) → failpoint n w ≡ (ok u, w') → Same w w'
  unfolding failpoint eval_failpoint
  failpoint-Same n w h =
      let k = map_err-eq-ok _ _ w h in
      record { db = sym (ap (λ p. p.1.db) k); deferred = sym (ap (λ p. p.1.deferred) k) }

pub new_uuid-Same : {i : ℕ} {w' : World} (w : World) → new_uuid w ≡ (ok i, w') → Same w w'
unfolding new_uuid
new_uuid-Same w h = record {
  db = sym (ap (λ p. p.1.db) h);
  deferred = sym (ap (λ p. p.1.deferred) h);
}

attempt_result-eq-inr :
    {A : Type 0} {a : A} {v : World} (r : Result A) (w : World)
    → attempt_result r w ≡ (ok (inr a), v)
    → ◌≡◌ {A = Result A × World} (r, w) (ok a, v)
unfolding attempt_result
attempt_result-eq-inr (ok x) w h = cc
attempt_result-eq-inr (err x) w h = cc
attempt_result-eq-inr (panic x) w h = cc

pub attempt-eq-inr :
    {A : Type 0} {a : A} {v : World} (m : Exec A) (w : World)
    → attempt m w ≡ (ok (inr a), v)
    → m w ≡ (ok a, v)
unfolding attempt
attempt-eq-inr m w h = attempt_result-eq-inr (m w).0 (m w).1 h

-- A chain whose first action is known to succeed.
module _ {A B : Type 0} {a : A} {v : World} (m : Exec A) where
  pub >>=-run : (f : A → Exec B) (w : World) → m w ≡ (ok a, v) → (m >>= f) w ≡ f a v
  unfolding ◌>>=◌ continue
  >>=-run f w e = rw e refl

  pub >>-run : (n : Exec B) (w : World) → m w ≡ (ok a, v) → (m >> n) w ≡ n v
  unfolding ◌>>◌
  >>-run n w e = >>=-run (λ _. n) w e

-- A call that works, as it does past the end of the outcomes.
pub call-run : {A : Type 0} (f : Exec A) (w : World) → w.calls ≡ [] → call f w ≡ f w
unfolding call answer next_call rest_calls
call-run f w e =
    let same : rest_calls w.calls ≡ w.calls = rw e refl in
    ap (λ c. answer c f (record w { calls = rest_calls w.calls })) (ap next_call e)
    ∙ ap (λ cs. f (record w { calls = cs })) same

pub map_err-run :
    {A : Type 0} {a : A} {v : World} (g : GoError → GoError) (m : Exec A) (w : World)
    → m w ≡ (ok a, v)
    → map_err g m w ≡ (ok a, v)
unfolding map_err map_err_result
map_err-run g m w e = rw e refl

-- A chain whose first action is known to fail.
module _ {A B : Type 0} {e : GoError} {v : World} (m : Exec A) where
  pub >>=-fail : (f : A → Exec B) (w : World) → m w ≡ (err e, v) → (m >>= f) w ≡ (err e, v)
  unfolding ◌>>=◌ continue
  >>=-fail f w h = rw h refl

  pub >>-fail : (n : Exec B) (w : World) → m w ≡ (err e, v) → (m >> n) w ≡ (err e, v)
  unfolding ◌>>◌
  >>-fail n w h = >>=-fail (λ _. n) w h

-- How the next call ends.
pub next_call-cases :
    (w : World)
    → (next_call w.calls ≡ pass)
      ⊎ ((e : GoError) × (next_call w.calls ≡ refuse e))
      ⊎ (next_call w.calls ≡ lost_reply)
next_call-cases w = Fault-cases (next_call w.calls)
  where
    Fault-cases : (c : Fault) → (c ≡ pass) ⊎ ((e : GoError) × (c ≡ refuse e)) ⊎ (c ≡ lost_reply)
    Fault-cases pass = inl refl
    Fault-cases (refuse e) = inr (inl (e, refl))
    Fault-cases lost_reply = inr (inr refl)

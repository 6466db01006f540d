-- ===== src/Store/Keeps.antt =====
-- What an action keeps however it ends: a predicate on the world that holds before it holds after it.
use fault_tolerant_payment_l.Base.{◌≡◌, refl, sym, subst, List}
use fault_tolerant_payment_l.Apperr.{GoError}
use fault_tolerant_payment_l.Store.World.{
  World, Result, ok, err, panic, Exec, Fault, pass, refuse, lost_reply, ◌>>=◌, ◌>>◌, pure, call,
  answer, next_call, rest_calls, map_err, attempt, attempt_result,
}
use fault_tolerant_payment_l.Store.Outcome.{>>=-keeps}

attempt_result-world : {A : Type 0} (r : Result A) (w : World) → (attempt_result r w).1 ≡ w
unfolding attempt_result
attempt_result-world (ok a) w = refl
attempt_result-world (err e) w = refl
attempt_result-world (panic m) w = refl

pub attempt-world : {A : Type 0} (m : Exec A) (w : World) → (attempt m w).1 ≡ (m w).1
unfolding attempt
attempt-world m w = attempt_result-world (m w).0 (m w).1

abbrev pub Keeps {ℓ} : (World → Type ℓ) → {A : Type 0} → Exec A → Type ℓ
Keeps P m = (w : World) → P w → P (m w).1

module _ {ℓ} (P : World → Type ℓ) {A : Type 0} where
  pub pure-Keeps : (a : A) → Keeps P (pure a)
  unfolding pure
  pure-Keeps a w p = p

  pub map_err-Keeps : (e : GoError → GoError) (m : Exec A) → Keeps P m → Keeps P (map_err e m)
  unfolding map_err
  map_err-Keeps e m k w p = k w p

  pub attempt-Keeps : (m : Exec A) → Keeps P m → Keeps P (attempt m)
  attempt-Keeps m k w p = subst P (sym (attempt-world m w)) (k w p)

  answer-kept : (c : Fault) (f : Exec A) (w : World) → P w → P (f w).1 → P (answer c f w).1
  unfolding answer
  answer-kept pass f w p h = h
  answer-kept (refuse e) f w p h = p
  answer-kept lost_reply f w p h = h

  -- a predicate that does not read the outcomes of the calls to come
  pub call-kept :
      ((w : World) (cs : List Fault) → P w → P (record w { calls = cs }))
      → (f : Exec A) (w : World) → P w
      → P (f (record w { calls = rest_calls w.calls })).1
      → P (call f w).1
  unfolding call
  call-kept frame f w p h =
      answer-kept (next_call w.calls) f (record w { calls = rest_calls w.calls })
        (frame w (rest_calls w.calls) p) h

  pub call-Keeps :
      ((w : World) (cs : List Fault) → P w → P (record w { calls = cs }))
      → (f : Exec A) → Keeps P f
      → Keeps P (call f)
  call-Keeps frame f k w p = call-kept frame f w p (k _ (frame w _ p))

module _ {ℓ} (P : World → Type ℓ) {A B : Type 0} (m : Exec A) where
  pub then-Keeps : (f : A → Exec B) → Keeps P m → ((a : A) → Keeps P (f a)) → Keeps P (m >>= f)
  then-Keeps f h k w p = >>=-keeps P m f w (h w p) λ a v e q. k a v q

  pub and-Keeps : (n : Exec B) → Keeps P m → Keeps P n → Keeps P (m >> n)
  unfolding ◌>>◌
  and-Keeps n h k w p = >>=-keeps P m (λ _. n) w (h w p) λ a v e q. k v q

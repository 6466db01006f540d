-- ===== src/Webhook/Sound.antt =====
-- The rows of `webhook_deliveries` and what the statements of internal/webhook/store.go leave of them.
use fault_tolerant_payment_l.Base.{
  ℕ, ◌==◌, ==_iff, ◌≡◌, refl, sym, ◌∙◌, subst, inl, inr, arith, Text, Bool, true, false, not, ◌||◌,
  ◌&&◌, ltb, ◌≤◌, List, [], ◌∷◌, map, All, exists, text_eq, exists-map, none_exists, All_weaken,
  All_both, All-select, All-take, Bool-cases,
}
use fault_tolerant_payment_l.Store.Schema.{Delivery, Posted}
use fault_tolerant_payment_l.Webhook.Store.{
  NewDelivery, new_row, is_pair, has_delivery_id, is_waiting, is_delivered, is_before, place,
  soonest_first, is_due, due,
}
use fault_tolerant_payment_l.Webhook.Worker.{is_success}

-- what no statement changes of a row
pub record DeliveryKey : Type 0 where
  pub id : ℕ
  pub event_id : ℕ
  pub endpoint : Text

abbrev pub key_of : Delivery → DeliveryKey
key_of d = record { id = d.id; event_id = d.event_id; endpoint = d.endpoint }

-- No two rows share an id, and no two the event and the endpoint.
abbrev pub Distinct : List DeliveryKey → Type 0
Distinct [] = Unit
Distinct (k ∷ ks) =
    (exists (λ (x : DeliveryKey). x.id == k.id) ks ≡ false)
    × (exists (λ (x : DeliveryKey). x.event_id == k.event_id && text_eq x.endpoint k.endpoint) ks
        ≡ false)
    × Distinct ks

-- whether an endpoint answered an event with a status 2xx
abbrev pub was_answered : ℕ → Text → List Posted → Bool
was_answered event endpoint log =
    exists
      (λ (p : Posted). p.event_id == event && text_eq p.endpoint endpoint && is_success p.answered)
      log

-- A delivered row was answered.
abbrev pub Answered : List Posted → Delivery → Type 0
Answered log d = (not (is_delivered d.status) || was_answered d.event_id d.endpoint log) ≡ true

-- A row that is still to be tried was tried less often than the limit.
abbrev pub Bounded : ℕ → Delivery → Type 0
Bounded limit d = (not (is_waiting d.status) || ltb d.attempts limit) ≡ true

pub record IsSound (limit : ℕ) (log : List Posted) (rows : List Delivery) : Type 0 where
  pub distinct : Distinct (map key_of rows)
  pub answered : All (Answered log) rows
  pub bounded : All (Bounded limit) rows

-- A new row, whose id and whose event and endpoint are new.
pub IsSound-cons :
    (limit : ℕ) (log : List Posted) (rows : List Delivery) (at : ℕ) (n : NewDelivery)
    → 1 ≤ limit
    → exists (has_delivery_id n.id) rows ≡ false
    → exists (is_pair n.event_id n.endpoint) rows ≡ false
    → IsSound limit log rows
    → IsSound limit log (new_row at n ∷ rows)
unfolding new_row
IsSound-cons limit log rows at n positive id_free pair_free s = record {
  distinct = (
    exists-map (λ k. k.id == n.id) key_of rows ∙ id_free,
    exists-map (λ k. k.event_id == n.event_id && text_eq k.endpoint n.endpoint) key_of rows
        ∙ pair_free,
    s.distinct,
  );
  answered = (refl, s.answered);
  bounded = (ground arith, s.bounded);
}

-- The rows that have the id of one row have its key.
abbrev pub Known : Delivery → DeliveryKey → Type 0
Known d k = k.id ≡ d.id → k ≡ key_of d

other_id :
    (d : Delivery) (ks : List DeliveryKey)
    → exists (λ (k : DeliveryKey). k.id == d.id) ks ≡ false
    → All (Known d) ks
other_id d ks h =
    All_weaken _ _ ks
      (λ k e same.
        absurd (subst (λ b. b ≡ false → ⊥) (sym ((==_iff k.id d.id).1 same)) (λ x. cc) e))
      (none_exists _ ks h)

Known-cons :
    (x : Delivery) (ds : List Delivery)
    → exists (λ (k : DeliveryKey). k.id == x.id) (map key_of ds) ≡ false
    → All (λ (d : Delivery). Known d (key_of x)) ds
Known-cons x ds h =
    All_weaken _ _ ds
      (λ d e same.
        absurd (subst (λ b. b ≡ false → ⊥) (sym ((==_iff d.id x.id).1 (sym same))) (λ z. cc) e))
      (none_exists _ ds (sym (exists-map (λ (k : DeliveryKey). k.id == x.id) key_of ds) ∙ h))

pub Distinct-Known :
    (ds : List Delivery)
    → Distinct (map key_of ds)
    → All (λ (d : Delivery). All (Known d) (map key_of ds)) ds
Distinct-Known [] h = tt
Distinct-Known (d ∷ ds) h = (
  (λ same. refl, other_id d (map key_of ds) h.0),
  All_both _ _ ds (Known-cons d ds h.0) (Distinct-Known ds h.2),
)

module _ {ℓ} (P : Delivery → Type ℓ) where
  All-place : (d : Delivery) (ds : List Delivery) → P d → All P ds → All P (place d ds)
  unfolding place
  All-place d [] p h = (p, tt)
  All-place d (x ∷ xs) p h =
      let rest = All-place d xs p h.1 in
      elim (Bool-cases (is_before d x)) [ inl e ↦ rw e (p, h) | inr e ↦ rw e (h.0, rest) ]

  All-soonest_first : (ds : List Delivery) → All P ds → All P (soonest_first ds)
  unfolding soonest_first
  All-soonest_first [] h = tt
  All-soonest_first (d ∷ ds) h = All-place d (soonest_first ds) h.0 (All-soonest_first ds h.1)

  pub All-due : (now limit : ℕ) (ds : List Delivery) → All P ds → All P (due now limit ds)
  unfolding due
  All-due now limit ds h = All-take P limit _ (All-soonest_first _ (All-select P (is_due now) ds h))

-- ===== src/Idempotency/Laws.antt =====
-- What `Claim` has done when it succeeds, and the records that `Complete` leaves alone.
use fault_tolerant_payment_l.Base.{
  ◌≡◌, refl, sym, ◌∙◌, ap, subst, ◌⊎◌, Bool-cases, Text, text_eq, text_eq_iff, Bool, true, false,
  Option, none, some, List, [], ◌∷◌, find, Option-cases, inl, inr, ℕ,
}
use fault_tolerant_payment_l.Store.Schema.{Db, IdemRecord, Body}
use fault_tolerant_payment_l.Store.World.{World, ok, rest_calls, call}
use fault_tolerant_payment_l.Store.Inversion.{
  Same, Same-trans, Same-of_eq, >>=-elim, map_err-eq-ok, call-eq-ok, ok-eq-ok, pure-eq-ok,
}
use fault_tolerant_payment_l.Idempotency.{
  lock_key, is_for, insert_claim, fetch, claim, complete_rows, complete_row, fresh_claim,
}

-- What a successful `Claim` returns: the record that was there, with nothing written, or none, with a
-- new record in progress.
pub data Claimed (scope key hash : Text) (w w' : World) : Option IdemRecord → Type 0 where
  taken :
      (r : IdemRecord)
      → find (is_for scope key) w.db.idempotency ≡ some r
      → Same w w'
      → Claimed scope key hash w w' (some r)
  fresh :
      find (is_for scope key) w.db.idempotency ≡ none
      → w'.db ≡ record w.db { idempotency = fresh_claim scope key hash ∷ w.db.idempotency }
      → w'.deferred ≡ w.deferred
      → Claimed scope key hash w w' none

pub lock_key-Same :
    {u : Unit {0}} {w' : World} (scope key : Text) (w : World)
    → lock_key scope key w ≡ (ok u, w')
    → Same w w'
unfolding lock_key
lock_key-Same scope key w h =
    let (_, q) = ok-eq-ok (call-eq-ok _ _ (map_err-eq-ok _ _ _ h)) in
    Same-trans (record { db = refl; deferred = refl }) (Same-of_eq q)

fetch-found :
    {r : IdemRecord} {w' : World} (scope key : Text) (w : World)
    → fetch scope key w ≡ (ok r, w')
    → (find (is_for scope key) w.db.idempotency ≡ some r) × Same w w'
unfolding fetch
fetch-found {r} scope key w h = elim (Option-cases (find (is_for scope key) w.db.idempotency)) [
  | inl absent ↦ (let k = rw absent at (call-eq-ok _ _ (map_err-eq-ok _ _ _ h)) in cc)
  | inr (x, there) ↦
      (let (v, q) = ok-eq-ok (rw there at (call-eq-ok _ _ (map_err-eq-ok _ _ _ h))) in
        (
          there ∙ ap (λ y. some y) v,
          Same-trans (record { db = refl; deferred = refl }) (Same-of_eq q),
        ))
]

module _ (scope key hash : Text) {w' : World} where
  insert_claim-Claimed :
      {b : Bool} (w : World)
      → insert_claim scope key hash w ≡ (ok b, w')
      → ((b ≡ true) × Claimed scope key hash w w' none)
        ⊎ ((b ≡ false)
            × ((r : IdemRecord) × (find (is_for scope key) w.db.idempotency ≡ some r) × Same w w'))
  unfolding insert_claim
  insert_claim-Claimed w h = elim (Option-cases (find (is_for scope key) w.db.idempotency)) [
    | inl absent ↦
        (let (i, q) = ok-eq-ok (rw (absent, insert_claim) at h) in
          inl (sym i, fresh absent (ap (λ (x : World). x.db) q) (ap (λ (x : World). x.deferred) q)))
    | inr (x, there) ↦
        (let (i, q) = ok-eq-ok (rw (there, insert_claim) at h) in
          inr (sym i, (x, there, Same-of_eq q)))
  ]

  claim_insert-Claimed :
      {b : Bool} (w : World)
      → call (insert_claim scope key hash) w ≡ (ok b, w')
      → ((b ≡ true) × Claimed scope key hash w w' none)
        ⊎ ((b ≡ false)
            × ((r : IdemRecord) × (find (is_for scope key) w.db.idempotency ≡ some r) × Same w w'))
  claim_insert-Claimed w h =
      elim (insert_claim-Claimed (record w { calls = rest_calls w.calls }) (call-eq-ok _ _ h)) [
        | inl (t, fresh a e f) ↦ inl (t, fresh a e f)
        | inr (t, (x, there, s)) ↦ inr (t, (x, there, record { db = s.db; deferred = s.deferred }))
      ]

pub claim-Claimed :
    {o : Option IdemRecord} {w' : World} (scope key hash : Text) (w : World)
    → claim scope key hash w ≡ (ok o, w')
    → Claimed scope key hash w w' o
unfolding claim
claim-Claimed {o} {w'} scope key hash w h = >>=-elim _ _ _ h λ inserted w1 h1 k1.
    elim (claim_insert-Claimed scope key hash w (map_err-eq-ok _ _ _ h1)) [
      | inl (t, fresh absent e f) ↦
          (let (v, s) = pure-eq-ok _ _ (rw t at k1) in
            subst (λ x. Claimed scope key hash w w' x) v (fresh absent (s.db ∙ e) (s.deferred ∙ f)))
      | inr (t, (x, there, s)) ↦ >>=-elim _ _ _ (rw t at k1) λ r w2 h2 k2.
          (let (there2, s2) = fetch-found scope key w1 h2 in
            let (v, s3) = pure-eq-ok _ _ k2 in
            subst (λ y. Claimed scope key hash w w' y) v
              (taken r
                (subst (λ (d : Db). find (is_for scope key) d.idempotency ≡ some r) s.db there2)
                (Same-trans s (Same-trans s2 s3))))
    ]

-- `Complete` writes no record of another key.
pub complete_rows_absent :
    (scope key : Text) (status : ℕ) (body : Body) (tx : Option ℕ) (rs : List IdemRecord)
    → find (is_for scope key) rs ≡ none
    → complete_rows scope key status body tx rs ≡ rs
unfolding complete_rows
complete_rows_absent scope key status body tx [] h = refl
complete_rows_absent scope key status body tx (r ∷ rs) h = elim (Bool-cases (is_for scope key r)) [
  | inl hit ↦ (let k = rw hit at h in cc)
  | inr miss ↦ rw (miss, complete_rows_absent scope key status body tx rs (rw miss at h))
]

-- `Complete` after `Claim` writes the claimed record, and no other.
pub complete_rows_fresh :
    (scope key hash : Text) (status : ℕ) (body : Body) (tx : Option ℕ) (rs : List IdemRecord)
    → find (is_for scope key) rs ≡ none
    → complete_rows scope key status body tx (fresh_claim scope key hash ∷ rs)
      ≡ complete_row status body tx (fresh_claim scope key hash) ∷ rs
unfolding complete_rows is_for fresh_claim
complete_rows_fresh scope key hash status body tx rs h =
    let s : text_eq scope scope ≡ true = (text_eq_iff scope scope).1 refl in
    let k : text_eq key key ≡ true = (text_eq_iff key key).1 refl in
    rw (s, k, complete_rows_absent scope key status body tx rs h)

-- ===== src/Idempotency/Kept.antt =====
-- How the statements of internal/idempotency/record.go treat the record of a key.
use fault_tolerant_payment_l.Base.{
  ℕ, ◌≡◌, refl, sym, ◌∙◌, ap, Text, text_eq, text_eq_iff, Bool, true, false, ◌&&◌, Option, none,
  some, List, [], ◌∷◌, find, arith, Bool-cases, inl, inr,
}
use fault_tolerant_payment_l.Store.Schema.{IdemRecord, IdemState, completed, Body}
use fault_tolerant_payment_l.Store.Keeps.{Keeps, call-Keeps, map_err-Keeps}
use fault_tolerant_payment_l.Idempotency.{
  is_for, is_in_progress, fresh_claim, complete_row, complete_rows, discard_rows, discard,
}
use fault_tolerant_payment_l.Idempotency.Laws.{complete_rows_fresh}

finished : (b : Bool) (s : IdemState) → s ≡ completed → (b && is_in_progress s) ≡ false
unfolding is_in_progress
finished true s done = rw done refl
finished false s done = refl

module _ (scope key : Text) (i : IdemRecord) where
  -- A key that was claimed and completed was another one.
  pub find-complete_rows :
      (s k hash : Text) (status : ℕ) (body : Body) (tx : Option ℕ) (is : List IdemRecord)
      → find (is_for s k) is ≡ none
      → find (is_for scope key) is ≡ some i
      → find (is_for scope key) (complete_rows s k status body tx (fresh_claim s k hash ∷ is))
        ≡ some i
  unfolding is_for complete_row fresh_claim
  find-complete_rows s k hash status body tx is absent there =
      elim (Bool-cases (text_eq s scope && text_eq k key)) [
        | inl same ↦
            (let a : s ≡ scope = (text_eq_iff s scope).0 (ground (arith, same)) in
              let b : k ≡ key = (text_eq_iff k key).0 (ground (arith, same)) in
              let clash : find (is_for scope key) is ≡ none =
                ap (λ x. find (is_for x key) is) (sym a)
                ∙ ap (λ x. find (is_for s x) is) (sym b)
                ∙ absent in
              cc)
        | inr other ↦
            ap (find (is_for scope key)) (complete_rows_fresh s k hash status body tx is absent)
            ∙ rw other there
      ]

  -- `Discard` deletes no record that is completed.
  find-discard_rows :
      (s k : Text) (is : List IdemRecord)
      → i.state ≡ completed
      → find (is_for scope key) is ≡ some i
      → find (is_for scope key) (discard_rows s k is) ≡ some i
  unfolding discard_rows is_in_progress
  find-discard_rows s k [] done there = there
  find-discard_rows s k (r ∷ rs) done there = elim (Bool-cases (is_for scope key r)) [
    | inl hit ↦
        (let same : r ≡ i = cc in
          let kept : (is_for s k r && is_in_progress r.state) ≡ false =
            finished (is_for s k r) r.state (ap (λ (x : IdemRecord). x.state) same ∙ done) in
          rw (kept, hit) (ap some same))
    | inr miss ↦
        (let rest = find-discard_rows s k rs done (rw miss at there) in
          elim (Bool-cases (is_for s k r && is_in_progress r.state)) [
            | inl gone ↦ rw gone rest
            | inr kept ↦ rw (kept, miss) rest
          ])
  ]

  pub discard-Keeps :
      (s k : Text)
      → i.state ≡ completed
      → Keeps (λ w. find (is_for scope key) w.db.idempotency ≡ some i) (discard s k)
  unfolding discard
  discard-Keeps s k done =
      map_err-Keeps _ _ _
        (call-Keeps _ (λ w cs p. p) _ λ w p. find-discard_rows s k w.db.idempotency done p)

-- ===== src/Store/Checks.antt =====
-- Actions that read the world and either pass or fail.
use fault_tolerant_payment_l.Base.{◌≡◌, refl, ◌∙◌, ◌⊎◌, inl, inr, Bool, true, false}
use fault_tolerant_payment_l.Apperr.{GoError}
use fault_tolerant_payment_l.Store.World.{World, Exec, ok, err, raise_if, ◌>>◌}
use fault_tolerant_payment_l.Store.Inversion.{>>-run, >>-fail}

-- The action leaves the world as it is, with a result or an error.
abbrev pub Checked : {A : Type 0} → Exec A → World → Type 0
Checked {A} m w = ((a : A) × (m w ≡ (ok a, w))) ⊎ ((e : GoError) × (m w ≡ (err e, w)))

pub raise_if-Checked : (b : Bool) (e : GoError) (w : World) → Checked (raise_if b e) w
unfolding raise_if
raise_if-Checked true e w = inr (e, refl)
raise_if-Checked false e w = inl (tt, refl)

pub >>-Checked :
    {A B : Type 0} (m : Exec A) (n : Exec B) (w : World)
    → Checked m w
    → Checked n w
    → Checked (m >> n) w
>>-Checked m n w (inl (a, p)) (inl (b, q)) = inl (b, >>-run m n w p ∙ q)
>>-Checked m n w (inl (a, p)) (inr (e, q)) = inr (e, >>-run m n w p ∙ q)
>>-Checked m n w (inr (e, p)) q = inr (e, >>-fail m n w p)

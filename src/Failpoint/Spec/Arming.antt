-- ===== src/Failpoint/Spec/Arming.antt =====
-- What `Arm` of internal/failpoint/failpoint.go does to the registry.
use fault_tolerant_payment_l.Base.{
  ℕ, ◌<◌, ◌^◌, ◌≡◌, refl, sym, subst, ◌∙◌, ap, Text, text_eq, text_eq_iff, cut_or_all, cut, itoa,
  atoi, atoi-itoa, true, false, Option, none, some, [], ◌∷◌, pos, Bool-cases, inl, inr,
}
use fault_tolerant_payment_l.Failpoint.{
  Kind, error, panic, sleep, Action, Actions, Registry, lookup, delete, assign, disarm,
}
use fault_tolerant_payment_l.Failpoint.Spec.{
  is_known, SpecError, Request, arming, disarming, refused, counted, read_counted, read_timed,
  read_request, obey, arm, describe,
}

lookup-delete_other :
    (m n : Text) (others : Actions)
    → text_eq m n ≡ false
    → lookup m (delete n others) ≡ lookup m others
unfolding lookup delete
lookup-delete_other m n [] h = refl
lookup-delete_other m n ((k, a) ∷ others) h = elim (Bool-cases (text_eq n k)) [
  | inl hit ↦
      (let same : n ≡ k = (text_eq_iff n k).0 hit in
        let miss : text_eq m k ≡ false = ap (text_eq m) (sym same) ∙ h in
        rw (hit, miss) (lookup-delete_other m n others h))
  | inr miss ↦ rw (miss, lookup-delete_other m n others h) refl
]

lookup-assign_other :
    (m n : Text) (a : Action) (others : Actions)
    → text_eq m n ≡ false
    → lookup m (assign n a others) ≡ lookup m others
unfolding lookup assign
lookup-assign_other m n a others h = rw h (lookup-delete_other m n others h)

-- how a registry compares with the one before, for an answer about one failpoint
abbrev pub Local : Text → Registry → Option SpecError × Registry → Type 0
Local name r (e, r') =
    ((x : SpecError) → e ≡ some x → r' ≡ r)
    × (r'.enabled ≡ r.enabled)
    × ((m : Text) → text_eq m name ≡ false → lookup m r'.actions ≡ lookup m r.actions)

obey-Local :
    (parse_duration : Text → Option ℕ) (name : Text) (q : Request) (r : Registry)
    → Local name r (obey parse_duration name q r)
unfolding obey disarm
obey-Local p name (arming a) r = (λ x h. cc, refl, λ m h. lookup-assign_other m name a r.actions h)
obey-Local p name disarming r = (λ x h. cc, refl, λ m h. lookup-delete_other m name r.actions h)
obey-Local p name (refused e) r = (λ x h. refl, refl, λ m h. refl)

pub arm-obey :
    (parse_duration : Text → Option ℕ) (name spec : Text) (r : Registry)
    → r.enabled ≡ true
    → is_known name ≡ true
    → arm parse_duration name spec r
      ≡ obey parse_duration name (read_request parse_duration (cut_or_all b':' spec)) r
unfolding arm
arm-obey p name spec r on known = rw (on, known) refl

-- `Arm` leaves every other failpoint as it was, and changes nothing at all when it reports an error.
pub arm-Local :
    (parse_duration : Text → Option ℕ) (name spec : Text) (r : Registry)
    → Local name r (arm parse_duration name spec r)
unfolding arm
arm-Local p name spec r = elim (Bool-cases r.enabled) [
  | inr off ↦ rw off (λ x h. refl, refl, λ m h. refl)
  | inl on ↦ elim (Bool-cases (is_known name)) [
    | inr unknown ↦ rw (on, unknown) (λ x h. refl, refl, λ m h. refl)
    | inl listed ↦
        subst (Local name r) (sym (arm-obey p name spec r on listed))
          (obey-Local p name (read_request p (cut_or_all b':' spec)) r)
  ]
]

read_counted-filled :
    (kind : Kind) (s : Text) (n : ℕ)
    → atoi s ≡ some (pos n)
    → read_counted kind s ≡ arming (record { kind = kind; remaining = some n })
unfolding read_counted atoi
read_counted-filled kind [] n h = cc
read_counted-filled kind (c ∷ cs) n h = ap (counted kind) h

counted-itoa :
    (kind : Kind) (n : ℕ)
    → n < 2 ^ 63
    → read_counted kind (itoa n) ≡ arming (record { kind = kind; remaining = some n })
counted-itoa kind n small = read_counted-filled kind (itoa n) n (atoi-itoa n small)

read_request-describe :
    (parse_duration : Text → Option ℕ) (show_duration : ℕ → Text) (kind : Kind) (count : Option ℕ)
    → ((n : ℕ) → count ≡ some n → n < 2 ^ 63)
    → ((d : ℕ) → kind ≡ sleep d → (count ≡ none) × (parse_duration (show_duration d) ≡ some d))
    → read_request parse_duration
        (cut_or_all b':' (describe show_duration (record { kind = kind; remaining = count })))
      ≡ arming (record { kind = kind; remaining = count })
unfolding read_request describe cut_or_all cut read_timed text_eq
read_request-describe p s error none small timed = refl
read_request-describe p s error (some n) small timed = counted-itoa error n (small n refl)
read_request-describe p s panic none small timed = refl
read_request-describe p s panic (some n) small timed = counted-itoa panic n (small n refl)
read_request-describe p s (sleep d) count small timed =
    let (always, read) = timed d refl in rw (always, read) refl

-- Arming a known failpoint with the description that `Active` gives of an action restores the action, if its count fits
-- in an int, and if a sleep has no count and its duration is read back from its text.
pub arm-describe :
    (parse_duration : Text → Option ℕ) (show_duration : ℕ → Text) (name : Text) (a : Action)
    (r : Registry)
    → r.enabled ≡ true
    → is_known name ≡ true
    → ((n : ℕ) → a.remaining ≡ some n → n < 2 ^ 63)
    → ((d : ℕ)
        → a.kind ≡ sleep d
        → (a.remaining ≡ none) × (parse_duration (show_duration d) ≡ some d))
    → arm parse_duration name (describe show_duration a) r
      ≡ (none, record r { actions = assign name a r.actions })
unfolding obey
arm-describe p s name a r on listed small timed =
    arm-obey p name (describe s a) r on listed
    ∙ ap (λ q. obey p name q r) (read_request-describe p s a.kind a.remaining small timed)
